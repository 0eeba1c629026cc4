-- ===== src/MemoryMap.antt =====
-- The memory mapped file of src/memory/memory_map.cpp, one thread at a time, so without its locks.
-- The system calls are a parameter, `Os`. Bytes are reached through `load` and `save`, which fault
-- outside of the mapping.

pub mod Access
pub mod Editing
pub mod Growth
pub mod Lifecycle
use bitprim_database.Prelude.{
  ℕ, zero, suc, ◌+◌, ◌≤◌, ◌<◌, ◌^◌, ◌≡◌, Bool, true, false, not, ◌&&◌, Option, none, some, arith,
  ltb, leb, ◌==◌, if◌then◌else◌, length, Bytes,
}
use bitprim_database.Run.{Run, ok, thrown, fault}
use bitprim_database.Bytes.{Memory, read_bytes, write_bytes}

-- What the operating system answers, and the product in floating point that sets a new size.
pub record Os : Type 0 where
  pub has_mremap : Bool
  pub mmap_succeeds : ℕ → Bool
  pub mremap_succeeds : ℕ → ℕ → Bool
  pub munmap_succeeds : Bool
  pub madvise_succeeds : Bool
  pub msync_succeeds : Bool
  pub ftruncate_succeeds : ℕ → Bool
  pub fsync_succeeds : Bool
  pub close_succeeds : Bool
  pub expand : ℕ → ℕ → ℕ

-- `mapped` says that `data_` points to a live mapping of `file_size` bytes; `disk_size` is the
-- length that the file system keeps for the file.
pub record MemoryMap : Type 0 where
  pub bytes : Memory
  pub mapped : Bool
  pub file_size : ℕ
  pub logical_size : ℕ
  pub disk_size : ℕ
  pub closed : Bool
  pub expansion : ℕ

-- The percentage increase.
abbrev pub default_expansion : ℕ
default_expansion = 50

-- `stat` is none where `fstat` fails.
unfoldable pub file_size : Bool → Option ℕ → ℕ
file_size false stat = 0
file_size true none = 0
file_size true (some st_size) = st_size

unfoldable pub memory_map : Memory → Bool → Option ℕ → ℕ → MemoryMap
memory_map content opened stat expansion = record {
  bytes = content;
  mapped = false;
  file_size = file_size opened stat;
  logical_size = file_size opened stat;
  disk_size = file_size opened stat;
  closed = true;
  expansion = expansion;
}

-- The argument says whether `data_` is other than `MAP_FAILED`.
unfoldable pub validate : Bool → ℕ → MemoryMap → Bool × MemoryMap
validate false size f = (false, record f { mapped = false; file_size = 0 })
validate true size f = (true, record f { mapped = true; file_size = size })

unfoldable pub map : Os → ℕ → MemoryMap → Bool × MemoryMap
map os size f = if size == 0 then (false, f) else validate (os.mmap_succeeds size) size f

unfoldable pub unmap : Os → MemoryMap → Bool × MemoryMap
unmap os f = (os.munmap_succeeds, record f { mapped = false; file_size = 0 })

unfoldable pub remap : Os → ℕ → MemoryMap → Bool × MemoryMap
remap os size f =
    if os.has_mremap
    then validate (os.mremap_succeeds f.file_size size) size f
    else let (unmapped, f') = unmap os f in if unmapped then map os size f' else (false, f')

-- `ftruncate` keeps the bytes up to the old length, and those that it adds are zero.
unfoldable pub truncate : Os → ℕ → MemoryMap → Bool × MemoryMap
truncate os size f =
    if os.ftruncate_succeeds size
    then (
      true,
      record f { bytes = λ a. if ltb a f.disk_size then f.bytes a else 0; disk_size = size },
    )
    else (false, f)

-- Without `mremap` the file is unmapped first.
unfoldable pub truncate_mapped : Os → ℕ → MemoryMap → Bool × MemoryMap
truncate_mapped os size f =
    let (unmapped, f₁) = (if os.has_mremap then (true, f) else unmap os f) in
    if unmapped
    then (let (truncated, f₂) = truncate os size f₁ in
        if truncated
        then (if os.has_mremap then remap os size f₂ else map os size f₂)
        else (false, f₂))
    else (false, f₁)

unfoldable pub reserve_by : Os → ℕ → ℕ → MemoryMap → Run MemoryMap
reserve_by os size expansion f =
    if f.closed
    then thrown
    else if ltb f.file_size size
    then (let (grown, f') = truncate_mapped os (os.expand size expansion) f in
        if grown then ok (record f' { logical_size = size }) else thrown)
    else ok (record f { logical_size = size })

unfoldable pub resize : Os → ℕ → MemoryMap → Run MemoryMap
resize os size f = reserve_by os size 0 f

unfoldable pub reserve : Os → ℕ → MemoryMap → Run MemoryMap
reserve os size f = reserve_by os size f.expansion f

unfoldable pub open_map : Os → MemoryMap → Bool × MemoryMap
open_map os f =
    if not f.closed
    then (false, f)
    else let (done, f') = map os f.file_size f in
      if not done
      then (false, f')
      else if not os.madvise_succeeds
      then (false, f')
      else (true, record f' { closed = false })

unfoldable pub flush : Os → MemoryMap → Bool
flush os f = if f.closed then true else os.msync_succeeds

-- The calls after a failed one are not made.
unfoldable pub close : Os → MemoryMap → Bool × MemoryMap
close os f =
    if f.closed
    then (true, f)
    else let f₁ = record f { closed = true } in
      if not os.msync_succeeds
      then (false, f₁)
      else if not os.munmap_succeeds
      then (false, f₁)
      else let f₂ = record f₁ { mapped = false } in
        let (truncated, f₃) = truncate os f.logical_size f₂ in
        if not truncated
        then (false, f₃)
        else if not os.fsync_succeeds
        then (false, f₃)
        else (os.close_succeeds, f₃)

-- Reads and writes through `data_`.
unfoldable pub load : MemoryMap → ℕ → ℕ → Run Bytes
load f a n = if f.mapped && leb (a + n) f.file_size then ok (read_bytes f.bytes a n) else fault

unfoldable pub save : MemoryMap → ℕ → Bytes → Run MemoryMap
save f a bs =
    if f.mapped && leb (a + length bs) f.file_size
    then ok (record f { bytes = write_bytes f.bytes a bs })
    else fault
