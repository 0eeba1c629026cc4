-- ===== src/SlabManager.antt =====
-- src/primitives/slab_manager.cpp: slabs of any size behind a header and the size of the payload,
-- which counts its own eight bytes.
pub mod Allocation
pub mod Persistence
pub mod Creation
use bitprim_database.Prelude.{ℕ, ◌+◌, ◌*◌, ◌%◌, Bool, true, false, not, leb, ◌==◌, if◌then◌else◌}
use bitprim_database.Run.{Run, ok, ◌>>=◌}
use bitprim_database.Endian.{Endian, to_le, from_le, file_offset_bound}
use bitprim_database.MemoryMap.{Os, MemoryMap, resize, reserve, load, save}

pub record SlabManager : Type 0 where
  pub file : MemoryMap
  pub header_size : ℕ
  pub payload_size : ℕ

abbrev pub minimum_slabs_size : ℕ
minimum_slabs_size = 8

unfoldable pub slab_hash_table_header_size : ℕ → ℕ
slab_hash_table_header_size buckets = 8 + minimum_slabs_size * buckets

unfoldable pub slab_manager : MemoryMap → ℕ → SlabManager
slab_manager file header_size = record { file = file; header_size = header_size; payload_size = 8 }

-- The distance of a slab from `data_`.
unfoldable pub get : SlabManager → ℕ → ℕ
get m position = (m.header_size + position) % file_offset_bound

module _ ⦃en : Endian⦄ where
  unfoldable pub read_size : SlabManager → Run SlabManager
  read_size m = do
    bytes ← load m.file m.header_size 8
    ok (record m { payload_size = from_le bytes })

  unfoldable pub write_size : SlabManager → Run SlabManager
  write_size m = do
    file ← save m.file m.header_size (to_le 8 m.payload_size)
    ok (record m { file = file })

  unfoldable pub create : Os → SlabManager → Run (Bool × SlabManager)
  create os m = if not (m.payload_size == 8) then ok (false, m) else do
    file ← resize os ((m.header_size + m.payload_size) % file_offset_bound) m.file
    m' ← write_size (record m { file = file })
    ok (true, m')

  unfoldable pub start : SlabManager → Run (Bool × SlabManager)
  start m = do
    m' ← read_size m
    ok (leb ((m'.header_size + m'.payload_size) % file_offset_bound) m'.file.file_size, m')

  unfoldable pub sync : SlabManager → Run SlabManager
  sync m = write_size m

unfoldable pub new_slab : Os → ℕ → SlabManager → Run (ℕ × SlabManager)
new_slab os size m = do
  file ← reserve os ((m.header_size + m.payload_size + size) % file_offset_bound) m.file
  ok (
    m.payload_size,
    record m { file = file; payload_size = (m.payload_size + size) % file_offset_bound },
  )
