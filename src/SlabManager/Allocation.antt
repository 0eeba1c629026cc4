-- ===== src/SlabManager/Allocation.antt =====
-- `new_slab` of src/primitives/slab_manager.cpp: the next position, and room for its bytes.
use bitprim_database.Prelude.{ℕ, ◌+◌, ◌%◌, ◌≤◌, ◌<◌, ◌≡◌, arith}
use bitprim_database.Run.{ok}
use bitprim_database.Endian.{file_offset_bound}
use bitprim_database.MemoryMap.{Os, MemoryMap, reserve}
use bitprim_database.MemoryMap.Growth.{Works, IsLive, Grew, max_exact, reserve_by-Grew}
use bitprim_database.SlabManager.{SlabManager, get, new_slab}

-- Where 64 bits suffice.
pub get-add :
    (m : SlabManager) (position : ℕ)
    → m.header_size + position < file_offset_bound
    → get m position ≡ m.header_size + position
unfolding get
get-add m position h = omega arith

-- A started manager: the file is open and holds the payload, which counts its own size.
pub record IsReady (m : SlabManager) : Type 0 where
  pub live : IsLive m.file
  pub holds : m.header_size + m.payload_size ≤ m.file.file_size
  pub sized : 8 ≤ m.payload_size

-- The manager with `n` more bytes of payload in the file `f`.
abbrev pub added : ℕ → MemoryMap → SlabManager → SlabManager
added n f m = record m { file = f; payload_size = m.payload_size + n }

-- `new_slab` on a ready manager, where the system calls succeed and the new size is exact as a
-- double, returns the old payload size, adds the size to it, and leaves a file that has grown to
-- hold the payload and keeps every byte.
pub new_slab-added :
    {os : Os} (m : SlabManager) (n : ℕ)
    → Works os
    → IsReady m
    → m.header_size + (m.payload_size + n) ≤ max_exact
    → (f : MemoryMap) × (new_slab os n m ≡ ok (m.payload_size, added n f m))
      × Grew (m.header_size + (m.payload_size + n)) m.file f
unfolding new_slab reserve
new_slab-added {os} m n w ready room =
    let size : (m.header_size + m.payload_size + n) % file_offset_bound
        ≡ m.header_size + (m.payload_size + n) =
      omega arith in
    let wrap : (m.payload_size + n) % file_offset_bound ≡ m.payload_size + n = omega arith in
    let (f, run, grew) =
      reserve_by-Grew w ready.live (m.header_size + (m.payload_size + n)) m.file.expansion room in
    (f, rw (size, wrap, run), grew)
