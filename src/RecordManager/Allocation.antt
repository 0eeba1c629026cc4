-- ===== src/RecordManager/Allocation.antt =====
-- `new_records` of src/primitives/record_manager.cpp: the next indexes, and room for their records.
use bitprim_database.Prelude.{ℕ, ◌+◌, ◌%◌, ◌≤◌, ◌<◌, ◌≡◌, arith}
use bitprim_database.Run.{ok}
use bitprim_database.Endian.{array_index_bound}
use bitprim_database.MemoryMap.{MemoryMap, Os, reserve}
use bitprim_database.MemoryMap.Growth.{Works, IsLive, Grew, max_exact, reserve_by-Grew}
use bitprim_database.RecordManager.{RecordManager, end_of, new_records}
use bitprim_database.RecordManager.Positions.{extent, end_of-extent}

-- A started manager: the file is open and holds all counted records.
pub record IsReady (m : RecordManager) : Type 0 where
  pub live : IsLive m.file
  pub holds : extent m m.record_count ≤ m.file.file_size
  pub countable : m.record_count < array_index_bound

-- `n` more records stay within the indexes and within exact sizes.
pub record HasRoom (n : ℕ) (m : RecordManager) : Type 0 where
  pub indexes : m.record_count + n < array_index_bound
  pub exact : extent m (m.record_count + n) ≤ max_exact

-- The manager with `n` more records in the file `f`.
abbrev pub added : ℕ → MemoryMap → RecordManager → RecordManager
added n f m = record m { file = f; record_count = m.record_count + n }

-- `new_records` of `n` on a ready manager, where the system calls succeed and the indexes and sizes
-- have room, returns the old count, adds `n` to it, and leaves a file that has grown to hold all
-- records and keeps every byte.
pub new_records-added :
    {os : Os} (m : RecordManager) (n : ℕ)
    → Works os
    → IsReady m
    → HasRoom n m
    → (f : MemoryMap) × (new_records os n m ≡ ok (m.record_count, added n f m))
      × Grew (extent m (m.record_count + n)) m.file f
unfolding new_records reserve
new_records-added {os} m n w ready room =
    let total = m.record_count + n in
    let size : end_of m total ≡ extent m total =
      end_of-extent m total (omega (arith, room.exact)) in
    let wrap : total % array_index_bound ≡ total = omega (arith, room.indexes) in
    let (f, run, grew) =
      reserve_by-Grew w ready.live (extent m total) m.file.expansion room.exact in
    (f, rw (wrap, size, run), grew)

pub added-IsReady :
    {n : ℕ} {m : RecordManager} {f : MemoryMap}
    → HasRoom n m
    → Grew (extent m (m.record_count + n)) m.file f
    → IsReady (added n f m)
added-IsReady room grew = record { live = grew.live; holds = grew.room; countable = room.indexes }
