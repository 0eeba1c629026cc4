-- ===== src/RecordManager.antt =====
-- src/primitives/record_manager.cpp: records of a fixed size behind a header and their count. The
-- constructor's file is held here, and the hash table header works on the same file.
pub mod Positions
pub mod Allocation
pub mod Persistence
pub mod Creation
use bitprim_database.Prelude.{
  ℕ, ◌+◌, ◌-◌, ◌*◌, ◌/◌, ◌%◌, Bool, true, false, not, leb, ◌==◌, if◌then◌else◌,
}
use bitprim_database.Run.{Run, ok, ◌>>=◌}
use bitprim_database.Endian.{Endian, to_le, from_le, array_index_bound, file_offset_bound}
use bitprim_database.MemoryMap.{Os, MemoryMap, resize, reserve, load, save}

pub record RecordManager : Type 0 where
  pub file : MemoryMap
  pub header_size : ℕ
  pub record_count : ℕ
  pub record_size : ℕ

abbrev pub minimum_records_size : ℕ
minimum_records_size = 4

unfoldable pub record_hash_table_header_size : ℕ → ℕ
record_hash_table_header_size buckets = 4 + minimum_records_size * buckets

unfoldable pub record_manager : MemoryMap → ℕ → ℕ → RecordManager
record_manager file header_size record_size = record {
  file = file;
  header_size = header_size;
  record_count = 0;
  record_size = record_size;
}

unfoldable pub record_to_position : RecordManager → ℕ → ℕ
record_to_position m index = (4 + index * m.record_size) % file_offset_bound

unfoldable pub position_to_record : RecordManager → ℕ → ℕ
position_to_record m position =
    (position + file_offset_bound - 4) % file_offset_bound / m.record_size % array_index_bound

-- The first byte behind `index` records.
unfoldable pub end_of : RecordManager → ℕ → ℕ
unfolding record_to_position
end_of m index = (m.header_size + record_to_position m index) % file_offset_bound

-- The distance of a record from `data_`.
unfoldable pub get : RecordManager → ℕ → ℕ
unfolding record_to_position
get m index = (m.header_size + record_to_position m index) % file_offset_bound

unfoldable pub count : RecordManager → ℕ
count m = m.record_count

unfoldable pub set_count : ℕ → RecordManager → RecordManager
set_count value m = record m { record_count = value }

module _ ⦃en : Endian⦄ where
  unfoldable pub read_count : RecordManager → Run RecordManager
  read_count m = do
    bytes ← load m.file m.header_size 4
    ok (record m { record_count = from_le bytes })

  unfoldable pub write_count : RecordManager → Run RecordManager
  write_count m = do
    file ← save m.file m.header_size (to_le 4 m.record_count)
    ok (record m { file = file })

  -- The result says whether the file was new.
  unfoldable pub create : Os → RecordManager → Run (Bool × RecordManager)
  create os m = if not (m.record_count == 0) then ok (false, m) else do
    file ← resize os (end_of m m.record_count) m.file
    m' ← write_count (record m { file = file })
    ok (true, m')

  -- The result says whether the file holds the records that it counts.
  unfoldable pub start : RecordManager → Run (Bool × RecordManager)
  start m = do m' ← read_count m; ok (leb (end_of m' m'.record_count) m'.file.file_size, m')

  unfoldable pub sync : RecordManager → Run RecordManager
  sync m = write_count m

-- The index of the first of the new records.
unfoldable pub new_records : Os → ℕ → RecordManager → Run (ℕ × RecordManager)
new_records os added m =
    let total = (m.record_count + added) % array_index_bound in
    do
      file ← reserve os (end_of m total) m.file
      ok (m.record_count, record m { file = file; record_count = total })
