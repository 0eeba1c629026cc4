-- ===== src/BlockIndex.antt =====
-- The index of src/databases/block_database.cpp: an array with the position of the block of each
-- height. The manager of its records is all of its state.
pub mod Heights
pub mod Writing
pub mod Zeroing
use bitprim_database.Prelude.{
  ℕ, zero, suc, ◌+◌, ◌-◌, ◌%◌, Bool, true, false, not, Option, none, some, List, [], ◌∷◌, ltb, ◌==◌,
  if◌then◌else◌,
}
use bitprim_database.Run.{Run, ok, ◌>>=◌}
use bitprim_database.Endian.{Endian, to_le, from_le, array_index_bound}
use bitprim_database.MemoryMap.{Os, MemoryMap, load, save}
use bitprim_database.RecordManager
use bitprim_database.RecordManager.{RecordManager, record_manager, new_records}

-- The position of no block.
abbrev pub empty : ℕ
empty = 0

abbrev pub index_header_size : ℕ
index_header_size = 0

abbrev pub index_record_size : ℕ
index_record_size = 8

unfoldable pub index_manager : MemoryMap → RecordManager
index_manager file = record_manager file index_header_size index_record_size

module _ ⦃en : Endian⦄ where
  unfoldable pub read_position : RecordManager → ℕ → Run ℕ
  read_position m height = do bytes ← load m.file (RecordManager.get m height) 8; ok (from_le bytes)

  unfoldable pub exists : RecordManager → ℕ → Run Bool
  exists m height =
      if not (ltb height m.record_count)
      then ok false
      else do position ← read_position m height; ok (not (position == empty))

  -- The heights from `height` on, `left` of them.
  unfoldable pub gaps_loop : RecordManager → ℕ → ℕ → Run (List ℕ)
  gaps_loop m zero height = ok []
  gaps_loop m (suc left) height = do
    position ← read_position m height
    rest ← gaps_loop m left (height + 1)
    ok (if position == empty then height ∷ rest else rest)

  unfoldable pub gaps : RecordManager → Run (List ℕ)
  gaps m = gaps_loop m (RecordManager.count m) 0

  -- The records from `index` on, `left` of them.
  unfoldable pub zeroize_loop : RecordManager → ℕ → ℕ → Run RecordManager
  zeroize_loop m zero index = ok m
  zeroize_loop m (suc left) index = do
    file ← save m.file (RecordManager.get m index) (to_le 8 empty)
    zeroize_loop (record m { file = file }) left (index + 1)

  unfoldable pub zeroize : ℕ → ℕ → RecordManager → Run RecordManager
  zeroize first count m = zeroize_loop m ((first + count) % array_index_bound - first) first

  -- Room for the height, and no blocks at the heights between.
  unfoldable pub extend : Os → ℕ → RecordManager → Run RecordManager
  extend os new_count m =
      let initial_count = RecordManager.count m in
      if ltb initial_count new_count
      then (do
        let create_count = new_count - initial_count
        (first, m') ← new_records os create_count m
        zeroize initial_count (create_count - 1) m')
      else ok m

  unfoldable pub write_position : Os → ℕ → ℕ → RecordManager → Run RecordManager
  write_position os position height m = do
    m' ← extend os ((height + 1) % array_index_bound) m
    file ← save m'.file (RecordManager.get m' height) (to_le 8 position)
    ok (record m' { file = file })

-- The result says whether there was a block to take away.
unfoldable pub unlink : ℕ → RecordManager → Bool × RecordManager
unlink from_height m =
    if ltb from_height (RecordManager.count m)
    then (true, RecordManager.set_count (from_height % array_index_bound) m)
    else (false, m)

-- The highest block, independent of gaps.
unfoldable pub top : RecordManager → Option ℕ
top m = if RecordManager.count m == 0 then none else some (RecordManager.count m - 1)
