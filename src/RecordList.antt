-- ===== src/RecordList.antt =====
-- src/primitives/record_list.cpp, and the iterator over such a list of
-- src/primitives/record_multimap_iterator.cpp: linked lists of records in one manager.
pub mod Linked
use bitprim_database.Prelude.{ℕ, zero, suc, ◌+◌, ◌-◌, ◌^◌, List, [], ◌∷◌, ◌==◌, if◌then◌else◌}
use bitprim_database.Run.{Run, ok, stuck, ◌>>=◌}
use bitprim_database.Endian.{Endian, to_le, from_le}
use bitprim_database.MemoryMap.{Os, load, save}
use bitprim_database.RecordManager
use bitprim_database.RecordManager.{RecordManager, new_records}

-- `std::numeric_limits<array_index>::max()`
abbrev pub empty : ℕ
empty = 2 ^ 32 - 1

module _ ⦃en : Endian⦄ where
  -- A new record before the record `index`.
  unfoldable pub insert : Os → ℕ → RecordManager → Run (ℕ × RecordManager)
  insert os index m = do
    (new_index, m') ← new_records os 1 m
    file ← save m'.file (RecordManager.get m' new_index) (to_le 4 index)
    ok (new_index, record m' { file = file })

  unfoldable pub create : Os → RecordManager → Run (ℕ × RecordManager)
  create os m = insert os empty m

  unfoldable pub next : RecordManager → ℕ → Run ℕ
  next m index = do bytes ← load m.file (RecordManager.get m index) 4; ok (from_le bytes)

  -- The indexes from `index` on that the iterator stops at.
  unfoldable pub iterate : RecordManager → ℕ → ℕ → Run (List ℕ)
  iterate m zero index = stuck
  iterate m (suc fuel) index =
      if index == empty
      then ok []
      else do following ← next m index; rest ← iterate m fuel following; ok (index ∷ rest)

-- The place of the data of a record.
unfoldable pub get : RecordManager → ℕ → ℕ
get m index = RecordManager.get m index + 4
