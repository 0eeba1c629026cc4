-- ===== src/HashTableHeader.antt =====
-- include/bitcoin/database/impl/hash_table_header.ipp: the array of buckets at the start of a hash
-- table's file. `width` is the size of a value: 4 bytes in a record table, 8 in a slab table.
pub mod Creation
use bitprim_database.Prelude.{
  ℕ, ◌+◌, ◌-◌, ◌*◌, ◌^◌, Bool, true, false, ◌||◌, ltb, ◌==◌, if◌then◌else◌, replicate,
}
use bitprim_database.Run.{Run, ok, ◌>>=◌}
use bitprim_database.Endian.{Endian, to_le, from_le}
use bitprim_database.MemoryMap.{Os, MemoryMap, resize, load, save}

-- The largest value, with all bits set.
abbrev pub empty : ℕ → ℕ
empty width = 256 ^ width - 1

abbrev pub empty_byte : ℕ
empty_byte = 255

unfoldable pub item_position : ℕ → ℕ → ℕ
item_position width index = 4 + index * width

module _ ⦃en : Endian⦄ (width : ℕ) where
  unfoldable pub create : Os → ℕ → MemoryMap → Run (Bool × MemoryMap)
  create os buckets file = if buckets == 0 then ok (false, file) else do
    resized ← resize os (item_position width buckets) file
    sized ← save resized 0 (to_le 4 buckets)
    filled ← save sized 4 (replicate (buckets * width) empty_byte)
    ok (true, filled)

  unfoldable pub start : ℕ → MemoryMap → Run Bool
  start buckets file =
      if ltb file.file_size (item_position width buckets)
      then ok false
      else do bytes ← load file 0 4; ok (buckets == 0 || from_le bytes == buckets)

  unfoldable pub read : MemoryMap → ℕ → Run ℕ
  read file index = do bytes ← load file (item_position width index) width; ok (from_le bytes)

  unfoldable pub write : MemoryMap → ℕ → ℕ → Run MemoryMap
  write file index value = save file (item_position width index) (to_le width value)
