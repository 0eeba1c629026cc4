-- ===== src/RecordMultimap.antt =====
-- include/bitcoin/database/impl/record_multimap.ipp: a record hash table that maps each key to the
-- first record of a linked list of rows in another file.
pub mod Rows
pub mod Adding
pub mod Deleting
use bitprim_database.Prelude.{
  ℕ, ◌+◌, Bool, true, false, Option, none, some, ◌==◌, if◌then◌else◌, Bytes,
}
use bitprim_database.Run.{Run, ok, ◌>>=◌}
use bitprim_database.Endian.{Endian, to_le, from_le}
use bitprim_database.MemoryMap.{Os, MemoryMap, load, save}
use bitprim_database.RecordManager.{RecordManager}
use bitprim_database.RecordList as Records
use bitprim_database.RecordList.{empty}
use bitprim_database.Buckets.{Hash}
use bitprim_database.RecordHashTable
use bitprim_database.RecordHashTable.{RecordHashTable, hash_table_record_size}

-- `map_` and `records_`, which are in distinct files.
pub record RecordMultimap : Type 0 where
  pub table : RecordHashTable
  pub rows : RecordManager

unfoldable pub hash_table_multimap_record_size : ℕ → ℕ
hash_table_multimap_record_size key_size = hash_table_record_size key_size 4

-- The multimap with other bytes in the file of its table.
abbrev pub with_table_file : MemoryMap → RecordMultimap → RecordMultimap
with_table_file f mm = record mm {
  table = record mm.table { manager = record mm.table.manager { file = f } };
}

module _ ⦃en : Endian⦄ where
  -- The index at the place of a value.
  unfoldable pub read_start : RecordMultimap → ℕ → Run ℕ
  read_start mm address = do bytes ← load mm.table.manager.file address 4; ok (from_le bytes)

  unfoldable pub write_start : RecordMultimap → ℕ → ℕ → Run RecordMultimap
  write_start mm address start = do
    file ← save mm.table.manager.file address (to_le 4 start)
    ok (with_table_file file mm)

  -- The bytes of a row, behind the link of its record.
  unfoldable pub write_row : RecordManager → ℕ → Bytes → Run RecordManager
  write_row m index row = do
    file ← save m.file (Records.get m index) row
    ok (record m { file = file })

  unfoldable pub add_to_list : Os → ℕ → Bytes → RecordMultimap → Run RecordMultimap
  add_to_list os address row mm = do
    old_begin ← read_start mm address
    (new_begin, m) ← Records.insert os old_begin mm.rows
    m' ← write_row m new_begin row
    write_start (record mm { rows = m' }) address new_begin

  module _ (hash : Hash) where
    unfoldable pub lookup : Bytes → RecordMultimap → Run ℕ
    lookup key mm = do
      start_info ← RecordHashTable.find hash key mm.table
      elim start_info [ none ↦ ok empty | some address ↦ read_start mm address ]

    -- The first system is that of the file of the table.
    unfoldable pub create_new : Os → Os → Bytes → Bytes → RecordMultimap → Run RecordMultimap
    create_new table_os os key row mm = do
      (first, m) ← Records.create os mm.rows
      m' ← write_row m first row
      t ← RecordHashTable.store hash table_os key (to_le 4 first) mm.table
      ok (record { table = t; rows = m' })

    unfoldable pub add_row : Os → Os → Bytes → Bytes → RecordMultimap → Run RecordMultimap
    add_row table_os os key row mm = do
      start_info ← RecordHashTable.find hash key mm.table
      elim start_info [
        | none ↦ create_new table_os os key row mm
        | some address ↦ add_to_list os address row mm
      ]

    -- The last row of a key goes with the key.
    unfoldable pub delete_at : Bytes → ℕ → RecordMultimap → Run (Bool × RecordMultimap)
    delete_at key address mm = do
      old_begin ← read_start mm address
      new_begin ← Records.next mm.rows old_begin
      if new_begin == empty
          then (do
            (done, t) ← RecordHashTable.unlink hash key mm.table
            ok (done, record mm { table = t }))
          else (do mm' ← write_start mm address new_begin; ok (true, mm'))

    unfoldable pub delete_last_row : Bytes → RecordMultimap → Run (Bool × RecordMultimap)
    delete_last_row key mm = do
      start_info ← RecordHashTable.find hash key mm.table
      elim start_info [ none ↦ ok (false, mm) | some address ↦ delete_at key address mm ]
