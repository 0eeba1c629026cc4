-- ===== src/RecordHashTable.antt =====
-- include/bitcoin/database/impl/record_hash_table.ipp: a hash table with rows of a fixed size.
pub mod Invariant
pub mod Storing
pub mod Finding
pub mod Unlinking
pub mod Editing
use bitprim_database.Prelude.{ℕ, suc, ◌+◌, Bool, Option, Bytes}
use bitprim_database.Run.{Run, ok, ◌>>=◌}
use bitprim_database.Endian.{Endian}
use bitprim_database.MemoryMap.{Os}
use bitprim_database.RecordManager.{RecordManager}
use bitprim_database.RecordRow
use bitprim_database.RecordRow.{layout}
use bitprim_database.Buckets
use bitprim_database.Buckets.{Hash, link_row}

-- The header works on the file of the manager.
pub record RecordHashTable : Type 0 where
  pub key_size : ℕ
  pub buckets : ℕ
  pub manager : RecordManager

-- include/bitcoin/database/primitives/record_hash_table.hpp
unfoldable pub hash_table_record_size : ℕ → ℕ → ℕ
hash_table_record_size key_size value_size = key_size + 4 + value_size

module _ ⦃en : Endian⦄ (hash : Hash) where
  unfoldable pub store : Os → Bytes → Bytes → RecordHashTable → Run RecordHashTable
  store os key value t = do
    (index, m) ← RecordRow.create os t.key_size key value t.manager
    file ← link_row (layout t.key_size m) hash t.buckets m.file key index
    ok (record t { manager = record m { file = file } })

  -- The place of the value in the file. Rows do not overlap, so that no chain has more rows than
  -- the file has bytes.
  unfoldable pub find : Bytes → RecordHashTable → Run (Option ℕ)
  find key t =
      let file = t.manager.file in
      Buckets.find (layout t.key_size t.manager) hash t.buckets (suc file.file_size) file key

  unfoldable pub unlink : Bytes → RecordHashTable → Run (Bool × RecordHashTable)
  unlink key t = do
    let m = t.manager
    (done, file) ←
        Buckets.unlink (layout t.key_size m) hash t.buckets (suc m.file.file_size) m.file key
    ok (done, record t { manager = record m { file = file } })
