-- ===== src/TransactionUnconfirmedDatabase.antt =====
-- src/databases/transaction_unconfirmed_database.cpp: unconfirmed transactions by hash.
pub mod Transactions
use bitprim_database.Prelude.{
  ℕ, ◌+◌, Bool, true, false, not, ◌++◌, Option, is_some, if◌then◌else◌, Bytes,
}
use bitprim_database.Run.{Run, ok, ◌>>=◌}
use bitprim_database.Endian.{Endian, to_le}
use bitprim_database.MemoryMap.{Os, MemoryMap}
use bitprim_database.Buckets.{Hash}
use bitprim_database.SlabHashTable
use bitprim_database.SlabHashTable.{SlabHashTable}
use bitprim_database.SlabFile
use bitprim_database.SlabFile.{initial_map_file_size, slab_map}
use bitprim_database.TransactionResult.{TransactionResult, transaction_result, unconfirmed}

-- The height and the position of a transaction, which `version_lock_size` counts.
abbrev pub version_lock_size : ℕ
version_lock_size = 8

-- `chain::transaction`, as its hash, its bytes and the size that the library tells.
pub record Serialized : Type 0 where
  pub hash : Bytes
  pub body : Bytes
  pub serialized_size : ℕ

pub record TransactionUnconfirmedDatabase : Type 0 where
  pub initial_size : ℕ
  pub lookup_map : SlabHashTable

unfoldable pub transaction_unconfirmed_database : MemoryMap → ℕ → TransactionUnconfirmedDatabase
transaction_unconfirmed_database file buckets = record {
  initial_size = initial_map_file_size buckets;
  lookup_map = slab_map 32 file buckets;
}

abbrev pub with_map :
    SlabHashTable → TransactionUnconfirmedDatabase → TransactionUnconfirmedDatabase
with_map t db = record db { lookup_map = t }

module _ ⦃en : Endian⦄ where
  unfoldable pub create :
      Os → TransactionUnconfirmedDatabase → Run (Bool × TransactionUnconfirmedDatabase)
  create os db = do
    (done, t) ← SlabFile.create os db.initial_size db.lookup_map
    ok (done, with_map t db)

  unfoldable pub open_files :
      Os → TransactionUnconfirmedDatabase → Run (Bool × TransactionUnconfirmedDatabase)
  open_files os db = do (done, t) ← SlabFile.open_files os db.lookup_map; ok (done, with_map t db)

  unfoldable pub synchronize : TransactionUnconfirmedDatabase → Run TransactionUnconfirmedDatabase
  synchronize db = do t ← SlabFile.synchronize db.lookup_map; ok (with_map t db)

unfoldable pub close : Os → TransactionUnconfirmedDatabase → Bool × TransactionUnconfirmedDatabase
close os db = let (done, t) = SlabFile.close os db.lookup_map in (done, with_map t db)

unfoldable pub flush : Os → TransactionUnconfirmedDatabase → Bool
flush os db = SlabFile.flush os db.lookup_map

module _ ⦃en : Endian⦄ where
  -- What the writer of `store` writes.
  unfoldable pub serialize : Bytes → Bytes
  serialize body = to_le 4 0 ++ (to_le 4 unconfirmed ++ body)

  module _ (hash : Hash) where
    unfoldable pub find : Bytes → TransactionUnconfirmedDatabase → Run (Option ℕ)
    find key db = SlabHashTable.find hash key db.lookup_map

    unfoldable pub get : Bytes → TransactionUnconfirmedDatabase → Run TransactionResult
    get key db = do slab ← find key db; ok (transaction_result slab key)

    unfoldable pub store :
        Os → Serialized → TransactionUnconfirmedDatabase → Run TransactionUnconfirmedDatabase
    store os tx db = do
      let value_size = version_lock_size + tx.serialized_size
      (offset, t) ← SlabHashTable.store hash os tx.hash (serialize tx.body) value_size db.lookup_map
      ok (with_map t db)

    unfoldable pub unlink :
        Bytes → TransactionUnconfirmedDatabase → Run (Bool × TransactionUnconfirmedDatabase)
    unlink key db = do
      (done, t) ← SlabHashTable.unlink hash key db.lookup_map
      ok (done, with_map t db)

    unfoldable pub unlink_if_exists :
        Bytes → TransactionUnconfirmedDatabase → Run (Bool × TransactionUnconfirmedDatabase)
    unlink_if_exists key db = do
      memory ← SlabHashTable.find hash key db.lookup_map
      if not (is_some memory) then ok (false, db) else unlink key db
