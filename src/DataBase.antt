-- ===== src/DataBase.antt =====
-- src/data_base.cpp: the databases together, the checks before a block or a transaction is added,
-- and the synchronous writers that add it.
pub mod Checks
pub mod Lifecycle
pub mod Popping
pub mod Pushing
pub mod Recording
pub mod Startup
pub mod Writers
use bitprim_database.Prelude.{
  ℕ, zero, suc, ◌+◌, ◌-◌, ◌^◌, Bool, true, false, not, ◌&&◌, Option, none, some, is_some, List, [],
  ◌∷◌, ltb, ◌==◌, if◌then◌else◌, length, Bytes, bytes_eq, replicate, get_elem?,
}
use bitprim_database.Run.{Run, ok, stuck, ◌>>=◌}
use bitprim_database.Endian.{Endian}
use bitprim_database.VariableUint.{VariableUint}
use bitprim_database.MemoryMap.{Os}
use bitprim_database.Buckets.{Hash}
use bitprim_database.BlockIndex as Index
use bitprim_database.BlockResult as BlockResult
use bitprim_database.BlockDatabase as Blocks
use bitprim_database.BlockDatabase.{Block, BlockDatabase}
use bitprim_database.TransactionResult as TransactionResult
use bitprim_database.TransactionResult.{unconfirmed}
use bitprim_database.UnspentTransaction.{OutputPoint}
use bitprim_database.TransactionDatabase as Transactions
use bitprim_database.TransactionDatabase.{TransactionDatabase, StoredTransaction}
use bitprim_database.TransactionUnconfirmedDatabase as Unconfirmed
use bitprim_database.TransactionUnconfirmedDatabase.{TransactionUnconfirmedDatabase, Serialized}
use bitprim_database.SpendDatabase as Spends
use bitprim_database.SpendDatabase.{SpendDatabase}
use bitprim_database.HistoryDatabase as History
use bitprim_database.HistoryDatabase.{HistoryDatabase}
use bitprim_database.StealthDatabase as Stealth
use bitprim_database.StealthDatabase.{StealthDatabase, StealthCompact}
use bitprim_database.Store as Locking
use bitprim_database.Store.{
  Locks, Store, FileName, block_table, block_index, transaction_table,
  transaction_unconfirmed_table, spend_table, history_table, history_rows, stealth_rows,
}

-- `chain::input` and `chain::output`, by what is asked of them. The addresses are short hashes, the
-- second one is what `payment_address::extract` finds in the script.
pub record Input : Type 0 where
  pub previous_output : OutputPoint
  pub address : Option Bytes
  pub script_address : Option Bytes

pub record Output : Type 0 where
  pub address : Option Bytes
  pub script_address : Option Bytes
  pub value : ℕ
  pub ephemeral_key : Option Bytes
  pub stealth_prefix : Option ℕ

pub record Transaction : Type 0 where
  pub stored : StoredTransaction Output
  pub inputs : List Input

pub record ChainBlock : Type 0 where
  pub hash : Bytes
  pub header : Bytes
  pub previous_block_hash : Bytes
  pub transactions : List Transaction

-- What the system library computes from points, and its mark of outputs that are not spent.
pub record Library : Type 0 where
  pub point_bytes : OutputPoint → Bytes
  pub checksum : OutputPoint → ℕ
  pub not_spent : ℕ

-- `error::error_code_t`.
pub data Code : Type 0 where
  success operation_failed empty_block store_block_duplicate store_block_invalid_height : Code
  store_block_missing_parent unspent_duplicate : Code

pub record DataBase : Type 0 where
  pub closed : Bool
  pub index_start_height : ℕ
  pub store : Store
  pub blocks : BlockDatabase
  pub transactions : TransactionDatabase Output
  pub transactions_unconfirmed : TransactionUnconfirmedDatabase
  pub spends : SpendDatabase
  pub history : HistoryDatabase
  pub stealth : StealthDatabase

abbrev pub max_size_t : ℕ
max_size_t = 2 ^ 64 - 1

-- The hash and the serialization of a transaction.
abbrev pub hash_of : Transaction → Bytes
hash_of tx = tx.stored.transaction.hash

abbrev pub serialized_of : Transaction → Serialized
serialized_of tx = record {
  hash = hash_of tx;
  body = tx.stored.body;
  serialized_size = tx.stored.serialized_size;
}

abbrev pub hashes_of : List Transaction → List Bytes
hashes_of [] = []
hashes_of (tx ∷ txs) = hash_of tx ∷ hashes_of txs

-- The part of a block that the block database stores.
abbrev pub block_of : ChainBlock → Block
block_of block = record {
  hash = block.hash;
  header = block.header;
  transaction_hashes = hashes_of block.transactions;
}

module _ ⦃en : Endian⦄ where
  unfoldable pub synchronize_indexes : DataBase → Run DataBase
  synchronize_indexes db = do
    spends ← Spends.synchronize db.spends
    history ← History.synchronize db.history
    stealth ← Stealth.synchronize db.stealth
    ok (record db { spends = spends; history = history; stealth = stealth })

  unfoldable pub synchronize : DataBase → Run DataBase
  synchronize db = do
    db' ← if db.store.use_indexes then synchronize_indexes db else ok db
    transactions ← Transactions.synchronize db'.transactions
    transactions_unconfirmed ← Unconfirmed.synchronize db'.transactions_unconfirmed
    blocks ← Blocks.synchronize db'.blocks
    ok (record db' {
      transactions = transactions;
      transactions_unconfirmed = transactions_unconfirmed;
      blocks = blocks;
    })

unfoldable pub flush : (FileName → Os) → DataBase → Bool
flush os db =
    let flushed =
      Blocks.flush (os block_table) (os block_index) db.blocks
      && (Transactions.flush (os transaction_table) db.transactions
          && Unconfirmed.flush (os transaction_unconfirmed_table) db.transactions_unconfirmed) in
    if not db.store.use_indexes
    then flushed
    else flushed
      && (Spends.flush (os spend_table) db.spends
          && (History.flush (os history_table) (os history_rows) db.history
              && Stealth.flush (os stealth_rows) db.stealth))

unfoldable pub get_next_height : BlockDatabase → ℕ
get_next_height blocks = elim (Index.top blocks.index) [ none ↦ 0 | some height ↦ height + 1 ]

module _ ⦃en : Endian⦄ where
  -- The header of a result is constructed with the hash of the result.
  unfoldable pub get_previous_hash : BlockDatabase → ℕ → Run Bytes
  get_previous_hash blocks height = if height == 0 then ok (replicate 32 0) else do
    r ← Blocks.get_at (height - 1) blocks
    header ← BlockResult.header blocks.lookup_map.manager.file r
    ok r.hash

  unfoldable pub verify_insert : ChainBlock → ℕ → DataBase → Run Code
  verify_insert block height db = if length block.transactions == 0 then ok empty_block else do
    exists ← Index.exists db.blocks.index height
    ok (if exists then store_block_duplicate else success)

  unfoldable pub verify_push : ChainBlock → ℕ → DataBase → Run Code
  verify_push block height db =
      if length block.transactions == 0
      then ok empty_block
      else if not (get_next_height db.blocks == height)
      then ok store_block_invalid_height
      else do
        previous ← get_previous_hash db.blocks height
        ok (
            if bytes_eq block.previous_block_hash previous
            then success
            else store_block_missing_parent)

  module _ ⦃var : VariableUint⦄ (hash : Hash) (library : Library) where
    unfoldable pub verify_transaction : Transaction → DataBase → Run Code
    verify_transaction tx db = do
      result ← Transactions.get hash (hash_of tx) max_size_t false db.transactions
      if not (TransactionResult.is_valid result) then ok success else do
        spent ←
            TransactionResult.is_spent library.not_spent db.transactions.lookup_map.manager.file
              max_size_t result
        ok (if spent then success else unspent_duplicate)
