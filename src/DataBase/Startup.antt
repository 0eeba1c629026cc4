-- ===== src/DataBase/Startup.antt =====
-- The construction and `create` of src/data_base.cpp.
use bitprim_database.Prelude.{ℕ, ◌-◌, Bool, true, false, not, ◌&&◌, ltb, if◌then◌else◌}
use bitprim_database.Run.{Run, ok, ◌>>=◌}
use bitprim_database.Endian.{Endian, array_index_bound}
use bitprim_database.VariableUint.{VariableUint}
use bitprim_database.MemoryMap.{Os, MemoryMap}
use bitprim_database.Buckets.{Hash}
use bitprim_database.BlockDatabase as Blocks
use bitprim_database.TransactionDatabase as Transactions
use bitprim_database.TransactionUnconfirmedDatabase as Unconfirmed
use bitprim_database.SpendDatabase as Spends
use bitprim_database.HistoryDatabase as History
use bitprim_database.StealthDatabase as Stealth
use bitprim_database.Store as Locking
use bitprim_database.Store.{
  Locks, FileName, block_table, block_index, transaction_table, transaction_unconfirmed_table,
  spend_table, history_table, history_rows, stealth_rows,
}
use bitprim_database.DataBase.{ChainBlock, Library, DataBase}
use bitprim_database.DataBase.Writers.{push}

pub record Settings : Type 0 where
  pub index_start_height : ℕ
  pub flush_writes : Bool
  pub block_table_buckets : ℕ
  pub transaction_table_buckets : ℕ
  pub transaction_unconfirmed_table_buckets : ℕ
  pub spend_table_buckets : ℕ
  pub history_table_buckets : ℕ
  pub cache_capacity : ℕ

-- `store::without_indexes`.
abbrev pub without_indexes : ℕ
without_indexes = array_index_bound - 1

-- The constructor, and `start`, over the files by their names. The databases of the indexes are
-- not used without indexes.
unfoldable pub start : Settings → (FileName → MemoryMap) → DataBase
start settings files = record {
  closed = true;
  index_start_height = settings.index_start_height;
  store = Locking.store (ltb settings.index_start_height without_indexes) settings.flush_writes;
  blocks =
      Blocks.block_database (files block_table) (files block_index) settings.block_table_buckets;
  transactions =
      Transactions.transaction_database (files transaction_table) settings.transaction_table_buckets
        settings.cache_capacity;
  transactions_unconfirmed =
      Unconfirmed.transaction_unconfirmed_database (files transaction_unconfirmed_table)
        settings.transaction_unconfirmed_table_buckets;
  spends = Spends.spend_database (files spend_table) settings.spend_table_buckets;
  history =
      History.history_database (files history_table) (files history_rows)
        settings.history_table_buckets;
  stealth = Stealth.stealth_database (files stealth_rows);
}

module _ ⦃en : Endian⦄ ⦃var : VariableUint⦄ (hash : Hash) (library : Library)
    (os : FileName → Os) where
  unfoldable pub create_content : DataBase → Run (Bool × DataBase)
  create_content db = do
    (created, blocks) ← Blocks.create (os block_table) (os block_index) db.blocks
    let db₁ = record db { blocks = blocks }
    if not created then ok (false, db₁) else do
      (created', transactions) ← Transactions.create (os transaction_table) db₁.transactions
      let db₂ = record db₁ { transactions = transactions }
      if not created' then ok (false, db₂) else do
        (created'', pool) ←
            Unconfirmed.create (os transaction_unconfirmed_table) db₂.transactions_unconfirmed
        ok (created'', record db₂ { transactions_unconfirmed = pool })

  unfoldable pub create_indexes : DataBase → Run (Bool × DataBase)
  create_indexes db = do
    (created, spends) ← Spends.create (os spend_table) db.spends
    let db₁ = record db { spends = spends }
    if not created then ok (false, db₁) else do
      (created', history) ← History.create (os history_table) (os history_rows) db₁.history
      let db₂ = record db₁ { history = history }
      if not created' then ok (false, db₂) else do
        (created'', stealth) ← Stealth.create (os stealth_rows) db₂.stealth
        ok (created'', record db₂ { stealth = stealth })

  -- The databases are those that `start` has constructed. The result of `push` is not looked at.
  unfoldable pub create_all :
      {State : Type 0}
      → Locks State
      → (FileName → Bool)
      → ChainBlock
      → DataBase
      → State
      → Run (Bool × (DataBase × State))
  create_all locks create_file genesis db s = do
    let (locked, s') = Locking.open_store locks db.store s
    if not locked
        then ok (false, (db, s'))
        else if not (Locking.create create_file db.store)
        then ok (false, (db, s'))
        else do
          (created, db₁) ← create_content db
          (created', db₂) ←
              if not (db.store.use_indexes && created)
              then ok (created, db₁)
              else create_indexes db₁
          if not created' then ok (false, (db₂, s')) else do
            (code, pushed) ← push hash library os locks genesis 0 db₂ s'
            let (db₃, s'') = pushed
            ok (true, (record db₃ { closed = false }, s''))
