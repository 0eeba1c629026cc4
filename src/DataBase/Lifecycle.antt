-- ===== src/DataBase/Lifecycle.antt =====
-- Opening and closing of src/data_base.cpp.
use bitprim_database.Prelude.{Bool, true, false, not, ◌&&◌, if◌then◌else◌}
use bitprim_database.Run.{Run, ok, ◌>>=◌}
use bitprim_database.Endian.{Endian}
use bitprim_database.MemoryMap.{Os}
use bitprim_database.BlockDatabase as Blocks
use bitprim_database.TransactionDatabase as Transactions
use bitprim_database.TransactionUnconfirmedDatabase as Unconfirmed
use bitprim_database.SpendDatabase as Spends
use bitprim_database.HistoryDatabase as History
use bitprim_database.StealthDatabase as Stealth
use bitprim_database.Store as Locking
use bitprim_database.Store.{
  Locks, FileName, block_table, block_index, transaction_table, transaction_unconfirmed_table,
  spend_table, history_table, history_rows, stealth_rows,
}
use bitprim_database.DataBase.{DataBase}

module _ (os : FileName → Os) where
  module _ ⦃en : Endian⦄ where
    -- The databases without indexes, each opened if those before it were.
    unfoldable pub open_content : DataBase → Run (Bool × DataBase)
    open_content db = do
      (opened, blocks) ← Blocks.open_files (os block_table) (os block_index) db.blocks
      let db₁ = record db { blocks = blocks }
      if not opened then ok (false, db₁) else do
        (opened', transactions) ← Transactions.open_files (os transaction_table) db₁.transactions
        let db₂ = record db₁ { transactions = transactions }
        if not opened' then ok (false, db₂) else do
          (opened'', pool) ←
              Unconfirmed.open_files (os transaction_unconfirmed_table) db₂.transactions_unconfirmed
          ok (opened'', record db₂ { transactions_unconfirmed = pool })

    unfoldable pub open_indexes : DataBase → Run (Bool × DataBase)
    open_indexes db = do
      (opened, spends) ← Spends.open_files (os spend_table) db.spends
      let db₁ = record db { spends = spends }
      if not opened then ok (false, db₁) else do
        (opened', history) ← History.open_files (os history_table) (os history_rows) db₁.history
        let db₂ = record db₁ { history = history }
        if not opened' then ok (false, db₂) else do
          (opened'', stealth) ← Stealth.open_files (os stealth_rows) db₂.stealth
          ok (opened'', record db₂ { stealth = stealth })

    -- The databases are those that `start` has constructed.
    unfoldable pub open_all :
        {State : Type 0} → Locks State → DataBase → State → Run (Bool × (DataBase × State))
    open_all locks db s = do
      let (locked, s') = Locking.open_store locks db.store s
      if not locked then ok (false, (db, s')) else do
        (opened, db₁) ← open_content db
        (opened', db₂) ←
            if not (db.store.use_indexes && opened) then ok (opened, db₁) else open_indexes db₁
        ok (opened', (record db₂ { closed = false }, s'))

  unfoldable pub close_content : DataBase → Bool × DataBase
  close_content db =
      let (closed, blocks) = Blocks.close (os block_table) (os block_index) db.blocks in
      let db₁ = record db { blocks = blocks } in
      if not closed
      then (false, db₁)
      else let (closed', transactions) =
          Transactions.close (os transaction_table) db₁.transactions in
        let db₂ = record db₁ { transactions = transactions } in
        if not closed'
        then (false, db₂)
        else let (closed'', pool) =
            Unconfirmed.close (os transaction_unconfirmed_table) db₂.transactions_unconfirmed in
          (closed'', record db₂ { transactions_unconfirmed = pool })

  unfoldable pub close_indexes : DataBase → Bool × DataBase
  close_indexes db =
      let (closed, spends) = Spends.close (os spend_table) db.spends in
      let db₁ = record db { spends = spends } in
      if not closed
      then (false, db₁)
      else let (closed', history) =
          History.close (os history_table) (os history_rows) db₁.history in
        let db₂ = record db₁ { history = history } in
        if not closed'
        then (false, db₂)
        else let (closed'', stealth) = Stealth.close (os stealth_rows) db₂.stealth in
          (closed'', record db₂ { stealth = stealth })

  unfoldable pub close_all :
      {State : Type 0} → Locks State → DataBase → State → Bool × (DataBase × State)
  close_all locks db s =
      if db.closed
      then (true, (db, s))
      else let (closed, db₁) = close_content (record db { closed = true }) in
        let (closed', db₂) =
          if db.store.use_indexes && closed then close_indexes db₁ else (closed, db₁) in
        if not closed'
        then (false, (db₂, s))
        else let (unlocked, s') = Locking.close_store locks db.store s in (unlocked, (db₂, s'))
