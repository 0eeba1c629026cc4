-- ===== src/DataBase/Popping.antt =====
-- `pop` of src/data_base.cpp, which takes the highest block away, and `pop_above`.
use bitprim_database.Prelude.{
  ℕ, zero, suc, ◌+◌, ◌-◌, Bool, true, false, not, ◌||◌, Option, none, some, List, [], ◌∷◌, ltb,
  ◌==◌, if◌then◌else◌, Bytes,
}
use bitprim_database.Run.{Run, ok, thrown, ◌>>=◌}
use bitprim_database.Endian.{Endian}
use bitprim_database.VariableUint.{VariableUint}
use bitprim_database.MemoryMap.{Os, MemoryMap}
use bitprim_database.Buckets.{Hash}
use bitprim_database.BlockIndex as Index
use bitprim_database.BlockResult as BlockResult
use bitprim_database.BlockResult.{BlockResult}
use bitprim_database.BlockDatabase as Blocks
use bitprim_database.TransactionResult as TransactionResult
use bitprim_database.TransactionDatabase as Transactions
use bitprim_database.TransactionUnconfirmedDatabase as Unconfirmed
use bitprim_database.SpendDatabase as Spends
use bitprim_database.HistoryDatabase as History
use bitprim_database.Store.{FileName, transaction_unconfirmed_table}
use bitprim_database.DataBase.{
  Input, Output, Transaction, Library, DataBase, Code, success, operation_failed, hash_of,
  serialized_of, synchronize,
}

-- The header's bytes and the transactions of a block that was taken away.
pub record PoppedBlock : Type 0 where
  pub header : Bytes
  pub transactions : List Transaction

-- The first list backwards, before the second.
abbrev pub reverse_onto : {A : Type 0} → List A → List A → List A
reverse_onto [] ys = ys
reverse_onto (x ∷ xs) ys = reverse_onto xs (x ∷ ys)

module _ ⦃en : Endian⦄ ⦃var : VariableUint⦄ (hash : Hash) (library : Library)
    (os : FileName → Os) where
  -- The latest row of an address goes; the result of that is not looked at.
  unfoldable pub forget_address : Option Bytes → DataBase → Run DataBase
  forget_address none db = ok db
  forget_address (some address) db = do
    (found, history) ← History.delete_last_row hash address db.history
    ok (record db { history = history })

  -- The inputs come in reverse.
  unfoldable pub pop_inputs_loop : List Input → ℕ → DataBase → Run (Bool × DataBase)
  pop_inputs_loop [] height db = ok (true, db)
  pop_inputs_loop (input ∷ inputs) height db = do
    (done, transactions) ←
        Transactions.unspend hash library.not_spent input.previous_output db.transactions
    let db' = record db { transactions = transactions }
    if not done
        then ok (false, db')
        else if ltb height db.index_start_height
        then pop_inputs_loop inputs height db'
        else do
          (found, spends) ←
              Spends.unlink hash (library.point_bytes input.previous_output) db'.spends
          db'' ← forget_address input.script_address (record db' { spends = spends })
          pop_inputs_loop inputs height db''

  unfoldable pub pop_inputs : List Input → ℕ → DataBase → Run (Bool × DataBase)
  pop_inputs inputs height db = pop_inputs_loop (reverse_onto inputs []) height db

  -- The outputs come in reverse.
  unfoldable pub pop_outputs_loop : List Output → DataBase → Run DataBase
  pop_outputs_loop [] db = ok db
  pop_outputs_loop (output ∷ outputs) db = do
    db' ← forget_address output.script_address db
    pop_outputs_loop outputs db'

  unfoldable pub pop_outputs : List Output → ℕ → DataBase → Run DataBase
  pop_outputs outputs height db =
      if ltb height db.index_start_height
      then ok db
      else pop_outputs_loop (reverse_onto outputs []) db

  unfoldable pub pop_transaction : Transaction → ℕ → ℕ → DataBase → Run (Bool × DataBase)
  pop_transaction tx unverified height db = do
    (done, transactions) ← Transactions.unconfirm hash unverified (hash_of tx) db.transactions
    let db₁ = record db { transactions = transactions }
    if not done then ok (false, db₁) else do
      pool ←
          Unconfirmed.store hash (os transaction_unconfirmed_table) (serialized_of tx)
            db₁.transactions_unconfirmed
      db₂ ←
          pop_outputs tx.stored.transaction.outputs height
            (record db₁ { transactions_unconfirmed = pool })
      if tx.stored.transaction.is_coinbase then ok (true, db₂) else pop_inputs tx.inputs height db₂

  -- The transactions come in reverse.
  unfoldable pub pop_transactions : List Transaction → ℕ → ℕ → DataBase → Run (Bool × DataBase)
  pop_transactions [] unverified height db = ok (true, db)
  pop_transactions (tx ∷ txs) unverified height db = do
    (done, db') ← pop_transaction tx unverified height db
    if done then pop_transactions txs unverified height db' else ok (false, db')

  -- How a transaction with a hash is read at a place.
  module _ (read_transaction : MemoryMap → ℕ → Bytes → Run Transaction) where
    -- A transaction of the block that is confirmed at the height and the position.
    unfoldable pub fetch_transaction : Bytes → ℕ → ℕ → DataBase → Run (Option Transaction)
    fetch_transaction tx_hash height position db = do
      let file = db.transactions.lookup_map.manager.file
      tx ← Transactions.get hash tx_hash height true db.transactions
      if not (TransactionResult.is_valid tx) then ok none else do
        tx_height ← TransactionResult.height file tx
        tx_position ← TransactionResult.position file tx
        if not (tx_height == height) || not (tx_position == position) then ok none else do
          place ← TransactionResult.transaction tx
          transaction ← read_transaction file place tx_hash
          ok (some transaction)

    -- The transactions of a block from a position on, `left` of them, the last one first.
    unfoldable pub fetch_transactions :
        BlockResult → ℕ → ℕ → ℕ → List Transaction → DataBase → Run (Option (List Transaction))
    fetch_transactions block height zero position fetched db = ok (some fetched)
    fetch_transactions block height (suc left) position fetched db = do
      tx_hash ← BlockResult.transaction_hash db.blocks.lookup_map.manager.file position block
      found ← fetch_transaction tx_hash height position db
      elim found [
        | none ↦ ok none
        | some tx ↦ fetch_transactions block height left (position + 1) (tx ∷ fetched) db
      ]

    -- What `pop` does of the block at the top.
    unfoldable pub pop_at : ℕ → ℕ → DataBase → Run (Option PoppedBlock × DataBase)
    pop_at unverified height db = do
      block ← Blocks.get_at height db.blocks
      if not (BlockResult.is_valid block) then ok (none, db) else do
        count ← BlockResult.transaction_count db.blocks.lookup_map.manager.file block
        found ← fetch_transactions block height count 0 [] db
        elim found [
          | none ↦ ok (none, db)
          | some fetched ↦ (do
            (done, db₁) ← pop_transactions fetched unverified height db
            if not done then ok (none, db₁) else do
              let (unlinked, blocks) = Blocks.unlink height db₁.blocks
              let db₂ = record db₁ { blocks = blocks }
              if not unlinked then ok (none, db₂) else do
                db₃ ← synchronize db₂
                header ← BlockResult.header db₃.blocks.lookup_map.manager.file block
                ok (some (record { header = header; transactions = reverse_onto fetched [] }), db₃))
        ]

    -- The block, or none for a result of false.
    unfoldable pub pop : ℕ → DataBase → Run (Option PoppedBlock × DataBase)
    pop unverified db = elim (Index.top db.blocks.index) [
      | none ↦ ok (none, db)
      | some height ↦ pop_at unverified height db
    ]

    -- The blocks popped so far, the lowest first, and `left` more.
    unfoldable pub pop_above_loop :
        ℕ → ℕ → List PoppedBlock → DataBase → Run (Code × (List PoppedBlock × DataBase))
    pop_above_loop unverified zero popped db = ok (success, (popped, db))
    pop_above_loop unverified (suc left) popped db = do
      (found, db') ← pop unverified db
      elim found [
        | none ↦ ok (operation_failed, (popped, db'))
        | some block ↦ pop_above_loop unverified left (block ∷ popped) db'
      ]

    -- The result of the handler; the loop runs while the height is above that of the fork. Where the
    -- fork is above the top, the number of blocks wraps around, and `reserve` throws.
    unfoldable pub pop_above : ℕ → Bytes → DataBase → Run (Code × (List PoppedBlock × DataBase))
    pop_above unverified fork_hash db = do
      result ← Blocks.get hash fork_hash db.blocks
      if not (BlockResult.is_valid result)
          then ok (operation_failed, ([], db))
          else elim (Index.top db.blocks.index) [
            | none ↦ ok (operation_failed, ([], db))
            | some top ↦ (do
              fork ← BlockResult.height db.blocks.lookup_map.manager.file result
              if ltb top fork then thrown else pop_above_loop unverified (top - fork) [] db)
          ]
