-- ===== src/DataBase/Writers.antt =====
-- The synchronous writers of src/data_base.cpp. The state of the store's locks goes along; the
-- mutex between threads is left out.
use bitprim_database.Prelude.{
  ℕ, zero, suc, ◌+◌, ◌%◌, Bool, true, false, not, none, some, List, [], ◌∷◌, ltb, ◌==◌,
  if◌then◌else◌, length, Bytes, get_elem?,
}
use bitprim_database.Run.{Run, ok, stuck, ◌>>=◌}
use bitprim_database.Endian.{Endian, array_index_bound}
use bitprim_database.VariableUint.{VariableUint}
use bitprim_database.MemoryMap.{Os}
use bitprim_database.Buckets.{Hash}
use bitprim_database.BlockDatabase as Blocks
use bitprim_database.TransactionResult.{unconfirmed}
use bitprim_database.UnspentTransaction.{OutputPoint}
use bitprim_database.TransactionDatabase as Transactions
use bitprim_database.TransactionDatabase.{TransactionDatabase}
use bitprim_database.TransactionUnconfirmedDatabase as Unconfirmed
use bitprim_database.SpendDatabase as Spends
use bitprim_database.HistoryDatabase as History
use bitprim_database.StealthDatabase as Stealth
use bitprim_database.Store as Locking
use bitprim_database.Store.{
  Locks, FileName, block_table, block_index, transaction_table, transaction_unconfirmed_table,
  spend_table, history_table, history_rows, stealth_rows,
}
use bitprim_database.DataBase.{
  Input, Output, Transaction, ChainBlock, Library, Code, success, operation_failed, empty_block,
  store_block_duplicate, store_block_invalid_height, store_block_missing_parent, unspent_duplicate,
  DataBase, hash_of, serialized_of, block_of, max_size_t, synchronize, flush, verify_insert,
  verify_push, verify_transaction,
}

-- `ceiling_add`.
unfoldable pub ceiling_add : ℕ → ℕ → ℕ
ceiling_add a b = if ltb max_size_t (a + b) then max_size_t else a + b

abbrev pub is_success : Code → Bool
is_success code = elim code [
  | success ↦ true
  | operation_failed ↦ false
  | empty_block ↦ false
  | store_block_duplicate ↦ false
  | store_block_invalid_height ↦ false
  | store_block_missing_parent ↦ false
  | unspent_duplicate ↦ false
]

-- A point of a transaction, by an index in it.
abbrev pub point_of : Bytes → ℕ → OutputPoint
point_of tx_hash index = record { hash = tx_hash; index = index }

module _ ⦃en : Endian⦄ ⦃var : VariableUint⦄ (hash : Hash) (library : Library)
    (os : FileName → Os) where
  -- The inputs from an index on. The index has 32 bits, and the number of inputs 64.
  unfoldable pub push_inputs_loop : Bytes → ℕ → List Input → ℕ → ℕ → DataBase → Run DataBase
  push_inputs_loop tx_hash height inputs zero index db = stuck
  push_inputs_loop tx_hash height inputs (suc fuel) index db = elim (get_elem? inputs index) [
    | none ↦ ok db
    | some input ↦ (do
      let point = library.point_bytes (point_of tx_hash index)
      let previous = input.previous_output
      spends ← Spends.store hash (os spend_table) (library.point_bytes previous) point db.spends
      history ← elim input.address [
        | none ↦ ok db.history
        | some address ↦
            History.add_input hash (os history_table) (os history_rows) address point height
              (library.checksum previous) db.history
      ]
      push_inputs_loop tx_hash height inputs fuel ((index + 1) % array_index_bound)
          (record db { spends = spends; history = history }))
  ]

  unfoldable pub push_inputs : Bytes → ℕ → List Input → DataBase → Run DataBase
  push_inputs tx_hash height inputs db =
      push_inputs_loop tx_hash height inputs (suc (length inputs)) 0 db

  -- The outputs from an index on, which has 32 bits.
  unfoldable pub push_outputs_loop : Bytes → ℕ → List Output → ℕ → ℕ → DataBase → Run DataBase
  push_outputs_loop tx_hash height outputs zero index db = stuck
  push_outputs_loop tx_hash height outputs (suc fuel) index db = elim (get_elem? outputs index) [
    | none ↦ ok db
    | some output ↦ (do
      history ← elim output.address [
        | none ↦ ok db.history
        | some address ↦
            History.add_output hash (os history_table) (os history_rows) address
              (library.point_bytes (point_of tx_hash index)) height output.value db.history
      ]
      push_outputs_loop tx_hash height outputs fuel ((index + 1) % array_index_bound)
          (record db { history = history }))
  ]

  unfoldable pub push_outputs : Bytes → ℕ → List Output → DataBase → Run DataBase
  push_outputs tx_hash height outputs db =
      push_outputs_loop tx_hash height outputs (suc (length outputs)) 0 db

  -- A row for an output with an ephemeral key and a prefix and the payment output behind it.
  unfoldable pub push_pair : Bytes → ℕ → Output → Output → DataBase → Run DataBase
  push_pair tx_hash height ephemeral payment db = elim payment.address [
    | none ↦ ok db
    | some address ↦ elim ephemeral.ephemeral_key [
      | none ↦ ok db
      | some key ↦ elim ephemeral.stealth_prefix [
        | none ↦ ok db
        | some prefix ↦ (do
          stealth ←
              Stealth.store (os stealth_rows) prefix height
                (record {
                  ephemeral_public_key_hash = key;
                  public_key_hash = address;
                  transaction_hash = tx_hash;
                })
                db.stealth
          ok (record db { stealth = stealth }))
      ]
    ]
  ]

  -- Each output with the one behind it.
  unfoldable pub push_pairs : Bytes → ℕ → Output → List Output → DataBase → Run DataBase
  push_pairs tx_hash height ephemeral [] db = ok db
  push_pairs tx_hash height ephemeral (payment ∷ outputs) db = do
    db' ← push_pair tx_hash height ephemeral payment db
    push_pairs tx_hash height payment outputs db'

  unfoldable pub push_stealth : Bytes → ℕ → List Output → DataBase → Run DataBase
  push_stealth tx_hash height [] db = ok db
  push_stealth tx_hash height (output ∷ outputs) db = push_pairs tx_hash height output outputs db

  -- The indexes of a transaction.
  unfoldable pub push_indexes : Transaction → ℕ → ℕ → DataBase → Run DataBase
  push_indexes tx height position db = do
    db' ← if position == 0 then ok db else push_inputs (hash_of tx) height tx.inputs db
    db'' ← push_outputs (hash_of tx) height tx.stored.transaction.outputs db'
    push_stealth (hash_of tx) height tx.stored.transaction.outputs db''

  unfoldable pub push_transaction : Transaction → ℕ → ℕ → DataBase → Run DataBase
  push_transaction tx height position db = do
    transactions ←
        Transactions.store hash (os transaction_table) tx.stored height position db.transactions
    (unlinked, pool) ← Unconfirmed.unlink_if_exists hash (hash_of tx) db.transactions_unconfirmed
    let db' = record db { transactions = transactions; transactions_unconfirmed = pool }
    if ltb height db.index_start_height then ok db' else push_indexes tx height position db'

  -- The transactions from a position on, in steps of the number of buckets.
  unfoldable pub push_transactions_loop : List Transaction → ℕ → ℕ → ℕ → ℕ → DataBase → Run DataBase
  push_transactions_loop txs height buckets zero position db = stuck
  push_transactions_loop txs height buckets (suc fuel) position db = elim (get_elem? txs position) [
    | none ↦ ok db
    | some tx ↦ (do
      db' ← push_transaction tx height position db
      push_transactions_loop txs height buckets fuel (ceiling_add position buckets) db')
  ]

  unfoldable pub push_transactions : ChainBlock → ℕ → ℕ → ℕ → DataBase → Run DataBase
  push_transactions block height bucket buckets db =
      push_transactions_loop block.transactions height buckets (suc (length block.transactions))
        bucket db

  -- The spends of the inputs of a transaction, up to one that fails.
  unfoldable pub spend_inputs :
      ℕ → List Input → TransactionDatabase Output → Run (Bool × TransactionDatabase Output)
  spend_inputs height [] transactions = ok (true, transactions)
  spend_inputs height (input ∷ inputs) transactions = do
    (done, transactions') ←
        Transactions.spend hash library.not_spent input.previous_output height transactions
    if done then spend_inputs height inputs transactions' else ok (false, transactions')

  unfoldable pub spend_transactions :
      ℕ → List Transaction → TransactionDatabase Output → Run (Bool × TransactionDatabase Output)
  spend_transactions height [] transactions = ok (true, transactions)
  spend_transactions height (tx ∷ txs) transactions = do
    (done, transactions') ← spend_inputs height tx.inputs transactions
    if done then spend_transactions height txs transactions' else ok (false, transactions')

  -- The coinbase is skipped.
  unfoldable pub push_heights : ChainBlock → ℕ → DataBase → Run (Bool × DataBase)
  push_heights block height db = do
    synchronized ← Transactions.synchronize db.transactions
    (done, transactions) ←
        spend_transactions height (elim block.transactions [ [] ↦ [] | tx ∷ txs ↦ txs ])
          synchronized
    ok (done, record db { transactions = transactions })

  -- What `insert` and `push` do of a block that has passed its check.
  unfoldable pub add_block : ChainBlock → ℕ → DataBase → Run (Bool × DataBase)
  add_block block height db = do
    db₁ ← push_transactions block height 0 1 db
    (done, db₂) ← push_heights block height db₁
    if not done then ok (false, db₂) else do
      blocks ←
          Blocks.store hash (os block_table) (os block_index) (block_of block) height db₂.blocks
      db₃ ← synchronize (record db₂ { blocks = blocks })
      ok (true, db₃)

  unfoldable pub insert : ChainBlock → ℕ → DataBase → Run (Code × DataBase)
  insert block height db = do
    ec ← verify_insert block height db
    if not (is_success ec) then ok (ec, db) else do
      (done, db') ← add_block block height db
      ok (if done then success else operation_failed, db')

  module _ {State : Type 0} (locks : Locks State) where
    unfoldable pub begin_insert : DataBase → State → Bool × State
    begin_insert db s = Locking.begin_write locks db.store s

    unfoldable pub end_insert : DataBase → State → Bool × State
    end_insert db s = Locking.end_write locks db.store (flush os db) s

    -- The result of `end_write` as a code.
    unfoldable pub finish : DataBase → State → Code × (DataBase × State)
    finish db s =
        let (ended, s') = Locking.end_write locks db.store (flush os db) s in
        (if ended then success else operation_failed, (db, s'))

    unfoldable pub push : ChainBlock → ℕ → DataBase → State → Run (Code × (DataBase × State))
    push block height db s = do
      ec ← verify_push block height db
      if not (is_success ec) then ok (ec, (db, s)) else do
        let (begun, s') = Locking.begin_write locks db.store s
        if not begun then ok (operation_failed, (db, s')) else do
          (done, db') ← add_block block height db
          ok (if done then finish db' s' else (operation_failed, (db', s')))

    unfoldable pub push_pooled :
        Transaction → ℕ → DataBase → State → Run (Code × (DataBase × State))
    push_pooled tx forks db s = do
      ec ← verify_transaction hash library tx db
      if not (is_success ec) then ok (ec, (db, s)) else do
        let (begun, s') = Locking.begin_write locks db.store s
        if not begun then ok (operation_failed, (db, s')) else do
          stored ←
              Transactions.store hash (os transaction_table) tx.stored forks unconfirmed
                db.transactions
          pooled ←
              Unconfirmed.store hash (os transaction_unconfirmed_table) (serialized_of tx)
                db.transactions_unconfirmed
          transactions ← Transactions.synchronize stored
          pool ← Unconfirmed.synchronize pooled
          ok (
              finish (record db { transactions = transactions; transactions_unconfirmed = pool })
                s')
