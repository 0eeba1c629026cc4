-- ===== src/DataBase/Pushing.antt =====
-- The loop over the transactions of a block in src/data_base.cpp.
use bitprim_database.Prelude.{
  ℕ, zero, suc, ◌+◌, ◌≤◌, ◌<◌, ◌≡◌, ◌∙◌, refl, sym, ap, false, Option, none, some, List, [], ◌∷◌,
  arith, ltb_no, length, Bytes, get_elem?,
}
use bitprim_database.Run.{Run, ok, thrown, fault, stuck, ◌>>=◌}
use bitprim_database.Endian.{Endian}
use bitprim_database.VariableUint.{VariableUint}
use bitprim_database.MemoryMap.{Os}
use bitprim_database.Buckets.{Hash}
use bitprim_database.Store.{FileName, Locks}
use bitprim_database.BlockDatabase.Blocks.{Stored, Keeps}
use bitprim_database.DataBase.Checks.{Tops, push_code, verify_push-code}
use bitprim_database.DataBase.{Transaction, ChainBlock, Library, DataBase, max_size_t}
use bitprim_database.DataBase.Writers.{
  ceiling_add, push_transaction, push_transactions_loop, push_transactions, is_success, push,
}

-- Two continuations that agree on every result.
bind_congr :
    {A B : Type 0} (r : Run A) {f g : A → Run B} → ((x : A) → f x ≡ g x) → (r >>= f) ≡ (r >>= g)
bind_congr (ok x) h = h x
bind_congr thrown h = refl
bind_congr fault h = refl
bind_congr stuck h = refl

module _ ⦃en : Endian⦄ ⦃var : VariableUint⦄ (hash : Hash) (library : Library) (os : FileName → Os)
    (height : ℕ) where
  -- The transactions in order, each with its position.
  abbrev pub push_each : List Transaction → ℕ → DataBase → Run DataBase
  push_each [] position db = ok db
  push_each (tx ∷ txs) position db = do
    db' ← push_transaction hash library os tx height position db
    push_each txs (position + 1) db'

  push_transactions_loop-push_each :
      (all rest : List Transaction) (fuel position : ℕ) (db : DataBase)
      → ((i : ℕ) → get_elem? all (position + i) ≡ get_elem? rest i)
      → length rest < fuel
      → position + length rest ≤ max_size_t
      → push_transactions_loop hash library os all height 1 fuel position db
        ≡ push_each rest position db
  unfolding push_transactions_loop get_elem? ceiling_add
  push_transactions_loop-push_each all rest zero position db same l w = absurd (omega (arith, l))
  push_transactions_loop-push_each all [] (suc fuel) position db same l w =
      let start : position + 0 ≡ position = omega arith in
      let here : get_elem? all position ≡ none = ap (get_elem? all) (sym start) ∙ same 0 in
      rw (push_transactions_loop, here)
  push_transactions_loop-push_each all (tx ∷ txs) (suc fuel) position db same l w =
      let start : position + 0 ≡ position = omega arith in
      let here : get_elem? all position ≡ some tx = ap (get_elem? all) (sym start) ∙ same 0 in
      let below = ltb_no max_size_t (position + 1) (omega (arith, w)) in
      rw (push_transactions_loop, here, below)
        (bind_congr (push_transaction hash library os tx height position db) (λ db'.
          push_transactions_loop-push_each all txs fuel (position + 1) db'
            (λ i.
              let shift : position + 1 + i ≡ position + suc i = omega arith in
              ap (get_elem? all) shift ∙ same (suc i))
            (omega (arith, l)) (omega (arith, w))))

  -- `push_transactions` with its default arguments is the run over the transactions in order, each
  -- with its position, for fewer than 2 ^ 64 transactions.
  pub push_transactions-push_each :
      (block : ChainBlock) (db : DataBase)
      → length block.transactions ≤ max_size_t
      → push_transactions hash library os block height 0 1 db ≡ push_each block.transactions 0 db
  unfolding push_transactions
  push_transactions-push_each block db few =
      push_transactions_loop-push_each block.transactions block.transactions
        (suc (length block.transactions)) 0 db
        (λ i. let start : 0 + i ≡ i = omega arith in ap (get_elem? block.transactions) start)
        (omega arith) (omega (arith, few))

module _ ⦃en : Endian⦄ ⦃var : VariableUint⦄ (hash : Hash) (library : Library)
    (os : FileName → Os) where
  -- On a database of `n` heights of which the highest has a block with a header, a block with no
  -- transactions, at a height other than the next one, or after another block than the highest one,
  -- is refused by `push` with the code for that: the databases and the locks stay as they were.
  pub push_refused :
      {State : Type 0} (locks : Locks State) (db : DataBase) (n : ℕ) (stored : ℕ → Option Stored)
      (c : Bytes → List Bytes) (previous : Bytes) (block : ChainBlock) (height : ℕ) (s : State)
      → Keeps hash db.blocks n stored c
      → Tops stored n previous
      → is_success (push_code block height n previous) ≡ false
      → push hash library os locks block height db s
        ≡ ok (push_code block height n previous, (db, s))
  unfolding push
  push_refused locks db n stored c previous block height s h tops refused =
      rw (verify_push-code hash db n stored c previous block height h tops, ◌>>=◌, refused)
