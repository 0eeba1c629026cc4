-- ===== src/DataBase/Checks.antt =====
-- The checks of src/data_base.cpp before a block or a transaction is added.
use mathlib.Core.Path.{subst}
use bitprim_database.Prelude.{
  ℕ, zero, suc, ◌-◌, ◌≤◌, ◌<◌, ◌≡◌, refl, inl, inr, false, not, ◌&&◌, Option, some, is_some, List,
  [], arith, ltb, ◌==◌, ne→==, if◌then◌else◌, Bool-cases, length, Bytes, bytes_eq, replicate,
}
use bitprim_database.Run.{ok, ◌>>=◌}
use bitprim_database.Endian.{Endian, array_index_bound}
use bitprim_database.VariableUint.{VariableUint}
use bitprim_database.Bytes.{read_bytes}
use bitprim_database.MemoryMap.{load}
use bitprim_database.MemoryMap.Access.{load-ok}
use bitprim_database.Buckets.{Hash}
use bitprim_database.RecordManager.{count}
use bitprim_database.BlockIndex.{top}
use bitprim_database.BlockResult.{header_size, header, at_slab, block_result}
use bitprim_database.BlockDatabase.{BlockDatabase}
use bitprim_database.BlockDatabase.Blocks as Blocks
use bitprim_database.BlockDatabase.Blocks.{Stored, get_at-Keeps, exists-Keeps}
use bitprim_database.TransactionResult.{transaction_result, unconfirmed, is_valid}
use bitprim_database.TransactionResult.Outputs.{all_spent}
use bitprim_database.TransactionDatabase.{get}
use bitprim_database.TransactionDatabase.Entries.{Entry, first}
use bitprim_database.TransactionDatabase.Bodies.{Contents, IsFormed, body_of, is_spent-all_spent}
use bitprim_database.TransactionDatabase.Finding as Transactions
use bitprim_database.TransactionDatabase.Finding.{find-absent, find-present}
use bitprim_database.DataBase.{
  Transaction, ChainBlock, Library, DataBase, Code, success, empty_block, store_block_duplicate,
  store_block_invalid_height, store_block_missing_parent, unspent_duplicate, get_next_height,
  get_previous_hash, verify_insert, verify_push, verify_transaction, hash_of, max_size_t,
}

-- The hash that the next of `n` blocks must name as the one before it. The highest height has a
-- block whose slab holds a header.
pub data Tops (blocks : ℕ → Option Stored) : ℕ → Bytes → Type 0 where
  genesis : Tops blocks 0 (replicate 32 0)
  follows :
      {k : ℕ} (b : Stored)
      → blocks k ≡ some b
      → header_size ≤ length b.slab
      → Tops blocks (suc k) b.hash

-- What is wrong with a block that is to be pushed.
abbrev pub push_code : ChainBlock → ℕ → ℕ → Bytes → Code
push_code block height n previous =
    if length block.transactions == 0
    then empty_block
    else if not (n == height)
    then store_block_invalid_height
    else if bytes_eq block.previous_block_hash previous
    then success
    else store_block_missing_parent

module _ ⦃en : Endian⦄ (hash : Hash) where
  get_next_height-Keeps :
      (blocks : BlockDatabase) (n : ℕ) (stored : ℕ → Option Stored) (c : Bytes → List Bytes)
      → Blocks.Keeps hash blocks n stored c
      → get_next_height blocks ≡ n
  unfolding get_next_height top count
  get_next_height-Keeps blocks n stored c h = elim (Bool-cases (blocks.index.record_count == 0)) [
    | inl z ↦ rw (get_next_height, z) (ground (arith, h.index.counted))
    | inr p ↦ rw (get_next_height, p) (ground (arith, h.index.counted))
  ]

  get_previous_hash-Keeps :
      (blocks : BlockDatabase) (n : ℕ) (stored : ℕ → Option Stored) (c : Bytes → List Bytes)
      (previous : Bytes)
      → Blocks.Keeps hash blocks n stored c
      → Tops stored n previous
      → get_previous_hash blocks n ≡ ok previous
  unfolding get_previous_hash header at_slab block_result
  get_previous_hash-Keeps blocks zero stored c previous h genesis = refl
  get_previous_hash-Keeps blocks (suc k) stored c previous h (follows b there long) =
      let (r, run, shows) = get_at-Keeps hash blocks (suc k) stored c k b h (omega arith) there in
      let f = blocks.lookup_map.manager.file in
      let below : suc k - 1 ≡ k = omega arith in
      let read : load f shows.memory 80 ≡ ok (read_bytes f.bytes shows.memory 80) =
        load-ok f shows.memory 80 (record {
          mapped = shows.covers.mapped;
          within = omega (arith, shows.covers.within, long);
        }) in
      let filled = ne→== (suc k) 0 (omega arith) in
      rw (filled, below, run, ◌>>=◌, shows.found, read)

  -- `verify_push` of a block and a height, on a database of `n` heights of which the highest has a
  -- block with a header, answers at once what is wrong: no transactions, a height other than `n`,
  -- or another hash before it than that of the highest block, which is zero if there are no blocks.
  -- The first of these that is so is the answer, and success if none is.
  pub verify_push-code :
      (db : DataBase) (n : ℕ) (stored : ℕ → Option Stored) (c : Bytes → List Bytes)
      (previous : Bytes) (block : ChainBlock) (height : ℕ)
      → Blocks.Keeps hash db.blocks n stored c
      → Tops stored n previous
      → verify_push block height db ≡ ok (push_code block height n previous)
  unfolding verify_push
  verify_push-code db n stored c previous block height h tops =
      let next = get_next_height-Keeps db.blocks n stored c h in
      elim (Bool-cases (length block.transactions == 0)) [
        | inl nil ↦ rw nil
        | inr filled ↦ elim (Bool-cases (n == height)) [
          | inr other ↦ rw (filled, next, other)
          | inl same ↦
              let e : n ≡ height = ground (arith, same) in
              let run : get_previous_hash db.blocks height ≡ ok previous =
                subst (λ k. get_previous_hash db.blocks k ≡ ok previous) e
                  (get_previous_hash-Keeps db.blocks n stored c previous h tops) in
              rw (filled, next, same, run, ◌>>=◌)
        ]
      ]

  -- `verify_insert` of a block and a height answers that the block is empty if it has no
  -- transactions, that it is a duplicate if the height has a block, and else that it may be added.
  pub verify_insert-code :
      (db : DataBase) (n : ℕ) (stored : ℕ → Option Stored) (c : Bytes → List Bytes)
      (block : ChainBlock) (height : ℕ)
      → Blocks.Keeps hash db.blocks n stored c
      → verify_insert block height db
        ≡ ok (
            if length block.transactions == 0
            then empty_block
            else if ltb height n && is_some (stored height)
            then store_block_duplicate
            else success)
  unfolding verify_insert
  verify_insert-code db n stored c block height h =
      elim (Bool-cases (length block.transactions == 0)) [
        | inl nil ↦ rw nil
        | inr filled ↦ rw (filled, (exists-Keeps hash db.blocks n stored c height h).0, ◌>>=◌)
      ]

  -- `verify_push` of a transaction whose hash the database has, the newest under that hash with
  -- well formed contents of fewer than 2 ^ 32 outputs, answers that it is a duplicate if that one
  -- is unconfirmed or has an output without a spender, and else that it may be added.
  pub verify_transaction-code :
      ⦃var : VariableUint⦄ (library : Library) (db : DataBase) (m : Bytes → List Entry)
      (tx : Transaction) (s : Entry) (c : Contents)
      → Transactions.Keeps hash db.transactions m
      → length (hash_of tx) ≡ 32
      → first (m (hash_of tx)) ≡ some s
      → s.body ≡ body_of c
      → IsFormed c
      → length c.outputs < array_index_bound
      → verify_transaction hash library tx db
        ≡ ok (
            if s.position == unconfirmed
            then unspent_duplicate
            else if all_spent library.not_spent max_size_t c.outputs
            then success
            else unspent_duplicate)
  unfolding verify_transaction get is_valid transaction_result
  verify_transaction-code library db m tx s c h k there body formed few =
      let (a, answers, run) = find-present hash db.transactions m (hash_of tx) s h k there in
      let spent =
        is_spent-all_spent db.transactions.lookup_map.manager.file a s c answers.editable.covers
          answers.fields body formed library.not_spent max_size_t (hash_of tx) few in
      rw (run max_size_t false, ◌>>=◌, spent)
        (elim (Bool-cases (s.position == unconfirmed)) [ inl no' ↦ rw no' | inr conf ↦ rw conf ])

  -- A transaction whose hash the database does not have may be added.
  pub verify_transaction_absent :
      ⦃var : VariableUint⦄ (library : Library) (db : DataBase) (m : Bytes → List Entry)
      (tx : Transaction)
      → Transactions.Keeps hash db.transactions m
      → length (hash_of tx) ≡ 32
      → m (hash_of tx) ≡ []
      → verify_transaction hash library tx db ≡ ok success
  unfolding verify_transaction get is_valid transaction_result
  verify_transaction_absent library db m tx h k nil =
      rw (find-absent hash db.transactions m (hash_of tx) max_size_t false h k nil, ◌>>=◌)
