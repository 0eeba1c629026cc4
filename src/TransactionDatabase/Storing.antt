-- ===== src/TransactionDatabase/Storing.antt =====
-- `store` of src/databases/transaction_database.cpp.
use mathlib.Core.Path.{subst}
use bitprim_database.Prelude.{
  ℕ, ◌+◌, ◌≤◌, ◌<◌, ◌^◌, ◌≡◌, ◌∙◌, sym, ap, inl, inr, Bool, true, not, ◌&&◌, List, [], ◌∷◌, arith,
  ◌==◌, if◌then◌else◌, Bool-cases, is_some, length, Bytes, bytes_eq, eq_of_bytes_eq,
}
use bitprim_database.Run.{◌>>=◌, Returns}
use bitprim_database.Endian.{Endian, array_index_bound}
use bitprim_database.MemoryMap.{Os}
use bitprim_database.MemoryMap.Growth.{Works, max_exact}
use bitprim_database.Buckets.{Hash}
use bitprim_database.SlabHashTable.Invariant.{Represents-congr, CanStore, Grows}
use bitprim_database.SlabHashTable.Storing.{store-Represents-Grows}
use bitprim_database.UnspentOutputs.Cache.{IsCache}
use bitprim_database.UnspentOutputs.Adding.{add-IsCache}
use bitprim_database.Buckets.Found.{list_cases}
use bitprim_database.TransactionResult.{unconfirmed}
use bitprim_database.TransactionDatabase.{
  StoredTransaction, TransactionDatabase, create_transaction, store,
}
use bitprim_database.TransactionDatabase.Entries.{
  Entry, first, slab_of, slabs, length-slab_of, edited,
}
use bitprim_database.TransactionDatabase.Finding.{Keeps, Keeps-congr}
use bitprim_database.TransactionDatabase.Confirming.{placed, confirm_absent, confirm-Keeps}

-- A transaction with a hash and a size of the format, and room for its slab.
pub record HasRoomFor {Output : Type 0} (tx : StoredTransaction Output)
    (db : TransactionDatabase Output) : Type 0 where
  pub hash : length tx.transaction.hash ≡ 32
  pub body : length tx.body ≡ tx.serialized_size
  pub outputs : length tx.transaction.outputs < 2 ^ 32
  pub slab :
      db.lookup_map.manager.header_size
        + (db.lookup_map.manager.payload_size + (32 + 8 + (8 + tx.serialized_size)))
      ≤ max_exact

-- Whether `store` looks for the transaction among the pooled ones.
abbrev pub is_pooled : {Output : Type 0} → StoredTransaction Output → ℕ → Bool
is_pooled tx position = not (position == unconfirmed) && (not (position == 0) && tx.pooled)

abbrev pub entry : {Output : Type 0} → StoredTransaction Output → ℕ → ℕ → Entry
entry tx height position = record { height = height; position = position; body = tx.body }

-- The stack after `store`: a pooled transaction that is there gets the height and the position, and
-- any other one is new.
abbrev pub stored : {Output : Type 0} → StoredTransaction Output → ℕ → ℕ → List Entry → List Entry
stored tx height position ss =
    if is_pooled tx position && is_some (first ss)
    then edited (placed height position) ss
    else entry tx height position ∷ ss

module _ ⦃en : Endian⦄ (hash : Hash) {Output : Type 0} {os : Os} (works : Works os)
    (tx : StoredTransaction Output) (height position : ℕ) (small : height < array_index_bound)
    (small' : position < array_index_bound) where
  create_transaction-Keeps :
      (db : TransactionDatabase Output) (m : Bytes → List Entry)
      → Keeps hash db m
      → IsCache db.cache
      → HasRoomFor tx db
      → Returns (create_transaction hash os tx height position db) (λ db'.
        Keeps hash db'
          (λ q. if bytes_eq q tx.transaction.hash then entry tx height position ∷ m q else m q)
        × IsCache db'.cache
        × Grows (40 + (8 + tx.serialized_size)) db.lookup_map db'.lookup_map)
  unfolding create_transaction
  create_transaction-Keeps db m h cached room =
      let keyed : db.lookup_map.key_size ≡ 32 = h.keyed in
      let s = entry tx height position in
      let can : CanStore tx.transaction.hash (slab_of s) (8 + tx.serialized_size) db.lookup_map =
        record {
          keyed = room.hash ∙ sym h.keyed;
          fits = omega (arith, length-slab_of s, room.body);
          exact = rw keyed room.slab;
        } in
      let (r, run, (at', here, represents, kept, grows)) =
        store-Represents-Grows hash db.lookup_map (λ q. slabs (m q)) tx.transaction.hash (slab_of s)
          (8 + tx.serialized_size) works h.represents can in
      let (cache, added, cached') =
        add-IsCache tx.transaction height (not (position == unconfirmed)) db.cache room.outputs
          cached in
      (
        record db { lookup_map = r.1; cache = cache },
        rw (run, ◌>>=◌, added),
        (
          record {
            keyed = kept ∙ h.keyed;
            represents = Represents-congr hash represents (λ q.
                elim (Bool-cases (bytes_eq q tx.transaction.hash)) [
                  | inl own ↦ rw own
                  | inr other ↦ rw other
                ]);
            sized = λ q. elim (Bool-cases (bytes_eq q tx.transaction.hash)) [
              | inl own ↦ rw own (record { height = small; position = small' }, h.sized q)
              | inr other ↦ rw other (h.sized q)
            ];
          },
          cached',
          record { header = grows.header; payload = omega (arith, keyed, grows.payload) },
        ),
      )

  -- What `store` does, with a bound on the growth of the table.
  pub store_transaction-Grows :
      (db : TransactionDatabase Output) (m : Bytes → List Entry)
      → Keeps hash db m
      → IsCache db.cache
      → HasRoomFor tx db
      → Returns (store hash os tx height position db) (λ db'.
        Keeps hash db'
          (λ q. if bytes_eq q tx.transaction.hash then stored tx height position (m q) else m q)
        × IsCache db'.cache
        × Grows (40 + (8 + tx.serialized_size)) db.lookup_map db'.lookup_map)
  unfolding store
  store_transaction-Grows db m h cached room = elim (Bool-cases (is_pooled tx position)) [
    | inr fresh ↦
        let (r, run, (h', cached', grows)) = create_transaction-Keeps db m h cached room in
        (
          r,
          rw fresh run,
          (
            Keeps-congr hash h' (λ q. elim (Bool-cases (bytes_eq q tx.transaction.hash)) [
              | inl own ↦ rw (own, fresh)
              | inr other ↦ rw other
            ]),
            cached',
            grows,
          ),
        )
    | inl pooled ↦
        let key = tx.transaction.hash in
        elim (list_cases (m key)) [
          | inr (s, ss, filled) ↦
              let (r, run, (done, h', same, grows)) =
                confirm-Keeps hash db m key height position h room.hash small small' in
              let there : is_some (first (m key)) ≡ true = rw filled in
              let (cache, added, cached') =
                add-IsCache tx.transaction height true r.1.cache room.outputs
                  (subst IsCache (sym same) cached) in
              (
                record r.1 { cache = cache },
                rw (pooled, run, ◌>>=◌, done, there, added),
                (
                  Keeps-congr hash
                      (record { keyed = h'.keyed; represents = h'.represents; sized = h'.sized })
                      (λ q. elim (Bool-cases (bytes_eq q key)) [
                        | inl own ↦
                            let e : is_some (first (m q)) ≡ true =
                              ap (λ k. is_some (first (m k))) (eq_of_bytes_eq q key own) ∙ there in
                            rw (own, pooled, e)
                        | inr other ↦ rw other
                      ]),
                  cached',
                  record { header = grows.header; payload = omega (arith, grows.payload) },
                ),
              )
          | inl nil ↦
              let (r, run, (h', cached', grows)) = create_transaction-Keeps db m h cached room in
              (
                r,
                rw (pooled, confirm_absent hash db m key height position h room.hash nil, ◌>>=◌)
                    run,
                (
                  Keeps-congr hash h' (λ q. elim (Bool-cases (bytes_eq q key)) [
                    | inl own ↦
                        let e : m q ≡ [] = ap m (eq_of_bytes_eq q key own) ∙ nil in
                        rw (own, pooled, e)
                    | inr other ↦ rw other
                  ]),
                  cached',
                  grows,
                ),
              )
        ]
  ]

  -- `store` of a transaction at a height and a position of 32 bits, in a database that holds the
  -- transactions `m` and whose cache is well formed, returns where the system calls succeed and
  -- there is room for a slab. If the transaction is one of the pool, if its position is neither 0
  -- nor the one of the unconfirmed, and if its hash has a transaction, then the newest of these has
  -- the height and the position; otherwise the transaction is the newest of its hash. All other
  -- transactions are as before, and the cache is well formed.
  pub store_transaction-Keeps :
      (db : TransactionDatabase Output) (m : Bytes → List Entry)
      → Keeps hash db m
      → IsCache db.cache
      → HasRoomFor tx db
      → Returns (store hash os tx height position db) (λ db'.
        Keeps hash db'
          (λ q. if bytes_eq q tx.transaction.hash then stored tx height position (m q) else m q)
        × IsCache db'.cache)
  store_transaction-Keeps db m h cached room =
      let (r, run, (h', cached', grows)) = store_transaction-Grows db m h cached room in
      (r, run, (h', cached'))
