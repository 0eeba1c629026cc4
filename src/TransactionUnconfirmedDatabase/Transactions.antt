-- ===== src/TransactionUnconfirmedDatabase/Transactions.antt =====
-- The transactions of src/databases/transaction_unconfirmed_database.cpp.
use bitprim_database.Prelude.{
  ℕ, ◌+◌, ◌≤◌, ◌<◌, ◌≡◌, ◌∙◌, refl, sym, ap, inl, inr, true, false, List, [], ◌∷◌, ◌++◌, arith,
  if◌then◌else◌, Bool-cases, is_some, length, length-append, Bytes, bytes_eq, eq_of_bytes_eq,
}
use bitprim_database.Run.{◌>>=◌, Returns}
use bitprim_database.Endian.{Endian, to_le, array_index_bound}
use bitprim_database.MemoryMap.{Os, MemoryMap}
use bitprim_database.MemoryMap.Growth.{Works, max_exact}
use bitprim_database.MemoryMap.Lifecycle.{Serves, IsShut}
use bitprim_database.Buckets.{Hash}
use bitprim_database.Buckets.Contents.{top, pop, push}
use bitprim_database.Buckets.Found.{Finds-is_some, list_cases}
use bitprim_database.SlabHashTable.Invariant.{Represents, Represents-congr, CanStore}
use bitprim_database.SlabHashTable.Storing.{store-Represents}
use bitprim_database.SlabHashTable.Finding.{find-top}
use bitprim_database.SlabHashTable.Unlinking.{unlink-Represents}
use bitprim_database.SlabFile.Creation.{create-Represents}
use bitprim_database.TransactionResult.{unconfirmed}
use bitprim_database.TransactionUnconfirmedDatabase.{
  Serialized, TransactionUnconfirmedDatabase, transaction_unconfirmed_database, with_map, create,
  serialize, store, unlink, unlink_if_exists,
}

module _ ⦃en : Endian⦄ where
  length-serialize : (body : Bytes) → length (serialize body) ≡ 8 + length body
  unfolding serialize
  length-serialize body = omega (
    arith,
    length-append (to_le 4 0) (to_le 4 unconfirmed ++ body),
    length-append (to_le 4 unconfirmed) body,
    en.length-to_le 4 0,
    en.length-to_le 4 unconfirmed,
  )

  abbrev pub serialized : List Bytes → List Bytes
  serialized [] = []
  serialized (b ∷ bs) = serialize b ∷ serialized bs

  is_some-serialized : (bs : List Bytes) → is_some (top (serialized bs)) ≡ is_some (top bs)
  is_some-serialized [] = refl
  is_some-serialized (b ∷ bs) = refl

  serialized-pop : (bs : List Bytes) → pop (serialized bs) ≡ serialized (pop bs)
  serialized-pop [] = refl
  serialized-pop (b ∷ bs) = refl

-- A transaction with a hash and a size of the format, and room for its slab.
pub record HasRoomFor (tx : Serialized) (db : TransactionUnconfirmedDatabase) : Type 0 where
  pub hash : length tx.hash ≡ 32
  pub body : length tx.body ≡ tx.serialized_size
  pub slab :
      db.lookup_map.manager.header_size
        + (db.lookup_map.manager.payload_size + (32 + 8 + (8 + tx.serialized_size)))
      ≤ max_exact

module _ ⦃en : Endian⦄ (hash : Hash) where
  -- The bodies of the transactions under each hash, the newest first.
  pub record Pools (db : TransactionUnconfirmedDatabase) (m : Bytes → List Bytes) : Type 0 where
    pub keyed : db.lookup_map.key_size ≡ 32
    pub represents : Represents hash db.lookup_map (λ q. serialized (m q))

  pub create-Pools :
      {os : Os} (file : MemoryMap) (buckets : ℕ)
      → Serves os
      → IsShut file
      → 0 < buckets
      → buckets < array_index_bound
      → Returns
          (create os (transaction_unconfirmed_database file buckets))
          (λ r. (r.0 ≡ true) × Pools r.1 (λ q. []))
  unfolding create transaction_unconfirmed_database
  create-Pools {os} file buckets serves shut pos small =
      let ((done, t), run, (yes', represents, keyed)) =
        create-Represents hash 32 file buckets serves shut pos small in
      (
        (done, with_map t (transaction_unconfirmed_database file buckets)),
        rw (run, ◌>>=◌),
        (yes', record { keyed = keyed; represents = represents }),
      )

  pub store-Pools :
      {os : Os} (db : TransactionUnconfirmedDatabase) (m : Bytes → List Bytes) (tx : Serialized)
      → Works os
      → Pools db m
      → HasRoomFor tx db
      → Returns
          (store hash os tx db)
          (λ db'. Pools db' (λ q. if bytes_eq q tx.hash then push tx.body (m q) else m q))
  unfolding store
  store-Pools db m tx works h room =
      let keyed : db.lookup_map.key_size ≡ 32 = h.keyed in
      let can : CanStore tx.hash (serialize tx.body) (8 + tx.serialized_size) db.lookup_map =
        record {
          keyed = room.hash ∙ sym h.keyed;
          fits = omega (arith, length-serialize tx.body, room.body);
          exact = rw keyed room.slab;
        } in
      let (r, run, (at', here, represents, kept)) =
        store-Represents hash db.lookup_map (λ q. serialized (m q)) tx.hash (serialize tx.body)
          (8 + tx.serialized_size) works h.represents can in
      (
        with_map r.1 db,
        rw run,
        record {
          keyed = kept ∙ h.keyed;
          represents = Represents-congr hash represents (λ q.
              elim (Bool-cases (bytes_eq q tx.hash)) [ inl own ↦ rw own | inr other ↦ rw other ]);
        },
      )

  -- `unlink_if_exists` of a hash, in a database that holds the transactions `m`, returns whether
  -- the hash has a transaction, also where no transaction shares its bucket. It takes the newest
  -- one away, and leaves all others.
  pub unlink_if_exists-Pools :
      (db : TransactionUnconfirmedDatabase) (m : Bytes → List Bytes) (key : Bytes)
      → Pools db m
      → length key ≡ 32
      → Returns (unlink_if_exists hash key db) (λ r.
        (r.0 ≡ is_some (top (m key))) × Pools r.1 (λ q. if bytes_eq q key then pop (m q) else m q))
  unfolding unlink_if_exists unlink
  unlink_if_exists-Pools db m key h k =
      let c : Bytes → List Bytes = λ q. serialized (m q) in
      let (o, run, found) = find-top hash db.lookup_map c key h.represents (k ∙ sym h.keyed) in
      let there : is_some o ≡ is_some (top (m key)) =
        Finds-is_some found ∙ is_some-serialized (m key) in
      elim (list_cases (m key)) [
        | inl nil ↦
            let no' : is_some o ≡ false = there ∙ ap (λ bs. is_some (top bs)) nil in
            (
              (false, db),
              rw (run, ◌>>=◌, no'),
              (
                rw nil,
                record {
                  keyed = h.keyed;
                  represents = Represents-congr hash h.represents (λ q.
                      elim (Bool-cases (bytes_eq q key)) [
                        | inl own ↦
                            let e : m q ≡ [] = ap m (eq_of_bytes_eq q key own) ∙ nil in rw (own, e)
                        | inr other ↦ rw other
                      ]);
                },
              ),
            )
        | inr (b, bs, filled) ↦
            let yes' : is_some o ≡ true = there ∙ ap (λ bs. is_some (top bs)) filled in
            let ((done, t), run', (same, represents, kept)) =
              unlink-Represents hash db.lookup_map key (k ∙ sym h.keyed) c key h.represents refl
                (ap (λ bs. top (serialized bs)) filled) in
            (
              (done, with_map t db),
              rw (run, ◌>>=◌, yes', run'),
              (
                same ∙ is_some-serialized (m key),
                record {
                  keyed = kept ∙ h.keyed;
                  represents = Represents-congr hash represents (λ q.
                      elim (Bool-cases (bytes_eq q key)) [
                        | inl own ↦ rw own (serialized-pop (m q))
                        | inr other ↦ rw other
                      ]);
                },
              ),
            )
      ]
