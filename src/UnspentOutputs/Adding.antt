-- ===== src/UnspentOutputs/Adding.antt =====
-- `add` of src/unspent_outputs.cpp.
use bitprim_database.Prelude.{
  ℕ, ◌+◌, ◌-◌, ◌%◌, ◌<◌, ◌^◌, ◌≡◌, ◌∙◌, refl, ap, inl, inr, Bool, false, ◌||◌, none, [], ◌∷◌, ◌++◌,
  arith, lt→ltb, leb_no, ◌==◌, ==→eq, ne→==, Bool-cases, length, drop,
}
use bitprim_database.Run.{◌>>=◌, Returns}
use bitprim_database.UnspentTransaction.{Transaction, unspent_transaction, key_of}
use bitprim_database.UnspentOutputs.{UnspentOutputs, left_find, insert, disabled, add}
use bitprim_database.UnspentOutputs.Cache.{IsCache}
use bitprim_database.UnspentOutputs.Changes.{left_find_hash}
use bitprim_database.UnspentOutputs.Inserting.{
  entry, insert-Holds, insert-empty, insert-new, room, room-Holds, room-drop, room-none,
}

module _ {Output : Type 0} where
  enabled : (u : UnspentOutputs Output) (b : Bool) → (disabled u || b) ≡ false → 0 < u.capacity
  unfolding disabled
  enabled u b h = ground arith

  -- `add` of a transaction with less than 2 ^ 32 outputs returns, and keeps the cache well formed:
  -- no more transactions than the capacity, rising sequence numbers up to the current one, and no
  -- hash twice. This holds for a cache that is off, full, or at the last sequence number, and for a
  -- transaction that is cached already.
  pub add-IsCache :
      (tx : Transaction Output) (height : ℕ) (confirmed : Bool) (u : UnspentOutputs Output)
      → length tx.outputs < 2 ^ 32
      → IsCache u
      → Returns (add tx height confirmed u) IsCache
  unfolding add unspent_transaction left_find
  add-IsCache tx height confirmed u short h =
      elim (Bool-cases (disabled u || (length tx.outputs == 0))) [
        | inl skip ↦ (u, rw skip, h)
        | inr go ↦
            let pos = enabled u (length tx.outputs == 0) go in
            elim (Bool-cases (u.sequence == 2 ^ 32 - 1)) [
              | inl last ↦
                  let top : u.sequence ≡ 2 ^ 32 - 1 = ==→eq u.sequence (2 ^ 32 - 1) last in
                  let zero' : (u.sequence + 1) % 2 ^ 32 ≡ 0 = omega (arith, top) in
                  (
                    record u { unspent = entry tx height confirmed 0 ∷ []; sequence = 0 },
                    rw (
                      go,
                      lt→ltb (length tx.outputs) (2 ^ 32) short,
                      ◌>>=◌,
                      last,
                      zero',
                      leb_no u.capacity 0 pos,
                      insert-empty (entry tx height confirmed 0),
                    ),
                    record {
                      bounded = omega (arith, pos);
                      counted = omega arith;
                      rising = (omega arith, omega arith, tt);
                      unique = (refl, tt);
                    },
                  )
              | inr more ↦
                  let (kept, fits) =
                    room-Holds u.capacity u.sequence u.unspent pos h.bounded h.rising h.unique in
                  let below : u.sequence + 1 < 2 ^ 32 = ground (arith, h.counted) in
                  let slot = entry tx height confirmed (u.sequence + 1) in
                  let (kept', longer) =
                    insert-Holds slot u.sequence (room u.capacity u.unspent) kept (omega arith) in
                  let wrap : (u.sequence + 1) % 2 ^ 32 ≡ u.sequence + 1 = omega (arith, below) in
                  (
                    record u {
                      unspent = insert slot (room u.capacity u.unspent);
                      sequence = u.sequence + 1;
                    },
                    rw (go, lt→ltb (length tx.outputs) (2 ^ 32) short, ◌>>=◌, more, wrap),
                    record {
                      bounded = omega (arith, longer, fits);
                      counted = below;
                      rising = kept'.rising;
                      unique = kept'.unique;
                    },
                  )
            ]
      ]

  -- A cache that a new transaction with outputs may enter. Its sequence numbers do not run out.
  pub record Admits (tx : Transaction Output) (u : UnspentOutputs Output) : Type 0 where
    pub enabled : 0 < u.capacity
    pub spendable : 0 < length tx.outputs
    pub short : length tx.outputs < 2 ^ 32
    pub sequenced : u.sequence + 1 < 2 ^ 32
    pub new : left_find (key_of tx.hash) u.unspent ≡ none

  -- In a well formed cache that is on, `add` of a new transaction with outputs, before the sequence
  -- numbers run out, appends the transaction with the next sequence number and drops just as many
  -- of the oldest as exceed the capacity with it.
  pub add-queue :
      (tx : Transaction Output) (height : ℕ) (confirmed : Bool) (u : UnspentOutputs Output)
      → IsCache u
      → Admits tx u
      → Returns (add tx height confirmed u) (λ u'.
        (u'.sequence ≡ u.sequence + 1)
        × (u'.unspent
            ≡ drop (length u.unspent + 1 - u.capacity) u.unspent
              ++ (entry tx height confirmed (u.sequence + 1) ∷ [])))
  unfolding add unspent_transaction disabled key_of
  add-queue tx height confirmed u h a =
      let slot = entry tx height confirmed (u.sequence + 1) in
      let (kept, fits) =
        room-Holds u.capacity u.sequence u.unspent a.enabled h.bounded h.rising h.unique in
      let wrap : (u.sequence + 1) % 2 ^ 32 ≡ u.sequence + 1 = omega (arith, a.sequenced) in
      (
        record u { unspent = insert slot (room u.capacity u.unspent); sequence = u.sequence + 1 },
        rw (
          ne→== u.capacity 0 (omega (arith, a.enabled)),
          ne→== (length tx.outputs) 0 (omega (arith, a.spendable)),
          lt→ltb (length tx.outputs) (2 ^ 32) a.short,
          ◌>>=◌,
          ne→== u.sequence (2 ^ 32 - 1) (omega (arith, a.sequenced)),
          wrap,
        ),
        (
          refl,
          insert-new slot u.sequence (room u.capacity u.unspent) kept.rising (omega arith) (
                room-none slot.transaction u.capacity u.unspent
                  (left_find_hash slot.transaction (key_of tx.hash) u.unspent refl ∙ a.new))
              ∙ ap (λ ss. ss ++ (slot ∷ [])) (room-drop u.capacity u.unspent a.enabled h.bounded),
        ),
      )
