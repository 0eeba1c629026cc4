-- ===== src/UnspentOutputs/Reading.antt =====
-- `get` of src/unspent_outputs.cpp, on its own and after `add`.
use mathlib.Core.Option
use bitprim_database.Prelude.{
  get_elem?, ℕ, zero, suc, ◌+◌, ◌-◌, ◌%◌, ◌≤◌, ◌<◌, ◌^◌, ◌≡◌, ◌∙◌, refl, sym, ap, inl, inr, Bool,
  true, false, not, ◌&&◌, ◌||◌, Option, none, some, List, [], ◌∷◌, arith, ltb, eq→==, ne→==,
  if◌then◌else◌, Bool-cases, Option-cases, length, drop, bytes_eq_refl,
}
use bitprim_database.Run.{Returns}
use bitprim_database.UnspentTransaction.{
  Transaction, OutputPoint, UnspentTransaction, key_of, equals, find_output, fill_outputs,
}
use bitprim_database.UnspentOutputs.{
  Slot, UnspentOutputs, Found, left_find, disabled, add, lookup, get,
}
use bitprim_database.UnspentOutputs.Cache.{
  IsCache, left_find-last, left_find-none, lookup-absent, lookup-present,
}
use bitprim_database.UnspentOutputs.Changes.{left_find_hash}
use bitprim_database.UnspentOutputs.Adding.{Admits, add-queue}
use bitprim_database.UnspentOutputs.Inserting.{entry}

allowed :
    (strict confirmed : Bool) (fork height : ℕ)
    → ((strict && not confirmed) || ltb fork height) ≡ false
    → (height ≤ fork) × (strict ≡ true → confirmed ≡ true)
allowed true true fork height h = (ground arith, λ e. refl)
allowed true false fork height h = cc
allowed false confirmed fork height h = (ground arith, λ e. cc)

module _ {Output : Type 0} where
  find_output-fill_outputs :
      (k i : ℕ) (os : List Output) → find_output (k + i) (fill_outputs k os) ≡ get_elem? os i
  unfolding find_output fill_outputs get_elem?
  find_output-fill_outputs k i [] = refl
  find_output-fill_outputs k zero (o ∷ os) = rw (eq→== k (k + 0) (omega arith))
  find_output-fill_outputs k (suc i) (o ∷ os) = rw (ne→== k (k + suc i) (omega arith)) (
      ap (λ n. find_output n (fill_outputs (k + 1) os)) (omega arith)
      ∙ find_output-fill_outputs (k + 1) i os)

  drop-none :
      (key : UnspentTransaction Output) (n : ℕ) (ss : List (Slot Output))
      → left_find key ss ≡ none
      → left_find key (drop n ss) ≡ none
  drop-none key zero ss new = new
  drop-none key (suc n) [] new = new
  drop-none key (suc n) (s ∷ ss) new = drop-none key n ss ((left_find-none key s ss new).1)

  -- The answer for an output that `add` has taken in.
  abbrev pub answer : Transaction Output → ℕ → Bool → Output → Found Output
  answer tx height confirmed o = record {
    output = o;
    height = height;
    is_coinbase = tx.is_coinbase;
    is_confirmed = confirmed;
  }

  -- After such an `add`, a search for an index of the transaction finds the output at that index
  -- with the height and the flags given, unless the height is above the fork or the transaction is
  -- unconfirmed and must be confirmed; an index past the outputs is not found.
  pub add-lookup :
      (tx : Transaction Output) (height : ℕ) (confirmed : Bool) (u : UnspentOutputs Output)
      (index fork : ℕ) (strict : Bool)
      → IsCache u
      → Admits tx u
      → Returns (add tx height confirmed u) (λ u'.
        lookup (record { hash = tx.hash; index = index }) fork strict u' ≡ (
          if (strict && not confirmed) || ltb fork height
          then none
          else Option.map (answer tx height confirmed) (get_elem? tx.outputs index)))
  unfolding key_of equals
  add-lookup tx height confirmed u index fork strict h a =
      let (u', run, (seq, queue)) = add-queue tx height confirmed u h a in
      let q : OutputPoint = record { hash = tx.hash; index = index } in
      let slot = entry tx height confirmed (u.sequence + 1) in
      let kept = drop (length u.unspent + 1 - u.capacity) u.unspent in
      let new : left_find slot.transaction kept ≡ none =
        drop-none slot.transaction (length u.unspent + 1 - u.capacity) u.unspent
          (left_find_hash slot.transaction (key_of tx.hash) u.unspent refl ∙ a.new) in
      let there : left_find (key_of q.hash) u'.unspent ≡ some slot.transaction =
        ap (left_find (key_of q.hash)) queue
        ∙ left_find-last (key_of q.hash) slot kept new
        ∙ rw (bytes_eq_refl tx.hash) in
      let numbered : find_output index (fill_outputs 0 tx.outputs) ≡ get_elem? tx.outputs index =
        ap (λ n. find_output n (fill_outputs 0 tx.outputs)) (omega arith)
        ∙ find_output-fill_outputs 0 index tx.outputs in
      (u', run, lookup-present q fork strict u' slot.transaction there ∙ rw numbered)

  given :
      (o : Option Output) (k : Output → Found Output) (f : Found Output)
      → Option.map k o ≡ some f
      → (o' : Output) × (f ≡ k o')
  given none k f h = cc
  given (some o) k f h = (o, cc)

  lookup_guards :
      (q : OutputPoint) (fork : ℕ) (strict : Bool) (u : UnspentOutputs Output) (f : Found Output)
      → lookup q fork strict u ≡ some f
      → (f.height ≤ fork) × (strict ≡ true → f.is_confirmed ≡ true)
  lookup_guards q fork strict u f h = elim (Option-cases (left_find (key_of q.hash) u.unspent)) [
    | inl new ↦ cc (lookup-absent q fork strict u new)
    | inr (tx, there) ↦
        let shown = sym (lookup-present q fork strict u tx there) ∙ h in
        elim (Bool-cases ((strict && not tx.is_confirmed) || ltb fork tx.height)) [
          | inl refused ↦ cc (rw refused at shown)
          | inr fine ↦
              let (o, e) = given (find_output q.index tx.outputs) _ f (rw fine at shown) in
              rw e (allowed strict tx.is_confirmed fork tx.height fine)
        ]
  ]

  -- When `get` hands out an output, its height is not above the fork, its transaction is confirmed
  -- if it must be, and the cache is on. The hits and the queries have gone up by one, modulo 2 ^
  -- 64, and the cached transactions are the same.
  pub get_guards :
      (point : OutputPoint) (fork : ℕ) (strict : Bool) (u : UnspentOutputs Output)
      (f : Found Output)
      → (get point fork strict u).0 ≡ some f
      → (f.height ≤ fork)
        × (strict ≡ true → f.is_confirmed ≡ true)
        × (0 < u.capacity)
        × ((get point fork strict u).1.hits ≡ (u.hits + 1) % 2 ^ 64)
        × ((get point fork strict u).1.queries ≡ (u.queries + 1) % 2 ^ 64)
        × ((get point fork strict u).1.unspent ≡ u.unspent)
  unfolding get disabled
  get_guards point fork strict u f h = elim (Bool-cases (disabled u)) [
    | inl off ↦ cc (rw off at h)
    | inr on ↦
        let queried : UnspentOutputs Output = record u { queries = (u.queries + 1) % 2 ^ 64 } in
        elim (Option-cases (lookup point fork strict queried)) [
          | inl nil ↦ cc (rw (on, nil) at h)
          | inr (g, there) ↦
              let e : g ≡ f = cc (rw (on, there) at h) in
              let (below, sure) = lookup_guards point fork strict queried f (there ∙ ap some e) in
              (below, sure, ground arith, rw (on, there), rw (on, there), rw (on, there))
        ]
  ]
