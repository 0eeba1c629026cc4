-- ===== src/UnspentOutputs/Removing.antt =====
-- `remove` of src/unspent_outputs.cpp, of a transaction and of one output.
use bitprim_database.Prelude.{
  ℕ, ◌≤◌, ◌≡◌, ◌∙◌, refl, sym, ap, inl, inr, Bool, true, false, not, ◌&&◌, ◌||◌, Option, none, some,
  List, [], ◌∷◌, arith, ltb, ◌==◌, eq→==, ==→eq, if◌then◌else◌, Bool-cases, Option-cases, length,
  Bytes, bytes_eq, eq_of_bytes_eq,
}
use bitprim_database.UnspentTransaction.{
  OutputPoint, Cell, UnspentTransaction, key_of, equals, find_output, erase_output,
}
use bitprim_database.UnspentOutputs.{
  Slot, UnspentOutputs, Found, left_find, left_erase, set_outputs, disabled, lookup, remove,
  remove_output,
}
use bitprim_database.UnspentOutputs.Cache.{IsCache, lookup-absent, lookup-same, lookup-present}
use bitprim_database.UnspentOutputs.Changes.{
  left_find_hash, left_find-left_erase, left_find-set_outputs, left_erase-IsCache,
  set_outputs-IsCache,
}

module _ {Output : Type 0} where
  find_output-erase_output :
      (q p : ℕ) (cs : List (Cell Output))
      → find_output q (erase_output p cs) ≡ (if q == p then none else find_output q cs)
  unfolding find_output erase_output
  find_output-erase_output q p [] = elim (Bool-cases (q == p)) [
    | inl hit ↦ rw hit
    | inr miss ↦ rw miss
  ]
  find_output-erase_output q p (c ∷ cs) =
      let ih = find_output-erase_output q p cs in
      elim (Bool-cases (c.index == q)) [
        | inl hit ↦
            let e : c.index ≡ q = ==→eq c.index q hit in
            elim (Bool-cases (q == p)) [
              | inl meets ↦ rw (e, meets) (rw meets at ih)
              | inr off ↦ rw (e, off, eq→== q q refl)
            ]
        | inr miss ↦ elim (Bool-cases (c.index == p)) [
          | inl meets ↦ rw (meets, miss) ih
          | inr off ↦ rw (off, miss) ih
        ]
      ]

  -- A cache that is off holds nothing.
  disabled-empty : (u : UnspentOutputs Output) → IsCache u → disabled u ≡ true → u.unspent ≡ []
  unfolding disabled
  disabled-empty u h off = length-zero u.unspent (omega (arith, h.bounded, ==→eq u.capacity 0 off))
    where
      length-zero : (ss : List (Slot Output)) → length ss ≤ 0 → ss ≡ []
      length-zero [] l = refl
      length-zero (s ∷ ss) l = absurd (omega (arith, l))

  lookup-nothing :
      (q : OutputPoint) (fork : ℕ) (strict : Bool) (u : UnspentOutputs Output)
      → u.unspent ≡ []
      → lookup q fork strict u ≡ none
  unfolding left_find
  lookup-nothing q fork strict u e =
      lookup-absent q fork strict u (ap (left_find (key_of q.hash)) e)

  if_none : (b : Bool) {o : Option (Found Output)} → o ≡ none → o ≡ (if b then none else o)
  if_none true e = e
  if_none false e = refl

  -- `remove` of a transaction hash keeps a well formed cache well formed, after it no output of
  -- that transaction is found, and every other search has the answer that it had.
  pub remove-lookup :
      (hash : Bytes) (u : UnspentOutputs Output) (q : OutputPoint) (fork : ℕ) (strict : Bool)
      → IsCache u
      → IsCache (remove hash u)
        × (lookup q fork strict (remove hash u)
            ≡ (if bytes_eq q.hash hash then none else lookup q fork strict u))
  unfolding remove equals key_of
  remove-lookup hash u q fork strict h = elim (Bool-cases (disabled u)) [
    | inl off ↦
        let nothing = lookup-nothing q fork strict u (disabled-empty u h off) in
        rw off (h, if_none (bytes_eq q.hash hash) nothing)
    | inr on ↦ elim (Option-cases (left_find (key_of hash) u.unspent)) [
      | inl new ↦ elim (Bool-cases (bytes_eq q.hash hash)) [
        | inl hit ↦
            let absent : lookup q fork strict u ≡ none = lookup-absent q fork strict u (
              left_find_hash (key_of q.hash) (key_of hash) u.unspent
                (eq_of_bytes_eq q.hash hash hit)
              ∙ new) in
            rw (on, new, hit) (h, absent)
        | inr miss ↦ rw (on, new, miss) (h, refl)
      ]
      | inr (tx, there) ↦
          let u' = record u { unspent = left_erase (key_of hash) u.unspent } in
          let after = left_find-left_erase (key_of q.hash) (key_of hash) u.unspent in
          rw (on, there)
            (
              left_erase-IsCache (key_of hash) u h,
              elim (Bool-cases (bytes_eq q.hash hash)) [
                | inl hit ↦ rw hit (lookup-absent q fork strict u' (rw hit at after))
                | inr miss ↦ rw miss (lookup-same q fork strict u u' (rw miss at after))
              ],
            )
    ]
  ]

  -- The outputs of the transaction at the point without the one at its index.
  abbrev left_over : OutputPoint → UnspentTransaction Output → List (Cell Output)
  left_over point tx = erase_output point.index tx.outputs

  lookup-no_output :
      (q : OutputPoint) (fork : ℕ) (strict : Bool) (u : UnspentOutputs Output)
      (tx : UnspentTransaction Output)
      → left_find (key_of q.hash) u.unspent ≡ some tx
      → find_output q.index tx.outputs ≡ none
      → lookup q fork strict u ≡ none
  lookup-no_output q fork strict u tx there nil =
      lookup-present q fork strict u tx there
      ∙ elim (Bool-cases ((strict && not tx.is_confirmed) || ltb fork tx.height)) [
        | inl refused ↦ rw refused
        | inr fine ↦ rw (fine, nil)
      ]

  module _ (p q : OutputPoint) (fork : ℕ) (strict : Bool) (u : UnspentOutputs Output)
      (tx : UnspentTransaction Output) (there : left_find (key_of p.hash) u.unspent ≡ some tx) where
    found_too : bytes_eq q.hash p.hash ≡ true → left_find (key_of q.hash) u.unspent ≡ some tx
    unfolding key_of
    found_too hit =
        left_find_hash (key_of q.hash) (key_of p.hash) u.unspent (eq_of_bytes_eq q.hash p.hash hit)
        ∙ there

    -- The last output of its transaction.
    lookup-left_erase :
        left_over p tx ≡ []
        → lookup q fork strict (record u { unspent = left_erase (key_of p.hash) u.unspent }) ≡ (
            if bytes_eq q.hash p.hash && (q.index == p.index) then none else lookup q fork strict u)
    unfolding equals key_of find_output
    lookup-left_erase spent =
        let u' = record u { unspent = left_erase (key_of p.hash) u.unspent } in
        let after = left_find-left_erase (key_of q.hash) (key_of p.hash) u.unspent in
        let others = find_output-erase_output q.index p.index tx.outputs in
        elim (Bool-cases (bytes_eq q.hash p.hash)) [
          | inl hit ↦
              let gone = lookup-absent q fork strict u' (rw hit at after) in
              elim (Bool-cases (q.index == p.index)) [
                | inl meets ↦ rw (hit, meets) gone
                | inr off ↦
                    let nil : find_output q.index tx.outputs ≡ none =
                      sym (rw (spent, off) at others) in
                    rw (hit, off)
                      (gone ∙ sym (lookup-no_output q fork strict u tx (found_too hit) nil))
              ]
          | inr miss ↦ rw miss (lookup-same q fork strict u u' (rw miss at after))
        ]

    -- One output of several.
    lookup-set_outputs :
        lookup q fork strict
          (record u { unspent = set_outputs (key_of p.hash) (left_over p tx) u.unspent })
        ≡ (if bytes_eq q.hash p.hash && (q.index == p.index) then none else lookup q fork strict u)
    unfolding equals key_of
    lookup-set_outputs =
        let u' = record u { unspent = set_outputs (key_of p.hash) (left_over p tx) u.unspent } in
        let after =
          left_find-set_outputs (key_of q.hash) (key_of p.hash) (left_over p tx) u.unspent in
        let others = find_output-erase_output q.index p.index tx.outputs in
        elim (Bool-cases (bytes_eq q.hash p.hash)) [
          | inl hit ↦
              let tx' = record tx { outputs = left_over p tx } in
              let there' : left_find (key_of q.hash) u'.unspent ≡ some tx' =
                rw (hit, found_too hit) at after in
              elim (Bool-cases (q.index == p.index)) [
                | inl meets ↦
                    rw (hit, meets)
                      (lookup-no_output q fork strict u' tx' there' (rw meets at others))
                | inr off ↦
                    rw (hit, off)
                      (lookup-present q fork strict u' tx' there'
                        ∙ rw (rw off at others)
                            (sym (lookup-present q fork strict u tx (found_too hit))))
              ]
          | inr miss ↦ rw miss (lookup-same q fork strict u u' (rw miss at after))
        ]

  absent :
      (p q : OutputPoint) (fork : ℕ) (strict : Bool) (u : UnspentOutputs Output)
      → left_find (key_of p.hash) u.unspent ≡ none
      → lookup q fork strict u
        ≡ (if bytes_eq q.hash p.hash && (q.index == p.index) then none else lookup q fork strict u)
  unfolding key_of
  absent p q fork strict u new = elim (Bool-cases (bytes_eq q.hash p.hash)) [
    | inl hit ↦ if_none (bytes_eq q.hash p.hash && (q.index == p.index)) (
        lookup-absent q fork strict u (
          left_find_hash (key_of q.hash) (key_of p.hash) u.unspent
            (eq_of_bytes_eq q.hash p.hash hit)
          ∙ new))
    | inr miss ↦ rw miss
  ]

  length-empty : (xs : List (Cell Output)) → (length xs == 0) ≡ true → xs ≡ []
  length-empty [] h = refl
  length-empty (x ∷ xs) h = ground arith

  -- `remove` of an output point keeps a well formed cache well formed, after it the output at the
  -- point is not found, and every other search, for other outputs of the same transaction too, has
  -- the answer that it had.
  pub remove_output-lookup :
      (p : OutputPoint) (u : UnspentOutputs Output) (q : OutputPoint) (fork : ℕ) (strict : Bool)
      → IsCache u
      → IsCache (remove_output p u)
        × (lookup q fork strict (remove_output p u) ≡ (
            if bytes_eq q.hash p.hash && (q.index == p.index)
            then none
            else lookup q fork strict u))
  unfolding remove_output
  remove_output-lookup p u q fork strict h = elim (Bool-cases (disabled u)) [
    | inl off ↦
        let nothing = lookup-nothing q fork strict u (disabled-empty u h off) in
        rw off (h, if_none (bytes_eq q.hash p.hash && (q.index == p.index)) nothing)
    | inr on ↦ elim (Option-cases (left_find (key_of p.hash) u.unspent)) [
      | inl new ↦ rw (on, new) (h, absent p q fork strict u new)
      | inr (tx, there) ↦ elim (Bool-cases (length (left_over p tx) == 0)) [
        | inl spent ↦
            rw (on, there, spent)
              (
                left_erase-IsCache (key_of p.hash) u h,
                lookup-left_erase p q fork strict u tx there (length-empty (left_over p tx) spent),
              )
        | inr more ↦
            rw (on, there, more)
              (
                set_outputs-IsCache (key_of p.hash) (left_over p tx) u h,
                lookup-set_outputs p q fork strict u tx there,
              )
      ]
    ]
  ]
