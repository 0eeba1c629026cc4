-- ===== src/UnspentOutputs/Changes.antt =====
-- `left_erase` and new outputs in the cache of src/unspent_outputs.cpp.
use mathlib.Core.Option
use bitprim_database.Prelude.{
  ℕ, ◌+◌, ◌≤◌, ◌≡◌, ◌∙◌, refl, inl, inr, true, none, List, [], ◌∷◌, arith, if◌then◌else◌,
  Bool-cases, length, Bytes, bytes_eq, eq_of_bytes_eq,
}
use bitprim_database.UnspentTransaction.{Cell, UnspentTransaction, equals}
use bitprim_database.UnspentOutputs.{Slot, UnspentOutputs, left_find, left_erase, set_outputs}
use bitprim_database.UnspentOutputs.Cache.{Rising, Rising-weaken, Unique, IsCache}

bytes_eq-same : (a b c : Bytes) → bytes_eq a b ≡ true → bytes_eq a c ≡ bytes_eq b c
bytes_eq-same a b c h = let e : a ≡ b = eq_of_bytes_eq a b h in rw e

module _ {Output : Type 0} where
  -- What a search finds after `left_erase`.
  pub left_find-left_erase :
      (key gone : UnspentTransaction Output) (ss : List (Slot Output))
      → left_find key (left_erase gone ss) ≡ (if equals key gone then none else left_find key ss)
  unfolding left_find left_erase equals
  left_find-left_erase key gone [] = elim (Bool-cases (bytes_eq key.hash gone.hash)) [
    | inl hit ↦ rw hit
    | inr miss ↦ rw miss
  ]
  left_find-left_erase key gone (s ∷ ss) =
      let ih = left_find-left_erase key gone ss in
      elim (Bool-cases (bytes_eq s.transaction.hash key.hash)) [
        | inl hit ↦
            let e = bytes_eq-same s.transaction.hash key.hash gone.hash hit in
            elim (Bool-cases (bytes_eq key.hash gone.hash)) [
              | inl meets ↦ rw (e, meets) (rw meets at ih)
              | inr off ↦ rw (e, off, hit)
            ]
        | inr miss ↦ elim (Bool-cases (bytes_eq s.transaction.hash gone.hash)) [
          | inl meets ↦ rw (meets, miss) ih
          | inr off ↦ rw (off, miss) ih
        ]
      ]

  pub left_find-set_outputs :
      (key changed : UnspentTransaction Output) (cells : List (Cell Output))
      (ss : List (Slot Output))
      → left_find key (set_outputs changed cells ss) ≡ (
          if equals key changed
          then Option.map
              (λ (tx : UnspentTransaction Output). record tx { outputs = cells })
              (left_find key ss)
          else left_find key ss)
  unfolding left_find set_outputs equals
  left_find-set_outputs key changed cells [] = elim (Bool-cases (bytes_eq key.hash changed.hash)) [
    | inl hit ↦ rw hit
    | inr miss ↦ rw miss
  ]
  left_find-set_outputs key changed cells (s ∷ ss) =
      let ih = left_find-set_outputs key changed cells ss in
      elim (Bool-cases (bytes_eq s.transaction.hash key.hash)) [
        | inl hit ↦
            let e = bytes_eq-same s.transaction.hash key.hash changed.hash hit in
            elim (Bool-cases (bytes_eq key.hash changed.hash)) [
              | inl meets ↦ rw (e, meets, hit)
              | inr off ↦ rw (e, off, hit)
            ]
        | inr miss ↦ elim (Bool-cases (bytes_eq s.transaction.hash changed.hash)) [
          | inl meets ↦ rw (meets, miss) ih
          | inr off ↦ rw (off, miss) ih
        ]
      ]

  left_erase-Rising :
      (gone : UnspentTransaction Output) (lo hi : ℕ) (ss : List (Slot Output))
      → Rising lo hi ss
      → Rising lo hi (left_erase gone ss)
  unfolding left_erase
  left_erase-Rising gone lo hi [] r = tt
  left_erase-Rising gone lo hi (s ∷ ss) (a, b, r) =
      let rest = left_erase-Rising gone (s.sequence + 1) hi ss r in
      elim (Bool-cases (equals s.transaction gone)) [
        | inl hit ↦
            rw hit
              (Rising-weaken (s.sequence + 1) lo hi (left_erase gone ss) (omega (arith, a)) rest)
        | inr miss ↦ rw miss (a, b, rest)
      ]

  left_erase-Unique :
      (gone : UnspentTransaction Output) (ss : List (Slot Output))
      → Unique ss
      → Unique (left_erase gone ss)
  unfolding left_erase
  left_erase-Unique gone [] u = tt
  left_erase-Unique gone (s ∷ ss) (new, u) = elim (Bool-cases (equals s.transaction gone)) [
    | inl hit ↦ rw hit (left_erase-Unique gone ss u)
    | inr miss ↦
        rw miss
          (left_find-left_erase s.transaction gone ss ∙ rw (miss, new), left_erase-Unique gone ss u)
  ]

  length-left_erase :
      (gone : UnspentTransaction Output) (ss : List (Slot Output))
      → length (left_erase gone ss) ≤ length ss
  unfolding left_erase
  length-left_erase gone [] = omega arith
  length-left_erase gone (s ∷ ss) = elim (Bool-cases (equals s.transaction gone)) [
    | inl hit ↦ rw hit (omega (arith, length-left_erase gone ss))
    | inr miss ↦ rw miss (omega (arith, length-left_erase gone ss))
  ]

  set_outputs-Rising :
      (key : UnspentTransaction Output) (cells : List (Cell Output)) (lo hi : ℕ)
      (ss : List (Slot Output))
      → Rising lo hi ss
      → Rising lo hi (set_outputs key cells ss)
  unfolding set_outputs
  set_outputs-Rising key cells lo hi [] r = tt
  set_outputs-Rising key cells lo hi (s ∷ ss) (a, b, r) =
      let rest = set_outputs-Rising key cells (s.sequence + 1) hi ss r in
      elim (Bool-cases (equals s.transaction key)) [
        | inl hit ↦ rw hit (a, b, rest)
        | inr miss ↦ rw miss (a, b, rest)
      ]

  length-set_outputs :
      (key : UnspentTransaction Output) (cells : List (Cell Output)) (ss : List (Slot Output))
      → length (set_outputs key cells ss) ≡ length ss
  unfolding set_outputs
  length-set_outputs key cells [] = refl
  length-set_outputs key cells (s ∷ ss) = elim (Bool-cases (equals s.transaction key)) [
    | inl hit ↦ rw (hit, length-set_outputs key cells ss)
    | inr miss ↦ rw (miss, length-set_outputs key cells ss)
  ]

  -- Other outputs for one transaction make no transaction appear.
  set_outputs-none :
      (key changed : UnspentTransaction Output) (cells : List (Cell Output))
      (ss : List (Slot Output))
      → left_find key ss ≡ none
      → left_find key (set_outputs changed cells ss) ≡ none
  set_outputs-none key changed cells ss new =
      left_find-set_outputs key changed cells ss ∙ elim (Bool-cases (equals key changed)) [
        | inl hit ↦ rw (hit, new)
        | inr miss ↦ rw (miss, new)
      ]

  pub left_find_hash :
      (a b : UnspentTransaction Output) (ss : List (Slot Output))
      → a.hash ≡ b.hash
      → left_find a ss ≡ left_find b ss
  unfolding left_find equals
  left_find_hash a b [] e = refl
  left_find_hash a b (s ∷ ss) e = rw (e, left_find_hash a b ss e)

  set_outputs-same :
      (s : Slot Output) (key : UnspentTransaction Output) (cells : List (Cell Output))
      (ss : List (Slot Output))
      → left_find s.transaction ss ≡ none
      → left_find (record s.transaction { outputs = cells }) (set_outputs key cells ss) ≡ none
  set_outputs-same s key cells ss new =
      set_outputs-none (record s.transaction { outputs = cells }) key cells ss
        (left_find_hash (record s.transaction { outputs = cells }) s.transaction ss refl ∙ new)

  set_outputs-Unique :
      (key : UnspentTransaction Output) (cells : List (Cell Output)) (ss : List (Slot Output))
      → Unique ss
      → Unique (set_outputs key cells ss)
  unfolding set_outputs
  set_outputs-Unique key cells [] u = tt
  set_outputs-Unique key cells (s ∷ ss) (new, u) = elim (Bool-cases (equals s.transaction key)) [
    | inl hit ↦ rw hit (set_outputs-same s key cells ss new, set_outputs-Unique key cells ss u)
    | inr miss ↦
        rw miss (set_outputs-none s.transaction key cells ss new, set_outputs-Unique key cells ss u)
  ]

  pub left_erase-IsCache :
      (key : UnspentTransaction Output) (u : UnspentOutputs Output)
      → IsCache u
      → IsCache (record u { unspent = left_erase key u.unspent })
  left_erase-IsCache key u h = record {
    bounded = omega (arith, h.bounded, length-left_erase key u.unspent);
    counted = h.counted;
    rising = left_erase-Rising key 0 u.sequence u.unspent h.rising;
    unique = left_erase-Unique key u.unspent h.unique;
  }

  pub set_outputs-IsCache :
      (key : UnspentTransaction Output) (cells : List (Cell Output)) (u : UnspentOutputs Output)
      → IsCache u
      → IsCache (record u { unspent = set_outputs key cells u.unspent })
  set_outputs-IsCache key cells u h = record {
    bounded = omega (arith, h.bounded, length-set_outputs key cells u.unspent);
    counted = h.counted;
    rising = set_outputs-Rising key cells 0 u.sequence u.unspent h.rising;
    unique = set_outputs-Unique key cells u.unspent h.unique;
  }
