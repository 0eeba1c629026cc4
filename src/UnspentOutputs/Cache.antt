-- ===== src/UnspentOutputs/Cache.antt =====
-- The well formed cache of src/unspent_outputs.cpp, and how searches see changes of its pairs.
use mathlib.Core.Option
use bitprim_database.Prelude.{
  ℕ, ◌+◌, ◌≤◌, ◌<◌, ◌^◌, ◌≡◌, ◌∙◌, refl, sym, inl, inr, Bool, true, false, not, ◌&&◌, ◌||◌, none,
  some, List, [], ◌∷◌, ◌++◌, arith, ltb, ltb_no, ne→==, if◌then◌else◌, Bool-cases, Option-cases,
  length, Bytes, bytes_eq, bytes_eq_refl, eq_of_bytes_eq,
}
use bitprim_database.UnspentTransaction.{
  OutputPoint, UnspentTransaction, key_of, equals, find_output,
}
use bitprim_database.UnspentOutputs.{
  Slot, UnspentOutputs, lookup, left_find, right_has, insert_by_sequence,
}

pub bytes_eq_sym : (a b : Bytes) → bytes_eq a b ≡ bytes_eq b a
bytes_eq_sym a b = elim (Bool-cases (bytes_eq a b)) [
  | inl hit ↦ let e : a ≡ b = eq_of_bytes_eq a b hit in rw e
  | inr miss ↦ elim (Bool-cases (bytes_eq b a)) [
    | inl hit ↦ let e : b ≡ a = eq_of_bytes_eq b a hit in rw e
    | inr miss' ↦ cc
  ]
]

bytes_eq-join : (a b c : Bytes) → bytes_eq a c ≡ true → bytes_eq b c ≡ true → bytes_eq a b ≡ true
bytes_eq-join a b c h k =
    let e : a ≡ b = eq_of_bytes_eq a c h ∙ sym (eq_of_bytes_eq b c k) in rw e (bytes_eq_refl b)

module _ {Output : Type 0} where
  -- The sequence numbers rise from `lo` on up to `hi`.
  abbrev pub Rising : ℕ → ℕ → List (Slot Output) → Type 0
  Rising lo hi [] = Unit
  Rising lo hi (s ∷ ss) = (lo ≤ s.sequence) × (s.sequence ≤ hi) × Rising (s.sequence + 1) hi ss

  -- No two transactions have the same hash.
  abbrev pub Unique : List (Slot Output) → Type 0
  Unique [] = Unit
  Unique (s ∷ ss) = (left_find s.transaction ss ≡ none) × Unique ss

  pub record IsCache (u : UnspentOutputs Output) : Type 0 where
    pub bounded : length u.unspent ≤ u.capacity
    pub counted : u.sequence < 2 ^ 32
    pub rising : Rising 0 u.sequence u.unspent
    pub unique : Unique u.unspent

  pub right_has-Rising :
      (n lo hi : ℕ) (ss : List (Slot Output)) → Rising lo hi ss → hi < n → right_has n ss ≡ false
  unfolding right_has
  right_has-Rising n lo hi [] r h = refl
  right_has-Rising n lo hi (s ∷ ss) (a, b, r) h =
      rw (ne→== s.sequence n (omega (arith, b)), right_has-Rising n (s.sequence + 1) hi ss r h)

  -- A newer slot goes to the end.
  pub insert_by_sequence-last :
      (slot : Slot Output) (lo hi : ℕ) (ss : List (Slot Output))
      → Rising lo hi ss
      → hi < slot.sequence
      → insert_by_sequence slot ss ≡ ss ++ (slot ∷ [])
  unfolding insert_by_sequence
  insert_by_sequence-last slot lo hi [] r h = refl
  insert_by_sequence-last slot lo hi (s ∷ ss) (a, b, r) h = rw (
    ltb_no slot.sequence s.sequence (omega (arith, b)),
    insert_by_sequence-last slot (s.sequence + 1) hi ss r h,
  )

  pub Rising-last :
      (slot : Slot Output) (lo hi : ℕ) (ss : List (Slot Output))
      → Rising lo hi ss
      → lo ≤ hi + 1
      → hi < slot.sequence
      → Rising lo slot.sequence (ss ++ (slot ∷ []))
  Rising-last slot lo hi [] r l h = (omega arith, omega arith, tt)
  Rising-last slot lo hi (s ∷ ss) (a, b, r) l h =
      (a, omega (arith, b), Rising-last slot (s.sequence + 1) hi ss r (omega (arith, b)) h)

  pub Rising-weaken :
      (lo lo' hi : ℕ) (ss : List (Slot Output)) → lo' ≤ lo → Rising lo hi ss → Rising lo' hi ss
  Rising-weaken lo lo' hi [] h r = tt
  Rising-weaken lo lo' hi (s ∷ ss) h (a, b, r) = (omega (arith, a), b, r)

  pub left_find-none :
      (key : UnspentTransaction Output) (s : Slot Output) (ss : List (Slot Output))
      → left_find key (s ∷ ss) ≡ none
      → (equals s.transaction key ≡ false) × (left_find key ss ≡ none)
  unfolding left_find
  left_find-none key s ss h = elim (Bool-cases (equals s.transaction key)) [
    | inl hit ↦ cc (rw hit at h)
    | inr miss ↦ (miss, rw miss at h)
  ]

  pub left_find-last :
      (key : UnspentTransaction Output) (slot : Slot Output) (ss : List (Slot Output))
      → left_find slot.transaction ss ≡ none
      → left_find key (ss ++ (slot ∷ []))
        ≡ (if equals slot.transaction key then some slot.transaction else left_find key ss)
  unfolding left_find equals
  left_find-last key slot [] new = refl
  left_find-last key slot (s ∷ ss) new =
      let (apart, rest) = left_find-none slot.transaction s ss new in
      let ih = left_find-last key slot ss rest in
      elim (Bool-cases (equals s.transaction key)) [
        | inl hit ↦ elim (Bool-cases (equals slot.transaction key)) [
          | inl hit' ↦
              let same = bytes_eq-join s.transaction.hash slot.transaction.hash key.hash hit hit' in
              cc (same, apart)
          | inr miss ↦ rw (hit, miss)
        ]
        | inr miss ↦ rw miss ih
      ]

  pub Unique-last :
      (slot : Slot Output) (ss : List (Slot Output))
      → left_find slot.transaction ss ≡ none
      → Unique ss
      → Unique (ss ++ (slot ∷ []))
  unfolding equals left_find
  Unique-last slot [] new u = (refl, tt)
  Unique-last slot (s ∷ ss) new u =
      let (apart, rest) = left_find-none slot.transaction s ss new in
      (
        left_find-last s.transaction slot ss rest
            ∙ rw (bytes_eq_sym slot.transaction.hash s.transaction.hash, apart) u.0,
        Unique-last slot ss rest u.1,
      )

  -- A lookup depends on the transaction that is found, if one is.
  pub lookup-absent :
      (q : OutputPoint) (fork : ℕ) (strict : Bool) (u : UnspentOutputs Output)
      → left_find (key_of q.hash) u.unspent ≡ none
      → lookup q fork strict u ≡ none
  unfolding lookup
  lookup-absent q fork strict u e = rw (lookup, e)

  pub lookup-same :
      (q : OutputPoint) (fork : ℕ) (strict : Bool) (u u' : UnspentOutputs Output)
      → left_find (key_of q.hash) u'.unspent ≡ left_find (key_of q.hash) u.unspent
      → lookup q fork strict u' ≡ lookup q fork strict u
  unfolding lookup
  lookup-same q fork strict u u' e = rw (lookup, e)

  pub lookup-present :
      (q : OutputPoint) (fork : ℕ) (strict : Bool) (u : UnspentOutputs Output)
      (tx : UnspentTransaction Output)
      → left_find (key_of q.hash) u.unspent ≡ some tx
      → lookup q fork strict u ≡ (
          if (strict && not tx.is_confirmed) || ltb fork tx.height
          then none
          else Option.map
              (λ o. record {
                output = o;
                height = tx.height;
                is_coinbase = tx.is_coinbase;
                is_confirmed = tx.is_confirmed;
              })
              (find_output q.index tx.outputs))
  unfolding lookup
  lookup-present q fork strict u tx e =
      rw (lookup, e)
        (elim (Bool-cases (strict && not tx.is_confirmed)) [
          | inl refused ↦ rw refused
          | inr fine ↦ elim (Option-cases (find_output q.index tx.outputs)) [
            | inl nil ↦ elim (Bool-cases (ltb fork tx.height)) [
              | inl above ↦ rw (fine, nil, above)
              | inr below ↦ rw (fine, nil, below)
            ]
            | inr (o, there) ↦ rw (fine, there)
          ]
        ])
