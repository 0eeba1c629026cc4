-- ===== src/UnspentOutputs/Inserting.antt =====
-- The bimap of src/unspent_outputs.cpp while `add` makes room and inserts.
use bitprim_database.Prelude.{
  ℕ, ◌+◌, ◌-◌, ◌≤◌, ◌<◌, ◌≡◌, refl, inl, inr, Bool, none, some, List, [], ◌∷◌, ◌++◌, arith, leb,
  leb_no, if◌then◌else◌, Bool-cases, Option-cases, length, length-append, drop,
}
use bitprim_database.UnspentTransaction.{Transaction, UnspentTransaction, fill_outputs}
use bitprim_database.UnspentOutputs.{
  Slot, left_find, right_has, insert_by_sequence, right_erase_first, insert,
}
use bitprim_database.UnspentOutputs.Cache.{
  Rising, Rising-weaken, Rising-last, Unique, Unique-last, right_has-Rising,
  insert_by_sequence-last, left_find-none,
}

module _ {Output : Type 0} where
  -- The pairs of a cache whose sequence numbers are not above `hi`.
  pub record Holds (hi : ℕ) (ss : List (Slot Output)) : Type 0 where
    pub rising : Rising 0 hi ss
    pub unique : Unique ss

  pub Rising-extend :
      (lo hi hi' : ℕ) (ss : List (Slot Output)) → hi ≤ hi' → Rising lo hi ss → Rising lo hi' ss
  Rising-extend lo hi hi' [] h r = tt
  Rising-extend lo hi hi' (s ∷ ss) h (a, b, r) =
      (a, omega (arith, b), Rising-extend (s.sequence + 1) hi hi' ss h r)

  pub insert-known :
      (slot : Slot Output) (ss : List (Slot Output)) {tx : UnspentTransaction Output}
      → left_find slot.transaction ss ≡ some tx
      → insert slot ss ≡ ss
  unfolding insert
  insert-known slot ss there = rw (insert, there)

  pub insert-empty : (slot : Slot Output) → insert slot [] ≡ slot ∷ []
  unfolding insert left_find right_has insert_by_sequence
  insert-empty slot = refl

  -- A new transaction goes behind the others.
  pub insert-new :
      (slot : Slot Output) (hi : ℕ) (ss : List (Slot Output))
      → Rising 0 hi ss
      → hi < slot.sequence
      → left_find slot.transaction ss ≡ none
      → insert slot ss ≡ ss ++ (slot ∷ [])
  unfolding insert
  insert-new slot hi ss r h new =
      rw (insert, new, right_has-Rising slot.sequence 0 hi ss r h)
        (insert_by_sequence-last slot 0 hi ss r h)

  pub insert-Holds :
      (slot : Slot Output) (hi : ℕ) (ss : List (Slot Output))
      → Holds hi ss
      → hi < slot.sequence
      → Holds slot.sequence (insert slot ss) × (length (insert slot ss) ≤ length ss + 1)
  insert-Holds slot hi ss h less = elim (Option-cases (left_find slot.transaction ss)) [
    | inl new ↦
        rw (insert-new slot hi ss h.rising less new, length-append ss (slot ∷ []))
          (
            record {
              rising = Rising-last slot 0 hi ss h.rising (omega arith) less;
              unique = Unique-last slot ss new h.unique;
            },
            omega arith,
          )
    | inr (tx, there) ↦ rw (insert-known slot ss there) (
      record {
        rising = Rising-extend 0 hi slot.sequence ss (omega arith) h.rising;
        unique = h.unique;
      },
      omega arith,
    )
  ]

  -- The pair that `add` makes.
  abbrev pub entry : Transaction Output → ℕ → Bool → ℕ → Slot Output
  entry tx height confirmed sequence = record {
    transaction = record {
      height = height;
      is_coinbase = tx.is_coinbase;
      is_confirmed = confirmed;
      hash = tx.hash;
      outputs = fill_outputs 0 tx.outputs;
    };
    sequence = sequence;
  }

  pub right_erase_first-Holds :
      (lo hi : ℕ) (ss : List (Slot Output))
      → Rising lo hi ss
      → Unique ss
      → Rising lo hi (right_erase_first ss) × Unique (right_erase_first ss)
  unfolding right_erase_first
  right_erase_first-Holds lo hi [] r u = (tt, tt)
  right_erase_first-Holds lo hi (s ∷ ss) (a, b, r) (new, u) =
      (Rising-weaken (s.sequence + 1) lo hi ss (omega (arith, a)) r, u)

  pub length-right_erase_first :
      (ss : List (Slot Output)) → length (right_erase_first ss) ≡ length ss - 1
  unfolding right_erase_first
  length-right_erase_first [] = refl
  length-right_erase_first (s ∷ ss) = omega arith

  -- The pairs that stay when there must be room for one more.
  abbrev pub room : ℕ → List (Slot Output) → List (Slot Output)
  room capacity ss = if leb capacity (length ss) then right_erase_first ss else ss

  pub room-Holds :
      (capacity hi : ℕ) (ss : List (Slot Output))
      → 0 < capacity
      → length ss ≤ capacity
      → Rising 0 hi ss
      → Unique ss
      → Holds hi (room capacity ss) × (length (room capacity ss) + 1 ≤ capacity)
  room-Holds capacity hi ss pos bound r u = elim (Bool-cases (leb capacity (length ss))) [
    | inl full ↦
        let (r', u') = right_erase_first-Holds 0 hi ss r u in
        rw full (record { rising = r'; unique = u' }, omega (arith, length-right_erase_first ss))
    | inr free ↦ rw free (record { rising = r; unique = u }, ground arith)
  ]

  pub room-drop :
      (capacity : ℕ) (ss : List (Slot Output))
      → 0 < capacity
      → length ss ≤ capacity
      → room capacity ss ≡ drop (length ss + 1 - capacity) ss
  unfolding right_erase_first
  room-drop capacity [] pos bound =
      let none_there : 1 - capacity ≡ 0 = omega arith in rw (leb_no capacity 0 pos, none_there)
  room-drop capacity (s ∷ ss) pos bound = elim (Bool-cases (leb capacity (length (s ∷ ss)))) [
    | inl full ↦
        let one : length (s ∷ ss) + 1 - capacity ≡ 1 = ground (arith, bound) in rw (full, one)
    | inr free ↦
        let none_there : length (s ∷ ss) + 1 - capacity ≡ 0 = ground arith in rw (free, none_there)
  ]

  pub room-none :
      (key : UnspentTransaction Output) (capacity : ℕ) (ss : List (Slot Output))
      → left_find key ss ≡ none
      → left_find key (room capacity ss) ≡ none
  unfolding right_erase_first
  room-none key capacity [] new = elim (Bool-cases (leb capacity 0)) [
    | inl full ↦ rw full new
    | inr free ↦ rw free new
  ]
  room-none key capacity (s ∷ ss) new = elim (Bool-cases (leb capacity (length (s ∷ ss)))) [
    | inl full ↦ rw full ((left_find-none key s ss new).1)
    | inr free ↦ rw free new
  ]
