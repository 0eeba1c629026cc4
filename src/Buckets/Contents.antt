-- ===== src/Buckets/Contents.antt =====
-- The abstract table: under each key a stack of values, the newest first.
use mathlib.Core.Option
use mathlib.Core.Path.{subst}
use bitprim_database.Prelude.{
  ℕ, ◌≡◌, refl, sym, ◌∙◌, ap, inl, inr, false, Option, none, some, List, [], ◌∷◌, ◌==◌, eq→==,
  ==→eq, if◌then◌else◌, Bool-cases, is_some, Bytes, bytes_eq, eq_of_bytes_eq,
}
use bitprim_database.Row.Entry.{Entry}
use bitprim_database.Buckets.Chain.{find_entry, remove_entry}
use bitprim_database.Buckets.Table.{update}

-- The values of the key among the rows.
unfoldable pub stack : Bytes → List Entry → List Bytes
stack key [] = []
stack key (e ∷ es) = if bytes_eq key e.key then e.value ∷ stack key es else stack key es

abbrev pub pop : List Bytes → List Bytes
pop [] = []
pop (v ∷ vs) = vs

abbrev pub top : List Bytes → Option Bytes
top [] = none
top (v ∷ vs) = some v

abbrev pub push : Bytes → List Bytes → List Bytes
push v vs = v ∷ vs

-- `index` is the bucket of a key, and `view` lists the rows of each bucket.
abbrev pub contents : (Bytes → ℕ) → (ℕ → List Entry) → Bytes → List Bytes
contents index view key = stack key (view (index key))

pub find_entry-stack :
    (key : Bytes) (es : List Entry)
    → Option.map (λ e. e.value) (find_entry key es) ≡ top (stack key es)
unfolding find_entry stack
find_entry-stack key [] = refl
find_entry-stack key (e ∷ es) = elim (Bool-cases (bytes_eq key e.key)) [
  | inl hit ↦ rw hit
  | inr miss ↦ rw miss (find_entry-stack key es)
]

pub is_some-find_entry :
    (key : Bytes) (es : List Entry) → is_some (find_entry key es) ≡ is_some (top (stack key es))
unfolding find_entry stack
is_some-find_entry key [] = refl
is_some-find_entry key (e ∷ es) = elim (Bool-cases (bytes_eq key e.key)) [
  | inl hit ↦ rw hit
  | inr miss ↦ rw miss (is_some-find_entry key es)
]

stack-remove_entry_self :
    (key : Bytes) (es : List Entry) → stack key (remove_entry key es) ≡ pop (stack key es)
unfolding remove_entry stack
stack-remove_entry_self key [] = refl
stack-remove_entry_self key (e ∷ es) = elim (Bool-cases (bytes_eq key e.key)) [
  | inl hit ↦ rw hit
  | inr miss ↦ rw (miss, miss) (stack-remove_entry_self key es)
]

stack-remove_entry_ne :
    (q key : Bytes) (es : List Entry)
    → bytes_eq q key ≡ false
    → stack q (remove_entry key es) ≡ stack q es
unfolding remove_entry stack
stack-remove_entry_ne q key [] ne = refl
stack-remove_entry_ne q key (e ∷ es) ne = elim (Bool-cases (bytes_eq key e.key)) [
  | inl hit ↦
      let other : bytes_eq q e.key ≡ false = rw (← eq_of_bytes_eq key e.key hit) ne in
      rw (hit, other)
  | inr miss ↦
      rw miss (
        ap (λ vs. if bytes_eq q e.key then e.value ∷ vs else vs)
          (stack-remove_entry_ne q key es ne))
]

module _ (index : Bytes → ℕ) (view : ℕ → List Entry) (q : Bytes) where
  pub contents-push :
      (e : Entry)
      → contents index (update view (index e.key) (e ∷ view (index e.key))) q
        ≡ (if bytes_eq q e.key then push e.value (contents index view q) else contents index view q)
  unfolding stack
  contents-push e = elim (Bool-cases (bytes_eq q e.key)) [
    | inl same ↦
        let p : index q ≡ index e.key = ap index (eq_of_bytes_eq q e.key same) in
        rw (eq→== _ _ p, same) (ap (λ i. push e.value (stack q (view i))) (sym p))
    | inr other ↦ elim (Bool-cases (index q == index e.key)) [
      | inl hit ↦ rw (hit, other) (ap (λ i. stack q (view i)) (sym (==→eq _ _ hit)))
      | inr miss ↦ rw (miss, other)
    ]
  ]

  pub contents-pop :
      (key : Bytes)
      → contents index (update view (index key) (remove_entry key (view (index key)))) q
        ≡ (if bytes_eq q key then pop (contents index view q) else contents index view q)
  contents-pop key = elim (Bool-cases (bytes_eq q key)) [
    | inl same ↦
        let p : index q ≡ index key = ap index (eq_of_bytes_eq q key same) in
        let r : q ≡ key = eq_of_bytes_eq q key same in
        rw (eq→== _ _ p, same)
          (subst
            (λ k. stack k (remove_entry key (view (index key))) ≡ pop (stack k (view (index k))))
            (sym r) (stack-remove_entry_self key (view (index key))))
    | inr other ↦ elim (Bool-cases (index q == index key)) [
      | inl hit ↦
          rw (hit, other)
            (stack-remove_entry_ne q key (view (index key)) other
              ∙ ap (λ i. stack q (view i)) (sym (==→eq _ _ hit)))
      | inr miss ↦ rw (miss, other)
    ]
  ]
