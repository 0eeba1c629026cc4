-- ===== src/Buckets/Found.antt =====
-- What a search answers: the place of the newest value of the key.
use mathlib.Core.Option
use bitprim_database.Prelude.{
  ℕ, ◌+◌, ◌≡◌, refl, ◌⊎◌, inl, inr, Option, none, some, List, [], ◌∷◌, arith, Bool-cases, is_some,
  length, Bytes, bytes_eq,
}
use bitprim_database.Endian.{Endian}
use bitprim_database.MemoryMap.{MemoryMap}
use bitprim_database.MemoryMap.Access.{Covers, Reads}
use bitprim_database.Row.{Layout, data_of}
use bitprim_database.Row.Entry.{Entry}
use bitprim_database.Buckets.Chain.{find_entry, Chain}
use bitprim_database.Buckets.Contents.{stack, top}

-- An answer where the value `v`, if any, is wanted.
pub data Finds (f : MemoryMap) : Option ℕ → Option Bytes → Type 0 where
  absent : Finds f none none
  at : (a : ℕ) (v : Bytes) → Covers f (a + length v) → Reads f a v → Finds f (some a) (some v)

pub list_cases {ℓ} :
    {A : Type ℓ} (xs : List A) → (xs ≡ []) ⊎ ((x : A) × (ys : List A) × (xs ≡ x ∷ ys))
list_cases [] = inl refl
list_cases (x ∷ xs) = inr (x, xs, refl)

module _ ⦃en : Endian⦄ (L : Layout) where
  pub chain-Finds :
      (f : MemoryMap) (lo hi : ℕ) (key : Bytes) (es : List Entry)
      → Chain L f lo hi es
      → Finds f (Option.map (λ e. data_of L e.link) (find_entry key es)) (top (stack key es))
  unfolding find_entry stack
  chain-Finds f lo hi key [] c = absent
  chain-Finds f lo hi key (e ∷ es) (a, b, r, c) = elim (Bool-cases (bytes_eq key e.key)) [
    | inl hit ↦ rw hit (
        at (data_of L e.link) e.value
          (record { mapped = r.body.covers.mapped; within = omega (arith, r.body.covers.within) })
          r.body.value)
    | inr miss ↦ rw miss (chain-Finds f lo (L.address e.link) key es c)
  ]

pub Finds-is_some :
    {f : MemoryMap} {o : Option ℕ} {v : Option Bytes} → Finds f o v → is_some o ≡ is_some v
Finds-is_some absent = refl
Finds-is_some (at a v c r) = refl

-- The place that was found.
pub Finds-place :
    {f : MemoryMap} {a : ℕ} {w : Bytes}
    → Finds f (some a) (some w)
    → Covers f (a + length w) × Reads f a w
Finds-place (at a w c r) = (c, r)
