-- ===== src/Buckets/Replacing.antt =====
-- The abstract table after the newest value of a key is written over.
use bitprim_database.Prelude.{
  ◌≡◌, ◌∙◌, refl, ap, inl, inr, some, List, [], ◌∷◌, Bool-cases, eq_of_bytes_eq, Bytes, bytes_eq,
  if◌then◌else◌,
}
use bitprim_database.Buckets.Contents.{top, pop}

-- The stack with other bytes on top, if it has a top.
abbrev pub replace_top : Bytes → List Bytes → List Bytes
replace_top bytes [] = []
replace_top bytes (v ∷ vs) = bytes ∷ vs

pub replaced_present :
    (c : Bytes → List Bytes) (key bytes : Bytes) {w : Bytes}
    → top (c key) ≡ some w
    → (q : Bytes)
    → (if bytes_eq q key then bytes ∷ pop (c q) else c q)
      ≡ (if bytes_eq q key then replace_top bytes (c q) else c q)
replaced_present c key bytes h q = elim (Bool-cases (bytes_eq q key)) [
  | inl own ↦
      let e : top (c q) ≡ top (c key) = ap (λ x. top (c x)) (eq_of_bytes_eq q key own) in
      rw own (filled (c q) (e ∙ h))
  | inr other ↦ rw other
]
  where
    filled : (vs : List Bytes) {w : Bytes} → top vs ≡ some w → bytes ∷ pop vs ≡ replace_top bytes vs
    filled [] h = cc
    filled (v ∷ vs) h = refl
