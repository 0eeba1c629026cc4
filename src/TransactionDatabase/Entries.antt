-- ===== src/TransactionDatabase/Entries.antt =====
-- The slabs of src/databases/transaction_database.cpp.
use mathlib.Core.Path.{subst}
use bitprim_database.Prelude.{
  ℕ, ◌+◌, ◌%◌, ◌<◌, ◌≡◌, ◌∙◌, refl, sym, ap, Bool, true, false, ◌&&◌, ◌||◌, Option, none, some,
  List, [], ◌∷◌, ◌++◌, arith, ltb, ◌==◌, if◌then◌else◌, length, length-append, All, Bytes,
}
use bitprim_database.Run.{ok, ◌>>=◌}
use bitprim_database.Endian.{Endian, to_le, array_index_bound}
use bitprim_database.MemoryMap.{MemoryMap}
use bitprim_database.MemoryMap.Access.{Covers, Reads, Reads-append, load-part}
use bitprim_database.Buckets.Contents.{top}
use bitprim_database.Buckets.Replacing.{replace_top}
use bitprim_database.TransactionResult.{load_word, unconfirmed, height_size}
use bitprim_database.TransactionDatabase.{serialize, check_confirmed}

pub record Entry : Type 0 where
  pub height : ℕ
  pub position : ℕ
  pub body : Bytes

-- Both fit into four bytes.
pub record IsSized (s : Entry) : Type 0 where
  pub height : s.height < array_index_bound
  pub position : s.position < array_index_bound

abbrev pub first {ℓ} : {A : Type ℓ} → List A → Option A
first [] = none
first (x ∷ xs) = some x

-- Whether a search of a fork passes over a transaction.
abbrev pub is_hidden : ℕ → Bool → Entry → Bool
is_hidden fork_height require_confirmed s =
    require_confirmed && (ltb fork_height s.height || (s.position == unconfirmed))

-- The stack with a change in its newest transaction.
abbrev pub edited : (Entry → Entry) → List Entry → List Entry
edited F [] = []
edited F (s ∷ ss) = F s ∷ ss

pub first-edited :
    (F : Entry → Entry) (ss : List Entry) {s : Entry}
    → first ss ≡ some s
    → first (edited F ss) ≡ some (F s)
first-edited F [] h = cc
first-edited F (x ∷ ss) {s} h = let same : x ≡ s = ground (arith, h) in ap (λ y. some (F y)) same

pub edited-All :
    (F : Entry → Entry) (ss : List Entry) {s : Entry}
    → first ss ≡ some s
    → IsSized (F s)
    → All IsSized ss
    → All IsSized (edited F ss)
edited-All F [] h f all = tt
edited-All F (x ∷ ss) {s} h f all =
    let same : s ≡ x = ground (arith, h) in (subst (λ y. IsSized (F y)) same f, all.1)

pub first-All : (ss : List Entry) {s : Entry} → All IsSized ss → first ss ≡ some s → IsSized s
first-All [] h e = cc
first-All (x ∷ xs) {s} h e = let same : x ≡ s = ground (arith, e) in subst IsSized same h.0

module _ ⦃en : Endian⦄ where
  abbrev pub slab_of : Entry → Bytes
  slab_of s = serialize s.height s.position s.body

  abbrev pub slabs : List Entry → List Bytes
  slabs [] = []
  slabs (s ∷ ss) = slab_of s ∷ slabs ss

  pub top-slabs :
      (ss : List Entry) {s : Entry} → first ss ≡ some s → top (slabs ss) ≡ some (slab_of s)
  top-slabs [] h = cc
  top-slabs (s ∷ ss) h = ground (arith, h)

  -- Putting another slab in place of the newest one.
  pub slabs-edited :
      (F : Entry → Entry) (ss : List Entry) {s : Entry}
      → first ss ≡ some s
      → replace_top (slab_of (F s)) (slabs ss) ≡ slabs (edited F ss)
  slabs-edited F [] h = refl
  slabs-edited F (x ∷ ss) {s} h =
      let same : s ≡ x = ground (arith, h) in ap (λ y. slab_of (F y) ∷ slabs ss) same

  pub length-slab_of : (s : Entry) → length (slab_of s) ≡ 8 + length s.body
  unfolding serialize
  length-slab_of s =
      let p = to_le 4 (s.position % array_index_bound) in
      omega (
        arith,
        length-append (to_le 4 (s.height % array_index_bound)) (p ++ s.body),
        length-append p s.body,
        en.length-to_le 4 (s.height % array_index_bound),
        en.length-to_le 4 (s.position % array_index_bound),
      )

  -- The words and the body at a place where a slab is read.
  pub record Fields (f : MemoryMap) (a : ℕ) (s : Entry) : Type 0 where
    pub height : load_word f a ≡ ok s.height
    pub position : load_word f (a + height_size) ≡ ok s.position
    pub body : Reads f (a + 8) s.body

  pub Reads-Fields :
      (f : MemoryMap) (a : ℕ) (s : Entry)
      → IsSized s
      → Covers f (a + length (slab_of s))
      → Reads f a (slab_of s)
      → Fields f a s
  unfolding serialize load_word
  Reads-Fields f a s sized covers r =
      let h = to_le 4 (s.height % array_index_bound) in
      let p = to_le 4 (s.position % array_index_bound) in
      let four = en.length-to_le 4 (s.height % array_index_bound) in
      let four' = en.length-to_le 4 (s.position % array_index_bound) in
      let long : length (h ++ (p ++ s.body)) ≡ 8 + length s.body = length-slab_of s in
      let (r₁, r₂) = Reads-append f a h (p ++ s.body) r in
      let (r₃, r₄) = Reads-append f (a + length h) p s.body r₂ in
      let end = a + length (slab_of s) in
      let same : s.height % array_index_bound ≡ s.height = omega (arith, sized.height) in
      let same' : s.position % array_index_bound ≡ s.position = omega (arith, sized.position) in
      record {
        height =
            rw (load-part f end a a 4 h covers r₁ refl (sym four) (omega (arith, long)))
              (ap ok (en.from_le-to_le 4 (s.height % array_index_bound) (omega arith) ∙ same));
        position =
            rw
              (load-part f end (a + 4) (a + length h) 4 p covers r₃ (omega (arith, four))
                (sym four') (omega (arith, long)))
              (ap ok (en.from_le-to_le 4 (s.position % array_index_bound) (omega arith) ∙ same'));
        body = subst (λ x. Reads f x s.body) (omega (arith, four, four')) r₄;
      }

  pub check_confirmed-Fields :
      (f : MemoryMap) (a : ℕ) (s : Entry) (fork_height : ℕ) (require_confirmed : Bool)
      → Fields f a s
      → check_confirmed f fork_height require_confirmed (some a)
        ≡ ok (if is_hidden fork_height require_confirmed s then none else some a)
  unfolding check_confirmed
  check_confirmed-Fields f a s fork_height false h = refl
  check_confirmed-Fields f a s fork_height true h = rw (h.height, ◌>>=◌, h.position)
