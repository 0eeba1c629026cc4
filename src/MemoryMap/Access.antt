-- ===== src/MemoryMap/Access.antt =====
-- Reads and writes through the mapping of src/memory/memory_map.cpp that stay inside of it.
use mathlib.Core.Path.{subst}
use bitprim_database.Prelude.{
  ℕ, ◌+◌, ◌≤◌, ◌≡◌, ◌∙◌, refl, ◌⊎◌, true, [], ◌∷◌, ◌++◌, arith, length, le→leb, Bytes,
}
use bitprim_database.Run.{ok}
use bitprim_database.Bytes.{
  read_bytes, write_bytes, read_bytes-write_bytes, read_bytes-write_bytes_apart,
}
use bitprim_database.MemoryMap.{MemoryMap, load, save}

-- `f` is mapped over `n` bytes at least.
pub record Covers (f : MemoryMap) (n : ℕ) : Type 0 where
  pub mapped : f.mapped ≡ true
  pub within : n ≤ f.file_size

abbrev pub written : MemoryMap → ℕ → Bytes → MemoryMap
written f a bs = record f { bytes = write_bytes f.bytes a bs }

-- The value of a range, as `load` gives it.
abbrev pub Reads : MemoryMap → ℕ → Bytes → Type 0
Reads f a bs = read_bytes f.bytes a (length bs) ≡ bs

pub load-ok :
    (f : MemoryMap) (a n : ℕ) → Covers f (a + n) → load f a n ≡ ok (read_bytes f.bytes a n)
unfolding load
load-ok f a n c = ground (arith, le→leb (a + n) f.file_size)

pub load-Reads :
    (f : MemoryMap) (a : ℕ) (bs : Bytes) {n : ℕ}
    → n ≡ length bs
    → Covers f (a + n)
    → Reads f a bs
    → load f a n ≡ ok bs
load-Reads f a bs {n} e c r = ground (arith, load-ok f a n c)

pub save-ok :
    (f : MemoryMap) (a : ℕ) (bs : Bytes)
    → Covers f (a + length bs)
    → save f a bs ≡ ok (written f a bs)
unfolding save
save-ok f a bs c = ground (arith, le→leb (a + length bs) f.file_size)

pub written-Reads : (f : MemoryMap) (a : ℕ) (bs : Bytes) → Reads (written f a bs) a bs
written-Reads f a bs = read_bytes-write_bytes f.bytes a bs

pub written_apart :
    (f : MemoryMap) (a : ℕ) (bs : Bytes) (c : ℕ) (cs : Bytes)
    → (c + length cs ≤ a) ⊎ (a + length bs ≤ c)
    → Reads f c cs
    → Reads (written f a bs) c cs
written_apart f a bs c cs h r = read_bytes-write_bytes_apart f.bytes a bs c (length cs) h ∙ r

-- A range of two parts.
pub Reads-append :
    (f : MemoryMap) (a : ℕ) (bs cs : Bytes)
    → Reads f a (bs ++ cs)
    → Reads f a bs × Reads f (a + length bs) cs
unfolding read_bytes
Reads-append f a [] cs r = (refl, subst (λ n. Reads f n cs) (omega arith) r)
Reads-append f a (b ∷ bs) cs r =
    let tail : Reads f (a + 1) (bs ++ cs) = cc in
    let (here, there) = Reads-append f (a + 1) bs cs tail in
    (cc, subst (λ n. Reads f n cs) (omega arith) there)

-- A part of a range inside of the mapping, at an address that is another term for its place.
pub load-part :
    (f : MemoryMap) (end a b n : ℕ) (bs : Bytes)
    → Covers f end
    → Reads f b bs
    → b ≡ a
    → n ≡ length bs
    → a + n ≤ end
    → load f a n ≡ ok bs
load-part f end a b n bs covers r e k h =
    load-Reads f a bs k (record { mapped = covers.mapped; within = omega (arith, covers.within) })
      (subst (λ c. Reads f c bs) e r)

-- Two parts side by side.
pub Reads-join :
    (f : MemoryMap) (a : ℕ) (bs cs : Bytes)
    → Reads f a bs
    → Reads f (a + length bs) cs
    → Reads f a (bs ++ cs)
unfolding read_bytes
Reads-join f a [] cs r s = subst (λ n. Reads f n cs) (omega arith) s
Reads-join f a (b ∷ bs) cs r s =
    let tail : Reads f (a + 1) bs = cc in
    let rest = Reads-join f (a + 1) bs cs tail (subst (λ n. Reads f n cs) (omega arith) s) in cc
