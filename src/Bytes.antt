-- ===== src/Bytes.antt =====
-- Byte ranges of a memory: what is read after a write, and what a write leaves alone.
use native.Mathlib.Decide.{dec_lt}
use bitprim_database.Prelude.{
  ℕ, zero, suc, ◌+◌, ◌≤◌, ◌<◌, ◌≡◌, ◌≢◌, ◌∙◌, refl, ap, ◌⊎◌, inl, inr, [], ◌∷◌, arith, ◌==◌, ==→eq,
  eq→==, Bool-cases, if◌then◌else◌, length, Bytes,
}

-- The bytes behind `data_`, by their distance from it.
abbrev pub Memory : Type 0
Memory = ℕ → ℕ

unfoldable pub read_bytes : Memory → ℕ → ℕ → Bytes
read_bytes m a zero = []
read_bytes m a (suc n) = m a ∷ read_bytes m (a + 1) n

unfoldable pub write_bytes : Memory → ℕ → Bytes → Memory
write_bytes m a [] x = m x
write_bytes m a (b ∷ bs) x = if x == a then b else write_bytes m (a + 1) bs x

pub write_bytes_outside :
    (m : Memory) (a : ℕ) (bs : Bytes) (x : ℕ)
    → (x < a) ⊎ (a + length bs ≤ x)
    → write_bytes m a bs x ≡ m x
unfolding write_bytes
write_bytes_outside m a [] x h = refl
write_bytes_outside m a (b ∷ bs) x h = ground (arith, write_bytes_outside m (a + 1) bs x)

pub length-read_bytes : (m : Memory) (a n : ℕ) → length (read_bytes m a n) ≡ n
unfolding read_bytes
length-read_bytes m a zero = refl
length-read_bytes m a (suc n) = ap suc (length-read_bytes m (a + 1) n)

-- Two memories that agree on a range read alike there.
pub read_bytes_congr :
    (m m' : Memory) (a n : ℕ)
    → ((x : ℕ) → a ≤ x → x < a + n → m' x ≡ m x)
    → read_bytes m' a n ≡ read_bytes m a n
unfolding read_bytes
read_bytes_congr m m' a zero h = refl
read_bytes_congr m m' a (suc n) h = ground (
  arith,
  h a (omega arith) (omega arith),
  read_bytes_congr m m' (a + 1) n (λ x l r. h x (omega arith) (omega arith)),
)

pub read_bytes-write_bytes :
    (m : Memory) (a : ℕ) (bs : Bytes) → read_bytes (write_bytes m a bs) a (length bs) ≡ bs
unfolding read_bytes write_bytes
read_bytes-write_bytes m a [] = refl
read_bytes-write_bytes m a (b ∷ bs) = ground (
  arith,
  read_bytes_congr (write_bytes m (a + 1) bs) (write_bytes m a (b ∷ bs)) (a + 1) (length bs)
      (λ x l r. ground arith),
  read_bytes-write_bytes m (a + 1) bs,
)

pub read_bytes-write_bytes_apart :
    (m : Memory) (a : ℕ) (bs : Bytes) (c n : ℕ)
    → (c + n ≤ a) ⊎ (a + length bs ≤ c)
    → read_bytes (write_bytes m a bs) c n ≡ read_bytes m c n
read_bytes-write_bytes_apart m a bs c n h = read_bytes_congr m (write_bytes m a bs) c n (λ x l r.
    write_bytes_outside m a bs x (elim h [ inl p ↦ inl (omega arith) | inr p ↦ inr (omega arith) ]))

-- A memory that reads `bs` at `a` and agrees with `m` elsewhere is `m` with `bs` written at `a`.
pub write_bytes_unique :
    (m g : Memory) (a : ℕ) (bs : Bytes) (x : ℕ)
    → ((x < a) ⊎ (a + length bs ≤ x) → g x ≡ m x)
    → read_bytes g a (length bs) ≡ bs
    → g x ≡ write_bytes m a bs x
unfolding read_bytes write_bytes
write_bytes_unique m g a [] x out r = elim (dec_lt x a) [
  | yes l ↦ out (inl l)
  | no h ↦ out (inr (omega arith))
]
write_bytes_unique m g a (b ∷ bs) x out r = elim (Bool-cases (x == a)) [
  | inl here ↦ let e : x ≡ a = ==→eq x a here in rw here (ap g e ∙ ground arith)
  | inr there ↦
      let ne : x ≢ a = λ e. ground (arith, eq→== x a e) in
      rw there (
        write_bytes_unique m g (a + 1) bs x
          (λ o. out (elim o [ inl l ↦ inl (omega (arith, ne)) | inr h ↦ inr (omega arith) ]))
          (ground arith))
]
