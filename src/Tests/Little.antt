-- ===== src/Tests/Little.antt =====
-- Little endian numbers in base 256: the interface of Endian.antt can be met.
use bitprim_database.Prelude.{
  ℕ, zero, suc, ◌+◌, ◌*◌, ◌/◌, ◌%◌, ◌^◌, ◌<◌, ◌≡◌, refl, [], ◌∷◌, arith, length, replicate, Bytes,
}
use native.Mathlib.Numerals.{unary_clauses}
use bitprim_database.Endian.{Endian}

pow_suc : (w : ℕ) → 256 ^ suc w ≡ 256 ^ w * 256
pow_suc w = simp unary_clauses refl

abbrev pub digits : ℕ → ℕ → Bytes
digits zero v = []
digits (suc w) v = v % 256 ∷ digits w (v / 256)

abbrev pub number : Bytes → ℕ
number [] = 0
number (b ∷ bs) = b + 256 * number bs

pub length-digits : (w v : ℕ) → length (digits w v) ≡ w
length-digits zero v = refl
length-digits (suc w) v = ground (arith, length-digits w (v / 256))

pub number-digits : (w v : ℕ) → v < 256 ^ w → number (digits w v) ≡ v
number-digits zero v h = omega arith
number-digits (suc w) v h =
    let power : 256 ^ suc w ≡ 256 ^ w * 256 = pow_suc w in
    let rest : number (digits w (v / 256)) ≡ v / 256 =
      number-digits w (v / 256) (omega (arith, power)) in
    rw rest (omega arith)

pub digits_ones : (w v : ℕ) → suc v ≡ 256 ^ w → digits w v ≡ replicate w 255
digits_ones zero v h = refl
digits_ones (suc w) v h =
    let power : 256 ^ suc w ≡ 256 ^ w * 256 = pow_suc w in
    let rest : digits w (v / 256) ≡ replicate w 255 =
      digits_ones w (v / 256) (omega (arith, power)) in
    let ones : v % 256 ≡ 255 = omega (arith, power) in rw (rest, ones)

instance abbrev pub little : Endian
little = record {
  to_le = digits;
  from_le = number;
  length-to_le = length-digits;
  from_le-to_le = number-digits;
  to_le_ones = digits_ones;
}
