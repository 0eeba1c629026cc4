-- ===== src/VariableUint.antt =====
-- Sizes in a variable number of bytes, as `write_size_little_endian` and `read_size_little_endian`
-- of the system library write and read them. The library is not part of the repository, so it is
-- an interface with the laws relied on.
pub mod Reading
use bitprim_database.Prelude.{ℕ, ◌+◌, ◌<◌, ◌^◌, ◌≡◌, [], ◌∷◌, length, Bytes}
use bitprim_database.Run.{Run, ok, ◌>>=◌}
use bitprim_database.MemoryMap.{MemoryMap, load}

-- The first byte tells how many bytes follow it.
pub record VariableUint : Type 0 where
  pub first : ℕ → ℕ
  pub others : ℕ → Bytes
  pub following : ℕ → ℕ
  pub value : ℕ → Bytes → ℕ
  pub length-others : (v : ℕ) → length (others v) ≡ following (first v)
  pub value-others : (v : ℕ) → v < 2 ^ 64 → value (first v) (others v) ≡ v

abbrev pub to_variable : ⦃var : VariableUint⦄ → ℕ → Bytes
to_variable ⦃var⦄ v = var.first v ∷ var.others v

-- `message::variable_uint_size`.
abbrev pub variable_uint_size : ⦃var : VariableUint⦄ → ℕ → ℕ
variable_uint_size ⦃var⦄ v = 1 + var.following (var.first v)

-- The byte at a place.
abbrev pub load_byte : MemoryMap → ℕ → Run ℕ
load_byte file a = do bytes ← load file a 1; ok (elim bytes [ [] ↦ 0 | b ∷ bs ↦ b ])

-- The number at a place, and the place behind it.
unfoldable pub read_size : ⦃var : VariableUint⦄ → MemoryMap → ℕ → Run (ℕ × ℕ)
read_size ⦃var⦄ file a = do
  b ← load_byte file a
  bs ← load file (a + 1) (var.following b)
  ok (var.value b bs, a + 1 + var.following b)
