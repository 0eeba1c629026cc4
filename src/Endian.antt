-- ===== src/Endian.antt =====
-- Numbers in little endian order, as the serializers of the system library write and read them.
-- The library is not part of the repository, so it is an interface with the laws relied on.
use bitprim_database.Prelude.{ℕ, suc, ◌<◌, ◌^◌, ◌≡◌, length, replicate, Bytes}

-- `to_le w v` is what `write_little_endian` writes for a word of `w` bytes, and `from_le` is
-- `from_little_endian_unsafe`.
pub record Endian : Type 0 where
  pub to_le : ℕ → ℕ → Bytes
  pub from_le : Bytes → ℕ
  pub length-to_le : (w v : ℕ) → length (to_le w v) ≡ w
  pub from_le-to_le : (w v : ℕ) → v < 256 ^ w → from_le (to_le w v) ≡ v
  pub to_le_ones : (w v : ℕ) → suc v ≡ 256 ^ w → to_le w v ≡ replicate w 255

abbrev pub to_le : ⦃en : Endian⦄ → ℕ → ℕ → Bytes
to_le ⦃en⦄ = en.to_le

abbrev pub from_le : ⦃en : Endian⦄ → Bytes → ℕ
from_le ⦃en⦄ = en.from_le

-- `array_index` and `file_offset` of include/bitcoin/database/define.hpp, as bounds and byte sizes.
abbrev pub array_index_bound : ℕ
array_index_bound = 2 ^ 32

abbrev pub file_offset_bound : ℕ
file_offset_bound = 2 ^ 64
