-- ===== src/BlockResult.antt =====
-- src/result/block_result.cpp: the fields of a stored block. A result holds the place of its slab,
-- or none; a field of a result without a slab is a fault.
pub mod Fields
use bitprim_database.Prelude.{ℕ, ◌+◌, ◌*◌, Bool, Option, none, some, is_some, replicate, Bytes}
use bitprim_database.Run.{Run, ok, fault, ◌>>=◌}
use bitprim_database.Endian.{Endian, from_le}
use bitprim_database.VariableUint.{VariableUint, read_size}
use bitprim_database.MemoryMap.{MemoryMap, load}

abbrev pub version_size : ℕ
version_size = 4

abbrev pub previous_size : ℕ
previous_size = 32

abbrev pub merkle_size : ℕ
merkle_size = 32

abbrev pub time_size : ℕ
time_size = 4

abbrev pub bits_size : ℕ
bits_size = 4

abbrev pub nonce_size : ℕ
nonce_size = 4

abbrev pub height_size : ℕ
height_size = 4

abbrev pub hash_size : ℕ
hash_size = 32

abbrev pub version_offset : ℕ
version_offset = 0

abbrev pub time_offset : ℕ
time_offset = version_size + previous_size + merkle_size

abbrev pub bits_offset : ℕ
bits_offset = time_offset + time_size

abbrev pub height_offset : ℕ
height_offset = bits_offset + bits_size + nonce_size

abbrev pub count_offset : ℕ
count_offset = height_offset + height_size

-- The bytes that `header::from_data` reads.
abbrev pub header_size : ℕ
header_size = height_offset

pub record BlockResult : Type 0 where
  pub slab : Option ℕ
  pub hash : Bytes

-- The constructors without and with a hash.
unfoldable pub unhashed_result : Option ℕ → BlockResult
unhashed_result slab = record { slab = slab; hash = replicate hash_size 0 }

unfoldable pub block_result : Option ℕ → Bytes → BlockResult
block_result slab hash = record { slab = slab; hash = hash }

-- The conversion to bool.
unfoldable pub is_valid : BlockResult → Bool
is_valid r = is_some r.slab

unfoldable pub reset : BlockResult → BlockResult
reset r = record r { slab = none }

-- A read at an offset of the slab.
unfoldable pub at_slab : {A : Type 0} → BlockResult → (ℕ → Run A) → Run A
at_slab r read = elim r.slab [ none ↦ fault | some memory ↦ read memory ]

-- The bytes of the header.
unfoldable pub header : MemoryMap → BlockResult → Run Bytes
unfolding at_slab
header file r = at_slab r (λ memory. load file memory header_size)

unfoldable pub transaction_hash_at : MemoryMap → ℕ → ℕ → Run Bytes
transaction_hash_at file start index = load file (start + index * hash_size) hash_size

module _ ⦃en : Endian⦄ where
  -- The number in four bytes at an offset.
  unfoldable pub field : ℕ → MemoryMap → BlockResult → Run ℕ
  unfolding at_slab
  field offset file r =
      at_slab r (λ memory. do bytes ← load file (memory + offset) 4; ok (from_le bytes))

  unfoldable pub height : MemoryMap → BlockResult → Run ℕ
  height file r = field height_offset file r

  unfoldable pub bits : MemoryMap → BlockResult → Run ℕ
  bits file r = field bits_offset file r

  unfoldable pub timestamp : MemoryMap → BlockResult → Run ℕ
  timestamp file r = field time_offset file r

  unfoldable pub version : MemoryMap → BlockResult → Run ℕ
  version file r = field version_offset file r

module _ ⦃var : VariableUint⦄ where
  unfoldable pub transaction_count : MemoryMap → BlockResult → Run ℕ
  unfolding at_slab
  transaction_count file r =
      at_slab r
        (λ memory. do (tx_count, behind) ← read_size file (memory + count_offset); ok tx_count)

  unfoldable pub transaction_hash : MemoryMap → ℕ → BlockResult → Run Bytes
  unfolding at_slab
  transaction_hash file index r = at_slab r (λ memory. do
    (tx_count, behind) ← read_size file (memory + count_offset)
    transaction_hash_at file behind index)
