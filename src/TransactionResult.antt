-- ===== src/TransactionResult.antt =====
-- src/result/transaction_result.cpp: the fields of a stored transaction. An output is given by the
-- place from which the system library reads it.
pub mod Outputs
use bitprim_database.Prelude.{
  ℕ, zero, suc, ◌+◌, ◌-◌, ◌%◌, ◌^◌, Bool, true, false, not, ◌||◌, Option, none, some, is_some, leb,
  ltb, ◌==◌, if◌then◌else◌, replicate, Bytes,
}
use bitprim_database.Run.{Run, ok, fault, stuck, ◌>>=◌}
use bitprim_database.Endian.{Endian, from_le, array_index_bound}
use bitprim_database.VariableUint.{VariableUint, read_size}
use bitprim_database.MemoryMap.{MemoryMap, load}

abbrev pub value_size : ℕ
value_size = 8

abbrev pub height_size : ℕ
height_size = 4

abbrev pub version_size : ℕ
version_size = 4

abbrev pub locktime_size : ℕ
locktime_size = 4

abbrev pub position_size : ℕ
position_size = 4

-- `transaction_database::unconfirmed`, a position that no transaction of a block has.
abbrev pub unconfirmed : ℕ
unconfirmed = 2 ^ 32 - 1

pub record TransactionResult : Type 0 where
  pub slab : Option ℕ
  pub hash : Bytes

-- The constructors without and with a hash.
unfoldable pub unhashed_result : Option ℕ → TransactionResult
unhashed_result slab = record { slab = slab; hash = replicate 32 0 }

unfoldable pub transaction_result : Option ℕ → Bytes → TransactionResult
transaction_result slab hash = record { slab = slab; hash = hash }

-- The conversion to bool.
unfoldable pub is_valid : TransactionResult → Bool
is_valid r = is_some r.slab

unfoldable pub reset : TransactionResult → TransactionResult
reset r = record r { slab = none }

-- A read of the slab.
unfoldable pub at_slab : {A : Type 0} → TransactionResult → (ℕ → Run A) → Run A
at_slab r read = elim r.slab [ none ↦ fault | some memory ↦ read memory ]

-- Where the transaction is read from.
unfoldable pub transaction : TransactionResult → Run ℕ
unfolding at_slab
transaction r = at_slab r (λ memory. ok (memory + height_size + position_size))

module _ ⦃en : Endian⦄ where
  -- The four bytes at a place.
  unfoldable pub load_word : MemoryMap → ℕ → Run ℕ
  load_word file a = do bytes ← load file a 4; ok (from_le bytes)

  unfoldable pub height : MemoryMap → TransactionResult → Run ℕ
  unfolding at_slab
  height file r = at_slab r (λ memory. load_word file memory)

  unfoldable pub position : MemoryMap → TransactionResult → Run ℕ
  unfolding at_slab
  position file r = at_slab r (λ memory. load_word file (memory + height_size))

module _ ⦃var : VariableUint⦄ where
  -- The place behind the output at a place.
  unfoldable pub skip_output : MemoryMap → ℕ → Run ℕ
  skip_output file a = do
    (script_size, behind) ← read_size file (a + height_size + value_size)
    ok (behind + script_size)

  -- The place behind `left` outputs.
  unfoldable pub skip_outputs : MemoryMap → ℕ → ℕ → Run ℕ
  skip_outputs file zero a = ok a
  skip_outputs file (suc left) a = do behind ← skip_output file a; skip_outputs file left behind

  -- The place of the output, or none if the transaction has no output of that index.
  unfoldable pub output : MemoryMap → ℕ → TransactionResult → Run (Option ℕ)
  unfolding at_slab
  output file index r = at_slab r (λ memory. do
    (outputs, start) ←
        read_size file (memory + height_size + position_size + version_size + locktime_size)
    if leb outputs index
        then ok none
        else do place ← skip_outputs file index start; ok (some place))

module _ ⦃en : Endian⦄ ⦃var : VariableUint⦄ (not_spent : ℕ) where
  -- Whether the outputs from a place on are all spent at or below the fork. The counter has 32 bits
  -- and the number of outputs 64.
  unfoldable pub is_spent_loop : MemoryMap → ℕ → ℕ → ℕ → ℕ → ℕ → Run Bool
  is_spent_loop file fork_height outputs zero output a = stuck
  is_spent_loop file fork_height outputs (suc fuel) output a =
      if not (ltb output outputs) then ok true else do
        spender_height ← load_word file a
        if (spender_height == not_spent) || ltb fork_height spender_height then ok false else do
          behind ← skip_output file a
          is_spent_loop file fork_height outputs fuel ((output + 1) % array_index_bound) behind

  -- Each output takes a byte of the file or more.
  unfoldable pub is_spent : MemoryMap → ℕ → TransactionResult → Run Bool
  unfolding at_slab
  is_spent file fork_height r = at_slab r (λ memory. do
    position ← load_word file (memory + height_size)
    if position == unconfirmed then ok false else do
      (outputs, start) ←
          read_size file (memory + height_size + position_size + version_size + locktime_size)
      is_spent_loop file fork_height outputs (suc file.file_size) 0 start)
