-- ===== src/RecordManager/Positions.antt =====
-- Where src/primitives/record_manager.cpp puts a record, where 64 bits suffice.
use native.Mathlib.Nat.{mul-div_cancel}
use bitprim_database.Prelude.{ℕ, ◌+◌, ◌*◌, ◌-◌, ◌%◌, ◌≤◌, ◌<◌, ◌≡◌, arith}
use bitprim_database.Endian.{array_index_bound, file_offset_bound}
use bitprim_database.RecordManager.{
  RecordManager, record_to_position, position_to_record, get, end_of,
}

-- The first byte behind `n` records, without a bound.
abbrev pub extent : RecordManager → ℕ → ℕ
extent m n = m.header_size + (4 + n * m.record_size)

pub get-extent : (m : RecordManager) (i : ℕ) → extent m i < file_offset_bound → get m i ≡ extent m i
unfolding get
get-extent m i h = omega arith

pub end_of-extent :
    (m : RecordManager) (i : ℕ) → extent m i < file_offset_bound → end_of m i ≡ extent m i
unfolding end_of
end_of-extent m i h = omega arith

-- For records that are not empty, an index within 32 bits and a position within 64 bits, the record
-- of the position of an index is that index.
pub position_to_record-record_to_position :
    (m : RecordManager) (i : ℕ)
    → 0 < m.record_size
    → i < array_index_bound
    → 4 + i * m.record_size < file_offset_bound
    → position_to_record m (record_to_position m i) ≡ i
unfolding position_to_record record_to_position
position_to_record-record_to_position m i pos small h =
    let q : (4 + i * m.record_size) % file_offset_bound + file_offset_bound - 4
        ≡ i * m.record_size + file_offset_bound =
      omega arith in
    let r : (i * m.record_size + file_offset_bound) % file_offset_bound ≡ i * m.record_size =
      omega arith in
    rw (q, r, mul-div_cancel i pos) (omega arith)

-- Of two indexes, the records do not overlap: the smaller one's record ends before the larger one's
-- begins, where the place of the larger one is within 64 bits.
pub get_apart :
    (m : RecordManager) (i j : ℕ)
    → i < j
    → extent m j < file_offset_bound
    → get m i + m.record_size ≤ get m j
get_apart m i j l h =
    let step : i * m.record_size + m.record_size ≤ j * m.record_size = grind arith in
    omega (arith, get-extent m i (omega arith), get-extent m j h)
