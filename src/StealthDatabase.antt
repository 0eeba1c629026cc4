-- ===== src/StealthDatabase.antt =====
-- src/databases/stealth_database.cpp: an array of stealth rows without an index, which is searched
-- from its start.
pub mod Rows
pub mod Scanning
pub mod Storing
pub mod Creation
use bitprim_database.Prelude.{
  ℕ, zero, suc, ◌+◌, Bool, true, false, not, Option, none, some, List, [], ◌∷◌, ◌++◌, ltb,
  if◌then◌else◌, Bytes,
}
use bitprim_database.Run.{Run, ok, ◌>>=◌}
use bitprim_database.Endian.{Endian, to_le, from_le}
use bitprim_database.MemoryMap as Map
use bitprim_database.MemoryMap.{Os, MemoryMap, load, save}
use bitprim_database.RecordManager
use bitprim_database.RecordManager.{
  RecordManager, record_manager, new_records, minimum_records_size,
}

abbrev pub rows_header_size : ℕ
rows_header_size = 0

abbrev pub hash_size : ℕ
hash_size = 32

abbrev pub short_hash_size : ℕ
short_hash_size = 20

-- A prefix and a height of four bytes, and three hashes.
abbrev pub row_size : ℕ
row_size = 4 + 4 + hash_size + short_hash_size + hash_size

-- `chain::stealth_compact` of the system library.
pub record StealthCompact : Type 0 where
  pub ephemeral_public_key_hash : Bytes
  pub public_key_hash : Bytes
  pub transaction_hash : Bytes

pub record StealthDatabase : Type 0 where
  pub rows_manager : RecordManager

unfoldable pub stealth_database : MemoryMap → StealthDatabase
stealth_database file = record { rows_manager = record_manager file rows_header_size row_size }

-- The database with another file behind its rows.
abbrev pub with_rows_file : MemoryMap → StealthDatabase → StealthDatabase
with_rows_file file db = record { rows_manager = record db.rows_manager { file = file } }

module _ ⦃en : Endian⦄ where
  unfoldable pub create : Os → StealthDatabase → Run (Bool × StealthDatabase)
  create os db = do
    let (opened, file) = Map.open_map os db.rows_manager.file
    if not opened then ok (false, with_rows_file file db) else do
      resized ← Map.resize os minimum_records_size file
      (fresh, m) ← RecordManager.create os (record db.rows_manager { file = resized })
      if not fresh then ok (false, record { rows_manager = m }) else do
        (complete, started) ← RecordManager.start m
        ok (complete, record { rows_manager = started })

  unfoldable pub open_files : Os → StealthDatabase → Run (Bool × StealthDatabase)
  open_files os db = do
    let (opened, file) = Map.open_map os db.rows_manager.file
    if not opened then ok (false, with_rows_file file db) else do
      (complete, m) ← RecordManager.start (record db.rows_manager { file = file })
      ok (complete, record { rows_manager = m })

  unfoldable pub synchronize : StealthDatabase → Run StealthDatabase
  synchronize db = do m ← RecordManager.sync db.rows_manager; ok (record { rows_manager = m })

  -- What the serializer writes from the start of a row on.
  unfoldable pub serialize : ℕ → ℕ → StealthCompact → Bytes
  serialize prefix height row =
      to_le 4 prefix
      ++ (to_le 4 height
          ++ (row.ephemeral_public_key_hash ++ (row.public_key_hash ++ row.transaction_hash)))

  unfoldable pub store : Os → ℕ → ℕ → StealthCompact → StealthDatabase → Run StealthDatabase
  store os prefix height row db = do
    (index, m) ← new_records os 1 db.rows_manager
    file ← save m.file (RecordManager.get m index) (serialize prefix height row)
    ok (record { rows_manager = record m { file = file } })

  -- The row at an address, or none if it is skipped.
  unfoldable pub scan_row : (ℕ → Bool) → ℕ → MemoryMap → ℕ → Run (Option StealthCompact)
  scan_row is_prefix_of from_height file a = do
    field ← load file a 4
    if not (is_prefix_of (from_le field)) then ok none else do
      height ← load file (a + 4) 4
      if ltb (from_le height) from_height then ok none else do
        ephemeral ← load file (a + 8) hash_size
        public ← load file (a + 40) short_hash_size
        transaction ← load file (a + 60) hash_size
        ok (
            some (record {
              ephemeral_public_key_hash = ephemeral;
              public_key_hash = public;
              transaction_hash = transaction;
            }))

  -- The rows from `row` on, `left` of them.
  unfoldable pub scan_loop : (ℕ → Bool) → ℕ → RecordManager → ℕ → ℕ → Run (List StealthCompact)
  scan_loop is_prefix_of from_height m zero row = ok []
  scan_loop is_prefix_of from_height m (suc left) row = do
    found ← scan_row is_prefix_of from_height m.file (RecordManager.get m row)
    rest ← scan_loop is_prefix_of from_height m left (row + 1)
    ok (elim found [ none ↦ rest | some compact ↦ compact ∷ rest ])

  -- The filter is given by its test of a field.
  unfoldable pub scan : (ℕ → Bool) → ℕ → StealthDatabase → Run (List StealthCompact)
  scan is_prefix_of from_height db =
      scan_loop is_prefix_of from_height db.rows_manager db.rows_manager.record_count 0

unfoldable pub close : Os → StealthDatabase → Bool × StealthDatabase
close os db =
    let (closed, file) = Map.close os db.rows_manager.file in (closed, with_rows_file file db)

unfoldable pub flush : Os → StealthDatabase → Bool
flush os db = Map.flush os db.rows_manager.file
