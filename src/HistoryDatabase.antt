-- ===== src/HistoryDatabase.antt =====
-- src/databases/history_database.cpp: the payments to and from each address, the latest first.
-- Points are the 36 bytes that `chain::point` of the system library reads and writes.
pub mod Payments
pub mod Addresses
use bitprim_database.Prelude.{
  ℕ, zero, suc, ◌+◌, ◌*◌, ◌%◌, ◌^◌, Bool, true, false, not, ◌&&◌, ◌||◌, List, [], ◌∷◌, ◌++◌, ltb,
  leb, ◌==◌, if◌then◌else◌, length, Bytes,
}
use bitprim_database.Run.{Run, ok, thrown, stuck, ◌>>=◌}
use bitprim_database.Endian.{Endian, to_le, from_le, array_index_bound}
use bitprim_database.VariableUint.{load_byte}
use bitprim_database.MemoryMap as Map
use bitprim_database.MemoryMap.{Os, MemoryMap, load}
use bitprim_database.HashTableHeader
use bitprim_database.RecordManager
use bitprim_database.RecordManager.{
  RecordManager, record_manager, record_hash_table_header_size, minimum_records_size,
}
use bitprim_database.RecordList as Records
use bitprim_database.Buckets.{Hash}
use bitprim_database.RecordHashTable.{hash_table_record_size}
use bitprim_database.RecordMultimap as Multimap
use bitprim_database.RecordMultimap.{RecordMultimap, hash_table_multimap_record_size}

abbrev pub rows_header_size : ℕ
rows_header_size = 0

abbrev pub flag_size : ℕ
flag_size = 1

abbrev pub point_size : ℕ
point_size = 32 + 4

abbrev pub height_position : ℕ
height_position = flag_size + point_size

abbrev pub height_size : ℕ
height_size = 4

abbrev pub checksum_size : ℕ
checksum_size = 8

abbrev pub value_size : ℕ
value_size = flag_size + point_size + height_size + checksum_size

-- The keys are short hashes, and the rows are as wide as those of a table with hashes for keys.
unfoldable pub record_size : ℕ
record_size = hash_table_multimap_record_size 20

unfoldable pub row_record_size : ℕ
row_record_size = hash_table_record_size 32 value_size

-- `point_kind` of the system library.
abbrev pub kind_output : ℕ
kind_output = 0

abbrev pub kind_spend : ℕ
kind_spend = 1

-- `history_compact`: the last field is a value or a checksum.
pub record HistoryCompact : Type 0 where
  pub kind : ℕ
  pub point : Bytes
  pub height : ℕ
  pub value : ℕ

pub record HistoryStatinfo : Type 0 where
  pub buckets : ℕ
  pub addrs : ℕ
  pub rows : ℕ

pub record HistoryDatabase : Type 0 where
  pub initial_map_file_size : ℕ
  pub multimap : RecordMultimap

unfoldable pub history_database : MemoryMap → MemoryMap → ℕ → HistoryDatabase
history_database lookup_file rows_file buckets = record {
  initial_map_file_size = record_hash_table_header_size buckets + minimum_records_size;
  multimap = record {
    table = record {
      key_size = 20;
      buckets = buckets % array_index_bound;
      manager = record_manager lookup_file (record_hash_table_header_size buckets) record_size;
    };
    rows = record_manager rows_file rows_header_size row_record_size;
  };
}

-- The database with another manager of its table or of its rows.
abbrev pub with_lookup : RecordManager → HistoryDatabase → HistoryDatabase
with_lookup m db = record db {
  multimap = record db.multimap { table = record db.multimap.table { manager = m } };
}

abbrev pub with_rows : RecordManager → HistoryDatabase → HistoryDatabase
with_rows m db = record db { multimap = record db.multimap { rows = m } }

abbrev pub lookup_manager : HistoryDatabase → RecordManager
lookup_manager db = db.multimap.table.manager

abbrev pub rows_manager : HistoryDatabase → RecordManager
rows_manager db = db.multimap.rows

abbrev pub with_lookup_file : MemoryMap → HistoryDatabase → HistoryDatabase
with_lookup_file f db = with_lookup (record (lookup_manager db) { file = f }) db

abbrev pub with_rows_file : MemoryMap → HistoryDatabase → HistoryDatabase
with_rows_file f db = with_rows (record (rows_manager db) { file = f }) db

-- `open` of both files; that of the rows is opened if the other was.
unfoldable pub open_maps : Os → Os → HistoryDatabase → Bool × HistoryDatabase
open_maps lookup_os rows_os db =
    let (opened, file) = Map.open_map lookup_os (lookup_manager db).file in
    let db' = with_lookup_file file db in
    if not opened
    then (false, db')
    else let (opened', file') = Map.open_map rows_os (rows_manager db').file in
      (opened', with_rows_file file' db')

module _ ⦃en : Endian⦄ where
  -- `start` of the header and of both managers, each if those before it accept.
  unfoldable pub start : HistoryDatabase → Run (Bool × HistoryDatabase)
  start db = do
    accepted ← HashTableHeader.start 4 db.multimap.table.buckets (lookup_manager db).file
    if not accepted then ok (false, db) else do
      (complete, m) ← RecordManager.start (lookup_manager db)
      if not complete then ok (false, with_lookup m db) else do
        (counted, rows) ← RecordManager.start (rows_manager db)
        ok (counted, with_rows rows (with_lookup m db))

  unfoldable pub create : Os → Os → HistoryDatabase → Run (Bool × HistoryDatabase)
  create lookup_os rows_os db = do
    let (opened, db₁) = open_maps lookup_os rows_os db
    if not opened then ok (false, db₁) else do
      resized ← Map.resize lookup_os db₁.initial_map_file_size (lookup_manager db₁).file
      rows_file ← Map.resize rows_os minimum_records_size (rows_manager db₁).file
      let db₂ = with_rows_file rows_file db₁
      (headed, file) ← HashTableHeader.create 4 lookup_os db₁.multimap.table.buckets resized
      let db₃ = with_lookup_file file db₂
      if not headed then ok (false, db₃) else do
        (fresh, m) ← RecordManager.create lookup_os (lookup_manager db₃)
        if not fresh then ok (false, with_lookup m db₃) else do
          (fresh', rows) ← RecordManager.create rows_os (rows_manager db₃)
          let db₄ = with_rows rows (with_lookup m db₃)
          if not fresh' then ok (false, db₄) else start db₄

  unfoldable pub open_files : Os → Os → HistoryDatabase → Run (Bool × HistoryDatabase)
  open_files lookup_os rows_os db =
      let (opened, db') = open_maps lookup_os rows_os db in
      if not opened then ok (false, db') else start db'

  unfoldable pub synchronize : HistoryDatabase → Run HistoryDatabase
  synchronize db = do
    m ← RecordManager.sync (lookup_manager db)
    rows ← RecordManager.sync (rows_manager db)
    ok (with_rows rows (with_lookup m db))

-- The file of the rows is closed if the other was.
unfoldable pub close : Os → Os → HistoryDatabase → Bool × HistoryDatabase
close lookup_os rows_os db =
    let (closed, file) = Map.close lookup_os (lookup_manager db).file in
    let db' = with_lookup_file file db in
    if not closed
    then (false, db')
    else let (closed', file') = Map.close rows_os (rows_manager db').file in
      (closed', with_rows_file file' db')

unfoldable pub flush : Os → Os → HistoryDatabase → Bool
flush lookup_os rows_os db =
    Map.flush lookup_os (lookup_manager db).file && Map.flush rows_os (rows_manager db).file

unfoldable pub statinfo : HistoryDatabase → HistoryStatinfo
statinfo db = record {
  buckets = db.multimap.table.buckets;
  addrs = RecordManager.count (lookup_manager db);
  rows = RecordManager.count (rows_manager db);
}

module _ ⦃en : Endian⦄ where
  -- What the writers write.
  unfoldable pub serialize : HistoryCompact → Bytes
  serialize row = row.kind ∷ (row.point ++ (to_le 4 row.height ++ to_le 8 row.value))

  -- `read_row`, and `read_height` before it.
  unfoldable pub read_height : MemoryMap → ℕ → Run ℕ
  read_height file a = do bytes ← load file (a + height_position) 4; ok (from_le bytes)

  unfoldable pub read_row : MemoryMap → ℕ → Run HistoryCompact
  read_row file a = do
    kind ← load_byte file a
    point ← load file (a + flag_size) point_size
    height ← load file (a + height_position) 4
    value ← load file (a + height_position + height_size) 8
    ok (record { kind = kind; point = point; height = from_le height; value = from_le value })

  -- Whether a row is not skipped.
  unfoldable pub is_kept : ℕ → MemoryMap → ℕ → Run Bool
  is_kept from_height file address =
      if from_height == 0
      then ok true
      else do height ← read_height file address; ok (leb from_height height)

  -- The rows of the list from a record on, given the number of rows found so far.
  unfoldable pub get_loop : ℕ → ℕ → RecordManager → ℕ → ℕ → ℕ → Run (List HistoryCompact)
  get_loop limit from_height m zero found index = stuck
  get_loop limit from_height m (suc fuel) found index =
      if index == Records.empty then ok [] else if ltb 0 limit && leb limit found then ok [] else do
        let address = Records.get m index
        kept ← is_kept from_height m.file address
        if kept
            then (do
              row ← read_row m.file address
              following ← Records.next m index
              rows ← get_loop limit from_height m fuel (found + 1) following
              ok (row ∷ rows))
            else (do
              following ← Records.next m index
              get_loop limit from_height m fuel found following)

  module _ (hash : Hash) where
    -- `safe_unsigned` throws on a height of more than 32 bits.
    unfoldable pub add_row :
        Os → Os → Bytes → HistoryCompact → HistoryDatabase → Run HistoryDatabase
    add_row lookup_os rows_os key row db =
        if not (ltb row.height array_index_bound) then thrown else do
          mm ← Multimap.add_row hash lookup_os rows_os key (serialize row) db.multimap
          ok (record db { multimap = mm })

    unfoldable pub add_output :
        Os → Os → Bytes → Bytes → ℕ → ℕ → HistoryDatabase → Run HistoryDatabase
    add_output lookup_os rows_os key outpoint output_height value db =
        add_row lookup_os rows_os key
          (record { kind = kind_output; point = outpoint; height = output_height; value = value })
          db

    -- The checksum of the previous point is given.
    unfoldable pub add_input :
        Os → Os → Bytes → Bytes → ℕ → ℕ → HistoryDatabase → Run HistoryDatabase
    add_input lookup_os rows_os key inpoint input_height checksum db =
        add_row lookup_os rows_os key
          (record { kind = kind_spend; point = inpoint; height = input_height; value = checksum })
          db

    unfoldable pub delete_last_row : Bytes → HistoryDatabase → Run (Bool × HistoryDatabase)
    delete_last_row key db = do
      (done, mm) ← Multimap.delete_last_row hash key db.multimap
      ok (done, record db { multimap = mm })

    -- A list of records is no longer than their count.
    unfoldable pub get : Bytes → ℕ → ℕ → HistoryDatabase → Run (List HistoryCompact)
    get key limit from_height db = do
      start ← Multimap.lookup hash key db.multimap
      let m = rows_manager db
      get_loop limit from_height m (suc m.record_count) 0 start
