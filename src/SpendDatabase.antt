-- ===== src/SpendDatabase.antt =====
-- src/databases/spend_database.cpp: which input spends an output. Points are the 36 bytes that
-- `chain::point` of the system library reads and writes.
pub mod Creation
pub mod Spends
use bitprim_database.Prelude.{
  ℕ, ◌+◌, ◌*◌, ◌%◌, Bool, true, false, not, Option, none, some, is_some, if◌then◌else◌, Bytes,
}
use bitprim_database.Run.{Run, ok, ◌>>=◌}
use bitprim_database.Endian.{Endian, array_index_bound}
use bitprim_database.MemoryMap as Map
use bitprim_database.MemoryMap.{Os, MemoryMap, load}
use bitprim_database.HashTableHeader
use bitprim_database.RecordManager
use bitprim_database.RecordManager.{
  record_manager, record_hash_table_header_size, minimum_records_size,
}
use bitprim_database.RecordHashTable
use bitprim_database.RecordHashTable.{RecordHashTable, hash_table_record_size}
use bitprim_database.Buckets.{Hash}

-- `std::tuple_size<point>`, of a hash and an index.
abbrev pub point_size : ℕ
point_size = 36

pub record SpendDatabase : Type 0 where
  pub initial_map_file_size : ℕ
  pub lookup_map : RecordHashTable

pub record SpendStatinfo : Type 0 where
  pub buckets : ℕ
  pub rows : ℕ

unfoldable pub spend_database : MemoryMap → ℕ → SpendDatabase
spend_database file buckets = record {
  initial_map_file_size = record_hash_table_header_size buckets + minimum_records_size;
  lookup_map = record {
    key_size = point_size;
    buckets = buckets % array_index_bound;
    manager =
        record_manager file (record_hash_table_header_size buckets)
          (hash_table_record_size point_size point_size);
  };
}

-- The database with another file or manager behind its table.
abbrev pub with_manager : RecordManager.RecordManager → SpendDatabase → SpendDatabase
with_manager m db = record db { lookup_map = record db.lookup_map { manager = m } }

abbrev pub with_file : MemoryMap → SpendDatabase → SpendDatabase
with_file f db = with_manager (record db.lookup_map.manager { file = f }) db

module _ ⦃en : Endian⦄ where
  -- `start` of the header, and of the manager if the header accepts.
  unfoldable pub start : SpendDatabase → Run (Bool × SpendDatabase)
  start db = do
    let t = db.lookup_map
    accepted ← HashTableHeader.start 4 t.buckets t.manager.file
    if not accepted
        then ok (false, db)
        else do (complete, m) ← RecordManager.start t.manager; ok (complete, with_manager m db)

  unfoldable pub create : Os → SpendDatabase → Run (Bool × SpendDatabase)
  create os db = do
    let (opened, file) = Map.open_map os db.lookup_map.manager.file
    if not opened then ok (false, with_file file db) else do
      resized ← Map.resize os db.initial_map_file_size file
      (headed, file') ← HashTableHeader.create 4 os db.lookup_map.buckets resized
      if not headed then ok (false, with_file file' db) else do
        (fresh, m) ← RecordManager.create os (record db.lookup_map.manager { file = file' })
        if not fresh then ok (false, with_manager m db) else start (with_manager m db)

  unfoldable pub open_files : Os → SpendDatabase → Run (Bool × SpendDatabase)
  open_files os db =
      let (opened, file) = Map.open_map os db.lookup_map.manager.file in
      if not opened then ok (false, with_file file db) else start (with_file file db)

  unfoldable pub synchronize : SpendDatabase → Run SpendDatabase
  synchronize db = do m ← RecordManager.sync db.lookup_map.manager; ok (with_manager m db)

unfoldable pub close : Os → SpendDatabase → Bool × SpendDatabase
close os db =
    let (closed, file) = Map.close os db.lookup_map.manager.file in (closed, with_file file db)

unfoldable pub flush : Os → SpendDatabase → Bool
flush os db = Map.flush os db.lookup_map.manager.file

-- The point at a place, or none for the default point.
unfoldable pub read_point : MemoryMap → Option ℕ → Run (Option Bytes)
read_point file none = ok none
read_point file (some place) = do bytes ← load file place point_size; ok (some bytes)

module _ ⦃en : Endian⦄ (hash : Hash) where
  -- The bytes of the input point.
  unfoldable pub get : Bytes → SpendDatabase → Run (Option Bytes)
  get outpoint db = do
    memory ← RecordHashTable.find hash outpoint db.lookup_map
    read_point db.lookup_map.manager.file memory

  unfoldable pub store : Os → Bytes → Bytes → SpendDatabase → Run SpendDatabase
  store os outpoint spend db = do
    t ← RecordHashTable.store hash os outpoint spend db.lookup_map
    ok (record db { lookup_map = t })

  -- A point that is not there is not looked for in the chain.
  unfoldable pub unlink : Bytes → SpendDatabase → Run (Bool × SpendDatabase)
  unlink outpoint db = do
    memory ← RecordHashTable.find hash outpoint db.lookup_map
    if not (is_some memory) then ok (false, db) else do
      (done, t) ← RecordHashTable.unlink hash outpoint db.lookup_map
      ok (done, record db { lookup_map = t })

unfoldable pub statinfo : SpendDatabase → SpendStatinfo
statinfo db = record {
  buckets = db.lookup_map.buckets;
  rows = RecordManager.count db.lookup_map.manager;
}
