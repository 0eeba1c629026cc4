-- ===== src/BlockDatabase.antt =====
-- src/databases/block_database.cpp: blocks by hash in a slab hash table, and their positions by
-- height in an index. The bytes of a header and the hashes are those that the system library makes.
pub mod Blocks
pub mod Storing
pub mod Creation
use bitprim_database.Prelude.{
  ℕ, ◌+◌, ◌-◌, ◌*◌, ◌%◌, Bool, true, false, not, ◌&&◌, List, [], ◌∷◌, ◌++◌, none, some, ltb,
  if◌then◌else◌, length, Bytes,
}
use bitprim_database.Run.{Run, ok, fault, ◌>>=◌}
use bitprim_database.Endian.{Endian, to_le, array_index_bound}
use bitprim_database.VariableUint.{VariableUint, to_variable, variable_uint_size}
use bitprim_database.MemoryMap as Map
use bitprim_database.MemoryMap.{Os, MemoryMap, load}
use bitprim_database.HashTableHeader
use bitprim_database.RecordManager
use bitprim_database.RecordManager.{RecordManager, minimum_records_size}
use bitprim_database.SlabManager
use bitprim_database.SlabManager.{
  SlabManager, slab_manager, slab_hash_table_header_size, minimum_slabs_size,
}
use bitprim_database.SlabRow.{layout}
use bitprim_database.Row.{prefix_size}
use bitprim_database.Buckets.{Hash}
use bitprim_database.SlabHashTable
use bitprim_database.SlabHashTable.{SlabHashTable}
use bitprim_database.BlockIndex as Index
use bitprim_database.BlockIndex.{index_manager}
use bitprim_database.BlockResult.{
  BlockResult, block_result, unhashed_result, hash_size, header_size, height_size,
}

-- `chain::block`, as its serialization and its hashes.
pub record Block : Type 0 where
  pub hash : Bytes
  pub header : Bytes
  pub transaction_hashes : List Bytes

pub record BlockDatabase : Type 0 where
  pub initial_map_file_size : ℕ
  pub lookup_map : SlabHashTable
  pub index : RecordManager

unfoldable pub block_database : MemoryMap → MemoryMap → ℕ → BlockDatabase
block_database lookup_file index_file buckets = record {
  initial_map_file_size = slab_hash_table_header_size buckets + minimum_slabs_size;
  lookup_map = record {
    key_size = hash_size;
    buckets = buckets % array_index_bound;
    manager = slab_manager lookup_file (slab_hash_table_header_size buckets);
  };
  index = index_manager index_file;
}

-- The database with another manager of its slabs.
abbrev pub with_slabs : SlabManager → BlockDatabase → BlockDatabase
with_slabs m db = record db { lookup_map = record db.lookup_map { manager = m } }

abbrev pub with_lookup_file : MemoryMap → BlockDatabase → BlockDatabase
with_lookup_file f db = with_slabs (record db.lookup_map.manager { file = f }) db

abbrev pub with_index_file : MemoryMap → BlockDatabase → BlockDatabase
with_index_file f db = record db { index = record db.index { file = f } }

-- `open` of both files; the index is opened if the map was.
unfoldable pub open_maps : Os → Os → BlockDatabase → Bool × BlockDatabase
open_maps lookup_os index_os db =
    let (opened, file) = Map.open_map lookup_os db.lookup_map.manager.file in
    let db' = with_lookup_file file db in
    if not opened
    then (false, db')
    else let (opened', file') = Map.open_map index_os db.index.file in
      (opened', with_index_file file' db')

module _ ⦃en : Endian⦄ where
  -- `start` of the header and of both managers, each if those before it accept.
  unfoldable pub start : BlockDatabase → Run (Bool × BlockDatabase)
  start db = do
    let t = db.lookup_map
    accepted ← HashTableHeader.start 8 t.buckets t.manager.file
    if not accepted then ok (false, db) else do
      (complete, m) ← SlabManager.start t.manager
      if not complete then ok (false, with_slabs m db) else do
        (counted, index) ← RecordManager.start db.index
        ok (counted, record (with_slabs m db) { index = index })

  unfoldable pub create : Os → Os → BlockDatabase → Run (Bool × BlockDatabase)
  create lookup_os index_os db = do
    let (opened, db₁) = open_maps lookup_os index_os db
    if not opened then ok (false, db₁) else do
      resized ← Map.resize lookup_os db₁.initial_map_file_size db₁.lookup_map.manager.file
      index_file ← Map.resize index_os minimum_records_size db₁.index.file
      let db₂ = with_index_file index_file db₁
      (headed, file) ← HashTableHeader.create 8 lookup_os db₁.lookup_map.buckets resized
      if not headed then ok (false, with_lookup_file file db₂) else do
        let m = record db₁.lookup_map.manager { file = file }
        (fresh, m') ← SlabManager.create lookup_os m
        if not fresh then ok (false, with_slabs m' db₂) else do
          (fresh', index) ← RecordManager.create index_os db₂.index
          let db₃ = record (with_slabs m' db₂) { index = index }
          if not fresh' then ok (false, db₃) else start db₃

  unfoldable pub open_files : Os → Os → BlockDatabase → Run (Bool × BlockDatabase)
  open_files lookup_os index_os db =
      let (opened, db') = open_maps lookup_os index_os db in
      if not opened then ok (false, db') else start db'

  unfoldable pub synchronize : BlockDatabase → Run BlockDatabase
  synchronize db = do
    m ← SlabManager.sync db.lookup_map.manager
    index ← RecordManager.sync db.index
    ok (record (with_slabs m db) { index = index })

-- The index is closed if the map was.
unfoldable pub close : Os → Os → BlockDatabase → Bool × BlockDatabase
close lookup_os index_os db =
    let (closed, file) = Map.close lookup_os db.lookup_map.manager.file in
    let db' = with_lookup_file file db in
    if not closed
    then (false, db')
    else let (closed', file') = Map.close index_os db.index.file in
      (closed', with_index_file file' db')

unfoldable pub flush : Os → Os → BlockDatabase → Bool
flush lookup_os index_os db =
    Map.flush lookup_os db.lookup_map.manager.file && Map.flush index_os db.index.file

unfoldable pub unlink : ℕ → BlockDatabase → Bool × BlockDatabase
unlink from_height db =
    let (done, index) = Index.unlink from_height db.index in (done, record db { index = index })

abbrev pub concat : List Bytes → Bytes
concat [] = []
concat (h ∷ hs) = h ++ concat hs

module _ ⦃en : Endian⦄ ⦃var : VariableUint⦄ where
  -- What the writer of `store` writes.
  unfoldable pub serialize : Block → ℕ → Bytes
  serialize block height32 =
      block.header
      ++ (to_le 4 height32
          ++ (to_variable (length block.transaction_hashes) ++ concat block.transaction_hashes))

  unfoldable pub serialized_size : Block → ℕ
  serialized_size block =
      let tx_count = length block.transaction_hashes in
      header_size + height_size + variable_uint_size tx_count + tx_count * hash_size

  module _ (hash : Hash) where
    unfoldable pub store : Os → Os → Block → ℕ → BlockDatabase → Run BlockDatabase
    store lookup_os index_os block height db = do
      let height32 = height % array_index_bound
      (position, t) ←
          SlabHashTable.store hash lookup_os block.hash (serialize block height32)
            (serialized_size block) db.lookup_map
      index ← Index.write_position index_os position height32 db.index
      ok (record db { lookup_map = t; index = index })

module _ ⦃en : Endian⦄ where
  -- The key stands before the slab, within the mapping.
  unfoldable pub get_at : ℕ → BlockDatabase → Run BlockResult
  get_at height db =
      if not (ltb height (RecordManager.count db.index)) then ok (unhashed_result none) else do
        let m = db.lookup_map.manager
        position ← Index.read_position db.index height
        let memory = SlabManager.get m position
        let size = prefix_size (layout db.lookup_map.key_size m)
        if ltb memory size
            then fault
            else do key ← load m.file (memory - size) hash_size; ok (block_result (some memory) key)

  unfoldable pub get : Hash → Bytes → BlockDatabase → Run BlockResult
  get hash key db = do
    memory ← SlabHashTable.find hash key db.lookup_map
    ok (block_result memory key)
