-- ===== src/SlabFile.antt =====
-- A slab hash table alone in its file: the header, the manager and the table that
-- src/databases/transaction_database.cpp and transaction_unconfirmed_database.cpp hold alike.
pub mod Creation
use bitprim_database.Prelude.{ℕ, ◌+◌, ◌*◌, ◌%◌, Bool, true, false, not, if◌then◌else◌}
use bitprim_database.Run.{Run, ok, ◌>>=◌}
use bitprim_database.Endian.{Endian, array_index_bound}
use bitprim_database.MemoryMap as Map
use bitprim_database.MemoryMap.{Os, MemoryMap}
use bitprim_database.HashTableHeader
use bitprim_database.SlabManager
use bitprim_database.SlabManager.{
  SlabManager, slab_manager, slab_hash_table_header_size, minimum_slabs_size,
}
use bitprim_database.SlabHashTable.{SlabHashTable}

-- `initial_map_file_size_`.
unfoldable pub initial_map_file_size : ℕ → ℕ
initial_map_file_size buckets = slab_hash_table_header_size buckets + minimum_slabs_size

unfoldable pub slab_map : ℕ → MemoryMap → ℕ → SlabHashTable
slab_map key_size file buckets = record {
  key_size = key_size;
  buckets = buckets % array_index_bound;
  manager = slab_manager file (slab_hash_table_header_size buckets);
}

abbrev pub with_slabs : SlabManager → SlabHashTable → SlabHashTable
with_slabs m t = record t { manager = m }

abbrev pub with_slab_file : MemoryMap → SlabHashTable → SlabHashTable
with_slab_file f t = with_slabs (record t.manager { file = f }) t

module _ ⦃en : Endian⦄ where
  -- `start` of the header, and of the manager if the header accepts.
  unfoldable pub start : SlabHashTable → Run (Bool × SlabHashTable)
  start t = do
    accepted ← HashTableHeader.start 8 t.buckets t.manager.file
    if not accepted
        then ok (false, t)
        else do (complete, m) ← SlabManager.start t.manager; ok (complete, with_slabs m t)

  unfoldable pub create : Os → ℕ → SlabHashTable → Run (Bool × SlabHashTable)
  create os initial_size t = do
    let (opened, file) = Map.open_map os t.manager.file
    if not opened then ok (false, with_slab_file file t) else do
      resized ← Map.resize os initial_size file
      (headed, file') ← HashTableHeader.create 8 os t.buckets resized
      if not headed then ok (false, with_slab_file file' t) else do
        (fresh, m) ← SlabManager.create os (record t.manager { file = file' })
        if not fresh then ok (false, with_slabs m t) else start (with_slabs m t)

  unfoldable pub open_files : Os → SlabHashTable → Run (Bool × SlabHashTable)
  open_files os t =
      let (opened, file) = Map.open_map os t.manager.file in
      if not opened then ok (false, with_slab_file file t) else start (with_slab_file file t)

  unfoldable pub synchronize : SlabHashTable → Run SlabHashTable
  synchronize t = do m ← SlabManager.sync t.manager; ok (with_slabs m t)

unfoldable pub close : Os → SlabHashTable → Bool × SlabHashTable
close os t = let (closed, file) = Map.close os t.manager.file in (closed, with_slab_file file t)

unfoldable pub flush : Os → SlabHashTable → Bool
flush os t = Map.flush os t.manager.file
