-- ===== src/BlockDatabase/Creation.antt =====
-- `create` of src/databases/block_database.cpp.
use bitprim_database.Prelude.{ℕ, ◌+◌, ◌%◌, ◌<◌, ◌≡◌, refl, true, none, [], arith}
use bitprim_database.Run.{◌>>=◌, Returns}
use bitprim_database.Endian.{Endian, to_le, array_index_bound}
use bitprim_database.MemoryMap.{Os, MemoryMap, resize}
use bitprim_database.MemoryMap.Growth.{reserve_by-Grew}
use bitprim_database.MemoryMap.Lifecycle.{Serves, IsShut, open_map-IsLive}
use bitprim_database.HashTableHeader.{item_position}
use bitprim_database.HashTableHeader.Creation.{create-IsEmptyHeader, start-counted}
use bitprim_database.RecordManager.{RecordManager, record_manager}
use bitprim_database.RecordManager.Creation.{create-IsFresh, start-counts}
use bitprim_database.SlabManager.{SlabManager, slab_manager, slab_hash_table_header_size}
use bitprim_database.SlabManager.Creation.{create_slabs-IsFresh, start_slabs-sized}
use bitprim_database.Buckets.{Hash}
use bitprim_database.SlabHashTable.{SlabHashTable}
use bitprim_database.SlabFile.Creation.{fresh-Represents}
use bitprim_database.BlockIndex.{index_manager}
use bitprim_database.BlockDatabase.{block_database, with_slabs, open_maps, create, start}
use bitprim_database.BlockDatabase.Blocks.{Keeps}

-- `create` of a block database over two files that are shut and not empty, with at least one bucket
-- and less than 2 ^ 32, returns true where the system calls succeed, and leaves a started database
-- that keeps no blocks.
pub create_blocks-Keeps :
    ⦃en : Endian⦄ (hash : Hash) {lookup_os index_os : Os} (lookup_file index_file : MemoryMap)
    (buckets : ℕ)
    → Serves lookup_os
    → Serves index_os
    → IsShut lookup_file
    → IsShut index_file
    → 0 < buckets
    → buckets < array_index_bound
    → Returns
        (create lookup_os index_os (block_database lookup_file index_file buckets))
        (λ r. (r.0 ≡ true) × Keeps hash r.1 0 (λ i. none) (λ key. []))
unfolding create open_maps start block_database slab_manager index_manager record_manager resize
    item_position slab_hash_table_header_size
create_blocks-Keeps ⦃en⦄ hash {lookup_os} {index_os} lookup_file index_file buckets serves serves'
      shut shut' pos small =
    let db = block_database lookup_file index_file buckets in
    let (opened, live, disk, same) = open_map-IsLive serves shut in
    let (opened', live', disk', same') = open_map-IsLive serves' shut' in
    let (g₁, run₁, grew) =
      reserve_by-Grew serves.works live (slab_hash_table_header_size buckets + 8) 0 (omega arith) in
    let (k₁, ran₁, grew') = reserve_by-Grew serves'.works live' 4 0 (omega arith) in
    let ((b₂, g₂), run₂, (yes₂, header, grows)) =
      create-IsEmptyHeader 8 g₁ buckets serves.works grew.live pos (omega arith) (omega arith) in
    let t : SlabHashTable = record db.lookup_map {
      manager = record db.lookup_map.manager { file = g₂ };
      buckets = buckets;
    } in
    let (g₃, run₃, fresh) =
      create_slabs-IsFresh t.manager serves.works header.live refl (omega arith) in
    let m : SlabManager = record t.manager { file = g₃ } in
    let index : RecordManager = record db.index { file = k₁ } in
    let (k₂, ran₂, fresh') = create-IsFresh index serves'.works grew'.live refl (omega arith) in
    let index' : RecordManager = record index { file = k₂ } in
    let wrap : buckets % array_index_bound ≡ buckets = omega arith in
    let (view, table, reads) =
      fresh-Represents hash t pos (omega arith) header refl (omega arith) g₃ fresh in
    (
      (true, record (with_slabs m (record db { lookup_map = t })) { index = index' }),
      rw (
        opened,
        opened',
        wrap,
        run₁,
        ◌>>=◌,
        ran₁,
        run₂,
        yes₂,
        run₃,
        ran₂,
        start-counted 8 g₃ buckets fresh.ready.live.mapped (omega (arith, fresh.ready.holds)) small
            (fresh.kept 0 (to_le 4 buckets) (omega (arith, en.length-to_le 4 buckets))
              (omega (arith, en.length-to_le 4 buckets, header.covers)) header.counted),
        start_slabs-sized m 8 fresh.ready (omega arith) fresh.sized,
        start-counts index' 0 fresh'.ready (omega arith) fresh'.counted,
      ),
      (
        refl,
        record {
          keyed = refl;
          positions = λ i. 0;
          index = record {
            ready = fresh'.ready;
            sized = refl;
            counted = refl;
            exact = omega arith;
            wide = λ i l. omega arith;
            stored = λ i l. absurd (omega arith);
          };
          view = view;
          table = table;
          reads = reads;
          located = λ i l. absurd (omega arith);
        },
      ),
    )
