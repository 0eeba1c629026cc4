-- ===== src/SpendDatabase/Creation.antt =====
-- `create` of src/databases/spend_database.cpp.
use bitprim_database.Prelude.{ℕ, ◌+◌, ◌*◌, ◌%◌, ◌≤◌, ◌<◌, ◌≡◌, refl, true, [], arith}
use bitprim_database.Run.{◌>>=◌, Returns}
use bitprim_database.Endian.{Endian, to_le, array_index_bound}
use bitprim_database.MemoryMap.{Os, MemoryMap, resize}
use bitprim_database.MemoryMap.Growth.{reserve_by-Grew, max_exact}
use bitprim_database.MemoryMap.Lifecycle.{Serves, IsShut, open_map-IsLive}
use bitprim_database.HashTableHeader.{empty, item_position}
use bitprim_database.HashTableHeader.Creation.{IsEmptyHeader, create-IsEmptyHeader, start-counted}
use bitprim_database.RecordManager.{RecordManager, record_manager, record_hash_table_header_size}
use bitprim_database.RecordManager.Positions.{extent}
use bitprim_database.RecordManager.Creation.{IsFresh, create-IsFresh, start-counts}
use bitprim_database.Buckets.{Hash}
use bitprim_database.Buckets.Contents.{stack}
use bitprim_database.RecordHashTable.{RecordHashTable}
use bitprim_database.RecordHashTable.Invariant.{Models}
use bitprim_database.SpendDatabase.{spend_database, with_manager, create, start}
use bitprim_database.SpendDatabase.Spends.{Holds}

module _ ⦃en : Endian⦄ (hash : Hash) where
  -- A table whose header is empty and whose manager is fresh holds no values.
  pub fresh-Models :
      (t : RecordHashTable)
      → 0 < t.buckets
      → t.manager.header_size ≡ item_position 4 t.buckets
      → IsEmptyHeader 4 t.buckets t.manager.file
      → t.manager.record_count ≡ 0
      → extent t.manager 0 ≤ max_exact
      → (g : MemoryMap) → IsFresh t.manager g
      → Models hash (record t { manager = record t.manager { file = g } }) (λ key. [])
  unfolding stack item_position
  fresh-Models t pos size h none small g fresh = (
    λ i. [],
    record {
      ready = fresh.ready;
      exact = rw none small;
      table = record {
        buckets_pos = pos;
        header = record {
          mapped = fresh.ready.live.mapped;
          within = omega (arith, fresh.ready.holds);
        };
        above = omega (arith, size);
        heads = λ i l.
            let step : i * 4 + 4 ≤ t.buckets * 4 = omega arith in
            fresh.kept (4 + i * 4) (to_le 4 (empty 4)) (omega (arith, en.length-to_le 4 (empty 4)))
              (omega (arith, en.length-to_le 4 (empty 4), h.covers)) (h.vacant i l);
        chains = λ i l. tt;
        homes = λ i l. tt;
        apart = λ i j l l' ne. tt;
      };
    },
    λ key. refl,
  )

  -- `create` of a spend database over a file that is shut and not empty, with at least one bucket
  -- and less than 2 ^ 32, returns true where the system calls succeed, and leaves a started
  -- database in which no point has a spend.
  pub create-Holds :
      {os : Os} (file : MemoryMap) (buckets : ℕ)
      → Serves os
      → IsShut file
      → 0 < buckets
      → buckets < array_index_bound
      → Returns
          (create os (spend_database file buckets))
          (λ r. (r.0 ≡ true) × Holds hash r.1 (λ outpoint. []))
  unfolding create start spend_database record_manager resize item_position
      record_hash_table_header_size
  create-Holds {os} file buckets serves shut pos small =
      let db = spend_database file buckets in
      let (opened, live, disk, same) = open_map-IsLive serves shut in
      let (g₁, run₁, grew) =
        reserve_by-Grew serves.works live (record_hash_table_header_size buckets + 4) 0
          (omega arith) in
      let ((b₂, g₂), run₂, (yes₂, header, grows)) =
        create-IsEmptyHeader 4 g₁ buckets serves.works grew.live pos (omega arith) (omega arith) in
      let t : RecordHashTable = record db.lookup_map {
        manager = record db.lookup_map.manager { file = g₂ };
        buckets = buckets;
      } in
      let (g₃, run₃, fresh) =
        create-IsFresh t.manager serves.works header.live refl (omega arith) in
      let wrap : buckets % array_index_bound ≡ buckets = omega arith in
      let m : RecordManager = record t.manager { file = g₃ } in
      (
        (true, with_manager m (record db { lookup_map = t })),
        rw (
          opened,
          wrap,
          run₁,
          ◌>>=◌,
          run₂,
          yes₂,
          run₃,
          start-counted 4 g₃ buckets fresh.ready.live.mapped
              (omega (arith, header.covers, fresh.grows)) small
              (fresh.kept 0 (to_le 4 buckets) (omega (arith, en.length-to_le 4 buckets))
                (omega (arith, en.length-to_le 4 buckets, header.covers)) header.counted),
          start-counts m 0 fresh.ready (omega arith) fresh.counted,
        ),
        (
          refl,
          record {
            keyed = refl;
            models = fresh-Models t pos (omega arith) header refl (omega arith) g₃ fresh;
            points = λ q. tt;
          },
        ),
      )
