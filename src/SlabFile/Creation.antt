-- ===== src/SlabFile/Creation.antt =====
-- A slab hash table that src/databases/transaction_database.cpp and
-- transaction_unconfirmed_database.cpp have just created.
use bitprim_database.Prelude.{ℕ, ◌+◌, ◌*◌, ◌%◌, ◌≤◌, ◌<◌, ◌≡◌, refl, true, [], arith}
use bitprim_database.Run.{◌>>=◌, Returns}
use bitprim_database.Endian.{Endian, to_le, array_index_bound}
use bitprim_database.MemoryMap.{Os, MemoryMap, resize}
use bitprim_database.MemoryMap.Growth.{reserve_by-Grew, max_exact}
use bitprim_database.MemoryMap.Lifecycle.{Serves, IsShut, open_map-IsLive}
use bitprim_database.HashTableHeader.{empty, item_position}
use bitprim_database.HashTableHeader.Creation.{IsEmptyHeader, create-IsEmptyHeader, start-counted}
use bitprim_database.SlabManager.{SlabManager, slab_manager, slab_hash_table_header_size}
use bitprim_database.SlabManager.Creation.{IsFresh, create_slabs-IsFresh, start_slabs-sized}
use bitprim_database.Buckets.{Hash}
use bitprim_database.Buckets.Contents.{stack}
use bitprim_database.SlabHashTable.{SlabHashTable}
use bitprim_database.SlabHashTable.Invariant.{Represents}
use bitprim_database.SlabFile.{initial_map_file_size, slab_map, with_slabs, create, start}

module _ ⦃en : Endian⦄ (hash : Hash) where
  -- A table whose header is empty and whose manager is fresh holds no values.
  pub fresh-Represents :
      (t : SlabHashTable)
      → 0 < t.buckets
      → item_position 8 t.buckets ≤ t.manager.header_size
      → IsEmptyHeader 8 t.buckets t.manager.file
      → t.manager.payload_size ≡ 8
      → t.manager.header_size + 8 ≤ max_exact
      → (g : MemoryMap) → IsFresh t.manager g
      → Represents hash (record t { manager = record t.manager { file = g } }) (λ key. [])
  unfolding stack item_position
  fresh-Represents t pos size h none small g fresh = (
    λ i. [],
    record {
      ready = fresh.ready;
      exact = rw none small;
      table = record {
        buckets_pos = pos;
        header = record {
          mapped = fresh.ready.live.mapped;
          within = omega (arith, fresh.ready.holds, none);
        };
        above = omega (arith, size);
        heads = λ i l.
            let step : i * 8 + 8 ≤ t.buckets * 8 = omega arith in
            fresh.kept (4 + i * 8) (to_le 8 (empty 8)) (omega (arith, en.length-to_le 8 (empty 8)))
              (omega (arith, en.length-to_le 8 (empty 8), h.covers)) (h.vacant i l);
        chains = λ i l. tt;
        homes = λ i l. tt;
        apart = λ i j l l' ne. tt;
      };
    },
    λ key. refl,
  )

  -- Creating a slab hash table over a file that is shut and not empty, with at least one bucket and
  -- less than 2 ^ 32, returns true where the system calls succeed, and leaves a started table
  -- without values.
  pub create-Represents :
      {os : Os} (key_size : ℕ) (file : MemoryMap) (buckets : ℕ)
      → Serves os
      → IsShut file
      → 0 < buckets
      → buckets < array_index_bound
      → Returns
          (create os (initial_map_file_size buckets) (slab_map key_size file buckets))
          (λ r. (r.0 ≡ true) × Represents hash r.1 (λ key. []) × (r.1.key_size ≡ key_size))
  unfolding create start slab_map slab_manager resize item_position initial_map_file_size
      slab_hash_table_header_size
  create-Represents {os} key_size file buckets serves shut pos small =
      let t₀ = slab_map key_size file buckets in
      let (opened, live, disk, same) = open_map-IsLive serves shut in
      let (g₁, run₁, grew) =
        reserve_by-Grew serves.works live (slab_hash_table_header_size buckets + 8) 0
          (omega arith) in
      let ((b₂, g₂), run₂, (yes₂, header, grows)) =
        create-IsEmptyHeader 8 g₁ buckets serves.works grew.live pos (omega arith) (omega arith) in
      let t : SlabHashTable = record t₀ {
        manager = record t₀.manager { file = g₂ };
        buckets = buckets;
      } in
      let (g₃, run₃, fresh) =
        create_slabs-IsFresh t.manager serves.works header.live refl (omega arith) in
      let wrap : buckets % array_index_bound ≡ buckets = omega arith in
      let m : SlabManager = record t.manager { file = g₃ } in
      (
        (true, with_slabs m t),
        rw (
          opened,
          wrap,
          run₁,
          ◌>>=◌,
          run₂,
          yes₂,
          run₃,
          start-counted 8 g₃ buckets fresh.ready.live.mapped (omega (arith, fresh.ready.holds))
              small
              (fresh.kept 0 (to_le 4 buckets) (omega (arith, en.length-to_le 4 buckets))
                (omega (arith, en.length-to_le 4 buckets, header.covers)) header.counted),
          start_slabs-sized m 8 fresh.ready (omega arith) fresh.sized,
        ),
        (refl, fresh-Represents t pos (omega arith) header refl (omega arith) g₃ fresh, refl),
      )
