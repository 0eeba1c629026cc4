-- ===== src/RecordHashTable/Storing.antt =====
-- `store` of include/bitcoin/database/impl/record_hash_table.ipp.
use bitprim_database.Prelude.{
  ℕ, ◌+◌, ◌≡◌, refl, ap, List, ◌∷◌, arith, if◌then◌else◌, Bytes, bytes_eq,
}
use bitprim_database.Run.{◌>>=◌, Returns}
use bitprim_database.Endian.{Endian}
use bitprim_database.MemoryMap.{Os, MemoryMap}
use bitprim_database.MemoryMap.Growth.{Works, Grew, IsLive-bytes}
use bitprim_database.Row.Entry.{Entry}
use bitprim_database.RecordManager.Positions.{extent, get-extent}
use bitprim_database.RecordManager.Allocation.{HasRoom, added, new_records-added}
use bitprim_database.RecordRow
use bitprim_database.RecordRow.{layout}
use bitprim_database.Buckets.{Hash, bucket_index}
use bitprim_database.Buckets.Table.{update}
use bitprim_database.Buckets.Storing.{Stores, row-Stores}
use bitprim_database.Buckets.Contents.{push, contents-push}
use bitprim_database.RecordHashTable.{RecordHashTable, store}
use bitprim_database.RecordHashTable.Invariant.{
  layout-IsProper, layout-grown, index_of, IsRecordTable, Models, CanStore,
}

module _ ⦃en : Endian⦄ (hash : Hash) {os : Os} (works : Works os) (key value : Bytes)
    {t : RecordHashTable} {view : ℕ → List Entry} (valid : IsRecordTable hash t view)
    (can : CanStore key value t) where
  abbrev row : Entry
  row = record { link = t.manager.record_count; key = key; value = value }

  abbrev pushed : ℕ → List Entry
  pushed = update view (index_of hash t key) (row ∷ view (index_of hash t key))

  room : HasRoom 1 t.manager
  room = record { indexes = omega (arith, can.indexes); exact = can.exact }

  module _ (f : MemoryMap)
      (grew : Grew (extent t.manager (t.manager.record_count + 1)) t.manager.file f) where
    stores :
        Stores
          (layout t.key_size t.manager)
          hash
          t.buckets
          (t.manager.header_size + 4)
          (layout-IsProper t.key_size t.manager)
          row
          (extent t.manager (t.manager.record_count + 1))
          f
          view
    stores =
        let here = get-extent t.manager t.manager.record_count (omega (arith, valid.exact)) in
        row-Stores (layout t.key_size t.manager) hash t.buckets (t.manager.header_size + 4)
          (layout-IsProper t.key_size t.manager) row (extent t.manager (t.manager.record_count + 1))
          valid.table (omega arith)
          (record {
            mapped = grew.live.mapped;
            grows = grew.grows;
            same = λ a l r. grew.kept a (omega (arith, valid.ready.holds));
          })
          (omega arith) (omega (arith, can.fits)) grew.room can.keyed (omega (arith, can.indexes))

  -- The table after the writes of `s`.
  abbrev stored : (f : MemoryMap) → (g : MemoryMap) → RecordHashTable
  stored f g = record t { manager = record (added 1 f t.manager) { file = g } }

  pub store-IsRecordTable : Returns (store hash os key value t) (λ t'.
      IsRecordTable hash t' pushed
      × (index_of hash t' ≡ index_of hash t)
      × (t'.key_size ≡ t.key_size))
  unfolding store RecordRow.create
  store-IsRecordTable =
      let (f, run, grew) = new_records-added t.manager 1 works valid.ready room in
      let s = stores f grew in
      let grown : layout t.key_size (added 1 f t.manager) ≡ layout t.key_size t.manager =
        layout-grown t.key_size t.manager f (t.manager.record_count + 1) in
      let grown' : layout t.key_size (stored f s.linked).manager ≡ layout t.key_size t.manager =
        layout-grown t.key_size t.manager s.linked (t.manager.record_count + 1) in
      (
        stored f s.linked,
        rw (
          run,
          ◌>>=◌,
          grown,
          s.populates,
          layout-grown t.key_size t.manager s.filled (t.manager.record_count + 1),
          s.links,
        ),
        (
          record {
            ready = record {
              live = IsLive-bytes s.only_bytes grew.live;
              holds = rw (ap (λ (x : MemoryMap). x.file_size) s.only_bytes) grew.room;
              countable = room.indexes;
            };
            exact = can.exact;
            table = rw grown' s.table;
          },
          ap (λ L. bucket_index L hash t.buckets) grown',
          refl,
        ),
      )

-- On a record hash table that is well formed and holds the values `c`, a stack of values for each
-- key, `store` returns, where the system calls succeed, the key has the key size, the value fits
-- into a record and the record into the file. The table then is well formed and holds `c` with the
-- value pushed on the stack of its key; all other stacks and the key size are as before.
pub store-Models :
    ⦃en : Endian⦄ (hash : Hash) {os : Os} (t : RecordHashTable) (c : Bytes → List Bytes)
    (key value : Bytes)
    → Works os
    → Models hash t c
    → CanStore key value t
    → Returns (store hash os key value t) (λ t'.
      Models hash t' (λ q. if bytes_eq q key then push value (c q) else c q)
      × (t'.key_size ≡ t.key_size))
store-Models hash t c key value works (view, valid, reads) can =
    let (t', run, (valid', same, keyed)) = store-IsRecordTable hash works key value valid can in
    (
      t',
      run,
      (
        (
          update view (index_of hash t key) (
              record { link = t.manager.record_count; key = key; value = value }
              ∷ view (index_of hash t key)),
          valid',
          λ q. rw (same, ← reads q) (contents-push (index_of hash t) view q _),
        ),
        keyed,
      ),
    )
