-- ===== src/SlabHashTable/Storing.antt =====
-- `store` of include/bitcoin/database/impl/slab_hash_table.ipp.
use mathlib.Core.Path.{subst}
use bitprim_database.Row.{data_of}
use bitprim_database.Buckets.Chain.{Chain}
use bitprim_database.Prelude.{
  ℕ, ◌+◌, ◌≡◌, refl, ap, List, ◌∷◌, arith, if◌then◌else◌, Bytes, bytes_eq,
}
use bitprim_database.Run.{◌>>=◌, Returns}
use bitprim_database.Endian.{Endian}
use bitprim_database.MemoryMap.{Os, MemoryMap}
use bitprim_database.MemoryMap.Growth.{Works, Grew, IsLive-bytes}
use bitprim_database.MemoryMap.Access.{Reads}
use bitprim_database.Row.Entry.{Entry}
use bitprim_database.SlabManager.Allocation.{get-add, added, new_slab-added}
use bitprim_database.SlabRow
use bitprim_database.SlabRow.{layout}
use bitprim_database.Buckets.{Hash, bucket_index}
use bitprim_database.Buckets.Table.{update, update_self, bucket_index-lt}
use bitprim_database.Buckets.Storing.{Stores, row-Stores}
use bitprim_database.Buckets.Contents.{push, contents-push}
use bitprim_database.SlabHashTable.{SlabHashTable, store}
use bitprim_database.SlabHashTable.Invariant.{
  layout-IsProper, layout-grown, index_of, IsSlabTable, Represents, CanStore, Grows,
}

module _ ⦃en : Endian⦄ (hash : Hash) {os : Os} (works : Works os) (key value : Bytes)
    (value_size : ℕ) {t : SlabHashTable} {view : ℕ → List Entry} (valid : IsSlabTable hash t view)
    (can : CanStore key value value_size t) where
  abbrev row : Entry
  row = record { link = t.manager.payload_size; key = key; value = value }

  abbrev pushed : ℕ → List Entry
  pushed = update view (index_of hash t key) (row ∷ view (index_of hash t key))

  -- The bytes of the new slab.
  abbrev taken : ℕ
  taken = t.key_size + 8 + value_size

  -- The end of the payload with the new slab.
  abbrev end : ℕ
  end = t.manager.header_size + (t.manager.payload_size + (t.key_size + 8 + value_size))

  module _ (f : MemoryMap) (grew : Grew end t.manager.file f) where
    stores :
        Stores
          (layout t.key_size t.manager)
          hash
          t.buckets
          (t.manager.header_size + 8)
          (layout-IsProper t.key_size t.manager)
          row
          end
          f
          view
    stores =
        let here = get-add t.manager t.manager.payload_size (omega (arith, valid.exact)) in
        row-Stores (layout t.key_size t.manager) hash t.buckets (t.manager.header_size + 8)
          (layout-IsProper t.key_size t.manager) row end valid.table (omega arith)
          (record {
            mapped = grew.live.mapped;
            grows = grew.grows;
            same = λ a l r. grew.kept a (omega (arith, valid.ready.holds));
          })
          (omega arith) (omega (arith, can.fits)) grew.room can.keyed (omega (arith, can.exact))

  -- The table after the writes of `s`.
  abbrev stored : (f : MemoryMap) → (g : MemoryMap) → SlabHashTable
  stored f g = record t { manager = record (added taken f t.manager) { file = g } }

  pub store-IsSlabTable : Returns (store hash os key value value_size t) (λ r.
      (r.0 ≡ t.manager.payload_size + (t.key_size + 8))
      × Reads r.1.manager.file (t.manager.header_size + r.0) value
      × IsSlabTable hash r.1 pushed
      × (index_of hash r.1 ≡ index_of hash t)
      × (r.1.key_size ≡ t.key_size)
      × (r.1.buckets ≡ t.buckets)
      × Grows (t.key_size + 8 + value_size) t r.1)
  unfolding store SlabRow.create
  store-IsSlabTable =
      let (f, run, grew) = new_slab-added t.manager taken works valid.ready can.exact in
      let s = stores f grew in
      let grown : layout t.key_size (added taken f t.manager) ≡ layout t.key_size t.manager =
        layout-grown t.key_size t.manager f (t.manager.payload_size + taken) in
      let grown' : layout t.key_size (stored f s.linked).manager ≡ layout t.key_size t.manager =
        layout-grown t.key_size t.manager s.linked (t.manager.payload_size + taken) in
      let h = index_of hash t key in
      let headed : Chain (layout t.key_size t.manager) s.linked (t.manager.header_size + 8) end
          (row ∷ view h) =
        subst
          (λ xs. Chain (layout t.key_size t.manager) s.linked (t.manager.header_size + 8) end xs)
          (update_self view h (row ∷ view h))
          (s.table.chains h (
            bucket_index-lt (layout t.key_size t.manager) hash t.buckets key
              s.table.buckets_pos)) in
      let place : data_of (layout t.key_size t.manager) t.manager.payload_size
          ≡ t.manager.header_size + (t.manager.payload_size + (t.key_size + 8)) =
        omega (arith, get-add t.manager t.manager.payload_size (omega (arith, can.exact))) in
      (
        (t.manager.payload_size + (t.key_size + 8), stored f s.linked),
        rw (
          run,
          ◌>>=◌,
          grown,
          s.populates,
          layout-grown t.key_size t.manager s.filled (t.manager.payload_size + taken),
          s.links,
        ),
        (
          refl,
          subst (λ a. Reads s.linked a value) place headed.2.body.value,
          record {
            ready = record {
              live = IsLive-bytes s.only_bytes grew.live;
              holds = rw (ap (λ (x : MemoryMap). x.file_size) s.only_bytes) grew.room;
              sized = omega (arith, valid.ready.sized);
            };
            exact = can.exact;
            table = rw grown' s.table;
          },
          ap (λ L. bucket_index L hash t.buckets) grown',
          refl,
          refl,
          record { header = refl; payload = omega arith },
        ),
      )

-- What `store` does, with a bound on the growth of the table.
pub store-Represents-Grows :
    ⦃en : Endian⦄ (hash : Hash) {os : Os} (t : SlabHashTable) (c : Bytes → List Bytes)
    (key value : Bytes) (value_size : ℕ)
    → Works os
    → Represents hash t c
    → CanStore key value value_size t
    → Returns (store hash os key value value_size t) (λ r.
      (r.0 ≡ t.manager.payload_size + (t.key_size + 8))
      × Reads r.1.manager.file (t.manager.header_size + r.0) value
      × Represents hash r.1 (λ q. if bytes_eq q key then push value (c q) else c q)
      × (r.1.key_size ≡ t.key_size)
      × Grows (t.key_size + 8 + value_size) t r.1)
store-Represents-Grows hash t c key value value_size works (view, valid, reads) can =
    let (r, run, (at, here, valid', same, keyed, kept, grows)) =
      store-IsSlabTable hash works key value value_size valid can in
    let i = index_of hash t key in
    (
      r,
      run,
      (
        at,
        here,
        (
          update view i
              (record { link = t.manager.payload_size; key = key; value = value } ∷ view i),
          valid',
          λ q. rw (same, ← reads q) (contents-push (index_of hash t) view q _),
        ),
        keyed,
        grows,
      ),
    )

-- On a slab hash table that is well formed and holds the stacks `c`, `store` returns, where the
-- system calls succeed, the key has the key size, the value is no longer than the size asked for
-- and the slab fits into the file. The value is read at the offset that is returned, counted from
-- the end of the header; the table then holds `c` with the value pushed on the stack of its key,
-- and has the same key size.
pub store-Represents :
    ⦃en : Endian⦄ (hash : Hash) {os : Os} (t : SlabHashTable) (c : Bytes → List Bytes)
    (key value : Bytes) (value_size : ℕ)
    → Works os
    → Represents hash t c
    → CanStore key value value_size t
    → Returns (store hash os key value value_size t) (λ r.
      (r.0 ≡ t.manager.payload_size + (t.key_size + 8))
      × Reads r.1.manager.file (t.manager.header_size + r.0) value
      × Represents hash r.1 (λ q. if bytes_eq q key then push value (c q) else c q)
      × (r.1.key_size ≡ t.key_size))
store-Represents hash t c key value value_size works h can =
    let (r, run, (at, here, represents, keyed, grows)) =
      store-Represents-Grows hash t c key value value_size works h can in
    (r, run, (at, here, represents, keyed))
