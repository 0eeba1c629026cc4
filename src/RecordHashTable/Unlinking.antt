-- ===== src/RecordHashTable/Unlinking.antt =====
-- `unlink` of include/bitcoin/database/impl/record_hash_table.ipp.
use bitprim_database.Prelude.{
  ℕ, suc, ◌+◌, ◌-◌, ◌^◌, ◌<◌, ◌≡◌, ◌∙◌, refl, ap, inl, inr, some, List, [], ◌∷◌, arith, is_some,
  if◌then◌else◌, length, Bytes, bytes_eq,
}
use bitprim_database.Run.{fault, ◌>>=◌, Returns}
use bitprim_database.Endian.{Endian, file_offset_bound}
use bitprim_database.MemoryMap.{MemoryMap}
use bitprim_database.MemoryMap.Growth.{IsLive-bytes}
use bitprim_database.RecordRow.{layout}
use bitprim_database.RecordManager.Positions.{extent, get-extent}
use bitprim_database.Row.Entry.{Entry, compare-fault}
use bitprim_database.Buckets
use bitprim_database.Buckets.{Hash, bucket_index}
use bitprim_database.Buckets.Chain.{find_entry, remove_entry}
use bitprim_database.Buckets.Table.{update, read_bucket_value-first}
use bitprim_database.Buckets.Lookup.{unlink-Unlinked}
use bitprim_database.Buckets.Contents.{stack, top, pop, contents-pop, is_some-find_entry}
use bitprim_database.Buckets.Found.{list_cases}
use bitprim_database.RecordHashTable.{RecordHashTable, unlink}
use bitprim_database.RecordHashTable.Invariant.{
  layout-IsProper, layout-grown, index_of, IsRecordTable, Models,
}

module _ ⦃en : Endian⦄ (hash : Hash) (t : RecordHashTable) (key : Bytes)
    (k : length key ≡ t.key_size) where
  unlink-IsRecordTable :
      {view : ℕ → List Entry} (p : Entry) (es : List Entry)
      → IsRecordTable hash t view
      → view (index_of hash t key) ≡ p ∷ es
      → Returns (unlink hash key t) (λ r.
        (r.0 ≡ is_some (find_entry key (view (index_of hash t key))))
        × IsRecordTable hash r.1
            (update view (index_of hash t key) (remove_entry key (view (index_of hash t key))))
        × (index_of hash r.1 ≡ index_of hash t)
        × (r.1.key_size ≡ t.key_size))
  unfolding unlink
  unlink-IsRecordTable {view} p es valid filled =
      let m = t.manager in
      let ((b, g), run, post) =
        unlink-Unlinked (layout t.key_size m) hash t.buckets (m.header_size + 4)
          (layout-IsProper t.key_size m) valid.table key k p es filled (suc m.file.file_size)
          (omega (arith, valid.ready.holds)) in
      let grown = layout-grown t.key_size m g m.record_count in
      (
        (b, record t { manager = record m { file = g } }),
        rw run,
        (
          post.found,
          record {
            ready = record {
              live = IsLive-bytes post.only_bytes valid.ready.live;
              holds = rw (ap (λ (x : MemoryMap). x.file_size) post.only_bytes) valid.ready.holds;
              countable = valid.ready.countable;
            };
            exact = valid.exact;
            table = rw grown post.table;
          },
          ap (λ L. bucket_index L hash t.buckets) grown,
          refl,
        ),
      )

  -- On a record hash table that holds the stacks `c`, `unlink` of a key of the key size returns,
  -- where the bucket of the key holds a value of some key `q`. It says whether the stack of the key
  -- had a value, pops that stack, and leaves all other stacks and the key size as they were.
  pub unlink-Models :
      (c : Bytes → List Bytes) (q : Bytes) {v : Bytes}
      → Models hash t c
      → index_of hash t q ≡ index_of hash t key
      → top (c q) ≡ some v
      → Returns (unlink hash key t) (λ r.
        (r.0 ≡ is_some (top (c key)))
        × Models hash r.1 (λ x. if bytes_eq x key then pop (c x) else c x)
        × (r.1.key_size ≡ t.key_size))
  unfolding stack
  unlink-Models c q (view, valid, reads) same there =
      elim (list_cases (view (index_of hash t key))) [
        | inl nil ↦
            let none_there : stack q (view (index_of hash t q)) ≡ [] = rw (same, nil) in
            cc (reads q, none_there)
        | inr (p, es, filled) ↦
            let (r, run, (found, valid', same', keyed)) = unlink-IsRecordTable p es valid filled in
            (
              r,
              run,
              (
                found
                    ∙ is_some-find_entry key (view (index_of hash t key))
                    ∙ ap (λ vs. is_some (top vs)) (reads key),
                (
                  update view (index_of hash t key) (remove_entry key (view (index_of hash t key))),
                  valid',
                  λ x. rw (same', ← reads x) (contents-pop (index_of hash t) view x key),
                ),
                keyed,
              ),
            )
      ]

  -- On a well formed record hash table, `unlink` of a key of the key size whose bucket is empty
  -- faults, where the record of the largest index would begin below 2 ^ 64 and its key would end
  -- past the mapping: that key is read before the bucket is known to have a row.
  pub unlink_empty :
      {view : ℕ → List Entry}
      → IsRecordTable hash t view
      → view (index_of hash t key) ≡ []
      → extent t.manager (2 ^ 32 - 1) < file_offset_bound
      → t.manager.file.file_size < extent t.manager (2 ^ 32 - 1) + t.key_size
      → unlink hash key t ≡ fault
  unfolding unlink Buckets.unlink
  unlink_empty {view} valid nil small short =
      let m = t.manager in
      let here = get-extent m (2 ^ 32 - 1) small in
      rw (
        rw nil at (
            read_bucket_value-first (layout t.key_size m) hash t.buckets (m.header_size + 4)
              (layout-IsProper t.key_size m) valid.table key),
        ◌>>=◌,
        compare-fault (layout t.key_size m) m.file (2 ^ 32 - 1) key (omega arith),
      )
