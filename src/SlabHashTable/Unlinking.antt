-- ===== src/SlabHashTable/Unlinking.antt =====
-- `unlink` of include/bitcoin/database/impl/slab_hash_table.ipp.
use bitprim_database.Prelude.{
  refl, ℕ, suc, ◌+◌, ◌≡◌, ◌∙◌, ap, inl, inr, some, List, [], ◌∷◌, arith, is_some, if◌then◌else◌,
  length, Bytes, bytes_eq,
}
use bitprim_database.Run.{Returns}
use bitprim_database.Endian.{Endian}
use bitprim_database.MemoryMap.{MemoryMap}
use bitprim_database.MemoryMap.Growth.{IsLive-bytes}
use bitprim_database.SlabRow.{layout}
use bitprim_database.Row.Entry.{Entry}
use bitprim_database.Buckets.{Hash, bucket_index}
use bitprim_database.Buckets.Chain.{find_entry, remove_entry}
use bitprim_database.Buckets.Table.{update}
use bitprim_database.Buckets.Lookup.{unlink-Unlinked}
use bitprim_database.Buckets.Contents.{stack, top, pop, contents-pop, is_some-find_entry}
use bitprim_database.Buckets.Found.{list_cases}
use bitprim_database.SlabHashTable.{SlabHashTable, unlink}
use bitprim_database.SlabHashTable.Invariant.{
  layout-IsProper, layout-grown, index_of, IsSlabTable, Represents,
}

module _ ⦃en : Endian⦄ (hash : Hash) (t : SlabHashTable) (key : Bytes)
    (k : length key ≡ t.key_size) where
  unlink-IsSlabTable :
      {view : ℕ → List Entry} (p : Entry) (es : List Entry)
      → IsSlabTable hash t view
      → view (index_of hash t key) ≡ p ∷ es
      → Returns (unlink hash key t) (λ r.
        (r.0 ≡ is_some (find_entry key (view (index_of hash t key))))
        × IsSlabTable hash r.1
            (update view (index_of hash t key) (remove_entry key (view (index_of hash t key))))
        × (index_of hash r.1 ≡ index_of hash t)
        × (r.1.key_size ≡ t.key_size))
  unfolding unlink
  unlink-IsSlabTable {view} p es valid filled =
      let m = t.manager in
      let ((b, g), run, post) =
        unlink-Unlinked (layout t.key_size m) hash t.buckets (m.header_size + 8)
          (layout-IsProper t.key_size m) valid.table key k p es filled (suc m.file.file_size)
          (omega (arith, valid.ready.holds)) in
      let grown = layout-grown t.key_size m g m.payload_size in
      (
        (b, record t { manager = record m { file = g } }),
        rw run,
        (
          post.found,
          record {
            ready = record {
              live = IsLive-bytes post.only_bytes valid.ready.live;
              holds = rw (ap (λ (x : MemoryMap). x.file_size) post.only_bytes) valid.ready.holds;
              sized = valid.ready.sized;
            };
            exact = valid.exact;
            table = rw grown post.table;
          },
          ap (λ L. bucket_index L hash t.buckets) grown,
          refl,
        ),
      )

  -- On a slab hash table that holds the stacks `c`, `unlink` of a key of the key size returns,
  -- where the bucket of the key holds a value of some key `q`. It says whether the stack of the key
  -- had a value, pops that stack, and leaves all other stacks and the key size as they were.
  pub unlink-Represents :
      (c : Bytes → List Bytes) (q : Bytes) {v : Bytes}
      → Represents hash t c
      → index_of hash t q ≡ index_of hash t key
      → top (c q) ≡ some v
      → Returns (unlink hash key t) (λ r.
        (r.0 ≡ is_some (top (c key)))
        × Represents hash r.1 (λ x. if bytes_eq x key then pop (c x) else c x)
        × (r.1.key_size ≡ t.key_size))
  unfolding stack
  unlink-Represents c q (view, valid, reads) same there =
      elim (list_cases (view (index_of hash t key))) [
        | inl nil ↦
            let none_there : stack q (view (index_of hash t q)) ≡ [] = rw (same, nil) in
            cc (reads q, none_there)
        | inr (p, es, filled) ↦
            let (r, run, (found, valid', same', kept)) = unlink-IsSlabTable p es valid filled in
            (
              r,
              run,
              (
                found
                    ∙ is_some-find_entry key (view (index_of hash t key))
                    ∙ ap (λ vs. is_some (top vs)) (reads key),
                (
                  update view (index_of hash t key) (remove_entry key (view (index_of hash t key))),
                  valid',
                  λ x. rw (same', ← reads x) (contents-pop (index_of hash t) view x key),
                ),
                kept,
              ),
            )
      ]
