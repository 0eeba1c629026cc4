-- ===== src/RecordHashTable/Editing.antt =====
-- Writing through the place that `find` of include/bitcoin/database/impl/record_hash_table.ipp
-- returns, inside of the newest value of a key.
use mathlib.Core.Option
use mathlib.Core.Path.{subst}
use bitprim_database.Prelude.{
  refl, ℕ, suc, ◌+◌, ◌≡◌, ◌∙◌, sym, ap, inl, inr, some, List, arith, if◌then◌else◌, Option-cases,
  length, Bytes, bytes_eq,
}
use bitprim_database.Run.{ok}
use bitprim_database.Endian.{Endian}
use bitprim_database.MemoryMap.{MemoryMap}
use bitprim_database.MemoryMap.Access.{Covers, Reads}
use bitprim_database.MemoryMap.Editing.{Edits, Edits-written}
use bitprim_database.Row.{data_of}
use bitprim_database.Row.Entry.{Entry}
use bitprim_database.RecordRow.{layout}
use bitprim_database.Buckets.{Hash}
use bitprim_database.Buckets.Chain.{find_entry}
use bitprim_database.Buckets.Table.{bucket_index-lt}
use bitprim_database.Buckets.Lookup.{find-find_entry}
use bitprim_database.Buckets.Contents.{find_entry-stack, top}
use bitprim_database.Buckets.Found.{Finds, Finds-place, chain-Finds}
use bitprim_database.RecordHashTable.{RecordHashTable, find}
use bitprim_database.RecordHashTable.Invariant.{layout-IsProper, index_of, Models}
use bitprim_database.Buckets.{bucket_index}
use bitprim_database.Buckets.Table.{update}
use bitprim_database.Buckets.Overwriting.{overwrite_entry}
use bitprim_database.Buckets.Overwritten.{overwritten-IsTable, contents-overwritten}
use bitprim_database.Buckets.Replacing.{replace_top, replaced_present}
use bitprim_database.Buckets.Contents.{contents}
use bitprim_database.MemoryMap.Growth.{IsLive-bytes}
use bitprim_database.MemoryMap.Access.{written}
use bitprim_database.RecordManager.Positions.{extent}
use bitprim_database.RecordHashTable.Invariant.{IsRecordTable, layout-grown}

-- The table after the value `w` of the first row of the key is written over.
pub overwritten-Models :
    ⦃en : Endian⦄ (hash : Hash) (t : RecordHashTable) (c : Bytes → List Bytes) (key bytes : Bytes)
    (view : ℕ → List Entry) (e : Entry)
    → IsRecordTable hash t view
    → ((q : Bytes) → contents (index_of hash t) view q ≡ c q)
    → find_entry key (view (index_of hash t key)) ≡ some e
    → top (c key) ≡ some e.value
    → length bytes ≡ length e.value
    → Models hash
        (record t {
          manager = record t.manager {
            file = written t.manager.file (data_of (layout t.key_size t.manager) e.link) bytes;
          };
        })
        (λ q. if bytes_eq q key then replace_top bytes (c q) else c q)
overwritten-Models hash t c key bytes view e valid reads there tops same =
    let m = t.manager in
    let L = layout t.key_size m in
    let h = index_of hash t key in
    let g = written m.file (data_of L e.link) bytes in
    let grown = layout-grown t.key_size m g m.record_count in
    let index = ap (λ L. bucket_index L hash t.buckets) grown in
    (
      update view h (overwrite_entry key bytes (view h)),
      record {
        ready = record {
          live = IsLive-bytes refl valid.ready.live;
          holds = valid.ready.holds;
          countable = valid.ready.countable;
        };
        exact = valid.exact;
        table = rw grown (
            overwritten-IsTable L hash t.buckets (m.header_size + 4) (layout-IsProper t.key_size m)
              valid.table key bytes e there same);
      },
      λ q. rw index (
          contents-overwritten (index_of hash t) view q key bytes e there
          ∙ rw (reads q) (replaced_present c key bytes tops q)),
    )

module _ ⦃en : Endian⦄ (hash : Hash) where
  -- The table with another file.
  abbrev pub with_file : MemoryMap → RecordHashTable → RecordHashTable
  with_file g t = record t { manager = record t.manager { file = g } }

  -- The place `a` of the newest value `w` of the key: other bytes of that length may be put there.
  pub record Editable (t : RecordHashTable) (c : Bytes → List Bytes) (key w : Bytes) (a : ℕ)
      : Type 0 where
    pub found : find hash key t ≡ ok (some a)
    pub covers : Covers t.manager.file (a + length w)
    pub reads : Reads t.manager.file a w
    pub edit :
        (g : MemoryMap) (w' : Bytes)
        → length w' ≡ length w
        → Edits t.manager.file a w' g
        → Models hash (with_file g t) (λ q. if bytes_eq q key then replace_top w' (c q) else c q)

  pub find-Editable :
      (t : RecordHashTable) (c : Bytes → List Bytes) (key w : Bytes)
      → Models hash t c
      → length key ≡ t.key_size
      → top (c key) ≡ some w
      → (a : ℕ) × Editable t c key w a
  unfolding find
  find-Editable t c key w (view, valid, reads) k tops =
      let m = t.manager in
      let L = layout t.key_size m in
      let h = index_of hash t key in
      let heard : Option.map (λ (e : Entry). e.value) (find_entry key (view h)) ≡ some w =
        find_entry-stack key (view h) ∙ ap top (reads key) ∙ tops in
      let run =
        find-find_entry L hash t.buckets (m.header_size + 4) (layout-IsProper t.key_size m)
          valid.table key k (suc m.file.file_size) (omega (arith, valid.ready.holds)) in
      let place =
        chain-Finds L m.file (m.header_size + 4) (extent m m.record_count) key (view h)
          (valid.table.chains h (bucket_index-lt L hash t.buckets key valid.table.buckets_pos)) in
      elim (Option-cases (find_entry key (view h))) [
        | inl nil ↦ cc (rw nil at heard)
        | inr (e, there) ↦
            let value : e.value ≡ w = ground (arith, rw there at heard) in
            let (covers, reads') = Finds-place (
              subst (λ o. Finds m.file (some (data_of L e.link)) o) (ap top (reads key) ∙ tops)
                (rw there at place)) in
            (
              data_of L e.link,
              record {
                found = run ∙ rw there;
                covers = covers;
                reads = reads';
                edit = λ g w' size edits.
                    subst
                      (λ f.
                        Models hash (with_file f t)
                          (λ q. if bytes_eq q key then replace_top w' (c q) else c q))
                      (sym (Edits-written edits))
                      (overwritten-Models hash t c key w' view e valid reads there
                        (tops ∙ ap some (sym value)) (size ∙ ap length (sym value)));
              },
            )
      ]
