-- ===== src/SlabHashTable/Updating.antt =====
-- `update` of include/bitcoin/database/impl/slab_hash_table.ipp.
use mathlib.Core.Option
use bitprim_database.Prelude.{
  ℕ, zero, suc, ◌+◌, ◌<◌, ◌≡◌, ◌∙◌, refl, sym, ap, inl, inr, none, some, List, [], ◌∷◌, arith,
  ne→==, Bool-cases, eq_of_bytes_eq, Option-cases, length, Bytes, bytes_eq, if◌then◌else◌,
}
use bitprim_database.Run.{ok, ◌>>=◌, Returns}
use bitprim_database.Endian.{Endian}
use bitprim_database.MemoryMap.{MemoryMap}
use bitprim_database.MemoryMap.Growth.{IsLive-bytes}
use bitprim_database.MemoryMap.Access.{written, save-ok}
use bitprim_database.HashTableHeader.{empty}
use bitprim_database.Row.{data_of}
use bitprim_database.Row.Entry.{Entry, size, compare-row, next_of-row}
use bitprim_database.SlabManager.{SlabManager}
use bitprim_database.SlabRow.{layout, offset}
use bitprim_database.Buckets.{Hash, bucket_index}
use bitprim_database.Buckets.Chain.{find_entry, first, Chain, link-ne-first}
use bitprim_database.Buckets.Table.{update, bucket_index-lt, read_bucket_value-first}
use bitprim_database.Buckets.Contents.{contents, find_entry-stack, top}
use bitprim_database.Buckets.Overwriting.{overwrite_entry, Overwrites-find_entry}
use bitprim_database.Buckets.Overwritten.{overwritten-IsTable, contents-overwritten}
use bitprim_database.Buckets.Replacing.{replace_top, replaced_present}
use bitprim_database.SlabHashTable as Table
use bitprim_database.SlabHashTable.{SlabHashTable, update_loop}
use bitprim_database.SlabHashTable.Invariant.{
  layout-IsProper, layout-grown, index_of, IsSlabTable, Represents,
}

module _ ⦃en : Endian⦄ (key_size : ℕ) (m : SlabManager) (key bytes : Bytes)
    (k : length key ≡ key_size) where
  -- The loop ends at the first row of the key, or at the end of the chain.
  update_loop-absent :
      (fuel lo hi : ℕ) (f : MemoryMap) (es : List Entry)
      → hi < fuel
      → Chain (layout key_size m) f lo hi es
      → find_entry key es ≡ none
      → update_loop key_size m key bytes fuel f (first (layout key_size m) es) ≡ ok (0, f)
  unfolding update_loop find_entry
  update_loop-absent zero lo hi f es l c h = absurd (omega (arith, l))
  update_loop-absent (suc fuel) lo hi f [] l c h = refl
  update_loop-absent (suc fuel) lo hi f (e ∷ es) l (a, b, r, c) h =
      let L = layout key_size m in
      elim (Bool-cases (bytes_eq key e.key)) [
        | inl hit ↦ cc (rw hit at h)
        | inr miss ↦ rw (
          ne→== e.link (empty 8) (omega (arith, r.body.used)),
          compare-row L key k r.body,
          ◌>>=◌,
          miss,
          next_of-row L r,
          link-ne-first L (layout-IsProper key_size m) f lo e es r.body.used c,
          update_loop-absent fuel lo (L.address e.link) f es (omega arith) c (rw miss at h),
        )
      ]

  update_loop-present :
      (fuel lo hi : ℕ) (f : MemoryMap) (es : List Entry) (e : Entry)
      → hi < fuel
      → Chain (layout key_size m) f lo hi es
      → find_entry key es ≡ some e
      → length bytes ≡ length e.value
      → update_loop key_size m key bytes fuel f (first (layout key_size m) es)
        ≡ ok (offset key_size m e.link, written f (data_of (layout key_size m) e.link) bytes)
  unfolding update_loop find_entry
  update_loop-present zero lo hi f es e l c h same = absurd (omega (arith, l))
  update_loop-present (suc fuel) lo hi f [] e l c h same = cc
  update_loop-present (suc fuel) lo hi f (p ∷ es) e l (a, b, r, c) h same =
      let L = layout key_size m in
      let start = ne→== p.link (empty 8) (omega (arith, r.body.used)) in
      elim (Bool-cases (bytes_eq key p.key)) [
        | inl hit ↦
            let q : p ≡ e = cc (rw hit at h) in
            let o =
              Overwrites-find_entry L (layout-IsProper key_size m) lo key bytes hi (p ∷ es) e
                (a, b, r, c) h same in
            rw (
              start,
              compare-row L key k r.body,
              ◌>>=◌,
              hit,
              ap (λ (x : Entry). x.link) q,
              save-ok f (data_of L e.link) bytes o.covers,
            )
        | inr miss ↦ rw (
          start,
          compare-row L key k r.body,
          ◌>>=◌,
          miss,
          next_of-row L r,
          link-ne-first L (layout-IsProper key_size m) f lo p es r.body.used c,
          update_loop-present fuel lo (L.address p.link) f es e (omega arith) c (rw miss at h) same,
        )
      ]

replaced_absent :
    (c : Bytes → List Bytes) (key bytes : Bytes)
    → top (c key) ≡ none
    → (q : Bytes) → c q ≡ (if bytes_eq q key then replace_top bytes (c q) else c q)
replaced_absent c key bytes h q = elim (Bool-cases (bytes_eq q key)) [
  | inl own ↦
      let e : top (c q) ≡ top (c key) = ap (λ x. top (c x)) (eq_of_bytes_eq q key own) in
      rw own (empty_stack (c q) (e ∙ h))
  | inr other ↦ rw other
]
  where
    empty_stack : (vs : List Bytes) → top vs ≡ none → vs ≡ replace_top bytes vs
    empty_stack [] h = refl
    empty_stack (v ∷ vs) h = cc

-- The table after the value `w` of the first row of the key is written over.
pub overwritten-Represents :
    ⦃en : Endian⦄ (hash : Hash) (t : SlabHashTable) (c : Bytes → List Bytes) (key bytes : Bytes)
    (view : ℕ → List Entry) (e : Entry)
    → IsSlabTable hash t view
    → ((q : Bytes) → contents (index_of hash t) view q ≡ c q)
    → find_entry key (view (index_of hash t key)) ≡ some e
    → top (c key) ≡ some e.value
    → length bytes ≡ length e.value
    → Represents hash
        (record t {
          manager = record t.manager {
            file = written t.manager.file (data_of (layout t.key_size t.manager) e.link) bytes;
          };
        })
        (λ q. if bytes_eq q key then replace_top bytes (c q) else c q)
overwritten-Represents hash t c key bytes view e valid reads there tops same =
    let m = t.manager in
    let L = layout t.key_size m in
    let h = index_of hash t key in
    let g = written m.file (data_of L e.link) bytes in
    let grown = layout-grown t.key_size m g m.payload_size in
    let index = ap (λ L. bucket_index L hash t.buckets) grown in
    (
      update view h (overwrite_entry key bytes (view h)),
      record {
        ready = record {
          live = IsLive-bytes refl valid.ready.live;
          holds = valid.ready.holds;
          sized = valid.ready.sized;
        };
        exact = valid.exact;
        table = rw grown (
            overwritten-IsTable L hash t.buckets (m.header_size + 8) (layout-IsProper t.key_size m)
              valid.table key bytes e there same);
      },
      λ q. rw index (
          contents-overwritten (index_of hash t) view q key bytes e there
          ∙ rw (reads q) (replaced_present c key bytes tops q)),
    )

-- On a slab hash table that holds the stacks `c`, `update` of a key of the key size with bytes as
-- long as the top of the stack of the key, if that stack has one, returns. The bytes then are the
-- top of that stack, and all other values are as before; nothing changes where the stack is empty.
pub update-Represents :
    ⦃en : Endian⦄ (hash : Hash) (t : SlabHashTable) (c : Bytes → List Bytes) (key bytes : Bytes)
    → Represents hash t c
    → length key ≡ t.key_size
    → ((w : Bytes) → top (c key) ≡ some w → length bytes ≡ length w)
    → Returns
        (Table.update hash key bytes t)
        (λ r. Represents hash r.1 (λ q. if bytes_eq q key then replace_top bytes (c q) else c q))
unfolding Table.update
update-Represents hash t c key bytes (view, valid, reads) k size =
    let m = t.manager in
    let L = layout t.key_size m in
    let h = index_of hash t key in
    let lt = bucket_index-lt L hash t.buckets key valid.table.buckets_pos in
    let begin =
      read_bucket_value-first L hash t.buckets (m.header_size + 8) (layout-IsProper t.key_size m)
        valid.table key in
    let heard : Option.map (λ (e : Entry). e.value) (find_entry key (view h)) ≡ top (c key) =
      find_entry-stack key (view h) ∙ ap top (reads key) in
    elim (Option-cases (find_entry key (view h))) [
      | inl nil ↦
          let run =
            update_loop-absent t.key_size m key bytes k (suc m.file.file_size) (m.header_size + 8)
              (m.header_size + m.payload_size) m.file (view h) (omega (arith, valid.ready.holds))
              (valid.table.chains h lt) nil in
          (
            (0, t),
            rw (begin, ◌>>=◌, run),
            (view, valid, λ q. reads q ∙ replaced_absent c key bytes (sym (rw nil at heard)) q),
          )
      | inr (e, there) ↦
          let tops : some e.value ≡ top (c key) = rw there at heard in
          let same = size e.value (sym tops) in
          let run =
            update_loop-present t.key_size m key bytes k (suc m.file.file_size) (m.header_size + 8)
              (m.header_size + m.payload_size) m.file (view h) e (omega (arith, valid.ready.holds))
              (valid.table.chains h lt) there same in
          let g = written m.file (data_of L e.link) bytes in
          (
            (offset t.key_size m e.link, record t { manager = record m { file = g } }),
            rw (begin, ◌>>=◌, run),
            overwritten-Represents hash t c key bytes view e valid reads there (sym tops) same,
          )
    ]
