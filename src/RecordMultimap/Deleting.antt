-- ===== src/RecordMultimap/Deleting.antt =====
-- `delete_last_row` of include/bitcoin/database/impl/record_multimap.ipp.
use mathlib.Core.Path.{subst}
use bitprim_database.Prelude.{
  ℕ, ◌<◌, ◌^◌, ◌≡◌, ◌∙◌, refl, sym, ap, true, false, inl, inr, List, [], ◌∷◌, arith, ne→==,
  if◌then◌else◌, Bool-cases, is_some, length, Bytes, bytes_eq, eq_of_bytes_eq,
}
use bitprim_database.Run.{ok, ◌>>=◌, Returns}
use bitprim_database.Endian.{Endian, to_le}
use bitprim_database.MemoryMap.Access.{load-Reads, written, save-ok}
use bitprim_database.MemoryMap.Editing.{written-Edits}
use bitprim_database.RecordManager.{RecordManager}
use bitprim_database.RecordManager.Positions.{extent, get-extent}
use bitprim_database.RecordList as Records
use bitprim_database.RecordList.{empty}
use bitprim_database.RecordList.Linked.{IsListed, first}
use bitprim_database.Buckets.{Hash}
use bitprim_database.Buckets.Contents.{top}
use bitprim_database.Buckets.Found.{list_cases}
use bitprim_database.RecordHashTable.Invariant.{Models, Models-congr}
use bitprim_database.RecordHashTable.Unlinking.{unlink-Models}
use bitprim_database.RecordHashTable.Editing.{Editable}
use bitprim_database.RecordMultimap.{
  RecordMultimap, with_table_file, read_start, write_start, delete_at, delete_last_row,
}
use bitprim_database.RecordMultimap.Rows.{
  inside, start_of, Chained, Chained-lt, Maps, Holds, find-absent, find-present,
}

abbrev pub tail : {A : Type 0} → List A → List A
tail [] = []
tail (x ∷ xs) = xs

-- The values of all keys without the newest of one key.
abbrev pub removed_row : {A : Type 0} → Bytes → (Bytes → List A) → Bytes → List A
removed_row key rows q = if bytes_eq q key then tail (rows q) else rows q

module _ ⦃en : Endian⦄ where
  Chained-tail :
      (m : RecordManager) (is : List ℕ) (xs : List Bytes)
      → Chained m is xs
      → Chained m (tail is) (tail xs)
  Chained-tail m [] [] c = tt
  Chained-tail m [] (x ∷ xs) c = elim c [ ]
  Chained-tail m (i ∷ is) [] c = elim c [ ]
  Chained-tail m (i ∷ is) (x ∷ xs) c = c.5

  is_some-first :
      (m : RecordManager) (is : List ℕ) (xs : List Bytes)
      → Chained m is xs
      → is_some (top (start_of is)) ≡ is_some (top xs)
  is_some-first m [] [] c = refl
  is_some-first m [] (x ∷ xs) c = elim c [ ]
  is_some-first m (i ∷ is) [] c = elim c [ ]
  is_some-first m (i ∷ is) (x ∷ xs) c = refl

  first-lt :
      (m : RecordManager) (is : List ℕ) (xs : List Bytes)
      → IsListed m
      → Chained m is xs
      → first is < 2 ^ 32
  first-lt m [] xs h c = omega arith
  first-lt m (i ∷ is) xs h c = omega (arith, Chained-lt m i is xs c, h.ready.countable)

  pub next-Chained :
      (m : RecordManager) (i : ℕ) (is : List ℕ) (xs : List Bytes)
      → IsListed m
      → Chained m (i ∷ is) xs
      → Records.next m i ≡ ok (first is)
  unfolding Records.next
  next-Chained m i is [] h c = elim c [ ]
  next-Chained m i is (x ∷ xs) h (l, b, s, r, d, c) =
      let below = inside i m.record_count m.record_size l in
      let four = en.length-to_le 4 (first is) in
      rw (
        get-extent m i (omega (arith, below, h.exact)),
        load-Reads m.file (extent m i) (to_le 4 (first is)) (sym four)
            (record {
              mapped = h.ready.live.mapped;
              within = omega (arith, below, s, h.ready.holds);
            })
            r,
        ◌>>=◌,
        en.from_le-to_le 4 (first is) (first-lt m is xs h c),
      )

module _ ⦃en : Endian⦄ (hash : Hash) (mm : RecordMultimap) (starts : Bytes → List ℕ)
    (rows : Bytes → List Bytes) (key : Bytes) (h : Maps hash mm starts rows)
    (k : length key ≡ mm.table.key_size) where
  -- The multimap after a write to its table.
  removed-Maps :
      (mm' : RecordMultimap)
      → mm'.rows ≡ mm.rows
      → Models hash mm'.table (λ q. start_of (removed_row key starts q))
      → Maps hash mm' (removed_row key starts) (removed_row key rows)
  removed-Maps mm' same models = record {
    models = models;
    listed = subst IsListed (sym same) h.listed;
    chained = λ q.
        subst (λ m. Chained m (removed_row key starts q) (removed_row key rows q)) (sym same)
          (elim (Bool-cases (bytes_eq q key)) [
            | inl own ↦ rw own (Chained-tail mm.rows (starts q) (rows q) (h.chained q))
            | inr other ↦ rw other (h.chained q)
          ]);
  }

  starts_of : (q : Bytes) {is : List ℕ} → bytes_eq q key ≡ true → starts key ≡ is → starts q ≡ is
  starts_of q own filled = ap starts (eq_of_bytes_eq q key own) ∙ filled

  delete_at-Maps :
      (a i : ℕ) (is : List ℕ)
      → starts key ≡ i ∷ is
      → Editable hash mm.table (λ q. start_of (starts q)) key (to_le 4 i) a
      → read_start mm a ≡ ok i
      → Returns (delete_at hash key a mm) (λ r.
        (r.0 ≡ true)
        × Maps hash r.1 (removed_row key starts) (removed_row key rows)
        × (r.1.table.key_size ≡ mm.table.key_size))
  unfolding delete_at write_start
  delete_at-Maps a i [] filled editable read =
      let following =
        next-Chained mm.rows i [] (rows key) h.listed
          (subst (λ js. Chained mm.rows js (rows key)) filled (h.chained key)) in
      let there = ap (λ js. top (start_of js)) filled in
      let ((done, t), run, (found, models, kept)) =
        unlink-Models hash mm.table key k (λ q. start_of (starts q)) key h.models refl there in
      (
        (done, record mm { table = t }),
        rw (read, ◌>>=◌, following, run),
        (
          found ∙ ap is_some there,
          removed-Maps (record mm { table = t }) refl
              (Models-congr hash models (λ q. elim (Bool-cases (bytes_eq q key)) [
                | inl own ↦ rw (own, starts_of q own filled)
                | inr other ↦ rw other
              ])),
          kept,
        ),
      )
  delete_at-Maps a i (j ∷ js) filled editable read =
      let chain = subst (λ is. Chained mm.rows is (rows key)) filled (h.chained key) in
      let following = next-Chained mm.rows i (j ∷ js) (rows key) h.listed chain in
      let counted =
        Chained-lt mm.rows j js (tail (rows key))
          (Chained-tail mm.rows (i ∷ j ∷ js) (rows key) chain) in
      let four = en.length-to_le 4 i in
      let four' = en.length-to_le 4 j in
      let f = mm.table.manager.file in
      let g = written f a (to_le 4 j) in
      (
        (true, with_table_file g mm),
        rw (
          read,
          ◌>>=◌,
          following,
          ne→== j empty (omega (arith, counted, h.listed.ready.countable)),
          save-ok f a (to_le 4 j) (record {
            mapped = editable.covers.mapped;
            within = omega (arith, editable.covers.within, four, four');
          }),
        ),
        (
          refl,
          removed-Maps (with_table_file g mm) refl (
              Models-congr hash
                (editable.edit g (to_le 4 j) (four' ∙ sym four) (written-Edits f a (to_le 4 j)))
                (λ q. elim (Bool-cases (bytes_eq q key)) [
                  | inl own ↦ rw (own, starts_of q own filled)
                  | inr other ↦ rw other
                ])),
          refl,
        ),
      )

  -- `delete_last_row` of a key, in a multimap that holds the rows `rows` under each key, returns
  -- whether the key has rows. The multimap then holds the rows of the key without the newest, and
  -- all other rows as before; the key size stays. This is so when the row is the only one of its
  -- key, when others follow it, and when there is none.
  pub delete_last_row-Holds : Returns (delete_last_row hash key mm) (λ r.
      (r.0 ≡ is_some (top (rows key)))
      × Holds hash r.1 (removed_row key rows)
      × (r.1.table.key_size ≡ mm.table.key_size))
  unfolding delete_last_row
  delete_last_row-Holds =
      let some_row = is_some-first mm.rows (starts key) (rows key) (h.chained key) in
      elim (list_cases (starts key)) [
        | inl nil ↦ (
          (false, mm),
          rw (find-absent hash mm starts rows key h k nil, ◌>>=◌),
          (
            ap (λ is. is_some (top (start_of is))) (sym nil) ∙ some_row,
            (
              removed_row key starts,
              removed-Maps mm refl (
                  Models-congr hash h.models (λ q. elim (Bool-cases (bytes_eq q key)) [
                    | inl own ↦ rw (own, starts_of q own nil)
                    | inr other ↦ rw other
                  ])),
            ),
            refl,
          ),
        )
        | inr (i, is, filled) ↦
            let (a, editable, read) = find-present hash mm starts rows key i is h k filled in
            let (r, run, (done, h', kept)) = delete_at-Maps a i is filled editable read in
            (
              r,
              rw (editable.found, ◌>>=◌) run,
              (
                done ∙ ap (λ is. is_some (top (start_of is))) (sym filled) ∙ some_row,
                (removed_row key starts, h'),
                kept,
              ),
            )
      ]
