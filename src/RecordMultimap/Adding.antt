-- ===== src/RecordMultimap/Adding.antt =====
-- `add_row` of include/bitcoin/database/impl/record_multimap.ipp.
use mathlib.Core.Path.{subst}
use bitprim_database.Prelude.{
  ℕ, suc, ◌+◌, ◌≤◌, ◌<◌, ◌^◌, ◌≡◌, ◌∙◌, refl, sym, ap, true, inl, inr, List, [], ◌∷◌, arith,
  if◌then◌else◌, Bool-cases, length, Bytes, bytes_eq, eq_of_bytes_eq,
}
use bitprim_database.Run.{ok, ◌>>=◌, Returns}
use bitprim_database.Bytes.{write_bytes_outside}
use bitprim_database.Endian.{Endian, to_le}
use bitprim_database.MemoryMap.{Os}
use bitprim_database.MemoryMap.Growth.{Works, max_exact}
use bitprim_database.MemoryMap.Access.{written, save-ok, written-Reads, written_apart}
use bitprim_database.MemoryMap.Editing.{written-Edits}
use bitprim_database.RecordManager.{RecordManager}
use bitprim_database.RecordManager.Positions.{extent, get-extent}
use bitprim_database.RecordManager.Allocation.{HasRoom, added, new_records-added}
use bitprim_database.RecordList as Records
use bitprim_database.RecordList.Linked.{IsListed, first}
use bitprim_database.Buckets.{Hash}
use bitprim_database.Buckets.Found.{list_cases}
use bitprim_database.RecordHashTable.Invariant.{Models-congr, CanStore}
use bitprim_database.RecordHashTable.Storing.{store-Models}
use bitprim_database.RecordHashTable.Editing.{Editable}
use bitprim_database.RecordMultimap.{
  RecordMultimap, with_table_file, read_start, write_row, write_start, create_new, add_to_list,
  add_row,
}
use bitprim_database.RecordMultimap.Rows.{
  inside, start_of, FallsBelow, Chained, Chained-lt, Chained-congr, Maps, Holds, find-absent,
  find-present,
}

module _ ⦃en : Endian⦄ where
  -- A new record with a row, before the records `is`.
  record Prepends (m : RecordManager) (is : List ℕ) (xs : List Bytes) (row : Bytes)
      (m' : RecordManager) : Type 0 where
    listed : IsListed m'
    chained : Chained m' (m.record_count ∷ is) (row ∷ xs)
    kept : (js : List ℕ) (ys : List Bytes) → Chained m js ys → Chained m' js ys

  -- `insert` and the row that is written then.
  insert-Prepends :
      {os : Os} (m : RecordManager) (is : List ℕ) (xs : List Bytes) (row : Bytes)
      → Works os
      → IsListed m
      → HasRoom 1 m
      → 4 + length row ≤ m.record_size
      → Chained m is xs
      → (m₁ : RecordManager) × (m₂ : RecordManager) × (Records.insert os (first is) m
          ≡ ok (m.record_count, m₁))
        × (write_row m₁ m.record_count row ≡ ok m₂)
        × Prepends m is xs row m₂
  unfolding Records.insert Records.get write_row
  insert-Prepends {os} m is xs row works h room fits c =
      let (f, run, grew) = new_records-added m 1 works h.ready room in
      let bs = to_le 4 (first is) in
      let wide : length bs ≡ 4 = en.length-to_le 4 (first is) in
      let end = extent m m.record_count in
      let below = inside m.record_count (m.record_count + 1) m.record_size (omega arith) in
      let g₁ = written f end bs in
      let g₂ = written g₁ (end + 4) row in
      let m₁ : RecordManager = record m { file = g₁; record_count = m.record_count + 1 } in
      let m₂ : RecordManager = record m { file = g₂; record_count = m.record_count + 1 } in
      let place = get-extent (added 1 f m) m.record_count (omega (arith, h.exact)) in
      let same = λ (a : ℕ) (l : a < end).
        write_bytes_outside g₁.bytes (end + 4) row a (inl (omega arith))
        ∙ write_bytes_outside f.bytes end bs a (inl l)
        ∙ grew.kept a (omega (arith, l, h.ready.holds)) in
      (
        m₁,
        m₂,
        rw (
          run,
          ◌>>=◌,
          place,
          save-ok f end bs (record {
            mapped = grew.live.mapped;
            within = omega (arith, wide, below, fits, grew.room);
          }),
        ),
        rw (
          get-extent m₁ m.record_count (omega (arith, h.exact)),
          save-ok g₁ (end + 4) row (record {
            mapped = grew.live.mapped;
            within = omega (arith, below, fits, grew.room);
          }),
          ◌>>=◌,
        ),
        record {
          listed = record {
            ready = record {
              live = record {
                opened = grew.live.opened;
                mapped = grew.live.mapped;
                sized = grew.live.sized;
              };
              holds = grew.room;
              countable = room.indexes;
            };
            wide = h.wide;
            exact = room.exact;
          };
          chained = (
            omega arith,
            falls is xs c,
            fits,
            written_apart g₁ (end + 4) row end bs (inl (omega (arith, wide)))
                (written-Reads f end bs),
            written-Reads g₁ (end + 4) row,
            Chained-congr m g₂ (m.record_count + 1) is xs (omega arith) same c,
          );
          kept = λ js ys. Chained-congr m g₂ (m.record_count + 1) js ys (omega arith) same;
        },
      )
    where
      falls : (is : List ℕ) (xs : List Bytes) → Chained m is xs → FallsBelow m.record_count is
      falls [] xs c = tt
      falls (i ∷ is) xs c = Chained-lt m i is xs c

-- There is room for a record of the table and for one of the rows.
pub record HasRoomFor (key row : Bytes) (mm : RecordMultimap) : Type 0 where
  pub keyed : length key ≡ mm.table.key_size
  pub fits : 4 + length row ≤ mm.rows.record_size
  pub rows : HasRoom 1 mm.rows
  pub slot : mm.table.key_size + 4 + 4 ≤ mm.table.manager.record_size
  pub indexes : suc mm.table.manager.record_count < 2 ^ 32
  pub exact : extent mm.table.manager (mm.table.manager.record_count + 1) ≤ max_exact

-- The values with a row pushed under a key.
abbrev pub added_row : {A : Type 0} → Bytes → A → (Bytes → List A) → Bytes → List A
added_row key x rows q = if bytes_eq q key then x ∷ rows q else rows q

module _ ⦃en : Endian⦄ (hash : Hash) {table_os os : Os} (works : Works table_os) (works' : Works os)
    (mm : RecordMultimap) (starts : Bytes → List ℕ) (rows : Bytes → List Bytes) (key row : Bytes)
    (h : Maps hash mm starts rows) (room : HasRoomFor key row mm) where
  -- The rows after a record is prepended to those of the key.
  prepended :
      (m' : RecordManager)
      → Prepends mm.rows (starts key) (rows key) row m'
      → (q : Bytes)
      → Chained m' (added_row key mm.rows.record_count starts q) (added_row key row rows q)
  prepended m' p q = elim (Bool-cases (bytes_eq q key)) [
    | inl own ↦ rw own (
        subst (λ k. Chained m' (mm.rows.record_count ∷ starts k) (row ∷ rows k))
          (sym (eq_of_bytes_eq q key own)) p.chained)
    | inr other ↦ rw other (p.kept (starts q) (rows q) (h.chained q))
  ]

  -- What is known of a key from what is known of the equal one.
  starts_of : (q : Bytes) {is : List ℕ} → bytes_eq q key ≡ true → starts key ≡ is → starts q ≡ is
  starts_of q own filled = ap starts (eq_of_bytes_eq q key own) ∙ filled

  create_new-Maps :
      starts key ≡ []
      → Returns (create_new hash table_os os key row mm) (λ mm'.
        Maps hash mm' (added_row key mm.rows.record_count starts) (added_row key row rows)
        × (mm'.table.key_size ≡ mm.table.key_size))
  unfolding create_new Records.create
  create_new-Maps nil =
      let n = mm.rows.record_count in
      let (m₁, m₂, run, run', p) =
        insert-Prepends mm.rows (starts key) (rows key) row works' h.listed room.rows room.fits
          (h.chained key) in
      let created : Records.insert os Records.empty mm.rows ≡ ok (n, m₁) =
        subst (λ k. Records.insert os k mm.rows ≡ ok (n, m₁)) (ap first nil) run in
      let can : CanStore key (to_le 4 n) mm.table = record {
        keyed = room.keyed;
        fits = omega (arith, room.slot, en.length-to_le 4 n);
        indexes = room.indexes;
        exact = room.exact;
      } in
      let (t, stored, (models, kept)) =
        store-Models hash mm.table (λ q. start_of (starts q)) key (to_le 4 n) works h.models can in
      (
        record { table = t; rows = m₂ },
        rw (created, ◌>>=◌, run', stored),
        (
          record {
            models = Models-congr hash models (λ q. elim (Bool-cases (bytes_eq q key)) [
              | inl own ↦ rw (own, starts_of q own nil)
              | inr other ↦ rw other
            ]);
            listed = p.listed;
            chained = prepended m₂ p;
          },
          kept,
        ),
      )

  add_to_list-Maps :
      (a i : ℕ) (is : List ℕ)
      → starts key ≡ i ∷ is
      → Editable hash mm.table (λ q. start_of (starts q)) key (to_le 4 i) a
      → read_start mm a ≡ ok i
      → Returns (add_to_list os a row mm) (λ mm'.
        Maps hash mm' (added_row key mm.rows.record_count starts) (added_row key row rows)
        × (mm'.table.key_size ≡ mm.table.key_size))
  unfolding add_to_list write_start
  add_to_list-Maps a i is filled editable read =
      let n = mm.rows.record_count in
      let (m₁, m₂, run, run', p) =
        insert-Prepends mm.rows (starts key) (rows key) row works' h.listed room.rows room.fits
          (h.chained key) in
      let inserted : Records.insert os i mm.rows ≡ ok (n, m₁) =
        subst (λ k. Records.insert os k mm.rows ≡ ok (n, m₁)) (ap first filled) run in
      let four = en.length-to_le 4 i in
      let four' = en.length-to_le 4 n in
      let f = mm.table.manager.file in
      let g = written f a (to_le 4 n) in
      (
        with_table_file g (record mm { rows = m₂ }),
        rw (
          read,
          ◌>>=◌,
          inserted,
          run',
          save-ok f a (to_le 4 n) (record {
            mapped = editable.covers.mapped;
            within = omega (arith, editable.covers.within, four, four');
          }),
        ),
        (
          record {
            models =
                Models-congr hash
                  (editable.edit g (to_le 4 n) (four' ∙ sym four) (written-Edits f a (to_le 4 n)))
                  (λ q. elim (Bool-cases (bytes_eq q key)) [
                    | inl own ↦ rw (own, starts_of q own filled)
                    | inr other ↦ rw other
                  ]);
            listed = p.listed;
            chained = prepended m₂ p;
          },
          refl,
        ),
      )

  -- `add_row` of a key and a row, in a multimap that holds the rows `rows` under each key, returns
  -- where the system calls succeed and there is room. The multimap then holds the row before the
  -- rows of the key, whether the key had rows or not, and all other rows as before; the key size
  -- stays.
  pub add_row-Holds :
      Returns
        (add_row hash table_os os key row mm)
        (λ mm'. Holds hash mm' (added_row key row rows) × (mm'.table.key_size ≡ mm.table.key_size))
  unfolding add_row
  add_row-Holds = elim (list_cases (starts key)) [
    | inl nil ↦
        let (mm', run, (h', kept)) = create_new-Maps nil in
        (
          mm',
          rw (find-absent hash mm starts rows key h room.keyed nil, ◌>>=◌) run,
          ((added_row key mm.rows.record_count starts, h'), kept),
        )
    | inr (i, is, filled) ↦
        let (a, editable, read) = find-present hash mm starts rows key i is h room.keyed filled in
        let (mm', run, (h', kept)) = add_to_list-Maps a i is filled editable read in
        (
          mm',
          rw (editable.found, ◌>>=◌) run,
          ((added_row key mm.rows.record_count starts, h'), kept),
        )
  ]
