-- ===== src/HistoryDatabase/Addresses.antt =====
-- The payments of each address in src/databases/history_database.cpp.
use mathlib.Core.Path.{subst}
use bitprim_database.Prelude.{
  ℕ, zero, suc, ◌-◌, ◌≡◌, ◌∙◌, refl, sym, ap, inl, inr, List, [], ◌∷◌, arith, lt→ltb, ne→==,
  Bool-cases, is_some, length, All, Bytes, bytes_eq,
}
use bitprim_database.Run.{ok, ◌>>=◌, Returns}
use bitprim_database.Endian.{Endian, array_index_bound}
use bitprim_database.MemoryMap.{Os}
use bitprim_database.MemoryMap.Growth.{Works}
use bitprim_database.Buckets.{Hash}
use bitprim_database.Buckets.Contents.{top}
use bitprim_database.RecordMultimap.Rows.{Chained, length-lt, Holds, lookup-first}
use bitprim_database.RecordMultimap.Adding.{HasRoomFor, added_row, add_row-Holds}
use bitprim_database.RecordMultimap.Deleting.{tail, removed_row, delete_last_row-Holds}
use bitprim_database.HistoryDatabase.{
  HistoryCompact, HistoryDatabase, serialize, get, add_row, delete_last_row,
}
use bitprim_database.HistoryDatabase.Payments.{
  IsSized, since, limited, serialized, remaining, get_loop-remaining,
}

remaining-limited :
    (limit from_height : ℕ) (xs : List HistoryCompact)
    → remaining limit from_height 0 xs ≡ limited limit (since from_height xs)
remaining-limited zero from_height xs = refl
remaining-limited (suc n) from_height xs =
    let e : suc n - 0 ≡ suc n = omega arith in rw (ne→== (suc n) 0 (omega arith), e)

module _ ⦃en : Endian⦄ (hash : Hash) where
  -- The payments of each address, the latest first.
  pub record Pays (db : HistoryDatabase) (payments : Bytes → List HistoryCompact) : Type 0 where
    pub keyed : db.multimap.table.key_size ≡ 20
    pub holds : Holds hash db.multimap (λ q. serialized (payments q))
    pub sized : (q : Bytes) → All IsSized (payments q)

  Holds-congr :
      (db : HistoryDatabase) {rows rows' : Bytes → List Bytes}
      → Holds hash db.multimap rows
      → ((q : Bytes) → rows q ≡ rows' q)
      → Holds hash db.multimap rows'
  Holds-congr db (starts, h) same = (
    starts,
    record {
      models = h.models;
      listed = h.listed;
      chained = λ q. subst (Chained db.multimap.rows (starts q)) (same q) (h.chained q);
    },
  )

  -- `get` of an address, in a database that holds the payments of each, returns its payments at the
  -- height or above, the latest first, and no more of them than the limit, if that is not 0.
  pub get-limited :
      (db : HistoryDatabase) (payments : Bytes → List HistoryCompact) (key : Bytes)
      (limit from_height : ℕ)
      → Pays db payments
      → length key ≡ 20
      → get hash key limit from_height db ≡ ok (limited limit (since from_height (payments key)))
  unfolding get
  get-limited db payments key limit from_height h k =
      let (starts, maps) = h.holds in
      let m = db.multimap.rows in
      rw
        (
          lookup-first hash db.multimap starts (λ q. serialized (payments q)) key maps
              (k ∙ sym h.keyed),
          ◌>>=◌,
        )
        (get_loop-remaining limit from_height m (suc m.record_count) 0 (starts key) (payments key)
            maps.listed (maps.chained key) (h.sized key)
            (length-lt m (starts key) (serialized (payments key)) (maps.chained key))
          ∙ ap ok (remaining-limited limit from_height (payments key)))

  -- `add_output` and `add_input`, by the row that they write.
  pub add_row-Pays :
      {lookup_os rows_os : Os} (db : HistoryDatabase) (payments : Bytes → List HistoryCompact)
      (key : Bytes) (x : HistoryCompact)
      → Works lookup_os
      → Works rows_os
      → Pays db payments
      → IsSized x
      → HasRoomFor key (serialize x) db.multimap
      → Returns
          (add_row hash lookup_os rows_os key x db)
          (λ db'. Pays db' (added_row key x payments))
  unfolding add_row
  add_row-Pays db payments key x works works' h s room =
      let (starts, maps) = h.holds in
      let (mm, run, (holds, kept)) =
        add_row-Holds hash works works' db.multimap starts (λ q. serialized (payments q)) key
          (serialize x) maps room in
      let db' : HistoryDatabase = record db { multimap = mm } in
      (
        db',
        rw (lt→ltb x.height array_index_bound s.height, run),
        record {
          keyed = kept ∙ h.keyed;
          holds =
              Holds-congr db' holds (λ q. elim (Bool-cases (bytes_eq q key)) [
                | inl own ↦ rw own
                | inr other ↦ rw other
              ]);
          sized = λ q. elim (Bool-cases (bytes_eq q key)) [
            | inl own ↦ rw own (s, h.sized q)
            | inr other ↦ rw other (h.sized q)
          ];
        },
      )

  serialized-tail : (xs : List HistoryCompact) → tail (serialized xs) ≡ serialized (tail xs)
  serialized-tail [] = refl
  serialized-tail (x ∷ xs) = refl

  All-tail : (xs : List HistoryCompact) → All IsSized xs → All IsSized (tail xs)
  All-tail [] a = tt
  All-tail (x ∷ xs) a = a.1

  -- `delete_last_row` of an address returns whether it has payments, and takes its latest one away.
  pub delete_last_row-Pays :
      (db : HistoryDatabase) (payments : Bytes → List HistoryCompact) (key : Bytes)
      → Pays db payments
      → length key ≡ 20
      → Returns (delete_last_row hash key db) (λ r.
        (r.0 ≡ is_some (top (serialized (payments key)))) × Pays r.1 (removed_row key payments))
  unfolding delete_last_row
  delete_last_row-Pays db payments key h k =
      let (starts, maps) = h.holds in
      let ((done, mm), run, (found, holds, kept)) =
        delete_last_row-Holds hash db.multimap starts (λ q. serialized (payments q)) key maps
          (k ∙ sym h.keyed) in
      let db' : HistoryDatabase = record db { multimap = mm } in
      (
        (done, db'),
        rw (run, ◌>>=◌),
        (
          found,
          record {
            keyed = kept ∙ h.keyed;
            holds = Holds-congr db' holds (λ q. elim (Bool-cases (bytes_eq q key)) [
              | inl own ↦ rw own (serialized-tail (payments q))
              | inr other ↦ rw other
            ]);
            sized = λ q. elim (Bool-cases (bytes_eq q key)) [
              | inl own ↦ rw own (All-tail (payments q) (h.sized q))
              | inr other ↦ rw other (h.sized q)
            ];
          },
        ),
      )
