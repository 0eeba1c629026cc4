-- ===== src/StealthDatabase/Storing.antt =====
-- `store` of src/databases/stealth_database.cpp.
use mathlib.Core.Path.{subst}
use bitprim_database.Prelude.{
  ℕ, ◌+◌, ◌<◌, ◌≡◌, ◌∙◌, inl, List, [], ◌∷◌, ◌++◌, arith, length, length-append,
}
use bitprim_database.Run.{◌>>=◌, Returns}
use bitprim_database.Bytes.{read_bytes_congr, write_bytes_outside}
use bitprim_database.Endian.{Endian}
use bitprim_database.MemoryMap.{Os, MemoryMap}
use bitprim_database.MemoryMap.Growth.{Works}
use bitprim_database.MemoryMap.Access.{Reads, written, save-ok, written-Reads}
use bitprim_database.RecordManager.{RecordManager}
use bitprim_database.RecordManager.Positions.{extent, get-extent}
use bitprim_database.RecordManager.Allocation.{HasRoom, added, new_records-added}
use bitprim_database.StealthDatabase.{StealthDatabase, row_size, store}
use bitprim_database.StealthDatabase.Rows.{
  StealthRow, IsSized, step, bytes_of, length-serialize, Stored, Lists,
}

module _ ⦃en : Endian⦄ where
  -- Rows stay when the bytes of the records do, and a row may follow them.
  Stored-last :
      (m : RecordManager) (g : MemoryMap) (n i : ℕ) (xs : List StealthRow) (x : StealthRow)
      → m.record_size ≡ row_size
      → i + length xs ≡ m.record_count
      → ((a : ℕ) → a < extent m m.record_count → g.bytes a ≡ m.file.bytes a)
      → IsSized x
      → Reads g (extent m m.record_count) (bytes_of x)
      → Stored m i xs
      → Stored (record m { file = g; record_count = n }) i (xs ++ (x ∷ []))
  Stored-last m g n i [] x size count same s r st =
      let e : m.record_count ≡ i = omega (arith, count) in
      (s, subst (λ k. Reads g (extent m k) (bytes_of x)) e r, tt)
  Stored-last m g n i (y ∷ ys) x size count same s r (s', r', st) =
      let inside = step i m.record_count m.record_size (omega (arith, count)) in
      (
        s',
        read_bytes_congr m.file.bytes g.bytes (extent m i) (length (bytes_of y))
              (λ a p q. same a (omega (arith, q, length-serialize y s', inside, size)))
            ∙ r',
        Stored-last m g n (i + 1) ys x size (omega (arith, count)) same s r st,
      )

  -- `store` of a row with fields of the sizes of the format, in a stealth database that holds a
  -- list of rows, returns where the system calls succeed and there is room for a record. The
  -- database then holds the list with the row at its end.
  pub store-Lists :
      {os : Os} (db : StealthDatabase) (xs : List StealthRow) (x : StealthRow)
      → Works os
      → Lists db xs
      → IsSized x
      → HasRoom 1 db.rows_manager
      → Returns (store os x.prefix x.height x.compact db) (λ db'. Lists db' (xs ++ (x ∷ [])))
  unfolding store
  store-Lists {os} db xs x works h s room =
      let m = db.rows_manager in
      let (f, run, grew) = new_records-added m 1 works h.ready room in
      let end = extent m m.record_count in
      let g = written f end (bytes_of x) in
      let long = length-serialize x s in
      let fits = step m.record_count (m.record_count + 1) m.record_size (omega arith) in
      (
        record { rows_manager = record m { file = g; record_count = m.record_count + 1 } },
        rw (
          run,
          ◌>>=◌,
          get-extent (added 1 f m) m.record_count (omega (arith, h.exact)),
          save-ok f end (bytes_of x) (record {
            mapped = grew.live.mapped;
            within = omega (arith, long, fits, h.sized, grew.room);
          }),
        ),
        record {
          ready = record {
            live = record {
              opened = grew.live.opened;
              mapped = grew.live.mapped;
              sized = grew.live.sized;
            };
            holds = grew.room;
            countable = room.indexes;
          };
          sized = h.sized;
          counted = omega (arith, h.counted, length-append xs (x ∷ []));
          exact = room.exact;
          rows =
              Stored-last m g (m.record_count + 1) 0 xs x h.sized (omega (arith, h.counted))
                (λ a l.
                  write_bytes_outside f.bytes end (bytes_of x) a (inl l)
                  ∙ grew.kept a (omega (arith, l, h.ready.holds)))
                s (written-Reads f end (bytes_of x)) h.rows;
        },
      )
