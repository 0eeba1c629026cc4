-- ===== src/RecordList/Linked.antt =====
-- The linked lists of src/primitives/record_list.cpp, and the iterator over them.
use bitprim_database.Prelude.{
  ℕ, zero, suc, ◌+◌, ◌*◌, ◌≤◌, ◌<◌, ◌^◌, ◌≡◌, ◌∙◌, refl, sym, inl, List, [], ◌∷◌, arith, ne→==,
  length,
}
use bitprim_database.Run.{ok, ◌>>=◌, Returns}
use bitprim_database.Bytes.{read_bytes_congr, write_bytes_outside}
use bitprim_database.Endian.{Endian, to_le}
use bitprim_database.MemoryMap.{Os, MemoryMap}
use bitprim_database.MemoryMap.Growth.{Works, max_exact}
use bitprim_database.MemoryMap.Access.{Reads, written, load-Reads, save-ok, written-Reads}
use bitprim_database.RecordManager.{RecordManager}
use bitprim_database.RecordManager.Positions.{extent, get-extent}
use bitprim_database.RecordManager.Allocation.{IsReady, HasRoom, added, new_records-added}
use bitprim_database.RecordList.{empty, insert, create, next, iterate}

module _ ⦃en : Endian⦄ where
  -- The first of the indexes, or the empty index.
  abbrev pub first : List ℕ → ℕ
  first [] = empty
  first (i ∷ is) = i

  -- The counted records `is`, each with the index of the one after it.
  abbrev pub Linked : RecordManager → List ℕ → Type 0
  Linked m [] = Unit
  Linked m (i ∷ is) =
      (i < m.record_count) × Reads m.file (extent m i) (to_le 4 (first is)) × Linked m is

  -- Managers with records that hold a link, whose sizes are exact.
  pub record IsListed (m : RecordManager) : Type 0 where
    pub ready : IsReady m
    pub wide : 4 ≤ m.record_size
    pub exact : extent m m.record_count ≤ max_exact

  below : (i n size : ℕ) → i < n → 4 ≤ size → i * size + 4 ≤ n * size
  below i n size h w = grind arith

  first-lt : (m : RecordManager) (is : List ℕ) → IsListed m → Linked m is → first is < 2 ^ 32
  first-lt m [] h l = omega arith
  first-lt m (i ∷ is) h (c, r, l) = omega (arith, c, h.ready.countable)

  -- The links stay when the counted bytes do.
  Linked-congr :
      (m : RecordManager) (f : MemoryMap) (n : ℕ) (is : List ℕ)
      → 4 ≤ m.record_size
      → m.record_count ≤ n
      → ((a : ℕ) → a < extent m m.record_count → f.bytes a ≡ m.file.bytes a)
      → Linked m is
      → Linked (record m { file = f; record_count = n }) is
  Linked-congr m f n [] w g same l = tt
  Linked-congr m f n (i ∷ is) w g same (c, r, l) = (
    omega (arith, c),
    read_bytes_congr m.file.bytes f.bytes (extent m i) (length (to_le 4 (first is))) (λ x p q.
          same x (
            omega
              (arith, en.length-to_le 4 (first is), q, below i m.record_count m.record_size c w)))
        ∙ r,
    Linked-congr m f n is w g same l,
  )

  -- Iterating from the first record of a list gives its records in order and ends, with any fuel
  -- larger than their number.
  pub iterate-Linked :
      (m : RecordManager) (is : List ℕ) (fuel : ℕ)
      → IsListed m
      → Linked m is
      → length is < fuel
      → iterate m fuel (first is) ≡ ok is
  unfolding iterate next
  iterate-Linked m [] zero h l b = absurd (omega (arith, b))
  iterate-Linked m [] (suc fuel) h l b = refl
  iterate-Linked m (i ∷ is) zero h l b = absurd (omega (arith, b))
  iterate-Linked m (i ∷ is) (suc fuel) h (c, r, l) b =
      let inside = below i m.record_count m.record_size c h.wide in
      rw (
        ne→== i empty (omega (arith, c, h.ready.countable)),
        get-extent m i (omega (arith, inside, h.exact)),
        load-Reads m.file (extent m i) (to_le 4 (first is)) (sym (en.length-to_le 4 (first is)))
            (record { mapped = h.ready.live.mapped; within = omega (arith, inside, h.ready.holds) })
            r,
        ◌>>=◌,
        en.from_le-to_le 4 (first is) (first-lt m is h l),
        iterate-Linked m is fuel h l (omega (arith, b)),
      )

  -- `insert` before the first record of a list, in a ready manager with room where the system calls
  -- succeed, returns the next index of the manager, which then is linked before the list; every
  -- list of the manager stays as it was.
  pub insert-Linked :
      {os : Os} (m : RecordManager) (is : List ℕ)
      → Works os
      → IsListed m
      → HasRoom 1 m
      → Linked m is
      → Returns (insert os (first is) m) (λ r.
        (r.0 ≡ m.record_count)
        × IsListed r.1
        × Linked r.1 (m.record_count ∷ is)
        × ((js : List ℕ) → Linked m js → Linked r.1 js))
  unfolding insert
  insert-Linked {os} m is works h room l =
      let (f, run, grew) = new_records-added m 1 works h.ready room in
      let bs = to_le 4 (first is) in
      let wide : length bs ≡ 4 = en.length-to_le 4 (first is) in
      let at_end = extent m m.record_count in
      let fits = below m.record_count (m.record_count + 1) m.record_size (omega arith) h.wide in
      let g = written f at_end bs in
      let same = λ (a : ℕ) (l' : a < at_end).
        write_bytes_outside f.bytes at_end bs a (inl l')
        ∙ grew.kept a (omega (arith, l', h.ready.holds)) in
      let old =
        λ (js : List ℕ). Linked-congr m g (m.record_count + 1) js h.wide (omega arith) same in
      (
        (m.record_count, record m { file = g; record_count = m.record_count + 1 }),
        rw (
          run,
          ◌>>=◌,
          get-extent (added 1 f m) m.record_count (omega (arith, h.exact)),
          save-ok f at_end bs
              (record { mapped = grew.live.mapped; within = omega (arith, wide, fits, grew.room) }),
        ),
        (
          refl,
          record {
            ready = record {
              live = record {
                opened = grew.live.opened;
                mapped = grew.live.mapped;
                sized = grew.live.sized;
              };
              holds = grew.room;
              countable = room.indexes;
            };
            wide = h.wide;
            exact = room.exact;
          },
          (omega arith, written-Reads f at_end bs, old is l),
          old,
        ),
      )

  -- `create` in a ready manager with room, where the system calls succeed, returns the index of a
  -- record that is a list of its own.
  pub create-Linked :
      {os : Os} (m : RecordManager)
      → Works os
      → IsListed m
      → HasRoom 1 m
      → Returns (create os m) (λ r. IsListed r.1 × Linked r.1 (r.0 ∷ []))
  unfolding create
  create-Linked m works h room =
      let ((new, m'), run, (e, h', l, old)) = insert-Linked m [] works h room tt in
      ((new, m'), run, (h', rw e l))
