-- ===== src/RecordManager/Creation.antt =====
-- `create` of src/primitives/record_manager.cpp.
use bitprim_database.Prelude.{
  ℕ, ◌+◌, ◌≤◌, ◌<◌, ◌≡◌, ◌∙◌, ap, eq→==, sym, inl, true, arith, length, le→leb, Bytes,
}
use bitprim_database.Run.{ok, ◌>>=◌}
use bitprim_database.Bytes.{read_bytes_congr}
use bitprim_database.Endian.{Endian, to_le, file_offset_bound}
use bitprim_database.MemoryMap.{Os, MemoryMap, resize}
use bitprim_database.MemoryMap.Growth.{Works, IsLive, reserve_by-Grew, max_exact}
use bitprim_database.MemoryMap.Access.{
  Reads, written, load-Reads, save-ok, written-Reads, written_apart,
}
use bitprim_database.RecordManager.{RecordManager, create, end_of, start, read_count, write_count}
use bitprim_database.RecordManager.Positions.{extent, end_of-extent}
use bitprim_database.RecordManager.Allocation.{IsReady}

module _ ⦃en : Endian⦄ where
  -- The file `g` in place of that of the manager `m`, ready, with its count on disk and with the
  -- old bytes of the header.
  pub record IsFresh (m : RecordManager) (g : MemoryMap) : Type 0 where
    pub ready : IsReady (record m { file = g })
    pub counted : Reads g m.header_size (to_le 4 m.record_count)
    pub kept :
        (a : ℕ) (bs : Bytes)
        → a + length bs ≤ m.header_size
        → a + length bs ≤ m.file.file_size
        → Reads m.file a bs
        → Reads g a bs
    pub grows : m.file.file_size ≤ g.file_size

  -- `create` of a manager with no records on an open file returns true where the system calls
  -- succeed and the header's end is exact as a double. The manager is then ready, its count stands
  -- in the file, the file is no shorter, and what the header held within the file is still read.
  pub create-IsFresh :
      {os : Os} (m : RecordManager)
      → Works os
      → IsLive m.file
      → m.record_count ≡ 0
      → extent m 0 ≤ max_exact
      → (g : MemoryMap) × (create os m ≡ ok (true, record m { file = g })) × IsFresh m g
  unfolding create resize write_count
  create-IsFresh {os} m works live none room =
      let (g, run, grew) = reserve_by-Grew works live (extent m 0) 0 room in
      let bs = to_le 4 m.record_count in
      let wide : length bs ≡ 4 = en.length-to_le 4 m.record_count in
      let f = written g m.header_size bs in
      let start_end : end_of m m.record_count ≡ extent m 0 =
        ap (end_of m) none ∙ end_of-extent m 0 (omega arith) in
      (
        f,
        rw (
          eq→== m.record_count 0 none,
          start_end,
          run,
          ◌>>=◌,
          save-ok g m.header_size bs
              (record { mapped = grew.live.mapped; within = omega (arith, grew.room) }),
        ),
        record {
          ready = record {
            live = record {
              opened = grew.live.opened;
              mapped = grew.live.mapped;
              sized = grew.live.sized;
            };
            holds = rw none grew.room;
            countable = omega arith;
          };
          counted = written-Reads g m.header_size bs;
          kept = λ a cs l s r. written_apart g m.header_size bs a cs (inl l) (
              read_bytes_congr m.file.bytes g.bytes a (length cs)
                (λ x p q. grew.kept x (omega arith))
              ∙ r);
          grows = grew.grows;
        },
      )

  -- `start` of a manager over a file that is ready for it and in which its count stands, whatever
  -- the count that the manager has before, returns true with the count of the file.
  pub start-counts :
      (m : RecordManager) (stale : ℕ)
      → IsReady m
      → extent m m.record_count < file_offset_bound
      → Reads m.file m.header_size (to_le 4 m.record_count)
      → start (record m { record_count = stale }) ≡ ok (true, m)
  unfolding start read_count
  start-counts m stale ready small r =
      let bs = to_le 4 m.record_count in
      let wide : length bs ≡ 4 = en.length-to_le 4 m.record_count in
      rw (
        load-Reads m.file m.header_size bs (sym wide)
            (record { mapped = ready.live.mapped; within = omega (arith, ready.holds) }) r,
        ◌>>=◌,
        en.from_le-to_le 4 m.record_count ready.countable,
        end_of-extent m m.record_count small,
        le→leb _ _ ready.holds,
      )
