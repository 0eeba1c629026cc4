-- ===== src/SlabManager/Creation.antt =====
-- `create` of src/primitives/slab_manager.cpp.
use bitprim_database.Prelude.{
  ℕ, ◌+◌, ◌%◌, ◌≤◌, ◌<◌, ◌≡◌, ◌∙◌, sym, eq→==, le→leb, inl, true, arith, length, Bytes,
}
use bitprim_database.Run.{ok, ◌>>=◌}
use bitprim_database.Bytes.{read_bytes_congr}
use bitprim_database.Endian.{Endian, to_le, file_offset_bound}
use bitprim_database.MemoryMap.{Os, MemoryMap, resize}
use bitprim_database.MemoryMap.Growth.{Works, IsLive, reserve_by-Grew, max_exact}
use bitprim_database.MemoryMap.Access.{
  Reads, written, load-Reads, save-ok, written-Reads, written_apart,
}
use bitprim_database.SlabManager.{SlabManager, create, start, read_size, write_size}
use bitprim_database.SlabManager.Allocation.{IsReady}

module _ ⦃en : Endian⦄ where
  -- The file `g` in place of that of the manager `m`, ready, with its payload size on disk and with
  -- the old bytes of the header.
  pub record IsFresh (m : SlabManager) (g : MemoryMap) : Type 0 where
    pub ready : IsReady (record m { file = g })
    pub sized : Reads g m.header_size (to_le 8 m.payload_size)
    pub kept :
        (a : ℕ) (bs : Bytes)
        → a + length bs ≤ m.header_size
        → a + length bs ≤ m.file.file_size
        → Reads m.file a bs
        → Reads g a bs

  -- `create` of a slab manager with a payload of only its size, on an open file, returns true where
  -- the system calls succeed and the header's end is exact as a double. The manager is then ready,
  -- its payload size stands in the file, and what the header held within the file is still read.
  pub create_slabs-IsFresh :
      {os : Os} (m : SlabManager)
      → Works os
      → IsLive m.file
      → m.payload_size ≡ 8
      → m.header_size + 8 ≤ max_exact
      → (g : MemoryMap) × (create os m ≡ ok (true, record m { file = g })) × IsFresh m g
  unfolding create resize write_size
  create_slabs-IsFresh {os} m works live none room =
      let (g, run, grew) = reserve_by-Grew works live (m.header_size + 8) 0 room in
      let bs = to_le 8 m.payload_size in
      let wide : length bs ≡ 8 = en.length-to_le 8 m.payload_size in
      let f = written g m.header_size bs in
      let end : (m.header_size + m.payload_size) % file_offset_bound ≡ m.header_size + 8 =
        omega (arith, none) in
      (
        f,
        rw (
          eq→== m.payload_size 8 none,
          end,
          run,
          ◌>>=◌,
          save-ok g m.header_size bs
              (record { mapped = grew.live.mapped; within = omega (arith, wide, grew.room) }),
        ),
        record {
          ready = record {
            live = record {
              opened = grew.live.opened;
              mapped = grew.live.mapped;
              sized = grew.live.sized;
            };
            holds = omega (arith, none, grew.room);
            sized = omega (arith, none);
          };
          sized = written-Reads g m.header_size bs;
          kept = λ a cs l s r. written_apart g m.header_size bs a cs (inl l) (
              read_bytes_congr m.file.bytes g.bytes a (length cs)
                (λ x p q. grew.kept x (omega arith))
              ∙ r);
        },
      )

  -- `start` of a slab manager over a file that is ready for it and in which its payload size stands,
  -- whatever the size that the manager has before, returns true with the size of the file.
  pub start_slabs-sized :
      (m : SlabManager) (stale : ℕ)
      → IsReady m
      → m.header_size + m.payload_size < file_offset_bound
      → Reads m.file m.header_size (to_le 8 m.payload_size)
      → start (record m { payload_size = stale }) ≡ ok (true, m)
  unfolding start read_size
  start_slabs-sized m stale ready small r =
      let bs = to_le 8 m.payload_size in
      let wide : length bs ≡ 8 = en.length-to_le 8 m.payload_size in
      let wrap : (m.header_size + m.payload_size) % file_offset_bound
          ≡ m.header_size + m.payload_size =
        omega arith in
      rw (
        load-Reads m.file m.header_size bs (sym wide)
            (record {
              mapped = ready.live.mapped;
              within = omega (arith, ready.holds, ready.sized);
            })
            r,
        ◌>>=◌,
        en.from_le-to_le 8 m.payload_size (omega arith),
        wrap,
        le→leb _ _ ready.holds,
      )
