-- ===== src/RecordManager/Persistence.antt =====
-- The record count on disk: `sync` and `start` of src/primitives/record_manager.cpp.
use bitprim_database.Prelude.{ℕ, ◌<◌, ◌≡◌, refl, sym, true, arith, le→leb, length}
use bitprim_database.Run.{ok, ◌>>=◌, Returns}
use bitprim_database.Endian.{Endian, to_le, file_offset_bound}
use bitprim_database.MemoryMap.Access.{written, load-Reads, save-ok, written-Reads}
use bitprim_database.RecordManager.{RecordManager, read_count, write_count, start, sync}
use bitprim_database.RecordManager.Positions.{extent, end_of-extent}
use bitprim_database.RecordManager.Allocation.{IsReady}

module _ ⦃en : Endian⦄ where
  -- `sync` of a ready manager returns and keeps its count, and a manager over the same file,
  -- whatever its count, that is then started succeeds with that count.
  pub start-sync :
      (m : RecordManager) (stale : ℕ)
      → IsReady m
      → extent m m.record_count < file_offset_bound
      → Returns (sync m) (λ m'.
        (m'.record_count ≡ m.record_count)
        × (start (record m' { record_count = stale }) ≡ ok (true, m')))
  unfolding sync start write_count read_count
  start-sync m stale ready small =
      let bs = to_le 4 m.record_count in
      let wide : length bs ≡ 4 = en.length-to_le 4 m.record_count in
      let f = written m.file m.header_size bs in
      (
        record m { file = f },
        rw (
            save-ok m.file m.header_size bs
              (record { mapped = ready.live.mapped; within = omega (arith, ready.holds) })),
        (
          refl,
          rw (
            load-Reads f m.header_size bs (sym wide)
                (record { mapped = ready.live.mapped; within = omega (arith, ready.holds) })
                (written-Reads m.file m.header_size bs),
            ◌>>=◌,
            en.from_le-to_le 4 m.record_count ready.countable,
            end_of-extent (record m { file = f }) m.record_count small,
            le→leb _ _ ready.holds,
          ),
        ),
      )
