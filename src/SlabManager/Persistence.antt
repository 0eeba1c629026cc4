-- ===== src/SlabManager/Persistence.antt =====
-- The payload size on disk: `sync` and `start` of src/primitives/slab_manager.cpp.
use bitprim_database.Prelude.{ℕ, ◌+◌, ◌<◌, ◌≡◌, refl, true, arith, length}
use bitprim_database.Run.{ok, Returns}
use bitprim_database.Endian.{Endian, to_le, file_offset_bound}
use bitprim_database.MemoryMap.Access.{written, save-ok, written-Reads}
use bitprim_database.SlabManager.{SlabManager, write_size, start, sync}
use bitprim_database.SlabManager.Allocation.{IsReady}
use bitprim_database.SlabManager.Creation.{start_slabs-sized}

module _ ⦃en : Endian⦄ where
  -- `sync` of a ready slab manager returns and keeps its payload size, and a manager over the same
  -- file, whatever its size, that is then started succeeds with that size.
  pub start-sync_payload :
      (m : SlabManager) (stale : ℕ)
      → IsReady m
      → m.header_size + m.payload_size < file_offset_bound
      → Returns (sync m) (λ m'.
        (m'.payload_size ≡ m.payload_size)
        × (start (record m' { payload_size = stale }) ≡ ok (true, m')))
  unfolding sync write_size
  start-sync_payload m stale ready small =
      let bs = to_le 8 m.payload_size in
      let wide : length bs ≡ 8 = en.length-to_le 8 m.payload_size in
      let f = written m.file m.header_size bs in
      (
        record m { file = f },
        rw (
            save-ok m.file m.header_size bs (record {
              mapped = ready.live.mapped;
              within = omega (arith, ready.holds, ready.sized);
            })),
        (
          refl,
          start_slabs-sized (record m { file = f }) stale
              (record {
                live = record {
                  opened = ready.live.opened;
                  mapped = ready.live.mapped;
                  sized = ready.live.sized;
                };
                holds = ready.holds;
                sized = ready.sized;
              })
              small (written-Reads m.file m.header_size bs),
        ),
      )
