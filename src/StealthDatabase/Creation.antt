-- ===== src/StealthDatabase/Creation.antt =====
-- `create` of src/databases/stealth_database.cpp.
use bitprim_database.Prelude.{◌≡◌, refl, true, [], arith}
use bitprim_database.Run.{◌>>=◌, Returns}
use bitprim_database.Endian.{Endian}
use bitprim_database.MemoryMap.{Os, MemoryMap, resize}
use bitprim_database.MemoryMap.Growth.{reserve_by-Grew}
use bitprim_database.MemoryMap.Lifecycle.{Serves, IsShut, open_map-IsLive}
use bitprim_database.RecordManager.{RecordManager, record_manager, minimum_records_size}
use bitprim_database.RecordManager.Creation.{create-IsFresh, start-counts}
use bitprim_database.StealthDatabase.{stealth_database, create, row_size, rows_header_size}
use bitprim_database.StealthDatabase.Rows.{Lists}

-- `create` of a stealth database over a file that is shut and not empty returns true where the
-- system calls succeed, and leaves a started database of no rows.
pub create-Lists :
    ⦃en : Endian⦄ {os : Os} (file : MemoryMap)
    → Serves os
    → IsShut file
    → Returns (create os (stealth_database file)) (λ r. (r.0 ≡ true) × Lists r.1 [])
unfolding create stealth_database record_manager resize
create-Lists {os} file serves shut =
    let (opened, live, disk, same) = open_map-IsLive serves shut in
    let (g, run, grew) = reserve_by-Grew serves.works live minimum_records_size 0 (omega arith) in
    let m : RecordManager = record_manager g rows_header_size row_size in
    let (g', run', fresh) = create-IsFresh m serves.works grew.live refl (omega arith) in
    let m' : RecordManager = record m { file = g' } in
    (
      (true, record { rows_manager = m' }),
      rw (opened, run, ◌>>=◌, run', start-counts m' 0 fresh.ready (omega arith) fresh.counted),
      (
        refl,
        record {
          ready = fresh.ready;
          sized = refl;
          counted = refl;
          exact = omega arith;
          rows = tt;
        },
      ),
    )
