-- ===== src/Tests/Files.antt =====
-- The theorems on maps, managers, headers and record lists at small files.
use bitprim_database.Prelude.{ℕ, ◌<◌, ◌≡◌, refl, true, false, List, [], ◌∷◌, arith}
use bitprim_database.Run.{Returns}
use bitprim_database.MemoryMap.{MemoryMap, reserve_by, close}
use bitprim_database.MemoryMap.Growth.{IsLive, Grew, reserve_by-Grew}
use bitprim_database.MemoryMap.Lifecycle.{close_persists}
use bitprim_database.RecordManager.Allocation.{HasRoom}
use bitprim_database.RecordList as Chained
use bitprim_database.RecordList.Linked.{IsListed, Linked, first, insert-Linked}
use bitprim_database.Tests.Little.{little}
use bitprim_database.Tests.World.{
  os, works, serves, live_file, live_file-IsLive, records, records-IsReady,
}

reserve_by-Grew_example : Returns (reserve_by os 150 50 live_file) (Grew 150 live_file)
reserve_by-Grew_example = reserve_by-Grew works live_file-IsLive 150 50 (omega arith)

-- A file whose last 20 bytes are not used.
abbrev roomy : MemoryMap
roomy = record live_file { logical_size = 80 }

roomy-IsLive : IsLive roomy
roomy-IsLive = record { opened = refl; mapped = refl; sized = refl }

close_persists_example :
    let (done, g) = close os roomy in
    (done ≡ true)
    × (g.closed ≡ true)
    × (g.mapped ≡ false)
    × (g.disk_size ≡ 80)
    × ((a : ℕ) → a < g.disk_size → g.bytes a ≡ roomy.bytes a)
    × (close os g ≡ (true, g))
close_persists_example = close_persists serves roomy-IsLive (omega arith)

room : HasRoom 1 records
room = record { indexes = omega arith; exact = omega arith }

listed : IsListed records
listed = record { ready = records-IsReady; wide = omega arith; exact = omega arith }

insert-Linked_example : Returns (Chained.insert os (first []) records) (λ r.
    (r.0 ≡ 0)
    × IsListed r.1
    × Linked r.1 (0 ∷ [])
    × ((js : List ℕ) → Linked records js → Linked r.1 js))
insert-Linked_example = insert-Linked records [] works listed room tt
