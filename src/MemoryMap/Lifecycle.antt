-- ===== src/MemoryMap/Lifecycle.antt =====
-- Opening and closing the map of src/memory/memory_map.cpp, and what reaches the disk.
use bitprim_database.Prelude.{
  ℕ, ◌<◌, ◌≤◌, ◌≡◌, true, false, arith, ne→==, ltb, lt→ltb, refl, if◌then◌else◌,
}
use bitprim_database.MemoryMap.{Os, MemoryMap, map, validate, truncate, open_map, close}
use bitprim_database.MemoryMap.Growth.{Works, IsLive}

-- All calls of opening and closing succeed.
pub record Serves (os : Os) : Type 0 where
  pub works : Works os
  pub madvise : os.madvise_succeeds ≡ true
  pub msync : os.msync_succeeds ≡ true
  pub fsync : os.fsync_succeeds ≡ true
  pub closes : os.close_succeeds ≡ true

-- A file that is not open, and that is as long as its map will be.
pub record IsShut (f : MemoryMap) : Type 0 where
  pub closed : f.closed ≡ true
  pub sized : f.file_size ≡ f.disk_size
  pub filled : 0 < f.file_size

-- Opening a file that is shut and not empty succeeds where the system calls do. The map is then
-- open and as long as the file, whose length and bytes are as they were.
pub open_map-IsLive :
    {os : Os} {f : MemoryMap}
    → Serves os
    → IsShut f
    → ((open_map os f).0 ≡ true)
      × IsLive (open_map os f).1
      × ((open_map os f).1.disk_size ≡ f.disk_size)
      × ((a : ℕ) → (open_map os f).1.bytes a ≡ f.bytes a)
unfolding open_map map validate
open_map-IsLive {os} {f} s shut =
    ground (arith, ne→== f.file_size 0, s.works.mmap f.file_size, s.madvise)

-- The file that a close without failures leaves.
abbrev shut : MemoryMap → MemoryMap
shut f = record f {
  bytes = λ a. if ltb a f.disk_size then f.bytes a else 0;
  mapped = false;
  disk_size = f.logical_size;
  closed = true;
}

close-done : {os : Os} {f : MemoryMap} → Serves os → IsLive f → close os f ≡ (true, shut f)
unfolding close truncate
close-done {os} {f} s live =
    ground (arith, s.works.munmap, s.works.ftruncate f.logical_size, s.msync, s.fsync, s.closes)

-- Closing an open file whose logical size is within it succeeds where the system calls do. The map
-- is then closed and unmapped, the file is cut to the logical size and keeps its bytes below that,
-- and to close it again succeeds and changes nothing.
pub close_persists :
    {os : Os} {f : MemoryMap}
    → Serves os
    → IsLive f
    → f.logical_size ≤ f.file_size
    → let (done, g) = close os f in
      (done ≡ true)
      × (g.closed ≡ true)
      × (g.mapped ≡ false)
      × (g.disk_size ≡ f.logical_size)
      × ((a : ℕ) → a < g.disk_size → g.bytes a ≡ f.bytes a)
      × (close os g ≡ (true, g))
unfolding close
close_persists {os} {f} s live fits =
    rw (close-done s live)
      (refl, refl, refl, refl, (λ a h. rw (lt→ltb a f.disk_size (omega (arith, live.sized)))), refl)

-- Where `msync` fails, closing an open file reports a failure, and closing it again reports a
-- success.
pub close_fails :
    (os : Os) (f : MemoryMap)
    → f.closed ≡ false
    → os.msync_succeeds ≡ false
    → ((close os f).0 ≡ false) × ((close os (close os f).1).0 ≡ true)
unfolding close
close_fails os f o m = ground arith
