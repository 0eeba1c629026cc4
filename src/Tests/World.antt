-- ===== src/Tests/World.antt =====
-- An operating system whose calls succeed, a hash, and small files and tables.
use bitprim_database.Prelude.{◌+◌, ◌-◌, ◌*◌, ◌/◌, ◌^◌, refl, true, false, [], ◌∷◌, arith}
use bitprim_database.Bytes.{read_bytes}
use bitprim_database.MemoryMap.{Os, MemoryMap}
use bitprim_database.MemoryMap.Growth.{Works, IsLive}
use bitprim_database.MemoryMap.Lifecycle.{Serves, IsShut}
use bitprim_database.RecordManager.{RecordManager}
use bitprim_database.RecordManager.Allocation.{IsReady}
use bitprim_database.SlabManager.{SlabManager}
use bitprim_database.SlabManager.Allocation as Slabs
use bitprim_database.Buckets.{Hash}
use bitprim_database.Buckets.Contents.{stack}
use bitprim_database.RecordHashTable.{RecordHashTable}
use bitprim_database.RecordHashTable.Invariant.{IsRecordTable, Models}
use bitprim_database.SlabHashTable.{SlabHashTable}
use bitprim_database.SlabHashTable.Invariant.{IsSlabTable, Represents}
use bitprim_database.HashTableHeader.{item_position}
use bitprim_database.Tests.Little.{little}

abbrev pub os : Os
os = record {
  has_mremap = true;
  mmap_succeeds = λ size. true;
  mremap_succeeds = λ old new. true;
  munmap_succeeds = true;
  madvise_succeeds = true;
  msync_succeeds = true;
  ftruncate_succeeds = λ size. true;
  fsync_succeeds = true;
  close_succeeds = true;
  expand = λ size expansion. size + size * expansion / 100;
}

pub works : Works os
works = record {
  mmap = λ n. refl;
  mremap = λ m n. refl;
  munmap = refl;
  ftruncate = λ n. refl;
  expand = λ n e h. omega arith;
}

pub serves : Serves os
serves = record { works = works; madvise = refl; msync = refl; fsync = refl; closes = refl }

-- The sum of the bytes.
abbrev pub sum : Hash
sum [] = 0
sum (b ∷ bs) = b + sum bs

-- A file whose bytes are all 255, as behind a new header.
abbrev pub live_file : MemoryMap
live_file = record {
  bytes = λ a. 255;
  mapped = true;
  file_size = 100;
  logical_size = 100;
  disk_size = 100;
  closed = false;
  expansion = 50;
}

abbrev pub shut_file : MemoryMap
shut_file = record live_file { mapped = false; closed = true }

pub live_file-IsLive : IsLive live_file
live_file-IsLive = record { opened = refl; mapped = refl; sized = refl }

pub shut_file-IsShut : IsShut shut_file
shut_file-IsShut = record { closed = refl; sized = refl; filled = omega arith }

abbrev pub records : RecordManager
records = record { file = live_file; header_size = 12; record_count = 0; record_size = 76 }

pub records-IsReady : IsReady records
records-IsReady = record { live = live_file-IsLive; holds = omega arith; countable = omega arith }

-- Two buckets of records with keys and values of 36 bytes.
abbrev pub record_table : RecordHashTable
record_table = record { key_size = 36; buckets = 2; manager = records }

pub record_table-IsRecordTable : IsRecordTable sum record_table (λ i. [])
unfolding read_bytes item_position
record_table-IsRecordTable = record {
  ready = records-IsReady;
  exact = omega arith;
  table = record {
    buckets_pos = omega arith;
    header = record { mapped = refl; within = omega arith };
    above = omega arith;
    heads = λ i l. rw (little.to_le_ones 4 (2 ^ 32 - 1) refl);
    chains = λ i l. tt;
    homes = λ i l. tt;
    apart = λ i j l l' ne. tt;
  };
}

pub record_table-Models : Models sum record_table (λ key. [])
unfolding stack
record_table-Models = (λ i. [], record_table-IsRecordTable, λ key. refl)

abbrev pub slabs : SlabManager
slabs = record { file = live_file; header_size = 20; payload_size = 8 }

pub slabs-IsReady : Slabs.IsReady slabs
slabs-IsReady = record { live = live_file-IsLive; holds = omega arith; sized = omega arith }

abbrev pub slab_table : SlabHashTable
slab_table = record { key_size = 36; buckets = 2; manager = slabs }

pub slab_table-IsSlabTable : IsSlabTable sum slab_table (λ i. [])
unfolding read_bytes item_position
slab_table-IsSlabTable = record {
  ready = slabs-IsReady;
  exact = omega arith;
  table = record {
    buckets_pos = omega arith;
    header = record { mapped = refl; within = omega arith };
    above = omega arith;
    heads = λ i l. rw (little.to_le_ones 8 (2 ^ 64 - 1) refl);
    chains = λ i l. tt;
    homes = λ i l. tt;
    apart = λ i j l l' ne. tt;
  };
}

pub slab_table-Represents : Represents sum slab_table (λ key. [])
unfolding stack
slab_table-Represents = (λ i. [], slab_table-IsSlabTable, λ key. refl)
