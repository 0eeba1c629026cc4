-- ===== src/Tests/Databases.antt =====
-- Small databases without entries, and an encoding of sizes.
use bitprim_database.Prelude.{◌-◌, ◌^◌, refl, none, [], arith, replicate, Bytes}
use bitprim_database.Bytes.{read_bytes}
use bitprim_database.HashTableHeader.{item_position}
use bitprim_database.RecordManager.{RecordManager}
use bitprim_database.Buckets.Contents.{stack}
use bitprim_database.SlabHashTable.{SlabHashTable}
use bitprim_database.SlabHashTable.Invariant.{IsSlabTable, Represents}
use bitprim_database.RecordHashTable.{RecordHashTable}
use bitprim_database.RecordHashTable.Invariant.{IsRecordTable, Models}
use bitprim_database.RecordMultimap.{RecordMultimap}
use bitprim_database.RecordMultimap.Rows.{Maps}
use bitprim_database.VariableUint.{VariableUint}
use bitprim_database.BlockIndex.Heights.{Indexes}
use bitprim_database.BlockDatabase.{BlockDatabase}
use bitprim_database.BlockDatabase.Blocks.{Keeps}
use bitprim_database.Tests.Little.{little, digits, number, length-digits, number-digits}
use bitprim_database.Tests.World.{sum, live_file, live_file-IsLive, slabs, slabs-IsReady}

-- Every size in nine bytes.
instance abbrev pub nine : VariableUint
nine = record {
  first = λ v. 255;
  others = λ v. digits 8 v;
  following = λ b. 8;
  value = λ b bs. number bs;
  length-others = λ v. length-digits 8 v;
  value-others = λ v h. number-digits 8 v (omega arith);
}

abbrev pub digest : Bytes
digest = replicate 32 1

-- Two buckets of slabs under hashes.
abbrev pub hashed : SlabHashTable
hashed = record { key_size = 32; buckets = 2; manager = slabs }

pub hashed-IsSlabTable : IsSlabTable sum hashed (λ i. [])
unfolding read_bytes item_position
hashed-IsSlabTable = record {
  ready = slabs-IsReady;
  exact = omega arith;
  table = record {
    buckets_pos = omega arith;
    header = record { mapped = refl; within = omega arith };
    above = omega arith;
    heads = λ i l. rw (little.to_le_ones 8 (2 ^ 64 - 1) refl);
    chains = λ i l. tt;
    homes = λ i l. tt;
    apart = λ i j l l' ne. tt;
  };
}

pub hashed-Represents : Represents sum hashed (λ key. [])
unfolding stack
hashed-Represents = (λ i. [], hashed-IsSlabTable, λ key. refl)

abbrev pub index : RecordManager
index = record { file = live_file; header_size = 0; record_count = 0; record_size = 8 }

pub index-Indexes : Indexes index 0 (λ i. 0)
index-Indexes = record {
  ready = record { live = live_file-IsLive; holds = omega arith; countable = omega arith };
  sized = refl;
  counted = refl;
  exact = omega arith;
  wide = λ i l. omega arith;
  stored = λ i l. absurd (omega arith);
}

abbrev pub blocks : BlockDatabase
blocks = record { initial_map_file_size = 28; lookup_map = hashed; index = index }

pub blocks-Keeps : Keeps sum blocks 0 (λ i. none) (λ key. [])
unfolding stack
blocks-Keeps = record {
  keyed = refl;
  positions = λ i. 0;
  index = index-Indexes;
  view = λ i. [];
  table = hashed-IsSlabTable;
  reads = λ key. refl;
  located = λ i l. absurd (omega arith);
}

-- Two buckets of records under short hashes.
abbrev pub short : RecordHashTable
short = record {
  key_size = 20;
  buckets = 2;
  manager = record { file = live_file; header_size = 12; record_count = 0; record_size = 28 };
}

pub short-IsRecordTable : IsRecordTable sum short (λ i. [])
unfolding read_bytes item_position
short-IsRecordTable = record {
  ready = record { live = live_file-IsLive; holds = omega arith; countable = omega arith };
  exact = omega arith;
  table = record {
    buckets_pos = omega arith;
    header = record { mapped = refl; within = omega arith };
    above = omega arith;
    heads = λ i l. rw (little.to_le_ones 4 (2 ^ 32 - 1) refl);
    chains = λ i l. tt;
    homes = λ i l. tt;
    apart = λ i j l l' ne. tt;
  };
}

pub short-Models : Models sum short (λ key. [])
unfolding stack
short-Models = (λ i. [], short-IsRecordTable, λ key. refl)

abbrev pub multimap : RecordMultimap
multimap = record {
  table = short;
  rows = record { file = live_file; header_size = 4; record_count = 0; record_size = 85 };
}

pub multimap-Maps : Maps sum multimap (λ q. []) (λ q. [])
multimap-Maps = record {
  models = short-Models;
  listed = record {
    ready = record { live = live_file-IsLive; holds = omega arith; countable = omega arith };
    wide = omega arith;
    exact = omega arith;
  };
  chained = λ q. tt;
}
