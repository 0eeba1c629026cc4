-- ===== src/SlabHashTable/Invariant.antt =====
-- A well formed slab hash table, and the stacks of values that it stands for.
use bitprim_database.Prelude.{ℕ, ◌+◌, ◌≤◌, ◌≡◌, refl, ◌∙◌, List, arith, length, Bytes}
use bitprim_database.Endian.{Endian}
use bitprim_database.MemoryMap.{MemoryMap}
use bitprim_database.MemoryMap.Growth.{max_exact}
use bitprim_database.Row.Entry.{Entry}
use bitprim_database.SlabManager.{SlabManager, get}
use bitprim_database.SlabManager.Allocation.{IsReady}
use bitprim_database.SlabRow.{layout}
use bitprim_database.Buckets.{Hash, bucket_index}
use bitprim_database.Buckets.Chain.{IsProper}
use bitprim_database.Buckets.Table.{IsTable}
use bitprim_database.Buckets.Contents.{contents}
use bitprim_database.SlabHashTable.{SlabHashTable}

pub layout-IsProper : (key_size : ℕ) (m : SlabManager) → IsProper (layout key_size m)
layout-IsProper key_size m = record { wide = omega arith; bound = omega arith }

-- Rows stay in place when the file grows and slabs are added.
pub layout-grown :
    (key_size : ℕ) (m : SlabManager) (f : MemoryMap) (n : ℕ)
    → layout key_size (record m { file = f; payload_size = n }) ≡ layout key_size m
unfolding get
layout-grown key_size m f n = refl

-- A table with the same header whose payload is larger by some bytes at most.
pub record Grows (room : ℕ) (t t' : SlabHashTable) : Type 0 where
  pub header : t'.manager.header_size ≡ t.manager.header_size
  pub payload : t'.manager.payload_size ≤ t.manager.payload_size + room

module _ ⦃en : Endian⦄ (hash : Hash) where
  abbrev pub index_of : SlabHashTable → Bytes → ℕ
  index_of t = bucket_index (layout t.key_size t.manager) hash t.buckets

  -- `view` lists the rows of each bucket. They lie between the size and the end of the
  -- payload.
  pub record IsSlabTable (t : SlabHashTable) (view : ℕ → List Entry) : Type 0 where
    pub ready : IsReady t.manager
    pub exact : t.manager.header_size + t.manager.payload_size ≤ max_exact
    pub table :
        IsTable
          (layout t.key_size t.manager)
          hash
          t.buckets
          (t.manager.header_size + 8)
          (t.manager.header_size + t.manager.payload_size)
          t.manager.file
          view

  -- The table holds the values `c key` under each key, the newest first.
  abbrev pub Represents : SlabHashTable → (Bytes → List Bytes) → Type 0
  Represents t c =
      (view : ℕ → List Entry) × IsSlabTable t view
      × ((key : Bytes) → contents (index_of t) view key ≡ c key)

  pub Represents-congr :
      {t : SlabHashTable} {c c' : Bytes → List Bytes}
      → Represents t c
      → ((q : Bytes) → c q ≡ c' q)
      → Represents t c'
  Represents-congr (view, valid, reads) same = (view, valid, λ q. reads q ∙ same q)

-- The value is no longer than the size that is asked for, and the slab fits into the file.
pub record CanStore (key value : Bytes) (value_size : ℕ) (t : SlabHashTable) : Type 0 where
  pub keyed : length key ≡ t.key_size
  pub fits : length value ≤ value_size
  pub exact :
      t.manager.header_size + (t.manager.payload_size + (t.key_size + 8 + value_size)) ≤ max_exact
