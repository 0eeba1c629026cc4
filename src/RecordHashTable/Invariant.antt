-- ===== src/RecordHashTable/Invariant.antt =====
-- A well formed record hash table, and the stacks of values that it stands for.
use bitprim_database.Prelude.{
  ℕ, suc, ◌+◌, ◌≤◌, ◌<◌, ◌^◌, ◌≡◌, ◌∙◌, refl, List, arith, length, Bytes,
}
use bitprim_database.Endian.{Endian}
use bitprim_database.MemoryMap.{MemoryMap}
use bitprim_database.MemoryMap.Growth.{max_exact}
use bitprim_database.Row.Entry.{Entry}
use bitprim_database.RecordManager.{RecordManager, get}
use bitprim_database.RecordManager.Positions.{extent}
use bitprim_database.RecordManager.Allocation.{IsReady}
use bitprim_database.RecordRow.{layout}
use bitprim_database.Buckets.{Hash, bucket_index}
use bitprim_database.Buckets.Chain.{IsProper}
use bitprim_database.Buckets.Table.{IsTable}
use bitprim_database.Buckets.Contents.{contents}
use bitprim_database.RecordHashTable.{RecordHashTable}

pub layout-IsProper : (key_size : ℕ) (m : RecordManager) → IsProper (layout key_size m)
layout-IsProper key_size m = record { wide = omega arith; bound = omega arith }

-- Rows stay in place when the file grows and records are added.
pub layout-grown :
    (key_size : ℕ) (m : RecordManager) (f : MemoryMap) (n : ℕ)
    → layout key_size (record m { file = f; record_count = n }) ≡ layout key_size m
unfolding get
layout-grown key_size m f n = refl

module _ ⦃en : Endian⦄ (hash : Hash) where
  abbrev pub index_of : RecordHashTable → Bytes → ℕ
  index_of t = bucket_index (layout t.key_size t.manager) hash t.buckets

  -- `view` lists the rows of each bucket. They lie between the count and the end of the records.
  pub record IsRecordTable (t : RecordHashTable) (view : ℕ → List Entry) : Type 0 where
    pub ready : IsReady t.manager
    pub exact : extent t.manager t.manager.record_count ≤ max_exact
    pub table :
        IsTable
          (layout t.key_size t.manager)
          hash
          t.buckets
          (t.manager.header_size + 4)
          (extent t.manager t.manager.record_count)
          t.manager.file
          view

  -- The table holds the values `c key` under each key, the newest first.
  abbrev pub Models : RecordHashTable → (Bytes → List Bytes) → Type 0
  Models t c =
      (view : ℕ → List Entry) × IsRecordTable t view
      × ((key : Bytes) → contents (index_of t) view key ≡ c key)

  pub Models-congr :
      {t : RecordHashTable} {c c' : Bytes → List Bytes}
      → Models t c
      → ((q : Bytes) → c q ≡ c' q)
      → Models t c'
  Models-congr (view, valid, reads) same = (view, valid, λ q. reads q ∙ same q)

-- A row with this value fits into a record, and the record into the file.
pub record CanStore (key value : Bytes) (t : RecordHashTable) : Type 0 where
  pub keyed : length key ≡ t.key_size
  pub fits : t.key_size + 4 + length value ≤ t.manager.record_size
  pub indexes : suc t.manager.record_count < 2 ^ 32
  pub exact : extent t.manager (t.manager.record_count + 1) ≤ max_exact
