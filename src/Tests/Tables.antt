-- ===== src/Tests/Tables.antt =====
-- The theorems on hash tables at two small tables.
use bitprim_database.Prelude.{
  length, some, ap, true, ◌+◌, ◌≡◌, refl, sym, List, [], ◌∷◌, arith, replicate, is_some,
  if◌then◌else◌, Bytes, bytes_eq,
}
use bitprim_database.Run.{ok, Returns, fault}
use bitprim_database.MemoryMap.Access.{Reads}
use bitprim_database.Buckets.Contents.{top, pop}
use bitprim_database.Buckets.Found.{Finds}
use bitprim_database.RecordHashTable
use bitprim_database.RecordHashTable.{RecordHashTable}
use bitprim_database.RecordHashTable.Invariant.{Models, CanStore}
use bitprim_database.RecordHashTable.Storing.{store-Models}
use bitprim_database.RecordHashTable.Finding.{find-Finds}
use bitprim_database.RecordHashTable.Unlinking.{unlink-Models, unlink_empty}
use bitprim_database.SlabHashTable
use bitprim_database.SlabHashTable.{SlabHashTable}
use bitprim_database.SlabHashTable.Invariant as Slabs
use bitprim_database.SlabHashTable.Invariant.{Represents}
use bitprim_database.SlabHashTable.Storing.{store-Represents}
use bitprim_database.SlabHashTable.Finding.{find-top}
use bitprim_database.SlabHashTable.Unlinking.{unlink-Represents}
use bitprim_database.Buckets.Replacing.{replace_top}
use bitprim_database.SlabHashTable.Updating.{update-Represents}
use bitprim_database.SlabHashTable.Visiting.{visited, all_places, for_each-visited}
use bitprim_database.SlabRow.{layout}
use bitprim_database.Tests.Little.{little}
use bitprim_database.Tests.World.{
  os, works, sum, record_table, record_table-Models, record_table-IsRecordTable, slab_table,
  slab_table-IsSlabTable, slab_table-Represents,
}

-- A key and a value.
abbrev pub one : Bytes
one = replicate 36 1

abbrev pub value : Bytes
value = replicate 36 7

abbrev only : Bytes → List Bytes
only q = if bytes_eq q one then value ∷ [] else []

can_store : CanStore one value record_table
can_store = record { keyed = refl; fits = omega arith; indexes = omega arith; exact = omega arith }

store-Models_example :
    Returns
      (RecordHashTable.store sum os one value record_table)
      (λ t'. Models sum t' only × (t'.key_size ≡ record_table.key_size))
store-Models_example =
    store-Models sum record_table (λ key. []) one value works record_table-Models can_store

-- The table that holds `value` under `one`.
abbrev stored :
    Returns
      (RecordHashTable.store sum os one value record_table)
      (λ t'. Models sum t' only × (t'.key_size ≡ record_table.key_size))
stored = store-Models sum record_table (λ key. []) one value works record_table-Models can_store

find-Finds_example :
    Returns
      (RecordHashTable.find sum one stored.0)
      (λ o. Finds stored.0.manager.file o (top (only one)))
find-Finds_example = find-Finds sum stored.0 only one (stored.2.0) (sym stored.2.1)

unlink-Models_example : Returns (RecordHashTable.unlink sum one stored.0) (λ r.
    (r.0 ≡ is_some (top (only one)))
    × Models sum r.1 (λ x. if bytes_eq x one then pop (only x) else only x)
    × (r.1.key_size ≡ stored.0.key_size))
unfolding bytes_eq
unlink-Models_example =
    unlink-Models sum stored.0 one (sym stored.2.1) only one stored.2.0 refl refl

unlink_empty_example : RecordHashTable.unlink sum one record_table ≡ fault
unlink_empty_example =
    unlink_empty sum record_table one refl record_table-IsRecordTable refl (omega arith)
      (omega arith)

CanStore-slab : Slabs.CanStore one value 36 slab_table
CanStore-slab = record { keyed = refl; fits = omega arith; exact = omega arith }

store-Represents_example : Returns (SlabHashTable.store sum os one value 36 slab_table) (λ r.
    (r.0 ≡ slab_table.manager.payload_size + (slab_table.key_size + 8))
    × Reads r.1.manager.file (slab_table.manager.header_size + r.0) value
    × Represents sum r.1 only
    × (r.1.key_size ≡ slab_table.key_size))
store-Represents_example =
    store-Represents sum slab_table (λ key. []) one value 36 works slab_table-Represents
      CanStore-slab

-- The table that holds `value` under `one`.
abbrev stored_slab : Returns (SlabHashTable.store sum os one value 36 slab_table) (λ r.
    (r.0 ≡ slab_table.manager.payload_size + (slab_table.key_size + 8))
    × Reads r.1.manager.file (slab_table.manager.header_size + r.0) value
    × Represents sum r.1 only
    × (r.1.key_size ≡ slab_table.key_size))
stored_slab =
    store-Represents sum slab_table (λ key. []) one value 36 works slab_table-Represents
      CanStore-slab

unlink-Represents_example : Returns (SlabHashTable.unlink sum one stored_slab.0.1) (λ r.
    (r.0 ≡ is_some (top (only one)))
    × Represents sum r.1 (λ x. if bytes_eq x one then pop (only x) else only x)
    × (r.1.key_size ≡ stored_slab.0.1.key_size))
unfolding bytes_eq
unlink-Represents_example =
    unlink-Represents sum stored_slab.0.1 one (sym stored_slab.2.3) only one stored_slab.2.2 refl
      refl

find-top_example :
    Returns
      (SlabHashTable.find sum one stored_slab.0.1)
      (λ o. Finds stored_slab.0.1.manager.file o (top (only one)))
find-top_example = find-top sum stored_slab.0.1 only one stored_slab.2.2 (sym stored_slab.2.3)

for_each-visited_example :
    SlabHashTable.for_each (λ place. true) slab_table
    ≡ ok (visited (λ place. true) (all_places (layout 36 slab_table.manager) (λ i. []) 2 0)).0
for_each-visited_example =
    for_each-visited (λ place. true) sum slab_table (λ i. []) slab_table-IsSlabTable

abbrev fresh_value : Bytes
fresh_value = replicate 36 9

same_size : (w : Bytes) → top (only one) ≡ some w → length fresh_value ≡ length w
unfolding bytes_eq
same_size w h = let there : some value ≡ some w = h in let e : value ≡ w = cc in ap length e

update-Represents_example : Returns (SlabHashTable.update sum one fresh_value stored_slab.0.1) (λ r.
    Represents sum r.1 (λ q. if bytes_eq q one then replace_top fresh_value (only q) else only q))
update-Represents_example =
    update-Represents sum stored_slab.0.1 only one fresh_value stored_slab.2.2 (sym stored_slab.2.3)
      same_size
