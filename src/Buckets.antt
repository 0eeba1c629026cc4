-- ===== src/Buckets.antt =====
-- The chained hash table that include/bitcoin/database/impl/record_hash_table.ipp and
-- slab_hash_table.ipp implement alike, over the rows of a layout. The loops take fuel, which the
-- tables set from the size of the file.
pub mod Chain
pub mod Unlinking
pub mod Overwriting
pub mod Overwritten
pub mod Table
pub mod Linking
pub mod Lookup
pub mod Storing
pub mod Contents
pub mod Found
pub mod Replacing
use bitprim_database.Prelude.{
  ℕ, zero, suc, ◌%◌, Bool, true, false, Option, none, some, ◌==◌, if◌then◌else◌, Bytes,
}
use bitprim_database.Run.{Run, ok, stuck, ◌>>=◌}
use bitprim_database.Endian.{Endian}
use bitprim_database.MemoryMap.{MemoryMap}
use bitprim_database.HashTableHeader
use bitprim_database.HashTableHeader.{empty}
use bitprim_database.Row.{Layout, data_of, compare, write_next, next_of}

-- The `std::hash` of a key type.
abbrev pub Hash : Type 0
Hash = Bytes → ℕ

-- include/bitcoin/database/impl/remainder.ipp
unfoldable pub remainder : Hash → Bytes → ℕ → ℕ
remainder hash key divisor = if divisor == 0 then 0 else hash key % divisor

module _ ⦃en : Endian⦄ (L : Layout) where
  unfoldable pub find_loop : Bytes → ℕ → MemoryMap → ℕ → Run (Option ℕ)
  find_loop key zero file current = stuck
  find_loop key (suc fuel) file current = if current == empty L.width then ok none else do
    same ← compare L file current key
    if same then ok (some (data_of L current)) else do
      next ← next_of L file current
      let rest = find_loop key fuel file next
      if current == next then ok none else rest

  -- `item` takes the place of its successor in `previous`.
  unfoldable pub release : MemoryMap → ℕ → ℕ → Run MemoryMap
  release file item previous = do next ← next_of L file item; write_next L file previous next

  unfoldable pub unlink_loop : Bytes → ℕ → MemoryMap → ℕ → ℕ → Run (Bool × MemoryMap)
  unlink_loop key zero file previous current = stuck
  unlink_loop key (suc fuel) file previous current =
      if current == empty L.width then ok (false, file) else do
        same ← compare L file current key
        if same then (do file' ← release file current previous; ok (true, file')) else do
          next ← next_of L file current
          let rest = unlink_loop key fuel file current next
          if current == next then ok (false, file) else rest

  module _ (hash : Hash) (buckets : ℕ) where
    unfoldable pub bucket_index : Bytes → ℕ
    bucket_index key = remainder hash key buckets

    unfoldable pub read_bucket_value : MemoryMap → Bytes → Run ℕ
    read_bucket_value file key = HashTableHeader.read L.width file (bucket_index key)

    unfoldable pub link_bucket : MemoryMap → Bytes → ℕ → Run MemoryMap
    link_bucket file key begin = HashTableHeader.write L.width file (bucket_index key) begin

    -- The part of `store` after the creation of the row.
    unfoldable pub link_row : MemoryMap → Bytes → ℕ → Run MemoryMap
    link_row file key link = do
      head ← read_bucket_value file key
      linked ← write_next L file link head
      link_bucket linked key link

    unfoldable pub find : ℕ → MemoryMap → Bytes → Run (Option ℕ)
    find fuel file key = do begin ← read_bucket_value file key; find_loop key fuel file begin

    unfoldable pub unlink : ℕ → MemoryMap → Bytes → Run (Bool × MemoryMap)
    unlink fuel file key = do
      begin ← read_bucket_value file key
      same ← compare L file begin key
      if same
          then (do next ← next_of L file begin; file' ← link_bucket file key next; ok (true, file'))
          else do current ← next_of L file begin; unlink_loop key fuel file begin current
