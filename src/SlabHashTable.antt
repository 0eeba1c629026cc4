-- ===== src/SlabHashTable.antt =====
-- include/bitcoin/database/impl/slab_hash_table.ipp: a hash table with rows of any size.
pub mod Invariant
pub mod Storing
pub mod Finding
pub mod Unlinking
pub mod Visiting
pub mod Updating
pub mod Editing
use bitprim_database.Prelude.{
  ℕ, zero, suc, ◌+◌, Bool, true, false, not, Option, none, some, List, [], ◌∷◌, ◌++◌, ◌==◌,
  if◌then◌else◌, Bytes,
}
use bitprim_database.Run.{Run, ok, stuck, ◌>>=◌}
use bitprim_database.Endian.{Endian}
use bitprim_database.MemoryMap.{Os, MemoryMap, save}
use bitprim_database.SlabManager.{SlabManager}
use bitprim_database.SlabRow
use bitprim_database.SlabRow.{layout, offset}
use bitprim_database.HashTableHeader
use bitprim_database.HashTableHeader.{empty}
use bitprim_database.Row.{Layout, prefix_size, data_of, compare, next_of}
use bitprim_database.Buckets
use bitprim_database.Buckets.{Hash, link_row, read_bucket_value}

-- The header works on the file of the manager.
pub record SlabHashTable : Type 0 where
  pub key_size : ℕ
  pub buckets : ℕ
  pub manager : SlabManager

module _ ⦃en : Endian⦄ where
  -- The loop of `update`: the bytes are written over the value that is found.
  unfoldable pub update_loop :
      ℕ → SlabManager → Bytes → Bytes → ℕ → MemoryMap → ℕ → Run (ℕ × MemoryMap)
  update_loop key_size m key bytes zero file current = stuck
  update_loop key_size m key bytes (suc fuel) file current =
      if current == empty 8 then ok (0, file) else do
        same ← compare (layout key_size m) file current key
        if same
            then (do
              file' ← save file (data_of (layout key_size m) current) bytes
              ok (offset key_size m current, file'))
            else do
              next ← next_of (layout key_size m) file current
              let rest = update_loop key_size m key bytes fuel file next
              if current == next then ok (0, file) else rest

  -- One bucket of `for_each`: the places of the values that the function was called with, and
  -- whether it asked for more.
  unfoldable pub visit_loop : Layout → (ℕ → Bool) → ℕ → MemoryMap → ℕ → Run (List ℕ × Bool)
  visit_loop L f zero file current = stuck
  visit_loop L f (suc fuel) file current =
      if current == empty L.width
      then ok ([], true)
      else if not (f (data_of L current))
      then ok (data_of L current ∷ [], false)
      else do
        next ← next_of L file current
        let rest = visit_loop L f fuel file next
        if current == next
            then ok (data_of L current ∷ [], true)
            else do (places, more) ← rest; ok (data_of L current ∷ places, more)

  -- The buckets from `index` on, `left` of them.
  unfoldable pub visit_buckets : Layout → (ℕ → Bool) → ℕ → MemoryMap → ℕ → ℕ → Run (List ℕ)
  visit_buckets L f fuel file zero index = ok []
  visit_buckets L f fuel file (suc left) index = do
    current ← HashTableHeader.read L.width file index
    (places, more) ← visit_loop L f fuel file current
    let rest = visit_buckets L f fuel file left (index + 1)
    if more then (do others ← rest; ok (places ++ others)) else ok places

  unfoldable pub for_each : (ℕ → Bool) → SlabHashTable → Run (List ℕ)
  for_each f t =
      let file = t.manager.file in
      visit_buckets (layout t.key_size t.manager) f (suc file.file_size) file t.buckets 0

module _ ⦃en : Endian⦄ (hash : Hash) where
  -- The offset of the value is returned with the table.
  unfoldable pub store : Os → Bytes → Bytes → ℕ → SlabHashTable → Run (ℕ × SlabHashTable)
  store os key value value_size t = do
    (position, m) ← SlabRow.create os t.key_size key value value_size t.manager
    file ← link_row (layout t.key_size m) hash t.buckets m.file key position
    ok (
      position + prefix_size (layout t.key_size m),
      record t { manager = record m { file = file } },
    )

  unfoldable pub update : Bytes → Bytes → SlabHashTable → Run (ℕ × SlabHashTable)
  update key bytes t = do
    let m = t.manager
    begin ← read_bucket_value (layout t.key_size m) hash t.buckets m.file key
    (found, file) ← update_loop t.key_size m key bytes (suc m.file.file_size) m.file begin
    ok (found, record t { manager = record m { file = file } })

  -- Rows do not overlap, so that no chain has more rows than the file has bytes.
  unfoldable pub find : Bytes → SlabHashTable → Run (Option ℕ)
  find key t =
      let file = t.manager.file in
      Buckets.find (layout t.key_size t.manager) hash t.buckets (suc file.file_size) file key

  unfoldable pub unlink : Bytes → SlabHashTable → Run (Bool × SlabHashTable)
  unlink key t = do
    let m = t.manager
    (done, file) ←
        Buckets.unlink (layout t.key_size m) hash t.buckets (suc m.file.file_size) m.file key
    ok (done, record t { manager = record m { file = file } })
