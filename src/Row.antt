-- ===== src/Row.antt =====
-- The rows of a hash table, which include/bitcoin/database/impl/record_row.ipp and slab_row.ipp
-- implement alike: a key, the link to the next row of the bucket, and a value. The two differ in
-- the width of a link, in where a link points to, and in how a row is made.
pub mod Entry
use bitprim_database.Prelude.{ℕ, ◌+◌, Bool, length, Bytes, bytes_eq}
use bitprim_database.Run.{Run, ok, ◌>>=◌}
use bitprim_database.Endian.{Endian, to_le, from_le}
use bitprim_database.MemoryMap.{MemoryMap, load, save}

-- `width` bytes hold a link, and `address` is the `get` of the manager.
pub record Layout : Type 0 where
  pub width : ℕ
  pub key_size : ℕ
  pub address : ℕ → ℕ

module _ (L : Layout) where
  abbrev pub prefix_size : ℕ
  prefix_size = L.key_size + L.width

  abbrev pub raw_data : ℕ → ℕ → ℕ
  raw_data link offset = L.address link + offset

  -- The distance of the value from `data_`.
  abbrev pub data_of : ℕ → ℕ
  data_of link = raw_data link prefix_size

  -- The key and the value of a new row; its link is skipped.
  unfoldable pub populate : MemoryMap → ℕ → Bytes → Bytes → Run MemoryMap
  populate file link key value = do
    keyed ← save file (raw_data link 0) key
    save keyed (raw_data link prefix_size) value

  unfoldable pub compare : MemoryMap → ℕ → Bytes → Run Bool
  compare file link key = do
    bytes ← load file (raw_data link 0) (length key)
    ok (bytes_eq key bytes)

  module _ ⦃en : Endian⦄ where
    -- `link` and `write_next_index` or `write_next_position`.
    unfoldable pub write_next : MemoryMap → ℕ → ℕ → Run MemoryMap
    write_next file link next = save file (raw_data link L.key_size) (to_le L.width next)

    unfoldable pub next_of : MemoryMap → ℕ → Run ℕ
    next_of file link = do bytes ← load file (raw_data link L.key_size) L.width; ok (from_le bytes)
