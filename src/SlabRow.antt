-- ===== src/SlabRow.antt =====
-- include/bitcoin/database/impl/slab_row.ipp: the rows of a slab hash table, which a slab manager
-- holds. What they share with record rows is in `Row`.
use bitprim_database.Prelude.{ℕ, ◌+◌, Bytes}
use bitprim_database.Run.{Run, ok, ◌>>=◌}
use bitprim_database.MemoryMap.{Os}
use bitprim_database.SlabManager.{SlabManager, get, new_slab}
use bitprim_database.Row.{Layout, prefix_size, populate}

-- `raw_data`: a link is a position of eight bytes.
abbrev pub layout : ℕ → SlabManager → Layout
layout key_size m = record { width = 8; key_size = key_size; address = get m }

-- The writer of the value is given by the bytes that it writes.
unfoldable pub create : Os → ℕ → Bytes → Bytes → ℕ → SlabManager → Run (ℕ × SlabManager)
create os key_size key value value_size m = do
  (position, m₁) ← new_slab os (prefix_size (layout key_size m) + value_size) m
  file ← populate (layout key_size m₁) m₁.file position key value
  ok (position, record m₁ { file = file })

-- The position of the value behind the header.
unfoldable pub offset : ℕ → SlabManager → ℕ → ℕ
offset key_size m position = position + prefix_size (layout key_size m)
