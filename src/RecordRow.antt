-- ===== src/RecordRow.antt =====
-- include/bitcoin/database/impl/record_row.ipp: the rows of a record hash table, which a record
-- manager holds. What they share with slab rows is in `Row`.
use bitprim_database.Prelude.{ℕ, ◌+◌, Bytes}
use bitprim_database.Run.{Run, ok, ◌>>=◌}
use bitprim_database.MemoryMap.{Os}
use bitprim_database.RecordManager.{RecordManager, get, new_records}
use bitprim_database.Row.{Layout, prefix_size, populate}

-- `raw_data`: a link is an index of four bytes.
abbrev pub layout : ℕ → RecordManager → Layout
layout key_size m = record { width = 4; key_size = key_size; address = get m }

-- The writer of the value is given by the bytes that it writes.
unfoldable pub create : Os → ℕ → Bytes → Bytes → RecordManager → Run (ℕ × RecordManager)
create os key_size key value m = do
  (index, m₁) ← new_records os 1 m
  file ← populate (layout key_size m₁) m₁.file index key value
  ok (index, record m₁ { file = file })

-- `offset` adds the index, and not the position of the record.
unfoldable pub offset : ℕ → RecordManager → ℕ → ℕ
offset key_size m index = index + prefix_size (layout key_size m)
