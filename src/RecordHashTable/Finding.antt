-- ===== src/RecordHashTable/Finding.antt =====
-- `find` of include/bitcoin/database/impl/record_hash_table.ipp.
use mathlib.Core.Option
use bitprim_database.Prelude.{suc, ◌+◌, ◌≡◌, List, arith, length, Bytes}
use mathlib.Core.Path.{subst}
use bitprim_database.Run.{Returns}
use bitprim_database.Endian.{Endian}
use bitprim_database.RecordRow.{layout}
use bitprim_database.RecordManager.Positions.{extent}
use bitprim_database.Row.{data_of}
use bitprim_database.Buckets.{Hash}
use bitprim_database.Buckets.Chain.{find_entry}
use bitprim_database.Buckets.Table.{bucket_index-lt}
use bitprim_database.Buckets.Lookup.{find-find_entry}
use bitprim_database.Buckets.Contents.{top}
use bitprim_database.Buckets.Found.{Finds, chain-Finds}
use bitprim_database.RecordHashTable.{RecordHashTable, find}
use bitprim_database.RecordHashTable.Invariant.{layout-IsProper, index_of, Models}

-- On a record hash table that holds the stacks `c`, `find` of a key of the key size ends without a
-- fault. It gives the place in the file at which the top of the stack of the key is read, within
-- the mapping, or none if that stack is empty.
pub find-Finds :
    ⦃en : Endian⦄ (hash : Hash) (t : RecordHashTable) (c : Bytes → List Bytes) (key : Bytes)
    → Models hash t c
    → length key ≡ t.key_size
    → Returns (find hash key t) (λ o. Finds t.manager.file o (top (c key)))
unfolding find
find-Finds hash t c key (view, valid, reads) k =
    let L = layout t.key_size t.manager in
    let m = t.manager in
    let o = Option.map (λ e. data_of L e.link) (find_entry key (view (index_of hash t key))) in
    (
      o,
      find-find_entry L hash t.buckets (m.header_size + 4) (layout-IsProper t.key_size m)
          valid.table key k (suc m.file.file_size) (omega (arith, valid.ready.holds)),
      subst (λ vs. Finds m.file o (top vs)) (reads key)
          (chain-Finds L m.file (m.header_size + 4) (extent m m.record_count) key
            (view (index_of hash t key))
            (valid.table.chains (index_of hash t key)
              (bucket_index-lt L hash t.buckets key valid.table.buckets_pos))),
    )
