-- ===== src/Buckets/Storing.antt =====
-- Filling free space with a new row and linking it: `store` behind the allocation.
use bitprim_database.Prelude.{ℕ, suc, ◌+◌, ◌≤◌, ◌<◌, ◌^◌, ◌≡◌, ◌∙◌, inl, List, ◌∷◌, arith, length}
use bitprim_database.Run.{ok}
use bitprim_database.Bytes.{write_bytes, write_bytes_outside}
use bitprim_database.Endian.{Endian}
use bitprim_database.MemoryMap.{MemoryMap}
use bitprim_database.MemoryMap.Access.{written}
use bitprim_database.Row.{Layout, raw_data, prefix_size, populate}
use bitprim_database.Row.Entry.{Entry, size, Agrees, populate-IsBody}
use bitprim_database.Buckets.{Hash, bucket_index, link_row}
use bitprim_database.Buckets.Chain.{IsProper}
use bitprim_database.Buckets.Table.{update, IsTable}
use bitprim_database.Buckets.Linking.{IsTable-congr, link_row-IsTable}

module _ ⦃en : Endian⦄ (L : Layout) (hash : Hash) (buckets lo : ℕ) (proper : IsProper L) where
  -- The two writes of `store`, from `f` to the file with the row and to the file with its links.
  pub record Stores (e : Entry) (hi' : ℕ) (f : MemoryMap) (view : ℕ → List Entry) : Type 0 where
    pub filled : MemoryMap
    pub linked : MemoryMap
    pub populates : populate L f e.link e.key e.value ≡ ok filled
    pub links : link_row L hash buckets filled e.key e.link ≡ ok linked
    pub only_bytes : linked ≡ record f { bytes = linked.bytes }
    pub table : IsTable L hash buckets lo hi' linked (
        update view
          (bucket_index L hash buckets e.key)
          (e ∷ view (bucket_index L hash buckets e.key)))

  pub row-Stores :
      {f f₁ : MemoryMap} {hi : ℕ} {view : ℕ → List Entry} (e : Entry) (hi' : ℕ)
      → IsTable L hash buckets lo hi f view
      → lo ≤ hi
      → Agrees 0 hi f f₁
      → hi ≤ L.address e.link
      → L.address e.link + size L e ≤ hi'
      → hi' ≤ f₁.file_size
      → length e.key ≡ L.key_size
      → suc e.link < 256 ^ L.width
      → Stores e hi' f₁ view
  row-Stores {f} {f₁} {hi} {view} e hi' t below s fresh room fits k u =
      let (fill, body) =
        populate-IsBody L f₁ e (record { mapped = s.mapped; within = omega arith }) k u in
      let f₂ =
        written (written f₁ (raw_data L e.link 0) e.key) (raw_data L e.link (prefix_size L))
          e.value in
      let above : Agrees 0 hi f₁ f₂ = record {
        mapped = s.mapped;
        grows = omega arith;
        same = λ x l r.
            write_bytes_outside (write_bytes f₁.bytes (raw_data L e.link 0) e.key)
              (raw_data L e.link (prefix_size L)) e.value x (inl (omega arith))
            ∙ write_bytes_outside f₁.bytes (raw_data L e.link 0) e.key x (inl (omega arith));
      } in
      let t₂ =
        IsTable-congr L hash buckets lo proper above below
          (IsTable-congr L hash buckets lo proper s below t) in
      let (g, run, (only, table)) =
        link_row-IsTable L hash buckets lo proper t₂ below e body fresh hi' room in
      record {
        filled = f₂;
        linked = g;
        populates = fill;
        links = run;
        only_bytes = only;
        table = table;
      }
