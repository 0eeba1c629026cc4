-- ===== src/BlockDatabase/Storing.antt =====
-- `store` of src/databases/block_database.cpp.
use mathlib.Core.List.{Memᴰ}
use bitprim_database.Prelude.{
  ℕ, ◌+◌, ◌*◌, ◌%◌, ◌≤◌, ◌<◌, ◌≡◌, ◌∙◌, refl, sym, inl, inr, Option, none, some, List, [], ◌∷◌,
  ◌++◌, arith, ltb, ltb→lt, ◌==◌, if◌then◌else◌, Bool-cases, length, length-append, All, Bytes,
  bytes_eq,
}
use bitprim_database.Run.{◌>>=◌, Returns}
use bitprim_database.Endian.{Endian, to_le, array_index_bound}
use bitprim_database.VariableUint.{VariableUint, to_variable}
use bitprim_database.MemoryMap.{Os}
use bitprim_database.MemoryMap.Growth.{Works, max_exact}
use bitprim_database.RecordManager.Positions.{extent}
use bitprim_database.SlabRow.{layout}
use bitprim_database.Row.Entry.{Entry}
use bitprim_database.Buckets.{Hash}
use bitprim_database.Buckets.Table.{update, update_self, bucket_index-lt}
use bitprim_database.Buckets.Contents.{contents-push, push}
use bitprim_database.SlabHashTable.Invariant.{index_of, CanStore}
use bitprim_database.SlabHashTable.Storing.{store-IsSlabTable}
use bitprim_database.BlockIndex.Writing.{reach, put, write_position-Indexes}
use bitprim_database.BlockResult.{header_size, hash_size}
use bitprim_database.BlockDatabase.{Block, BlockDatabase, concat, serialize, serialized_size, store}
use bitprim_database.BlockDatabase.Blocks.{Stored, vacant, held, Located-update, Keeps}

-- Hashes and a header of the sizes of the format.
pub record IsFormed (block : Block) : Type 0 where
  pub hash : length block.hash ≡ hash_size
  pub header : length block.header ≡ header_size
  pub transactions : All (λ h. length h ≡ hash_size) block.transaction_hashes

pub length-concat :
    (hs : List Bytes)
    → All (λ h. length h ≡ hash_size) hs
    → length (concat hs) ≡ length hs * hash_size
length-concat [] a = refl
length-concat (h ∷ hs) (a, as') =
    omega (arith, length-append h (concat hs), length-concat hs as', a)

module _ ⦃en : Endian⦄ ⦃var : VariableUint⦄ where
  pub length-serialize :
      (block : Block) (height : ℕ)
      → IsFormed block
      → length (serialize block height) ≡ serialized_size block
  unfolding serialize serialized_size
  length-serialize block height f =
      let hs = block.transaction_hashes in
      let counted = to_variable (length hs) in
      let l₁ = length-append counted (concat hs) in
      let l₂ = length-append (to_le 4 height) (counted ++ concat hs) in
      let l₃ = length-append block.header (to_le 4 height ++ (counted ++ concat hs)) in
      omega (
        arith,
        l₁,
        l₂,
        l₃,
        en.length-to_le 4 height,
        var.length-others (length hs),
        length-concat hs f.transactions,
        f.header,
      )

  -- The block as it is stored.
  abbrev pub stored_block : Block → ℕ → Stored
  stored_block block height = record { hash = block.hash; slab = serialize block height }

  -- The heights, the index and the slab of a block have room.
  pub record HasRoomFor (block : Block) (height : ℕ) (db : BlockDatabase) : Type 0 where
    pub heights : height + 1 < array_index_bound
    pub index : extent db.index (height + 1) ≤ max_exact
    pub slab :
        db.lookup_map.manager.header_size
          + (db.lookup_map.manager.payload_size + (hash_size + 8 + serialized_size block))
        ≤ max_exact

  -- The blocks with one more.
  abbrev pub with_block : ℕ → ℕ → Stored → (ℕ → Option Stored) → ℕ → Option Stored
  with_block n height b blocks i =
      if i == height then some b else if ltb i n then blocks i else none

  -- `store` of a block of the sizes of the format, at any height below 2 ^ 32 - 1, in a database
  -- that keeps the blocks `blocks` by height and the slabs `c` by hash, returns where the system
  -- calls succeed and there is room. The database then keeps the block at that height, in place of
  -- one that was there, the other blocks at theirs, no blocks at the heights skipped, and the slab
  -- of the block as the newest under its hash.
  pub store-Keeps :
      (hash : Hash) {lookup_os index_os : Os} (db : BlockDatabase) (n : ℕ)
      (blocks : ℕ → Option Stored) (c : Bytes → List Bytes) (block : Block) (height : ℕ)
      → Works lookup_os
      → Works index_os
      → Keeps hash db n blocks c
      → IsFormed block
      → HasRoomFor block height db
      → Returns (store hash lookup_os index_os block height db) (λ db'.
        Keeps hash db'
          (reach n height)
          (with_block n height (stored_block block height) blocks)
          (λ q. if bytes_eq q block.hash then push (serialize block height) (c q) else c q))
  unfolding store
  store-Keeps hash db n blocks c block height works works' h formed room =
      let value = serialize block height in
      let t = db.lookup_map in
      let keyed : t.key_size ≡ 32 = h.keyed in
      let can : CanStore block.hash value (serialized_size block) t = record {
        keyed = formed.hash ∙ sym h.keyed;
        fits = omega (arith, length-serialize block height formed);
        exact = rw keyed room.slab;
      } in
      let (r, run, (at', here, valid, same, kept, buckets, grows)) =
        store-IsSlabTable hash works block.hash value (serialized_size block) h.table can in
      let wrap : height % array_index_bound ≡ height = omega (arith, room.heights) in
      let (index', run', indexed) =
        write_position-Indexes works' db.index n h.positions height h.index room.heights room.index
          r.0 (omega (arith, at', keyed, room.slab)) in
      let placed : r.0 ≡ t.manager.payload_size + 40 = omega (arith, at', keyed) in
      let row : Entry = record { link = t.manager.payload_size; key = block.hash; value = value } in
      let b = index_of hash t block.hash in
      let inside =
        bucket_index-lt (layout t.key_size t.manager) hash t.buckets block.hash
          h.table.table.buckets_pos in
      let there : Memᴰ row (update h.view b (row ∷ h.view b) b) =
        rw (update_self h.view b (row ∷ h.view b)) (Memᴰ.head refl) in
      (
        record db { lookup_map = r.1; index = index' },
        rw (wrap, run, ◌>>=◌, run'),
        record {
          keyed = kept ∙ h.keyed;
          positions = put works' db.index n h.positions height h.index room.heights room.index r.0;
          index = indexed;
          view = update h.view b (row ∷ h.view b);
          table = valid;
          reads = λ q. rw (same, ← h.reads q) (contents-push (index_of hash t) h.view q row);
          located = λ i l. elim (Bool-cases (i == height)) [
            | inl new ↦ rw (new, buckets, placed) (held b row inside there)
            | inr other ↦
                rw (other, buckets)
                  (elim (Bool-cases (ltb i n)) [
                    | inl old ↦ rw old (
                        Located-update t.buckets h.view b row (h.positions i) (blocks i)
                          (h.located i (ltb→lt i n old)))
                    | inr gap ↦ rw gap vacant
                  ])
          ];
        },
      )
