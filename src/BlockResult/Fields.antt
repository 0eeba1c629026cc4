-- ===== src/BlockResult/Fields.antt =====
-- The fields of src/result/block_result.cpp in a block that src/databases/block_database.cpp has
-- stored.
use mathlib.Core.Path.{subst}
use bitprim_database.Prelude.{
  get_elem?, ℕ, zero, suc, ◌+◌, ◌*◌, ◌<◌, ◌≤◌, ◌^◌, ◌≡◌, ◌∙◌, refl, sym, ap, some, List, [], ◌∷◌,
  ◌++◌, arith, length, length-append, All, Bytes,
}
use bitprim_database.Run.{ok, ◌>>=◌}
use bitprim_database.Endian.{Endian, to_le}
use bitprim_database.VariableUint.{VariableUint, to_variable}
use bitprim_database.VariableUint.Reading.{read_size-Reads}
use bitprim_database.MemoryMap.{MemoryMap}
use bitprim_database.MemoryMap.Access.{Covers, Reads, Reads-append, load-part}
use bitprim_database.BlockResult.{
  BlockResult, block_result, hash_size, header, height, field, transaction_count, transaction_hash,
  transaction_hash_at, at_slab,
}
use bitprim_database.BlockDatabase.{Block, concat, serialize}
use bitprim_database.BlockDatabase.Blocks.{Shows}
use bitprim_database.BlockDatabase.Storing.{IsFormed, stored_block, length-concat}

-- One of the hashes that are read one behind the other.
hash_at :
    (f : MemoryMap) (end a b : ℕ) (hs : List Bytes) (i : ℕ) (h : Bytes)
    → Covers f end
    → Reads f b (concat hs)
    → b ≡ a
    → a + length hs * hash_size ≤ end
    → All (λ h. length h ≡ hash_size) hs
    → get_elem? hs i ≡ some h
    → transaction_hash_at f a i ≡ ok h
unfolding transaction_hash_at get_elem?
hash_at f end a b [] i h covers r e fits sizes found = cc
hash_at f end a b (x ∷ xs) zero h covers r e fits (s, ss) found =
    let same : x ≡ h = ground arith in
    let (r₁, r₂) = Reads-append f b x (concat xs) r in
    load-part f end (a + 0 * hash_size) b hash_size h covers (subst (λ y. Reads f b y) same r₁)
      (omega (arith, e)) (sym s ∙ ap length same) (omega arith)
hash_at f end a b (x ∷ xs) (suc i) h covers r e fits (s, ss) found =
    let (r₁, r₂) = Reads-append f b x (concat xs) r in
    let rest =
      hash_at f end (a + hash_size) (b + length x) xs i h covers r₂ (omega (arith, e, s))
        (omega arith) ss found in
    let place : a + suc i * hash_size ≡ a + hash_size + i * hash_size = omega arith in rw place rest

-- A number in four bytes at an offset.
field-Reads :
    ⦃en : Endian⦄ (f : MemoryMap) (end memory offset b v : ℕ) (hash : Bytes)
    → Covers f end
    → Reads f b (to_le 4 v)
    → b ≡ memory + offset
    → memory + offset + 4 ≤ end
    → v < 256 ^ 4
    → field offset f (block_result (some memory) hash) ≡ ok v
unfolding field at_slab block_result
field-Reads ⦃en⦄ f end memory offset b v hash covers r e h small =
    rw (load-part f end (memory + offset) b 4 (to_le 4 v) covers r e (sym (en.length-to_le 4 v)) h)
      (ap ok (en.from_le-to_le 4 v small))

-- At a place where a block stored at a height is read, with hashes and a header of the sizes of the
-- format, a height that fits into four bytes and fewer than 2 ^ 64 transactions, the result reads
-- the header, the height, the number of the transactions, and the hash of each transaction.
pub fields-Shows :
    ⦃en : Endian⦄ ⦃var : VariableUint⦄ (f : MemoryMap) (block : Block) (stored_height : ℕ)
    (r : BlockResult)
    → Shows f (stored_block block stored_height) r
    → IsFormed block
    → stored_height < 256 ^ 4
    → length block.transaction_hashes < 2 ^ 64
    → (header f r ≡ ok block.header)
      × (height f r ≡ ok stored_height)
      × (transaction_count f r ≡ ok (length block.transaction_hashes))
      × ((i : ℕ) (h : Bytes)
          → get_elem? block.transaction_hashes i ≡ some h
          → transaction_hash f i r ≡ ok h)
unfolding header height transaction_count transaction_hash at_slab block_result serialize
fields-Shows ⦃en⦄ ⦃var⦄ f block stored_height r shows formed small few =
    let hs = block.transaction_hashes in
    let counted = to_variable (length hs) in
    let m = shows.memory in
    let end = m + length (serialize block stored_height) in
    let l₁ = length-append block.header (to_le 4 stored_height ++ (counted ++ concat hs)) in
    let l₂ = length-append (to_le 4 stored_height) (counted ++ concat hs) in
    let l₃ = length-append counted (concat hs) in
    let l₄ = length-concat hs formed.transactions in
    let four = en.length-to_le 4 stored_height in
    let eighty : length block.header ≡ 80 = formed.header in
    let (r₁, s₁) =
      Reads-append f m block.header (to_le 4 stored_height ++ (counted ++ concat hs)) shows.slab in
    let (r₂, s₂) =
      Reads-append f (m + length block.header) (to_le 4 stored_height) (counted ++ concat hs) s₁ in
    let (r₃, r₄) =
      Reads-append f (m + length block.header + length (to_le 4 stored_height)) counted (concat hs)
        s₂ in
    let size =
      read_size-Reads f end (m + 84) _ (length hs) shows.covers r₃ (omega (arith, eighty, four))
        (omega (arith, l₁, l₂, l₃, eighty, four)) few in
    rw shows.found (
      load-part f end m m 80 block.header shows.covers r₁ refl (sym eighty)
          (omega (arith, l₁, eighty)),
      field-Reads f end m 80 _ stored_height block.hash shows.covers r₂ (omega (arith, eighty))
          (omega (arith, l₁, l₂, eighty, four)) small,
      rw size,
      λ i h found.
          rw (size, ◌>>=◌)
            (hash_at f end (m + 84 + length counted) _ hs i h shows.covers r₄
              (omega (arith, eighty, four)) (omega (arith, l₁, l₂, l₃, l₄, eighty, four))
              formed.transactions found),
    )
