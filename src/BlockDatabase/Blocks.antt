-- ===== src/BlockDatabase/Blocks.antt =====
-- The blocks of src/databases/block_database.cpp by height and by hash.
use mathlib.Core.List.{Memᴰ}
use mathlib.Core.Path.{subst}
use bitprim_database.Prelude.{
  ℕ, suc, ◌+◌, ◌-◌, ◌≤◌, ◌<◌, ◌^◌, ◌≡◌, ◌∙◌, refl, sym, ap, inl, inr, Option, none, some, List, [],
  ◌∷◌, arith, ltb, ltb→lt, lt→ltb, ◌==◌, ==→eq, Bool-cases, length, Bytes, is_some, ltb_no, not,
  ◌&&◌,
}
use bitprim_database.Run.{ok, ◌>>=◌, Returns}
use bitprim_database.Endian.{Endian, file_offset_bound}
use bitprim_database.MemoryMap.{MemoryMap}
use bitprim_database.MemoryMap.Access.{Covers, Reads, load-Reads}
use bitprim_database.RecordManager
use bitprim_database.SlabManager.Allocation.{get-add}
use bitprim_database.SlabManager as Slabs
use bitprim_database.SlabManager.{SlabManager}
use bitprim_database.SlabRow.{layout}
use bitprim_database.Row.{Layout}
use bitprim_database.Row.Entry.{Entry, size, IsBody}
use bitprim_database.Buckets.{Hash}
use bitprim_database.Buckets.Chain.{Chain}
use bitprim_database.Buckets.Table.{update}
use bitprim_database.Buckets.Contents.{contents}
use bitprim_database.SlabHashTable.Invariant.{index_of, IsSlabTable}
use bitprim_database.BlockIndex as Index
use bitprim_database.BlockIndex.Heights.{Indexes, read_position-Indexes, exists-Indexes}
use bitprim_database.BlockResult.{BlockResult, block_result, unhashed_result, hash_size}
use bitprim_database.BlockDatabase.{BlockDatabase, get_at}

-- A block as it is stored: its hash and the bytes of its slab.
pub record Stored : Type 0 where
  pub hash : Bytes
  pub slab : Bytes

-- A row of some bucket, at the position of a block; no block is at the position 0.
pub data Located (buckets : ℕ) (view : ℕ → List Entry) : ℕ → Option Stored → Type 0 where
  vacant : Located buckets view 0 none
  held :
      (i : ℕ) (e : Entry)
      → i < buckets
      → Memᴰ e (view i)
      → Located buckets view (e.link + 40) (some (record { hash = e.key; slab = e.value }))

Located-is_some :
    {buckets : ℕ} {view : ℕ → List Entry} {position : ℕ} {b : Option Stored}
    → Located buckets view position b
    → not (position == 0) ≡ is_some b
Located-is_some vacant = refl
Located-is_some (held i e l m) = ground arith

-- A row stays where it is when another one is pushed.
pub Located-update :
    (buckets : ℕ) (view : ℕ → List Entry) (h : ℕ) (row : Entry) (position : ℕ) (b : Option Stored)
    → Located buckets view position b
    → Located buckets (update view h (row ∷ view h)) position b
Located-update buckets view h row position b vacant = vacant
Located-update buckets view h row position b (held i e l m) =
    held i e l (elim (Bool-cases (i == h)) [
      | inl same ↦ rw same (Memᴰ.tail (subst (λ k. Memᴰ e (view k)) (==→eq i h same) m))
      | inr other ↦ rw other m
    ])

module _ ⦃en : Endian⦄ (L : Layout) where
  Chain-IsBody :
      (f : MemoryMap) (lo hi : ℕ) (es : List Entry) (e : Entry)
      → Chain L f lo hi es
      → Memᴰ e es
      → IsBody L f e × (lo ≤ L.address e.link) × (L.address e.link + size L e ≤ hi)
  Chain-IsBody f lo hi [] e c m = elim m [ ]
  Chain-IsBody f lo hi (x ∷ es) e (a, b, r, c) (Memᴰ.head same) = rw same (r.body, a, b)
  Chain-IsBody f lo hi (x ∷ es) e (a, b, r, c) (Memᴰ.tail m) =
      let (body, above, below) = Chain-IsBody f lo (L.address x.link) es e c m in
      (body, above, omega arith)

-- A place at which the slab of a block is read.
pub record Shows (f : MemoryMap) (b : Stored) (r : BlockResult) : Type 0 where
  pub memory : ℕ
  pub found : r ≡ block_result (some memory) b.hash
  pub covers : Covers f (memory + length b.slab)
  pub slab : Reads f memory b.slab

-- No address that is at least the end of the header has wrapped around.
get_above :
    (m : SlabManager) (link : ℕ)
    → m.header_size < file_offset_bound
    → suc link < 256 ^ 8
    → m.header_size + 8 ≤ Slabs.get m link
    → Slabs.get m link ≡ m.header_size + link
unfolding Slabs.get
get_above m link header used above = omega arith

module _ ⦃en : Endian⦄ (hash : Hash) where
  -- A started database of `n` heights that holds `blocks i` at the height `i` and the slabs `c key`
  -- under each hash, the newest first.
  pub record Keeps (db : BlockDatabase) (n : ℕ) (blocks : ℕ → Option Stored)
      (c : Bytes → List Bytes) : Type 0 where
    pub keyed : db.lookup_map.key_size ≡ hash_size
    pub positions : ℕ → ℕ
    pub index : Indexes db.index n positions
    pub view : ℕ → List Entry
    pub table : IsSlabTable hash db.lookup_map view
    pub reads : (key : Bytes) → contents (index_of hash db.lookup_map) view key ≡ c key
    pub located : (i : ℕ) → i < n → Located db.lookup_map.buckets view (positions i) (blocks i)

  get_at-Located :
      (db : BlockDatabase) (height n : ℕ) (blocks : ℕ → Option Stored) (c : Bytes → List Bytes)
      (h : Keeps db n blocks c)
      → height < n
      → (position : ℕ) (b : Stored) → Index.read_position db.index height ≡ ok position
      → Located db.lookup_map.buckets h.view position (some b)
      → Returns (get_at height db) (Shows db.lookup_map.manager.file b)
  unfolding get_at RecordManager.count block_result
  get_at-Located db height n blocks c h below position b run (held i e l m) =
      let M = db.lookup_map.manager in
      let L = layout db.lookup_map.key_size M in
      let (body, above, inside) =
        Chain-IsBody L M.file _ _ (h.view i) e (h.table.table.chains i l) m in
      let memory = Slabs.get M (e.link + 40) in
      let keyed : db.lookup_map.key_size ≡ 32 = h.keyed in
      let low : Slabs.get M e.link ≡ M.header_size + e.link =
        get_above M e.link (omega (arith, h.table.exact)) body.used above in
      let high : memory ≡ M.header_size + (e.link + 40) =
        get-add M (e.link + 40) (omega (arith, h.table.exact, inside, low)) in
      let place : Slabs.get M e.link + 40 ≡ memory = omega (arith, low, high) in
      let key_place : Slabs.get M e.link + 0 ≡ memory - (db.lookup_map.key_size + 8) =
        omega (arith, low, high, keyed) in
      let long : length e.key ≡ 32 = body.keyed ∙ keyed in
      (
        block_result (some memory) e.key,
        rw (
          ap (λ k. ltb height k) h.index.counted,
          lt→ltb height n below,
          run,
          ◌>>=◌,
          ltb_no memory (db.lookup_map.key_size + 8) (omega (arith, high, keyed)),
          load-Reads M.file (memory - (db.lookup_map.key_size + 8)) e.key (sym long)
              (record {
                mapped = body.covers.mapped;
                within = omega (arith, body.covers.within, key_place, keyed);
              })
              (subst (λ a. Reads M.file a e.key) key_place body.key),
        ),
        record {
          memory = memory;
          found = refl;
          covers = record {
            mapped = body.covers.mapped;
            within = omega (arith, body.covers.within, place, keyed);
          };
          slab =
              subst (λ a. Reads M.file a e.value)
                (ap (λ k. Slabs.get M e.link + (k + 8)) keyed ∙ place) body.value;
        },
      )

  -- In a block database that keeps a block at a height, `get` of that height returns the hash of
  -- the block and the place of its slab.
  pub get_at-Keeps :
      (db : BlockDatabase) (n : ℕ) (blocks : ℕ → Option Stored) (c : Bytes → List Bytes)
      (height : ℕ) (b : Stored)
      → Keeps db n blocks c
      → height < n
      → blocks height ≡ some b
      → Returns (get_at height db) (Shows db.lookup_map.manager.file b)
  get_at-Keeps db n blocks c height b h below there =
      get_at-Located db height n blocks c h below (h.positions height) b
        (read_position-Indexes db.index n h.positions height h.index below)
        (subst (λ o. Located db.lookup_map.buckets h.view (h.positions height) o) there
          (h.located height below))

  -- `exists` of a height tells whether a block is there, and `get` of a height beyond all blocks
  -- gives no block.
  pub exists-Keeps :
      (db : BlockDatabase) (n : ℕ) (blocks : ℕ → Option Stored) (c : Bytes → List Bytes)
      (height : ℕ)
      → Keeps db n blocks c
      → (Index.exists db.index height ≡ ok (ltb height n && is_some (blocks height)))
        × (n ≤ height → get_at height db ≡ ok (unhashed_result none))
  unfolding get_at RecordManager.count
  exists-Keeps db n blocks c height h = (
    exists-Indexes db.index n h.positions height h.index ∙ elim (Bool-cases (ltb height n)) [
      | inl below ↦ rw (below, Located-is_some (h.located height (ltb→lt height n below)))
      | inr above ↦ rw above
    ],
    λ l. rw (ap (λ k. ltb height k) h.index.counted, ltb_no height n l),
  )
