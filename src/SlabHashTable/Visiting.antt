-- ===== src/SlabHashTable/Visiting.antt =====
-- `for_each` of include/bitcoin/database/impl/slab_hash_table.ipp.
use bitprim_database.Prelude.{
  ℕ, zero, suc, ◌+◌, ◌≤◌, ◌<◌, ◌≡◌, refl, ap, inl, inr, Bool, true, false, List, [], ◌∷◌, ◌++◌,
  arith, eq→==, ne→==, if◌then◌else◌, Bool-cases,
}
use bitprim_database.Run.{ok, ◌>>=◌}
use bitprim_database.Endian.{Endian}
use bitprim_database.MemoryMap.{MemoryMap}
use bitprim_database.HashTableHeader.{empty}
use bitprim_database.Row.{Layout, data_of}
use bitprim_database.Row.Entry.{Entry, next_of-row}
use bitprim_database.SlabRow.{layout}
use bitprim_database.Buckets.{Hash}
use bitprim_database.Buckets.Chain.{IsProper, first, Chain, link-ne-first}
use bitprim_database.Buckets.Table.{IsTable, read-first}
use bitprim_database.SlabHashTable.{SlabHashTable, visit_loop, visit_buckets, for_each}
use bitprim_database.SlabHashTable.Invariant.{layout-IsProper, IsSlabTable}

-- The places up to the first that the function stops at, that one included, and whether none
-- stops it.
abbrev pub visited : (ℕ → Bool) → List ℕ → List ℕ × Bool
visited f [] = ([], true)
visited f (p ∷ ps) =
    let (qs, more) = visited f ps in if f p then (p ∷ qs, more) else (p ∷ [], false)

-- The places of the values of some rows, and those of the buckets from `index` on, `left` of them.
abbrev pub places : Layout → List Entry → List ℕ
places L [] = []
places L (e ∷ es) = data_of L e.link ∷ places L es

abbrev pub all_places : Layout → (ℕ → List Entry) → ℕ → ℕ → List ℕ
all_places L view zero index = []
all_places L view (suc left) index = places L (view index) ++ all_places L view left (index + 1)

visited-append :
    (f : ℕ → Bool) (xs ys : List ℕ)
    → (visited f (xs ++ ys)).0
      ≡ (if (visited f xs).1 then (visited f xs).0 ++ (visited f ys).0 else (visited f xs).0)
visited-append f [] ys = refl
visited-append f (x ∷ xs) ys =
    let ih = visited-append f xs ys in
    elim (Bool-cases (f x)) [
      | inl more ↦ elim (Bool-cases ((visited f xs).1)) [
        | inl on ↦ rw (more, on) (ap (λ zs. x ∷ zs) (rw on at ih))
        | inr off ↦ rw (more, off) (ap (λ zs. x ∷ zs) (rw off at ih))
      ]
      | inr stop ↦ rw stop
    ]

module _ ⦃en : Endian⦄ (L : Layout) (f : ℕ → Bool) where
  module _ (proper : IsProper L) (file : MemoryMap) (lo : ℕ) where
    visit_loop-visited :
        (fuel hi : ℕ) (es : List Entry)
        → hi < fuel
        → Chain L file lo hi es
        → visit_loop L f fuel file (first L es) ≡ ok (visited f (places L es))
    unfolding visit_loop
    visit_loop-visited zero hi es h c = absurd (omega arith)
    visit_loop-visited (suc fuel) hi [] h c = rw (eq→== (empty L.width) _ refl)
    visit_loop-visited (suc fuel) hi (e ∷ es) h (a, b, r, c) =
        rw (ne→== e.link (empty L.width) (omega (arith, r.body.used)))
          (elim (Bool-cases (f (data_of L e.link))) [
            | inr stop ↦ rw stop
            | inl more ↦ rw (
              more,
              next_of-row L r,
              ◌>>=◌,
              link-ne-first L proper file lo e es r.body.used c,
              visit_loop-visited fuel (L.address e.link) es (omega (arith, proper.wide)) c,
            )
          ])

  module _ (proper : IsProper L) (hash : Hash) {buckets lo hi : ℕ} {file : MemoryMap}
      {view : ℕ → List Entry} (t : IsTable L hash buckets lo hi file view) where
    visit_buckets-visited :
        (fuel left index : ℕ)
        → hi < fuel
        → index + left ≤ buckets
        → visit_buckets L f fuel file left index ≡ ok (visited f (all_places L view left index)).0
    unfolding visit_buckets
    visit_buckets-visited fuel zero index h l = refl
    visit_buckets-visited fuel (suc left) index h l =
        let lt : index < buckets = omega arith in
        rw
          (
            read-first L hash buckets lo proper t index lt,
            ◌>>=◌,
            visit_loop-visited proper file lo fuel hi (view index) h (t.chains index lt),
            visit_buckets-visited fuel left (index + 1) h (omega arith),
            visited-append f (places L (view index)) (all_places L view left (index + 1)),
          )
          (elim (Bool-cases ((visited f (places L (view index))).1)) [
            | inl on ↦ rw on
            | inr off ↦ rw off
          ])

-- `for_each` on a well formed slab hash table returns, and has called the function with the places
-- of the values of all rows, bucket by bucket and newest first, up to the first at which the
-- function stops, that one included.
pub for_each-visited :
    ⦃en : Endian⦄ (f : ℕ → Bool) (hash : Hash) (t : SlabHashTable) (view : ℕ → List Entry)
    → IsSlabTable hash t view
    → for_each f t ≡ ok (visited f (all_places (layout t.key_size t.manager) view t.buckets 0)).0
unfolding for_each
for_each-visited f hash t view valid =
    visit_buckets-visited (layout t.key_size t.manager) f (layout-IsProper t.key_size t.manager)
      hash valid.table (suc t.manager.file.file_size) t.buckets 0 (omega (arith, valid.ready.holds))
      (omega arith)
