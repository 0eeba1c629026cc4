-- ===== src/Buckets/Chain.antt =====
-- The rows of one bucket, each of which lies below the one that links to it.
use mathlib.Core.Option
use bitprim_database.Prelude.{
  ℕ, zero, suc, ◌+◌, ◌≤◌, ◌<◌, ◌^◌, ◌≡◌, refl, ap, inl, inr, false, Option, none, some, List, [],
  ◌∷◌, arith, ◌==◌, eq→==, ne→==, if◌then◌else◌, Bool-cases, length, Bytes, bytes_eq, All, All-mono,
}
use bitprim_database.Run.{ok, ◌>>=◌}
use bitprim_database.Endian.{Endian}
use bitprim_database.MemoryMap.{MemoryMap}
use bitprim_database.HashTableHeader.{empty}
use bitprim_database.Row.{Layout, data_of}
use bitprim_database.Row.Entry.{Entry, size, Agrees, IsRow, IsRow-congr, compare-row, next_of-row}
use bitprim_database.Buckets.{find_loop}

-- The first row of the key, and the rows without it.
unfoldable pub find_entry : Bytes → List Entry → Option Entry
find_entry key [] = none
find_entry key (e ∷ es) = if bytes_eq key e.key then some e else find_entry key es

unfoldable pub remove_entry : Bytes → List Entry → List Entry
remove_entry key [] = []
remove_entry key (e ∷ es) = if bytes_eq key e.key then es else e ∷ remove_entry key es

-- A layout whose links are not empty.
pub record IsProper (L : Layout) : Type 0 where
  pub wide : 0 < L.width
  pub bound : 0 < 256 ^ L.width

module _ ⦃en : Endian⦄ (L : Layout) where
  abbrev pub first : List Entry → ℕ
  first [] = empty L.width
  first (e ∷ es) = e.link

  -- The rows `es` from `first es` on, each within `lo` and `hi` and below the row before it.
  abbrev pub Chain : MemoryMap → ℕ → ℕ → List Entry → Type 0
  Chain f lo hi [] = Unit
  Chain f lo hi (e ∷ es) =
      (lo ≤ L.address e.link)
      × (L.address e.link + size L e ≤ hi)
      × IsRow L f e (first es)
      × Chain f lo (L.address e.link) es

  pub Chain_congr :
      {f g : MemoryMap} {lo hi : ℕ} (lo' hi' : ℕ) (es : List Entry)
      → Agrees lo hi f g
      → lo ≤ lo'
      → hi' ≤ hi
      → Chain f lo' hi' es
      → Chain g lo' hi' es
  Chain_congr lo' hi' [] s l h c = tt
  Chain_congr lo' hi' (e ∷ es) s l h (a, b, r, c) = (
    a,
    b,
    IsRow-congr L s (omega arith) (omega arith) r,
    Chain_congr lo' (L.address e.link) es s l (omega arith) c,
  )

  pub Chain_weaken :
      (f : MemoryMap) (lo hi hi' : ℕ) (es : List Entry)
      → hi ≤ hi'
      → Chain f lo hi es
      → Chain f lo hi' es
  Chain_weaken f lo hi hi' [] h c = tt
  Chain_weaken f lo hi hi' (e ∷ es) h (a, b, r, c) = (a, omega arith, r, c)

  pub Chain-All :
      (f : MemoryMap) (lo hi : ℕ) (es : List Entry)
      → Chain f lo hi es
      → All (λ e. (lo ≤ L.address e.link) × (L.address e.link + size L e ≤ hi)) es
  Chain-All f lo hi [] c = tt
  Chain-All f lo hi (e ∷ es) (a, b, r, c) = (
    (a, b),
    All-mono es (λ x h. (h.0, omega (arith, h.1))) (Chain-All f lo (L.address e.link) es c),
  )

  module _ (proper : IsProper L) (f : MemoryMap) (lo : ℕ) where
    pub link-ne-first :
        (e : Entry) (es : List Entry)
        → suc e.link < 256 ^ L.width
        → Chain f lo (L.address e.link) es
        → (e.link == first es) ≡ false
    link-ne-first e [] u c = ne→== _ _ (omega arith)
    link-ne-first e (x ∷ xs) u c = ne→== _ _ (λ p.
        let q : L.address e.link ≡ L.address x.link = ap L.address p in
        absurd (omega (arith, proper.wide)))

    pub find_loop-chain :
        (key : Bytes) (fuel hi : ℕ) (es : List Entry)
        → length key ≡ L.key_size
        → hi < fuel
        → Chain f lo hi es
        → find_loop L key fuel f (first es)
          ≡ ok (Option.map (λ e. data_of L e.link) (find_entry key es))
    unfolding find_loop find_entry
    find_loop-chain key zero hi es k h c = absurd (omega arith)
    find_loop-chain key (suc fuel) hi [] k h c = rw (eq→== (empty L.width) _ refl)
    find_loop-chain key (suc fuel) hi (e ∷ es) k h (a, b, r, c) =
        rw
          (
            ne→== e.link (empty L.width) (omega (arith, r.body.used)),
            compare-row L key k r.body,
            ◌>>=◌,
          )
          (elim (Bool-cases (bytes_eq key e.key)) [
            | inl hit ↦ rw hit
            | inr miss ↦ rw (
              miss,
              next_of-row L r,
              ◌>>=◌,
              link-ne-first e es r.body.used c,
              find_loop-chain key fuel (L.address e.link) es k (omega (arith, proper.wide)) c,
            )
          ])
