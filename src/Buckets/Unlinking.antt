-- ===== src/Buckets/Unlinking.antt =====
-- The loop of `unlink` in include/bitcoin/database/impl/record_hash_table.ipp.
use bitprim_database.Prelude.{
  ℕ, zero, suc, ◌+◌, ◌≤◌, ◌<◌, ◌≡◌, refl, ◌⊎◌, inl, inr, Bool, true, false, List, [], ◌∷◌, arith,
  eq→==, ne→==, Bool-cases, length, Bytes, bytes_eq, is_some, All, All-mono,
}
use bitprim_database.Run.{ok, ◌>>=◌, Returns}
use bitprim_database.Bytes.{write_bytes_outside}
use bitprim_database.Endian.{Endian, to_le}
use bitprim_database.MemoryMap.{MemoryMap}
use bitprim_database.HashTableHeader.{empty}
use bitprim_database.Row.{Layout}
use bitprim_database.Row.Entry.{
  Entry, size, Agrees, Agrees-written, IsRow-congr, relinked, compare-row, next_of-row,
  write_next-IsRow,
}
use bitprim_database.Buckets.{release, unlink_loop}
use bitprim_database.Buckets.Chain.{
  find_entry, remove_entry, IsProper, first, Chain, Chain_congr, Chain_weaken, Chain-All,
  link-ne-first,
}

module _ (L : Layout) where
  abbrev pub Outside : ℕ → Entry → Type 0
  Outside a e = (a < L.address e.link) ⊎ (L.address e.link + size L e ≤ a)

  -- `g` is `f` but for bytes within the rows `es`.
  pub record Touches (es : List Entry) (f g : MemoryMap) : Type 0 where
    pub only_bytes : g ≡ record f { bytes = g.bytes }
    pub same : (a : ℕ) → All (Outside a) es → g.bytes a ≡ f.bytes a

module _ ⦃en : Endian⦄ (L : Layout) (proper : IsProper L) (lo : ℕ) where
  pub above_chain :
      (f : MemoryMap) {hi : ℕ} (a : ℕ) (es : List Entry)
      → hi ≤ a
      → Chain L f lo hi es
      → All (Outside L a) es
  above_chain f {hi} a es h c =
      All-mono es (λ e b. inr (omega (arith, b.1))) (Chain-All L f lo hi es c)

  -- The outcome of looking for the key in `es`, behind the row `p`.
  pub record Unlinks (key : Bytes) (f : MemoryMap) (hi : ℕ) (p : Entry) (es : List Entry)
      (r : Bool × MemoryMap) : Type 0 where
    pub found : r.0 ≡ is_some (find_entry key es)
    pub chain : Chain L r.1 lo hi (p ∷ remove_entry key es)
    pub touches : Touches L (p ∷ es) f r.1

  module _ (key : Bytes) (k : length key ≡ L.key_size) where
    unlink_hit :
        {f : MemoryMap} {hi : ℕ} (p e : Entry) (es : List Entry)
        → Chain L f lo hi (p ∷ e ∷ es)
        → bytes_eq key e.key ≡ true
        → (release L f e.link p.link ≡ ok (relinked L f p (first L es)))
          × Unlinks key f hi p (e ∷ es) (true, relinked L f p (first L es))
    unfolding release find_entry remove_entry
    unlink_hit {f} {hi} p e es (a, b, r, (a', b', r', c)) hit =
        let n = first L es in
        let (run, row) = write_next-IsRow L n r'.next_fits r.body in
        let wide : length (to_le L.width n) ≡ L.width = en.length-to_le L.width n in
        (
          rw (next_of-row L r', ◌>>=◌, run),
          record {
            found = rw hit;
            chain = rw hit (
              a,
              b,
              row,
              Chain_congr L lo (L.address p.link) es
                  (Agrees-written {lo = lo} {hi = L.address p.link} f _ (to_le L.width n)
                    r.body.covers.mapped (λ x l h. inl (omega arith)))
                  (omega arith) (omega arith)
                  (Chain_weaken L f lo (L.address e.link) (L.address p.link) es (omega arith) c),
            );
            touches = record {
              only_bytes = refl;
              same = λ x o.
                  write_bytes_outside f.bytes _ (to_le L.width n) x
                    (elim o.0 [ inl l ↦ inl (omega arith) | inr l ↦ inr (omega arith) ]);
            };
          },
        )

    -- The rows below `p` are changed, and `p` is not.
    unlink_miss :
        {f : MemoryMap} {hi : ℕ} (p e : Entry) (es : List Entry)
        → Chain L f lo hi (p ∷ e ∷ es)
        → bytes_eq key e.key ≡ false
        → (res : Bool × MemoryMap) → Unlinks key f (L.address p.link) e es res
        → Unlinks key f hi p (e ∷ es) res
    unfolding find_entry remove_entry
    unlink_miss {f} p e es (a, b, r, below) miss res post = record {
      found = rw miss post.found;
      chain = rw miss (a, b, IsRow-congr L agrees (omega arith) (omega arith) r, post.chain);
      touches = record {
        only_bytes = post.touches.only_bytes;
        same = λ x o. post.touches.same x o.1;
      };
    }
      where
        agrees : Agrees (L.address p.link) (L.address p.link + size L p) f res.1
        agrees = record {
          mapped = rw post.touches.only_bytes r.body.covers.mapped;
          grows = rw post.touches.only_bytes (omega arith);
          same = λ x l h. post.touches.same x (above_chain f x (e ∷ es) l below);
        }

    pub unlink_loop-Unlinks :
        (fuel : ℕ) {f : MemoryMap} {hi : ℕ} (p : Entry) (es : List Entry)
        → L.address p.link < fuel
        → Chain L f lo hi (p ∷ es)
        → Returns (unlink_loop L key fuel f p.link (first L es)) (Unlinks key f hi p es)
    unfolding unlink_loop find_entry remove_entry
    unlink_loop-Unlinks zero p es h c = absurd (omega arith)
    unlink_loop-Unlinks (suc fuel) {f} p [] h c = (
      (false, f),
      rw (eq→== (empty L.width) _ refl),
      record {
        found = refl;
        chain = c;
        touches = record { only_bytes = refl; same = λ a o. refl };
      },
    )
    unlink_loop-Unlinks (suc fuel) {f} {hi} p (e ∷ es) h c =
        let (a, b, r, below) = c in
        let (a', b', r', rest) = below in
        let start = (ne→== e.link (empty L.width) (omega (arith, r'.body.used))) in
        elim (Bool-cases (bytes_eq key e.key)) [
          | inl hit ↦
              let (run, post) = unlink_hit p e es c hit in
              (
                (true, relinked L f p (first L es)),
                rw (start, compare-row L key k r'.body, ◌>>=◌, hit, run),
                post,
              )
          | inr miss ↦
              let (res, run, post) =
                unlink_loop-Unlinks fuel e es (omega (arith, proper.wide)) below in
              (
                res,
                rw (
                  start,
                  compare-row L key k r'.body,
                  ◌>>=◌,
                  miss,
                  next_of-row L r',
                  link-ne-first L proper f lo e es r'.body.used rest,
                  run,
                ),
                unlink_miss p e es c miss res post,
              )
        ]
