-- ===== src/Buckets/Overwriting.antt =====
-- Writing over the value of the first row of a key, which `update` of
-- include/bitcoin/database/impl/slab_hash_table.ipp does.
use mathlib.Core.Path.{subst}
use bitprim_database.Prelude.{
  ℕ, ◌+◌, ◌≡◌, ◌∙◌, refl, sym, ap, inl, inr, true, false, some, List, [], ◌∷◌, arith, Bool-cases,
  length, Bytes, bytes_eq, bytes_eq_refl, eq_of_bytes_eq, if◌then◌else◌, All,
}
use bitprim_database.Bytes.{write_bytes_outside}
use bitprim_database.Endian.{Endian, to_le}
use bitprim_database.MemoryMap.{MemoryMap}
use bitprim_database.MemoryMap.Access.{Covers, written, written-Reads, written_apart}
use bitprim_database.Row.{Layout, data_of}
use bitprim_database.Row.Entry.{Entry, size, Agrees, Agrees-written, IsRow-congr}
use bitprim_database.Buckets.Chain.{find_entry, IsProper, first, Chain, Chain_congr}
use bitprim_database.Buckets.Contents.{stack, pop}
use bitprim_database.Buckets.Unlinking.{Touches, above_chain}

-- The rows with another value in the first row of the key.
unfoldable pub overwrite_entry : Bytes → Bytes → List Entry → List Entry
overwrite_entry key v [] = []
overwrite_entry key v (e ∷ es) =
    if bytes_eq key e.key then record e { value = v } ∷ es else e ∷ overwrite_entry key v es

module _ ⦃en : Endian⦄ (L : Layout) (proper : IsProper L) (lo : ℕ) (key v : Bytes) where
  pub first-overwrite_entry : (es : List Entry) → first L (overwrite_entry key v es) ≡ first L es
  unfolding overwrite_entry
  first-overwrite_entry [] = refl
  first-overwrite_entry (e ∷ es) = elim (Bool-cases (bytes_eq key e.key)) [
    | inl hit ↦ rw hit
    | inr miss ↦ rw miss
  ]

  -- The chain after the value of `e`, the first row of the key, is written over.
  pub record Overwrites (f : MemoryMap) (hi : ℕ) (es : List Entry) (e : Entry) : Type 0 where
    pub chain : Chain L (written f (data_of L e.link) v) lo hi (overwrite_entry key v es)
    pub touches : Touches L es f (written f (data_of L e.link) v)
    pub covers : Covers f (data_of L e.link + length v)

  overwrite_hit :
      {f : MemoryMap} {hi : ℕ} (e : Entry) (es : List Entry)
      → Chain L f lo hi (e ∷ es)
      → bytes_eq key e.key ≡ true
      → length v ≡ length e.value
      → Overwrites f hi (e ∷ es) e
  unfolding overwrite_entry
  overwrite_hit {f} {hi} e es (a, b, r, c) hit same =
      let g = written f (data_of L e.link) v in
      let b' = r.body in
      record {
        chain = rw hit (
          a,
          omega (arith, same),
          record {
            body = record {
              covers = record {
                mapped = b'.covers.mapped;
                within = omega (arith, b'.covers.within, same);
              };
              keyed = b'.keyed;
              used = b'.used;
              key = written_apart f _ v _ e.key (inl (omega (arith, b'.keyed))) b'.key;
              value = written-Reads f (data_of L e.link) v;
            };
            next =
                written_apart f _ v _ (to_le L.width (first L es))
                  (inl (omega (arith, en.length-to_le L.width (first L es)))) r.next;
            next_fits = r.next_fits;
          },
          Chain_congr L lo (L.address e.link) es
              (Agrees-written {lo = lo} {hi = L.address e.link} f _ v b'.covers.mapped
                (λ x l h. inl (omega arith)))
              (omega arith) (omega arith) c,
        );
        touches = record {
          only_bytes = refl;
          same = λ x o.
              write_bytes_outside f.bytes _ v x
                (elim o.0 [ inl l ↦ inl (omega arith) | inr l ↦ inr (omega (arith, same)) ]);
        };
        covers = record {
          mapped = b'.covers.mapped;
          within = omega (arith, b'.covers.within, same);
        };
      }

  overwrite_miss :
      {f : MemoryMap} {hi : ℕ} (p : Entry) (es : List Entry) (e : Entry)
      → Chain L f lo hi (p ∷ es)
      → bytes_eq key p.key ≡ false
      → Overwrites f (L.address p.link) es e
      → Overwrites f hi (p ∷ es) e
  unfolding overwrite_entry
  overwrite_miss {f} p es e (a, b, r, c) miss o =
      let g = written f (data_of L e.link) v in
      let agrees : Agrees (L.address p.link) (L.address p.link + size L p) f g = record {
        mapped = r.body.covers.mapped;
        grows = omega arith;
        same = λ x l h. o.touches.same x (above_chain L proper lo f x es l c);
      } in
      record {
        chain = rw miss (
          a,
          b,
          rw (first-overwrite_entry es) (IsRow-congr L agrees (omega arith) (omega arith) r),
          o.chain,
        );
        touches = record { only_bytes = refl; same = λ x out. o.touches.same x out.1 };
        covers = o.covers;
      }

  pub Overwrites-find_entry :
      {f : MemoryMap} (hi : ℕ) (es : List Entry) (e : Entry)
      → Chain L f lo hi es
      → find_entry key es ≡ some e
      → length v ≡ length e.value
      → Overwrites f hi es e
  unfolding find_entry
  Overwrites-find_entry hi [] e c h same = cc
  Overwrites-find_entry {f} hi (p ∷ es) e c h same = elim (Bool-cases (bytes_eq key p.key)) [
    | inl hit ↦
        let q : p ≡ e = cc (rw hit at h) in
        subst (λ x. Overwrites f hi (p ∷ es) x) q
          (overwrite_hit p es c hit (same ∙ ap (λ (x : Entry). length x.value) (sym q)))
    | inr miss ↦
        overwrite_miss p es e c miss
          (Overwrites-find_entry (L.address p.link) es e c.3 (rw miss at h) same)
  ]

-- What holds of all rows and of the changed one holds of the rows after the change.
pub overwrite_entry-All {κ} :
    (P : Entry → Type κ) (key v : Bytes) (es : List Entry) (e : Entry)
    → find_entry key es ≡ some e
    → (P e → P (record e { value = v }))
    → All P es
    → All P (overwrite_entry key v es)
unfolding overwrite_entry find_entry
overwrite_entry-All P key v [] e h step all = tt
overwrite_entry-All P key v (p ∷ es) e h step all = elim (Bool-cases (bytes_eq key p.key)) [
  | inl hit ↦
      let q : e ≡ p = cc (rw hit at h) in
      rw hit (subst (λ (x : Entry). P x → P (record x { value = v })) q step all.0, all.1)
  | inr miss ↦ rw miss (all.0, overwrite_entry-All P key v es e (rw miss at h) step all.1)
]

-- The stack of the key has another top, and every other stack is the same.
pub stack-overwrite_entry :
    (q key v : Bytes) (es : List Entry) (e : Entry)
    → find_entry key es ≡ some e
    → stack q (overwrite_entry key v es)
      ≡ (if bytes_eq q key then v ∷ pop (stack q es) else stack q es)
unfolding overwrite_entry find_entry stack
stack-overwrite_entry q key v [] e h = cc
stack-overwrite_entry q key v (p ∷ es) e h = elim (Bool-cases (bytes_eq key p.key)) [
  | inl hit ↦ elim (Bool-cases (bytes_eq q key)) [
    | inl own ↦
        let same : q ≡ p.key = eq_of_bytes_eq q key own ∙ eq_of_bytes_eq key p.key hit in
        let there : bytes_eq q p.key ≡ true = rw same (bytes_eq_refl p.key) in rw (hit, own, there)
    | inr other ↦
        let miss : bytes_eq q p.key ≡ false = rw (eq_of_bytes_eq key p.key hit) at other in
        rw (hit, other, miss)
  ]
  | inr miss ↦
      let ih = stack-overwrite_entry q key v es e (rw miss at h) in
      elim (Bool-cases (bytes_eq q key)) [
        | inl own ↦
            let same : q ≡ key = eq_of_bytes_eq q key own in
            let other : bytes_eq q p.key ≡ false = rw same miss in
            rw (miss, own, other) (rw own at ih)
        | inr apart ↦ elim (Bool-cases (bytes_eq q p.key)) [
          | inl there ↦ rw (miss, apart, there) (ap (λ vs. p.value ∷ vs) (rw apart at ih))
          | inr away ↦ rw (miss, apart, away) (rw apart at ih)
        ]
      ]
]
