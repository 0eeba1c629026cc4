-- ===== src/Buckets/Overwritten.antt =====
-- A table after the value of the first row of a key is written over.
use mathlib.Core.Path.{subst}
use bitprim_database.Prelude.{
  ℕ, ◌<◌, ◌≡◌, ◌∙◌, refl, sym, ap, inl, inr, some, List, ◌∷◌, arith, ◌==◌, eq→==, ==→eq, if_cases,
  Bool-cases, bytes_eq, eq_of_bytes_eq, length, Bytes, if◌then◌else◌, All, All-mono,
}
use bitprim_database.Endian.{Endian, to_le}
use bitprim_database.MemoryMap.{MemoryMap}
use bitprim_database.MemoryMap.Access.{Reads, written}
use bitprim_database.HashTableHeader.{item_position}
use bitprim_database.Row.{Layout, data_of}
use bitprim_database.Row.Entry.{Entry, Agrees, Reads_congr}
use bitprim_database.Buckets.{Hash, bucket_index}
use bitprim_database.Buckets.Chain.{find_entry, IsProper, first, Chain, Chain-All}
use bitprim_database.Buckets.Table.{
  IsTable, Apart, AllApart, AllApart-if, update, bucket_index-lt, slot_within,
}
use bitprim_database.Buckets.Lookup.{chain_apart}
use bitprim_database.Buckets.Overwriting.{
  overwrite_entry, first-overwrite_entry, Overwrites, Overwrites-find_entry, overwrite_entry-All,
  stack-overwrite_entry,
}
use bitprim_database.Buckets.Contents.{contents, stack, pop}

module _ ⦃en : Endian⦄ (L : Layout) (hash : Hash) (buckets lo : ℕ) (proper : IsProper L)
    {f : MemoryMap} {hi : ℕ} {view : ℕ → List Entry} (t : IsTable L hash buckets lo hi f view)
    (key v : Bytes) (e : Entry)
    (there : find_entry key (view (bucket_index L hash buckets key)) ≡ some e)
    (same : length v ≡ length e.value) where
  abbrev h : ℕ
  h = bucket_index L hash buckets key

  lt : h < buckets
  lt = bucket_index-lt L hash buckets key t.buckets_pos

  pub overwrites : Overwrites L proper lo key v f hi (view h) e
  overwrites = Overwrites-find_entry L proper lo key v hi (view h) e (t.chains h lt) there same

  abbrev pub overwritten : ℕ → List Entry
  overwritten = update view h (overwrite_entry key v (view h))

  abbrev g : MemoryMap
  g = written f (data_of L e.link) v

  apart_left :
      (ys : List Entry) → AllApart L (view h) ys → AllApart L (overwrite_entry key v (view h)) ys
  apart_left ys a =
      overwrite_entry-All (λ x. All (Apart L x) ys) key v (view h) e there
        (λ all.
          All-mono ys
            (λ y o. elim o [ inl p ↦ inl (omega arith) | inr p ↦ inr (omega (arith, same)) ]) all)
        a

  apart_right :
      (xs : List Entry) → AllApart L xs (view h) → AllApart L xs (overwrite_entry key v (view h))
  apart_right xs a =
      All-mono xs
        (λ x all.
          overwrite_entry-All (Apart L x) key v (view h) e there
            (λ o. elim o [ inl p ↦ inl (omega (arith, same)) | inr p ↦ inr (omega arith) ]) all)
        a

  firsts : (i : ℕ) → first L (view i) ≡ first L (overwritten i)
  firsts i =
      if_cases (λ xs. first L (view i) ≡ first L xs) (i == h)
        (λ q.
          ap (λ j. first L (view j)) (==→eq i h q)
          ∙ sym (first-overwrite_entry L proper lo key v (view h)))
        (λ q. refl)

  pub overwritten-IsTable : IsTable L hash buckets lo hi g overwritten
  overwritten-IsTable =
      let header : Agrees 0 lo f g = record {
        mapped = t.header.mapped;
        grows = omega arith;
        same = λ x l b. overwrites.touches.same x (
            All-mono (view h) (λ y o. inl (omega (arith, o.0)))
              (Chain-All L f lo hi (view h) (t.chains h lt)));
      } in
      record {
        buckets_pos = t.buckets_pos;
        header = record { mapped = t.header.mapped; within = t.header.within };
        above = t.above;
        heads = λ i l.
            subst (λ n. Reads g (item_position L.width i) (to_le L.width n)) (firsts i)
              (Reads_congr (item_position L.width i) (to_le L.width (first L (view i))) header
                (omega arith)
                (omega (
                  arith,
                  en.length-to_le L.width (first L (view i)),
                  slot_within L hash buckets lo proper t i l,
                ))
                (t.heads i l));
        chains = λ i l.
            if_cases (Chain L g lo hi) (i == h) (λ q. overwrites.chain)
              (λ q.
                chain_apart L lo (view h) hi (view i) t.header.mapped overwrites.touches
                  (t.apart i h l lt (λ z. cc (eq→== i h z))) (t.chains i l));
        homes = λ i l.
            if_cases (All (λ x. bucket_index L hash buckets x.key ≡ i)) (i == h)
              (λ q.
                overwrite_entry-All (λ x. bucket_index L hash buckets x.key ≡ i) key v (view h) e
                  there (λ p. p)
                  (subst (λ j. All (λ x. bucket_index L hash buckets x.key ≡ i) (view j))
                    (==→eq i h q) (t.homes i l)))
              (λ q. t.homes i l);
        apart = λ i j l l' ne.
            AllApart-if L (i == h) (j == h) (view i) (overwrite_entry key v (view h)) (view j)
              (overwrite_entry key v (view h))
              (λ p q. absurd (ne (==→eq i h p ∙ sym (==→eq j h q))))
              (λ p q.
                apart_left (view j)
                  (subst (λ k. AllApart L (view k) (view j)) (==→eq i h p) (t.apart i j l l' ne)))
              (λ p q.
                apart_right (view i)
                  (subst (λ k. AllApart L (view i) (view k)) (==→eq j h q) (t.apart i j l l' ne)))
              (λ p q. t.apart i j l l' ne);
      }

-- The abstract table after the write: `index` is the bucket of a key.
pub contents-overwritten :
    (index : Bytes → ℕ) (view : ℕ → List Entry) (q key v : Bytes) (e : Entry)
    → find_entry key (view (index key)) ≡ some e
    → contents index (update view (index key) (overwrite_entry key v (view (index key)))) q
      ≡ (if bytes_eq q key then v ∷ pop (contents index view q) else contents index view q)
contents-overwritten index view q key v e there =
    let changed = stack-overwrite_entry q key v (view (index key)) e there in
    elim (Bool-cases (index q == index key)) [
      | inl hit ↦ rw hit (
          subst
            (λ i.
              stack q (overwrite_entry key v (view (index key)))
              ≡ (if bytes_eq q key then v ∷ pop (stack q (view i)) else stack q (view i)))
            (sym (==→eq _ _ hit)) changed)
      | inr miss ↦ elim (Bool-cases (bytes_eq q key)) [
        | inl own ↦
            let p : index q ≡ index key = ap index (eq_of_bytes_eq q key own) in cc (eq→== _ _ p)
        | inr other ↦ rw (miss, other)
      ]
    ]
