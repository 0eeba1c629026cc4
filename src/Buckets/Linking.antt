-- ===== src/Buckets/Linking.antt =====
-- A new row becomes the first of its bucket: the second half of `store`.
use bitprim_database.Prelude.{
  ℕ, ◌+◌, ◌≤◌, ◌<◌, ◌≡◌, ◌≢◌, ◌∙◌, refl, sym, inl, inr, List, ◌∷◌, arith, ◌==◌, ==→eq, Bool-cases,
  All, All-mono,
}
use mathlib.Core.Path.{subst}
use bitprim_database.Run.{◌>>=◌, Returns}
use bitprim_database.Endian.{Endian, to_le}
use bitprim_database.MemoryMap.{MemoryMap}
use bitprim_database.MemoryMap.Access.{written}
use bitprim_database.HashTableHeader.{item_position}
use bitprim_database.Row.{Layout}
use bitprim_database.Row.Entry.{
  Entry, size, Agrees, Agrees-written, Reads_congr, IsBody, IsRow-congr, relinked, write_next-IsRow,
}
use bitprim_database.Buckets.{Hash, bucket_index, link_row}
use bitprim_database.Buckets.Chain.{IsProper, first, Chain, Chain_congr, Chain_weaken, Chain-All}
use bitprim_database.Buckets.Table.{
  Apart, AllApart, AllApart-cons, AllApart-if, bucket_index-lt, update, IsTable, first-lt,
  slot_within, read_bucket_value-first, link_bucket-heads,
}

module _ ⦃en : Endian⦄ (L : Layout) (hash : Hash) (buckets lo : ℕ) (proper : IsProper L) where
  -- A table is one still in a file that has grown above its rows.
  pub IsTable-congr :
      {f g : MemoryMap} {hi : ℕ} {view : ℕ → List Entry}
      → Agrees 0 hi f g
      → lo ≤ hi
      → IsTable L hash buckets lo hi f view
      → IsTable L hash buckets lo hi g view
  IsTable-congr {hi} {view} s below t = record {
    buckets_pos = t.buckets_pos;
    header = record { mapped = s.mapped; within = omega (arith, t.header.within, s.grows) };
    above = t.above;
    heads = λ i l.
        Reads_congr _ (to_le L.width (first L (view i))) s (omega arith)
          (omega (
            arith,
            slot_within L hash buckets lo proper t i l,
            en.length-to_le L.width (first L (view i)),
          ))
          (t.heads i l);
    chains = λ i l. Chain_congr L lo hi (view i) s (omega arith) (omega arith) (t.chains i l);
    homes = t.homes;
    apart = t.apart;
  }

  module _ {f : MemoryMap} {hi : ℕ} {view : ℕ → List Entry}
      (t : IsTable L hash buckets lo hi f view) (below : lo ≤ hi) (e : Entry) (body : IsBody L f e)
      (fresh : hi ≤ L.address e.link) (hi' : ℕ) (room : L.address e.link + size L e ≤ hi') where
    -- The views with the row in front.
    abbrev pushed : ℕ → List Entry
    pushed =
        update view (bucket_index L hash buckets e.key)
          (e ∷ view (bucket_index L hash buckets e.key))

    linked : MemoryMap
    linked = relinked L f e (first L (view (bucket_index L hash buckets e.key)))

    stored : MemoryMap
    unfolding linked
    stored =
        written linked (item_position L.width (bucket_index L hash buckets e.key))
          (to_le L.width e.link)

    Agrees-below : Agrees 0 hi f linked
    unfolding linked
    Agrees-below = Agrees-written f _ _ body.covers.mapped (λ x l r. inl (omega arith))

    Agrees-above : Agrees lo hi' linked stored
    unfolding stored linked
    Agrees-above = Agrees-written linked _ (to_le L.width e.link) body.covers.mapped (λ x l r. inr (
        omega (
          arith,
          en.length-to_le L.width e.link,
          slot_within L hash buckets lo proper t _
              (bucket_index-lt L hash buckets e.key t.buckets_pos),
        )))

    -- Where the new row lies among the others.
    new-Apart : (i : ℕ) → i < buckets → All (λ x. Apart L x e × Apart L e x) (view i)
    new-Apart i l =
        All-mono (view i) (λ x b. (inr (omega (arith, b.1)), inl (omega (arith, b.1))))
          (Chain-All L f lo hi (view i) (t.chains i l))

    pushed_apart : (i j : ℕ) → i < buckets → j < buckets → i ≢ j → AllApart L (pushed i) (pushed j)
    pushed_apart i j l m ne =
        let h = bucket_index L hash buckets e.key in
        AllApart-if L (i == h) (j == h) (view i) (e ∷ view h) (view j) (e ∷ view h)
          (λ p q. absurd (ne (==→eq i h p ∙ sym (==→eq j h q))))
          (λ p q. (
            All-mono (view j) (λ x b. b.1) (new-Apart j m),
            subst (λ k. AllApart L (view k) (view j)) (==→eq i h p) (t.apart i j l m ne),
          ))
          (λ p q.
            AllApart-cons L (view i) e (view h) (All-mono (view i) (λ x b. b.0) (new-Apart i l))
              (subst (λ k. AllApart L (view i) (view k)) (==→eq j h q) (t.apart i j l m ne)))
          (λ p q. t.apart i j l m ne)

    pushed_chain : (i : ℕ) → i < buckets → Chain L stored lo hi' (pushed i)
    unfolding linked
    pushed_chain i l =
        let h = bucket_index L hash buckets e.key in
        let lt = bucket_index-lt L hash buckets e.key t.buckets_pos in
        let kept = λ (j k : ℕ) (m : j < buckets) (up : hi ≤ k) (top : k ≤ hi').
          Chain_weaken L stored lo hi k (view j) up (
            Chain_congr L lo hi (view j) Agrees-above (omega arith) (omega arith) (
              Chain_congr L lo hi (view j) Agrees-below (omega arith) (omega arith)
                (t.chains j m))) in
        let (run, row) =
          write_next-IsRow L (first L (view h))
            (first-lt L hash buckets lo f hi proper (view h) (t.chains h lt)) body in
        elim (Bool-cases (i == h)) [
          | inl p ↦ rw p (
            omega arith,
            room,
            IsRow-congr L Agrees-above (omega arith) room row,
            kept h (L.address e.link) lt fresh (omega arith),
          )
          | inr p ↦ rw p (kept i hi' l (omega arith) (omega arith))
        ]

    pushed_homes :
        (i : ℕ) → i < buckets → All (λ x. bucket_index L hash buckets x.key ≡ i) (pushed i)
    pushed_homes i l =
        let h = bucket_index L hash buckets e.key in
        elim (Bool-cases (i == h)) [
          | inl p ↦
              let lt = bucket_index-lt L hash buckets e.key t.buckets_pos in
              let same : h ≡ i = sym (==→eq i h p) in
              rw p (
                same,
                subst (λ k. All (λ x. bucket_index L hash buckets x.key ≡ k) (view h)) same
                    (t.homes h lt),
              )
          | inr p ↦ rw p (t.homes i l)
        ]

    pub link_row-IsTable :
        Returns
          (link_row L hash buckets f e.key e.link)
          (λ g. (g ≡ record f { bytes = g.bytes }) × IsTable L hash buckets lo hi' g pushed)
    unfolding link_row linked stored
    link_row-IsTable =
        let h = bucket_index L hash buckets e.key in
        let lt = bucket_index-lt L hash buckets e.key t.buckets_pos in
        let head-lt = first-lt L hash buckets lo f hi proper (view h) (t.chains h lt) in
        let (wrote, row) = write_next-IsRow L (first L (view h)) head-lt body in
        let (headed, slots) =
          link_bucket-heads L hash buckets lo proper t linked e.key (e ∷ view h) (record {
            mapped = body.covers.mapped;
            grows = omega arith;
            same = λ x l r. Agrees-below.same x l (omega arith);
          }) in
        (
          stored,
          rw (read_bucket_value-first L hash buckets lo proper t e.key, ◌>>=◌, wrote, headed),
          (
            refl,
            record {
              buckets_pos = t.buckets_pos;
              header = record { mapped = body.covers.mapped; within = t.header.within };
              above = t.above;
              heads = slots;
              chains = pushed_chain;
              homes = pushed_homes;
              apart = pushed_apart;
            },
          ),
        )
