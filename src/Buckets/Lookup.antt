-- ===== src/Buckets/Lookup.antt =====
-- `find` and `unlink` of a table in terms of its rows.
use mathlib.Core.Option
use mathlib.Core.Path.{subst}
use bitprim_database.Prelude.{
  ℕ, ◌+◌, ◌<◌, ◌≡◌, ◌≢◌, ◌∙◌, refl, sym, inl, inr, Bool, true, false, List, [], ◌∷◌, arith, ◌==◌,
  eq→==, ==→eq, if_cases, Bool-cases, length, Bytes, bytes_eq, is_some, All, All-mono,
}
use bitprim_database.Run.{ok, ◌>>=◌, Returns}
use bitprim_database.Endian.{Endian, to_le}
use bitprim_database.MemoryMap.{MemoryMap}
use bitprim_database.MemoryMap.Access.{Reads, written}
use bitprim_database.HashTableHeader.{item_position}
use bitprim_database.Row.{Layout, data_of}
use bitprim_database.Row.Entry.{
  Entry, size, Agrees, Agrees-written, Reads_congr, IsRow-congr, compare-row, next_of-row,
}
use bitprim_database.Buckets.{Hash, bucket_index, link_bucket, find, unlink}
use bitprim_database.Buckets.Chain.{
  find_entry, remove_entry, IsProper, first, Chain, Chain_congr, Chain_weaken, Chain-All,
  find_loop-chain,
}
use bitprim_database.Buckets.Unlinking.{Touches, Unlinks, unlink_loop-Unlinks}
use bitprim_database.Buckets.Table.{
  Apart, AllApart, AllApart-if, bucket_index-lt, update, IsTable, slot_within,
  read_bucket_value-first, link_bucket-heads,
}

pub remove-All {κ} :
    (P : Entry → Type κ) (key : Bytes) (es : List Entry) → All P es → All P (remove_entry key es)
unfolding remove_entry
remove-All P key [] h = tt
remove-All P key (e ∷ es) h = elim (Bool-cases (bytes_eq key e.key)) [
  | inl hit ↦ rw hit h.1
  | inr miss ↦ rw miss (h.0, remove-All P key es h.1)
]

module _ ⦃en : Endian⦄ (L : Layout) (lo : ℕ) where
  -- A chain is left alone by changes within the rows of another.
  pub chain_apart :
      {f g : MemoryMap} (xs : List Entry) (hi : ℕ) (ys : List Entry)
      → f.mapped ≡ true
      → Touches L xs f g
      → AllApart L ys xs
      → Chain L f lo hi ys
      → Chain L g lo hi ys
  chain_apart xs hi [] m s h c = tt
  chain_apart {f} {g} xs hi (y ∷ ys) m s h (a, b, r, c) = (
    a,
    b,
    IsRow-congr L agrees (omega arith) (omega arith) r,
    chain_apart xs (L.address y.link) ys m s h.1 c,
  )
    where
      agrees : Agrees (L.address y.link) (L.address y.link + size L y) f g
      agrees = record {
        mapped = rw s.only_bytes m;
        grows = rw s.only_bytes (omega arith);
        same = λ x l u. s.same x (
            All-mono xs (λ e o. elim o [ inl p ↦ inr (omega arith) | inr p ↦ inl (omega arith) ])
              h.0);
      }

module _ ⦃en : Endian⦄ (L : Layout) (hash : Hash) (buckets lo : ℕ) (proper : IsProper L)
    {f : MemoryMap} {hi : ℕ} {view : ℕ → List Entry} (t : IsTable L hash buckets lo hi f view)
    (key : Bytes) (k : length key ≡ L.key_size) where
  pub find-find_entry :
      (fuel : ℕ)
      → hi < fuel
      → find L hash buckets fuel f key
        ≡ ok (
            Option.map
              (λ e. data_of L e.link)
              (find_entry key (view (bucket_index L hash buckets key))))
  unfolding find
  find-find_entry fuel enough =
      let h = bucket_index L hash buckets key in
      let lt = bucket_index-lt L hash buckets key t.buckets_pos in
      rw (read_bucket_value-first L hash buckets lo proper t key, ◌>>=◌)
        (find_loop-chain L proper f lo key fuel hi (view h) k enough (t.chains h lt))

  abbrev removed : ℕ → List Entry
  removed =
      update view (bucket_index L hash buckets key)
        (remove_entry key (view (bucket_index L hash buckets key)))

  removed_apart : (i j : ℕ) → i < buckets → j < buckets → i ≢ j → AllApart L (removed i) (removed j)
  removed_apart i j l m ne =
      let h = bucket_index L hash buckets key in
      let rest = remove_entry key (view h) in
      AllApart-if L (i == h) (j == h) (view i) rest (view j) rest
        (λ p q. absurd (ne (==→eq i h p ∙ sym (==→eq j h q))))
        (λ p q.
          remove-All (λ x. All (Apart L x) (view j)) key (view h)
            (subst (λ k. AllApart L (view k) (view j)) (==→eq i h p) (t.apart i j l m ne)))
        (λ p q.
          All-mono (view i) (λ x b. remove-All (Apart L x) key (view h) b)
            (subst (λ k. AllApart L (view i) (view k)) (==→eq j h q) (t.apart i j l m ne)))
        (λ p q. t.apart i j l m ne)

  removed_homes :
      (i : ℕ) → i < buckets → All (λ x. bucket_index L hash buckets x.key ≡ i) (removed i)
  removed_homes i l =
      let h = bucket_index L hash buckets key in
      elim (Bool-cases (i == h)) [
        | inl p ↦ rw p (
            remove-All (λ x. bucket_index L hash buckets x.key ≡ i) key (view h)
              (subst (λ k. All (λ x. bucket_index L hash buckets x.key ≡ i) (view k)) (==→eq i h p)
                (t.homes i l)))
        | inr p ↦ rw p (t.homes i l)
      ]

  -- What is left to show after a removal: the heads and the chains.
  removed-IsTable :
      {g : MemoryMap}
      → g ≡ record f { bytes = g.bytes }
      → ((i : ℕ)
          → i < buckets
          → Reads g (item_position L.width i) (to_le L.width (first L (removed i))))
      → ((i : ℕ) → i < buckets → Chain L g lo hi (removed i))
      → IsTable L hash buckets lo hi g removed
  removed-IsTable e heads chains = record {
    buckets_pos = t.buckets_pos;
    header = record { mapped = rw e t.header.mapped; within = rw e t.header.within };
    above = t.above;
    heads = heads;
    chains = chains;
    homes = removed_homes;
    apart = removed_apart;
  }

  -- The outcome of `unlink`: whether the key was there, and the table without its first row.
  pub record Unlinked (r : Bool × MemoryMap) : Type 0 where
    pub found : r.0 ≡ is_some (find_entry key (view (bucket_index L hash buckets key)))
    pub only_bytes : r.1 ≡ record f { bytes = r.1.bytes }
    pub table : IsTable L hash buckets lo hi r.1 removed

  module _ (p : Entry) (es : List Entry)
      (filled : view (bucket_index L hash buckets key) ≡ p ∷ es) where
    lt : bucket_index L hash buckets key < buckets
    lt = bucket_index-lt L hash buckets key t.buckets_pos

    c : Chain L f lo hi (p ∷ es)
    c = subst (λ xs. Chain L f lo hi xs) filled (t.chains (bucket_index L hash buckets key) lt)

    begin_hit :
        bytes_eq key p.key ≡ true
        → (n : MemoryMap) × (link_bucket L hash buckets f key (first L es) ≡ ok n)
          × Unlinked (true, n)
    unfolding find_entry remove_entry
    begin_hit hit =
        let h = bucket_index L hash buckets key in
        let re : remove_entry key (view h) ≡ es = rw (filled, hit) in
        let (run, slots) =
          link_bucket-heads L hash buckets lo proper t f key es
            (record { mapped = t.header.mapped; grows = omega arith; same = λ x l r. refl }) in
        let slot = item_position L.width h in
        let bs = to_le L.width (first L es) in
        let agrees : Agrees lo hi f (written f slot bs) =
          Agrees-written f slot bs t.header.mapped (λ x l r. inr (
            omega (
              arith,
              en.length-to_le L.width (first L es),
              slot_within L hash buckets lo proper t h lt,
            ))) in
        (
          written f slot bs,
          run,
          record {
            found = rw (filled, hit);
            only_bytes = refl;
            table =
                removed-IsTable refl
                  (λ i l.
                    subst
                      (λ xs.
                        Reads (written f slot bs) (item_position L.width i)
                          (to_le L.width (first L (update view h xs i))))
                      (sym re) (slots i l))
                  (λ i l.
                    if_cases (Chain L (written f slot bs) lo hi) (i == h)
                      (λ q. rw re (
                        Chain_congr L lo hi es agrees (omega arith) (omega arith)
                          (Chain_weaken L f lo (L.address p.link) hi es (omega (arith, c.1)) c.3)))
                      (λ q.
                        Chain_congr L lo hi (view i) agrees (omega arith) (omega arith)
                          (t.chains i l)));
          },
        )

    begin_miss :
        bytes_eq key p.key ≡ false
        → (r : Bool × MemoryMap) → Unlinks L proper lo key f hi p es r
        → Unlinked r
    unfolding find_entry remove_entry
    begin_miss miss r u =
        let h = bucket_index L hash buckets key in
        let re : remove_entry key (view h) ≡ p ∷ remove_entry key es = rw (filled, miss) in
        let mapped : r.1.mapped ≡ true = rw u.touches.only_bytes t.header.mapped in
        let same_size : r.1.file_size ≡ f.file_size = rw u.touches.only_bytes refl in
        let header : Agrees 0 lo f r.1 = record {
          mapped = mapped;
          grows = omega arith;
          same = λ x l b. u.touches.same x (
              All-mono (p ∷ es) (λ e o. inl (omega (arith, o.0))) (Chain-All L f lo hi (p ∷ es) c));
        } in
        let kept = λ (i : ℕ) (l : i < buckets) (n : ℕ) (e : first L (view i) ≡ n).
          Reads_congr (item_position L.width i) (to_le L.width n) header (omega arith)
            (omega (arith, en.length-to_le L.width n, slot_within L hash buckets lo proper t i l))
            (subst (λ m. Reads f (item_position L.width i) (to_le L.width m)) e (t.heads i l)) in
        record {
          found = rw (filled, miss) u.found;
          only_bytes = u.touches.only_bytes;
          table =
              removed-IsTable u.touches.only_bytes
                (λ i l.
                  if_cases (λ xs. Reads r.1 (item_position L.width i) (to_le L.width (first L xs)))
                    (i == h)
                    (λ q. rw re (
                      kept i l p.link
                        (subst (λ j. first L (view j) ≡ p.link) (sym (==→eq i h q)) (rw filled))))
                    (λ q. kept i l (first L (view i)) refl))
                (λ i l.
                  if_cases (Chain L r.1 lo hi) (i == h) (λ q. rw re u.chain)
                    (λ q.
                      chain_apart L lo (p ∷ es) hi (view i) t.header.mapped u.touches
                        (subst (λ xs. AllApart L (view i) xs) filled
                          (t.apart i h l lt (λ z. cc (eq→== i h z))))
                        (t.chains i l)));
        }

    pub unlink-Unlinked :
        (fuel : ℕ) → hi < fuel → Returns (unlink L hash buckets fuel f key) Unlinked
    unfolding unlink
    unlink-Unlinked fuel enough =
        let begin = rw filled at (read_bucket_value-first L hash buckets lo proper t key) in
        elim (Bool-cases (bytes_eq key p.key)) [
          | inl hit ↦
              let (n, run, post) = begin_hit hit in
              (
                (true, n),
                rw (begin, ◌>>=◌, compare-row L key k c.2.body, hit, next_of-row L c.2, run),
                post,
              )
          | inr miss ↦
              let (r, run, post) =
                unlink_loop-Unlinks L proper lo key k fuel p es (omega (arith, c.1, proper.wide))
                  c in
              (
                r,
                rw (begin, ◌>>=◌, compare-row L key k c.2.body, miss, next_of-row L c.2, run),
                begin_miss miss r post,
              )
        ]
