-- ===== src/Buckets/Table.antt =====
-- The whole table: the heads in the header, and a chain of rows for each bucket.
use bitprim_database.Prelude.{
  ℕ, ◌+◌, ◌≤◌, ◌<◌, ◌^◌, ◌≡◌, ◌≢◌, refl, sym, ◌⊎◌, inl, inr, Bool, true, false, List, [], ◌∷◌,
  arith, ◌==◌, ==→eq, eq→==, if◌then◌else◌, Bool-cases, length, Bytes, All,
}
use native.Mathlib.Decide.{dec_lt}
use bitprim_database.Run.{ok, ◌>>=◌}
use bitprim_database.Endian.{Endian, to_le}
use bitprim_database.MemoryMap.{MemoryMap}
use bitprim_database.MemoryMap.Access.{
  Covers, Reads, written, load-Reads, save-ok, written-Reads, written_apart,
}
use bitprim_database.HashTableHeader
use bitprim_database.HashTableHeader.{item_position, read, write}
use bitprim_database.Row.{Layout}
use bitprim_database.Row.Entry.{Entry, size, Agrees, Reads_congr}
use bitprim_database.Buckets.{Hash, remainder, bucket_index, read_bucket_value, link_bucket}
use bitprim_database.Buckets.Chain.{IsProper, first, Chain}

-- Slots of one width lie side by side.
pub item_position_apart :
    (width i j : ℕ) → i < j → item_position width i + width ≤ item_position width j
unfolding item_position
item_position_apart width i j h = grind arith

abbrev pub Apart : Layout → Entry → Entry → Type 0
Apart L e x =
    (L.address x.link + size L x ≤ L.address e.link)
    ⊎ (L.address e.link + size L e ≤ L.address x.link)

abbrev pub AllApart : Layout → List Entry → List Entry → Type 0
AllApart L xs ys = All (λ e. All (Apart L e) ys) xs

pub AllApart-cons :
    (L : Layout) (xs : List Entry) (e : Entry) (ys : List Entry)
    → All (λ x. Apart L x e) xs
    → AllApart L xs ys
    → AllApart L xs (e ∷ ys)
AllApart-cons L [] e ys h k = tt
AllApart-cons L (x ∷ xs) e ys h k = ((h.0, k.0), AllApart-cons L xs e ys h.1 k.1)

-- Rows of two buckets, either of which may be a changed one.
pub AllApart-if :
    (L : Layout) (b c : Bool) (xs xs' ys ys' : List Entry)
    → (b ≡ true → c ≡ true → AllApart L xs' ys')
    → (b ≡ true → c ≡ false → AllApart L xs' ys)
    → (b ≡ false → c ≡ true → AllApart L xs ys')
    → (b ≡ false → c ≡ false → AllApart L xs ys)
    → AllApart L (if b then xs' else xs) (if c then ys' else ys)
AllApart-if L true true xs xs' ys ys' tt' tf ft ff = tt' refl refl
AllApart-if L true false xs xs' ys ys' tt' tf ft ff = tf refl refl
AllApart-if L false true xs xs' ys ys' tt' tf ft ff = ft refl refl
AllApart-if L false false xs xs' ys ys' tt' tf ft ff = ff refl refl

pub bucket_index-lt :
    (L : Layout) ⦃en : Endian⦄ (hash : Hash) (n : ℕ) (key : Bytes)
    → 0 < n
    → bucket_index L hash n key < n
unfolding bucket_index remainder
bucket_index-lt L hash n key h = ground arith

-- The view with other rows in one bucket.
abbrev pub update : (ℕ → List Entry) → ℕ → List Entry → ℕ → List Entry
update view h es i = if i == h then es else view i

pub update_self : (view : ℕ → List Entry) (h : ℕ) (es : List Entry) → update view h es h ≡ es
update_self view h es = rw (eq→== h h refl)

module _ ⦃en : Endian⦄ (L : Layout) (hash : Hash) (buckets lo : ℕ) where
  -- `view` lists the rows of each bucket, which lie from `lo` up to `hi`.
  pub record IsTable (hi : ℕ) (f : MemoryMap) (view : ℕ → List Entry) : Type 0 where
    pub buckets_pos : 0 < buckets
    pub header : Covers f lo
    pub above : item_position L.width buckets ≤ lo
    pub heads :
        (i : ℕ) → i < buckets → Reads f (item_position L.width i) (to_le L.width (first L (view i)))
    pub chains : (i : ℕ) → i < buckets → Chain L f lo hi (view i)
    pub homes : (i : ℕ) → i < buckets → All (λ e. bucket_index L hash buckets e.key ≡ i) (view i)
    pub apart : (i j : ℕ) → i < buckets → j < buckets → i ≢ j → AllApart L (view i) (view j)

  -- The heads of all buckets fit into their slots.
  pub first-lt :
      (f : MemoryMap) (hi : ℕ)
      → IsProper L
      → (es : List Entry) → Chain L f lo hi es
      → first L es < 256 ^ L.width
  first-lt f hi p [] c = omega (arith, p.bound)
  first-lt f hi p (e ∷ es) (a, b, r, c) = omega (arith, r.body.used)

  module _ (proper : IsProper L) {hi : ℕ} {f : MemoryMap} {view : ℕ → List Entry}
      (t : IsTable hi f view) where
    pub slot_within : (i : ℕ) → i < buckets → item_position L.width i + L.width ≤ lo
    slot_within i h = omega (arith, item_position_apart L.width i buckets h, t.above)

    pub read-first :
        (i : ℕ) → i < buckets → HashTableHeader.read L.width f i ≡ ok (first L (view i))
    unfolding HashTableHeader.read
    read-first i lt =
        let head = first L (view i) in
        rw (
          load-Reads f (item_position L.width i) (to_le L.width head)
              (sym (en.length-to_le L.width head))
              (record {
                mapped = t.header.mapped;
                within = omega (arith, slot_within i lt, t.header.within);
              })
              (t.heads i lt),
          ◌>>=◌,
          en.from_le-to_le L.width head (first-lt f hi proper (view i) (t.chains i lt)),
        )

    pub read_bucket_value-first :
        (key : Bytes)
        → read_bucket_value L hash buckets f key
          ≡ ok (first L (view (bucket_index L hash buckets key)))
    unfolding read_bucket_value
    read_bucket_value-first key =
        read-first (bucket_index L hash buckets key)
          (bucket_index-lt L hash buckets key t.buckets_pos)

    -- A new head for the bucket of the key, in a file with the same header.
    pub link_bucket-heads :
        (g : MemoryMap) (key : Bytes) (es : List Entry)
        → Agrees 0 lo f g
        → let h = bucket_index L hash buckets key in
          let g' = written g (item_position L.width h) (to_le L.width (first L es)) in
          (link_bucket L hash buckets g key (first L es) ≡ ok g')
          × ((i : ℕ)
              → i < buckets
              → Reads g' (item_position L.width i) (to_le L.width (first L (update view h es i))))
    unfolding link_bucket write
    link_bucket-heads g key es s =
        let h = bucket_index L hash buckets key in
        let bs = to_le L.width (first L es) in
        let wide : length bs ≡ L.width = en.length-to_le L.width (first L es) in
        let lt = bucket_index-lt L hash buckets key t.buckets_pos in
        let fits : item_position L.width h + L.width ≤ lo = slot_within h lt in
        (
          save-ok g (item_position L.width h) bs
              (record { mapped = s.mapped; within = omega (arith, t.header.within, s.grows) }),
          λ i l. elim (Bool-cases (i == h)) [
            | inl e ↦ rw e (rw (==→eq i h e) (written-Reads g (item_position L.width h) bs))
            | inr d ↦
                let old = to_le L.width (first L (view i)) in
                let wide' : length old ≡ L.width = en.length-to_le L.width (first L (view i)) in
                let here : item_position L.width i + L.width ≤ lo = slot_within i l in
                rw d (
                  written_apart g (item_position L.width h) bs (item_position L.width i) old
                    (slots i h d)
                    (Reads_congr (item_position L.width i) old s (omega arith) (omega arith)
                      (t.heads i l)))
          ],
        )
      where
        slots :
            (i h : ℕ)
            → (i == h) ≡ false
            → (item_position L.width i + length (to_le L.width (first L (view i)))
                ≤ item_position L.width h)
              ⊎ (item_position L.width h + length (to_le L.width (first L es))
                  ≤ item_position L.width i)
        slots i h d =
            rw (en.length-to_le L.width (first L (view i)), en.length-to_le L.width (first L es))
              (elim (dec_lt i h) [
                | yes p ↦ inl (item_position_apart L.width i h p)
                | no p ↦ inr (item_position_apart L.width h i (ground arith))
              ])
