-- ===== src/HistoryDatabase/Payments.antt =====
-- The rows of src/databases/history_database.cpp, and what `get` returns of them.
use bitprim_database.Prelude.{
  ℕ, zero, suc, ◌+◌, ◌-◌, ◌≤◌, ◌<◌, ◌^◌, ◌≡◌, refl, sym, ap, ◌⊎◌, inl, inr, Bool, true, false, ◌&&◌,
  List, [], ◌∷◌, ◌++◌, arith, ltb, leb, lt→ltb, le→leb, leb_no, ◌==◌, ==→eq, eq→==, ne→==,
  if◌then◌else◌, Bool-cases, length, length-append, All, Bytes,
}
use native.Mathlib.Decide.{dec_lt}
use bitprim_database.Run.{ok, ◌>>=◌}
use bitprim_database.Endian.{Endian, to_le, array_index_bound, file_offset_bound}
use bitprim_database.MemoryMap.{MemoryMap}
use bitprim_database.MemoryMap.Access.{Covers, Reads, Reads-append, load-part}
use bitprim_database.RecordManager.{RecordManager}
use bitprim_database.RecordManager.Positions.{extent, get-extent}
use bitprim_database.RecordList as Records
use bitprim_database.RecordList.Linked.{IsListed, first}
use bitprim_database.RecordMultimap.Rows.{inside, Chained}
use bitprim_database.RecordMultimap.Deleting.{next-Chained}
use bitprim_database.HistoryDatabase.{
  HistoryCompact, value_size, serialize, read_height, read_row, is_kept, get_loop,
}

-- Fields of the sizes of the format.
pub record IsSized (x : HistoryCompact) : Type 0 where
  pub point : length x.point ≡ 36
  pub height : x.height < array_index_bound
  pub value : x.value < 256 ^ 8

-- The rows at a height or above.
abbrev pub since : ℕ → List HistoryCompact → List HistoryCompact
since from_height [] = []
since from_height (x ∷ xs) =
    if leb from_height x.height then x ∷ since from_height xs else since from_height xs

abbrev pub take : ℕ → List HistoryCompact → List HistoryCompact
take zero xs = []
take (suc n) [] = []
take (suc n) (x ∷ xs) = x ∷ take n xs

-- At most as many rows as the limit, where 0 is no limit.
abbrev pub limited : ℕ → List HistoryCompact → List HistoryCompact
limited zero xs = xs
limited (suc n) xs = take (suc n) xs

-- What the loop returns after it has found some rows.
abbrev pub remaining : ℕ → ℕ → ℕ → List HistoryCompact → List HistoryCompact
remaining limit from_height found xs =
    if limit == 0 then since from_height xs else take (limit - found) (since from_height xs)

take_nil : (n : ℕ) → take n [] ≡ []
take_nil zero = refl
take_nil (suc n) = refl

remaining_nil : (limit from_height found : ℕ) → remaining limit from_height found [] ≡ []
remaining_nil limit from_height found = elim (Bool-cases (limit == 0)) [
  | inl z ↦ rw z
  | inr p ↦ rw p (take_nil (limit - found))
]

remaining_stop :
    (limit from_height found : ℕ) (xs : List HistoryCompact)
    → 0 < limit
    → limit ≤ found
    → remaining limit from_height found xs ≡ []
remaining_stop limit from_height found xs p l =
    let none_left : limit - found ≡ 0 = omega arith in rw (ne→== limit 0 (omega arith), none_left)

remaining_cons :
    (limit from_height found : ℕ) (x : HistoryCompact) (xs : List HistoryCompact)
    → (limit ≡ 0) ⊎ (found < limit)
    → remaining limit from_height found (x ∷ xs) ≡ (
        if leb from_height x.height
        then x ∷ remaining limit from_height (found + 1) xs
        else remaining limit from_height found xs)
remaining_cons limit from_height found x xs o = elim (Bool-cases (leb from_height x.height)) [
  | inr skip ↦ rw skip
  | inl keep ↦ elim o [
    | inl z ↦ let e = eq→== limit 0 z in rw (keep, e)
    | inr l ↦
        let e = ne→== limit 0 (omega arith) in
        let more : limit - found ≡ suc (limit - (found + 1)) = omega arith in rw (keep, e, more)
  ]
]

limit_cases : (limit found : ℕ) → ((0 < limit) × (limit ≤ found)) ⊎ ((limit ≡ 0) ⊎ (found < limit))
limit_cases limit found = elim (dec_lt found limit) [
  | yes l ↦ inr (inr l)
  | no g ↦ elim (dec_lt 0 limit) [ yes p ↦ inl (p, omega arith) | no z ↦ inr (inl (omega arith)) ]
]

go_on : (limit found : ℕ) → (limit ≡ 0) ⊎ (found < limit) → (ltb 0 limit && leb limit found) ≡ false
go_on limit found (inl z) = rw z
go_on limit found (inr l) = rw (leb_no limit found l) (and_false (ltb 0 limit))
  where
    and_false : (b : Bool) → (b && false) ≡ false
    and_false true = refl
    and_false false = refl

-- The place of a row.
get_row :
    (m : RecordManager) (i : ℕ) → extent m i < file_offset_bound → Records.get m i ≡ extent m i + 4
unfolding Records.get
get_row m i l = rw (get-extent m i l)

module _ ⦃en : Endian⦄ where
  pub length-serialize : (x : HistoryCompact) → IsSized x → length (serialize x) ≡ value_size
  unfolding serialize
  length-serialize x s =
      let h = to_le 4 x.height in
      let v = to_le 8 x.value in
      omega (
        arith,
        length-append x.point (h ++ v),
        length-append h v,
        en.length-to_le 4 x.height,
        en.length-to_le 8 x.value,
        s.point,
      )

  module _ (f : MemoryMap) (a : ℕ) (x : HistoryCompact) (s : IsSized x)
      (covers : Covers f (a + value_size)) (r : Reads f a (serialize x)) where
    read_height-Reads : read_height f a ≡ ok x.height
    unfolding serialize read_height
    read_height-Reads =
        let h = to_le 4 x.height in
        let v = to_le 8 x.value in
        let (r₁, r₂) = Reads-append f a (x.kind ∷ []) (x.point ++ (h ++ v)) r in
        let (r₃, r₄) = Reads-append f (a + 1) x.point (h ++ v) r₂ in
        let (r₅, r₆) = Reads-append f (a + 1 + length x.point) h v r₄ in
        rw
          (load-part f (a + value_size) (a + 37) _ 4 h covers r₅ (omega (arith, s.point))
            (sym (en.length-to_le 4 x.height)) (omega arith))
          (ap ok (en.from_le-to_le 4 x.height s.height))

    read_row-Reads : read_row f a ≡ ok x
    unfolding serialize read_row
    read_row-Reads =
        let h = to_le 4 x.height in
        let v = to_le 8 x.value in
        let four = en.length-to_le 4 x.height in
        let top = a + value_size in
        let (r₁, r₂) = Reads-append f a (x.kind ∷ []) (x.point ++ (h ++ v)) r in
        let (r₃, r₄) = Reads-append f (a + 1) x.point (h ++ v) r₂ in
        let (r₅, r₆) = Reads-append f (a + 1 + length x.point) h v r₄ in
        rw (
          load-part f top a a 1 (x.kind ∷ []) covers r₁ refl refl (omega arith),
          ◌>>=◌,
          load-part f top (a + 1) (a + 1) 36 x.point covers r₃ refl (sym s.point) (omega arith),
          load-part f top (a + 37) _ 4 h covers r₅ (omega (arith, s.point)) (sym four)
              (omega arith),
          load-part f top (a + 37 + 4) _ 8 v covers r₆ (omega (arith, s.point, four))
              (sym (en.length-to_le 8 x.value)) (omega arith),
          en.from_le-to_le 4 x.height s.height,
          en.from_le-to_le 8 x.value s.value,
        )

    is_kept-Reads : (from_height : ℕ) → is_kept from_height f a ≡ ok (leb from_height x.height)
    unfolding is_kept
    is_kept-Reads from_height = elim (Bool-cases (from_height == 0)) [
      | inl any ↦
          let e : from_height ≡ 0 = ==→eq from_height 0 any in
          rw (any, le→leb from_height x.height (omega (arith, e)))
      | inr some_height ↦ rw (some_height, read_height-Reads, ◌>>=◌)
    ]

  abbrev pub serialized : List HistoryCompact → List Bytes
  serialized [] = []
  serialized (x ∷ xs) = serialize x ∷ serialized xs

  pub get_loop-remaining :
      (limit from_height : ℕ) (m : RecordManager) (fuel found : ℕ) (is : List ℕ)
      (xs : List HistoryCompact)
      → IsListed m
      → Chained m is (serialized xs)
      → All IsSized xs
      → length is < fuel
      → get_loop limit from_height m fuel found (first is)
        ≡ ok (remaining limit from_height found xs)
  unfolding get_loop
  get_loop-remaining limit from_height m zero found is xs h c s l = absurd (omega (arith, l))
  get_loop-remaining limit from_height m (suc fuel) found [] [] h c s l =
      ap ok (sym (remaining_nil limit from_height found))
  get_loop-remaining limit from_height m (suc fuel) found [] (x ∷ xs) h c s l = elim c [ ]
  get_loop-remaining limit from_height m (suc fuel) found (i ∷ is) [] h c s l = elim c [ ]
  get_loop-remaining limit from_height m (suc fuel) found (i ∷ is) (x ∷ xs) h c (s, ss) l =
      let (counted, b, fits, r, d, rest) = c in
      let below = inside i m.record_count m.record_size counted in
      let place : Records.get m i ≡ extent m i + 4 = get_row m i (omega (arith, below, h.exact)) in
      let covers : Covers m.file (extent m i + 4 + value_size) = record {
        mapped = h.ready.live.mapped;
        within = omega (arith, below, fits, length-serialize x s, h.ready.holds);
      } in
      let start = ne→== i Records.empty (omega (arith, counted, h.ready.countable)) in
      let kept = is_kept-Reads m.file (extent m i + 4) x s covers d from_height in
      let following = next-Chained m i is (serialized (x ∷ xs)) h c in
      elim (limit_cases limit found) [
        | inl (p, stop) ↦
            rw (start, lt→ltb 0 limit p, le→leb limit found stop)
              (ap ok (sym (remaining_stop limit from_height found (x ∷ xs) p stop)))
        | inr go ↦
            rw
              (
                start,
                go_on limit found go,
                place,
                kept,
                ◌>>=◌,
                remaining_cons limit from_height found x xs go,
              )
              (elim (Bool-cases (leb from_height x.height)) [
                | inl keep ↦ rw (
                  keep,
                  read_row-Reads m.file (extent m i + 4) x s covers d,
                  ◌>>=◌,
                  following,
                  get_loop-remaining limit from_height m fuel (found + 1) is xs h rest ss
                      (omega (arith, l)),
                )
                | inr skip ↦
                    rw (skip, following, ◌>>=◌)
                      (get_loop-remaining limit from_height m fuel found is xs h rest ss
                        (omega (arith, l)))
              ])
      ]
