-- ===== src/BlockIndex/Heights.antt =====
-- The index of src/databases/block_database.cpp as positions by height, and what reads it.
use bitprim_database.Prelude.{
  ℕ, zero, suc, ◌+◌, ◌-◌, ◌*◌, ◌%◌, ◌<◌, ◌≤◌, ◌^◌, ◌≡◌, ◌∙◌, refl, sym, ap, inl, inr, not, ◌&&◌,
  none, some, List, [], ◌∷◌, arith, ltb, ltb→lt, lt→ltb, ◌==◌, if◌then◌else◌, Bool-cases,
}
use bitprim_database.Run.{ok, ◌>>=◌}
use bitprim_database.Endian.{Endian, to_le, array_index_bound}
use bitprim_database.MemoryMap.Growth.{max_exact}
use bitprim_database.MemoryMap.Access.{Reads, load-Reads}
use bitprim_database.RecordManager
use bitprim_database.RecordManager.{RecordManager}
use bitprim_database.RecordManager.Positions.{extent, get-extent}
use bitprim_database.RecordManager.Allocation.{IsReady}
use bitprim_database.BlockIndex.{read_position, exists, gaps_loop, gaps, unlink, top}

-- Records of eight bytes lie one behind the other.
pub extent_step :
    (m : RecordManager) (i n : ℕ) → m.record_size ≡ 8 → i < n → extent m i + 8 ≤ extent m n
extent_step m i n size l =
    let step : i * m.record_size + m.record_size ≤ n * m.record_size = grind arith in
    omega (arith, step, size)

-- The heights from `i` on, `left` of them, at which `p` has no position.
abbrev pub vacant : (ℕ → ℕ) → ℕ → ℕ → List ℕ
vacant p zero i = []
vacant p (suc left) i = if p i == 0 then i ∷ vacant p left (i + 1) else vacant p left (i + 1)

module _ ⦃en : Endian⦄ where
  -- A started index of `n` heights, with the position `p i` at the height `i`.
  pub record Indexes (m : RecordManager) (n : ℕ) (p : ℕ → ℕ) : Type 0 where
    pub ready : IsReady m
    pub sized : m.record_size ≡ 8
    pub counted : m.record_count ≡ n
    pub exact : extent m m.record_count ≤ max_exact
    pub wide : (i : ℕ) → i < n → p i < 256 ^ 8
    pub stored : (i : ℕ) → i < n → Reads m.file (extent m i) (to_le 8 (p i))

  pub read_position-Indexes :
      (m : RecordManager) (n : ℕ) (p : ℕ → ℕ) (i : ℕ)
      → Indexes m n p
      → i < n
      → read_position m i ≡ ok (p i)
  unfolding read_position
  read_position-Indexes m n p i h l =
      let wide = en.length-to_le 8 (p i) in
      let inside = extent_step m i m.record_count h.sized (omega (arith, h.counted)) in
      rw (
        get-extent m i (omega (arith, inside, h.exact)),
        load-Reads m.file (extent m i) (to_le 8 (p i)) (sym wide)
            (record { mapped = h.ready.live.mapped; within = omega (arith, inside, h.ready.holds) })
            (h.stored i l),
        ◌>>=◌,
        en.from_le-to_le 8 (p i) (h.wide i l),
      )

  -- On an index of `n` heights with the positions `p`, `exists` answers at every height, and it says
  -- whether the height is below `n` and has a position other than 0.
  pub exists-Indexes :
      (m : RecordManager) (n : ℕ) (p : ℕ → ℕ) (height : ℕ)
      → Indexes m n p
      → exists m height ≡ ok (ltb height n && not (p height == 0))
  unfolding exists
  exists-Indexes m n p height h = elim (Bool-cases (ltb height n)) [
    | inl below ↦
        rw
          (
            ap (λ c. ltb height c) h.counted,
            below,
            read_position-Indexes m n p height h (ltb→lt height n below),
          )
          refl
    | inr above ↦ rw (ap (λ c. ltb height c) h.counted, above)
  ]

  gaps_loop-vacant :
      (m : RecordManager) (n : ℕ) (p : ℕ → ℕ) (left i : ℕ)
      → Indexes m n p
      → i + left ≡ n
      → gaps_loop m left i ≡ ok (vacant p left i)
  unfolding gaps_loop
  gaps_loop-vacant m n p zero i h e = refl
  gaps_loop-vacant m n p (suc left) i h e =
      rw
        (
          read_position-Indexes m n p i h (omega (arith, e)),
          ◌>>=◌,
          gaps_loop-vacant m n p left (i + 1) h (omega (arith, e)),
        )
        (elim (Bool-cases (p i == 0)) [ inl z ↦ rw z | inr f ↦ rw f ])

  -- On an index of `n` heights with the positions `p`, `gaps` returns the heights below `n` that
  -- have the position 0, in ascending order.
  pub gaps-vacant :
      (m : RecordManager) (n : ℕ) (p : ℕ → ℕ) → Indexes m n p → gaps m ≡ ok (vacant p n 0)
  unfolding gaps RecordManager.count
  gaps-vacant m n p h =
      ap (λ c. gaps_loop m c 0) h.counted ∙ gaps_loop-vacant m n p n 0 h (omega arith)

  -- Fewer heights of an index.
  lower-Indexes :
      (m : RecordManager) (n : ℕ) (p : ℕ → ℕ) (k : ℕ)
      → Indexes m n p
      → k ≤ n
      → Indexes (record m { record_count = k }) k p
  lower-Indexes m n p k h l =
      let low : k * m.record_size ≤ m.record_count * m.record_size = grind (arith, h.counted) in
      record {
        ready = record {
          live = h.ready.live;
          holds = omega (arith, low, h.ready.holds);
          countable = omega (arith, h.ready.countable, h.counted);
        };
        sized = h.sized;
        counted = refl;
        exact = omega (arith, low, h.exact);
        wide = λ i l'. h.wide i (omega arith);
        stored = λ i l'. h.stored i (omega arith);
      }

  -- On an index of `n` heights, `unlink` from a height below `n` returns true and leaves the heights
  -- below the given one with their positions; from any other height it returns false and changes
  -- nothing. `top` is then the height below the given one, if there is one.
  pub unlink-Indexes :
      (m : RecordManager) (n : ℕ) (p : ℕ → ℕ) (from_height : ℕ)
      → Indexes m n p
      → let (done, m') = unlink from_height m in
        (done ≡ ltb from_height n)
        × Indexes m' (if ltb from_height n then from_height else n) p
        × (from_height < n → top m' ≡ (if from_height == 0 then none else some (from_height - 1)))
  unfolding unlink RecordManager.count RecordManager.set_count top
  unlink-Indexes m n p from_height h = elim (Bool-cases (ltb from_height n)) [
    | inl below ↦
        let l = ltb→lt from_height n below in
        let small : from_height % array_index_bound ≡ from_height =
          omega (arith, h.ready.countable, h.counted) in
        rw (ap (λ c. ltb from_height c) h.counted, below, small)
          (refl, lower-Indexes m n p from_height h (omega arith), λ l'. refl)
    | inr above ↦
        rw (ap (λ c. ltb from_height c) h.counted, above)
          (refl, h, λ l. absurd (ground (arith, lt→ltb from_height n l)))
  ]
