-- ===== src/StealthDatabase/Scanning.antt =====
-- `scan` of src/databases/stealth_database.cpp.
use bitprim_database.Prelude.{
  ℕ, ◌+◌, ◌≤◌, ◌≡◌, ◌∙◌, refl, sym, ap, inl, inr, Bool, not, ◌&&◌, none, some, List, [], ◌∷◌, ◌++◌,
  arith, ltb, if◌then◌else◌, Bool-cases, length,
}
use bitprim_database.Run.{ok, ◌>>=◌}
use bitprim_database.Endian.{Endian, to_le}
use bitprim_database.MemoryMap.{MemoryMap}
use bitprim_database.MemoryMap.Growth.{max_exact}
use bitprim_database.MemoryMap.Access.{Covers, Reads, Reads-append, load-part}
use bitprim_database.RecordManager.{RecordManager}
use bitprim_database.RecordManager.Positions.{extent, get-extent}
use bitprim_database.RecordManager.Allocation.{IsReady}
use bitprim_database.StealthDatabase.{
  StealthCompact, StealthDatabase, row_size, serialize, scan_row, scan_loop, scan,
}
use bitprim_database.StealthDatabase.Rows.{StealthRow, IsSized, step, bytes_of, Stored, Lists}

-- The rows that a scan keeps.
abbrev pub kept : (ℕ → Bool) → ℕ → List StealthRow → List StealthCompact
kept is_prefix_of from_height [] = []
kept is_prefix_of from_height (x ∷ xs) =
    if is_prefix_of x.prefix && not (ltb x.height from_height)
    then x.compact ∷ kept is_prefix_of from_height xs
    else kept is_prefix_of from_height xs

module _ ⦃en : Endian⦄ where
  scan_row-kept :
      (is_prefix_of : ℕ → Bool) (from_height : ℕ) (f : MemoryMap) (a : ℕ) (x : StealthRow)
      → IsSized x
      → Covers f (a + row_size)
      → Reads f a (bytes_of x)
      → scan_row is_prefix_of from_height f a
        ≡ ok (
            if is_prefix_of x.prefix && not (ltb x.height from_height)
            then some x.compact
            else none)
  unfolding scan_row serialize
  scan_row-kept is_prefix_of from_height f a x s covers r =
      let public = x.compact.public_key_hash in
      let transaction = x.compact.transaction_hash in
      let ephemeral = x.compact.ephemeral_public_key_hash in
      let four = en.length-to_le 4 x.prefix in
      let four' = en.length-to_le 4 x.height in
      let (r₁, s₁) =
        Reads-append f a (to_le 4 x.prefix)
          (to_le 4 x.height ++ (ephemeral ++ (public ++ transaction))) r in
      let (r₂, s₂) =
        Reads-append f (a + length (to_le 4 x.prefix)) (to_le 4 x.height)
          (ephemeral ++ (public ++ transaction)) s₁ in
      let (r₃, s₃) =
        Reads-append f (a + length (to_le 4 x.prefix) + length (to_le 4 x.height)) ephemeral
          (public ++ transaction) s₂ in
      let (r₄, r₅) =
        Reads-append f
          (a + length (to_le 4 x.prefix) + length (to_le 4 x.height) + length ephemeral) public
          transaction s₃ in
      let top = a + row_size in
      let l₁ = load-part f top a a 4 (to_le 4 x.prefix) covers r₁ refl (sym four) (omega arith) in
      let l₂ =
        load-part f top (a + 4) _ 4 (to_le 4 x.height) covers r₂ (omega (arith, four)) (sym four')
          (omega arith) in
      let l₃ =
        load-part f top (a + 8) _ 32 ephemeral covers r₃ (omega (arith, four, four'))
          (sym s.ephemeral) (omega arith) in
      let l₄ =
        load-part f top (a + 40) _ 20 public covers r₄ (omega (arith, four, four', s.ephemeral))
          (sym s.public) (omega arith) in
      let l₅ =
        load-part f top (a + 60) _ 32 transaction covers r₅
          (omega (arith, four, four', s.ephemeral, s.public)) (sym s.transaction) (omega arith) in
      rw (l₁, ◌>>=◌, en.from_le-to_le 4 x.prefix s.prefix)
        (elim (Bool-cases (is_prefix_of x.prefix)) [
          | inr other ↦ rw other
          | inl same ↦
              rw (same, l₂, ◌>>=◌, en.from_le-to_le 4 x.height s.height)
                (elim (Bool-cases (ltb x.height from_height)) [
                  | inl low ↦ rw low
                  | inr high ↦ rw (high, l₃, ◌>>=◌, l₄, ◌>>=◌, l₅)
                ])
        ])

  scan_loop-kept :
      (is_prefix_of : ℕ → Bool) (from_height : ℕ) (m : RecordManager) (i : ℕ) (xs : List StealthRow)
      → IsReady m
      → m.record_size ≡ row_size
      → i + length xs ≡ m.record_count
      → extent m m.record_count ≤ max_exact
      → Stored m i xs
      → scan_loop is_prefix_of from_height m (length xs) i ≡ ok (kept is_prefix_of from_height xs)
  unfolding scan_loop
  scan_loop-kept is_prefix_of from_height m i [] ready size count exact st = refl
  scan_loop-kept is_prefix_of from_height m i (x ∷ xs) ready size count exact (s, r, st) =
      let inside : extent m i + row_size ≤ extent m m.record_count =
        omega (arith, size, step i m.record_count m.record_size (omega (arith, count))) in
      let found =
        scan_row-kept is_prefix_of from_height m.file (extent m i) x s
          (record { mapped = ready.live.mapped; within = omega (arith, inside, ready.holds) }) r in
      rw
        (
          get-extent m i (omega (arith, inside)),
          found,
          ◌>>=◌,
          scan_loop-kept is_prefix_of from_height m (i + 1) xs ready size (omega (arith, count))
              exact st,
        )
        (elim (Bool-cases (is_prefix_of x.prefix && not (ltb x.height from_height))) [
          | inl hit ↦ rw hit
          | inr miss ↦ rw miss
        ])

  -- `scan` of a stealth database that holds a list of rows returns, in the order of the list, those
  -- whose prefix passes the filter and whose height is not below the given one.
  pub scan-kept :
      (is_prefix_of : ℕ → Bool) (from_height : ℕ) (db : StealthDatabase) (xs : List StealthRow)
      → Lists db xs
      → scan is_prefix_of from_height db ≡ ok (kept is_prefix_of from_height xs)
  unfolding scan
  scan-kept is_prefix_of from_height db xs h =
      ap (λ n. scan_loop is_prefix_of from_height db.rows_manager n 0) h.counted
      ∙ scan_loop-kept is_prefix_of from_height db.rows_manager 0 xs h.ready h.sized
          (omega (arith, h.counted)) h.exact h.rows
