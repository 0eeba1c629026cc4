-- ===== src/BlockIndex/Zeroing.antt =====
-- `zeroize` of src/databases/block_database.cpp.
use mathlib.Core.Path.{subst}
use bitprim_database.Prelude.{
  ℕ, zero, suc, ◌+◌, ◌-◌, ◌%◌, ◌<◌, ◌≤◌, ◌≡◌, ◌≢◌, ◌∙◌, refl, ap, ◌⊎◌, inl, inr, arith,
}
use native.Mathlib.Decide.{dec_lt}
use bitprim_database.Run.{ok, ◌>>=◌, Returns}
use bitprim_database.Endian.{Endian, to_le, array_index_bound}
use bitprim_database.MemoryMap.{save}
use bitprim_database.MemoryMap.Growth.{max_exact}
use bitprim_database.MemoryMap.Access.{Reads, written, save-ok, written-Reads, written_apart}
use bitprim_database.RecordManager
use bitprim_database.RecordManager.{RecordManager}
use bitprim_database.RecordManager.Positions.{extent, get-extent}
use bitprim_database.RecordManager.Allocation.{IsReady}
use bitprim_database.BlockIndex.{empty, zeroize_loop, zeroize}
use bitprim_database.BlockIndex.Heights.{extent_step}

module _ ⦃en : Endian⦄ where
  abbrev pub stored_at : RecordManager → ℕ → ℕ → RecordManager
  stored_at m i v = record m { file = written m.file (extent m i) (to_le 8 v) }

  -- A position is written at a height, and the other heights keep theirs.
  module _ (m : RecordManager) (size : m.record_size ≡ 8) (i v : ℕ) where
    pub stored_at-here : Reads (stored_at m i v).file (extent m i) (to_le 8 v)
    stored_at-here = written-Reads m.file (extent m i) (to_le 8 v)

    pub stored_at-apart :
        (j w : ℕ)
        → j ≢ i
        → Reads m.file (extent m j) (to_le 8 w)
        → Reads (stored_at m i v).file (extent m j) (to_le 8 w)
    stored_at-apart j w ne r =
        written_apart m.file (extent m i) (to_le 8 v) (extent m j) (to_le 8 w)
          (elim (dec_lt j i) [
            | yes l ↦ inl (omega (arith, extent_step m j i size l, en.length-to_le 8 w))
            | no g ↦ inr (omega (arith, extent_step m i j size (omega arith), en.length-to_le 8 v))
          ])
          r

    -- A write of the position at a height that is counted.
    pub save_at :
        IsReady m
        → i < m.record_count
        → extent m m.record_count ≤ max_exact
        → save m.file (RecordManager.get m i) (to_le 8 v) ≡ ok (stored_at m i v).file
    save_at ready l exact =
        let inside = extent_step m i m.record_count size l in
        rw (get-extent m i (omega (arith, inside, exact))) (
          save-ok m.file (extent m i) (to_le 8 v) (record {
            mapped = ready.live.mapped;
            within = omega (arith, inside, ready.holds, en.length-to_le 8 v);
          }))

    pub stored_at-IsReady : IsReady m → IsReady (stored_at m i v)
    stored_at-IsReady ready = record {
      live = record {
        opened = ready.live.opened;
        mapped = ready.live.mapped;
        sized = ready.live.sized;
      };
      holds = ready.holds;
      countable = ready.countable;
    }

  -- `m'` is `m` with no positions at `left` heights from `i` on, and the others as they were.
  pub record Zeroed (m m' : RecordManager) (i left : ℕ) : Type 0 where
    pub ready : IsReady m'
    pub same : m' ≡ record m { file = m'.file }
    pub vacant : (j : ℕ) → i ≤ j → j < i + left → Reads m'.file (extent m j) (to_le 8 empty)
    pub kept :
        (j w : ℕ)
        → (j < i) ⊎ (i + left ≤ j)
        → Reads m.file (extent m j) (to_le 8 w)
        → Reads m'.file (extent m j) (to_le 8 w)

  zeroize_loop-Zeroed :
      (m : RecordManager) (left i : ℕ)
      → m.record_size ≡ 8
      → IsReady m
      → extent m m.record_count ≤ max_exact
      → i + left ≤ m.record_count
      → Returns (zeroize_loop m left i) (λ m'. Zeroed m m' i left)
  unfolding zeroize_loop
  zeroize_loop-Zeroed m zero i size ready exact l = (
    m,
    refl,
    record {
      ready = ready;
      same = refl;
      vacant = λ j a b. absurd (omega arith);
      kept = λ j w h r. r;
    },
  )
  zeroize_loop-Zeroed m (suc left) i size ready exact l =
      let n = stored_at m i empty in
      let (m', run, z) =
        zeroize_loop-Zeroed n left (i + 1) size (stored_at-IsReady m size i empty ready) exact
          (omega arith) in
      (
        m',
        rw (save_at m size i empty ready (omega arith) exact, ◌>>=◌) run,
        record {
          ready = z.ready;
          same = z.same;
          vacant = λ j a b. elim (dec_lt i j) [
            | yes after ↦ z.vacant j (omega arith) (omega arith)
            | no here ↦
                let e : i ≡ j = omega arith in
                z.kept j empty (inl (omega arith)) (
                  subst (λ k. Reads n.file (extent m k) (to_le 8 empty)) e
                    (stored_at-here m size i empty))
          ];
          kept = λ j w h r.
              z.kept j w (elim h [ inl a ↦ inl (omega arith) | inr b ↦ inr (omega arith) ])
                (stored_at-apart m size i empty j w
                  (elim h [ inl a ↦ (λ e. omega arith) | inr b ↦ (λ e. omega arith) ]) r);
        },
      )

  pub zeroize-Zeroed :
      (m : RecordManager) (first count : ℕ)
      → m.record_size ≡ 8
      → IsReady m
      → extent m m.record_count ≤ max_exact
      → first + count ≤ m.record_count
      → Returns (zeroize first count m) (λ m'. Zeroed m m' first count)
  unfolding zeroize
  zeroize-Zeroed m first count size ready exact l =
      let (m', run, z) = zeroize_loop-Zeroed m count first size ready exact l in
      let steps : (first + count) % array_index_bound - first ≡ count =
        omega (arith, ready.countable) in
      (m', ap (λ k. zeroize_loop m k first) steps ∙ run, z)
