-- ===== src/BlockIndex/Writing.antt =====
-- `write_position` of src/databases/block_database.cpp.
use mathlib.Core.Path.{subst}
use bitprim_database.Prelude.{
  ℕ, ◌+◌, ◌-◌, ◌%◌, ◌<◌, ◌≤◌, ◌^◌, ◌≡◌, ◌≢◌, ◌∙◌, sym, ap, inl, inr, arith, ltb, ltb→lt, lt→ltb,
  ltb_no, ◌==◌, ==→eq, eq→==, if◌then◌else◌, Bool-cases, length,
}
use native.Mathlib.Decide.{dec_lt}
use bitprim_database.Run.{◌>>=◌, Returns}
use bitprim_database.Bytes.{read_bytes_congr}
use bitprim_database.Endian.{Endian, to_le, array_index_bound}
use bitprim_database.MemoryMap.{Os, MemoryMap}
use bitprim_database.MemoryMap.Growth.{Works, Grew, max_exact}
use bitprim_database.MemoryMap.Access.{Reads}
use bitprim_database.RecordManager
use bitprim_database.RecordManager.{RecordManager}
use bitprim_database.RecordManager.Positions.{extent}
use bitprim_database.RecordManager.Allocation.{IsReady, added, new_records-added}
use bitprim_database.BlockIndex.{extend, write_position}
use bitprim_database.BlockIndex.Heights.{extent_step, Indexes}
use bitprim_database.BlockIndex.Zeroing.{
  stored_at, stored_at-here, stored_at-apart, save_at, stored_at-IsReady, Zeroed, zeroize-Zeroed,
}

module _ ⦃en : Endian⦄ where
  -- The number of heights with `height` among them.
  abbrev pub reach : ℕ → ℕ → ℕ
  reach n height = if ltb n (height + 1) then height + 1 else n

  -- `m'` has a record for `height`, and no positions at the heights between.
  record Extended (m : RecordManager) (n : ℕ) (p : ℕ → ℕ) (height : ℕ) (m' : RecordManager)
      : Type 0 where
    ready : IsReady m'
    sized : m'.record_size ≡ 8
    counted : m'.record_count ≡ reach n height
    exact : extent m' m'.record_count ≤ max_exact
    stored :
        (i : ℕ)
        → i < reach n height
        → i ≢ height
        → Reads m'.file (extent m' i) (to_le 8 (if ltb i n then p i else 0))

  module _ {os : Os} (works : Works os) (m : RecordManager) (n : ℕ) (p : ℕ → ℕ) (height : ℕ)
      (h : Indexes m n p) (small : height + 1 < array_index_bound)
      (room : extent m (height + 1) ≤ max_exact) where
    -- The records of the new heights, in a file that has grown for them.
    Zeroed-Extended :
        (f : MemoryMap) (added_count : ℕ) (m' : RecordManager)
        → m.record_count + added_count ≡ height + 1
        → n < height + 1
        → Grew (extent m (m.record_count + added_count)) m.file f
        → Zeroed (added added_count f m) m' m.record_count (added_count - 1)
        → Extended m n p height m'
    Zeroed-Extended f added_count m' size l grew z =
        let reached : reach n height ≡ height + 1 = rw (lt→ltb n (height + 1) l) in
        let counted' : m'.record_count ≡ height + 1 =
          ap (λ (x : RecordManager). x.record_count) z.same ∙ size in
        let header : m'.header_size ≡ m.header_size =
          ap (λ (x : RecordManager). x.header_size) z.same in
        let record_size : m'.record_size ≡ m.record_size =
          ap (λ (x : RecordManager). x.record_size) z.same in
        record {
          ready = z.ready;
          sized = record_size ∙ h.sized;
          counted = counted' ∙ sym reached;
          exact = rw (counted', header, record_size) room;
          stored = λ i l' ne.
              rw (header, record_size)
                (elim (Bool-cases (ltb i n)) [
                  | inl old ↦
                      let o = ltb→lt i n old in
                      rw old (
                        z.kept i (p i) (inl (omega (arith, h.counted))) (
                          read_bytes_congr m.file.bytes f.bytes (extent m i)
                            (length (to_le 8 (p i)))
                            (λ a q r. grew.kept a (
                              omega (
                                arith,
                                r,
                                extent_step m i m.record_count h.sized (omega (arith, h.counted)),
                                en.length-to_le 8 (p i),
                                h.ready.holds,
                              )))
                          ∙ h.stored i o))
                  | inr new ↦
                      let o : n ≤ i = ground arith in
                      rw new
                        (z.vacant i (omega (arith, h.counted)) (omega (arith, h.counted, reached)))
                ]);
        }

    extend-new : n < height + 1 → Returns (extend os (height + 1) m) (Extended m n p height)
    unfolding extend RecordManager.count
    extend-new l =
        let extra = height + 1 - m.record_count in
        let size : m.record_count + extra ≡ height + 1 = omega (arith, h.counted) in
        let (f, run, grew) =
          new_records-added m extra works h.ready
            (record { indexes = omega (arith, size); exact = rw size room }) in
        let f' = added extra f m in
        let (m', run', z) =
          zeroize-Zeroed f' m.record_count (extra - 1) h.sized
            (record { live = grew.live; holds = grew.room; countable = omega (arith, size) })
            (rw size room) (omega (arith, h.counted)) in
        (
          m',
          rw (lt→ltb m.record_count (height + 1) (omega (arith, h.counted)), run, ◌>>=◌) run',
          Zeroed-Extended f extra m' size l grew z,
        )

    extend-old : height + 1 ≤ n → Returns (extend os (height + 1) m) (Extended m n p height)
    unfolding extend RecordManager.count
    extend-old l =
        let reached : reach n height ≡ n = rw (ltb_no n (height + 1) l) in
        (
          m,
          rw (ltb_no m.record_count (height + 1) (omega (arith, h.counted))),
          record {
            ready = h.ready;
            sized = h.sized;
            counted = h.counted ∙ sym reached;
            exact = h.exact;
            stored = λ i l' ne.
                let below : i < n = omega (arith, reached) in
                rw (lt→ltb i n below) (h.stored i below);
          },
        )

    extend-Extended : Returns (extend os (height + 1) m) (Extended m n p height)
    extend-Extended = elim (dec_lt n (height + 1)) [
      | yes l ↦ extend-new l
      | no g ↦ extend-old (omega arith)
    ]

    -- The positions after a write.
    abbrev pub put : ℕ → ℕ → ℕ
    put position i = if i == height then position else if ltb i n then p i else 0

    -- `write_position` of a position of 64 bits at a height, in an index of `n` heights, returns
    -- where the system calls succeed and the heights have room. The index then has the larger of
    -- `n` and the height plus one as its number of heights, the position at the height, the
    -- positions below `n` otherwise as before, and no block at the heights between.
    pub write_position-Indexes :
        (position : ℕ)
        → position < 256 ^ 8
        → Returns
            (write_position os position height m)
            (λ m'. Indexes m' (reach n height) (put position))
    unfolding write_position
    write_position-Indexes position wide =
        let (m', run, x) = extend-Extended in
        let wrap : (height + 1) % array_index_bound ≡ height + 1 = omega (arith, small) in
        let within : height < reach n height = ground arith in
        (
          stored_at m' height position,
          rw (
            wrap,
            run,
            ◌>>=◌,
            save_at m' x.sized height position x.ready (omega (arith, within, x.counted)) x.exact,
          ),
          record {
            ready = stored_at-IsReady m' x.sized height position x.ready;
            sized = x.sized;
            counted = x.counted;
            exact = x.exact;
            wide = λ i l. elim (Bool-cases (i == height)) [
              | inl same ↦ rw same wide
              | inr other ↦ rw other (elim (Bool-cases (ltb i n)) [
                | inl old ↦ rw old (h.wide i (ltb→lt i n old))
                | inr new ↦ rw new (omega arith)
              ])
            ];
            stored = λ i l. elim (Bool-cases (i == height)) [
              | inl same ↦
                  let e : height ≡ i = sym (==→eq i height same) in
                  rw same (
                    subst
                      (λ k.
                        Reads (stored_at m' height position).file (extent m' k) (to_le 8 position))
                      e (stored_at-here m' x.sized height position))
              | inr other ↦
                  let ne : i ≢ height = λ e. ground (arith, eq→== i height e) in
                  rw other (stored_at-apart m' x.sized height position i _ ne (x.stored i l ne))
            ];
          },
        )
