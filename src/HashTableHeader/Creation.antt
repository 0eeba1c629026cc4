-- ===== src/HashTableHeader/Creation.antt =====
-- `create` and `start` of include/bitcoin/database/impl/hash_table_header.ipp.
use bitprim_database.Prelude.{
  ℕ, zero, suc, ◌+◌, ◌*◌, ◌≤◌, ◌<◌, ◌^◌, ◌≡◌, refl, sym, inl, true, arith, eq→==, ne→==, ltb_no,
  length, length-replicate, replicate,
}
use bitprim_database.Run.{ok, ◌>>=◌, Returns}
use bitprim_database.Bytes.{Memory, read_bytes, write_bytes}
use bitprim_database.Endian.{Endian, to_le}
use bitprim_database.MemoryMap.{Os, MemoryMap, resize}
use bitprim_database.MemoryMap.Growth.{Works, IsLive, reserve_by-Grew, max_exact}
use bitprim_database.MemoryMap.Access.{
  Reads, written, save-ok, load-Reads, written-Reads, written_apart,
}
use bitprim_database.HashTableHeader.{empty, empty_byte, item_position, create, start}

write_replicate :
    (m : Memory) (a n b x : ℕ) → a ≤ x → x < a + n → write_bytes m a (replicate n b) x ≡ b
unfolding write_bytes
write_replicate m a zero b x l h = absurd (omega arith)
write_replicate m a (suc n) b x l h = ground (arith, write_replicate m (a + 1) n b x)

read_constant :
    (m : Memory) (a n b : ℕ)
    → ((x : ℕ) → a ≤ x → x < a + n → m x ≡ b)
    → read_bytes m a n ≡ replicate n b
unfolding read_bytes
read_constant m a zero b h = refl
read_constant m a (suc n) b h = ground (
  arith,
  h a (omega arith) (omega arith),
  read_constant m (a + 1) n b (λ x l r. h x (omega arith) (omega arith)),
)

module _ ⦃en : Endian⦄ (width : ℕ) where
  -- A header of empty buckets.
  pub record IsEmptyHeader (buckets : ℕ) (f : MemoryMap) : Type 0 where
    pub live : IsLive f
    pub covers : item_position width buckets ≤ f.file_size
    pub counted : Reads f 0 (to_le 4 buckets)
    pub vacant : (i : ℕ) → i < buckets → Reads f (item_position width i) (to_le width (empty width))

  -- `create` of a header of one bucket or more on an open file returns true where the system calls
  -- succeed and the size is exact as a double. The file then counts the buckets, every bucket reads
  -- as empty, and the file is no shorter.
  pub create-IsEmptyHeader :
      {os : Os} (f : MemoryMap) (buckets : ℕ)
      → Works os
      → IsLive f
      → 0 < buckets
      → 0 < 256 ^ width
      → item_position width buckets ≤ max_exact
      → Returns
          (create width os buckets f)
          (λ r. (r.0 ≡ true) × IsEmptyHeader buckets r.1 × (f.file_size ≤ r.1.file_size))
  unfolding create resize item_position
  create-IsEmptyHeader {os} f buckets works live pos wide room =
      let (g, run, grew) = reserve_by-Grew works live (4 + buckets * width) 0 room in
      let fill = replicate (buckets * width) empty_byte in
      let bs = to_le 4 buckets in
      let long : length fill ≡ buckets * width = length-replicate (buckets * width) empty_byte in
      let four : length bs ≡ 4 = en.length-to_le 4 buckets in
      let g₁ = written g 0 bs in
      let g₂ = written g₁ 4 fill in
      (
        (true, g₂),
        rw (
          ne→== buckets 0 (omega arith),
          run,
          ◌>>=◌,
          save-ok g 0 bs (record { mapped = grew.live.mapped; within = omega (arith, grew.room) }),
          save-ok g₁ 4 fill
              (record { mapped = grew.live.mapped; within = omega (arith, grew.room) }),
        ),
        (
          refl,
          record {
            live = record {
              opened = grew.live.opened;
              mapped = grew.live.mapped;
              sized = grew.live.sized;
            };
            covers = grew.room;
            counted = written_apart g₁ 4 fill 0 bs (inl (omega arith)) (written-Reads g 0 bs);
            vacant = λ i h.
                let step : i * width + width ≤ buckets * width = grind arith in
                let ones : to_le width (empty width) ≡ replicate width 255 =
                  en.to_le_ones width (empty width) (omega arith) in
                rw (ones, length-replicate {A = ℕ} width 255)
                  (read_constant (write_bytes g₁.bytes 4 fill) (4 + i * width) width 255 (λ x l r.
                    write_replicate g₁.bytes 4 (buckets * width) 255 x (omega arith)
                      (omega arith)));
          },
          grew.grows,
        ),
      )

  -- `start` of a header accepts a mapped file that holds all buckets and that counts as many as the
  -- header has, for less than 2 ^ 32 buckets.
  pub start-counted :
      (f : MemoryMap) (buckets : ℕ)
      → f.mapped ≡ true
      → item_position width buckets ≤ f.file_size
      → buckets < 256 ^ 4
      → Reads f 0 (to_le 4 buckets)
      → start width buckets f ≡ ok true
  unfolding start item_position
  start-counted f buckets m fits small r =
      rw
        (
          ltb_no f.file_size (4 + buckets * width) fits,
          load-Reads f 0 (to_le 4 buckets) (sym (en.length-to_le 4 buckets))
              (record { mapped = m; within = omega arith }) r,
          ◌>>=◌,
          en.from_le-to_le 4 buckets small,
          eq→== buckets buckets refl,
        )
        (ground arith)
