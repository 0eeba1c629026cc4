-- ===== src/MemoryMap/Growth.antt =====
-- Resizing the map of src/memory/memory_map.cpp: `reserve`, `resize` and what they call.
use bitprim_database.Prelude.{
  ℕ, ◌≤◌, ◌<◌, ◌^◌, ◌≡◌, ◌∙◌, ap, sym, refl, true, false, arith, ltb, ltb→lt, lt→ltb, ne→==,
  Bool-cases, if◌then◌else◌, ◌⊎◌, inl, inr,
}
use bitprim_database.Run.{thrown, Returns}
use bitprim_database.MemoryMap.{
  Os, MemoryMap, validate, map, unmap, remap, truncate, truncate_mapped, reserve_by,
}
use bitprim_database.MemoryMap.Access.{Covers}

-- The product of a size, exact as a double, with a factor of 1 or more is no smaller.
abbrev pub max_exact : ℕ
max_exact = 2 ^ 53

-- The calls that growth makes succeed.
pub record Works (os : Os) : Type 0 where
  pub mmap : (n : ℕ) → os.mmap_succeeds n ≡ true
  pub mremap : (m n : ℕ) → os.mremap_succeeds m n ≡ true
  pub munmap : os.munmap_succeeds ≡ true
  pub ftruncate : (n : ℕ) → os.ftruncate_succeeds n ≡ true
  pub expand : (n e : ℕ) → n ≤ max_exact → n ≤ os.expand n e

-- An open file whose mapping is as long as the file.
pub record IsLive (f : MemoryMap) : Type 0 where
  pub opened : f.closed ≡ false
  pub mapped : f.mapped ≡ true
  pub sized : f.file_size ≡ f.disk_size

-- `f'` is `f` with room for `size` bytes, and with the old bytes in place.
pub record Grew (size : ℕ) (f f' : MemoryMap) : Type 0 where
  pub live : IsLive f'
  pub room : size ≤ f'.file_size
  pub logical : f'.logical_size ≡ size
  pub grows : f.file_size ≤ f'.file_size
  pub kept : (a : ℕ) → a < f.file_size → f'.bytes a ≡ f.bytes a
  pub expansion : f'.expansion ≡ f.expansion

pub Grew-Covers : {size n : ℕ} {f f' : MemoryMap} → Grew size f f' → n ≤ size → Covers f' n
Grew-Covers g h = record { mapped = g.live.mapped; within = omega arith }

-- What a successful growth to `target` bytes leaves.
abbrev grown : ℕ → MemoryMap → MemoryMap
grown target f = record f {
  bytes = λ a. if ltb a f.disk_size then f.bytes a else 0;
  mapped = true;
  file_size = target;
  disk_size = target;
}

module _ {os : Os} (w : Works os) (f : MemoryMap) where
  map-grown :
      (target : ℕ)
      → 0 < target
      → map os target f ≡ (true, record f { mapped = true; file_size = target })
  unfolding map validate
  map-grown target pos = rw (ne→== target 0 (omega arith), w.mmap target)

  -- Growing succeeds with and without `mremap`.
  truncate_mapped-grown :
      (target : ℕ) → 0 < target → truncate_mapped os target f ≡ (true, grown target f)
  unfolding truncate_mapped unmap truncate remap validate map
  truncate_mapped-grown target pos = elim (Bool-cases os.has_mremap) [
    | inl e ↦ rw (e, w.ftruncate target, w.mremap f.file_size target)
    | inr e ↦ rw (e, w.munmap, w.ftruncate target, ne→== target 0 (omega arith), w.mmap target)
  ]

module _ {os : Os} (w : Works os) {f : MemoryMap} (live : IsLive f) where
  -- `reserve` on an open file, of a size that a double holds exactly, returns where the system
  -- calls succeed, with and without `mremap`. The file stays open, has at least the size, is no
  -- shorter than before, has the size as its logical size, and keeps every byte.
  pub reserve_by-Grew :
      (size expansion : ℕ)
      → size ≤ max_exact
      → Returns (reserve_by os size expansion f) (Grew size f)
  unfolding reserve_by
  reserve_by-Grew size expansion small = elim (Bool-cases (ltb f.file_size size)) [
    | inl more ↦
        let target = os.expand size expansion in
        let enough : size ≤ target = w.expand size expansion small in
        let pos : f.file_size < size = ltb→lt _ _ more in
        (
          record (grown target f) { logical_size = size },
          ground (arith, live.opened, truncate_mapped-grown w f target (omega arith)),
          record {
            live = record { opened = live.opened; mapped = refl; sized = refl };
            room = enough;
            logical = refl;
            grows = omega arith;
            kept = λ a h. rw (lt→ltb a f.disk_size (omega arith));
            expansion = refl;
          },
        )
    | inr fits ↦ (
      record f { logical_size = size },
      ground arith,
      record {
        live = record { opened = live.opened; mapped = live.mapped; sized = live.sized };
        room = ground arith;
        logical = refl;
        grows = omega arith;
        kept = λ a h. refl;
        expansion = refl;
      },
    )
  ]

-- `reserve` throws on a closed file, and where the file must grow and `ftruncate` fails.
pub reserve_by-thrown :
    (os : Os) (f : MemoryMap) (size expansion : ℕ)
    → (f.closed ≡ true)
      ⊎ ((f.file_size < size) × (os.ftruncate_succeeds (os.expand size expansion) ≡ false))
    → reserve_by os size expansion f ≡ thrown
unfolding reserve_by truncate_mapped truncate unmap
reserve_by-thrown os f size expansion (inl c) = rw c
reserve_by-thrown os f size expansion (inr h) = ground (arith, lt→ltb f.file_size size h.0)

-- Writes to a file leave it open.
pub IsLive-bytes : {f g : MemoryMap} → g ≡ record f { bytes = g.bytes } → IsLive f → IsLive g
IsLive-bytes e live = record {
  opened = ap (λ (x : MemoryMap). x.closed) e ∙ live.opened;
  mapped = ap (λ (x : MemoryMap). x.mapped) e ∙ live.mapped;
  sized =
      ap (λ (x : MemoryMap). x.file_size) e
      ∙ live.sized
      ∙ sym (ap (λ (x : MemoryMap). x.disk_size) e);
}
