-- ===== src/MemoryMap/Editing.antt =====
-- Writes inside of a range of the map of src/memory/memory_map.cpp, and what the range then holds.
use bitprim_database.Prelude.{
  ℕ, ◌+◌, ◌≤◌, ◌<◌, ◌≡◌, ◌∙◌, refl, ap, ◌⊎◌, inl, inr, ◌++◌, arith, length, length-append, Bytes,
}
use bitprim_database.Bytes.{write_bytes_unique, write_bytes_outside, read_bytes_congr}
use bitprim_database.MemoryMap.{MemoryMap}
use bitprim_database.MemoryMap.Access.{Reads, Reads-join, written, written-Reads}

-- `g` is `f` with `w` in place of the bytes at `a`.
pub record Edits (f : MemoryMap) (a : ℕ) (w : Bytes) (g : MemoryMap) : Type 0 where
  pub only_bytes : g ≡ record f { bytes = g.bytes }
  pub outside : (x : ℕ) → (x < a) ⊎ (a + length w ≤ x) → g.bytes x ≡ f.bytes x
  pub inside : Reads g a w

pub Edits-written : {f g : MemoryMap} {a : ℕ} {w : Bytes} → Edits f a w g → g ≡ written f a w
Edits-written {f} {g} {a} {w} e =
    e.only_bytes
    ∙ ap (λ m. record f { bytes = m })
        (λ i x. write_bytes_unique f.bytes g.bytes a w x (e.outside x) e.inside i)

pub written-Edits : (f : MemoryMap) (a : ℕ) (w : Bytes) → Edits f a w (written f a w)
written-Edits f a w = record {
  only_bytes = refl;
  outside = λ x o. write_bytes_outside f.bytes a w x o;
  inside = written-Reads f a w;
}

-- The range with what stands before it.
pub Edits-after :
    (f g : MemoryMap) (a : ℕ) (bs w : Bytes)
    → Reads f a bs
    → Edits f (a + length bs) w g
    → Edits f a (bs ++ w) g
Edits-after f g a bs w r e =
    let long = length-append bs w in
    record {
      only_bytes = e.only_bytes;
      outside = λ x o.
          e.outside x (elim o [ inl l ↦ inl (omega arith) | inr h ↦ inr (omega (arith, long)) ]);
      inside =
          Reads-join g a bs w
            (read_bytes_congr f.bytes g.bytes a (length bs) (λ x l h. e.outside x (inl h)) ∙ r)
            e.inside;
    }

-- The range with what stands behind it.
pub Edits-before :
    (f g : MemoryMap) (a : ℕ) (w cs : Bytes)
    → Edits f a w g
    → Reads f (a + length w) cs
    → Edits f a (w ++ cs) g
Edits-before f g a w cs e r =
    let long = length-append w cs in
    record {
      only_bytes = e.only_bytes;
      outside = λ x o. e.outside x (elim o [ inl l ↦ inl l | inr h ↦ inr (omega (arith, long)) ]);
      inside = Reads-join g a w cs e.inside (
          read_bytes_congr f.bytes g.bytes (a + length w) (length cs) (λ x l h. e.outside x (inr l))
          ∙ r);
    }
