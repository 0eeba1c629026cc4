-- ===== src/VariableUint/Reading.antt =====
-- Reading back a size that the system library has written in a variable number of bytes.
use bitprim_database.Prelude.{ℕ, ◌+◌, ◌<◌, ◌≤◌, ◌^◌, ◌≡◌, refl, sym, ap, [], ◌∷◌, arith, length}
use bitprim_database.Run.{ok, ◌>>=◌}
use bitprim_database.VariableUint.{VariableUint, to_variable, read_size}
use bitprim_database.MemoryMap.{MemoryMap}
use bitprim_database.MemoryMap.Access.{Covers, Reads, Reads-append, load-part}

module _ ⦃var : VariableUint⦄ where
  -- A size is read back, with the place behind it.
  pub read_size-Reads :
      (f : MemoryMap) (end a b v : ℕ)
      → Covers f end
      → Reads f b (to_variable v)
      → b ≡ a
      → a + length (to_variable v) ≤ end
      → v < 2 ^ 64
      → read_size f a ≡ ok (v, a + length (to_variable v))
  unfolding read_size
  read_size-Reads f end a b v covers r e h small =
      let (r₁, r₂) = Reads-append f b (var.first v ∷ []) (var.others v) r in
      let l₁ = load-part f end a b 1 (var.first v ∷ []) covers r₁ e refl (omega arith) in
      let l₂ =
        load-part f end (a + 1) (b + 1) (var.following (var.first v)) (var.others v) covers r₂
          (omega (arith, e)) (sym (var.length-others v)) (omega (arith, var.length-others v)) in
      rw (l₁, ◌>>=◌, l₂, ◌>>=◌, var.value-others v small)
        (ap (λ n. ok (v, n)) (omega (arith, var.length-others v)))
