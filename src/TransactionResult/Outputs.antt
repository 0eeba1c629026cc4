-- ===== src/TransactionResult/Outputs.antt =====
-- The outputs of a stored transaction, as src/result/transaction_result.cpp and
-- src/databases/transaction_database.cpp pass over them.
use mathlib.Core.Path.{subst}
use bitprim_database.Prelude.{
  ℕ, zero, suc, ◌+◌, ◌≤◌, ◌<◌, ◌^◌, ◌≡◌, refl, sym, ap, inl, inr, Bool, true, false, ◌||◌, List, [],
  ◌∷◌, ◌++◌, ◌%◌, arith, ltb, lt→ltb, ltb_no, ◌==◌, if◌then◌else◌, Bool-cases, length,
  length-append, All, Bytes,
}
use bitprim_database.Run.{ok, ◌>>=◌}
use bitprim_database.Endian.{Endian, to_le, array_index_bound}
use bitprim_database.VariableUint.{VariableUint, to_variable}
use bitprim_database.VariableUint.Reading.{read_size-Reads}
use bitprim_database.MemoryMap.{MemoryMap}
use bitprim_database.MemoryMap.Access.{Covers, Reads, Reads-append, load-part, written}
use bitprim_database.MemoryMap.Editing.{Edits, written-Edits, Edits-after, Edits-before}
use bitprim_database.TransactionResult.{load_word, skip_output, skip_outputs, is_spent_loop}

-- The fields of an output with the height of its spender.
pub record StoredOutput : Type 0 where
  pub spender_height : ℕ
  pub value : Bytes
  pub script : Bytes

pub record IsSized (o : StoredOutput) : Type 0 where
  pub spender_height : o.spender_height < array_index_bound
  pub value : length o.value ≡ 8
  pub script : length o.script < 2 ^ 64

-- The outputs with another spender of one of them.
abbrev pub set_spender : ℕ → ℕ → List StoredOutput → List StoredOutput
set_spender i height [] = []
set_spender zero height (o ∷ os) = record o { spender_height = height } ∷ os
set_spender (suc i) height (o ∷ os) = o ∷ set_spender i height os

pub length-set_spender :
    (i height : ℕ) (os : List StoredOutput) → length (set_spender i height os) ≡ length os
length-set_spender i height [] = refl
length-set_spender zero height (o ∷ os) = refl
length-set_spender (suc i) height (o ∷ os) = ap suc (length-set_spender i height os)

-- Whether every output has a spender at or below the fork.
abbrev pub all_spent : ℕ → ℕ → List StoredOutput → Bool
all_spent not_spent fork_height [] = true
all_spent not_spent fork_height (o ∷ os) =
    if (o.spender_height == not_spent) || ltb fork_height o.spender_height
    then false
    else all_spent not_spent fork_height os

module _ ⦃en : Endian⦄ ⦃var : VariableUint⦄ where
  -- What follows the spender.
  abbrev pub tail_bytes : StoredOutput → Bytes
  tail_bytes o = o.value ++ (to_variable (length o.script) ++ o.script)

  abbrev pub output_bytes : StoredOutput → Bytes
  output_bytes o = to_le 4 o.spender_height ++ tail_bytes o

  abbrev pub outputs_bytes : List StoredOutput → Bytes
  outputs_bytes [] = []
  outputs_bytes (o ∷ os) = output_bytes o ++ outputs_bytes os

  length-output_bytes :
      (o : StoredOutput)
      → length (output_bytes o)
        ≡ 4 + length o.value + length (to_variable (length o.script)) + length o.script
  length-output_bytes o =
      let size = to_variable (length o.script) in
      omega (
        arith,
        length-append (to_le 4 o.spender_height) (o.value ++ (size ++ o.script)),
        length-append o.value (size ++ o.script),
        length-append size o.script,
        en.length-to_le 4 o.spender_height,
      )

  pub length-outputs_bytes :
      (i height : ℕ) (os : List StoredOutput)
      → length (outputs_bytes (set_spender i height os)) ≡ length (outputs_bytes os)
  length-outputs_bytes i height [] = refl
  length-outputs_bytes zero height (o ∷ os) = omega (
    arith,
    length-append (output_bytes (record o { spender_height = height })) (outputs_bytes os),
    length-append (output_bytes o) (outputs_bytes os),
    length-output_bytes o,
    length-output_bytes (record o { spender_height = height }),
  )
  length-outputs_bytes (suc i) height (o ∷ os) = omega (
    arith,
    length-append (output_bytes o) (outputs_bytes (set_spender i height os)),
    length-append (output_bytes o) (outputs_bytes os),
    length-outputs_bytes i height os,
  )

  -- An output at a place is passed over, and its spender is read.
  module _ (f : MemoryMap) (end a b : ℕ) (o : StoredOutput) (covers : Covers f end)
      (r : Reads f b (output_bytes o)) (e : b ≡ a) (fits : a + length (output_bytes o) ≤ end)
      (sized : IsSized o) where
    skip_output-Reads : skip_output f a ≡ ok (a + length (output_bytes o))
    unfolding skip_output
    skip_output-Reads =
        let size = to_variable (length o.script) in
        let four = en.length-to_le 4 o.spender_height in
        let (r₁, r₂) =
          Reads-append f b (to_le 4 o.spender_height) (o.value ++ (size ++ o.script)) r in
        let (r₃, r₄) = Reads-append f _ o.value (size ++ o.script) r₂ in
        let (r₅, r₆) = Reads-append f _ size o.script r₄ in
        let read =
          read_size-Reads f end (a + 4 + 8) _ (length o.script) covers r₅
            (omega (arith, e, four, sized.value))
            (omega (arith, fits, length-output_bytes o, sized.value)) sized.script in
        rw (read, ◌>>=◌) (ap ok (omega (arith, length-output_bytes o, sized.value)))

    load_spender-Reads : load_word f a ≡ ok o.spender_height
    unfolding load_word
    load_spender-Reads =
        let four = en.length-to_le 4 o.spender_height in
        let (r₁, r₂) = Reads-append f b (to_le 4 o.spender_height) (tail_bytes o) r in
        rw
          (load-part f end a b 4 (to_le 4 o.spender_height) covers r₁ e (sym four)
            (omega (arith, fits, length-output_bytes o)))
          (ap ok (en.from_le-to_le 4 o.spender_height (omega (arith, sized.spender_height))))

  -- An output takes more than one byte.
  pub length-outputs_lt :
      (os : List StoredOutput) → All IsSized os → length os ≤ length (outputs_bytes os)
  length-outputs_lt [] sized = omega arith
  length-outputs_lt (o ∷ os) (s, ss) = omega (
    arith,
    length-append (output_bytes o) (outputs_bytes os),
    length-output_bytes o,
    length-outputs_lt os ss,
  )

  -- At a place where the last of fewer than 2 ^ 32 outputs are read, the search for an output that
  -- is not spent says whether all of these are, with fuel for one more.
  pub is_spent_loop-all_spent :
      (not_spent fork_height : ℕ) (f : MemoryMap) (end count fuel i a b : ℕ)
      (os : List StoredOutput)
      → Covers f end
      → Reads f b (outputs_bytes os)
      → b ≡ a
      → a + length (outputs_bytes os) ≤ end
      → All IsSized os
      → i + length os ≡ count
      → count < array_index_bound
      → length os < fuel
      → is_spent_loop not_spent f fork_height count fuel i a
        ≡ ok (all_spent not_spent fork_height os)
  unfolding is_spent_loop
  is_spent_loop-all_spent not_spent fork_height f end count zero i a b os covers r e fits sized n
        few l =
      absurd (omega (arith, l))
  is_spent_loop-all_spent not_spent fork_height f end count (suc fuel) i a b [] covers r e fits
        sized n few l =
      rw (is_spent_loop, ltb_no i count (omega (arith, n)))
  is_spent_loop-all_spent not_spent fork_height f end count (suc fuel) i a b (o ∷ os) covers r e
        fits (s, ss) n few l =
      let (r₁, r₂) = Reads-append f b (output_bytes o) (outputs_bytes os) r in
      let long = length-append (output_bytes o) (outputs_bytes os) in
      let within : a + length (output_bytes o) ≤ end = omega (arith, fits, long) in
      let wrap : (i + 1) % array_index_bound ≡ i + 1 = omega (arith, n, few) in
      rw
        (
          is_spent_loop,
          lt→ltb i count (omega (arith, n)),
          load_spender-Reads f end a b o covers r₁ e within s,
          ◌>>=◌,
        )
        (elim (Bool-cases ((o.spender_height == not_spent) || ltb fork_height o.spender_height)) [
          | inl open' ↦ rw open'
          | inr spent ↦ rw (
            spent,
            skip_output-Reads f end a b o covers r₁ e within s,
            ◌>>=◌,
            wrap,
            is_spent_loop-all_spent not_spent fork_height f end count fuel (i + 1)
                (a + length (output_bytes o)) (b + length (output_bytes o)) os covers r₂
                (omega (arith, e)) (omega (arith, fits, long)) ss (omega (arith, n)) few
                (omega (arith, l)),
          )
        ])

  -- The place of an output, at which another spender may be written.
  pub record Spendable (f : MemoryMap) (end a i : ℕ) (os : List StoredOutput) (place : ℕ)
      : Type 0 where
    pub skipped : skip_outputs f i a ≡ ok place
    pub within : place + 4 ≤ end
    pub edit :
        (height : ℕ)
        → Edits f a (outputs_bytes (set_spender i height os)) (written f place (to_le 4 height))

  pub skip_outputs-Spendable :
      (f : MemoryMap) (end a i : ℕ) (os : List StoredOutput)
      → Covers f end
      → Reads f a (outputs_bytes os)
      → a + length (outputs_bytes os) ≤ end
      → All IsSized os
      → i < length os
      → (place : ℕ) × Spendable f end a i os place
  unfolding skip_outputs
  skip_outputs-Spendable f end a i [] covers r fits sized l = absurd (omega (arith, l))
  skip_outputs-Spendable f end a zero (o ∷ os) covers r fits (s, ss) l =
      let (r₁, r₂) = Reads-append f a (output_bytes o) (outputs_bytes os) r in
      let (r₃, r₄) = Reads-append f a (to_le 4 o.spender_height) (tail_bytes o) r₁ in
      let four = en.length-to_le 4 o.spender_height in
      (
        a,
        record {
          skipped = refl;
          within = omega (
            arith,
            fits,
            length-append (output_bytes o) (outputs_bytes os),
            length-output_bytes o,
          );
          edit = λ height.
              let o' = record o { spender_height = height } in
              Edits-before f (written f a (to_le 4 height)) a (output_bytes o') (outputs_bytes os)
                (Edits-before f (written f a (to_le 4 height)) a (to_le 4 height) (tail_bytes o)
                  (written-Edits f a (to_le 4 height))
                  (subst (λ x. Reads f x (tail_bytes o))
                    (omega (arith, four, en.length-to_le 4 height)) r₄))
                (subst (λ x. Reads f x (outputs_bytes os))
                  (omega (arith, length-output_bytes o, length-output_bytes o')) r₂);
        },
      )
  skip_outputs-Spendable f end a (suc i) (o ∷ os) covers r fits (s, ss) l =
      let (r₁, r₂) = Reads-append f a (output_bytes o) (outputs_bytes os) r in
      let long = length-append (output_bytes o) (outputs_bytes os) in
      let (place, rest) =
        skip_outputs-Spendable f end (a + length (output_bytes o)) i os covers r₂
          (omega (arith, fits, long)) ss (omega (arith, l)) in
      (
        place,
        record {
          skipped =
              rw (skip_output-Reads f end a a o covers r₁ refl (omega (arith, fits, long)) s, ◌>>=◌)
                rest.skipped;
          within = rest.within;
          edit = λ height.
              Edits-after f (written f place (to_le 4 height)) a (output_bytes o)
                (outputs_bytes (set_spender i height os)) r₁ (rest.edit height);
        },
      )
