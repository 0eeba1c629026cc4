-- ===== src/TransactionDatabase/Bodies.antt =====
-- The bodies of the slabs of src/databases/transaction_database.cpp: `is_spent` of
-- src/result/transaction_result.cpp, and the writes of `spend`.
use mathlib.Core.Path.{subst}
use bitprim_database.Prelude.{
  ℕ, suc, ◌+◌, ◌%◌, ◌≤◌, ◌<◌, ◌^◌, ◌≡◌, ◌∙◌, refl, sym, ap, inl, inr, true, false, some, List, ◌++◌,
  arith, le→leb, leb_no, ◌==◌, if◌then◌else◌, Bool-cases, length, length-append, All, Bytes,
  bytes_eq,
}
use bitprim_database.Run.{ok, ◌>>=◌}
use bitprim_database.Endian.{Endian, to_le, array_index_bound}
use bitprim_database.VariableUint.{VariableUint, to_variable, read_size}
use bitprim_database.VariableUint.Reading.{read_size-Reads}
use bitprim_database.MemoryMap.{MemoryMap}
use bitprim_database.MemoryMap.Access.{Covers, Reads, Reads-append, written, save-ok}
use bitprim_database.MemoryMap.Editing.{Edits, Edits-after, Edits-before}
use bitprim_database.UnspentTransaction.{OutputPoint}
use bitprim_database.UnspentOutputs as Cache
use bitprim_database.TransactionResult.{transaction_result, unconfirmed, at_slab, is_spent}
use bitprim_database.TransactionResult.Outputs as Outputs
use bitprim_database.TransactionResult.Outputs.{
  StoredOutput, set_spender, all_spent, outputs_bytes, length-set_spender, length-outputs_bytes,
  length-outputs_lt, is_spent_loop-all_spent, skip_outputs-Spendable,
}
use bitprim_database.TransactionDatabase.{TransactionDatabase, serialize, write_spender}
use bitprim_database.TransactionDatabase.Entries.{Entry, slab_of, length-slab_of, edited, Fields}

pub record Contents : Type 0 where
  pub locks : Bytes
  pub outputs : List StoredOutput
  pub inputs : Bytes

pub record IsFormed (c : Contents) : Type 0 where
  pub locks : length c.locks ≡ 8
  pub count : length c.outputs < 2 ^ 64
  pub outputs : All Outputs.IsSized c.outputs

module _ ⦃en : Endian⦄ ⦃var : VariableUint⦄ where
  abbrev pub body_of : Contents → Bytes
  body_of c = c.locks ++ (to_variable (length c.outputs) ++ (outputs_bytes c.outputs ++ c.inputs))

  length-body_of :
      (c : Contents)
      → length (body_of c)
        ≡ length c.locks
          + length (to_variable (length c.outputs))
          + (length (outputs_bytes c.outputs) + length c.inputs)
  length-body_of c =
      let counted = to_variable (length c.outputs) in
      omega (
        arith,
        length-append c.locks (counted ++ (outputs_bytes c.outputs ++ c.inputs)),
        length-append counted (outputs_bytes c.outputs ++ c.inputs),
        length-append (outputs_bytes c.outputs) c.inputs,
      )

  -- The transaction with another spender of one of its outputs.
  abbrev pub respent : ℕ → ℕ → Contents → Contents
  respent i height c = record c { outputs = set_spender i height c.outputs }

  pub length-respent :
      (i height : ℕ) (c : Contents) → length (body_of (respent i height c)) ≡ length (body_of c)
  length-respent i height c =
      let same = length-set_spender i height c.outputs in
      let counted : length (to_variable (length (set_spender i height c.outputs)))
          ≡ length (to_variable (length c.outputs)) =
        ap (λ n. length (to_variable n)) same in
      omega (
        arith,
        length-body_of c,
        length-body_of (respent i height c),
        length-outputs_bytes i height c.outputs,
        counted,
      )

  -- A slab at a place, and the parts of its transaction.
  module _ (f : MemoryMap) (a : ℕ) (s : Entry) (c : Contents)
      (covers : Covers f (a + length (slab_of s))) (fields : Fields f a s)
      (body : s.body ≡ body_of c) (formed : IsFormed c) where
    record Parts : Type 0 where
      count :
          read_size f (a + 16)
          ≡ ok (length c.outputs, a + 16 + length (to_variable (length c.outputs)))
      locks : Reads f (a + 8) c.locks
      counted : Reads f (a + 16) (to_variable (length c.outputs))
      outputs : Reads f (a + 16 + length (to_variable (length c.outputs))) (outputs_bytes c.outputs)
      inputs :
          Reads f
            (a + 16 + length (to_variable (length c.outputs)) + length (outputs_bytes c.outputs))
            c.inputs
      fits :
          a + 16 + length (to_variable (length c.outputs)) + length (outputs_bytes c.outputs)
          ≤ a + length (slab_of s)

    parts : Parts
    parts =
        let n = to_variable (length c.outputs) in
        let eight : length c.locks ≡ 8 = formed.locks in
        let r = subst (λ bs. Reads f (a + 8) bs) body fields.body in
        let (r₁, r₂) =
          Reads-append f (a + 8) c.locks (n ++ (outputs_bytes c.outputs ++ c.inputs)) r in
        let (r₃, r₄) =
          Reads-append f (a + 8 + length c.locks) n (outputs_bytes c.outputs ++ c.inputs) r₂ in
        let (r₅, r₆) = Reads-append f _ (outputs_bytes c.outputs) c.inputs r₄ in
        let long : length (slab_of s) ≡ 8 + length (body_of c) =
          length-slab_of s ∙ ap (λ bs. 8 + length bs) body in
        let long' = length-body_of c in
        let start : a + 8 + length c.locks ≡ a + 16 = omega (arith, eight) in
        record {
          count =
              read_size-Reads f (a + length (slab_of s)) (a + 16) _ (length c.outputs) covers r₃
                start (omega (arith, long, long', eight)) formed.count;
          locks = r₁;
          counted = subst (λ x. Reads f x n) start r₃;
          outputs = subst (λ x. Reads f (x + length n) (outputs_bytes c.outputs)) start r₅;
          inputs =
              subst (λ x. Reads f (x + length n + length (outputs_bytes c.outputs)) c.inputs) start
                r₆;
          fits = omega (arith, long, long', eight);
        }

    start : a + 4 + 4 + 4 + 4 ≡ a + 16
    start = omega arith

    -- At a place where the slab of a transaction with well formed contents of fewer than 2 ^ 32
    -- outputs is read, `is_spent` answers false if the position is the one of the unconfirmed, and
    -- otherwise whether every output has a spender at or below the fork.
    pub is_spent-all_spent :
        (not_spent fork_height : ℕ) (hash : Bytes)
        → length c.outputs < array_index_bound
        → is_spent not_spent f fork_height (transaction_result (some a) hash)
          ≡ ok (
              if s.position == unconfirmed
              then false
              else all_spent not_spent fork_height c.outputs)
    unfolding is_spent at_slab transaction_result
    is_spent-all_spent not_spent fork_height hash few =
        rw (fields.position, ◌>>=◌, start)
          (elim (Bool-cases (s.position == unconfirmed)) [
            | inl no' ↦ rw no'
            | inr confirmed ↦ rw (
              confirmed,
              parts.count,
              ◌>>=◌,
              is_spent_loop-all_spent not_spent fork_height f (a + length (slab_of s))
                  (length c.outputs) (suc f.file_size) 0 _ _ c.outputs covers parts.outputs refl
                  parts.fits formed.outputs (omega arith) few
                  (omega
                    (arith, covers.within, parts.fits, length-outputs_lt c.outputs formed.outputs)),
            )
          ])

    pub write_spender_beyond :
        (i height : ℕ) → length c.outputs ≤ i → write_spender f a i height ≡ ok (false, f)
    unfolding write_spender
    write_spender_beyond i height l = rw (start, parts.count, ◌>>=◌, le→leb (length c.outputs) i l)

    pub write_spender-Edits :
        (i height : ℕ)
        → Reads f a (slab_of s)
        → i < length c.outputs
        → height < array_index_bound
        → (g : MemoryMap) × (write_spender f a i height ≡ ok (true, g))
          × Edits f a (slab_of (record s { body = body_of (respent i height c) })) g
    unfolding write_spender serialize
    write_spender-Edits i height reads l small =
        let h = to_le 4 (s.height % array_index_bound) in
        let p = to_le 4 (s.position % array_index_bound) in
        let four = en.length-to_le 4 (s.height % array_index_bound) in
        let four' = en.length-to_le 4 (s.position % array_index_bound) in
        let n = to_variable (length c.outputs) in
        let n' = to_variable (length (set_spender i height c.outputs)) in
        let eight : length c.locks ≡ 8 = formed.locks in
        let (r₁, r₂) = Reads-append f a h (p ++ s.body) reads in
        let (r₃, r₄) = Reads-append f (a + length h) p s.body r₂ in
        let q = parts in
        let (place, spendable) =
          skip_outputs-Spendable f (a + length (slab_of s)) (a + 16 + length n) i c.outputs covers
            q.outputs q.fits formed.outputs l in
        let g = written f place (to_le 4 height) in
        let wrap : height % array_index_bound ≡ height = omega arith in
        let same : n ≡ n' = ap to_variable (sym (length-set_spender i height c.outputs)) in
        let outs = outputs_bytes (set_spender i height c.outputs) in
        let long = length-outputs_bytes i height c.outputs in
        let tail : Edits f (a + 16 + length n) (outs ++ c.inputs) g =
          Edits-before f g (a + 16 + length n) outs c.inputs (spendable.edit height)
            (subst (λ x. Reads f x c.inputs) (omega (arith, long)) q.inputs) in
        let counted : Edits f (a + 16) (n' ++ (outs ++ c.inputs)) g =
          subst (λ m. Edits f (a + 16) (m ++ (outs ++ c.inputs)) g) same
            (Edits-after f g (a + 16) n (outs ++ c.inputs) q.counted tail) in
        let body' : Edits f (a + 8) (c.locks ++ (n' ++ (outs ++ c.inputs))) g =
          Edits-after f g (a + 8) c.locks (n' ++ (outs ++ c.inputs)) q.locks
            (subst (λ x. Edits f x (n' ++ (outs ++ c.inputs)) g) (omega (arith, eight)) counted) in
        (
          g,
          rw (
            start,
            q.count,
            ◌>>=◌,
            leb_no (length c.outputs) i l,
            spendable.skipped,
            wrap,
            save-ok f place (to_le 4 height) (record {
              mapped = covers.mapped;
              within = omega (arith, spendable.within, covers.within, en.length-to_le 4 height);
            }),
          ),
          Edits-after f g a h (p ++ body_of (respent i height c)) r₁ (
              Edits-after f g (a + length h) p (body_of (respent i height c)) r₃ (
                subst (λ x. Edits f x (body_of (respent i height c)) g) (omega (arith, four, four'))
                  body')),
        )

  -- The transactions after a spend.
  abbrev pub marked : (Bytes → List Entry) → OutputPoint → ℕ → Contents → Bytes → List Entry
  marked m point spender_height c q =
      if bytes_eq q point.hash
      then edited (λ s. record s { body = body_of (respent point.index spender_height c) }) (m q)
      else m q

-- The cache after a spend.
abbrev pub uncached :
    {Output : Type 0}
    → ℕ
    → OutputPoint
    → ℕ
    → TransactionDatabase Output
    → TransactionDatabase Output
uncached not_spent point spender_height db = record db {
  cache = if spender_height == not_spent then db.cache else Cache.remove_output point db.cache;
}
