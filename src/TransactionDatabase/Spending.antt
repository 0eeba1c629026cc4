-- ===== src/TransactionDatabase/Spending.antt =====
-- `spend` and `unspend` of src/databases/transaction_database.cpp, and `is_spent` of
-- src/result/transaction_result.cpp.
use bitprim_database.Prelude.{
  ℕ, ◌≤◌, ◌<◌, ◌≡◌, ◌∙◌, refl, sym, ap, inl, inr, true, false, not, ◌&&◌, some, List, arith, ltb,
  lt→ltb, ltb_no, if◌then◌else◌, Bool-cases, length, Bytes,
}
use native.Mathlib.Decide.{dec_lt}
use bitprim_database.Run.{◌>>=◌, Returns}
use bitprim_database.Endian.{Endian, array_index_bound}
use bitprim_database.VariableUint.{VariableUint}
use bitprim_database.Buckets.{Hash}
use bitprim_database.UnspentTransaction.{OutputPoint}
use bitprim_database.TransactionDatabase.{TransactionDatabase, with_file, spend}
use bitprim_database.TransactionDatabase.Entries.{Entry, first, is_hidden, first-All}
use bitprim_database.TransactionDatabase.Finding.{Keeps, find-present, edit-Keeps}
-- A transaction: its version and lock time, its outputs, and what follows them.
use bitprim_database.TransactionDatabase.Bodies.{
  Contents, IsFormed, body_of, respent, marked, uncached, length-respent, write_spender_beyond,
  write_spender-Edits,
}

module _ ⦃en : Endian⦄ ⦃var : VariableUint⦄ (hash : Hash) {Output : Type 0} where
  -- `spend` of an output point, with a height of 32 bits, in a database that holds the transactions
  -- `m`, of which the newest under the hash of the point has the well formed contents `c`. It
  -- returns whether that transaction is confirmed at or below the height and has the output. If so,
  -- the output has the height as that of its spender, and no other transaction or output changes;
  -- if not, nothing changes. The output leaves the cache unless the height is the one that marks it
  -- as not spent.
  pub spend-Keeps :
      (db : TransactionDatabase Output) (m : Bytes → List Entry) (not_spent spender_height : ℕ)
      (point : OutputPoint) (s : Entry) (c : Contents)
      → Keeps hash db m
      → length point.hash ≡ 32
      → spender_height < array_index_bound
      → first (m point.hash) ≡ some s
      → s.body ≡ body_of c
      → IsFormed c
      → let can = not (is_hidden spender_height true s) && ltb point.index (length c.outputs) in
        Returns (spend hash not_spent point spender_height db) (λ r.
          (r.0 ≡ can)
          × Keeps hash r.1 (if can then marked m point spender_height c else m)
          × (r.1.cache ≡ (uncached not_spent point spender_height db).cache))
  unfolding spend
  spend-Keeps db m not_spent spender_height point s c h k small there body formed =
      let db' = uncached not_spent point spender_height db in
      let h' : Keeps hash db' m = record {
        keyed = h.keyed;
        represents = h.represents;
        sized = h.sized;
      } in
      let (a, answers, run) = find-present hash db' m point.hash s h' k there in
      elim (Bool-cases (is_hidden spender_height true s)) [
        | inl hidden ↦
            ((false, db'), rw (run spender_height true, hidden), (rw hidden, rw hidden h', refl))
        | inr seen ↦ elim (dec_lt point.index (length c.outputs)) [
          | no beyond ↦
              let l : length c.outputs ≤ point.index = omega (arith, beyond) in
              let out = ltb_no point.index (length c.outputs) l in
              (
                (false, db'),
                rw (
                  run spender_height true,
                  seen,
                  write_spender_beyond db'.lookup_map.manager.file a s c answers.editable.covers
                      answers.fields body formed point.index spender_height l,
                  ◌>>=◌,
                ),
                (rw (seen, out), rw (seen, out) h', refl),
              )
          | yes l ↦
              let F : Entry → Entry =
                λ t. record t { body = body_of (respent point.index spender_height c) } in
              let inside = lt→ltb point.index (length c.outputs) l in
              let (g, run', edits) =
                write_spender-Edits db'.lookup_map.manager.file a s c answers.editable.covers
                  answers.fields body formed point.index spender_height answers.editable.reads l
                  small in
              let sized = first-All (m point.hash) (h.sized point.hash) there in
              (
                (true, with_file g db'),
                rw (run spender_height true, seen, run', ◌>>=◌),
                (
                  rw (seen, inside),
                  rw (seen, inside)
                      (edit-Keeps hash db' m point.hash s a F g h' there answers
                        (record { height = sized.height; position = sized.position })
                        (length-respent point.index spender_height c ∙ ap length (sym body)) edits),
                  refl,
                ),
              )
        ]
      ]
