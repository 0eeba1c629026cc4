-- ===== src/TransactionDatabase/Confirming.antt =====
-- `confirm` and `unconfirm` of src/databases/transaction_database.cpp.
use mathlib.Core.Path.{subst}
use bitprim_database.Prelude.{
  ℕ, ◌+◌, ◌%◌, ◌<◌, ◌≡◌, ◌∙◌, refl, ap, inl, inr, Bool, true, false, not, ◌&&◌, ◌||◌, none, some,
  List, [], ◌++◌, arith, ltb, ◌==◌, if◌then◌else◌, is_some, length, Bytes, bytes_eq, bytes_eq_refl,
}
use bitprim_database.Run.{ok, ◌>>=◌, Returns}
use bitprim_database.Bytes.{write_bytes_outside}
use bitprim_database.Endian.{Endian, to_le, array_index_bound}
use bitprim_database.MemoryMap.{MemoryMap}
use bitprim_database.MemoryMap.Access.{
  Covers, Reads, Reads-join, written, save-ok, written-Reads, written_apart,
}
use bitprim_database.Buckets.{Hash}
use bitprim_database.SlabHashTable.Invariant.{Grows}
use bitprim_database.Buckets.Found.{list_cases}
use bitprim_database.MemoryMap.Editing.{Edits}
use bitprim_database.TransactionResult.{unconfirmed}
use bitprim_database.TransactionDatabase.{
  TransactionDatabase, with_file, serialize, write_confirmation, find, confirm,
}
use bitprim_database.TransactionDatabase.Entries.{
  Entry, first, is_hidden, slab_of, length-slab_of, Fields, edited, first-edited,
}
use bitprim_database.TransactionDatabase.Finding.{
  Keeps, edit_absent, edit-Keeps, find-absent, find-present,
}

abbrev pub placed : ℕ → ℕ → Entry → Entry
placed height position s = record s { height = height; position = position }

is_some-hidden : (a : ℕ) (b c : Bool) → is_some (if b || c then none else some a) ≡ not b && not c
is_some-hidden a true c = refl
is_some-hidden a false true = refl
is_some-hidden a false false = refl

module _ ⦃en : Endian⦄ where
  write_confirmation-Edits :
      (f : MemoryMap) (a : ℕ) (s : Entry) (height position : ℕ)
      → Covers f (a + length (slab_of s))
      → Fields f a s
      → (g : MemoryMap) × (write_confirmation f a height position ≡ ok g)
        × Edits f a (slab_of (placed height position s)) g
  unfolding write_confirmation serialize
  write_confirmation-Edits f a s height position covers fields =
      let h = to_le 4 (height % array_index_bound) in
      let p = to_le 4 (position % array_index_bound) in
      let four = en.length-to_le 4 (height % array_index_bound) in
      let four' = en.length-to_le 4 (position % array_index_bound) in
      let long : length (slab_of s) ≡ 8 + length s.body = length-slab_of s in
      let long' = length-slab_of (placed height position s) in
      let f₁ = written f a h in
      let g = written f₁ (a + 4) p in
      (
        g,
        rw (
          save-ok f a h (record {
            mapped = covers.mapped;
            within = omega (arith, covers.within, long, four);
          }),
          ◌>>=◌,
          save-ok f₁ (a + 4) p (record {
            mapped = covers.mapped;
            within = omega (arith, covers.within, long, four');
          }),
        ),
        record {
          only_bytes = refl;
          outside = λ x o.
              write_bytes_outside f₁.bytes (a + 4) p x
                (elim o [ inl l ↦ inl (omega arith) | inr r ↦ inr (omega (arith, long', four')) ])
              ∙ write_bytes_outside f.bytes a h x
                  (elim o [ inl l ↦ inl l | inr r ↦ inr (omega (arith, long', four)) ]);
          inside =
              Reads-join g a h (p ++ s.body)
                (written_apart f₁ (a + 4) p a h (inl (omega (arith, four))) (written-Reads f a h))
                (subst (λ x. Reads g x (p ++ s.body)) (omega (arith, four))
                  (Reads-join g (a + 4) p s.body (written-Reads f₁ (a + 4) p) (
                    subst (λ x. Reads g x s.body) (omega (arith, four'))
                      (written_apart f₁ (a + 4) p (a + 8) s.body (inr (omega (arith, four'))) (
                        written_apart f a h (a + 8) s.body (inr (omega (arith, four)))
                          fields.body)))));
        },
      )

module _ ⦃en : Endian⦄ (hash : Hash) {Output : Type 0} where
  pub confirm_absent :
      (db : TransactionDatabase Output) (m : Bytes → List Entry) (key : Bytes) (height position : ℕ)
      → Keeps hash db m
      → length key ≡ 32
      → m key ≡ []
      → confirm hash key height position db ≡ ok (false, db)
  unfolding confirm
  confirm_absent db m key height position h k nil =
      rw (find-absent hash db m key height false h k nil)

  -- `confirm` of a hash, with a height and a position of 32 bits, in a database that holds the
  -- transactions `m`, returns whether the hash has a transaction, whatever the height of that. The
  -- newest one then has the height and the position; no other transaction changes, and the table does not grow.
  pub confirm-Keeps :
      (db : TransactionDatabase Output) (m : Bytes → List Entry) (key : Bytes) (height position : ℕ)
      → Keeps hash db m
      → length key ≡ 32
      → height < array_index_bound
      → position < array_index_bound
      → Returns (confirm hash key height position db) (λ r.
        (r.0 ≡ is_some (first (m key)))
        × Keeps hash r.1
            (λ q. if bytes_eq q key then edited (placed height position) (m q) else m q)
        × (r.1.cache ≡ db.cache)
        × Grows 0 db.lookup_map r.1.lookup_map)
  unfolding confirm
  confirm-Keeps db m key height position h k small small' = elim (list_cases (m key)) [
    | inl nil ↦ (
      (false, db),
      confirm_absent db m key height position h k nil,
      (
        rw nil,
        edit_absent hash db m key (placed height position) h nil,
        refl,
        record { header = refl; payload = omega arith },
      ),
    )
    | inr (s, ss, filled) ↦
        let there : first (m key) ≡ some s = ap first filled in
        let (a, answers, run) = find-present hash db m key s h k there in
        let (g, run', edits) =
          write_confirmation-Edits db.lookup_map.manager.file a s height position
            answers.editable.covers answers.fields in
        (
          (true, with_file g db),
          rw (run height false, run'),
          (
            rw filled,
            edit-Keeps hash db m key s a (placed height position) g h there answers
                (record { height = small; position = small' }) refl edits,
            refl,
            record { header = refl; payload = omega arith },
          ),
        )
  ]

  -- After `confirm` of a transaction that a database holds, at a height and a position of 32 bits,
  -- `find` of its hash among the confirmed ones gives a slab if the position is not the one of the
  -- unconfirmed and the height is not above the fork, and none otherwise. So after `unconfirm`,
  -- which does so with the position of the unconfirmed, it gives none at any fork.
  pub confirm-find :
      (db : TransactionDatabase Output) (m : Bytes → List Entry) (key : Bytes)
      (height position fork_height : ℕ) (s : Entry)
      → Keeps hash db m
      → length key ≡ 32
      → height < array_index_bound
      → position < array_index_bound
      → first (m key) ≡ some s
      → Returns (confirm hash key height position db) (λ r.
        (r.0 ≡ true)
        × Returns
            (find hash key fork_height true r.1)
            (λ o. is_some o ≡ not (ltb fork_height height) && not (position == unconfirmed)))
  confirm-find db m key height position fork_height s h k small small' there =
      let (r, run, (done, h', cache, grows)) =
        confirm-Keeps db m key height position h k small small' in
      let there' : first
            (if bytes_eq key key then edited (placed height position) (m key) else m key)
          ≡ some (placed height position s) =
        rw (bytes_eq_refl key) (first-edited (placed height position) (m key) there) in
      let (a, answers, found) =
        find-present hash r.1 _ key (placed height position s) h' k there' in
      (
        r,
        run,
        (
          done ∙ ap is_some there,
          (
            if is_hidden fork_height true (placed height position s) then none else some a,
            found fork_height true,
            is_some-hidden a (ltb fork_height height) (position == unconfirmed),
          ),
        ),
      )
