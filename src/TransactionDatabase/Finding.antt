-- ===== src/TransactionDatabase/Finding.antt =====
-- `find` of src/databases/transaction_database.cpp, and the transactions that a database holds.
use mathlib.Core.Path.{subst}
use bitprim_database.Prelude.{
  ℕ, ◌≡◌, ◌∙◌, refl, sym, ap, inl, inr, Bool, true, Option, none, some, List, [], arith,
  if◌then◌else◌, Bool-cases, length, All, Bytes, bytes_eq, eq_of_bytes_eq,
}
use bitprim_database.Run.{ok, ◌>>=◌}
use bitprim_database.Endian.{Endian}
use bitprim_database.MemoryMap.{MemoryMap}
use bitprim_database.Buckets.{Hash}
use bitprim_database.Buckets.Contents.{top}
use bitprim_database.Buckets.Found.{Finds, absent}
use bitprim_database.SlabHashTable.Invariant.{Represents, Represents-congr}
use bitprim_database.SlabHashTable.Finding.{find-top}
use bitprim_database.SlabHashTable.Editing.{Editable, find-Editable}
use bitprim_database.MemoryMap.Editing.{Edits}
use bitprim_database.TransactionDatabase.{TransactionDatabase, with_file, check_confirmed, find}
-- A transaction with the height and the position under which it is stored.
use bitprim_database.TransactionDatabase.Entries.{
  Entry, IsSized, first, is_hidden, edited, first-All, slab_of, slabs, top-slabs, length-slab_of,
  Fields, Reads-Fields, check_confirmed-Fields, edited-All, slabs-edited,
}

module _ ⦃en : Endian⦄ (hash : Hash) {Output : Type 0} where
  -- The transactions under each hash, the newest first.
  pub record Keeps (db : TransactionDatabase Output) (m : Bytes → List Entry) : Type 0 where
    pub keyed : db.lookup_map.key_size ≡ 32
    pub represents : Represents hash db.lookup_map (λ q. slabs (m q))
    pub sized : (q : Bytes) → All IsSized (m q)

  pub Keeps-congr :
      {db : TransactionDatabase Output} {m m' : Bytes → List Entry}
      → Keeps db m
      → ((q : Bytes) → m q ≡ m' q)
      → Keeps db m'
  Keeps-congr h same = record {
    keyed = h.keyed;
    represents = Represents-congr hash h.represents (λ q. ap slabs (same q));
    sized = λ q. subst (All IsSized) (same q) (h.sized q);
  }

  -- What `find` answers: the place of a slab, or none.
  pub record Answers (db : TransactionDatabase Output) (m : Bytes → List Entry) (key : Bytes)
      (s : Entry) (a : ℕ) : Type 0 where
    pub editable : Editable hash db.lookup_map (λ q. slabs (m q)) key (slab_of s) a
    pub fields : Fields db.lookup_map.manager.file a s

  pub find-absent :
      (db : TransactionDatabase Output) (m : Bytes → List Entry) (key : Bytes) (fork_height : ℕ)
      (require_confirmed : Bool)
      → Keeps db m
      → length key ≡ 32
      → m key ≡ []
      → find hash key fork_height require_confirmed db ≡ ok none
  unfolding find check_confirmed
  find-absent db m key fork_height require_confirmed h k nil =
      let (o, run, found) =
        find-top hash db.lookup_map (λ q. slabs (m q)) key h.represents (k ∙ sym h.keyed) in
      let none_there : o ≡ none =
        Finds-none (subst (λ ss. Finds db.lookup_map.manager.file o (top (slabs ss))) nil found) in
      rw (run, ◌>>=◌, none_there)
    where
      Finds-none : {f : MemoryMap} {o : Option ℕ} → Finds f o none → o ≡ none
      Finds-none absent = refl

  pub find-present :
      (db : TransactionDatabase Output) (m : Bytes → List Entry) (key : Bytes) (s : Entry)
      → Keeps db m
      → length key ≡ 32
      → first (m key) ≡ some s
      → (a : ℕ) × Answers db m key s a
        × ((fork_height : ℕ) (require_confirmed : Bool)
            → find hash key fork_height require_confirmed db
              ≡ ok (if is_hidden fork_height require_confirmed s then none else some a))
  unfolding find
  find-present db m key s h k there =
      let (a, editable) =
        find-Editable hash db.lookup_map (λ q. slabs (m q)) key (slab_of s) h.represents
          (k ∙ sym h.keyed) (top-slabs (m key) there) in
      let fields =
        Reads-Fields db.lookup_map.manager.file a s (first-All (m key) (h.sized key) there)
          editable.covers editable.reads in
      (
        a,
        record { editable = editable; fields = fields },
        λ fork_height require_confirmed.
            rw (editable.found, ◌>>=◌)
              (check_confirmed-Fields db.lookup_map.manager.file a s fork_height require_confirmed
                fields),
      )

  -- A change of the newest transaction of a hash, in the file.
  pub edit-Keeps :
      (db : TransactionDatabase Output) (m : Bytes → List Entry) (key : Bytes) (s : Entry) (a : ℕ)
      (F : Entry → Entry) (g : MemoryMap)
      → Keeps db m
      → first (m key) ≡ some s
      → Answers db m key s a
      → IsSized (F s)
      → length (F s).body ≡ length s.body
      → Edits db.lookup_map.manager.file a (slab_of (F s)) g
      → Keeps (with_file g db) (λ q. if bytes_eq q key then edited F (m q) else m q)
  edit-Keeps db m key s a F g h there answers sized size edits =
      let own : (q : Bytes) → bytes_eq q key ≡ true → first (m q) ≡ some s =
        λ q same. ap (λ k. first (m k)) (eq_of_bytes_eq q key same) ∙ there in
      record {
        keyed = h.keyed;
        represents =
            Represents-congr hash
              (answers.editable.edit g (slab_of (F s))
                (omega (arith, size, length-slab_of s, length-slab_of (F s))) edits)
              (λ q. elim (Bool-cases (bytes_eq q key)) [
                | inl same ↦ rw same (slabs-edited F (m q) (own q same))
                | inr other ↦ rw other
              ]);
        sized = λ q. elim (Bool-cases (bytes_eq q key)) [
          | inl same ↦ rw same (edited-All F (m q) (own q same) sized (h.sized q))
          | inr other ↦ rw other (h.sized q)
        ];
      }

  pub edit_absent :
      (db : TransactionDatabase Output) (m : Bytes → List Entry) (key : Bytes) (F : Entry → Entry)
      → Keeps db m
      → m key ≡ []
      → Keeps db (λ q. if bytes_eq q key then edited F (m q) else m q)
  edit_absent db m key F h nil =
      let none_there : (q : Bytes) → bytes_eq q key ≡ true → m q ≡ [] =
        λ q same. ap m (eq_of_bytes_eq q key same) ∙ nil in
      record {
        keyed = h.keyed;
        represents = Represents-congr hash h.represents (λ q. elim (Bool-cases (bytes_eq q key)) [
          | inl same ↦ rw (same, none_there q same)
          | inr other ↦ rw other
        ]);
        sized = λ q. elim (Bool-cases (bytes_eq q key)) [
          | inl same ↦ rw (same, none_there q same) tt
          | inr other ↦ rw other (h.sized q)
        ];
      }
