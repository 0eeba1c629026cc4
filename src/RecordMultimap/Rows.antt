-- ===== src/RecordMultimap/Rows.antt =====
-- The rows of each key of include/bitcoin/database/impl/record_multimap.ipp.
use mathlib.Core.Path.{subst}
use bitprim_database.Prelude.{
  ℕ, suc, ◌+◌, ◌*◌, ◌≤◌, ◌<◌, ◌≡◌, ◌∙◌, refl, sym, ap, inl, inr, Option, none, List, [], ◌∷◌, arith,
  length, Bytes,
}
use bitprim_database.Run.{ok, ◌>>=◌}
use bitprim_database.Bytes.{read_bytes_congr}
use bitprim_database.Endian.{Endian, to_le}
use bitprim_database.MemoryMap.{MemoryMap}
use bitprim_database.MemoryMap.Access.{Reads, load-Reads}
use bitprim_database.RecordManager.{RecordManager}
use bitprim_database.RecordManager.Positions.{extent}
use bitprim_database.RecordList.Linked.{IsListed, Linked, first}
use bitprim_database.Buckets.{Hash}
use bitprim_database.Buckets.Contents.{top}
use bitprim_database.Buckets.Found.{Finds, absent, list_cases}
use bitprim_database.RecordHashTable
use bitprim_database.RecordHashTable.Invariant.{Models}
use bitprim_database.RecordHashTable.Finding.{find-Finds}
use bitprim_database.RecordHashTable.Editing.{Editable, find-Editable}
use bitprim_database.RecordMultimap.{RecordMultimap, read_start, lookup}

pub inside : (i n size : ℕ) → i < n → i * size + size ≤ n * size
inside i n size h = grind arith

module _ ⦃en : Endian⦄ where
  -- The value of a key in the table: the first of its records.
  abbrev pub start_of : List ℕ → List Bytes
  start_of [] = []
  start_of (i ∷ is) = to_le 4 i ∷ []

  -- The list is empty or starts below the index.
  abbrev pub FallsBelow : ℕ → List ℕ → Type 0
  FallsBelow i [] = Unit
  FallsBelow i (j ∷ js) = j < i

  -- The counted records `is` hold the rows `xs`, each with the index of the one after it, which is
  -- older and so smaller.
  abbrev pub Chained : RecordManager → List ℕ → List Bytes → Type 0
  Chained m [] [] = Unit
  Chained m [] (x ∷ xs) = ⊥
  Chained m (i ∷ is) [] = ⊥
  Chained m (i ∷ is) (x ∷ xs) =
      (i < m.record_count)
      × FallsBelow i is
      × (4 + length x ≤ m.record_size)
      × Reads m.file (extent m i) (to_le 4 (first is))
      × Reads m.file (extent m i + 4) x
      × Chained m is xs

  pub Chained-Linked :
      (m : RecordManager) (is : List ℕ) (xs : List Bytes) → Chained m is xs → Linked m is
  Chained-Linked m [] [] c = tt
  Chained-Linked m [] (x ∷ xs) c = elim c [ ]
  Chained-Linked m (i ∷ is) [] c = elim c [ ]
  Chained-Linked m (i ∷ is) (x ∷ xs) (l, b, s, r, d, c) = (l, r, Chained-Linked m is xs c)

  -- The rows stay when the counted bytes do.
  pub Chained-congr :
      (m : RecordManager) (f : MemoryMap) (n : ℕ) (is : List ℕ) (xs : List Bytes)
      → m.record_count ≤ n
      → ((a : ℕ) → a < extent m m.record_count → f.bytes a ≡ m.file.bytes a)
      → Chained m is xs
      → Chained (record m { file = f; record_count = n }) is xs
  Chained-congr m f n [] [] g same c = tt
  Chained-congr m f n [] (x ∷ xs) g same c = c
  Chained-congr m f n (i ∷ is) [] g same c = c
  Chained-congr m f n (i ∷ is) (x ∷ xs) g same (l, b, s, r, d, c) =
      let below = inside i m.record_count m.record_size l in
      (
        omega (arith, l),
        b,
        s,
        read_bytes_congr m.file.bytes f.bytes (extent m i) (length (to_le 4 (first is)))
              (λ a p q. same a (omega (arith, q, en.length-to_le 4 (first is), below, s)))
            ∙ r,
        read_bytes_congr m.file.bytes f.bytes (extent m i + 4) (length x)
              (λ a p q. same a (omega (arith, q, below, s)))
            ∙ d,
        Chained-congr m f n is xs g same c,
      )

  pub Chained-lt :
      (m : RecordManager) (i : ℕ) (is : List ℕ) (xs : List Bytes)
      → Chained m (i ∷ is) xs
      → i < m.record_count
  Chained-lt m i is [] c = elim c [ ]
  Chained-lt m i is (x ∷ xs) c = c.0

  length-Chained :
      (m : RecordManager) (i : ℕ) (is : List ℕ) (xs : List Bytes)
      → Chained m (i ∷ is) xs
      → length is ≤ i
  length-Chained m i [] xs c = omega arith
  length-Chained m i (j ∷ js) [] c = elim c [ ]
  length-Chained m i (j ∷ js) (x ∷ xs) (l, b, s, r, d, c) =
      omega (arith, b, length-Chained m j js xs c)

  -- No list is longer than the count of the records.
  pub length-lt :
      (m : RecordManager) (is : List ℕ) (xs : List Bytes)
      → Chained m is xs
      → length is < suc m.record_count
  length-lt m [] xs c = omega arith
  length-lt m (i ∷ is) xs c = omega (arith, length-Chained m i is xs c, Chained-lt m i is xs c)

module _ ⦃en : Endian⦄ (hash : Hash) where
  -- A multimap with the rows `rows key` under each key, the newest first; `starts key` are their
  -- records.
  pub record Maps (mm : RecordMultimap) (starts : Bytes → List ℕ) (rows : Bytes → List Bytes)
      : Type 0 where
    pub models : Models hash mm.table (λ q. start_of (starts q))
    pub listed : IsListed mm.rows
    pub chained : (q : Bytes) → Chained mm.rows (starts q) (rows q)

  -- The multimap with the rows `rows`, whatever their records.
  abbrev pub Holds : RecordMultimap → (Bytes → List Bytes) → Type 0
  Holds mm rows = (starts : Bytes → List ℕ) × Maps mm starts rows

  pub find-absent :
      (mm : RecordMultimap) (starts : Bytes → List ℕ) (rows : Bytes → List Bytes) (key : Bytes)
      → Maps mm starts rows
      → length key ≡ mm.table.key_size
      → starts key ≡ []
      → RecordHashTable.find hash key mm.table ≡ ok none
  find-absent mm starts rows key h k nil =
      let (o, run, found) = find-Finds hash mm.table (λ q. start_of (starts q)) key h.models k in
      run
      ∙ ap ok
          (Finds-none (subst (λ is. Finds mm.table.manager.file o (top (start_of is))) nil found))
    where
      Finds-none : {f : MemoryMap} {o : Option ℕ} → Finds f o none → o ≡ none
      Finds-none absent = refl

  -- The place of the start of a key, and the index that is read there.
  pub find-present :
      (mm : RecordMultimap) (starts : Bytes → List ℕ) (rows : Bytes → List Bytes) (key : Bytes)
      (i : ℕ) (is : List ℕ)
      → Maps mm starts rows
      → length key ≡ mm.table.key_size
      → starts key ≡ i ∷ is
      → (a : ℕ) × Editable hash mm.table (λ q. start_of (starts q)) key (to_le 4 i) a
        × (read_start mm a ≡ ok i)
  unfolding read_start
  find-present mm starts rows key i is h k filled =
      let (a, editable) =
        find-Editable hash mm.table (λ q. start_of (starts q)) key (to_le 4 i) h.models k
          (ap (λ js. top (start_of js)) filled) in
      let four = en.length-to_le 4 i in
      let counted : i < mm.rows.record_count =
        Chained-lt mm.rows i is (rows key)
          (subst (λ js. Chained mm.rows js (rows key)) filled (h.chained key)) in
      (
        a,
        editable,
        rw
            (load-Reads mm.table.manager.file a (to_le 4 i) (sym four)
              (record {
                mapped = editable.covers.mapped;
                within = omega (arith, editable.covers.within, four);
              })
              editable.reads)
            (ap ok (en.from_le-to_le 4 i (omega (arith, counted, h.listed.ready.countable)))),
      )

  -- `lookup` of a key returns the first record of its rows, or the empty index if it has none.
  pub lookup-first :
      (mm : RecordMultimap) (starts : Bytes → List ℕ) (rows : Bytes → List Bytes) (key : Bytes)
      → Maps mm starts rows
      → length key ≡ mm.table.key_size
      → lookup hash key mm ≡ ok (first (starts key))
  unfolding lookup
  lookup-first mm starts rows key h k = elim (list_cases (starts key)) [
    | inl nil ↦ rw (find-absent mm starts rows key h k nil, ◌>>=◌, nil)
    | inr (i, is, filled) ↦
        let (a, editable, read) = find-present mm starts rows key i is h k filled in
        rw (editable.found, ◌>>=◌, filled) read
  ]
