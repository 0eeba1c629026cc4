-- ===== src/SpendDatabase/Spends.antt =====
-- The spends of src/databases/spend_database.cpp as a map from points to points.
use bitprim_database.Prelude.{
  ℕ, ◌≡◌, ◌∙◌, refl, sym, ap, inl, inr, Bool, true, false, Option, some, List, [], ◌∷◌, arith,
  is_some, if◌then◌else◌, Bool-cases, eq_of_bytes_eq, length, All, Bytes, bytes_eq, bytes_eq_refl,
}
use bitprim_database.Run.{ok, ◌>>=◌, Returns}
use bitprim_database.Endian.{Endian}
use bitprim_database.MemoryMap.{Os, MemoryMap}
use bitprim_database.MemoryMap.Growth.{Works}
use bitprim_database.MemoryMap.Access.{load-Reads}
use bitprim_database.Buckets.{Hash}
use bitprim_database.Buckets.Contents.{top, pop, push}
use bitprim_database.Buckets.Found.{Finds, absent, at, Finds-is_some, list_cases}
use bitprim_database.RecordHashTable.Invariant.{Models, CanStore}
use bitprim_database.RecordHashTable.Storing.{store-Models}
use bitprim_database.RecordHashTable.Finding.{find-Finds}
use bitprim_database.RecordHashTable.Unlinking.{unlink-Models}
use bitprim_database.SpendDatabase.{SpendDatabase, point_size, read_point, get, store, unlink}

read_point-Finds :
    (f : MemoryMap) (o : Option ℕ) (vs : List Bytes)
    → All (λ v. length v ≡ point_size) vs
    → Finds f o (top vs)
    → read_point f o ≡ ok (top vs)
unfolding read_point
read_point-Finds f o vs sizes found = go o (top vs) (sized vs sizes) found
  where
    sized :
        (vs : List Bytes)
        → All (λ v. length v ≡ point_size) vs
        → (b : Bytes) → top vs ≡ some b
        → length b ≡ point_size
    sized [] h b e = cc
    sized (v ∷ vs) h b e = ground (arith, h.0)

    go :
        (o : Option ℕ) (v : Option Bytes)
        → ((b : Bytes) → v ≡ some b → length b ≡ point_size)
        → Finds f o v
        → read_point f o ≡ ok v
    go o v size absent = refl
    go o v size (at a b c r) =
        let e : point_size ≡ length b = sym (size b refl) in rw (load-Reads f a b e (rw e c) r)

abbrev ArePoints : List Bytes → Type 0
ArePoints vs = All (λ v. length v ≡ point_size) vs

pop-All : (vs : List Bytes) → ArePoints vs → ArePoints (pop vs)
pop-All [] h = h
pop-All (v ∷ vs) h = h.1

if_All :
    (vs ws : List Bytes) (b : Bool) → ArePoints vs → ArePoints ws → ArePoints (if b then vs else ws)
if_All vs ws true h h' = h
if_All vs ws false h h' = h'

pop_absent :
    (c : Bytes → List Bytes) (key : Bytes)
    → c key ≡ []
    → (q : Bytes) → c q ≡ (if bytes_eq q key then pop (c q) else c q)
pop_absent c key nil q = elim (Bool-cases (bytes_eq q key)) [
  | inl hit ↦ let e : c q ≡ [] = ap c (eq_of_bytes_eq q key hit) ∙ nil in rw (hit, e)
  | inr miss ↦ rw miss
]

module _ ⦃en : Endian⦄ (hash : Hash) where
  -- The spends of each point, the latest first; each is the bytes of a point.
  pub record Holds (db : SpendDatabase) (c : Bytes → List Bytes) : Type 0 where
    pub keyed : db.lookup_map.key_size ≡ point_size
    pub models : Models hash db.lookup_map c
    pub points : (q : Bytes) → All (λ v. length v ≡ point_size) (c q)

  -- In a spend database that holds the spends `c`, a stack of input points for each output point,
  -- `get` of an output point returns the latest spend of that point, or the default point if it has
  -- none.
  pub get-top :
      (db : SpendDatabase) (c : Bytes → List Bytes) (outpoint : Bytes)
      → Holds db c
      → length outpoint ≡ point_size
      → get hash outpoint db ≡ ok (top (c outpoint))
  unfolding get
  get-top db c outpoint h k =
      let (o, run, found) = find-Finds hash db.lookup_map c outpoint h.models (k ∙ sym h.keyed) in
      rw run (read_point-Finds db.lookup_map.manager.file o (c outpoint) (h.points outpoint) found)

  -- `unlink` of an output point in a database that holds the spends `c` returns whether the point
  -- had a spend. It takes the latest spend of the point away and leaves the others, and it changes
  -- no spends where there is none.
  pub unlink-Holds :
      (db : SpendDatabase) (c : Bytes → List Bytes) (outpoint : Bytes)
      → Holds db c
      → length outpoint ≡ point_size
      → Returns (unlink hash outpoint db) (λ r.
        (r.0 ≡ is_some (top (c outpoint)))
        × Holds r.1 (λ q. if bytes_eq q outpoint then pop (c q) else c q))
  unfolding unlink
  unlink-Holds db c outpoint h k =
      let (o, run, found) = find-Finds hash db.lookup_map c outpoint h.models (k ∙ sym h.keyed) in
      let same : is_some o ≡ is_some (top (c outpoint)) = Finds-is_some found in
      let points =
        λ (q : Bytes). if_All _ _ (bytes_eq q outpoint) (pop-All (c q) (h.points q)) (h.points q) in
      elim (list_cases (c outpoint)) [
        | inl nil ↦
            let no : is_some o ≡ false = rw nil at same in
            let (view, valid, reads) = h.models in
            (
              (false, db),
              rw (run, ◌>>=◌, no),
              (
                rw nil,
                record {
                  keyed = h.keyed;
                  models = (view, valid, λ q. reads q ∙ pop_absent c outpoint nil q);
                  points = points;
                },
              ),
            )
        | inr (v, vs, filled) ↦
            let yes' : is_some o ≡ true = rw filled at same in
            let ((b, t), run', (found', models, keyed)) =
              unlink-Models hash db.lookup_map outpoint (k ∙ sym h.keyed) c outpoint h.models refl
                (ap top filled) in
            (
              (b, record db { lookup_map = t }),
              rw (run, ◌>>=◌, yes', run'),
              (found', record { keyed = keyed ∙ h.keyed; models = models; points = points }),
            )
      ]

  -- `store` of a spend, which has the size of a point, in a database that holds the spends `c`,
  -- returns where the system calls succeed and the record fits. The database then holds `c` with
  -- the spend pushed on the stack of its output point, and the other points as before.
  pub store-Holds :
      {os : Os} (db : SpendDatabase) (c : Bytes → List Bytes) (outpoint spend : Bytes)
      → Works os
      → Holds db c
      → length spend ≡ point_size
      → CanStore outpoint spend db.lookup_map
      → Returns
          (store hash os outpoint spend db)
          (λ db'. Holds db' (λ q. if bytes_eq q outpoint then push spend (c q) else c q))
  unfolding store
  store-Holds db c outpoint spend works h size can =
      let (t, run, (models, keyed)) =
        store-Models hash db.lookup_map c outpoint spend works h.models can in
      (
        record db { lookup_map = t },
        rw run,
        record {
          keyed = keyed ∙ h.keyed;
          models = models;
          points = λ q. if_All _ _ (bytes_eq q outpoint) (size, h.points q) (h.points q);
        },
      )

  -- After `store` of a spend, which has the size of a point, in a database that holds some spends,
  -- where the system calls succeed and the record fits, `get` of the output point returns the
  -- spend, and `get` of every other output point returns what it did before.
  pub get-store :
      {os : Os} (db : SpendDatabase) (c : Bytes → List Bytes) (outpoint spend : Bytes)
      → Works os
      → Holds db c
      → length spend ≡ point_size
      → CanStore outpoint spend db.lookup_map
      → Returns (store hash os outpoint spend db) (λ db'.
        (get hash outpoint db' ≡ ok (some spend))
        × ((q : Bytes)
            → length q ≡ point_size
            → bytes_eq q outpoint ≡ false
            → get hash q db' ≡ get hash q db))
  get-store db c outpoint spend works h size can =
      let (db', run, h') = store-Holds db c outpoint spend works h size can in
      (
        db',
        run,
        (
          get-top db' _ outpoint h' (can.keyed ∙ h.keyed)
              ∙ ap (λ b. ok (top (if b then push spend (c outpoint) else c outpoint)))
                  (bytes_eq_refl outpoint),
          λ q k other.
              get-top db' _ q h' k
              ∙ ap (λ b. ok (top (if b then push spend (c q) else c q))) other
              ∙ sym (get-top db c q h k),
        ),
      )
