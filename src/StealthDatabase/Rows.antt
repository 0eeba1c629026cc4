-- ===== src/StealthDatabase/Rows.antt =====
-- The rows of src/databases/stealth_database.cpp, and the list that they stand for.
use bitprim_database.Prelude.{
  ℕ, ◌+◌, ◌*◌, ◌≤◌, ◌<◌, ◌^◌, ◌≡◌, List, [], ◌∷◌, ◌++◌, arith, length, length-append, Bytes,
}
use bitprim_database.Endian.{Endian, to_le}
use bitprim_database.MemoryMap.Growth.{max_exact}
use bitprim_database.MemoryMap.Access.{Reads}
use bitprim_database.RecordManager.{RecordManager}
use bitprim_database.RecordManager.Positions.{extent}
use bitprim_database.RecordManager.Allocation.{IsReady}
use bitprim_database.StealthDatabase.{StealthCompact, StealthDatabase, row_size, serialize}

-- A row with its prefix and height.
pub record StealthRow : Type 0 where
  pub prefix : ℕ
  pub height : ℕ
  pub compact : StealthCompact

-- Fields of the sizes that the format has.
pub record IsSized (x : StealthRow) : Type 0 where
  pub prefix : x.prefix < 256 ^ 4
  pub height : x.height < 256 ^ 4
  pub ephemeral : length x.compact.ephemeral_public_key_hash ≡ 32
  pub public : length x.compact.public_key_hash ≡ 20
  pub transaction : length x.compact.transaction_hash ≡ 32

pub step : (i n size : ℕ) → i < n → i * size + size ≤ n * size
step i n size h = grind arith

module _ ⦃en : Endian⦄ where
  abbrev pub bytes_of : StealthRow → Bytes
  bytes_of x = serialize x.prefix x.height x.compact

  pub length-serialize : (x : StealthRow) → IsSized x → length (bytes_of x) ≡ row_size
  unfolding serialize
  length-serialize x s =
      let public = x.compact.public_key_hash in
      let transaction = x.compact.transaction_hash in
      let l₁ = length-append public transaction in
      let l₂ = length-append x.compact.ephemeral_public_key_hash (public ++ transaction) in
      let l₃ =
        length-append (to_le 4 x.height)
          (x.compact.ephemeral_public_key_hash ++ (public ++ transaction)) in
      let l₄ =
        length-append (to_le 4 x.prefix)
          (to_le 4 x.height ++ (x.compact.ephemeral_public_key_hash ++ (public ++ transaction))) in
      omega (
        arith,
        l₁,
        l₂,
        l₃,
        l₄,
        en.length-to_le 4 x.prefix,
        en.length-to_le 4 x.height,
        s.ephemeral,
        s.public,
        s.transaction,
      )

  -- The records from `i` on are `xs`.
  abbrev pub Stored : RecordManager → ℕ → List StealthRow → Type 0
  Stored m i [] = Unit
  Stored m i (x ∷ xs) = IsSized x × Reads m.file (extent m i) (bytes_of x) × Stored m (i + 1) xs

  -- A started database whose rows are `xs`.
  pub record Lists (db : StealthDatabase) (xs : List StealthRow) : Type 0 where
    pub ready : IsReady db.rows_manager
    pub sized : db.rows_manager.record_size ≡ row_size
    pub counted : db.rows_manager.record_count ≡ length xs
    pub exact : extent db.rows_manager db.rows_manager.record_count ≤ max_exact
    pub rows : Stored db.rows_manager 0 xs
