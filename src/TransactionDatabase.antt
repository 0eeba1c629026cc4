-- ===== src/TransactionDatabase.antt =====
-- src/databases/transaction_database.cpp: the transactions of blocks and of the pool by hash, and a
-- cache of their unspent outputs. `not_spent`, `unverified`, and how an output is read from a file
-- are the system library's.
pub mod Entries
pub mod Bodies
pub mod Finding
pub mod Confirming
pub mod Storing
pub mod Spending
pub mod Creation
use bitprim_database.Prelude.{
  ℕ, ◌+◌, ◌%◌, ◌^◌, Bool, true, false, not, ◌&&◌, ◌||◌, Option, none, some, ◌++◌, ltb, leb, ◌==◌,
  if◌then◌else◌, Bytes,
}
use bitprim_database.Run.{Run, ok, ◌>>=◌}
use bitprim_database.Endian.{Endian, to_le, array_index_bound}
use bitprim_database.VariableUint.{VariableUint, read_size}
use bitprim_database.MemoryMap.{Os, MemoryMap, save}
use bitprim_database.Buckets.{Hash}
use bitprim_database.SlabHashTable
use bitprim_database.SlabHashTable.{SlabHashTable}
use bitprim_database.SlabFile
use bitprim_database.SlabFile.{initial_map_file_size, slab_map}
use bitprim_database.UnspentTransaction.{Transaction, OutputPoint}
use bitprim_database.UnspentOutputs as Cache
use bitprim_database.UnspentOutputs.{UnspentOutputs, Found, unspent_outputs}
use bitprim_database.TransactionResult as Result
use bitprim_database.TransactionResult.{
  TransactionResult, transaction_result, unconfirmed, load_word, skip_outputs, height_size,
  position_size, version_size, locktime_size,
}

abbrev pub version_lock_size : ℕ
version_lock_size = version_size + locktime_size

-- `chain::transaction`: what the cache asks of it, its bytes and the size that the library tells,
-- and whether it was found in the pool.
pub record StoredTransaction (Output : Type 0) : Type 0 where
  pub transaction : Transaction Output
  pub body : Bytes
  pub serialized_size : ℕ
  pub pooled : Bool

pub record TransactionDatabase (Output : Type 0) : Type 0 where
  pub initial_size : ℕ
  pub lookup_map : SlabHashTable
  pub cache : UnspentOutputs Output

-- What `get_output` hands out.
pub record FoundOutput (Output : Type 0) : Type 0 where
  pub output : Output
  pub height : ℕ
  pub is_coinbase : Bool

module _ {Output : Type 0} where
  unfoldable pub transaction_database : MemoryMap → ℕ → ℕ → TransactionDatabase Output
  transaction_database file buckets cache_capacity = record {
    initial_size = initial_map_file_size buckets;
    lookup_map = slab_map 32 file buckets;
    cache = unspent_outputs cache_capacity;
  }

  abbrev pub with_map : SlabHashTable → TransactionDatabase Output → TransactionDatabase Output
  with_map t db = record db { lookup_map = t }

  -- The database with another file behind its table.
  abbrev pub with_file : MemoryMap → TransactionDatabase Output → TransactionDatabase Output
  with_file f db =
      with_map (record db.lookup_map { manager = record db.lookup_map.manager { file = f } }) db

  module _ ⦃en : Endian⦄ where
    unfoldable pub create :
        Os → TransactionDatabase Output → Run (Bool × TransactionDatabase Output)
    create os db = do
      (done, t) ← SlabFile.create os db.initial_size db.lookup_map
      ok (done, with_map t db)

    unfoldable pub open_files :
        Os → TransactionDatabase Output → Run (Bool × TransactionDatabase Output)
    open_files os db = do (done, t) ← SlabFile.open_files os db.lookup_map; ok (done, with_map t db)

    unfoldable pub synchronize : TransactionDatabase Output → Run (TransactionDatabase Output)
    synchronize db = do t ← SlabFile.synchronize db.lookup_map; ok (with_map t db)

  unfoldable pub close : Os → TransactionDatabase Output → Bool × TransactionDatabase Output
  close os db = let (done, t) = SlabFile.close os db.lookup_map in (done, with_map t db)

  unfoldable pub flush : Os → TransactionDatabase Output → Bool
  flush os db = SlabFile.flush os db.lookup_map

module _ ⦃en : Endian⦄ where
  -- What the writer of `store` writes.
  unfoldable pub serialize : ℕ → ℕ → Bytes → Bytes
  serialize height position body =
      to_le 4 (height % array_index_bound) ++ (to_le 4 (position % array_index_bound) ++ body)

  -- The slab, unless it is to be confirmed at or below the fork height and is not.
  unfoldable pub check_confirmed : MemoryMap → ℕ → Bool → Option ℕ → Run (Option ℕ)
  check_confirmed file fork_height require_confirmed none = ok none
  check_confirmed file fork_height require_confirmed (some memory) =
      if not require_confirmed then ok (some memory) else do
        height ← load_word file memory
        position ← load_word file (memory + height_size)
        ok (
            if ltb fork_height height || (require_confirmed && (position == unconfirmed))
            then none
            else some memory)

  -- The writes of `confirm` at a slab.
  unfoldable pub write_confirmation : MemoryMap → ℕ → ℕ → ℕ → Run MemoryMap
  write_confirmation file memory height position = do
    file' ← save file memory (to_le 4 (height % array_index_bound))
    save file' (memory + height_size) (to_le 4 (position % array_index_bound))

  -- The writes of `spend` at a slab. The result says whether the transaction has the output.
  unfoldable pub write_spender :
      ⦃var : VariableUint⦄ → MemoryMap → ℕ → ℕ → ℕ → Run (Bool × MemoryMap)
  write_spender file memory index spender_height = do
    let tx_start = memory + height_size + position_size
    (outputs, start) ← read_size file (tx_start + version_size + locktime_size)
    if leb outputs index then ok (false, file) else do
      place ← skip_outputs file index start
      file' ← save file place (to_le 4 (spender_height % array_index_bound))
      ok (true, file')

module _ ⦃en : Endian⦄ (hash : Hash) {Output : Type 0} where
  unfoldable pub find : Bytes → ℕ → Bool → TransactionDatabase Output → Run (Option ℕ)
  find key fork_height require_confirmed db = do
    slab ← SlabHashTable.find hash key db.lookup_map
    check_confirmed db.lookup_map.manager.file fork_height require_confirmed slab

  unfoldable pub get : Bytes → ℕ → Bool → TransactionDatabase Output → Run TransactionResult
  get key fork_height require_confirmed db = do
    slab ← find key fork_height require_confirmed db
    ok (transaction_result slab key)

  -- The result says whether there was a transaction to confirm.
  unfoldable pub confirm :
      Bytes → ℕ → ℕ → TransactionDatabase Output → Run (Bool × TransactionDatabase Output)
  confirm key height position db = do
    slab ← find key height false db
    elim slab [
      | none ↦ ok (false, db)
      | some memory ↦ (do
        file ← write_confirmation db.lookup_map.manager.file memory height position
        ok (true, with_file file db))
    ]

  unfoldable pub unconfirm :
      ℕ → Bytes → TransactionDatabase Output → Run (Bool × TransactionDatabase Output)
  unconfirm unverified key db = confirm key unverified unconfirmed db

  -- A new slab, and an entry of the cache.
  unfoldable pub create_transaction :
      Os
      → StoredTransaction Output
      → ℕ
      → ℕ
      → TransactionDatabase Output
      → Run (TransactionDatabase Output)
  create_transaction os tx height position db = do
    (offset, t) ←
        SlabHashTable.store hash os tx.transaction.hash (serialize height position tx.body)
          (version_lock_size + tx.serialized_size) db.lookup_map
    cache ← Cache.add tx.transaction height (not (position == unconfirmed)) db.cache
    ok (record db { lookup_map = t; cache = cache })

  unfoldable pub store :
      Os
      → StoredTransaction Output
      → ℕ
      → ℕ
      → TransactionDatabase Output
      → Run (TransactionDatabase Output)
  store os tx height position db =
      if not (position == unconfirmed) && (not (position == 0) && tx.pooled)
      then (do
        (done, db') ← confirm tx.transaction.hash height position db
        if not done then create_transaction os tx height position db' else do
          cache ← Cache.add tx.transaction height true db'.cache
          ok (record db' { cache = cache }))
      else create_transaction os tx height position db

  -- The result says whether the output is there to be spent.
  unfoldable pub spend :
      ⦃var : VariableUint⦄
      → ℕ
      → OutputPoint
      → ℕ
      → TransactionDatabase Output
      → Run (Bool × TransactionDatabase Output)
  spend not_spent point spender_height db = do
    let cache = if spender_height == not_spent then db.cache else Cache.remove_output point db.cache
    let db' = record db { cache = cache }
    slab ← find point.hash spender_height true db'
    elim slab [
      | none ↦ ok (false, db')
      | some memory ↦ (do
        (done, file) ← write_spender db'.lookup_map.manager.file memory point.index spender_height
        ok (done, with_file file db'))
    ]

  unfoldable pub unspend :
      ⦃var : VariableUint⦄
      → ℕ
      → OutputPoint
      → TransactionDatabase Output
      → Run (Bool × TransactionDatabase Output)
  unspend not_spent point db = spend not_spent point not_spent db

  -- The output at a place, or the default output.
  unfoldable pub read_output :
      (MemoryMap → ℕ → Run Output) → Output → MemoryMap → Option ℕ → Run Output
  read_output from_data invalid file none = ok invalid
  read_output from_data invalid file (some place) = from_data file place

  module _ ⦃var : VariableUint⦄ (from_data : MemoryMap → ℕ → Run Output) (invalid : Output) where
    -- The fields of the output in the file.
    unfoldable pub fetch_output : MemoryMap → OutputPoint → ℕ → Run (Found Output)
    fetch_output file point memory = do
      let r = transaction_result (some memory) point.hash
      height ← Result.height file r
      position ← Result.position file r
      place ← Result.output file point.index r
      output ← read_output from_data invalid file place
      ok (record {
        output = output;
        height = height;
        is_coinbase = position == 0;
        is_confirmed = not (position == unconfirmed);
      })

    unfoldable pub get_output_is_confirmed :
        OutputPoint
        → ℕ
        → Bool
        → TransactionDatabase Output
        → Run (Option (Found Output) × TransactionDatabase Output)
    get_output_is_confirmed point fork_height require_confirmed db = do
      let (cached, cache) = Cache.get point fork_height require_confirmed db.cache
      let db' = record db { cache = cache }
      elim cached [
        | some found ↦ ok (some found, db')
        | none ↦ (do
          slab ← find point.hash fork_height require_confirmed db'
          elim slab [
            | none ↦ ok (none, db')
            | some memory ↦ (do
              found ← fetch_output db'.lookup_map.manager.file point memory
              ok (some found, db'))
          ])
      ]

    unfoldable pub get_output :
        OutputPoint
        → ℕ
        → Bool
        → TransactionDatabase Output
        → Run (Option (FoundOutput Output) × TransactionDatabase Output)
    get_output point fork_height require_confirmed db = do
      (found, db') ← get_output_is_confirmed point fork_height require_confirmed db
      ok (
        elim found [
          | none ↦ none
          | some f ↦
              some (record { output = f.output; height = f.height; is_coinbase = f.is_coinbase })
        ],
        db',
      )
