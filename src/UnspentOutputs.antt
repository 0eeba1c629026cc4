-- ===== src/UnspentOutputs.antt =====
-- src/unspent_outputs.cpp: a bounded cache of unspent outputs that drops the oldest transaction
-- first, one thread at a time. The bimap of transactions and sequence numbers is the list of its
-- pairs by rising sequence number.
pub mod Cache
pub mod Changes
pub mod Inserting
pub mod Adding
pub mod Reading
pub mod Removing
use bitprim_database.Prelude.{
  ℕ, ◌+◌, ◌-◌, ◌%◌, ◌^◌, Bool, true, false, not, ◌&&◌, ◌||◌, Option, none, some, List, [], ◌∷◌, ltb,
  leb, ◌==◌, if◌then◌else◌, length, Bytes,
}
use bitprim_database.Run.{Run, ok, ◌>>=◌}
use bitprim_database.UnspentTransaction.{
  Transaction, OutputPoint, Cell, UnspentTransaction, unspent_transaction, key_of, equals,
  find_output, erase_output,
}

pub record Slot (Output : Type 0) : Type 0 where
  pub transaction : UnspentTransaction Output
  pub sequence : ℕ

pub record UnspentOutputs (Output : Type 0) : Type 0 where
  pub capacity : ℕ
  pub hits : ℕ
  pub queries : ℕ
  pub sequence : ℕ
  pub unspent : List (Slot Output)

pub record Found (Output : Type 0) : Type 0 where
  pub output : Output
  pub height : ℕ
  pub is_coinbase : Bool
  pub is_confirmed : Bool

module _ {Output : Type 0} where
  unfoldable pub unspent_outputs : ℕ → UnspentOutputs Output
  unspent_outputs capacity = record {
    capacity = capacity;
    hits = 1;
    queries = 1;
    sequence = 0;
    unspent = [];
  }

  unfoldable pub disabled : UnspentOutputs Output → Bool
  disabled u = u.capacity == 0

  unfoldable pub size : UnspentOutputs Output → ℕ
  size u = length u.unspent

  -- The views of the bimap: `left` has the transactions as keys, `right` the sequence numbers.
  unfoldable pub left_find :
      UnspentTransaction Output → List (Slot Output) → Option (UnspentTransaction Output)
  left_find key [] = none
  left_find key (s ∷ ss) = if equals s.transaction key then some s.transaction else left_find key ss

  unfoldable pub left_erase : UnspentTransaction Output → List (Slot Output) → List (Slot Output)
  left_erase key [] = []
  left_erase key (s ∷ ss) =
      if equals s.transaction key then left_erase key ss else s ∷ left_erase key ss

  unfoldable pub right_has : ℕ → List (Slot Output) → Bool
  right_has sequence [] = false
  right_has sequence (s ∷ ss) = (s.sequence == sequence) || right_has sequence ss

  unfoldable pub right_erase_first : List (Slot Output) → List (Slot Output)
  right_erase_first [] = []
  right_erase_first (s ∷ ss) = ss

  unfoldable pub insert_by_sequence : Slot Output → List (Slot Output) → List (Slot Output)
  insert_by_sequence slot [] = slot ∷ []
  insert_by_sequence slot (s ∷ ss) =
      if ltb slot.sequence s.sequence then slot ∷ s ∷ ss else s ∷ insert_by_sequence slot ss

  -- A bimap takes no pair of which it has one half.
  unfoldable pub insert : Slot Output → List (Slot Output) → List (Slot Output)
  insert slot ss = elim (left_find slot.transaction ss) [
    | some tx ↦ ss
    | none ↦ if right_has slot.sequence ss then ss else insert_by_sequence slot ss
  ]

  -- Other outputs behind the shared pointer of a transaction.
  unfoldable pub set_outputs :
      UnspentTransaction Output → List (Cell Output) → List (Slot Output) → List (Slot Output)
  set_outputs key cells [] = []
  set_outputs key cells (s ∷ ss) =
      if equals s.transaction key
      then record s { transaction = record s.transaction { outputs = cells } }
        ∷ set_outputs key cells ss
      else s ∷ set_outputs key cells ss

  -- `sequence_ == max_uint32` clears the cache, and the increment wraps.
  unfoldable pub add :
      Transaction Output → ℕ → Bool → UnspentOutputs Output → Run (UnspentOutputs Output)
  add tx height confirmed u = if disabled u || (length tx.outputs == 0) then ok u else do
    entry ← unspent_transaction tx height confirmed
    let kept = if u.sequence == 2 ^ 32 - 1 then [] else u.unspent
    let room = if leb u.capacity (length kept) then right_erase_first kept else kept
    let next = (u.sequence + 1) % 2 ^ 32
    ok (record u {
      unspent = insert (record { transaction = entry; sequence = next }) room;
      sequence = next;
    })

  unfoldable pub remove : Bytes → UnspentOutputs Output → UnspentOutputs Output
  remove tx_hash u = if disabled u then u else elim (left_find (key_of tx_hash) u.unspent) [
    | none ↦ u
    | some tx ↦ record u { unspent = left_erase (key_of tx_hash) u.unspent }
  ]

  -- The output goes, and its transaction with the last one.
  unfoldable pub remove_output : OutputPoint → UnspentOutputs Output → UnspentOutputs Output
  remove_output point u = if disabled u then u else elim (left_find (key_of point.hash) u.unspent) [
    | none ↦ u
    | some tx ↦
        let outputs = erase_output point.index tx.outputs in
        if length outputs == 0
        then record u { unspent = left_erase (key_of point.hash) u.unspent }
        else record u { unspent = set_outputs (key_of point.hash) outputs u.unspent }
  ]

  -- The checks of `get` and `get_is_confirmed`, which differ in what they hand out.
  unfoldable pub lookup : OutputPoint → ℕ → Bool → UnspentOutputs Output → Option (Found Output)
  lookup point fork_height require_confirmed u = elim (left_find (key_of point.hash) u.unspent) [
    | none ↦ none
    | some tx ↦
        if require_confirmed && not tx.is_confirmed
        then none
        else elim (find_output point.index tx.outputs) [
          | none ↦ none
          | some o ↦
              if ltb fork_height tx.height
              then none
              else some (record {
                output = o;
                height = tx.height;
                is_coinbase = tx.is_coinbase;
                is_confirmed = tx.is_confirmed;
              })
        ]
  ]

  -- The counters are `size_t`.
  unfoldable pub get :
      OutputPoint → ℕ → Bool → UnspentOutputs Output → Option (Found Output) × UnspentOutputs Output
  get point fork_height require_confirmed u =
      if disabled u
      then (none, u)
      else let queried = record u { queries = (u.queries + 1) % 2 ^ 64 } in
        elim (lookup point fork_height require_confirmed queried) [
          | none ↦ (none, queried)
          | some found ↦ (some found, record queried { hits = (u.hits + 1) % 2 ^ 64 })
        ]
