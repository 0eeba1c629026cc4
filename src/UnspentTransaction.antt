-- ===== src/UnspentTransaction.antt =====
-- src/unspent_transaction.cpp: a transaction whose outputs are cached. Only one entry of the cache
-- holds a given output map, so that the shared pointer to it is the map itself.
use bitprim_database.Prelude.{
  ℕ, ◌+◌, ◌^◌, Bool, false, Option, none, some, List, [], ◌∷◌, ltb, ◌==◌, if◌then◌else◌, length,
  Bytes, bytes_eq,
}
use bitprim_database.Run.{Run, ok, thrown}

-- What the cache asks of a transaction, and of an output point, of the system library.
pub record Transaction (Output : Type 0) : Type 0 where
  pub hash : Bytes
  pub is_coinbase : Bool
  pub outputs : List Output

pub record OutputPoint : Type 0 where
  pub hash : Bytes
  pub index : ℕ

-- `std::unordered_map<uint32_t, output>`.
pub record Cell (Output : Type 0) : Type 0 where
  pub index : ℕ
  pub output : Output

pub record UnspentTransaction (Output : Type 0) : Type 0 where
  pub height : ℕ
  pub is_coinbase : Bool
  pub is_confirmed : Bool
  pub hash : Bytes
  pub outputs : List (Cell Output)

module _ {Output : Type 0} where
  unfoldable pub find_output : ℕ → List (Cell Output) → Option Output
  find_output index [] = none
  find_output index (c ∷ cs) = if c.index == index then some c.output else find_output index cs

  unfoldable pub erase_output : ℕ → List (Cell Output) → List (Cell Output)
  erase_output index [] = []
  erase_output index (c ∷ cs) =
      if c.index == index then erase_output index cs else c ∷ erase_output index cs

  -- The loop that fills the map, from an index on.
  unfoldable pub fill_outputs : ℕ → List Output → List (Cell Output)
  fill_outputs index [] = []
  fill_outputs index (o ∷ os) = record { index = index; output = o } ∷ fill_outputs (index + 1) os

  -- `safe_unsigned` throws where the number of outputs is no `uint32_t`.
  unfoldable pub unspent_transaction :
      Transaction Output → ℕ → Bool → Run (UnspentTransaction Output)
  unspent_transaction tx height confirmed =
      if ltb (length tx.outputs) (2 ^ 32)
      then ok (record {
        height = height;
        is_coinbase = tx.is_coinbase;
        is_confirmed = confirmed;
        hash = tx.hash;
        outputs = fill_outputs 0 tx.outputs;
      })
      else thrown

  -- The key of a search.
  unfoldable pub key_of : Bytes → UnspentTransaction Output
  key_of hash = record {
    height = 0;
    is_coinbase = false;
    is_confirmed = false;
    hash = hash;
    outputs = [];
  }

  -- `operator==`.
  unfoldable pub equals : UnspentTransaction Output → UnspentTransaction Output → Bool
  equals a b = bytes_eq a.hash b.hash

  -- `operator=`, from the second to the first.
  unfoldable pub assign :
      UnspentTransaction Output → UnspentTransaction Output → UnspentTransaction Output
  assign a b = record a {
    height = b.height;
    is_coinbase = b.is_coinbase;
    hash = b.hash;
    outputs = b.outputs;
  }
