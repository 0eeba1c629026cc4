-- ===== src/Tests/Transactions.antt =====
-- The theorems on transactions at one transaction of two outputs.
use bitprim_database.Prelude.{
  ℕ, ◌-◌, ◌^◌, ◌≡◌, refl, true, false, none, some, List, [], ◌∷◌, arith, replicate, Bytes, is_some,
  length, if◌then◌else◌, bytes_eq,
}
use bitprim_database.Run.{ok, Returns}
use bitprim_database.UnspentTransaction.{OutputPoint}
use bitprim_database.UnspentOutputs.Cache.{IsCache}
use bitprim_database.TransactionResult.{transaction_result, is_spent}
use bitprim_database.TransactionResult.Outputs as Outputs
use bitprim_database.TransactionResult.Outputs.{StoredOutput}
use bitprim_database.TransactionDatabase.{
  StoredTransaction, TransactionDatabase, find, confirm, store, spend,
}
use bitprim_database.TransactionDatabase.Entries.{Entry, first}
use bitprim_database.TransactionDatabase.Bodies.{
  Contents, IsFormed, body_of, marked, uncached, is_spent-all_spent,
}
use bitprim_database.TransactionDatabase.Finding.{Keeps, Answers, find-present}
use bitprim_database.TransactionDatabase.Confirming.{confirm-find}
use bitprim_database.TransactionDatabase.Storing.{HasRoomFor, store_transaction-Keeps}
use bitprim_database.TransactionDatabase.Spending.{spend-Keeps}
use bitprim_database.TransactionUnconfirmedDatabase.{TransactionUnconfirmedDatabase}
use bitprim_database.DataBase.{Output}
use bitprim_database.Tests.Little.{little}
use bitprim_database.Tests.World.{os, works, sum}
use bitprim_database.Tests.Databases.{nine, digest, hashed, hashed-Represents}

-- The height that marks an output as not spent.
abbrev pub not_spent : ℕ
not_spent = 2 ^ 32 - 1

abbrev unspent : StoredOutput
unspent = record { spender_height = not_spent; value = replicate 8 4; script = 81 ∷ 82 ∷ [] }

abbrev pub contents : Contents
contents = record { locks = replicate 8 1; outputs = unspent ∷ unspent ∷ []; inputs = 3 ∷ [] }

unspent-IsSized : Outputs.IsSized unspent
unspent-IsSized = record { spender_height = omega arith; value = refl; script = omega arith }

pub contents-IsFormed : IsFormed contents
contents-IsFormed = record {
  locks = refl;
  count = omega arith;
  outputs = (unspent-IsSized, (unspent-IsSized, tt));
}

abbrev pub output : ℕ → Output
output value = record {
  address = none;
  script_address = none;
  value = value;
  ephemeral_key = none;
  stealth_prefix = none;
}

abbrev pub tx : StoredTransaction Output
tx = record {
  transaction = record { hash = digest; is_coinbase = false; outputs = output 10 ∷ output 20 ∷ [] };
  body = body_of contents;
  serialized_size = length (body_of contents);
  pooled = true;
}

abbrev pub empty_database : TransactionDatabase Output
empty_database = record {
  initial_size = 28;
  lookup_map = hashed;
  cache = record { capacity = 2; hits = 1; queries = 1; sequence = 0; unspent = [] };
}

pub empty_database-Keeps : Keeps sum empty_database (λ q. [])
empty_database-Keeps = record { keyed = refl; represents = hashed-Represents; sized = λ q. tt }

pub cache-IsCache : IsCache empty_database.cache
cache-IsCache = record { bounded = omega arith; counted = omega arith; rising = tt; unique = tt }

pub tx_room : HasRoomFor tx empty_database
tx_room = record { hash = refl; body = refl; outputs = omega arith; slab = omega arith }

abbrev pub one : Entry
one = record { height = 40; position = 3; body = body_of contents }

abbrev pub entries : Bytes → List Entry
entries q = if bytes_eq q digest then one ∷ [] else []

pub newest : first (entries digest) ≡ some one
unfolding bytes_eq
newest = refl

store_transaction-Keeps_example :
    Returns (store sum os tx 40 3 empty_database) (λ db'. Keeps sum db' entries × IsCache db'.cache)
store_transaction-Keeps_example =
    store_transaction-Keeps sum works tx 40 3 (omega arith) (omega arith) empty_database (λ q. [])
      empty_database-Keeps cache-IsCache tx_room

-- A database of one transaction.
abbrev pub single :
    Returns (store sum os tx 40 3 empty_database) (λ db'. Keeps sum db' entries × IsCache db'.cache)
single =
    store_transaction-Keeps sum works tx 40 3 (omega arith) (omega arith) empty_database (λ q. [])
      empty_database-Keeps cache-IsCache tx_room

confirm-find_example :
    Returns
      (confirm sum digest 41 5 single.0)
      (λ r. (r.0 ≡ true) × Returns (find sum digest 41 true r.1) (λ o. is_some o ≡ true))
confirm-find_example =
    confirm-find sum single.0 entries digest 41 5 41 one single.2.0 refl (omega arith) (omega arith)
      newest

abbrev point : OutputPoint
point = record { hash = digest; index = 1 }

spend-Keeps_example : Returns (spend sum not_spent point 50 single.0) (λ r.
    (r.0 ≡ true)
    × Keeps sum r.1 (marked entries point 50 contents)
    × (r.1.cache ≡ (uncached not_spent point 50 single.0).cache))
spend-Keeps_example =
    spend-Keeps sum single.0 entries not_spent 50 point one contents single.2.0 refl (omega arith)
      newest refl contents-IsFormed

-- The place of the slab.
abbrev located : (a : ℕ) × Answers sum single.0 entries digest one a
located =
    let (a, answers, run) = find-present sum single.0 entries digest one single.2.0 refl newest in
    (a, answers)

is_spent-all_spent_example :
    is_spent not_spent single.0.lookup_map.manager.file 60
      (transaction_result (some located.0) digest)
    ≡ ok false
is_spent-all_spent_example =
    is_spent-all_spent single.0.lookup_map.manager.file located.0 one contents
      located.1.editable.covers located.1.fields refl contents-IsFormed not_spent 60 digest
      (omega arith)

abbrev pub pool : TransactionUnconfirmedDatabase
pool = record { initial_size = 28; lookup_map = hashed }
