-- ===== src/Tests/Chains.antt =====
-- The theorems on the checks and the loop of `data_base` at small databases.
use bitprim_database.Prelude.{
  ◌≡◌, refl, true, false, [], ◌∷◌, arith, replicate, bytes_eq, Bytes, List, All, if◌then◌else◌,
}
use bitprim_database.Run.{ok, Returns}
use bitprim_database.MemoryMap.{Os}
use bitprim_database.Store.{FileName}
use bitprim_database.BlockDatabase.{serialize}
use bitprim_database.BlockDatabase.Storing.{stored_block}
use bitprim_database.DataBase.{
  Transaction, ChainBlock, Library, DataBase, success, store_block_missing_parent,
  unspent_duplicate, verify_push, verify_transaction,
}
use bitprim_database.DataBase.Checks.{Tops, follows, verify_push-code, verify_transaction-code}
use bitprim_database.DataBase.Writers.{push_transactions, push}
use bitprim_database.DataBase.Pushing.{push_refused}
use bitprim_database.DataBase.Recording.{
  IsFormed, Records, SameRest, recorded, unpooled, push_transactions-Records,
}
use bitprim_database.TransactionUnconfirmedDatabase as Unconfirmed
use bitprim_database.TransactionUnconfirmedDatabase.{Serialized}
use bitprim_database.TransactionUnconfirmedDatabase.Transactions as Pool
use bitprim_database.TransactionUnconfirmedDatabase.Transactions.{Pools, store-Pools}
use bitprim_database.Tests.Little.{little, digits}
use bitprim_database.Tests.World.{os, works, sum, records, record_table}
use bitprim_database.Tests.Databases.{nine, digest, multimap, hashed-Represents}
use bitprim_database.Tests.Blocks as Blocks
use bitprim_database.Tests.Blocks.{with_two, slabs_of}
use bitprim_database.Tests.Stores.{locks}
use bitprim_database.Tests.Transactions.{
  not_spent, contents, contents-IsFormed, tx, one, entries, newest, single, pool, empty_database,
  empty_database-Keeps, cache-IsCache,
}

abbrev library : Library
library = record { point_bytes = λ p. digits 36 p.index; checksum = λ p. 0; not_spent = not_spent }

-- A database with a block at the height 2, and a transaction of two outputs that are not spent.
abbrev db : DataBase
db = record {
  closed = true;
  index_start_height = 0;
  store = record { use_indexes = true; flush_each_write = true };
  blocks = Blocks.stored.0;
  transactions = single.0;
  transactions_unconfirmed = pool;
  spends = record { initial_map_file_size = 24; lookup_map = record_table };
  history = record { initial_map_file_size = 24; multimap = multimap };
  stealth = record { rows_manager = records };
}

abbrev system : FileName → Os
system name = os

abbrev transaction : Transaction
transaction = record { stored = tx; inputs = [] }

abbrev next_block : ChainBlock
next_block = record {
  hash = replicate 32 2;
  header = replicate 80 9;
  previous_block_hash = digest;
  transactions = transaction ∷ [];
}

tops : Tops with_two 3 digest
unfolding serialize
tops = follows (stored_block Blocks.block 2) refl (omega arith)

verify_push-code_example : verify_push next_block 3 db ≡ ok success
unfolding bytes_eq
verify_push-code_example =
    verify_push-code sum db 3 with_two slabs_of digest next_block 3 Blocks.stored.2 tops

verify_transaction-code_example :
    verify_transaction sum library transaction db ≡ ok unspent_duplicate
verify_transaction-code_example =
    verify_transaction-code sum library db entries transaction one contents single.2.0 refl newest
      refl contents-IsFormed (omega arith)

abbrev orphan : ChainBlock
orphan = record next_block { previous_block_hash = replicate 32 7 }

push_refused_example :
    push sum library system locks orphan 3 db false ≡ ok (store_block_missing_parent, (db, false))
unfolding bytes_eq
push_refused_example =
    push_refused sum library system locks db 3 with_two slabs_of digest orphan 3 false
      Blocks.stored.2 tops refl

-- A transaction that waits under the hash of the first one.
abbrev waiting : Serialized
waiting = record { hash = digest; body = 1 ∷ 2 ∷ []; serialized_size = 2 }

pool-Pools : Pools sum pool (λ q. [])
pool-Pools = record { keyed = refl; represents = hashed-Represents }

waiting_room : Pool.HasRoomFor waiting pool
waiting_room = record { hash = refl; body = refl; slab = omega arith }

abbrev bodies : Bytes → List Bytes
bodies q = if bytes_eq q digest then (1 ∷ 2 ∷ []) ∷ [] else []

abbrev pooled : Returns (Unconfirmed.store sum os waiting pool) (λ db'. Pools sum db' bodies)
pooled = store-Pools sum pool (λ q. []) waiting works pool-Pools waiting_room

-- No transactions but the one that waits, and no index below the height 10.
abbrev empty_db : DataBase
empty_db = record db {
  index_start_height = 10;
  transactions = empty_database;
  transactions_unconfirmed = pooled.0;
}

empty_db-Records : Records sum empty_db (λ q. []) bodies
empty_db-Records = record {
  transactions = empty_database-Keeps;
  cache = cache-IsCache;
  pool = pooled.2;
}

abbrev second : Transaction
second = record {
  stored = record tx { transaction = record tx.transaction { hash = replicate 32 5 } };
  inputs = [];
}

abbrev txs : List Transaction
txs = transaction ∷ second ∷ []

formed : All IsFormed txs
formed = (
  record { hash = refl; body = refl; outputs = omega arith },
  (record { hash = refl; body = refl; outputs = omega arith }, tt),
)

push_transactions-Records_example :
    Returns
      (push_transactions sum library system
        (record next_block { transactions = txs })
        3
        0
        1
        empty_db)
      (λ db'.
        Records sum db' (recorded 3 txs 0 (λ q. [])) (unpooled txs bodies)
        × SameRest sum empty_db db')
push_transactions-Records_example =
    push_transactions-Records sum library system works 3 (omega arith)
      (record next_block { transactions = txs }) empty_db (λ q. []) bodies (omega arith)
      (omega arith) formed (omega arith) empty_db-Records
