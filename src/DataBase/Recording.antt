-- ===== src/DataBase/Recording.antt =====
-- What `push_transactions` of src/data_base.cpp leaves in the databases of transactions, at heights
-- that are not indexed.
use bitprim_database.Prelude.{
  ℕ, ◌+◌, ◌≤◌, ◌<◌, ◌^◌, ◌≡◌, ◌∙◌, refl, ap, List, [], ◌∷◌, arith, lt→ltb, if◌then◌else◌, length,
  All, Bytes, bytes_eq,
}
use bitprim_database.Run.{◌>>=◌, Returns}
use bitprim_database.Endian.{Endian, array_index_bound}
use bitprim_database.VariableUint.{VariableUint}
use bitprim_database.MemoryMap.{Os}
use bitprim_database.MemoryMap.Growth.{Works, max_exact}
use bitprim_database.Buckets.{Hash}
use bitprim_database.Buckets.Contents.{pop}
use bitprim_database.UnspentOutputs.Cache.{IsCache}
use bitprim_database.TransactionDatabase.Entries.{Entry}
use bitprim_database.TransactionDatabase.Finding.{Keeps}
use bitprim_database.TransactionDatabase.Storing.{stored, store_transaction-Grows}
use bitprim_database.TransactionUnconfirmedDatabase.Transactions.{Pools, unlink_if_exists-Pools}
use bitprim_database.Store.{FileName, transaction_table}
use bitprim_database.DataBase.{Transaction, ChainBlock, Library, DataBase, hash_of}
use bitprim_database.DataBase.Writers.{push_transaction, push_transactions}
use bitprim_database.DataBase.Pushing.{push_each, push_transactions-push_each}

-- The stacks of transactions after those of a block are stored, each at its position.
abbrev pub recorded : ℕ → List Transaction → ℕ → (Bytes → List Entry) → Bytes → List Entry
recorded height [] position m = m
recorded height (tx ∷ txs) position m =
    recorded height txs (position + 1)
      (λ q. if bytes_eq q (hash_of tx) then stored tx.stored height position (m q) else m q)

-- The pool without the newest transaction under the hash of each.
abbrev pub unpooled : List Transaction → (Bytes → List Bytes) → Bytes → List Bytes
unpooled [] p = p
unpooled (tx ∷ txs) p = unpooled txs (λ q. if bytes_eq q (hash_of tx) then pop (p q) else p q)

-- The bytes that the slabs of the transactions take.
abbrev pub slabs_size : List Transaction → ℕ
slabs_size [] = 0
slabs_size (tx ∷ txs) = 40 + (8 + tx.stored.serialized_size) + slabs_size txs

-- A hash and a size of the format.
pub record IsFormed (tx : Transaction) : Type 0 where
  pub hash : length (hash_of tx) ≡ 32
  pub body : length tx.stored.body ≡ tx.stored.serialized_size
  pub outputs : length tx.stored.transaction.outputs < 2 ^ 32

module _ ⦃en : Endian⦄ (hash : Hash) where
  -- The transactions `m` with a well formed cache, and the unconfirmed ones `p`.
  pub record Records (db : DataBase) (m : Bytes → List Entry) (p : Bytes → List Bytes)
      : Type 0 where
    pub transactions : Keeps hash db.transactions m
    pub cache : IsCache db.transactions.cache
    pub pool : Pools hash db.transactions_unconfirmed p

  -- The slabs of the transactions have room.
  abbrev pub HasRoomForAll : List Transaction → DataBase → Type 0
  HasRoomForAll txs db =
      db.transactions.lookup_map.manager.header_size
        + (db.transactions.lookup_map.manager.payload_size + slabs_size txs)
      ≤ max_exact

  -- The other databases and the settings are the same.
  abbrev pub SameRest : DataBase → DataBase → Type 0
  SameRest db db' = db' ≡ record db {
    transactions = db'.transactions;
    transactions_unconfirmed = db'.transactions_unconfirmed;
  }

  module _ ⦃var : VariableUint⦄ (library : Library) (os : FileName → Os)
      (works : Works (os transaction_table)) (height : ℕ) (small : height < array_index_bound) where
    push_transaction-Records :
        (tx : Transaction) (rest position : ℕ) (db : DataBase) (m : Bytes → List Entry)
        (p : Bytes → List Bytes)
        → height < db.index_start_height
        → position < array_index_bound
        → IsFormed tx
        → db.transactions.lookup_map.manager.header_size
            + (db.transactions.lookup_map.manager.payload_size
                + (40 + (8 + tx.stored.serialized_size) + rest))
          ≤ max_exact
        → Records db m p
        → Returns (push_transaction hash library os tx height position db) (λ db'.
          Records db'
            (λ q. if bytes_eq q (hash_of tx) then stored tx.stored height position (m q) else m q)
            (λ q. if bytes_eq q (hash_of tx) then pop (p q) else p q)
          × SameRest db db'
          × (db'.transactions.lookup_map.manager.header_size
                + (db'.transactions.lookup_map.manager.payload_size + rest)
              ≤ max_exact))
    unfolding push_transaction
    push_transaction-Records tx rest position db m p off small' formed room h =
        let (transactions, run, (keeps, cached, grows)) =
          store_transaction-Grows hash works tx.stored height position small small' db.transactions
            m h.transactions h.cache
            (record {
              hash = formed.hash;
              body = formed.body;
              outputs = formed.outputs;
              slab = omega (arith, room);
            }) in
        let ((found, pool), run', (same, pools)) =
          unlink_if_exists-Pools hash db.transactions_unconfirmed p (hash_of tx) h.pool
            formed.hash in
        (
          record db { transactions = transactions; transactions_unconfirmed = pool },
          rw (run, ◌>>=◌, run', lt→ltb height db.index_start_height off),
          (
            record { transactions = keeps; cache = cached; pool = pools },
            refl,
            omega (arith, room, grows.header, grows.payload),
          ),
        )

    push_each-Records :
        (txs : List Transaction) (position : ℕ) (db : DataBase) (m : Bytes → List Entry)
        (p : Bytes → List Bytes)
        → height < db.index_start_height
        → position + length txs ≤ array_index_bound
        → All IsFormed txs
        → HasRoomForAll txs db
        → Records db m p
        → Returns
            (push_each hash library os height txs position db)
            (λ db'. Records db' (recorded height txs position m) (unpooled txs p) × SameRest db db')
    push_each-Records [] position db m p off few formed room h = (db, refl, (h, refl))
    push_each-Records (tx ∷ txs) position db m p off few (f, fs) room h =
        let (db₁, run, (h₁, same, room₁)) =
          push_transaction-Records tx (slabs_size txs) position db m p off (omega (arith, few)) f
            room h in
        let start : db₁.index_start_height ≡ db.index_start_height =
          ap (λ (x : DataBase). x.index_start_height) same in
        let (db₂, run₂, (h₂, same₂)) =
          push_each-Records txs (position + 1) db₁ _ _ (omega (arith, off, start))
            (omega (arith, few)) fs room₁ h₁ in
        (
          db₂,
          rw (run, ◌>>=◌) run₂,
          (
            h₂,
            same₂
                ∙ ap
                    (λ (x : DataBase). record x {
                      transactions = db₂.transactions;
                      transactions_unconfirmed = db₂.transactions_unconfirmed;
                    })
                    same,
          ),
        )

    -- `push_transactions` with its default arguments, of at most 2 ^ 32 transactions of the sizes
    -- of the format at a height of 32 bits below the first that is indexed, on a database with the
    -- transactions `m` under a well formed cache and the unconfirmed ones `p`, returns where the
    -- system calls succeed and there is room for the slabs. The transactions of the block are then
    -- stored in order, each at its position: one of the pool whose position is neither 0 nor the
    -- one of the unconfirmed gives its height and its position to the newest of its hash, if there
    -- is one, and any other becomes the newest of its hash. For each of them the newest unconfirmed
    -- transaction of its hash is gone, the cache is well formed, and all other databases are the
    -- same.
    pub push_transactions-Records :
        (block : ChainBlock) (db : DataBase) (m : Bytes → List Entry) (p : Bytes → List Bytes)
        → height < db.index_start_height
        → length block.transactions ≤ array_index_bound
        → All IsFormed block.transactions
        → HasRoomForAll block.transactions db
        → Records db m p
        → Returns (push_transactions hash library os block height 0 1 db) (λ db'.
          Records db' (recorded height block.transactions 0 m) (unpooled block.transactions p)
          × SameRest db db')
    push_transactions-Records block db m p off few formed room h =
        let (db', run, result) =
          push_each-Records block.transactions 0 db m p off (omega (arith, few)) formed room h in
        (
          db',
          push_transactions-push_each hash library os height block db (omega (arith, few)) ∙ run,
          result,
        )
