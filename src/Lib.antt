-- ===== src/Lib.antt =====
-- The storage engine of the bitprim database: memory mapped files with hash tables in them, the
-- databases of blocks, transactions, spends, payments and stealth rows on top of them, the cache
-- of unspent outputs, the locks of the store, and the class that adds blocks to all of them and
-- takes them away.
--
-- A memory mapped file holds the array of buckets of a hash table, then the rows. Rows of one size
-- are kept by a record manager, which counts records and names them by index; rows of any size by
-- a slab manager, which counts bytes and names them by position. The row of a key holds the link
-- to the next row of its bucket. A database is such a table with a fixed meaning of keys and
-- values, or two of them: the block database has an array of positions by height beside its table
-- of blocks by hash, and the history database has a multimap, whose table holds for each key the
-- first record of a list in another file.
--
--   MemoryMap         src/memory/memory_map.cpp: `open_map` is `open`, `reserve_by` is the
--                     private `reserve`, `load` and `save` are accesses through `access()`
--   RecordManager     src/primitives/record_manager.cpp
--   SlabManager       src/primitives/slab_manager.cpp
--   HashTableHeader   include/bitcoin/database/impl/hash_table_header.ipp
--   Row, RecordRow, SlabRow
--                     include/bitcoin/database/impl/record_row.ipp and slab_row.ipp
--   Buckets           what include/bitcoin/database/impl/record_hash_table.ipp and
--                     slab_hash_table.ipp share: the walk along the rows of one bucket
--   RecordHashTable, SlabHashTable
--                     the operations of these two files
--   RecordList        src/primitives/record_list.cpp and record_multimap_iterator.cpp
--   RecordMultimap    include/bitcoin/database/impl/record_multimap.ipp: `delete_at` is the part of
--                     `delete_last_row` for a key that is found
--   BlockIndex        the index of src/databases/block_database.cpp: `extend` is the guarded part of
--                     `write_position`
--   BlockDatabase     src/databases/block_database.cpp: `open_files` is `open`, `get_at` is `get` of
--                     a height and `get` that of a hash
--   BlockResult, TransactionResult
--                     src/result/block_result.cpp and transaction_result.cpp: a result is the place
--                     of its slab, and its readers take the file
--   SlabFile          what src/databases/transaction_database.cpp and
--                     transaction_unconfirmed_database.cpp share: creating, opening and closing
--   TransactionDatabase, TransactionUnconfirmedDatabase
--                     these two files: `open_files` is `open`, `create_transaction` is the second
--                     half of `store`, and `write_spender` and `write_confirmation` are the writes
--                     of `spend` and `confirm`
--   HistoryDatabase   src/databases/history_database.cpp: `open_files` is `open`, `add_row` is what
--                     `add_input` and `add_output` share
--   Store             src/store.cpp: `open_store` is `open` and `close_store` is `close`
--   DataBase          src/data_base.cpp: `open_all`, `close_all` and `create_all` are `open`, `close`
--                     and `create`, `verify_transaction` is `verify_push` of a transaction,
--                     `push_pooled` is `push` of a transaction, and `add_block` is what `push` and
--                     `insert` share
--   SpendDatabase     src/databases/spend_database.cpp: `open_files` is `open`
--   StealthDatabase   src/databases/stealth_database.cpp: `open_files` is `open`; an array of rows
--                     in a record manager of its own, without a hash table
--   UnspentTransaction, UnspentOutputs
--                     src/unspent_transaction.cpp and src/unspent_outputs.cpp:
--                     `remove_output` is `remove` of a point, and `get` answers for
--                     `get_is_confirmed` too, by a result that holds all outputs of both
--   Run, Bytes, Endian, VariableUint, Prelude
--                     outcomes of operations, bytes in memory, numbers as bytes, shared lemmas
--   Tests             concrete files, tables, databases, locks and caches
--
-- State is passed explicitly: an operation takes the state and returns the new one. The outcome of
-- an operation that may fail is a `Run`: a result, an exception of the standard library, an access
-- outside of the mapping, or a loop out of fuel.
--
-- A table is described by a view, the list of the rows of each bucket, newest first. Along a chain
-- the rows lie at falling places in the file, since new rows are put at the end and linked in
-- front. The stack of a key is the list of the values of its rows.
--
-- Sizes and bounds. Indexes are taken modulo 2 ^ 32 and positions modulo 2 ^ 64. Sizes that the
-- file grows to are at most 2 ^ 53 in the theorems, up to which the product in floating point that
-- sets the new size is no smaller than the size asked for. The walk along a bucket has fuel for
-- one row more than the file has bytes: each row starts below the one before it, so that no chain
-- is longer. The loop over the transactions of a block has fuel for one step more than there are
-- transactions, which is enough where each step goes to the next position. The loops over its
-- inputs and outputs have such fuel too, and count with 32 bits, as does the loop of `is_spent`,
-- which has fuel for one output more than the file has bytes: an output takes more than a byte.
-- With 2 ^ 32 inputs or outputs the counter wraps around and the loop is stuck or leaves the file.
--
-- Parameters. `Os` holds the answers of the system calls, `Endian` the encoding of numbers by the
-- serializers of the system library, `VariableUint` its encoding of sizes, `Hash` the `std::hash`
-- of a key, `Locks` the file locks and the sequence lock of the system library. `not_spent` is its
-- height of outputs without a spender, `from_data` and `read_transaction` are its reading of
-- outputs and transactions, and `Library` holds what it computes from points. The hypotheses on
-- them are that the calls succeed where a theorem says so (`Works`, `Serves`), that an encoding
-- has its size and is undone by decoding, that the largest number is encoded in bytes of 255, and
-- that the file of the flush lock is made by taking the lock, removed by releasing it, and else
-- stays. A block or a transaction is given by its hashes and by the bytes that the system library
-- writes.
--
-- Not modelled: threads and the locks between them, and so the asynchronous writers of
-- `data_base`, logging, the advice on pages beyond its failure, the hit rate of the cache, and the
-- default values of the settings.
pub mod Prelude
pub mod Run
pub mod Bytes
pub mod MemoryMap
pub mod Endian
pub mod RecordManager
pub mod SlabManager
pub mod HashTableHeader
pub mod RecordList
pub mod BlockIndex
pub mod Store
pub mod DataBase
pub mod VariableUint
pub mod BlockResult
pub mod BlockDatabase
pub mod Row
pub mod Buckets
pub mod RecordRow
pub mod RecordHashTable
pub mod RecordMultimap
pub mod SlabRow
pub mod SlabHashTable
pub mod SpendDatabase
pub mod SlabFile
pub mod TransactionResult
pub mod TransactionUnconfirmedDatabase
pub mod TransactionDatabase
pub mod StealthDatabase
pub mod HistoryDatabase
pub mod Tests
pub mod UnspentTransaction
pub mod UnspentOutputs
