-- ===== src/TransactionDatabase/Creation.antt =====
-- `create` of src/databases/transaction_database.cpp.
use bitprim_database.Prelude.{ℕ, ◌<◌, ◌≡◌, true, [], arith}
use bitprim_database.Run.{◌>>=◌, Returns}
use bitprim_database.Endian.{Endian, array_index_bound}
use bitprim_database.MemoryMap.{Os, MemoryMap}
use bitprim_database.MemoryMap.Lifecycle.{Serves, IsShut}
use bitprim_database.Buckets.{Hash}
use bitprim_database.SlabFile.Creation.{create-Represents}
use bitprim_database.UnspentOutputs.Cache.{IsCache}
use bitprim_database.UnspentOutputs.{unspent_outputs}
use bitprim_database.TransactionDatabase.{transaction_database, with_map, create}
use bitprim_database.TransactionDatabase.Finding.{Keeps}

-- `create` of a transaction database over a file that is shut and not empty, with at least one
-- bucket and less than 2 ^ 32, returns true where the system calls succeed, and leaves a started
-- database without transactions and with a well formed cache.
pub create-Keeps :
    ⦃en : Endian⦄ (hash : Hash) (Output : Type 0) {os : Os} (file : MemoryMap)
    (buckets capacity : ℕ)
    → Serves os
    → IsShut file
    → 0 < buckets
    → buckets < array_index_bound
    → Returns
        (create {Output = Output} os (transaction_database file buckets capacity))
        (λ r. (r.0 ≡ true) × Keeps hash r.1 (λ q. []) × IsCache r.1.cache)
unfolding create transaction_database unspent_outputs
create-Keeps hash Output {os} file buckets capacity serves shut pos small =
    let ((done, t), run, (yes', represents, keyed)) =
      create-Represents hash 32 file buckets serves shut pos small in
    (
      (done, with_map t (transaction_database file buckets capacity)),
      rw (run, ◌>>=◌),
      (
        yes',
        record { keyed = keyed; represents = represents; sized = λ q. tt },
        record { bounded = omega arith; counted = omega arith; rising = tt; unique = tt },
      ),
    )
