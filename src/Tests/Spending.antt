-- ===== src/Tests/Spending.antt =====
-- The theorems on the spend database at an empty one.
use bitprim_database.Prelude.{◌≡◌, refl, false, some, [], arith, length, Bytes, bytes_eq}
use bitprim_database.Run.{ok, Returns}
use bitprim_database.RecordHashTable.Invariant.{CanStore}
use bitprim_database.SpendDatabase.{SpendDatabase, store, get}
use bitprim_database.SpendDatabase.Spends.{Holds, get-store}
use bitprim_database.Tests.Little.{little}
use bitprim_database.Tests.World.{os, works, sum, record_table, record_table-Models}
use bitprim_database.Tests.Tables.{one, value}

abbrev database : SpendDatabase
database = record { initial_map_file_size = 16; lookup_map = record_table }

database-Holds : Holds sum database (λ outpoint. [])
database-Holds = record { keyed = refl; models = record_table-Models; points = λ q. tt }

can_store : CanStore one value database.lookup_map
can_store = record { keyed = refl; fits = omega arith; indexes = omega arith; exact = omega arith }

get-store_example : Returns (store sum os one value database) (λ db'.
    (get sum one db' ≡ ok (some value))
    × ((q : Bytes) → length q ≡ 36 → bytes_eq q one ≡ false → get sum q db' ≡ get sum q database))
get-store_example =
    get-store sum database (λ outpoint. []) one value works database-Holds refl can_store
