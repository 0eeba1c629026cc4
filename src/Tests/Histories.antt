-- ===== src/Tests/Histories.antt =====
-- The theorems on rows by key, and on payments, at one address.
use bitprim_database.Prelude.{
  ◌≡◌, refl, sym, List, [], ◌∷◌, arith, replicate, Bytes, is_some, length, bytes_eq,
}
use bitprim_database.Run.{ok, Returns}
use bitprim_database.Buckets.Contents.{top}
use bitprim_database.RecordMultimap as Multimap
use bitprim_database.RecordMultimap.Rows.{Holds}
use bitprim_database.RecordMultimap.Adding.{HasRoomFor, added_row, add_row-Holds}
use bitprim_database.RecordMultimap.Deleting.{removed_row, delete_last_row-Holds}
use bitprim_database.HistoryDatabase.{
  HistoryCompact, HistoryDatabase, serialize, kind_output, add_row, get,
}
use bitprim_database.HistoryDatabase.Payments.{IsSized}
use bitprim_database.HistoryDatabase.Addresses.{Pays, add_row-Pays, get-limited}
use bitprim_database.Tests.Little.{little}
use bitprim_database.Tests.World.{os, works, sum}
use bitprim_database.Tests.Databases.{multimap, multimap-Maps}

-- The key of twenty bytes, and a row.
abbrev address : Bytes
address = replicate 20 6

abbrev row : Bytes
row = replicate 49 8

abbrev rows : Bytes → List Bytes
rows = added_row address row (λ q. [])

row_room : (r : Bytes) → length r ≡ 49 → HasRoomFor address r multimap
row_room r e = record {
  keyed = refl;
  fits = omega (arith, e);
  rows = record { indexes = omega arith; exact = omega arith };
  slot = omega arith;
  indexes = omega arith;
  exact = omega arith;
}

add_row-Holds_example :
    Returns
      (Multimap.add_row sum os os address row multimap)
      (λ mm'. Holds sum mm' rows × (mm'.table.key_size ≡ 20))
add_row-Holds_example =
    add_row-Holds sum works works multimap (λ q. []) (λ q. []) address row multimap-Maps
      (row_room row refl)

-- A multimap of one row.
abbrev added :
    Returns
      (Multimap.add_row sum os os address row multimap)
      (λ mm'. Holds sum mm' rows × (mm'.table.key_size ≡ 20))
added =
    add_row-Holds sum works works multimap (λ q. []) (λ q. []) address row multimap-Maps
      (row_room row refl)

delete_last_row-Holds_example : Returns (Multimap.delete_last_row sum address added.0) (λ r.
    (r.0 ≡ is_some (top (rows address)))
    × Holds sum r.1 (removed_row address rows)
    × (r.1.table.key_size ≡ added.0.table.key_size))
delete_last_row-Holds_example =
    delete_last_row-Holds sum added.0 added.2.0.0 rows address added.2.0.1 (sym added.2.1)

abbrev history : HistoryDatabase
history = record { initial_map_file_size = 24; multimap = multimap }

history-Pays : Pays sum history (λ q. [])
history-Pays = record { keyed = refl; holds = (λ q. [], multimap-Maps); sized = λ q. tt }

abbrev payment : HistoryCompact
payment = record { kind = kind_output; point = replicate 36 2; height = 7; value = 50 }

payment-IsSized : IsSized payment
payment-IsSized = record { point = refl; height = omega arith; value = omega arith }

abbrev payments : Bytes → List HistoryCompact
payments = added_row address payment (λ q. [])

payment_room : HasRoomFor address (serialize payment) multimap
unfolding serialize
payment_room = row_room (serialize payment) refl

-- A database of one payment.
abbrev paid : Returns (add_row sum os os address payment history) (λ db'. Pays sum db' payments)
paid =
    add_row-Pays sum history (λ q. []) address payment works works history-Pays payment-IsSized
      payment_room

get-limited_example : get sum address 3 5 paid.0 ≡ ok (payment ∷ [])
unfolding bytes_eq
get-limited_example = get-limited sum paid.0 payments address 3 5 paid.2 refl
