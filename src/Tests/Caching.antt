-- ===== src/Tests/Caching.antt =====
-- The theorems on the cache at a cache of two transactions.
use bitprim_database.Prelude.{
  get_elem?, ℕ, ◌+◌, ◌%◌, ◌^◌, ◌≤◌, ◌<◌, ◌≡◌, refl, true, false, not, ◌&&◌, ◌||◌, none, some, [],
  ◌∷◌, ◌++◌, arith, ltb, ◌==◌, drop, if◌then◌else◌, bytes_eq,
}
use mathlib.Core.Option
use bitprim_database.Run.{Returns}
use bitprim_database.UnspentTransaction.{Transaction, OutputPoint, Cell, UnspentTransaction}
use bitprim_database.UnspentOutputs.{
  Slot, UnspentOutputs, Found, add, get, lookup, remove, remove_output,
}
use bitprim_database.UnspentOutputs.Cache.{IsCache}
use bitprim_database.UnspentOutputs.Adding.{Admits, add-IsCache, add-queue}
use bitprim_database.UnspentOutputs.Inserting.{entry}
use bitprim_database.UnspentOutputs.Reading.{answer, add-lookup, get_guards}
use bitprim_database.UnspentOutputs.Removing.{remove-lookup, remove_output-lookup}

-- An output is a number here.
abbrev tx : ℕ → Transaction ℕ
tx n = record { hash = n ∷ []; is_coinbase = false; outputs = 10 ∷ 20 ∷ [] }

abbrev cell : ℕ → ℕ → Cell ℕ
cell index output = record { index = index; output = output }

abbrev held : ℕ → UnspentTransaction ℕ
held n = record {
  height = 100;
  is_coinbase = false;
  is_confirmed = true;
  hash = n ∷ [];
  outputs = cell 0 10 ∷ cell 1 20 ∷ [];
}

abbrev cache : UnspentOutputs ℕ
cache = record {
  capacity = 2;
  hits = 1;
  queries = 1;
  sequence = 2;
  unspent =
      record { transaction = held 1; sequence = 1 }
      ∷ record { transaction = held 2; sequence = 2 }
      ∷ [];
}

cache-IsCache : IsCache cache
unfolding bitprim_database.UnspentOutputs.left_find bitprim_database.UnspentTransaction.equals
    bytes_eq
cache-IsCache = record {
  bounded = omega arith;
  counted = omega arith;
  rising = (omega arith, omega arith, (omega arith, omega arith, tt));
  unique = (refl, (refl, tt));
}

admits : Admits (tx 3) cache
unfolding bitprim_database.UnspentOutputs.left_find bitprim_database.UnspentTransaction.equals
    bitprim_database.UnspentTransaction.key_of bytes_eq
admits = record {
  enabled = omega arith;
  spendable = omega arith;
  short = omega arith;
  sequenced = omega arith;
  new = refl;
}

add-IsCache_example : Returns (add (tx 3) 200 true cache) IsCache
add-IsCache_example = add-IsCache (tx 3) 200 true cache (omega arith) cache-IsCache

add-queue_example : Returns (add (tx 3) 200 true cache) (λ u'.
    (u'.sequence ≡ 2 + 1)
    × (u'.unspent ≡ drop 1 cache.unspent ++ (entry (tx 3) 200 true (2 + 1) ∷ [])))
add-queue_example = add-queue (tx 3) 200 true cache cache-IsCache admits

abbrev point : OutputPoint
point = record { hash = 3 ∷ []; index = 1 }

add-lookup_example : Returns (add (tx 3) 200 true cache) (λ u'.
    lookup (record { hash = 3 ∷ []; index = 1 }) 250 true u' ≡ (
      if (true && not true) || ltb 250 200
      then none
      else Option.map (answer (tx 3) 200 true) (get_elem? (tx 3).outputs 1)))
add-lookup_example = add-lookup (tx 3) 200 true cache 1 250 true cache-IsCache admits

abbrev cached : OutputPoint
cached = record { hash = 2 ∷ []; index = 1 }

remove-lookup_example :
    IsCache (remove (1 ∷ []) cache)
    × (lookup cached 250 true (remove (1 ∷ []) cache)
        ≡ (if bytes_eq (2 ∷ []) (1 ∷ []) then none else lookup cached 250 true cache))
remove-lookup_example = remove-lookup (1 ∷ []) cache cached 250 true cache-IsCache

abbrev sibling : OutputPoint
sibling = record { hash = 2 ∷ []; index = 0 }

remove_output-lookup_example :
    IsCache (remove_output sibling cache)
    × (lookup cached 250 true (remove_output sibling cache)
        ≡ (if bytes_eq (2 ∷ []) (2 ∷ []) && (1 == 0) then none else lookup cached 250 true cache))
remove_output-lookup_example = remove_output-lookup sibling cache cached 250 true cache-IsCache

abbrev found : Found ℕ
found = record { output = 20; height = 100; is_coinbase = false; is_confirmed = true }

get_found : (get cached 250 true cache).0 ≡ some found
unfolding get bitprim_database.UnspentOutputs.disabled lookup
    bitprim_database.UnspentOutputs.left_find bitprim_database.UnspentTransaction.equals
    bitprim_database.UnspentTransaction.key_of bitprim_database.UnspentTransaction.find_output
    bytes_eq
get_found = refl

get_guards_example :
    (100 ≤ 250)
    × (true ≡ true → true ≡ true)
    × (0 < 2)
    × ((get cached 250 true cache).1.hits ≡ (1 + 1) % 2 ^ 64)
    × ((get cached 250 true cache).1.queries ≡ (1 + 1) % 2 ^ 64)
    × ((get cached 250 true cache).1.unspent ≡ cache.unspent)
get_guards_example = get_guards cached 250 true cache found get_found
