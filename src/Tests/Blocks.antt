-- ===== src/Tests/Blocks.antt =====
-- The theorems on blocks at one block.
use bitprim_database.Prelude.{
  ℕ, ◌≡◌, refl, none, some, Option, List, [], ◌∷◌, arith, replicate, Bytes, get_elem?, true,
  bytes_eq, if◌then◌else◌,
}
use bitprim_database.Run.{ok, Returns}
use bitprim_database.BlockIndex.{write_position, gaps}
use bitprim_database.BlockIndex.Heights.{Indexes, gaps-vacant}
use bitprim_database.BlockIndex.Writing.{put, reach, write_position-Indexes}
use bitprim_database.BlockResult as Result
use bitprim_database.BlockDatabase.{
  Block, serialize, serialized_size, block_database, create, store, get_at,
}
use bitprim_database.BlockDatabase.Blocks.{Stored, Shows, Keeps, get_at-Keeps}
use bitprim_database.BlockDatabase.Storing.{
  IsFormed, HasRoomFor, stored_block, with_block, store-Keeps,
}
use bitprim_database.Buckets.Contents.{push}
use bitprim_database.BlockResult.Fields.{fields-Shows}
use bitprim_database.BlockDatabase.Creation.{create_blocks-Keeps}
use bitprim_database.Tests.Little.{little}
use bitprim_database.Tests.World.{os, works, serves, sum, shut_file, shut_file-IsShut}
use bitprim_database.Tests.Databases.{nine, digest, index, index-Indexes, blocks, blocks-Keeps}

abbrev put_two : ℕ → ℕ
put_two = put works index 0 (λ i. 0) 2 index-Indexes (omega arith) (omega arith) 48

write_position-Indexes_example :
    Returns (write_position os 48 2 index) (λ m'. Indexes m' (reach 0 2) put_two)
write_position-Indexes_example =
    write_position-Indexes works index 0 (λ i. 0) 2 index-Indexes (omega arith) (omega arith) 48
      (omega arith)

-- An index with a position at the height 2.
abbrev written : Returns (write_position os 48 2 index) (λ m'. Indexes m' (reach 0 2) put_two)
written =
    write_position-Indexes works index 0 (λ i. 0) 2 index-Indexes (omega arith) (omega arith) 48
      (omega arith)

gaps-vacant_example : gaps written.0 ≡ ok (0 ∷ 1 ∷ [])
gaps-vacant_example = gaps-vacant written.0 3 put_two written.2

abbrev pub block : Block
block = record {
  hash = digest;
  header = replicate 80 5;
  transaction_hashes = replicate 32 3 ∷ replicate 32 4 ∷ [];
}

pub block-IsFormed : IsFormed block
block-IsFormed = record { hash = refl; header = refl; transactions = (refl, (refl, tt)) }

pub block_room : HasRoomFor block 2 blocks
unfolding serialized_size
block_room = record { heights = omega arith; index = omega arith; slab = omega arith }

abbrev pub with_two : ℕ → Option Stored
with_two = with_block 0 2 (stored_block block 2) (λ i. none)

abbrev pub slabs_of : Bytes → List Bytes
slabs_of q = if bytes_eq q digest then push (serialize block 2) [] else []

store-Keeps_example :
    Returns (store sum os os block 2 blocks) (λ db'. Keeps sum db' (reach 0 2) with_two slabs_of)
store-Keeps_example =
    store-Keeps sum blocks 0 (λ i. none) (λ key. []) block 2 works works blocks-Keeps block-IsFormed
      block_room

-- A database of one block, at the height 2.
abbrev pub stored :
    Returns (store sum os os block 2 blocks) (λ db'. Keeps sum db' (reach 0 2) with_two slabs_of)
stored =
    store-Keeps sum blocks 0 (λ i. none) (λ key. []) block 2 works works blocks-Keeps block-IsFormed
      block_room

get_at-Keeps_example :
    Returns (get_at 2 stored.0) (Shows stored.0.lookup_map.manager.file (stored_block block 2))
get_at-Keeps_example =
    get_at-Keeps sum stored.0 3 with_two slabs_of 2 (stored_block block 2) stored.2 (omega arith)
      refl

-- The result of `get` at the height 2.
abbrev found :
    Returns (get_at 2 stored.0) (Shows stored.0.lookup_map.manager.file (stored_block block 2))
found =
    get_at-Keeps sum stored.0 3 with_two slabs_of 2 (stored_block block 2) stored.2 (omega arith)
      refl

fields-Shows_example :
    let f = stored.0.lookup_map.manager.file in
    (Result.header f found.0 ≡ ok block.header)
    × (Result.height f found.0 ≡ ok 2)
    × (Result.transaction_count f found.0 ≡ ok 2)
    × ((i : ℕ) (h : Bytes)
        → get_elem? block.transaction_hashes i ≡ some h
        → Result.transaction_hash f i found.0 ≡ ok h)
fields-Shows_example =
    fields-Shows stored.0.lookup_map.manager.file block 2 found.0 found.2 block-IsFormed
      (omega arith) (omega arith)

create_blocks-Keeps_example :
    Returns
      (create os os (block_database shut_file shut_file 2))
      (λ r. (r.0 ≡ true) × Keeps sum r.1 0 (λ i. none) (λ key. []))
create_blocks-Keeps_example =
    create_blocks-Keeps sum shut_file shut_file 2 serves serves shut_file-IsShut shut_file-IsShut
      (omega arith) (omega arith)
