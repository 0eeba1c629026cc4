-- ===== src/Tests/Stealth.antt =====
-- The theorems on the stealth database at a new database and at one with a row.
use bitprim_database.Prelude.{◌≡◌, refl, ◌==◌, [], ◌∷◌, arith, replicate}
use bitprim_database.Run.{Returns, ok}
use bitprim_database.RecordManager.Allocation.{HasRoom}
use bitprim_database.StealthDatabase
use bitprim_database.StealthDatabase.{StealthDatabase, stealth_database}
use bitprim_database.StealthDatabase.Rows.{StealthRow, IsSized, Lists}
use bitprim_database.StealthDatabase.Scanning.{kept, scan-kept}
use bitprim_database.StealthDatabase.Storing.{store-Lists}
use bitprim_database.Tests.Little.{little}
use bitprim_database.Tests.World.{os, works, live_file, live_file-IsLive}

abbrev database : StealthDatabase
database = record {
  rows_manager = record { file = live_file; header_size = 0; record_count = 0; record_size = 92 };
}

database-Lists : Lists database []
database-Lists = record {
  ready = record { live = live_file-IsLive; holds = omega arith; countable = omega arith };
  sized = refl;
  counted = refl;
  exact = omega arith;
  rows = tt;
}

abbrev row : StealthRow
row = record {
  prefix = 7;
  height = 500;
  compact = record {
    ephemeral_public_key_hash = replicate 32 1;
    public_key_hash = replicate 20 2;
    transaction_hash = replicate 32 3;
  };
}

row-IsSized : IsSized row
row-IsSized = record {
  prefix = omega arith;
  height = omega arith;
  ephemeral = refl;
  public = refl;
  transaction = refl;
}

room : HasRoom 1 database.rows_manager
room = record { indexes = omega arith; exact = omega arith }

store-Lists_example :
    Returns (StealthDatabase.store os 7 500 row.compact database) (λ db. Lists db (row ∷ []))
store-Lists_example = store-Lists database [] row works database-Lists row-IsSized room

-- The database with the row.
abbrev stored :
    Returns (StealthDatabase.store os 7 500 row.compact database) (λ db. Lists db (row ∷ []))
stored = store-Lists database [] row works database-Lists row-IsSized room

scan-kept_example :
    StealthDatabase.scan (λ field. field == 7) 400 stored.0
    ≡ ok (kept (λ field. field == 7) 400 (row ∷ []))
scan-kept_example = scan-kept (λ field. field == 7) 400 stored.0 (row ∷ []) stored.2
