-- ===== src/Tests/Stores.antt =====
-- The theorems on the store at locks whose state is the file of the flush lock.
use bitprim_database.Prelude.{◌≡◌, refl, Bool, true, false, not}
use bitprim_database.Store.{Locks, Store, open_store, begin_write, flush_lock}
use bitprim_database.Store.Crashes.{
  shut, writing, Reach, starts, opens, begins, dies, open_store-detects, open_store-succeeds,
}

abbrev pub locks : Locks Bool
locks = record {
  lock = λ file. (true, file);
  unlock = λ file. (true, file);
  try_lock = λ file. not file;
  lock_shared = λ file. (true, true);
  unlock_shared = λ file. (true, false);
  begin_read = λ file. 0;
  is_read_valid = λ value file. true;
  is_write_locked = λ value. false;
  begin_write = λ file. (true, file);
  end_write = λ file. (true, file);
  ended = λ file. file;
  has_file = λ file. file;
  try_lock-file = λ file. refl;
  lock_shared-file = λ file. refl;
  unlock_shared-file = λ file. refl;
  lock-file = λ file. refl;
  unlock-file = λ file. refl;
  begin_write-file = λ file. refl;
  end_write-file = λ file. refl;
  ended-file = λ file. refl;
}

abbrev flushing : Store
flushing = record { use_indexes = true; flush_each_write = true }

started : Reach locks flushing shut false false
started = starts false refl

open_store-succeeds_example : (open_store locks flushing false).0 ≡ true
open_store-succeeds_example = open_store-succeeds locks flushing false started refl (λ file. refl)

-- A process that opens the store, begins a write and ends.
crashed : Reach locks flushing shut true true
unfolding open_store begin_write flush_lock
crashed = dies writing true true (begins false (opens false false started refl) refl)

open_store-detects_example : (open_store locks flushing true).0 ≡ false
open_store-detects_example = open_store-detects locks flushing true crashed
