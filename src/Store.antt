-- ===== src/Store.antt =====
-- src/store.cpp: the lock against other processes, the flush lock whose file tells of an unclean
-- end, and the sequence that tells readers of a write. The locks are the system library's, and
-- the file system is a parameter.
pub mod Crashes
use bitprim_database.Prelude.{
  ℕ, suc, ◌%◌, ◌≡◌, Bool, true, false, not, ◌&&◌, ◌||◌, ◌==◌, List, [], ◌∷◌, ◌++◌, if◌then◌else◌,
}

-- The state of the three locks, what their operations do to it, and what is relied on: the file of
-- the flush lock is made by `lock_shared` and removed by `unlock_shared`, and only these change it;
-- `try_lock` succeeds if there is no file. A process that ends leaves the file as it is.
pub record Locks (State : Type 0) : Type 0 where
  pub lock : State → Bool × State
  pub unlock : State → Bool × State
  pub try_lock : State → Bool
  pub lock_shared : State → Bool × State
  pub unlock_shared : State → Bool × State
  pub begin_read : State → ℕ
  pub is_read_valid : ℕ → State → Bool
  pub is_write_locked : ℕ → Bool
  pub begin_write : State → Bool × State
  pub end_write : State → Bool × State
  pub ended : State → State
  pub has_file : State → Bool
  pub try_lock-file : (s : State) → try_lock s ≡ not (has_file s)
  pub lock_shared-file :
      (s : State) → has_file (lock_shared s).1 ≡ ((lock_shared s).0 || has_file s)
  pub unlock_shared-file :
      (s : State) → has_file (unlock_shared s).1 ≡ (not (unlock_shared s).0 && has_file s)
  pub lock-file : (s : State) → has_file (lock s).1 ≡ has_file s
  pub unlock-file : (s : State) → has_file (unlock s).1 ≡ has_file s
  pub begin_write-file : (s : State) → has_file (begin_write s).1 ≡ has_file s
  pub end_write-file : (s : State) → has_file (end_write s).1 ≡ has_file s
  pub ended-file : (s : State) → has_file (ended s) ≡ has_file s

pub record Store : Type 0 where
  pub use_indexes : Bool
  pub flush_each_write : Bool

-- The files, by their names in the source.
pub data FileName : Type 0 where
  block_table block_index transaction_table transaction_unconfirmed_table : FileName
  spend_table history_table history_rows stealth_rows : FileName

unfoldable pub store : Bool → Bool → Store
store with_indexes flush_each_write = record {
  use_indexes = with_indexes;
  flush_each_write = flush_each_write;
}

-- Files that are made in turn, up to the first that is not.
unfoldable pub create_each : (FileName → Bool) → List FileName → Bool
create_each create_file [] = true
create_each create_file (name ∷ names) = create_file name && create_each create_file names

unfoldable pub create : (FileName → Bool) → Store → Bool
create create_file s =
    let created =
      create_each create_file
        (block_table ∷ block_index ∷ transaction_table ∷ transaction_unconfirmed_table ∷ []) in
    if not s.use_indexes
    then created
    else created
      && create_each create_file (spend_table ∷ history_table ∷ history_rows ∷ stealth_rows ∷ [])

-- An operation, and a second one if it succeeds.
unfoldable pub and_then :
    {State : Type 0} → (State → Bool × State) → (State → Bool × State) → State → Bool × State
and_then first second s = let (done, s') = first s in if done then second s' else (false, s')

-- An operation that is skipped on a condition.
unfoldable pub unless : {State : Type 0} → Bool → (State → Bool × State) → State → Bool × State
unless skip operation s = if skip then (true, s) else operation s

-- A test.
unfoldable pub check : {State : Type 0} → (State → Bool) → State → Bool × State
check test s = (test s, s)

module _ {State : Type 0} (locks : Locks State) (store : Store) where
  unfoldable pub open_store : State → Bool × State
  unfolding and_then unless check
  open_store =
      and_then locks.lock
        (and_then (check locks.try_lock) (unless store.flush_each_write locks.lock_shared))

  unfoldable pub close_store : State → Bool × State
  unfolding and_then unless
  close_store = and_then (unless store.flush_each_write locks.unlock_shared) locks.unlock

  unfoldable pub begin_read : State → ℕ
  begin_read s = locks.begin_read s

  unfoldable pub is_read_valid : ℕ → State → Bool
  is_read_valid value s = locks.is_read_valid value s

  unfoldable pub is_write_locked : ℕ → Bool
  is_write_locked value = locks.is_write_locked value

  unfoldable pub flush_lock : State → Bool × State
  unfolding unless
  flush_lock = unless (not store.flush_each_write) locks.lock_shared

  -- The result of the virtual `flush` is given.
  unfoldable pub flush_unlock : Bool → State → Bool × State
  unfolding and_then unless check
  flush_unlock flushed =
      unless (not store.flush_each_write) (and_then (check (λ s. flushed)) locks.unlock_shared)

  unfoldable pub begin_write : State → Bool × State
  unfolding and_then
  begin_write = and_then flush_lock locks.begin_write

  unfoldable pub end_write : Bool → State → Bool × State
  unfolding and_then
  end_write flushed = and_then locks.end_write (flush_unlock flushed)
