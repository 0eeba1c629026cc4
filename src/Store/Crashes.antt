-- ===== src/Store/Crashes.antt =====
-- Runs of src/store.cpp over the lives of several processes, and what opening a store detects.
use bitprim_database.Prelude.{
  ◌≡◌, ◌∙◌, refl, sym, ap, inl, inr, Bool, true, false, not, ◌&&◌, ◌||◌, if◌then◌else◌, Bool-cases,
}
use bitprim_database.Store.{
  Locks, Store, and_then, unless, check, open_store, close_store, flush_lock, flush_unlock,
  begin_write, end_write,
}

pub data Phase : Type 0 where
  shut opened writing : Phase

module _ {State : Type 0} (locks : Locks State) (store : Store) where
  -- The states that processes reach, one after the other, from a directory without the file of the
  -- flush lock. The Boolean says whether a process that ended here would leave writes behind that
  -- it has not flushed: in a write, or with a store open that does not flush each write.
  pub data Reach : Phase → Bool → State → Type 0 where
    starts : (s : State) → locks.has_file s ≡ false → Reach shut false s
    opens :
        (d : Bool) (s : State)
        → Reach shut d s
        → (open_store locks store s).0 ≡ true
        → Reach opened (not store.flush_each_write) (open_store locks store s).1
    refuses :
        (d : Bool) (s : State)
        → Reach shut d s
        → (open_store locks store s).0 ≡ false
        → Reach shut d (open_store locks store s).1
    begins :
        (s : State)
        → Reach opened (not store.flush_each_write) s
        → (begin_write locks store s).0 ≡ true
        → Reach writing true (begin_write locks store s).1
    finishes :
        (flushed : Bool) (s : State)
        → Reach writing true s
        → (end_write locks store flushed s).0 ≡ true
        → Reach opened (not store.flush_each_write) (end_write locks store flushed s).1
    fails :
        (flushed : Bool) (s : State)
        → Reach writing true s
        → (end_write locks store flushed s).0 ≡ false
        → Reach writing true (end_write locks store flushed s).1
    closes :
        (s : State)
        → Reach opened (not store.flush_each_write) s
        → (close_store locks store s).0 ≡ true
        → Reach shut false (close_store locks store s).1
    dies : (phase : Phase) (d : Bool) (s : State) → Reach phase d s → Reach shut d (locks.ended s)

  -- What each operation does to the file of the flush lock.
  shared-file :
      (skip : Bool) (s : State)
      → let (done, s') = unless skip locks.lock_shared s in
        locks.has_file s' ≡ (if done then not skip || locks.has_file s else locks.has_file s)
  unfolding unless
  shared-file true s = refl
  shared-file false s = locks.lock_shared-file s ∙ or_if (locks.lock_shared s).0 (locks.has_file s)
    where
      or_if : (b c : Bool) → (b || c) ≡ (if b then true else c)
      or_if true c = refl
      or_if false c = refl

  unshared-file :
      (skip : Bool) (s : State)
      → let (done, s') = unless skip locks.unlock_shared s in
        locks.has_file s' ≡ (if done then skip && locks.has_file s else locks.has_file s)
  unfolding unless
  unshared-file true s = refl
  unshared-file false s =
      locks.unlock_shared-file s ∙ and_if (locks.unlock_shared s).0 (locks.has_file s)
    where
      and_if : (b c : Bool) → (not b && c) ≡ (if b then false else c)
      and_if true c = refl
      and_if false c = refl

  open_store-file :
      (s : State)
      → let (done, s') = open_store locks store s in
        (locks.has_file s'
          ≡ (if done then not store.flush_each_write || locks.has_file s else locks.has_file s))
        × (done ≡ true → locks.has_file s ≡ false)
  unfolding open_store and_then check
  open_store-file s = elim (Bool-cases (locks.lock s).0) [
    | inr no' ↦ rw no' (locks.lock-file s, λ e. cc)
    | inl yes' ↦
        let s₁ = (locks.lock s).1 in
        let same = locks.lock-file s in
        elim (Bool-cases (locks.has_file s)) [
          | inl file ↦
              let there = same ∙ file in
              rw (yes', locks.try_lock-file s₁, there) (there ∙ sym file, λ e. cc)
          | inr none ↦
              let there = same ∙ none in
              let shared = shared-file store.flush_each_write s₁ in
              rw (yes', locks.try_lock-file s₁, there, none) (rw there at shared, λ e. refl)
        ]
  ]

  close_store-file :
      (s : State)
      → (close_store locks store s).0 ≡ true
      → locks.has_file (close_store locks store s).1 ≡ (store.flush_each_write && locks.has_file s)
  unfolding close_store and_then
  close_store-file s done =
      let unshared = unshared-file store.flush_each_write s in
      elim (Bool-cases (unless store.flush_each_write locks.unlock_shared s).0) [
        | inr no' ↦ cc (rw no' at done)
        | inl yes' ↦ rw yes' (
            locks.unlock-file (unless store.flush_each_write locks.unlock_shared s).1
            ∙ rw yes' at unshared)
      ]

  begin_write-file :
      (s : State)
      → (begin_write locks store s).0 ≡ true
      → locks.has_file (begin_write locks store s).1 ≡ (store.flush_each_write || locks.has_file s)
  unfolding begin_write flush_lock and_then
  begin_write-file s done =
      let shared = shared-file (not store.flush_each_write) s in
      elim (Bool-cases (unless (not store.flush_each_write) locks.lock_shared s).0) [
        | inr no' ↦ cc (rw no' at done)
        | inl yes' ↦ rw yes' (
            locks.begin_write-file (unless (not store.flush_each_write) locks.lock_shared s).1
            ∙ rw yes' at shared
            ∙ ap (λ b. b || locks.has_file s) (not_not store.flush_each_write))
      ]
    where
      not_not : (b : Bool) → not (not b) ≡ b
      not_not true = refl
      not_not false = refl

  flush_unlock-file :
      (each flushed : Bool) (s : State)
      → let (done, s') =
          unless (not each) (and_then (check (λ s. flushed)) locks.unlock_shared) s in
        locks.has_file s' ≡ (if done then not each && locks.has_file s else locks.has_file s)
  unfolding unless and_then check
  flush_unlock-file false flushed s = refl
  flush_unlock-file true false s = refl
  flush_unlock-file true true s = unshared-file false s

  end_write-file :
      (flushed : Bool) (s : State)
      → let (done, s') = end_write locks store flushed s in
        locks.has_file s'
        ≡ (if done then not store.flush_each_write && locks.has_file s else locks.has_file s)
  unfolding end_write flush_unlock and_then
  end_write-file flushed s = elim (Bool-cases (locks.end_write s).0) [
    | inr no' ↦ rw no' (locks.end_write-file s)
    | inl yes' ↦
        let after = flush_unlock-file store.flush_each_write flushed (locks.end_write s).1 in
        rw yes' (rw (locks.end_write-file s) at after)
  ]

  -- The file tells of what has not been flushed.
  Reach-file : {phase : Phase} {d : Bool} {s : State} → Reach phase d s → locks.has_file s ≡ d
  Reach-file (starts s f) = f
  Reach-file (opens d s r done) =
      let (file, none) = open_store-file s in
      rw done at file
      ∙ ap (λ b. not store.flush_each_write || b) (none done)
      ∙ or_false (not store.flush_each_write)
    where
      or_false : (b : Bool) → (b || false) ≡ b
      or_false true = refl
      or_false false = refl
  Reach-file (refuses d s r failed) = rw failed at (open_store-file s).0 ∙ Reach-file r
  Reach-file (begins s r done) =
      begin_write-file s done
      ∙ ap (λ b. store.flush_each_write || b) (Reach-file r)
      ∙ excluded store.flush_each_write
    where
      excluded : (b : Bool) → (b || not b) ≡ true
      excluded true = refl
      excluded false = refl
  Reach-file (finishes flushed s r done) =
      rw done at (end_write-file flushed s)
      ∙ ap (λ b. not store.flush_each_write && b) (Reach-file r)
      ∙ and_true (not store.flush_each_write)
    where
      and_true : (b : Bool) → (b && true) ≡ b
      and_true true = refl
      and_true false = refl
  Reach-file (fails flushed s r failed) = rw failed at (end_write-file flushed s) ∙ Reach-file r
  Reach-file (closes s r done) =
      close_store-file s done
      ∙ ap (λ b. store.flush_each_write && b) (Reach-file r)
      ∙ contradicted store.flush_each_write
    where
      contradicted : (b : Bool) → (b && not b) ≡ false
      contradicted true = refl
      contradicted false = refl
  Reach-file (dies phase d s r) = locks.ended-file s ∙ Reach-file r

  -- Where a process has ended within a write, or with a store open that does not flush each write,
  -- no later process opens the store.
  pub open_store-detects : (s : State) → Reach shut true s → (open_store locks store s).0 ≡ false
  open_store-detects s r = elim (Bool-cases (open_store locks store s).0) [
    | inl done ↦ cc (Reach-file r, (open_store-file s).1 done)
    | inr refused ↦ refused
  ]

  -- Where no process has left writes behind that are not flushed, because the last one closed the
  -- store or ended between writes that it flushed, a process that gets the lock against others and
  -- makes the file of the flush lock opens the store.
  pub open_store-succeeds :
      (s : State)
      → Reach shut false s
      → (locks.lock s).0 ≡ true
      → ((s' : State) → (locks.lock_shared s').0 ≡ true)
      → (open_store locks store s).0 ≡ true
  unfolding open_store and_then unless check
  open_store-succeeds s r locked shared =
      let none = locks.lock-file s ∙ Reach-file r in
      rw (locked, locks.try_lock-file (locks.lock s).1, none)
        (elim (Bool-cases store.flush_each_write) [
          | inl each ↦ rw each
          | inr open' ↦ rw open' (shared (locks.lock s).1)
        ])
