-- ===== src/Tests/Locks.antt =====
-- The theorems on the mutex at concrete states.
use skhuos.Common.{◌≡◌, ◌≢◌, inl, refl, true, some, [], ◌∷◌, arith, ◌==◌, if◌then◌else◌}
use skhuos.Process.{Kernel, ready, running, blocked, state_of}
use skhuos.Process.Inv.{IsValid}
use skhuos.Process.Mutex.{acquire_lock, release_lock}
use skhuos.Process.Mutex.Inv.{MutexIsValid, acquire_lock-MutexIsValid, release_lock-MutexIsValid}
use skhuos.Process.Mutex.Handover.{
  held, acquire_lock-excludes, release_lock-hands_over, release_lock-acquire_lock,
}
use skhuos.Tests.Scheduler.{booted, booted-IsValid, blank}

-- Process 3 waits for the mutex that the running shell owns.
abbrev waited : Kernel
waited = record booted {
  pcbs = λ q. blank (if q == 0 then running else if q == 3 then blocked else ready);
  alloc_process_table = λ q. if q == 3 then true else booted.alloc_process_table q;
}

waited-IsValid : IsValid waited
waited-IsValid = record {
  lists = record {
    ready_state = λ p h. ground arith;
    sleep_state = λ p h. cc;
    ready_distinct = refl;
    sleep_distinct = refl;
    ready_taken = λ p h. ground arith;
    sleep_taken = λ p h. cc;
    idle_out = refl;
    ready_listed = λ p t r n. ground arith;
  };
  slots = record {
    idle_state = inl refl;
    one_running = λ p t r. ground arith;
    running_taken = refl;
    idle_taken = refl;
    zero_taken = refl;
    collector_alive = λ c h. ground arith;
  };
  exits = record {
    exit_distinct = refl;
    exit_state = λ p h. cc;
    exit_taken = λ p h. cc;
    exit_ne_zero = λ p h. cc;
  };
  running_state = refl;
}

waited-MutexIsValid : MutexIsValid (held 0 1 (3 ∷ [])) waited
waited-MutexIsValid = record {
  kernel = waited-IsValid;
  mutex = record {
    free_idle = λ e. cc;
    owned_count = λ n. omega arith;
    waiters_blocked = λ p h. ground arith;
    waiters_taken = λ p h. ground arith;
    waiters_distinct = refl;
    waiters_awake = λ p h. refl;
  };
}

acquire_lock-MutexIsValid_example :
    let (m', s') = acquire_lock (held 0 1 (3 ∷ [])) waited in MutexIsValid m' s'
acquire_lock-MutexIsValid_example =
    acquire_lock-MutexIsValid (held 0 1 (3 ∷ [])) waited waited-MutexIsValid (λ e. cc) (omega arith)

release_lock-MutexIsValid_example :
    let (m', s') = release_lock (held 0 1 (3 ∷ [])) waited in MutexIsValid m' s'
release_lock-MutexIsValid_example =
    release_lock-MutexIsValid (held 0 1 (3 ∷ [])) waited waited-MutexIsValid

acquire_lock-excludes_example :
    let (m', s') = acquire_lock (held 5 1 []) booted in
    (m'.pid ≡ some 5)
    × (m'.count ≡ 1)
    × (m'.wait_list ≡ 0 ∷ [])
    × (state_of s' 0 ≡ blocked)
    × (s'.running_process ≢ 0)
acquire_lock-excludes_example =
    acquire_lock-excludes (held 5 1 []) booted 5 booted-IsValid (λ e. cc) refl (λ e. cc)

release_lock-hands_over_example :
    let (m', s') = release_lock (held 0 1 (3 ∷ [])) waited in
    (m' ≡ held 3 1 []) × (state_of s' 3 ≡ ready) × (s'.process_list ≡ 1 ∷ 3 ∷ [])
release_lock-hands_over_example = release_lock-hands_over waited 3 [] waited-MutexIsValid

release_lock-acquire_lock_example :
    let (m₁, s₁) = acquire_lock (held 0 1 (3 ∷ [])) waited in
    (release_lock m₁ s₁).0 ≡ held 0 1 (3 ∷ [])
release_lock-acquire_lock_example =
    release_lock-acquire_lock (held 0 1 (3 ∷ [])) waited waited-MutexIsValid (omega arith)
      (inl refl)
