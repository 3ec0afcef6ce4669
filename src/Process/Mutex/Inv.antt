-- ===== src/Process/Mutex/Inv.antt =====
-- The invariant of a mutex together with the scheduler's.
use skhuos.Common.{
  ℕ, ◌+◌, ◌<◌, ◌%◌, ◌≡◌, ◌≢◌, inl, inr, refl, ◌^◌, true, false, Option, none, some, List, [], ◌∷◌,
  ◌++◌, ◌==◌, has, distinct, arith, has-append, distinct-snoc, Bool-cases, ap, ==_iff,
}
use skhuos.LinkedList.Spec
use skhuos.LinkedList.Spec.{has_of_remove}
use skhuos.Process.{Kernel, Context, blocked, state_of, set_if}
use skhuos.Process.Switch.{block_running_process, wakeup_process, wakeup}
use skhuos.Process.Inv.{IsValid}
use skhuos.Process.Leave.{block_running_process-IsValid, state-block_running_process}
use skhuos.Process.Timer.{wakeup-IsValid}
use skhuos.Process.Mutex.{
  Mutex, owned_by, is_free, acquire_lock, release_lock, release_owned, hand_over, dec_word,
}

-- A free mutex has count 0 and no process waits for it; an owned one has a count of 1 to 65535. The
-- processes that wait are BLOCKED, wait once, have a slot, and are not on the sleep list.
pub record Holds (m : Mutex) (s : Kernel) : Type 0 where
  pub free_idle : m.pid ≡ none → (m.count ≡ 0) × (m.wait_list ≡ [])
  pub owned_count : m.pid ≢ none → (0 < m.count) × (m.count < 2 ^ 16)
  pub waiters_blocked : (p : ℕ) → has p m.wait_list ≡ true → state_of s p ≡ blocked
  pub waiters_taken : (p : ℕ) → has p m.wait_list ≡ true → s.alloc_process_table p ≡ true
  pub waiters_distinct : distinct m.wait_list ≡ true
  pub waiters_awake : (p : ℕ) → has p m.wait_list ≡ true → has p s.sleep_list ≡ false

pub record MutexIsValid (m : Mutex) (s : Kernel) : Type 0 where
  pub kernel : IsValid s
  pub mutex : Holds m s

-- The waiters of a mutex over a change of the kernel's state that keeps what the invariant reads of them.
module _ (m : Mutex) (s : Kernel) (i : IsValid s) (h : Holds m s)
    (ni : s.running_process ≢ s.idle_process) where
  not_waiting : has s.running_process m.wait_list ≡ false
  not_waiting = ground (arith, h.waiters_blocked s.running_process, i.running_state)

  -- The running process comes to wait for the mutex.
  wait_lem :
      m.pid ≢ none
      → Holds
          (record m { wait_list = m.wait_list ++ (s.running_process ∷ []) })
          (block_running_process s)
  unfolding block_running_process
  wait_lem owned = record {
    free_idle = λ e. absurd (owned e);
    owned_count = h.owned_count;
    waiters_blocked = λ p w. ground (
      arith,
      h.waiters_blocked p,
      has-append p m.wait_list (s.running_process ∷ []),
      state-block_running_process s p i ni,
    );
    waiters_taken = λ p w. ground (
      arith,
      h.waiters_taken p,
      has-append p m.wait_list (s.running_process ∷ []),
      i.slots.running_taken,
    );
    waiters_distinct = distinct-snoc m.wait_list s.running_process h.waiters_distinct not_waiting;
    waiters_awake = λ p w. ground (
      arith,
      h.waiters_awake p,
      has-append p m.wait_list (s.running_process ∷ []),
      i.lists.sleep_state p,
      i.running_state,
    );
  }

-- The owner hands the mutex over to the first of `l`, if there is one.
hand_over_lem :
    (l : List ℕ) (m : Mutex) (s : Kernel)
    → m.wait_list ≡ l
    → IsValid s
    → Holds m s
    → (k : ℕ) → k ≡ 0
    → let (m', s') = hand_over (Spec.head_remove l) (record m { count = k }) s in
      IsValid s' × Holds m' s'
unfolding hand_over wakeup_process
hand_over_lem [] m s e i h k z = (
  i,
  record {
    free_idle = λ _. (z, refl);
    owned_count = λ n. absurd (n refl);
    waiters_blocked = λ p w. cc;
    waiters_taken = λ p w. cc;
    waiters_distinct = refl;
    waiters_awake = λ p w. cc;
  },
)
hand_over_lem (w ∷ ws) m s e i h k z = (
  wakeup-IsValid w s i (h.waiters_taken w (rw e (ground arith))),
  unfold wakeup in
      record {
        free_idle = λ e. cc;
        owned_count = λ n. omega arith;
        waiters_blocked =
            λ p b. ground (arith, h.waiters_blocked p, h.waiters_blocked w, h.waiters_distinct);
        waiters_taken = λ p b. ground (arith, h.waiters_taken p);
        waiters_distinct = ground (arith, h.waiters_distinct);
        waiters_awake = λ p b.
            ground (arith, h.waiters_awake p, h.waiters_blocked w, has_of_remove s.sleep_list w p);
      },
)

owner_lem : (o : Option ℕ) (p : ℕ) → owned_by o p ≡ true → o ≡ some p
owner_lem none p h = cc
owner_lem (some q) p h = ap some ((==_iff q p).0 h)

free_lem : (o : Option ℕ) → is_free o ≡ true → o ≡ none
free_lem none h = refl
free_lem (some q) h = cc

taken_lem : (o : Option ℕ) → is_free o ≡ false → o ≢ none
taken_lem none h e = cc
taken_lem (some q) h e = cc

-- The mutex does not depend on the registers.
keep_flag : {m : Mutex} {s : Kernel} {c : Context} → Holds m s → Holds m (record s { cpu = c })
keep_flag h = record {
  free_idle = h.free_idle;
  owned_count = h.owned_count;
  waiters_blocked = h.waiters_blocked;
  waiters_taken = h.waiters_taken;
  waiters_distinct = h.waiters_distinct;
  waiters_awake = h.waiters_awake;
}

module _ (m : Mutex) (s : Kernel) (v : MutexIsValid m s) where
  acquire_owned :
      (p : ℕ)
      → m.pid ≡ some p
      → m.count < 65535
      → Holds (record m { count = (m.count + 1) % 2 ^ 16 }) s
  acquire_owned p e b =
      let h = v.mutex in
      record {
        free_idle = λ f. cc;
        owned_count = λ n. omega (arith, h.owned_count n);
        waiters_blocked = h.waiters_blocked;
        waiters_taken = h.waiters_taken;
        waiters_distinct = h.waiters_distinct;
        waiters_awake = h.waiters_awake;
      }

  acquire_free : m.pid ≡ none → (p : ℕ) → Holds (record m { pid = some p; count = 1 }) s
  acquire_free e p =
      let h = v.mutex in
      record {
        free_idle = λ f. cc;
        owned_count = λ n. omega arith;
        waiters_blocked = h.waiters_blocked;
        waiters_taken = h.waiters_taken;
        waiters_distinct = h.waiters_distinct;
        waiters_awake = h.waiters_awake;
      }

-- `acquireLock` keeps the invariant of the mutex and the scheduler, if the running process is not the idle
-- one and a nested acquisition does not bring the count to 65536.
pub acquire_lock-MutexIsValid :
    (m : Mutex) (s : Kernel)
    → MutexIsValid m s
    → s.running_process ≢ s.idle_process
    → m.count < 65535
    → MutexIsValid (acquire_lock m s).0 (acquire_lock m s).1
unfolding acquire_lock set_if
acquire_lock-MutexIsValid m s v ni b = elim (Bool-cases (owned_by m.pid s.running_process)) [
  | inl own ↦ rw own (record {
    kernel = v.kernel;
    mutex =
        keep_flag (acquire_owned m s v s.running_process (owner_lem m.pid s.running_process own) b);
  })
  | inr other ↦ elim (Bool-cases (is_free m.pid)) [
    | inl free ↦
        rw (other, free)
          (record {
            kernel = v.kernel;
            mutex = keep_flag (acquire_free m s v (free_lem m.pid free) s.running_process);
          })
    | inr taken ↦
        rw (other, taken)
          (record {
            kernel = block_running_process-IsValid (set_if false s).1 v.kernel ni;
            mutex =
                wait_lem m (set_if false s).1 v.kernel (keep_flag v.mutex) ni
                  (λ e. taken_lem m.pid taken e);
          })
  ]
]

release_owned_lem :
    (m : Mutex) (s : Kernel)
    → IsValid s
    → Holds m s
    → m.pid ≢ none
    → let (m', s') = release_owned m s in IsValid s' × Holds m' s'
unfolding release_owned
release_owned_lem m s i h own = elim (Bool-cases (dec_word m.count == 0)) [
  | inl last ↦
      rw last (hand_over_lem m.wait_list m s refl i h (dec_word m.count) ((==_iff _ 0).0 last))
  | inr more ↦ rw more (
    i,
    record {
      free_idle = λ e. absurd (own e);
      owned_count = λ n. ground (arith, h.owned_count n);
      waiters_blocked = h.waiters_blocked;
      waiters_taken = h.waiters_taken;
      waiters_distinct = h.waiters_distinct;
      waiters_awake = h.waiters_awake;
    },
  )
]

-- `releaseLock` keeps the invariant of the mutex and the scheduler, on every branch.
pub release_lock-MutexIsValid :
    (m : Mutex) (s : Kernel)
    → MutexIsValid m s
    → MutexIsValid (release_lock m s).0 (release_lock m s).1
unfolding release_lock set_if
release_lock-MutexIsValid m s v = elim (Bool-cases (owned_by m.pid s.running_process)) [
  | inl own ↦ rw own (
      let e' = owner_lem m.pid s.running_process own in
      let r = release_owned_lem m (set_if false s).1 v.kernel (keep_flag v.mutex) (λ e. cc) in
      record { kernel = r.0; mutex = keep_flag r.1 })
  | inr other ↦ rw other (record { kernel = v.kernel; mutex = keep_flag v.mutex })
]
