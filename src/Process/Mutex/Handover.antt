-- ===== src/Process/Mutex/Handover.antt =====
-- What a mutex of kernel/proc/Sync.c promises: exclusion, nesting, and hand-over in order of arrival.
use skhuos.Common.{
  ℕ, ◌+◌, ◌<◌, ◌%◌, ◌^◌, ◌≡◌, ◌≢◌, ◌⊎◌, inl, inr, refl, true, false, none, some, List, [], ◌∷◌,
  ◌++◌, ◌==◌, arith, eq→==,
}
use mathlib.Core.Path.{subst}
use skhuos.Process.{Kernel, ready, running, blocked, state_of, set_if}
use skhuos.Process.Switch.{block_running_process, wakeup_process, wakeup, is_blocked}
use skhuos.Process.Inv.{IsValid}
use skhuos.Process.Leave.{block_running_process-IsValid, state-block_running_process}
use skhuos.Process.Mutex.{
  Mutex, owned_by, is_free, acquire_lock, release_lock, release_owned, hand_over, dec_word,
}
use skhuos.Process.Mutex.Inv.{MutexIsValid}

-- While `p` owns the mutex, another process that calls `acquireLock` does not get it: owner and count stay,
-- the caller is the last one to wait, is BLOCKED, and no longer runs.
pub acquire_lock-excludes :
    (m : Mutex) (s : Kernel) (p : ℕ)
    → IsValid s
    → s.running_process ≢ s.idle_process
    → m.pid ≡ some p
    → p ≢ s.running_process
    → let (m', s') = acquire_lock m s in
      (m'.pid ≡ some p)
      × (m'.count ≡ m.count)
      × (m'.wait_list ≡ m.wait_list ++ (s.running_process ∷ []))
      × (state_of s' s.running_process ≡ blocked)
      × (s'.running_process ≢ s.running_process)
unfolding acquire_lock set_if
acquire_lock-excludes m s p i ni e other =
    rw (not_owner, not_free) (e, refl, refl, stays, λ same. clash (same))
  where
    not_owner : owned_by m.pid s.running_process ≡ false
    not_owner = rw e (ground arith)

    not_free : is_free m.pid ≡ false
    not_free = rw e refl

    s₁ : Kernel
    s₁ = (set_if false s).1

    stays : state_of (block_running_process s₁) s.running_process ≡ blocked
    stays = rw (state-block_running_process s₁ s.running_process i ni (inl refl)) (ground arith)

    clash : (block_running_process s₁).running_process ≡ s.running_process → ⊥
    clash same =
        let r = (block_running_process-IsValid s₁ i ni).running_state in
        let r' = subst (λ q. state_of (block_running_process s₁) q ≡ running) same r in
        cc (r', stays)

-- A mutex that `p` owns with the count `n`, while `ws` wait for it.
abbrev pub held : ℕ → ℕ → List ℕ → Mutex
held p n ws = record { pid = some p; count = n; wait_list = ws }

-- The running process owns the mutex with a count of 1 and releases it while `w` is the first to wait: `w`
-- owns it at once with a count of 1 and the others wait on, so that no later comer can take it; `w` is READY
-- and last on the ready list.
pub release_lock-hands_over :
    (s : Kernel) (w : ℕ) (ws : List ℕ)
    → MutexIsValid (held s.running_process 1 (w ∷ ws)) s
    → let (m', s') = release_lock (held s.running_process 1 (w ∷ ws)) s in
      (m' ≡ held w 1 ws) × (state_of s' w ≡ ready) × (s'.process_list ≡ s.process_list ++ (w ∷ []))
unfolding release_lock release_owned hand_over set_if wakeup_process wakeup
release_lock-hands_over s w ws v =
    rw (eq→== s.running_process s.running_process refl, is_waiting) (refl, ground arith, refl)
  where
    is_waiting : is_blocked (state_of s w) ≡ true
    is_waiting = ground (arith, v.mutex.waiters_blocked w)

-- `acquireLock` and then `releaseLock` by a process that owns the mutex, or that finds it free, leave the
-- mutex as it was, if the count is below 65535.
pub release_lock-acquire_lock :
    (m : Mutex) (s : Kernel)
    → MutexIsValid m s
    → m.count < 65535
    → (m.pid ≡ some s.running_process) ⊎ (m.pid ≡ none)
    → let (m₁, s₁) = acquire_lock m s in (release_lock m₁ s₁).0 ≡ m
unfolding acquire_lock release_lock release_owned hand_over set_if
release_lock-acquire_lock m s v b (inl own) =
    let o : owned_by m.pid s.running_process ≡ true = rw own (ground arith) in
    let pos : (0 < m.count) × (m.count < 2 ^ 16) = v.mutex.owned_count (λ e. cc) in
    let back : dec_word ((m.count + 1) % 2 ^ 16) ≡ m.count = omega arith in
    let more : (m.count == 0) ≡ false = ground arith in rw (o, o, back, more) refl
release_lock-acquire_lock m s v b (inr free) =
    let e : m ≡ record { pid = none; count = 0; wait_list = [] } =
      ground (arith, v.mutex.free_idle free) in
    rw e (rw (eq→== s.running_process s.running_process refl) refl)
