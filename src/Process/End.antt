-- ===== src/Process/End.antt =====
-- kernel/proc/Process.c: ending a process and collecting its slot keep the invariant.
use skhuos.Common.{
  ℕ, ◌≡◌, ◌≢◌, ◌⊎◌, inl, inr, refl, false, Option, none, some, List, [], ◌∷◌, ◌++◌, arith,
  Bool-cases, Bool, true, sym, ◌∙◌, ◌==◌, if◌then◌else◌,
}
use skhuos.LinkedList.Spec
use skhuos.Queue.Spec as Queue
use skhuos.Process.{Kernel, ready, running, exited, state_of, set_state, set_if}
use skhuos.Process.Switch.{is_blocked, schedule_blocked, wakeup, wakeup_process}
use skhuos.Process.Exit.{exit_process, end_process, free_slot, collect, collector_round}
use skhuos.Process.Inv.{IsValid, Lists, Slots, Exits, view}
use skhuos.Process.Inv.Wake.{wake-Valid}
use skhuos.Process.Inv.Slot.{end_lem, free-Valid}
use skhuos.Process.Leave.{
  schedule_blocked-IsValid, block_running_process-IsValid, waiting-schedule_blocked,
  state-schedule_blocked, next_of,
}

-- Giving back the first slot of the exit queue keeps the invariant.
collect-IsValid :
    (pre_if : Bool) (l : List ℕ) (s : Kernel)
    → s.exit_process_queue ≡ l
    → IsValid s
    → s.running_process ≢ s.idle_process
    → IsValid (collect pre_if l s)
unfolding collect set_if
collect-IsValid pre_if [] s e i ni = block_running_process-IsValid s i ni
collect-IsValid pre_if (p ∷ rest) s e i ni =
    unfold free_slot in
    free-Valid (view s) p rest _ i e (λ q. (λ e. ground arith, λ n. ground arith))

-- A round of the collector keeps the invariant, if the running process is not the idle one.
pub collector_round-IsValid :
    (s : Kernel) → IsValid s → s.running_process ≢ s.idle_process → IsValid (collector_round s)
unfolding collector_round set_if
collector_round-IsValid s i ni =
    collect-IsValid (set_if false s).0 s.exit_process_queue (set_if false s).1 refl i ni

push_cases :
    (cap p : ℕ) (xs : List ℕ)
    → ((Queue.push cap xs p).0 ≡ xs) ⊎ ((Queue.push cap xs p).0 ≡ xs ++ (p ∷ []))
push_cases cap p xs = ground arith

abbrev queued : Kernel → Kernel
queued s = record s {
  exit_process_queue = (Queue.push 99 s.exit_process_queue s.running_process).0;
}

-- The state after `wakeupProcess` has woken a process.
abbrev woke : Kernel → ℕ → Kernel
woke s c =
    let s₁ = set_state (record s { sleep_list = Spec.remove s.sleep_list c }) c ready in
    record s₁ { process_list = Spec.insert s₁.process_list c }

module _ (s : Kernel) (i : IsValid s) (ni : s.running_process ≢ s.idle_process)
    (nz : s.running_process ≢ 0) (nc : s.collector_process ≢ some s.running_process) where
  -- The lists, the slots and the exit queue before the switch, if no process is woken, and if the collector is.
  alone_lem :
      let s' = set_state (queued s) s.running_process exited in
      Lists (view s') × Slots (view s') × Exits (view s')
  alone_lem =
      end_lem (view s) _ _ i ni nz nc (λ q. (λ e. ground arith, λ n. ground arith))
        (push_cases 99 s.running_process s.exit_process_queue)

  woke_lem :
      (c : ℕ)
      → s.collector_process ≡ some c
      → is_blocked (state_of s c) ≡ true
      → let s' = set_state (queued (woke s c)) s.running_process exited in
        Lists (view s') × Slots (view s') × Exits (view s')
  woke_lem c e b =
      let w = woke s c in
      let t = (i.slots.collector_alive c e).0 in
      end_lem (view w) _ _
        (wake-Valid (view s) c (λ p. state_of w p) (ground arith) t
          (λ q. (λ e. ground arith, λ n. ground arith)) i)
        ni nz nc (λ q. (λ e. ground arith, λ n. ground arith))
        (push_cases 99 s.running_process s.exit_process_queue)

  end_process-IsValid : (o : Option ℕ) → s.collector_process ≡ o → IsValid (end_process o s)
  unfolding end_process
  end_process-IsValid none e =
      schedule_blocked-IsValid (set_state (queued s) s.running_process exited) alone_lem
        (inr (ground arith))
  end_process-IsValid (some c) e = elim (Bool-cases (is_blocked (state_of s c))) [
    | inl b ↦ rw b (
        schedule_blocked-IsValid (set_state (queued (woke s c)) s.running_process exited)
          (woke_lem c e b) (inr (ground arith)))
    | inr n ↦ rw n (
        schedule_blocked-IsValid (set_state (queued s) s.running_process exited) alone_lem
          (inr (ground arith)))
  ]

  -- A process that has ended stays so over the switch.
  exited-switch :
      (s' : Kernel)
      → Lists (view s') × Slots (view s') × Exits (view s')
      → state_of s' s.running_process ≡ exited
      → state_of (schedule_blocked s') s.running_process ≡ exited
  exited-switch s' (l, sl, x) e = waiting-schedule_blocked s' s.running_process l sl (inr e) ∙ e

  state-end_process :
      (o : Option ℕ)
      → s.collector_process ≡ o
      → state_of (end_process o s) s.running_process ≡ exited
  unfolding end_process
  state-end_process none e =
      exited-switch (set_state (queued s) s.running_process exited) alone_lem (ground arith)
  state-end_process (some c) e = elim (Bool-cases (is_blocked (state_of s c))) [
    | inl b ↦ rw b (
        exited-switch (set_state (queued (woke s c)) s.running_process exited) (woke_lem c e b)
          (ground arith))
    | inr n ↦
        rw n
          (exited-switch (set_state (queued s) s.running_process exited) alone_lem (ground arith))
  ]

-- `exitProcess` keeps the invariant, if the running process is neither the idle process, the shell nor the
-- collector.
pub exit_process-IsValid :
    (s : Kernel)
    → IsValid s
    → s.running_process ≢ s.idle_process
    → s.running_process ≢ 0
    → s.collector_process ≢ some s.running_process
    → IsValid (exit_process s)
unfolding exit_process set_if
exit_process-IsValid s i ni nz nc =
    end_process-IsValid (set_if false s).1 i ni nz nc s.collector_process refl

-- The switch makes no process EXITED.
exited-schedule_blocked :
    (s : Kernel) (q : ℕ) → state_of (schedule_blocked s) q ≡ exited → state_of s q ≡ exited
exited-schedule_blocked s q e = go (q == next_of s) (sym (state-schedule_blocked s q) ∙ e)
  where
    go : (b : Bool) → (if b then running else state_of s q) ≡ exited → state_of s q ≡ exited
    go true h = absurd (cc)
    go false h = h

exited-wakeup_process :
    (o : Option ℕ) (s : Kernel) (q : ℕ)
    → state_of (wakeup_process o s).1 q ≡ exited
    → state_of s q ≡ exited
unfolding wakeup_process wakeup
exited-wakeup_process none s q e = e
exited-wakeup_process (some c) s q e = ground arith

-- No other process is EXITED behind `exitProcess` that was not before.
others-end_process :
    (o : Option ℕ) (s : Kernel) (q : ℕ)
    → q ≢ s.running_process
    → state_of (end_process o s) q ≡ exited
    → state_of s q ≡ exited
unfolding end_process
others-end_process o s q n e =
    let woken = (wakeup_process o (queued s)).1 in
    let before = exited-schedule_blocked (set_state woken s.running_process exited) q e in
    let other : (q == s.running_process) ≡ false = ground arith in
    exited-wakeup_process o (queued s) q (go (q == s.running_process) woken other before)
  where
    go :
        (b : Bool) (t : Kernel)
        → b ≡ false
        → (if b then record (t.pcbs s.running_process) { state = exited } else t.pcbs q).state
          ≡ exited
        → state_of t q ≡ exited
    go true t h x = absurd (cc)
    go false t h x = x

-- `exitProcess` makes the running process EXITED and no other one.
pub state-exit_process :
    (s : Kernel)
    → IsValid s
    → s.running_process ≢ s.idle_process
    → s.running_process ≢ 0
    → s.collector_process ≢ some s.running_process
    → (state_of (exit_process s) s.running_process ≡ exited)
      × ((q : ℕ)
          → q ≢ s.running_process
          → state_of (exit_process s) q ≡ exited
          → state_of s q ≡ exited)
unfolding exit_process set_if
state-exit_process s i ni nz nc = (
  state-end_process (set_if false s).1 i ni nz nc s.collector_process refl,
  λ q n e. others-end_process s.collector_process (set_if false s).1 q n e,
)
