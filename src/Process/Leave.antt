-- ===== src/Process/Leave.antt =====
-- kernel/proc/Process.c: the functions by which a process leaves the processor keep the invariant.
use skhuos.Common.{
  ℕ, ◌≡◌, ◌≢◌, ◌⊎◌, inl, inr, refl, false, none, some, List, [], ◌∷◌, ◌++◌, ◌==◌, arith,
  if◌then◌else◌,
}
use skhuos.LinkedList.Spec
use skhuos.Process.{Kernel, running, blocked, state_of, set_state, set_pcb, set_if}
use skhuos.Process.Switch.{
  or_idle, switch_blocked, schedule_blocked, block_running_process, sleep_until_tick, sleep_process,
  sleep_deadline,
}
use skhuos.Process.Inv.{Lists, Slots, Exits, IsValid, view}
use skhuos.Process.Inv.Dispatch.{Gone, dispatch-Valid, idle-Valid}
use skhuos.Process.Inv.Wake.{stop_lem}

-- The switch away from a process that waits or has ended, whatever the ready list holds.
switch_blocked-IsValid :
    (s : Kernel) (l : List ℕ)
    → s.process_list ≡ l
    → Lists (view s)
    → Slots (view s)
    → Exits (view s)
    → Gone (state_of s s.running_process)
    → IsValid (switch_blocked (Spec.head_remove l) s)
unfolding switch_blocked
switch_blocked-IsValid s [] e ls sl ex g =
    idle-Valid (view s) (λ p. state_of (switch_blocked (none, []) s) p) e
      (λ q. (λ e. ground arith, λ n. ground arith)) ls sl ex g
switch_blocked-IsValid s (next ∷ rest) e ls sl ex g =
    dispatch-Valid (view s) next rest (λ p. state_of (switch_blocked (some next, rest) s) p) e
      (λ q. (λ e. ground arith, λ n. ground arith)) ls sl ex g

pub schedule_blocked-IsValid :
    (s : Kernel)
    → Lists (view s) × Slots (view s) × Exits (view s)
    → Gone (state_of s s.running_process)
    → IsValid (schedule_blocked s)
unfolding schedule_blocked
schedule_blocked-IsValid s (ls, sl, ex) = switch_blocked-IsValid s s.process_list refl ls sl ex

-- `blockRunningProcess` keeps the scheduler's invariant, if the running process is not the idle one.
pub block_running_process-IsValid :
    (s : Kernel)
    → IsValid s
    → s.running_process ≢ s.idle_process
    → IsValid (block_running_process s)
unfolding block_running_process
block_running_process-IsValid s i ni =
    let s' = set_state s s.running_process blocked in
    schedule_blocked-IsValid s'
      (stop_lem (view s) blocked (λ p. state_of s' p) s.sleep_list i ni (inl refl)
        (λ q. (λ e. ground arith, λ n. ground arith)) (inl refl))
      (inl (ground arith))

-- `sleepUntilTick` keeps the invariant, if the running process is not the idle one.
pub sleep_until_tick-IsValid :
    (tick : ℕ) (s : Kernel)
    → IsValid s
    → s.running_process ≢ s.idle_process
    → IsValid (sleep_until_tick tick s)
unfolding sleep_until_tick
sleep_until_tick-IsValid tick s i ni =
    let cur = s.running_process in
    let s₁ = set_pcb s cur (record (s.pcbs cur) { wakeup_tick = tick }) in
    let s' = set_state (record s₁ { sleep_list = Spec.insert s₁.sleep_list cur }) cur blocked in
    schedule_blocked-IsValid s'
      (stop_lem (view s) blocked (λ p. state_of s' p) (s.sleep_list ++ (cur ∷ [])) i ni (inl refl)
        (λ q. (λ e. ground arith, λ n. ground arith)) (inr (refl, refl)))
      (inl (ground arith))

-- `sleepProcess` keeps the invariant, if the running process is not the idle one.
pub sleep_process-IsValid :
    (ms : ℕ) (s : Kernel)
    → IsValid s
    → s.running_process ≢ s.idle_process
    → IsValid (sleep_process ms s)
unfolding sleep_process set_if
sleep_process-IsValid ms s i ni =
    sleep_until_tick-IsValid (sleep_deadline s.tick_count ms) (set_if false s).1 i ni

-- The process that runs after a switch away from the running one.
abbrev pub next_of : Kernel → ℕ
next_of s = or_idle s (Spec.head_remove s.process_list).0

pub state-schedule_blocked :
    (s : Kernel) (q : ℕ)
    → state_of (schedule_blocked s) q ≡ (if q == next_of s then running else state_of s q)
unfolding schedule_blocked
state-schedule_blocked s q = ground arith

-- A process that is neither READY nor RUNNING keeps its state over a switch.
pub waiting-schedule_blocked :
    (s : Kernel) (q : ℕ)
    → Lists (view s)
    → Slots (view s)
    → Gone (state_of s q)
    → state_of (schedule_blocked s) q ≡ state_of s q
waiting-schedule_blocked s q l sl g = rw (state-schedule_blocked s q) (go s.process_list refl)
  where
    go :
        (xs : List ℕ)
        → s.process_list ≡ xs
        → (if q == or_idle s (Spec.head_remove xs).0 then running else state_of s q) ≡ state_of s q
    go [] e = ground (arith, sl.idle_state)
    go (x ∷ xs) e = ground (arith, l.ready_state x)

-- `blockRunningProcess` makes the running process BLOCKED, and leaves the state of every process that waits
-- or has ended as it is.
pub state-block_running_process :
    (s : Kernel) (q : ℕ)
    → IsValid s
    → s.running_process ≢ s.idle_process
    → (q ≡ s.running_process) ⊎ Gone (state_of s q)
    → state_of (block_running_process s) q
      ≡ (if q == s.running_process then blocked else state_of s q)
unfolding block_running_process
state-block_running_process s q i ni g =
    let s' = set_state s s.running_process blocked in
    let (l, sl, x) =
      stop_lem (view s) blocked (λ p. state_of s' p) s.sleep_list i ni (inl refl)
        (λ q. (λ e. ground arith, λ n. ground arith)) (inl refl) in
    rw (waiting-schedule_blocked s' q l sl (ground arith)) (ground arith)
