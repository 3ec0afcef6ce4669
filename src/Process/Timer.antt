-- ===== src/Process/Timer.antt =====
-- kernel/proc/Process.c: waking, the timer and preemption keep the invariant.
use skhuos.Common.{
  ℕ, ◌≡◌, ◌≢◌, inl, inr, refl, Bool, true, false, Option, none, some, List, [], ◌∷◌, ◌==◌, ==_iff,
  has, arith, if◌then◌else◌, Bool-cases, leb,
}
use skhuos.LinkedList.Spec
use skhuos.Process.{Kernel, ready, state_of, set_if}
use skhuos.Process.Switch.{
  is_blocked, wakeup, wakeup_process, timeout_switch, timeout_schedule, wakeup_process_in_interrupt,
  wake_if_due, wake_expired, timer_interrupt, switch_ready, schedule,
}
use skhuos.Process.Inv.{IsValid, view}
use skhuos.Process.Inv.Wake.{wake-Valid}
use skhuos.Process.Inv.Preempt.{preempt-Valid, relieve-Valid}

pub wakeup-IsValid :
    (p : ℕ) (s : Kernel) → IsValid s → s.alloc_process_table p ≡ true → IsValid (wakeup p s).1
unfolding wakeup
wakeup-IsValid p s i t = elim (Bool-cases (is_blocked (state_of s p))) [
  | inl b ↦
      rw b
        (wake-Valid (view s) p _ (ground arith) t (λ q. (λ e. ground arith, λ n. ground arith)) i)
  | inr n ↦ rw n i
]

timeout_switch-IsValid :
    (l : List ℕ) (s : Kernel) → s.process_list ≡ l → IsValid s → IsValid (timeout_switch l s)
unfolding timeout_switch
timeout_switch-IsValid [] s e i = i
timeout_switch-IsValid (next ∷ rest) s e i =
    elim (Bool-cases (s.running_process == s.idle_process)) [
      | inl idle ↦ rw idle (
          relieve-Valid (view s) next rest _ i e ((==_iff _ _).0 idle)
            (λ q. (λ e. ground arith, λ n. ground arith)))
      | inr busy ↦ rw busy (
          preempt-Valid (view s) next rest
            (λ p. if p == s.running_process then ready else state_of s p) _ i e (ground arith)
            (λ q. (λ e. ground arith, λ n. ground arith))
            (λ q. (λ e. ground arith, λ n. ground arith)))
    ]

-- `timeoutSchedule` keeps the invariant.
pub timeout_schedule-IsValid : (s : Kernel) → IsValid s → IsValid (timeout_schedule s)
unfolding timeout_schedule
timeout_schedule-IsValid s i = timeout_switch-IsValid s.process_list s refl i

pub wakeup_process-IsValid :
    (o : Option ℕ) (s : Kernel)
    → IsValid s
    → ((p : ℕ) → o ≡ some p → s.alloc_process_table p ≡ true)
    → IsValid (wakeup_process o s).1
unfolding wakeup_process
wakeup_process-IsValid none s i t = i
wakeup_process-IsValid (some p) s i t = wakeup-IsValid p s i (t p refl)

-- `wakeupProcessInInterrupt` keeps the invariant, if the process it is to wake has a slot.
pub wakeup_process_in_interrupt-IsValid :
    (o : Option ℕ) (s : Kernel)
    → IsValid s
    → ((p : ℕ) → o ≡ some p → s.alloc_process_table p ≡ true)
    → IsValid (wakeup_process_in_interrupt o s)
unfolding wakeup_process_in_interrupt
wakeup_process_in_interrupt-IsValid o s i t = elim (Bool-cases (wakeup_process o s).0) [
  | inl woken ↦
      rw woken
        (elim (Bool-cases
          ((wakeup_process o s).1.running_process == (wakeup_process o s).1.idle_process)) [
            | inl idle ↦
                rw idle
                  (timeout_schedule-IsValid (wakeup_process o s).1 (wakeup_process-IsValid o s i t))
            | inr busy ↦ rw busy (wakeup_process-IsValid o s i t)
          ])
  | inr same ↦ rw same (wakeup_process-IsValid o s i t)
]

taken-wakeup : (p : ℕ) (s : Kernel) → (wakeup p s).1.alloc_process_table ≡ s.alloc_process_table
unfolding wakeup
taken-wakeup p s = ground arith

pub wake_if_due-IsValid :
    (p : ℕ) (s : Kernel) → IsValid s → s.alloc_process_table p ≡ true → IsValid (wake_if_due p s)
unfolding wake_if_due
wake_if_due-IsValid p s i t = elim (Bool-cases (leb (s.pcbs p).wakeup_tick s.tick_count)) [
  | inl due ↦ rw due (wakeup-IsValid p s i t)
  | inr early ↦ rw early i
]

pub taken-wake_if_due :
    (p : ℕ) (s : Kernel) → (wake_if_due p s).alloc_process_table ≡ s.alloc_process_table
unfolding wake_if_due
taken-wake_if_due p s = ground (arith, taken-wakeup p s)

wake_expired-IsValid :
    (ps : List ℕ) (s : Kernel)
    → IsValid s
    → ((p : ℕ) → has p ps ≡ true → s.alloc_process_table p ≡ true)
    → IsValid (wake_expired ps s)
unfolding wake_expired
wake_expired-IsValid [] s i t = i
wake_expired-IsValid (p ∷ ps) s i t =
    wake_expired-IsValid ps (wake_if_due p s) (wake_if_due-IsValid p s i (t p (ground arith)))
      (λ q h. rw (taken-wake_if_due p s) (t q (ground arith)))

-- The timer interrupt keeps the invariant.
pub timer_interrupt-IsValid : (s : Kernel) → IsValid s → IsValid (timer_interrupt s)
unfolding timer_interrupt
timer_interrupt-IsValid s i =
    timeout_schedule-IsValid _ (wake_expired-IsValid s.sleep_list _ i i.lists.sleep_taken)

switch_ready-IsValid :
    (pre_if : Bool) (l : List ℕ) (s : Kernel)
    → s.process_list ≡ l
    → IsValid s
    → s.running_process ≢ s.idle_process
    → IsValid (switch_ready pre_if (Spec.head_remove l) s)
unfolding switch_ready set_if
switch_ready-IsValid pre_if [] s e i ni = i
switch_ready-IsValid pre_if (next ∷ rest) s e i ni =
    preempt-Valid (view s) next rest (λ p. if p == s.running_process then ready else state_of s p) _
      i e ni (λ q. (λ e. ground arith, λ n. ground arith))
      (λ q. (λ e. ground arith, λ n. ground arith))

-- `schedule` keeps the invariant, if the running process is not the idle one.
pub schedule-IsValid :
    (s : Kernel) → IsValid s → s.running_process ≢ s.idle_process → IsValid (schedule s)
unfolding schedule set_if
schedule-IsValid s i ni =
    switch_ready-IsValid (set_if false s).0 s.process_list (set_if false s).1 refl i ni
