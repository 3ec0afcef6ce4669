-- ===== src/Process/Sleep.antt =====
-- kernel/proc/Process.c: a sleeping process wakes when its tick has come, and not before.
use skhuos.Common.{
  ℕ, ◌+◌, ◌-◌, ◌*◌, ◌%◌, ◌^◌, ◌<◌, ◌≤◌, ◌≡◌, ◌≢◌, refl, ap, ◌∙◌, Bool, true, ◌&&◌, not, List, [],
  ◌∷◌, arith, ◌==◌, if◌then◌else◌, leb, has, distinct,
}
use skhuos.LinkedList.Spec
use skhuos.LinkedList.Spec.{has-remove_ne, has-remove_self}
use skhuos.Process.{Kernel, blocked, state_of}
use skhuos.Process.Switch.{
  wakeup, wake_if_due, wake_expired, timeout_switch, timeout_schedule, timer_interrupt,
  sleep_deadline,
}
use skhuos.Process.Inv.{IsValid}
use skhuos.Process.Timer.{wake_if_due-IsValid, taken-wake_if_due}

-- Whether the process `p` is due at the tick of the state.
abbrev pub due : Kernel → ℕ → Bool
due s p = leb (s.pcbs p).wakeup_tick s.tick_count

module _ (p : ℕ) (s : Kernel) (b : state_of s p ≡ blocked) where
  -- The body of the loop keeps what the test of a later process reads.
  due-wake_if_due : (q : ℕ) → due (wake_if_due p s) q ≡ due s q
  unfolding wake_if_due wakeup
  due-wake_if_due q = ground arith

  state-wake_if_due : (q : ℕ) → q ≢ p → state_of (wake_if_due p s) q ≡ state_of s q
  unfolding wake_if_due wakeup
  state-wake_if_due q n = ground arith

  sleep-wake_if_due :
      (wake_if_due p s).sleep_list ≡ (if due s p then Spec.remove s.sleep_list p else s.sleep_list)
  unfolding wake_if_due wakeup
  sleep-wake_if_due = ground arith

  has-wake_if_due :
      (q : ℕ)
      → distinct s.sleep_list ≡ true
      → has q (wake_if_due p s).sleep_list ≡ (has q s.sleep_list && not ((q == p) && due s p))
  has-wake_if_due q d =
      rw sleep-wake_if_due
        (ground (arith, has-remove_ne s.sleep_list p q, has-remove_self s.sleep_list p))

-- The loop over the processes `ps` of the sleep list takes those that are due off it, and no other.
wake_expired_lem :
    (ps : List ℕ) (s : Kernel) (q : ℕ)
    → IsValid s
    → distinct ps ≡ true
    → ((p : ℕ) → has p ps ≡ true → state_of s p ≡ blocked)
    → ((p : ℕ) → has p ps ≡ true → s.alloc_process_table p ≡ true)
    → has q (wake_expired ps s).sleep_list ≡ (has q s.sleep_list && not (has q ps && due s q))
unfolding wake_expired
wake_expired_lem [] s q i d b t = ground arith
wake_expired_lem (p ∷ ps) s q i d b t =
    let bp = b p (ground arith) in
    let tp = t p (ground arith) in
    rw
      (
        wake_expired_lem ps (wake_if_due p s) q (wake_if_due-IsValid p s i tp) (ground arith)
            (λ r h. state-wake_if_due p s bp r (ground arith) ∙ b r (ground arith))
            (λ r h. rw (taken-wake_if_due p s) (t r (ground arith))),
        due-wake_if_due p s bp q,
        has-wake_if_due p s bp q i.lists.sleep_distinct,
      )
      (ground arith)

sleep-timeout_switch : (l : List ℕ) (s : Kernel) → (timeout_switch l s).sleep_list ≡ s.sleep_list
unfolding timeout_switch
sleep-timeout_switch [] s = refl
sleep-timeout_switch (x ∷ xs) s = ground arith

-- After a timer interrupt in a valid state a process is on the sleep list exactly if it was there and its
-- wakeup tick is still to come at the new tick count.
timer_interrupt-wakes :
    (s : Kernel) (q : ℕ)
    → IsValid s
    → has q (timer_interrupt s).sleep_list
      ≡ (has q s.sleep_list && not (leb (s.pcbs q).wakeup_tick ((s.tick_count + 1) % 2 ^ 64)))
unfolding timer_interrupt timeout_schedule
timer_interrupt-wakes s q i =
    let s₁ : Kernel = record s { tick_count = (s.tick_count + 1) % 2 ^ 64 } in
    let w : Kernel = wake_expired s.sleep_list s₁ in
    ap (has q) (sleep-timeout_switch w.process_list w)
    ∙ wake_expired_lem s.sleep_list s₁ q i i.lists.sleep_distinct i.lists.sleep_state
        i.lists.sleep_taken
    ∙ ground arith

-- `sleepProcess(ms)` sleeps for at least `ms` and less than one time slot of 5 ms more, counted in ticks, if
-- the two additions do not wrap.
sleep_deadline_lem :
    (tick ms : ℕ)
    → ms + 4 < 2 ^ 64
    → tick + (ms + 4) < 2 ^ 64
    → (tick ≤ sleep_deadline tick ms)
      × (ms ≤ 5 * (sleep_deadline tick ms - tick))
      × (5 * (sleep_deadline tick ms - tick) < ms + 5)
sleep_deadline_lem tick ms h k = omega arith

-- A request of 2^64 - 4 ms or more wraps: the sleeper is due at the tick at which it falls asleep.
sleep_deadline_wraps :
    (tick ms : ℕ) → tick < 2 ^ 64 → 2 ^ 64 ≤ ms + 4 → ms < 2 ^ 64 → sleep_deadline tick ms ≡ tick
sleep_deadline_wraps tick ms t h k = omega arith
