-- ===== src/Process/Frame.antt =====
-- Only `createProcess` moves the slot index of kernel/proc/Process.c.
use skhuos.Common.{
  ◌+◌, ◌%◌, ◌^◌, ℕ, ◌≡◌, refl, Bool, false, Option, none, some, List, [], ◌∷◌, arith, ◌∙◌,
}
use skhuos.LinkedList.Spec
use skhuos.Process.{Kernel, set_if}
use skhuos.Process.Switch.{
  wakeup, wakeup_process, timeout_switch, timeout_schedule, wakeup_process_in_interrupt,
  wake_if_due, wake_expired, timer_interrupt, schedule, switch_ready, block_running_process,
  sleep_process,
}
use skhuos.Process.Exit.{exit_process, end_process, collect, collector_round, free_slot}

abbrev pub SameIndex : Kernel → Kernel → Type 0
SameIndex s t = t.pid_count_idx ≡ s.pid_count_idx

index-wakeup : (p : ℕ) (s : Kernel) → SameIndex s (wakeup p s).1
unfolding wakeup
index-wakeup p s = ground arith

index-wakeup_process : (o : Option ℕ) (s : Kernel) → SameIndex s (wakeup_process o s).1
unfolding wakeup_process
index-wakeup_process none s = refl
index-wakeup_process (some p) s = index-wakeup p s

index-timeout_switch : (l : List ℕ) (s : Kernel) → SameIndex s (timeout_switch l s)
unfolding timeout_switch
index-timeout_switch [] s = refl
index-timeout_switch (next ∷ rest) s = ground arith

index-wake_expired : (ps : List ℕ) (s : Kernel) → SameIndex s (wake_expired ps s)
unfolding wake_expired
index-wake_expired [] s = refl
index-wake_expired (p ∷ ps) s = index-wake_expired ps (wake_if_due p s) ∙ one
  where
    one : SameIndex s (wake_if_due p s)
    one = unfold wake_if_due in ground (arith, index-wakeup p s)

pub index-timer_interrupt : (s : Kernel) → SameIndex s (timer_interrupt s)
unfolding timer_interrupt
index-timer_interrupt s =
    let s₁ = record s { tick_count = (s.tick_count + 1) % 2 ^ 64 } in
    index-timeout_switch (wake_expired s₁.sleep_list s₁).process_list
      (wake_expired s₁.sleep_list s₁)
    ∙ index-wake_expired s₁.sleep_list s₁

pub index-wakeup_process_in_interrupt :
    (o : Option ℕ) (s : Kernel) → SameIndex s (wakeup_process_in_interrupt o s)
unfolding wakeup_process_in_interrupt timeout_schedule
index-wakeup_process_in_interrupt o s =
    let s₁ = (wakeup_process o s).1 in
    ground (arith, index-wakeup_process o s, index-timeout_switch s₁.process_list s₁)

pub index-block : (s : Kernel) → SameIndex s (block_running_process s)
unfolding block_running_process
index-block s = refl

pub index-sleep : (ms : ℕ) (s : Kernel) → SameIndex s (sleep_process ms s)
unfolding sleep_process set_if
index-sleep ms s = refl

index-switch_ready :
    (b : Bool) (l : List ℕ) (s : Kernel) → SameIndex s (switch_ready b (Spec.head_remove l) s)
unfolding switch_ready set_if
index-switch_ready b [] s = refl
index-switch_ready b (x ∷ xs) s = refl

pub index-schedule : (s : Kernel) → SameIndex s (schedule s)
unfolding schedule set_if
index-schedule s = index-switch_ready (set_if false s).0 s.process_list (set_if false s).1

index-end_process : (o : Option ℕ) (s : Kernel) → SameIndex s (end_process o s)
unfolding end_process wakeup_process wakeup
index-end_process none s = refl
index-end_process (some c) s = ground arith

pub index-exit : (s : Kernel) → SameIndex s (exit_process s)
unfolding exit_process set_if
index-exit s = index-end_process s.collector_process (set_if false s).1

index-collect : (b : Bool) (l : List ℕ) (s : Kernel) → SameIndex s (collect b l s)
unfolding collect free_slot set_if
index-collect b [] s = refl
index-collect b (p ∷ ps) s = refl

pub index-collector_round : (s : Kernel) → SameIndex s (collector_round s)
unfolding collector_round set_if
index-collector_round s = index-collect (set_if false s).0 s.exit_process_queue (set_if false s).1
