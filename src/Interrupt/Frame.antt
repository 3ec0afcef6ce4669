-- ===== src/Interrupt/Frame.antt =====
-- Waking and the timer of kernel/proc/Process.c free no slot, and only the timer counts ticks.
use skhuos.Common.{ℕ, ◌+◌, ◌%◌, ◌^◌, ◌≡◌, refl, ◌∙◌, Bool, Option, none, some, List, [], ◌∷◌, arith}
use skhuos.Process.{Kernel}
use skhuos.Process.Switch.{
  wakeup, wakeup_process, timeout_switch, timeout_schedule, wakeup_process_in_interrupt,
  wake_if_due, wake_expired, timer_interrupt,
}

-- The slots and the ticks.
abbrev pub slots_ticks : Kernel → (ℕ → Bool) × ℕ
slots_ticks s = (s.alloc_process_table, s.tick_count)

slots-wakeup : (p : ℕ) (s : Kernel) → slots_ticks (wakeup p s).1 ≡ slots_ticks s
unfolding wakeup
slots-wakeup p s = ground arith

slots-wakeup_process :
    (o : Option ℕ) (s : Kernel) → slots_ticks (wakeup_process o s).1 ≡ slots_ticks s
unfolding wakeup_process
slots-wakeup_process none s = refl
slots-wakeup_process (some p) s = slots-wakeup p s

slots-timeout_switch : (l : List ℕ) (s : Kernel) → slots_ticks (timeout_switch l s) ≡ slots_ticks s
unfolding timeout_switch
slots-timeout_switch [] s = refl
slots-timeout_switch (next ∷ rest) s = ground arith

slots-wake_expired : (ps : List ℕ) (s : Kernel) → slots_ticks (wake_expired ps s) ≡ slots_ticks s
unfolding wake_expired
slots-wake_expired [] s = refl
slots-wake_expired (p ∷ ps) s = slots-wake_expired ps (wake_if_due p s) ∙ one
  where
    one : slots_ticks (wake_if_due p s) ≡ slots_ticks s
    one = unfold wake_if_due in ground (arith, slots-wakeup p s)

pub slots-timer_interrupt :
    (s : Kernel)
    → slots_ticks (timer_interrupt s) ≡ (s.alloc_process_table, (s.tick_count + 1) % 2 ^ 64)
unfolding timer_interrupt timeout_schedule
slots-timer_interrupt s =
    let s₁ = record s { tick_count = (s.tick_count + 1) % 2 ^ 64 } in
    let s₂ = wake_expired s₁.sleep_list s₁ in
    slots-timeout_switch s₂.process_list s₂ ∙ slots-wake_expired s₁.sleep_list s₁

pub slots-wakeup_process_in_interrupt :
    (o : Option ℕ) (s : Kernel) → slots_ticks (wakeup_process_in_interrupt o s) ≡ slots_ticks s
unfolding wakeup_process_in_interrupt timeout_schedule
slots-wakeup_process_in_interrupt o s =
    let s₁ = (wakeup_process o s).1 in
    ground (arith, slots-wakeup_process o s, slots-timeout_switch s₁.process_list s₁)
