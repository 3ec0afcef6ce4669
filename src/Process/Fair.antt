-- ===== src/Process/Fair.antt =====
-- kernel/proc/Process.c: what the timer interrupt does for the processes that are READY or asleep.
use mathlib.Core.List.{append_assoc, append-nil}
use skhuos.Common.{
  ℕ, zero, suc, ◌+◌, ◌%◌, ◌^◌, ◌≡◌, refl, sym, ap, ◌∙◌, List, [], ◌∷◌, ◌++◌, ◌==◌, leb, length,
  Bool-cases, inl, inr,
}
use skhuos.Process.{Kernel, state_of}
use skhuos.Process.Switch.{
  is_blocked, wakeup, wake_if_due, wake_expired, timeout_switch, timer_interrupt,
}

-- Waking processes only appends to the ready list.
Grows : Kernel → Kernel → Type 0
Grows s t = (zs : List ℕ) × (t.process_list ≡ s.process_list ++ zs)

Grows-wake_if_due : (p : ℕ) (s : Kernel) → Grows s (wake_if_due p s)
unfolding wake_if_due wakeup Grows
Grows-wake_if_due p s = elim (Bool-cases (leb (s.pcbs p).wakeup_tick s.tick_count)) [
  | inl due ↦ rw due (elim (Bool-cases (is_blocked (state_of s p))) [
    | inl b ↦ rw b (p ∷ [], refl)
    | inr n ↦ rw n ([], sym (append-nil s.process_list))
  ])
  | inr early ↦ rw early ([], sym (append-nil s.process_list))
]

Grows-wake_expired : (ps : List ℕ) (s : Kernel) → Grows s (wake_expired ps s)
unfolding wake_expired Grows
Grows-wake_expired [] s = ([], sym (append-nil s.process_list))
Grows-wake_expired (p ∷ ps) s =
    let (xs, e) = Grows-wake_if_due p s in
    let (ys, e') = Grows-wake_expired ps (wake_if_due p s) in
    (xs ++ ys, e' ∙ ap (λ l. l ++ ys) e ∙ append_assoc s.process_list xs ys)

-- The switch of a timer interrupt with the ready list `xs`, `p` and then `ys`.
switch_first : (p : ℕ) (ys : List ℕ) (s : Kernel) → (timeout_switch (p ∷ ys) s).running_process ≡ p
unfolding timeout_switch
switch_first p ys s = refl

switch_later :
    (x : ℕ) (xs : List ℕ) (p : ℕ) (ys : List ℕ) (s : Kernel)
    → (zs : List ℕ) × ((timeout_switch (x ∷ (xs ++ (p ∷ ys))) s).process_list ≡ xs ++ (p ∷ zs))
unfolding timeout_switch
switch_later x xs p ys s = elim (Bool-cases (s.running_process == s.idle_process)) [
  | inl idle ↦ rw idle (ys, refl)
  | inr busy ↦
      rw busy (ys ++ (s.running_process ∷ []), append_assoc xs (p ∷ ys) (s.running_process ∷ []))
]

module _ (s : Kernel) where
  -- The state after the loop of `wakeExpiredProcess` of a timer interrupt.
  abbrev awake : Kernel
  awake = wake_expired s.sleep_list (record s { tick_count = (s.tick_count + 1) % 2 ^ 64 })

  grows-awake : (l : List ℕ) → s.process_list ≡ l → (zs : List ℕ) × (awake.process_list ≡ l ++ zs)
  unfolding Grows
  grows-awake l e =
      let (zs, e') =
        Grows-wake_expired s.sleep_list (record s { tick_count = (s.tick_count + 1) % 2 ^ 64 }) in
      (zs, e' ∙ ap (λ l. l ++ zs) e)

  timer_first :
      (p : ℕ) (ys : List ℕ) → s.process_list ≡ p ∷ ys → (timer_interrupt s).running_process ≡ p
  unfolding timer_interrupt
  timer_first p ys e =
      let (zs, e') = grows-awake (p ∷ ys) e in
      ap (λ l. (timeout_switch l awake).running_process) e' ∙ switch_first p (ys ++ zs) awake

  timer_later :
      (x : ℕ) (xs : List ℕ) (p : ℕ) (ys : List ℕ)
      → s.process_list ≡ x ∷ (xs ++ (p ∷ ys))
      → (zs : List ℕ) × ((timer_interrupt s).process_list ≡ xs ++ (p ∷ zs))
  unfolding timer_interrupt
  timer_later x xs p ys e =
      let (zs, e') = grows-awake (x ∷ (xs ++ (p ∷ ys))) e in
      let (us, e'') = switch_later x xs p (ys ++ zs) awake in
      (
        us,
        ap (λ l. (timeout_switch l awake).process_list)
              (e' ∙ ap (λ l. x ∷ l) (append_assoc xs (p ∷ ys) zs))
            ∙ e'',
      )

-- `n` timer interrupts in a row.
abbrev pub ticks : ℕ → Kernel → Kernel
ticks zero s = s
ticks (suc n) s = ticks n (timer_interrupt s)

-- While nothing but timer interrupts happens, a READY process with `length xs` others before it on the ready
-- list runs after `length xs + 1` of them, whatever processes these wake.
pub ticks_run :
    (xs : List ℕ) (p : ℕ) (ys : List ℕ) (s : Kernel)
    → s.process_list ≡ xs ++ (p ∷ ys)
    → (ticks (suc (length xs)) s).running_process ≡ p
ticks_run [] p ys s e = timer_first s p ys e
ticks_run (x ∷ xs) p ys s e =
    let (zs, e') = timer_later s x xs p ys e in ticks_run xs p zs (timer_interrupt s) e'
