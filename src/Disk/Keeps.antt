-- ===== src/Disk/Keeps.antt =====
-- kernel/drivers/Disk.c: waiting and the access to ports keep the mutex as it is.
use skhuos.Common.{
  ℕ, zero, suc, ◌+◌, ◌-◌, ◌/◌, ◌%◌, ◌^◌, ◌≡◌, refl, sym, ap, ◌∙◌, Bool, true, false, Option, none,
  some, inl, inr, if◌then◌else◌, leb, arith, Option-cases,
}
use skhuos.Process.{slot_time}
use skhuos.Machine.{Machine}
use skhuos.Pit.{Stopwatch, ms_to_clock}
use skhuos.Disk.{
  Driver, Run, pure, gets, modify, branch, ◌>>=◌, access, settle, primary_disk_interrupt_handler,
  secondary_disk_interrupt_handler, get_port, set_port, set_if, wait_timeout_ms,
}
use skhuos.Disk.Wait.{
  poll, sleep_until_occur, wait_interrupt, wait_status, wait_data_request, latched_counter,
  clear_disk_interrupt_flag, in_time, answered, start_watch, advance_watch, poll_from_start,
  set_waiter, occur_flag,
}

-- What runs leave of the driver's mutex.
abbrev pub Keeps : {H A : Type 0} → Run H A → Type 0
Keeps {H} {A} r = (s : Driver H) (a : A) (s' : Driver H) → r s ≡ some (a, s') → s'.held ≡ s.held

pub Keeps-bind :
    {H A B : Type 0} (r : Run H A) (f : A → Run H B)
    → Keeps r
    → ((a : A) → Keeps (f a))
    → Keeps (r >>= f)
Keeps-bind r f kr kf s b s' e = elim (Option-cases (r s)) [
  | inl nothing ↦ absurd (ground arith)
  | inr ((a, s₁), result) ↦
      let step : f a s₁ ≡ some (b, s') = ground arith in kf a s₁ b s' step ∙ kr s a s₁ result
]

pub Keeps-pure : {H A : Type 0} (a : A) → Keeps {H = H} (pure a)
Keeps-pure a s a' s' e = ground arith

pub Keeps-branch :
    {H A : Type 0} (b : Bool) (p q : Run H A) → Keeps p → Keeps q → Keeps (branch b p q)
Keeps-branch true p q kp kq = kp
Keeps-branch false p q kp kq = kq

-- The depth behind a run.
abbrev depth : {H A : Type 0} → Option (A × Driver H) → ℕ
depth none = 0
depth (some (a, s)) = s.held

held-if :
    {H : Type 0} (b : Bool) (x y : Driver H) → x.held ≡ y.held → (if b then x else y).held ≡ y.held
held-if true x y e = e
held-if false x y e = refl

module _ {H : Type 0} (m : Machine H) where
  pub held-settle : (s : Driver H) → (settle m s).held ≡ s.held
  unfolding settle primary_disk_interrupt_handler secondary_disk_interrupt_handler
  held-settle s =
      let ((primary, secondary), h) = m.arrive s.machine in
      let s₁ = record s { machine = h } in
      let s₂ = if primary then primary_disk_interrupt_handler m 46 s₁ else s₁ in
      held-if secondary (secondary_disk_interrupt_handler m 47 s₂) s₂ refl
      ∙ held-if primary (primary_disk_interrupt_handler m 46 s₁) s₁ refl

  pub Keeps-access : {A : Type 0} (f : H → A × H) → Keeps (access m f)
  unfolding access
  Keeps-access f s a s' e =
      let (b, h) = f s.machine in sym (ap depth e) ∙ held-settle (record s { machine = h })

  pub Keeps-modify :
      (f : Driver H → Driver H) → ((s : Driver H) → (f s).held ≡ s.held) → Keeps (modify f)
  Keeps-modify f k s a s' e = sym (ap depth e) ∙ k s

  pub Keeps-gets : {A : Type 0} (f : Driver H → A) → Keeps (gets f)
  Keeps-gets f s a s' e = sym (ap depth e)

  Keeps-latched : Keeps (latched_counter m)
  unfolding latched_counter
  Keeps-latched = Keeps-bind (set_port m 0x43 0) _ (Keeps-access _) (λ u.
      Keeps-bind (get_port m 0x40) _ (Keeps-access _)
        (λ x. Keeps-bind (get_port m 0x40) _ (Keeps-access _) (λ y. Keeps-pure _)))

  Keeps-answered : (found : Option Bool) (r : Run H Bool) → Keeps r → Keeps (answered m found r)
  Keeps-answered (some b) r k = Keeps-pure b
  Keeps-answered none r k = k

  Keeps-poll :
      (k : ℕ) (test : Run H (Option Bool)) (limit : ℕ) (watch : Stopwatch)
      → Keeps test
      → Keeps (poll m k test limit watch)
  unfolding poll
  Keeps-poll zero test limit watch kt = λ s a s' e. absurd (ground arith)
  Keeps-poll (suc k) test limit watch kt = Keeps-bind test _ kt (λ found. Keeps-answered found _ (
      Keeps-bind (advance_watch m watch) _
        (Keeps-bind (latched_counter m) _ Keeps-latched (λ n. Keeps-pure _))
        (λ w.
          Keeps-branch (in_time m w limit) _ _ (Keeps-poll k test limit w kt) (Keeps-pure false))))

  module _ (rounds : ℕ) (is_primary : Bool) where
    Keeps-poll_from_start :
        (test : Run H (Option Bool)) → Keeps test → Keeps (poll_from_start m rounds is_primary test)
    Keeps-poll_from_start test kt =
        Keeps-bind (start_watch m) _
          (Keeps-bind (latched_counter m) _ Keeps-latched (λ n. Keeps-pure _))
          (λ w. Keeps-poll rounds test (ms_to_clock wait_timeout_ms) w kt)

    pub Keeps-clear : Keeps (clear_disk_interrupt_flag m rounds is_primary)
    unfolding clear_disk_interrupt_flag
    Keeps-clear = Keeps-modify _ (λ s. held-if is_primary _ _ refl)

    Keeps-sleep : (k deadline : ℕ) → Keeps (sleep_until_occur m rounds is_primary k deadline)
    unfolding sleep_until_occur
    Keeps-sleep zero deadline = λ s a s' e. absurd (ground arith)
    Keeps-sleep (suc k) deadline = λ s.
        Keeps-branch (occur_flag m rounds is_primary s) _ _ (Keeps-pure true)
          (Keeps-branch (leb deadline (m.get_tick_count s.machine)) _ _ (Keeps-pure false) (
            Keeps-bind (set_waiter m rounds is_primary (λ h. some (m.get_running_process h))) _
              (Keeps-modify _ (λ s. refl))
              (λ u.
                Keeps-bind (access m (λ h. (tt, m.sleep_until_tick deadline h))) _ (Keeps-access _)
                  (λ v.
                    Keeps-bind (set_waiter m rounds is_primary (λ h. none)) _
                      (Keeps-modify _ (λ s. refl)) (λ x. Keeps-sleep k deadline)))))
          s

    abbrev deadline : ℕ → ℕ
    deadline tick = (tick + (wait_timeout_ms + slot_time - 1) / slot_time) % 2 ^ 64

    abbrev occurs : Run H (Option Bool)
    occurs = gets (λ s. if occur_flag m rounds is_primary s then some true else none)

    pub Keeps-wait_interrupt : Keeps (wait_interrupt m rounds is_primary)
    unfolding wait_interrupt
    Keeps-wait_interrupt = Keeps-bind (set_if m false) _ (Keeps-access _) (λ pre_if.
        Keeps-branch pre_if _ _
          (Keeps-bind (gets (λ s. m.get_tick_count s.machine)) _ (Keeps-gets _) (λ tick.
            Keeps-bind (sleep_until_occur m rounds is_primary rounds (deadline tick)) _
              (Keeps-sleep rounds (deadline tick))
              (λ occurred.
                Keeps-bind (set_if m pre_if) _ (Keeps-access _) (λ was. Keeps-pure occurred))))
          (Keeps-poll_from_start occurs (Keeps-gets _)))

    pub Keeps-wait_status : (mask value : ℕ) → Keeps (wait_status m rounds is_primary mask value)
    unfolding wait_status
    Keeps-wait_status mask value =
        Keeps-poll_from_start _ (Keeps-bind (get_port m _) _ (Keeps-access _) (λ v. Keeps-pure _))

    pub Keeps-wait_data_request : Keeps (wait_data_request m rounds is_primary)
    unfolding wait_data_request
    Keeps-wait_data_request =
        Keeps-poll_from_start _ (Keeps-bind (get_port m _) _ (Keeps-access _) (λ v. Keeps-pure _))
