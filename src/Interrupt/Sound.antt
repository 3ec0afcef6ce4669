-- ===== src/Interrupt/Sound.antt =====
-- The interrupts of the table that kernel/Main.c sets up keep the scheduler's invariant.
use skhuos.Common.{
  ℕ, ◌+◌, ◌-◌, ◌%◌, ◌^◌, ◌≤◌, ◌≡◌, inl, inr, refl, sym, ap, ◌∙◌, Bool, true, false, Option, some,
  ◌==◌, arith, if◌then◌else◌, length, Bool-cases, if_true, if_false,
}
use skhuos.Machine.{Machine}
use skhuos.Pic.{send_eoi}
use skhuos.Process.{Kernel}
use skhuos.Process.Switch.{timer_interrupt, wakeup_process_in_interrupt}
use skhuos.Process.Reach.{Good}
use skhuos.Keyboard.{Keyboard, input_queue, get_scan_code}
use skhuos.Disk.{primary_disk_interrupt_handler, secondary_disk_interrupt_handler}
use skhuos.Interrupt.{register_interrupt_handler, dispatch_interrupt}
use skhuos.Interrupt.Handlers.{
  Scheduled, Board, kernel_of, with_machine, acknowledge, acknowledge_some, timer_interrupt_handler,
  take_key, keyboard_interrupt_handler, primary_handler, secondary_handler, boot_handlers,
}
use skhuos.Interrupt.Frame.{slots-timer_interrupt, slots-wakeup_process_in_interrupt}
use skhuos.Interrupt.Keeps.{HasSlot, timer-Good, wakeup-Good, input_queue-Good, get_scan_code-some}

module _ {H : Type 0} (m : Machine H) (r : Scheduled m) where
  -- The scheduler's state is good, and the processes that wait for the keyboard and the disks have slots.
  pub record Healthy (b : Board H) : Type 0 where
    pub good : Good (kernel_of m r b)
    pub key_slot : HasSlot (kernel_of m r b) b.keyboard.key_waiter
    pub disk_slot : (primary : Bool) → HasSlot (kernel_of m r b) (b.driver.disk_waiter primary)

  -- A change that keeps the slots and the waiting processes keeps a board healthy, if its scheduler's state is good.
  Healthy-of :
      (b b' : Board H) (s : Kernel)
      → Healthy b
      → kernel_of m r b' ≡ s
      → Good s
      → s.alloc_process_table ≡ (kernel_of m r b).alloc_process_table
      → b'.keyboard.key_waiter ≡ b.keyboard.key_waiter
      → b'.driver.disk_waiter ≡ b.driver.disk_waiter
      → Healthy b'
  Healthy-of b b' s h e g slots key disk = record {
    good = rw e g;
    key_slot = λ p w.
        ap (λ x. x.alloc_process_table p) e ∙ ap (λ f. f p) slots ∙ h.key_slot p (sym key ∙ w);
    disk_slot = λ c p w.
        ap (λ x. x.alloc_process_table p) e
        ∙ ap (λ f. f p) slots
        ∙ h.disk_slot c p (sym (ap (λ f. f c) disk) ∙ w);
  }

  kernel-send_eoi :
      (state : Bool) (pin : ℕ) (h : H) → r.kernel (send_eoi m state pin h).1 ≡ r.kernel h
  unfolding send_eoi
  kernel-send_eoi false pin h = refl
  kernel-send_eoi true pin h =
      ground
        (arith, r.kernel-set_port 0x20 0x20 h, r.kernel-set_port 0xa0 0x20 (m.set_port 0x20 0x20 h))

  -- What an interrupt comes to that returns with a board on which `ticks` is the count of ticks.
  abbrev Served : Option (Board H) → ℕ → Type 0
  Served o ticks =
      (b' : Board H) × (o ≡ some b') × Healthy b' × ((kernel_of m r b').tick_count ≡ ticks)

  timer-Served :
      (b : Board H) (v : ℕ)
      → Healthy b
      → Served (timer_interrupt_handler m r v b) (((kernel_of m r b).tick_count + 1) % 2 ^ 64)
  unfolding timer_interrupt_handler
  timer-Served b v h =
      let s = kernel_of m r b in
      let b₁ = acknowledge m r v b in
      let same : kernel_of m r b₁ ≡ s =
        kernel-send_eoi b.driver.pic_state (v - 32) b.driver.machine in
      let b₂ =
        with_machine m r b₁ (r.put_kernel (timer_interrupt (kernel_of m r b₁)) b₁.driver.machine) in
      let e : kernel_of m r b₂ ≡ timer_interrupt s =
        r.kernel-put_kernel (timer_interrupt (kernel_of m r b₁)) b₁.driver.machine
        ∙ ap timer_interrupt same in
      (
        b₂,
        refl,
        Healthy-of b b₂ (timer_interrupt s) h e (timer-Good s h.good)
            (ap (λ x. x.0) (slots-timer_interrupt s)) refl refl,
        ap (λ x. x.tick_count) e ∙ ap (λ x. x.1) (slots-timer_interrupt s),
      )

  disk-Served :
      (b b' : Board H) (c : Bool) (h : H)
      → Healthy b
      → r.kernel h ≡ kernel_of m r b
      → b'.driver.machine ≡ m.wakeup_process_in_interrupt (b.driver.disk_waiter c) h
      → b'.keyboard.key_waiter ≡ b.keyboard.key_waiter
      → b'.driver.disk_waiter ≡ b.driver.disk_waiter
      → Healthy b' × ((kernel_of m r b').tick_count ≡ (kernel_of m r b).tick_count)
  disk-Served b b' c h healthy same machine key disk =
      let s = kernel_of m r b in
      let o = b.driver.disk_waiter c in
      let e : kernel_of m r b' ≡ wakeup_process_in_interrupt o s =
        ap r.kernel machine ∙ r.kernel-wakeup o h ∙ ap (wakeup_process_in_interrupt o) same in
      let slots = slots-wakeup_process_in_interrupt o s in
      (
        Healthy-of b b' (wakeup_process_in_interrupt o s) healthy e
            (wakeup-Good o s healthy.good (healthy.disk_slot c)) (ap (λ x. x.0) slots) key disk,
        ap (λ x. x.tick_count) e ∙ ap (λ x. x.1) slots,
      )

  primary-Served :
      (b : Board H) (v : ℕ)
      → Healthy b
      → Served (primary_handler m r v b) (kernel_of m r b).tick_count
  unfolding primary_disk_interrupt_handler
  primary-Served b v healthy =
      let h = (send_eoi m b.driver.pic_state (v - 32) b.driver.machine).1 in
      let b' = record b { driver = primary_disk_interrupt_handler m v b.driver } in
      let (healthy', ticks) =
        disk-Served b b' true h healthy
          (kernel-send_eoi b.driver.pic_state (v - 32) b.driver.machine) refl refl refl in
      (b', refl, healthy', ticks)

  secondary-Served :
      (b : Board H) (v : ℕ)
      → Healthy b
      → Served (secondary_handler m r v b) (kernel_of m r b).tick_count
  unfolding secondary_disk_interrupt_handler
  secondary-Served b v healthy =
      let h = (send_eoi m b.driver.pic_state (v - 32) b.driver.machine).1 in
      let b' = record b { driver = secondary_disk_interrupt_handler m v b.driver } in
      let (healthy', ticks) =
        disk-Served b b' false h healthy
          (kernel-send_eoi b.driver.pic_state (v - 32) b.driver.machine) refl refl refl in
      (b', refl, healthy', ticks)

  take_key-some :
      (b : Board H) (code : ℕ) (k k' : Keyboard) (s' : Kernel)
      → get_scan_code b.keyboard ≡ some (code, k)
      → input_queue code k (kernel_of m r b) ≡ some (k', s')
      → take_key m r b
        ≡ some (record (with_machine m r b (r.put_kernel s' b.driver.machine)) { keyboard = k' })
  unfolding take_key
  take_key-some b code k k' s' e f = rw (take_key, e, f) refl

  take_key-Served :
      (b : Board H)
      → Healthy b
      → 3 ≤ length b.keyboard.controller
      → Served (take_key m r b) (kernel_of m r b).tick_count
  take_key-Served b h room =
      let s = kernel_of m r b in
      let (code, k, scanned, waiter, more) = get_scan_code-some b.keyboard room in
      let slot : HasSlot s k.key_waiter = λ p e. h.key_slot p (sym waiter ∙ e) in
      let (k', s', input, good, slots, waiter') = input_queue-Good code k s h.good slot more in
      let b' = record (with_machine m r b (r.put_kernel s' b.driver.machine)) { keyboard = k' } in
      let e = r.kernel-put_kernel s' b.driver.machine in
      (
        b',
        take_key-some b code k k' s' scanned input,
        Healthy-of b b' s' h e good (ap (λ x. x.0) slots) (waiter' ∙ waiter) refl,
        ap (λ x. x.tick_count) e ∙ ap (λ x. x.1) slots,
      )

  acknowledge-Healthy : (b : Board H) (v : ℕ) → Healthy b → Healthy (acknowledge m r v b)
  acknowledge-Healthy b v h =
      Healthy-of b (acknowledge m r v b) (kernel_of m r b) h
        (kernel-send_eoi b.driver.pic_state (v - 32) b.driver.machine) h.good refl refl refl

  acknowledge-Served :
      (v : ℕ) (o : Option (Board H)) (ticks : ℕ)
      → Served o ticks
      → Served (acknowledge_some m r v o) ticks
  acknowledge-Served v o ticks (b, e, h, t) = (
    acknowledge m r v b,
    ap (acknowledge_some m r v) e,
    acknowledge-Healthy b v h,
    ap (λ s. s.tick_count) (kernel-send_eoi b.driver.pic_state (v - 32) b.driver.machine) ∙ t,
  )

  keyboard-Served :
      (b : Board H) (v : ℕ)
      → Healthy b
      → 3 ≤ length b.keyboard.controller
      → Served (keyboard_interrupt_handler m r v b) (kernel_of m r b).tick_count
  unfolding keyboard_interrupt_handler
  keyboard-Served b v h room =
      let (status, h₁) = m.get_port 0x64 b.driver.machine in
      let b₁ = with_machine m r b h₁ in
      let same = r.kernel-get_port 0x64 b.driver.machine in
      let healthy₁ = Healthy-of b b₁ (kernel_of m r b) h same h.good refl refl refl in
      let ticks₁ = ap (λ s. s.tick_count) same in
      let taken : Served (if status % 2 == 1 then take_key m r b₁ else some b₁)
          (kernel_of m r b).tick_count =
        elim (Bool-cases (status % 2 == 1)) [
          | inl full ↦
              let (b₂, e, healthy₂, t) = take_key-Served b₁ healthy₁ room in
              (
                b₂,
                if_true (status % 2 == 1) (take_key m r b₁) (some b₁) full ∙ e,
                healthy₂,
                t ∙ ticks₁,
              )
          | inr empty ↦
              (b₁, if_false (status % 2 == 1) (take_key m r b₁) (some b₁) empty, healthy₁, ticks₁)
        ] in
      acknowledge-Served v _ (kernel_of m r b).tick_count taken

  -- With the handlers that the kernel registers at boot, an interrupt of any vector returns, if the keyboard's controller
  -- delivers the bytes of a scan code; it keeps the scheduler's state good and the processes that wait for a
  -- device in their slots, and the count of ticks goes up by one at the timer's vector and stays at the others.
  pub dispatch_interrupt-Served :
      (b : Board H) (v : ℕ)
      → Healthy b
      → 3 ≤ length b.keyboard.controller
      → (b' : Board H) × (dispatch_interrupt (boot_handlers m r) v b ≡ some b')
        × Healthy b'
        × ((kernel_of m r b').tick_count ≡ (
            if v == 32
            then ((kernel_of m r b).tick_count + 1) % 2 ^ 64
            else (kernel_of m r b).tick_count))
  unfolding dispatch_interrupt boot_handlers register_interrupt_handler
  dispatch_interrupt-Served b v h room = elim (Bool-cases (v == 47)) [
    | inl second ↦
        let other : (v == 32) ≡ false = ground arith in rw (second, other) (secondary-Served b v h)
    | inr n47 ↦ elim (Bool-cases (v == 46)) [
      | inl first ↦
          let other : (v == 32) ≡ false = ground arith in
          rw (n47, first, other) (primary-Served b v h)
      | inr n46 ↦ elim (Bool-cases (v == 32)) [
        | inl timer ↦ rw (n47, n46, timer) (timer-Served b v h)
        | inr n32 ↦ elim (Bool-cases (v == 33)) [
          | inl key ↦ rw (n47, n46, n32, key) (keyboard-Served b v h room)
          | inr n33 ↦ rw (n47, n46, n32, n33) (b, refl, h, refl)
        ]
      ]
    ]
  ]
