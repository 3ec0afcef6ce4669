-- ===== src/Interrupt/Handlers.antt =====
-- The handlers that kernel/proc/Process.c, kernel/drivers/Keyboard.c and kernel/drivers/Disk.c register.
use skhuos.Common.{pos, ℕ, ◌+◌, ◌-◌, ◌%◌, ◌≡◌, Option, none, some, ◌==◌, if◌then◌else◌}
use skhuos.Process.{Kernel}
use skhuos.Process.Switch.{timer_interrupt, wakeup_process_in_interrupt}
use skhuos.Machine.{Machine}
use skhuos.Pic.{send_eoi, irq_start_offset}
use skhuos.Keyboard.{Keyboard, get_scan_code, input_queue}
use skhuos.Disk.{
  Driver, primary_disk_interrupt_handler, secondary_disk_interrupt_handler, irq_disk1, irq_disk2,
}
use skhuos.Interrupt.{HandlerTable, register_interrupt_handler}

abbrev pub irq_timer : ℕ
irq_timer = 0

abbrev pub irq_keyboard : ℕ
irq_keyboard = 1

-- `STATE_REG`
abbrev pub state_reg : ℕ
state_reg = 0x64

-- A machine that runs the scheduler of Process.c: where its state is, and that the ports do not change it.
pub record Scheduled {H : Type 0} (m : Machine H) : Type 0 where
  pub kernel : H → Kernel
  pub put_kernel : Kernel → H → H
  pub kernel-put_kernel : (s : Kernel) (h : H) → kernel (put_kernel s h) ≡ s
  pub kernel-get_port : (p : ℕ) (h : H) → kernel (m.get_port p h).1 ≡ kernel h
  pub kernel-set_port : (p v : ℕ) (h : H) → kernel (m.set_port p v h) ≡ kernel h
  pub kernel-wakeup :
      (o : Option ℕ) (h : H)
      → kernel (m.wakeup_process_in_interrupt o h) ≡ wakeup_process_in_interrupt o (kernel h)

-- The state of the drivers, with the machine in that of the disk driver.
pub record Board (H : Type 0) : Type 0 where
  pub keyboard : Keyboard
  pub driver : Driver H

module _ {H : Type 0} (m : Machine H) (r : Scheduled m) where
  abbrev pub kernel_of : Board H → Kernel
  kernel_of b = r.kernel b.driver.machine

  abbrev pub with_machine : Board H → H → Board H
  with_machine b h = record b { driver = record b.driver { machine = h } }

  -- `sendEOI(vectorNumber - IRQ_START_OFFSET)`
  abbrev pub acknowledge : ℕ → Board H → Board H
  acknowledge vector_number b =
      with_machine b
        (send_eoi m b.driver.pic_state (vector_number - irq_start_offset) b.driver.machine).1

  unfoldable pub timer_interrupt_handler : ℕ → Board H → Option (Board H)
  timer_interrupt_handler vector_number b =
      let b₁ = acknowledge vector_number b in
      some (with_machine b₁ (r.put_kernel (timer_interrupt (kernel_of b₁)) b₁.driver.machine))

  -- `inputQueue(getScanCode())`
  unfoldable pub take_key : Board H → Option (Board H)
  take_key b = elim (get_scan_code b.keyboard) [
    | none ↦ none
    | some (scan_code, k) ↦ elim (input_queue scan_code k (kernel_of b)) [
      | none ↦ none
      | some (k', s) ↦
          some (record (with_machine b (r.put_kernel s b.driver.machine)) { keyboard = k' })
    ]
  ]

  abbrev pub acknowledge_some : ℕ → Option (Board H) → Option (Board H)
  acknowledge_some vector_number none = none
  acknowledge_some vector_number (some b) = some (acknowledge vector_number b)

  -- `keyboardInterruptHandler`, with the byte of the status register.
  unfoldable pub keyboard_interrupt_handler : ℕ → Board H → Option (Board H)
  keyboard_interrupt_handler vector_number b =
      let (status, h) = m.get_port state_reg b.driver.machine in
      let b₁ = with_machine b h in
      acknowledge_some vector_number (if status % 2 == 1 then take_key b₁ else some b₁)

  abbrev pub primary_handler : ℕ → Board H → Option (Board H)
  primary_handler v b = some (record b { driver = primary_disk_interrupt_handler m v b.driver })

  abbrev pub secondary_handler : ℕ → Board H → Option (Board H)
  secondary_handler v b = some (record b { driver = secondary_disk_interrupt_handler m v b.driver })

  -- The registrations of `initKeyboard`, `initScheduler` and `initDisk`.
  abbrev pub register_keyboard : HandlerTable (Board H) → HandlerTable (Board H)
  register_keyboard t =
      register_interrupt_handler (pos (irq_start_offset + irq_keyboard)) keyboard_interrupt_handler
        t

  abbrev pub register_timer : HandlerTable (Board H) → HandlerTable (Board H)
  register_timer t =
      register_interrupt_handler (pos (irq_start_offset + irq_timer)) timer_interrupt_handler t

  abbrev pub register_disks : HandlerTable (Board H) → HandlerTable (Board H)
  register_disks t =
      register_interrupt_handler (pos (irq_start_offset + irq_disk2)) secondary_handler
        (register_interrupt_handler (pos (irq_start_offset + irq_disk1)) primary_handler t)

  -- The table as `Main` leaves it.
  unfoldable pub boot_handlers : HandlerTable (Board H)
  boot_handlers = register_disks (register_timer (register_keyboard (λ v. none)))
