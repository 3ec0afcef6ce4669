-- ===== src/Disk.antt =====
-- kernel/drivers/Disk.c: the ATA disks, with the ports of kernel/drivers/Disk.h, on a machine. A function that waits is a run: it
-- changes the driver's state, or has no result when a polling loop is not done after `rounds` rounds. The mutex is the depth to which the
-- caller holds it.
pub mod Wait
pub mod Transfer
pub mod Keeps
pub mod Count
pub mod Clock
pub mod Ata
use skhuos.Common.{
  ℕ, zero, suc, ◌+◌, ◌-◌, ◌*◌, ◌/◌, ◌%◌, ◌^◌, Bool, true, false, not, ◌&&◌, ◌||◌, Option, none,
  some, ◌==◌, if◌then◌else◌, leb, ltb,
}
use skhuos.Machine.{Machine}
use skhuos.Pic.{send_eoi, irq_start_offset}
use skhuos.Pit.{Stopwatch, start_stopwatch, get_elapsed_clock, read_counter0, ms_to_clock}

-- The names of the eleven ports of a channel.
pub data Port : Type 0 where
  data_port error_port sector_count sector_number cylinder_lsb cylinder_msb drive_and_header status
        command :
      Port
  digital_output drive_address : Port

-- `portAddress[isPrimary]`
unfoldable pub port_address : Bool → Port → ℕ
port_address is_primary p =
    let base = if is_primary then 0x1f0 else 0x170 in
    elim p [
      | data_port ↦ base
      | error_port ↦ base + 1
      | sector_count ↦ base + 2
      | sector_number ↦ base + 3
      | cylinder_lsb ↦ base + 4
      | cylinder_msb ↦ base + 5
      | drive_and_header ↦ base + 6
      | status ↦ base + 7
      | command ↦ base + 7
      | digital_output ↦ base + 0x206
      | drive_address ↦ base + 0x207
    ]

abbrev pub command_read : ℕ
command_read = 0x20

abbrev pub command_write : ℕ
command_write = 0x30

abbrev pub command_drive_identify : ℕ
command_drive_identify = 0xec

abbrev pub status_bsy : ℕ
status_bsy = 0x80

abbrev pub status_drdy : ℕ
status_drdy = 0x40

abbrev pub status_drq : ℕ
status_drq = 0x08

abbrev pub status_err : ℕ
status_err = 0x01

abbrev pub driverhead_lba : ℕ
driverhead_lba = 0xe0

abbrev pub driverhead_slave : ℕ
driverhead_slave = 0x10

abbrev pub irq_disk1 : ℕ
irq_disk1 = 14

abbrev pub irq_disk2 : ℕ
irq_disk2 = 15

abbrev pub wait_timeout_ms : ℕ
wait_timeout_ms = 500

-- `x & mask` for a mask of one bit.
abbrev pub bit_of : ℕ → ℕ → ℕ
bit_of x mask = x / mask % 2 * mask

-- The static variables, with the state of PIC.c and the machine. `information` is `disk`, in words.
pub record Driver (H : Type 0) : Type 0 where
  pub held : ℕ
  pub information : ℕ → ℕ
  pub is_primary_interrupt_occur : Bool
  pub is_secondary_interrupt_occur : Bool
  pub disk_waiter : Bool → Option ℕ
  pub pic_state : Bool
  pub machine : H

abbrev pub Run : Type 0 → Type 0 → Type 0
Run H A = Driver H → Option (A × Driver H)

module _ {H : Type 0} where
  abbrev pub pure : {A : Type 0} → A → Run H A
  pure a s = some (a, s)

  abbrev pub gets : {A : Type 0} → (Driver H → A) → Run H A
  gets f s = some (f s, s)

  abbrev pub modify : (Driver H → Driver H) → Run H (Unit {0})
  modify f s = some (tt, f s)

  -- A run in turn for each result of a test.
  abbrev pub branch : {A : Type 0} → Bool → Run H A → Run H A → Run H A
  branch b then_run else_run s = if b then then_run s else else_run s

infixl 5 ◌>>=◌ ◌>>◌
abbrev pub ◌>>=◌ : {H A B : Type 0} → Run H A → (A → Run H B) → Run H B
◌>>=◌ r f s = elim (r s) [ none ↦ none | some (a, s') ↦ f a s' ]

abbrev pub ◌>>◌ : {H B : Type 0} → Run H (Unit {0}) → Run H B → Run H B
r >> k = r >>= λ _. k

module _ {H : Type 0} (m : Machine H) where
  -- `primaryDiskInterruptHandler` and `secondaryDiskInterruptHandler`
  unfoldable pub primary_disk_interrupt_handler : ℕ → Driver H → Driver H
  primary_disk_interrupt_handler vector_number s =
      let (r, h) = send_eoi m s.pic_state (vector_number - irq_start_offset) s.machine in
      record s {
        is_primary_interrupt_occur = true;
        machine = m.wakeup_process_in_interrupt (s.disk_waiter true) h;
      }

  unfoldable pub secondary_disk_interrupt_handler : ℕ → Driver H → Driver H
  secondary_disk_interrupt_handler vector_number s =
      let (r, h) = send_eoi m s.pic_state (vector_number - irq_start_offset) s.machine in
      record s {
        is_secondary_interrupt_occur = true;
        machine = m.wakeup_process_in_interrupt (s.disk_waiter false) h;
      }

  -- The handlers run for the interrupts that have come.
  unfoldable pub settle : Driver H → Driver H
  settle s =
      let ((primary, secondary), h) = m.arrive s.machine in
      let s₁ = record s { machine = h } in
      let s₂ =
        if primary then primary_disk_interrupt_handler (irq_start_offset + irq_disk1) s₁ else s₁ in
      if secondary then secondary_disk_interrupt_handler (irq_start_offset + irq_disk2) s₂ else s₂

  -- An access to the machine, with the interrupts behind it.
  unfoldable pub access : {A : Type 0} → (H → A × H) → Run H A
  access f s = let (a, h) = f s.machine in some (a, settle (record s { machine = h }))

  abbrev pub get_port : ℕ → Run H ℕ
  get_port p = access (m.get_port p)

  abbrev pub get_port_word : ℕ → Run H (ℕ × ℕ)
  get_port_word p = access (m.get_port_word p)

  abbrev pub set_port : ℕ → ℕ → Run H (Unit {0})
  set_port p v = access (λ h. (tt, m.set_port p v h))

  abbrev pub set_port_word : ℕ → ℕ × ℕ → Run H (Unit {0})
  set_port_word p v = access (λ h. (tt, m.set_port_word p v h))

  abbrev pub set_if : Bool → Run H Bool
  set_if on = access (m.set_if on)

  unfoldable pub acquire_lock : Run H (Unit {0})
  acquire_lock = modify (λ s. settle (record s { held = s.held + 1 }))

  unfoldable pub release_lock : Run H (Unit {0})
  release_lock = modify (λ s. record s { held = s.held - 1 })
