-- ===== src/Pic.antt =====
-- kernel/drivers/PIC.c: the interrupt controllers. The static variable `state` is true from `ICW_SET` on; the result
-- is `none` for -1.
use skhuos.Common.{ℕ, ◌+◌, ◌/◌, ◌%◌, ◌^◌, Bool, true, Option, none, some, if◌then◌else◌, leb}
use skhuos.Machine.{Machine}

abbrev pub master_port1 : ℕ
master_port1 = 0x20

abbrev pub master_port2 : ℕ
master_port2 = 0x21

abbrev pub slave_port1 : ℕ
slave_port1 = 0xa0

abbrev pub slave_port2 : ℕ
slave_port2 = 0xa1

abbrev pub irq_start_offset : ℕ
irq_start_offset = 0x20

abbrev pub irq_max_count : ℕ
irq_max_count = 8

abbrev pub ocw2_eoi : ℕ
ocw2_eoi = 0x20

module _ {H : Type 0} (m : Machine H) where
  -- `initializePIC`: ICW1 to ICW4 for the master, then for the slave; ICW1 says that ICW4 follows, ICW3 that the
  -- slave is at pin 2, and ICW4 that the processor is an 8086.
  unfoldable pub initialize_pic : H → Bool × H
  initialize_pic h = (
    true,
    m.set_port slave_port2 0x01 (
        m.set_port slave_port2 0x02 (
          m.set_port slave_port2 (irq_start_offset + irq_max_count) (
            m.set_port slave_port1 0x11 (
              m.set_port master_port2 0x01 (
                m.set_port master_port2 0x04
                  (m.set_port master_port2 irq_start_offset (m.set_port master_port1 0x11 h))))))),
  )

  unfoldable pub set_imr : Bool → ℕ → H → Option ℕ × H
  set_imr state mask h =
      if state
      then (
        some 0,
        m.set_port slave_port2 (mask / 2 ^ 8 % 2 ^ 8) (m.set_port master_port2 (mask % 2 ^ 8) h),
      )
      else (none, h)

  unfoldable pub send_eoi : Bool → ℕ → H → Option ℕ × H
  send_eoi state pin h =
      let master = m.set_port master_port1 ocw2_eoi h in
      if state
      then (some 0, if leb 8 pin then m.set_port slave_port1 ocw2_eoi master else master)
      else (none, h)
