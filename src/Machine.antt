-- ===== src/Machine.antt =====
-- The machine as the drivers of kernel/drivers see it: the ports (arch/portControl.h), the interrupt flag, the
-- scheduler's calls, and the interrupts that the disk channels raise.
use skhuos.Common.{ℕ, Bool, Option}

-- The operations on a machine `H`. `arrive` tells which disk channel, primary and secondary, interrupts before the
-- next access, a WORD of a port is the pair of its bytes, low byte first, and `counter0_reload` is the variable of PIT.c.
pub record Machine (H : Type 0) : Type 0 where
  pub get_port : ℕ → H → ℕ × H
  pub set_port : ℕ → ℕ → H → H
  pub get_port_word : ℕ → H → (ℕ × ℕ) × H
  pub set_port_word : ℕ → ℕ × ℕ → H → H
  pub set_if : Bool → H → Bool × H
  pub arrive : H → (Bool × Bool) × H
  pub counter0_reload : ℕ
  pub get_tick_count : H → ℕ
  pub get_running_process : H → ℕ
  pub sleep_until_tick : ℕ → H → H
  pub wakeup_process_in_interrupt : Option ℕ → H → H
