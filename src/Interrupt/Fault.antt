-- ===== src/Interrupt/Fault.antt =====
-- An exception in a user program ends its process alone.
use skhuos.Common.{ℕ, ◌%◌, ◌≡◌, ◌≢◌, refl, true, false, ◌==◌, some, arith}
use skhuos.Process.{Kernel, exited, state_of, set_if}
use skhuos.Process.Exit.{exit_process}
use skhuos.Process.End.{exit_process-IsValid, state-exit_process}
use skhuos.Process.Frame.{index-exit}
use skhuos.Process.Reach.{Good}
use skhuos.Interrupt.{exception_handler}

-- An exception in code that runs in ring 3 does not halt the system: the process that it interrupts becomes EXITED,
-- no other process does, and the scheduler's state stays good, if that process is neither the idle process,
-- nor the shell, nor the collector.
pub exception_handler_lem :
    (cs : ℕ) (s : Kernel)
    → Good s
    → s.running_process ≢ s.idle_process
    → s.running_process ≢ 0
    → s.collector_process ≢ some s.running_process
    → cs % 4 ≡ 3
    → (s' : Kernel) × (exception_handler cs s ≡ some s')
      × Good s'
      × (state_of s' s.running_process ≡ exited)
      × ((q : ℕ) → q ≢ s.running_process → state_of s' q ≡ exited → state_of s q ≡ exited)
unfolding exception_handler set_if
exception_handler_lem cs s g ni nz nc ring =
    let s₁ = (set_if false s).1 in
    let user : (cs % 4 == 3) ≡ true = ground arith in
    let (ended, others) = state-exit_process s₁ g.valid ni nz nc in
    rw user (
      exit_process s₁,
      refl,
      record {
        valid = exit_process-IsValid s₁ g.valid ni nz nc;
        index_bound = rw (index-exit s₁) g.index_bound;
      },
      ended,
      others,
    )
