-- ===== src/Tests/Scheduler.antt =====
-- The scheduler's theorems at the state of boot, and runs of its functions.
use skhuos.Common.{inr, false, ℕ, ◌≡◌, refl, true, some, [], ◌∷◌, arith, ◌==◌, if◌then◌else◌}
use skhuos.Process.{set_if, Kernel, Pcb, Context, ProcessState, ready, running, state_of}
use skhuos.Process.Switch.{timer_interrupt, sleep_process}
use skhuos.Process.Create.{
  create_process, create_user_process, init_scheduler, make_user, find_slot,
}
use skhuos.Process.Exit.{free_slot}
use skhuos.Process.Inv.{IsValid}
use skhuos.Process.Reach.{
  boot, Good, start-Valid, Reach, Reach-Good, here, next, timer, sleep, init_scheduler-Good,
}
use skhuos.Process.Fair.{ticks, ticks_run}
use skhuos.Process.Lifecycle.{Created, create_process_total, filled, create_some}
use skhuos.Process.Stale.{user_some, create_user_process-General}
use skhuos.Process.Pages.{UserOnly, user_pages}

abbrev pub no_registers : Context
no_registers i = 0

abbrev pub blank : ProcessState → Pcb
blank st = record {
  stack_size = 0x2000;
  stack_address = 0;
  state = st;
  wakeup_tick = 0;
  context = no_registers;
}

-- The state that `initScheduler` leaves, with blank contexts.
abbrev pub booted : Kernel
booted =
    record (boot (λ q. blank (if q == 0 then running else ready))
      (λ j. record { present = false; user = false }) [] no_registers no_registers) {
        idle_process = 2;
        process_list = 1 ∷ [];
        pid_count_idx = 3;
        alloc_process_table =
            λ q. if q == 2 then true else if q == 1 then true else if q == 0 then true else false;
        collector_process = some 1;
      }

pub booted-IsValid : IsValid booted
booted-IsValid = start-Valid (λ p. state_of booted p) refl refl refl

booted-Good : Good booted
booted-Good = record { valid = booted-IsValid; index_bound = omega arith }

-- The shell sleeps for 7 ms, and two ticks later the collector is preempted.
slept : Reach booted (timer_interrupt (sleep_process 7 booted))
slept = next (next here (sleep booted 7 (λ e. cc))) (timer (sleep_process 7 booted))

Reach-Good_example : Good (timer_interrupt (sleep_process 7 booted))
Reach-Good_example = Reach-Good booted-Good slept

init_scheduler-Good_example :
    (s : Kernel) × (init_scheduler 0x600400 0x600500
        (boot booted.pcbs booted.pages [] no_registers no_registers)
      ≡ some s)
    × Good s
    × (s.running_process ≡ 0)
    × (s.process_list ≡ 1 ∷ [])
    × (s.idle_process ≡ 2)
    × (s.collector_process ≡ some 1)
init_scheduler-Good_example =
    init_scheduler-Good booted.pcbs booted.pages [] no_registers no_registers 0x600400 0x600500

ticks_run_example : (ticks 1 booted).running_process ≡ 1
ticks_run_example = ticks_run [] 1 [] booted refl

create_process_total_example :
    (p : ℕ) × (s' : Kernel) × (create_process 0x600600 7 booted ≡ some (p, s'))
    × Created booted p s'
create_process_total_example =
    create_process_total 0x600600 7 booted 5 booted-IsValid (omega arith) (omega arith) refl

user_pages_example : UserOnly (make_user 3 booted) × UserOnly (free_slot 3 booted)
user_pages_example = user_pages 3 booted (omega arith) (λ j h. cc)

-- The slot of process 3 has registers that a process left.
abbrev reused : Kernel
reused = record booted { pcbs = λ q. record (booted.pcbs q) { context = λ i. 7 } }

slot_three : find_slot 1024 booted.alloc_process_table 3 ≡ some 3
unfolding find_slot
slot_three = refl

abbrev launched : Kernel
launched =
    (set_if (set_if false reused).0 (make_user 3 (filled 0x3000000 0 3 (set_if false reused).1))).1

user_launched : create_user_process 0x3000000 0 reused ≡ some (3, launched)
unfolding set_if
user_launched =
    user_some 0x3000000 0 reused 3 (filled 0x3000000 0 3 (set_if false reused).1)
      (create_some 0x3000000 0 3 (set_if false reused).1 slot_three)

create_user_process-General_example : (launched.pcbs 3).context 12 ≡ 7
create_user_process-General_example =
    create_user_process-General 0x3000000 0 reused 3 launched 12 (inr (omega arith)) user_launched
