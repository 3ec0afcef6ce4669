-- ===== src/Process/Reach.antt =====
-- Every state that the scheduler of kernel/proc/Process.c reaches from boot satisfies its invariant.
use skhuos.Common.{
  ℕ, ◌≤◌, ◌≡◌, ◌≢◌, inl, refl, true, false, none, some, List, [], ◌∷◌, ◌==◌, arith, if◌then◌else◌,
}
use skhuos.Process.{
  Kernel, ProcessState, Pcb, Page, Context, ready, running, process_max_count, set_if,
}
use skhuos.Process.Switch.{
  timer_interrupt, wakeup_process_in_interrupt, block_running_process, sleep_process, schedule,
}
use skhuos.Process.Create.{create_process, init_scheduler}
use skhuos.Process.Exit.{exit_process, collector_round}
use skhuos.Process.Inv.{Valid, IsValid, View}
use skhuos.Process.Frame.{
  index-timer_interrupt, index-wakeup_process_in_interrupt, index-block, index-sleep,
  index-schedule, index-exit, index-collector_round,
}
use skhuos.Process.Leave.{block_running_process-IsValid, sleep_process-IsValid}
use skhuos.Process.Timer.{
  timer_interrupt-IsValid, schedule-IsValid, wakeup_process_in_interrupt-IsValid,
}
use skhuos.Process.End.{exit_process-IsValid, collector_round-IsValid}
use skhuos.Process.Lifecycle.{create_process-Created}

-- The kernel as the loader leaves it: the static variables are 0, the rest of memory and the registers are
-- arbitrary.
abbrev pub boot : (ℕ → Pcb) → (ℕ → Page) → List ℕ → Context → Context → Kernel
boot pcbs pages code cpu ist = record {
  pcbs = pcbs;
  running_process = 0;
  idle_process = 0;
  process_list = [];
  sleep_list = [];
  pid_count_idx = 0;
  alloc_process_table = λ _. false;
  exit_process_queue = [];
  collector_process = none;
  tick_count = 0;
  pages = pages;
  user_code = code;
  cpu = cpu;
  ist = ist;
  rsp0 = 0;
}

pub record Good (s : Kernel) : Type 0 where
  pub valid : IsValid s
  pub index_bound : s.pid_count_idx ≤ process_max_count

-- The three processes of boot.
abbrev pub start : (ℕ → ProcessState) → View
start st = record {
  st = st;
  run = 0;
  idle = 2;
  rl = 1 ∷ [];
  sl = [];
  ex = [];
  taken = λ q. if q == 2 then true else if q == 1 then true else if q == 0 then true else false;
  col = some 1;
}

pub start-Valid :
    (st : ℕ → ProcessState) → st 0 ≡ running → st 1 ≡ ready → st 2 ≡ ready → Valid (start st)
start-Valid st r₀ r₁ r₂ = record {
  lists = record {
    ready_state = λ p h. ground arith;
    sleep_state = λ p h. cc;
    ready_distinct = refl;
    sleep_distinct = refl;
    ready_taken = λ p h. ground arith;
    sleep_taken = λ p h. cc;
    idle_out = refl;
    ready_listed = λ p t r n. ground arith;
  };
  slots = record {
    idle_state = inl r₂;
    one_running = λ p t r. ground arith;
    running_taken = refl;
    idle_taken = refl;
    zero_taken = refl;
    collector_alive = λ c h. ground arith;
  };
  exits = record {
    exit_distinct = refl;
    exit_state = λ p h. cc;
    exit_taken = λ p h. cc;
    exit_ne_zero = λ p h. cc;
  };
  running_state = r₀;
}

-- `initScheduler` at boot does not hang, and leaves a valid state in which the shell (process 0) runs, the
-- collector (1) is READY and the idle process (2) is on no list.
pub init_scheduler-Good :
    (pcbs : ℕ → Pcb) (pages : ℕ → Page) (code : List ℕ) (cpu ist : Context)
    (collector_entry idle_entry : ℕ)
    → (s : Kernel) × (init_scheduler collector_entry idle_entry (boot pcbs pages code cpu ist)
        ≡ some s)
      × Good s
      × (s.running_process ≡ 0)
      × (s.process_list ≡ 1 ∷ [])
      × (s.idle_process ≡ 2)
      × (s.collector_process ≡ some 1)
unfolding init_scheduler set_if
init_scheduler-Good pcbs pages code cpu ist collector_entry idle_entry = (
  _,
  refl,
  record { valid = start-Valid _ refl refl refl; index_bound = omega arith },
  refl,
  refl,
  refl,
  refl,
)

-- What can happen to the scheduler: the timer interrupt; a device interrupt that wakes the process that waits
-- for it; and the calls of the running process, which are not the idle process's.
pub data Step : Kernel → Kernel → Type 0 where
  timer : (s : Kernel) → Step s (timer_interrupt s)
  device :
      (s : Kernel) (p : ℕ)
      → s.alloc_process_table p ≡ true
      → Step s (wakeup_process_in_interrupt (some p) s)
  block : (s : Kernel) → s.running_process ≢ s.idle_process → Step s (block_running_process s)
  sleep : (s : Kernel) (ms : ℕ) → s.running_process ≢ s.idle_process → Step s (sleep_process ms s)
  yield : (s : Kernel) → s.running_process ≢ s.idle_process → Step s (schedule s)
  exit :
      (s : Kernel)
      → s.running_process ≢ s.idle_process
      → s.running_process ≢ 0
      → s.collector_process ≢ some s.running_process
      → Step s (exit_process s)
  collect : (s : Kernel) → s.running_process ≢ s.idle_process → Step s (collector_round s)
  create : (s s' : Kernel) (entry arg p : ℕ) → create_process entry arg s ≡ some (p, s') → Step s s'

pub data Reach (s : Kernel) : Kernel → Type 0 where
  here : Reach s s
  next : {t u : Kernel} → Reach s t → Step t u → Reach s u

Step-Good : {s t : Kernel} → Step s t → Good s → Good t
Step-Good (timer s) g = record {
  valid = timer_interrupt-IsValid s g.valid;
  index_bound = rw (index-timer_interrupt s) g.index_bound;
}
Step-Good (device s p t) g = record {
  valid = wakeup_process_in_interrupt-IsValid (some p) s g.valid (λ q e. ground arith);
  index_bound = rw (index-wakeup_process_in_interrupt (some p) s) g.index_bound;
}
Step-Good (block s ni) g = record {
  valid = block_running_process-IsValid s g.valid ni;
  index_bound = rw (index-block s) g.index_bound;
}
Step-Good (sleep s ms ni) g = record {
  valid = sleep_process-IsValid ms s g.valid ni;
  index_bound = rw (index-sleep ms s) g.index_bound;
}
Step-Good (yield s ni) g = record {
  valid = schedule-IsValid s g.valid ni;
  index_bound = rw (index-schedule s) g.index_bound;
}
Step-Good (exit s ni nz nc) g = record {
  valid = exit_process-IsValid s g.valid ni nz nc;
  index_bound = rw (index-exit s) g.index_bound;
}
Step-Good (collect s ni) g = record {
  valid = collector_round-IsValid s g.valid ni;
  index_bound = rw (index-collector_round s) g.index_bound;
}
Step-Good (create s s' entry arg p e) g =
    let c = create_process-Created entry arg s p s' g.valid g.index_bound e in
    record { valid = c.valid; index_bound = c.next_index }

-- From a good state only good states are reached: the lists agree with the states of the processes, no READY
-- process is lost, no process but the running one and perhaps the idle one is RUNNING, and the slot index
-- stays within the table.
pub Reach-Good : {s t : Kernel} → Good s → Reach s t → Good t
Reach-Good g here = g
Reach-Good g (next r st) = Step-Good st (Reach-Good g r)
