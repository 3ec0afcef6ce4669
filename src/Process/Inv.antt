-- ===== src/Process/Inv.antt =====
-- The invariant of the scheduler's lists and process states, over what it reads of the kernel's state.
pub mod Dispatch
pub mod Wake
pub mod Preempt
pub mod Slot
use skhuos.Common.{ℕ, ◌≡◌, ◌≢◌, ◌⊎◌, Bool, true, false, Option, some, List, ◌==◌, has, distinct}
use skhuos.Process.{Kernel, ProcessState, ready, running, blocked, exited, state_of}

-- The part of the kernel's state that the invariant is about.
pub record View : Type 0 where
  pub st : ℕ → ProcessState
  pub run : ℕ
  pub idle : ℕ
  pub rl : List ℕ
  pub sl : List ℕ
  pub ex : List ℕ
  pub taken : ℕ → Bool
  pub col : Option ℕ

abbrev pub view : Kernel → View
view s = record {
  st = λ p. state_of s p;
  run = s.running_process;
  idle = s.idle_process;
  rl = s.process_list;
  sl = s.sleep_list;
  ex = s.exit_process_queue;
  taken = s.alloc_process_table;
  col = s.collector_process;
}

-- What the lists promise of their processes. `rl` and `sl` hold READY and BLOCKED processes that have a
-- slot, none twice, and not the idle one; every READY process but the idle one is in `rl`.
pub record Lists (v : View) : Type 0 where
  pub ready_state : (p : ℕ) → has p v.rl ≡ true → v.st p ≡ ready
  pub sleep_state : (p : ℕ) → has p v.sl ≡ true → v.st p ≡ blocked
  pub ready_distinct : distinct v.rl ≡ true
  pub sleep_distinct : distinct v.sl ≡ true
  pub ready_taken : (p : ℕ) → has p v.rl ≡ true → v.taken p ≡ true
  pub sleep_taken : (p : ℕ) → has p v.sl ≡ true → v.taken p ≡ true
  pub idle_out : has v.idle v.rl ≡ false
  pub ready_listed : (p : ℕ) → v.taken p ≡ true → v.st p ≡ ready → p ≢ v.idle → has p v.rl ≡ true

-- What is promised of the idle process, of slot 0 (the shell), and of RUNNING processes: only the running
-- process is RUNNING, but that the idle process keeps this state when it is preempted. The collector has a
-- slot and has not ended.
pub record Slots (v : View) : Type 0 where
  pub idle_state : (v.st v.idle ≡ ready) ⊎ (v.st v.idle ≡ running)
  pub one_running : (p : ℕ) → v.taken p ≡ true → v.st p ≡ running → (p ≡ v.run) ⊎ (p ≡ v.idle)
  pub running_taken : v.taken v.run ≡ true
  pub idle_taken : v.taken v.idle ≡ true
  pub zero_taken : v.taken 0 ≡ true
  pub collector_alive : (c : ℕ) → v.col ≡ some c → (v.taken c ≡ true) × (v.st c ≢ exited)

-- The processes that wait to be collected have ended, have their slot still, and wait once.
pub record Exits (v : View) : Type 0 where
  pub exit_distinct : distinct v.ex ≡ true
  pub exit_state : (p : ℕ) → has p v.ex ≡ true → v.st p ≡ exited
  pub exit_taken : (p : ℕ) → has p v.ex ≡ true → v.taken p ≡ true
  pub exit_ne_zero : (p : ℕ) → has p v.ex ≡ true → p ≢ 0

pub record Valid (v : View) : Type 0 where
  pub lists : Lists v
  pub slots : Slots v
  pub exits : Exits v
  pub running_state : v.st v.run ≡ running

-- The invariant of the scheduler.
abbrev pub IsValid : Kernel → Type 0
IsValid s = Valid (view s)

-- `st'` is `st` but at `p`.
abbrev pub Changed : (ℕ → ProcessState) → (ℕ → ProcessState) → ℕ → ProcessState → Type 0
Changed st st' p x = (q : ℕ) → (q ≡ p → st' q ≡ x) × (q ≢ p → st' q ≡ st q)
