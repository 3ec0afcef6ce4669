-- ===== src/Process.antt =====
-- kernel/proc/Process.h and the state of kernel/proc/Process.c, kernel/proc/Sync.c and of the processor
-- that the scheduler changes.
--
-- A `PCB *` is the process id that the PCB carries (`link.id`): the PCBs lie in the pool at
-- `PCB_POOL_ADDRESS + sizeof(PCB) * pid`; NULL is `none`. The lists are the sequences of their ids, used
-- through `LinkedList.Spec`, which LinkedList.Refine shows that the lists in memory implement.
pub mod Switch
pub mod Create
pub mod Exit
pub mod Inv
pub mod Leave
pub mod End
pub mod Lifecycle
pub mod Fair
pub mod Frame
pub mod Mutex
pub mod Pages
pub mod Reach
pub mod Sleep
pub mod Timer
pub mod Stale
use skhuos.Common.{
  ℕ, ◌+◌, ◌-◌, ◌*◌, ◌/◌, ◌%◌, ◌^◌, Bool, true, false, Option, List, ◌==◌, if◌then◌else◌,
}

-- `PROCESS_STATE_…`
pub data ProcessState : Type 0 where
  ready running blocked exited : ProcessState

abbrev pub reg_gs : ℕ
reg_gs = 0

abbrev pub reg_fs : ℕ
reg_fs = 1

abbrev pub reg_es : ℕ
reg_es = 2

abbrev pub reg_ds : ℕ
reg_ds = 3

abbrev pub reg_rdi : ℕ
reg_rdi = 9

abbrev pub reg_rbp : ℕ
reg_rbp = 10

abbrev pub reg_rip : ℕ
reg_rip = 19

abbrev pub reg_cs : ℕ
reg_cs = 20

abbrev pub reg_rflags : ℕ
reg_rflags = 21

abbrev pub reg_rsp : ℕ
reg_rsp = 22

abbrev pub reg_ss : ℕ
reg_ss = 23

abbrev pub process_stack_base : ℕ
process_stack_base = 0x2000000

abbrev pub process_stack_size : ℕ
process_stack_size = 0x2000

abbrev pub process_stack_interval : ℕ
process_stack_interval = 0x3000

abbrev pub slot_time : ℕ
slot_time = 5

abbrev pub process_max_count : ℕ
process_max_count = 1024

abbrev pub user_memory_base : ℕ
user_memory_base = 0x3000000

abbrev pub user_code_size : ℕ
user_code_size = 0x100000

abbrev pub user_stack_base : ℕ
user_stack_base = user_memory_base + user_code_size

abbrev pub user_memory_end : ℕ
user_memory_end = 0x4000000

abbrev pub exit_queue_count : ℕ
exit_queue_count = 100

-- `ProcessContext`: the value of each register.
abbrev pub Context : Type 0
Context = ℕ → ℕ

abbrev pub write_reg : Context → ℕ → ℕ → Context
write_reg c r v i = if i == r then v else c i

-- `PCB`
pub record Pcb : Type 0 where
  pub stack_size : ℕ
  pub stack_address : ℕ
  pub state : ProcessState
  pub wakeup_tick : ℕ
  pub context : Context

-- The flags of a page table entry that the kernel changes after boot.
pub record Page : Type 0 where
  pub present : Bool
  pub user : Bool

-- The static variables of Process.c with the PCB pool, the page table, the block of user code, the
-- registers, the interrupt frame on the IST stack and the TSS field RSP0.
pub record Kernel : Type 0 where
  pub pcbs : ℕ → Pcb
  pub running_process : ℕ
  pub idle_process : ℕ
  pub process_list : List ℕ
  pub sleep_list : List ℕ
  pub pid_count_idx : ℕ
  pub alloc_process_table : ℕ → Bool
  pub exit_process_queue : List ℕ
  pub collector_process : Option ℕ
  pub tick_count : ℕ
  pub pages : ℕ → Page
  pub user_code : List ℕ
  pub cpu : Context
  pub ist : Context
  pub rsp0 : ℕ

abbrev pub state_of : Kernel → ℕ → ProcessState
state_of s p = (s.pcbs p).state

-- An assignment to the PCB of `p`.
abbrev pub set_pcb : Kernel → ℕ → Pcb → Kernel
set_pcb s p b = record s { pcbs = λ q. if q == p then b else s.pcbs q }

abbrev pub set_state : Kernel → ℕ → ProcessState → Kernel
set_state s p st = set_pcb s p (record (s.pcbs p) { state = st })

-- Bit 9 of RFLAGS: whether interrupts are enabled.
abbrev pub interrupts_on : Context → Bool
interrupts_on c = (c reg_rflags / 512) % 2 == 1

-- `setIf`: the previous state of the flag, and the flag set (`sti`) or cleared (`cli`).
unfoldable pub set_if : Bool → Kernel → Bool × Kernel
set_if on s =
    let pre = interrupts_on s.cpu in
    let f = s.cpu reg_rflags in
    let cleared = if pre then f - 512 else f in
    (pre, record s { cpu = write_reg s.cpu reg_rflags (if on then cleared + 512 else cleared) })

-- `getRunningPid`
abbrev pub get_running_pid : Kernel → ℕ
get_running_pid s = s.running_process
