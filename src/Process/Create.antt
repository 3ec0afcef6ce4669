-- ===== src/Process/Create.antt =====
-- kernel/proc/Process.c: setting up kernel and user processes, and `initScheduler`.
use skhuos.Common.{
  ℕ, zero, suc, ◌+◌, ◌-◌, ◌*◌, ◌/◌, ◌%◌, ◌^◌, Bool, true, false, Option, none, some, List, [], ◌==◌,
  ltb, leb, if◌then◌else◌,
}
use skhuos.CString.{memcpy}
use skhuos.LinkedList.Spec
use skhuos.Process.{
  Kernel, Pcb, Page, Context, write_reg, ready, running, set_pcb, set_state, set_if, reg_gs, reg_fs,
  reg_es, reg_ds, reg_rdi, reg_rbp, reg_rip, reg_cs, reg_rflags, reg_rsp, reg_ss,
  process_stack_base, process_stack_interval, process_stack_size, process_max_count,
  user_memory_base, user_code_size, user_stack_base,
}

-- `CODE_DESCRIPTOR_OFFSET` and its kin of kernel/arch/Descriptor.h, the user's with their privilege level.
abbrev pub kernel_code : ℕ
kernel_code = 0x10

abbrev pub kernel_data : ℕ
kernel_data = 0x08

abbrev pub user_code_selector : ℕ
user_code_selector = 0x23

abbrev pub user_data_selector : ℕ
user_data_selector = 0x1b

-- The segment registers but CS.
abbrev pub set_data_segments : ℕ → Context → Context
set_data_segments v c =
    write_reg (write_reg (write_reg (write_reg (write_reg c reg_ss v) reg_ds v) reg_es v) reg_fs v)
      reg_gs v

-- The registers over which the first `n` of the `int`s in them are cleared.
abbrev pub clear_ints : ℕ → Context → Context
clear_ints n c i =
    if leb (2 * i + 2) n then 0 else if leb (2 * i + 1) n then c i / 2 ^ 32 * 2 ^ 32 else c i

-- `InitializeMemory(start, end)` of kernel/lib/64bit.c on the registers that lie at `start`: it takes `end` for an address.
unfoldable pub initialize_memory : ℕ → ℕ → Context → Context
initialize_memory start end c = clear_ints ((end - start + 3) / 4) c

-- Where the registers in the PCB of `p` lie: `PCB_POOL_ADDRESS + sizeof(PCB) * p`, and the fields before them.
abbrev pub context_address : ℕ → ℕ
context_address p = 0x1000000 + 237 * p + 45

-- The registers that `setUpProcess` leaves: what `InitializeMemory` left, then the segments, the entry point, the stack
-- and IF, which is `|=`.
abbrev pub fresh_context : Context → ℕ → ℕ → Context
fresh_context c entry top =
    write_reg
      (write_reg
        (write_reg
          (write_reg (set_data_segments kernel_data (write_reg c reg_cs kernel_code)) reg_rip entry)
          reg_rsp top)
        reg_rbp top)
      reg_rflags (if c reg_rflags / 512 % 2 == 1 then c reg_rflags else c reg_rflags + 512)

-- `setUpProcess`, with the address of the registers and `sizeof(pcb->context.reg)`.
unfoldable pub set_up_process : ℕ → Pcb → ℕ → ℕ → ℕ → Pcb
unfolding initialize_memory
set_up_process address pcb entry stack_address stack_size = record pcb {
  stack_address = stack_address;
  stack_size = stack_size;
  context =
      fresh_context (initialize_memory address 192 pcb.context) entry
        ((stack_address + stack_size) % 2 ^ 64);
}

-- The search of `createProcess` for a free slot, `k` being `PROCESS_MAXCOUNT - tryCount`; `none` stands for
-- the message and the endless loop behind it.
unfoldable pub find_slot : ℕ → (ℕ → Bool) → ℕ → Option ℕ
find_slot zero table idx = if table (idx % process_max_count) then none else some idx
find_slot (suc k) table idx =
    let more = find_slot k table ((idx + 1) % process_max_count) in
    if table (idx % process_max_count) then more else some idx

-- The first page table entry behind those of the kernel area, `KERNEL_SIZE` of kernel/mm/Memory.h.
abbrev pub kernel_size : ℕ
kernel_size = 0x4000

abbrev pub set_page : (ℕ → Page) → ℕ → Page → ℕ → Page
set_page pages i v j = if j == i then v else pages j

-- The assignments of `createProcess` behind the search, with the slot `p` that it found.
unfoldable pub fill_slot : ℕ → ℕ → ℕ → Kernel → Kernel
unfolding set_up_process
fill_slot p entry arg s =
    let stack = process_stack_base + process_stack_interval * p in
    let pcb = set_up_process (context_address p) (s.pcbs p) entry stack process_stack_size in
    let pcb₁ = record pcb { context = write_reg pcb.context reg_rdi arg; state = ready } in
    let page = kernel_size + p * 2 in
    record (set_pcb s p pcb₁) {
      process_list = Spec.insert s.process_list p;
      pages = set_page s.pages page (record (s.pages page) { present = true });
      alloc_process_table = λ q. if q == p then true else s.alloc_process_table q;
      pid_count_idx = (p + 1) % 2 ^ 16;
    }

-- `createProcess`: the new process and the state; `none` if it hangs.
unfoldable pub create_process : ℕ → ℕ → Kernel → Option (ℕ × Kernel)
unfolding find_slot fill_slot
create_process entry arg s =
    let (pre_if, s₁) = set_if false s in
    elim (find_slot process_max_count s₁.alloc_process_table s₁.pid_count_idx) [
      | none ↦ none
      | some p ↦ some (p, (set_if pre_if (fill_slot p entry arg s₁)).1)
    ]

-- The loop of `setPageUserAccess` with the pages that are left; the flush of the TLB has no state here.
unfoldable pub set_user_pages : ℕ → ℕ → Bool → (ℕ → Page) → ℕ → Page
set_user_pages zero addr allow pages = pages
set_user_pages (suc n) addr allow pages =
    let i = addr / 0x1000 in
    set_user_pages n (addr + 0x1000) allow (set_page pages i (record (pages i) { user = allow }))

unfoldable pub set_page_user_access : ℕ → ℕ → Bool → Kernel → Kernel
unfolding set_user_pages
set_page_user_access start end allow s = record s {
  pages = set_user_pages ((end - start + 0xfff) / 0x1000) start allow s.pages;
}

abbrev pub user_stack_of : ℕ → ℕ
user_stack_of p = user_stack_base + process_stack_interval * p

abbrev pub user_context : Context → ℕ → Context
user_context c top =
    write_reg
      (write_reg (set_data_segments user_data_selector (write_reg c reg_cs user_code_selector))
        reg_rsp top)
      reg_rbp top

-- What `createUserProcess` does with the process that `createProcess` made.
unfoldable pub make_user : ℕ → Kernel → Kernel
unfolding set_page_user_access
make_user p s =
    let stack = user_stack_of p in
    let s₁ = set_page_user_access stack (stack + process_stack_size) true s in
    set_pcb s₁ p (record (s₁.pcbs p) {
      context = user_context (s₁.pcbs p).context (stack + process_stack_size);
    })

unfoldable pub create_user_process : ℕ → ℕ → Kernel → Option (ℕ × Kernel)
unfolding create_process make_user
create_user_process entry arg s =
    let (pre_if, s₁) = set_if false s in
    elim (create_process entry arg s₁) [
      | none ↦ none
      | some (p, s₂) ↦ some (p, (set_if pre_if (make_user p s₂)).1)
    ]

-- What `runUserProgram` returns: NULL for an image that is too large, or the new process.
pub data Launch : Type 0 where
  too_large : Launch
  hangs : Launch
  started : ℕ → Kernel → Launch

unfoldable pub run_user_program : List ℕ → ℕ → ℕ → Kernel → Launch
unfolding create_user_process
run_user_program image size arg s =
    if ltb user_code_size size
    then too_large
    else (let (pre_if, s₁) = set_if false s in
        let s₂ = record s₁ { user_code = memcpy s₁.user_code 0 image 0 size } in
        let s₃ =
          set_page_user_access user_memory_base (user_memory_base + user_code_size) true s₂ in
        elim (create_user_process user_memory_base arg s₃) [
          | none ↦ hangs
          | some (p, s₄) ↦ started p (set_if pre_if s₄).1
        ])

-- `initScheduler` on the cleared state of boot, with the addresses of the two process functions. The
-- registration of the timer handler has no state here.
unfoldable pub init_scheduler : (collector_entry idle_entry : ℕ) → Kernel → Option Kernel
unfolding create_process
init_scheduler collector_entry idle_entry s =
    let s₁ = set_state (record s { pid_count_idx = 0 }) 0 running in
    let s₂ = record s₁ {
      alloc_process_table = λ q. if q == 0 then true else s.alloc_process_table q;
      pid_count_idx = 1;
      process_list = [];
      sleep_list = [];
      running_process = 0;
      exit_process_queue = [];
    } in
    elim (create_process collector_entry 0 s₂) [
      | none ↦ none
      | some (c, s₃) ↦
          elim (create_process idle_entry 0 (record s₃ { collector_process = some c })) [
            | none ↦ none
            | some (i, s₄) ↦
                some (record s₄ { idle_process = i; process_list = Spec.remove s₄.process_list i })
          ]
    ]
