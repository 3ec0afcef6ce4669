-- ===== src/Process/Exit.antt =====
-- kernel/proc/Process.c: the end of a process, and the collector that frees its slot.
use skhuos.Common.{ℕ, ◌+◌, ◌-◌, ◌*◌, Bool, false, Option, List, [], ◌∷◌, ◌==◌, if◌then◌else◌}
use skhuos.Queue.Spec
use skhuos.Process.{Kernel, exited, set_state, set_if, process_stack_size, exit_queue_count}
use skhuos.Process.Switch.{schedule_blocked, block_running_process, wakeup_process}
use skhuos.Process.Create.{set_page_user_access, set_page, user_stack_of, kernel_size}

-- `exitProcess` behind `setIf(FALSE)`, with the collector to wake. The result of `enQueue` is not looked
-- at: a full queue drops the process id.
unfoldable pub end_process : Option ℕ → Kernel → Kernel
unfolding schedule_blocked wakeup_process
end_process collector s =
    let cur = s.running_process in
    let s₁ = record s {
      exit_process_queue = (Spec.push (exit_queue_count - 1) s.exit_process_queue cur).0;
    } in
    let s₂ = (wakeup_process collector s₁).1 in schedule_blocked (set_state s₂ cur exited)

-- `exitProcess`
unfoldable pub exit_process : Kernel → Kernel
unfolding end_process
exit_process s = let s₁ = (set_if false s).1 in end_process s₁.collector_process s₁

-- The slot of `pid` is given back: its table entry, its user stack and its page.
unfoldable pub free_slot : ℕ → Kernel → Kernel
unfolding set_page_user_access
free_slot pid s =
    let stack = user_stack_of pid in
    let s₁ = record s {
      alloc_process_table = λ q. if q == pid then false else s.alloc_process_table q;
    } in
    let s₂ = set_page_user_access stack (stack + process_stack_size) false s₁ in
    let page = kernel_size + pid * 2 in
    record s₂ { pages = set_page s₂.pages page (record (s₂.pages page) { present = false }) }

-- What the collector does with the queue at the head of its inner loop: it blocks, or takes one id out,
-- frees its slot and restores the interrupt flag.
unfoldable pub collect : Bool → List ℕ → Kernel → Kernel
unfolding block_running_process free_slot
collect pre_if [] s = block_running_process s
collect pre_if (pid ∷ rest) s =
    (set_if pre_if (free_slot pid (record s { exit_process_queue = rest }))).1

-- One round of `garbageProcessCollector` up to its end, or to the switch if the queue is empty. After the
-- switch the round goes on at the same test, with interrupts off.
unfoldable pub collector_round : Kernel → Kernel
unfolding collect
collector_round s = let (pre_if, s₁) = set_if false s in collect pre_if s₁.exit_process_queue s₁
