-- ===== src/Process/Switch.antt =====
-- kernel/proc/Process.c: blocking, waking and the timer. A function that switches contexts ends, here, with
-- the switch: what the blocked process does once it runs again belongs to a later step.
use skhuos.Common.{
  ℕ, ◌+◌, ◌-◌, ◌/◌, ◌%◌, ◌^◌, Bool, true, false, Option, none, some, List, [], ◌∷◌, ◌==◌, leb,
  if◌then◌else◌,
}
use skhuos.LinkedList.Spec
use skhuos.Process.{
  Kernel, ProcessState, ready, running, blocked, exited, slot_time, set_pcb, set_state, state_of,
  set_if,
}

-- `state == PROCESS_STATE_BLOCKED`
abbrev pub is_blocked : ProcessState → Bool
is_blocked ready = false
is_blocked running = false
is_blocked blocked = true
is_blocked exited = false

-- `updateTSSRsp0`
abbrev pub update_tss_rsp0 : Kernel → ℕ → Kernel
update_tss_rsp0 s p = record s {
  rsp0 = ((s.pcbs p).stack_address + (s.pcbs p).stack_size) % 2 ^ 64;
}

-- `switchContext(&cur->context, &next->context)`: the registers, as they are when the call returns, go to
-- the PCB of `cur`, and those of `next` are loaded.
abbrev pub switch_context : Kernel → ℕ → ℕ → Kernel
switch_context s cur next =
    let saved = set_pcb s cur (record (s.pcbs cur) { context = s.cpu }) in
    record saved { cpu = (saved.pcbs next).context }

-- The process that runs next if the ready list gave `o`.
abbrev pub or_idle : Kernel → Option ℕ → ℕ
or_idle s none = s.idle_process
or_idle s (some p) = p

-- `scheduleBlocked` behind `HeadRemove`, with what that gave and left.
unfoldable pub switch_blocked : Option ℕ × List ℕ → Kernel → Kernel
switch_blocked (o, rest) s =
    let cur = s.running_process in
    let next = or_idle s o in
    let s₁ = set_state (record s { process_list = rest }) next running in
    switch_context (update_tss_rsp0 (record s₁ { running_process = next }) next) cur next

unfoldable pub schedule_blocked : Kernel → Kernel
unfolding switch_blocked
schedule_blocked s = switch_blocked (Spec.head_remove s.process_list) s

unfoldable pub block_running_process : Kernel → Kernel
unfolding schedule_blocked
block_running_process s = schedule_blocked (set_state s s.running_process blocked)

unfoldable pub sleep_until_tick : ℕ → Kernel → Kernel
unfolding block_running_process
sleep_until_tick tick s =
    let cur = s.running_process in
    let s₁ = set_pcb s cur (record (s.pcbs cur) { wakeup_tick = tick }) in
    block_running_process (record s₁ { sleep_list = Spec.insert s₁.sleep_list cur })

-- The tick at which `sleepProcess(ms)` ends; the additions are those of QWORD.
abbrev pub sleep_deadline : ℕ → ℕ → ℕ
sleep_deadline tick_count ms = (tick_count + (ms + slot_time - 1) % 2 ^ 64 / slot_time) % 2 ^ 64

-- `sleepProcess`, up to the switch.
unfoldable pub sleep_process : ℕ → Kernel → Kernel
unfolding sleep_until_tick
sleep_process ms s =
    let (pre_if, s₁) = set_if false s in sleep_until_tick (sleep_deadline s₁.tick_count ms) s₁

unfoldable pub wakeup : ℕ → Kernel → Bool × Kernel
wakeup p s =
    if is_blocked (state_of s p)
    then (let s₁ = set_state (record s { sleep_list = Spec.remove s.sleep_list p }) p ready in
        (true, record s₁ { process_list = Spec.insert s₁.process_list p }))
    else (false, s)

-- `wakeupProcess`
unfoldable pub wakeup_process : Option ℕ → Kernel → Bool × Kernel
unfolding wakeup
wakeup_process none s = (false, s)
wakeup_process (some p) s = wakeup p s

-- `timeoutSchedule`, with the ready list as its first argument.
unfoldable pub timeout_switch : List ℕ → Kernel → Kernel
timeout_switch [] s = s
timeout_switch (next ∷ rest) s =
    let cur = s.running_process in
    let s₁ = record s { process_list = rest } in
    let s₂ = set_pcb s₁ cur (record (s₁.pcbs cur) { context = s.ist }) in
    let s₃ =
      if cur == s.idle_process
      then s₂
      else (let s₄ = set_state s₂ cur ready in
          record s₄ { process_list = Spec.insert s₄.process_list cur }) in
    let s₅ = set_state s₃ next running in
    let s₆ = update_tss_rsp0 (record s₅ { running_process = next }) next in
    record s₆ { ist = (s₆.pcbs next).context }

unfoldable pub timeout_schedule : Kernel → Kernel
unfolding timeout_switch
timeout_schedule s = timeout_switch s.process_list s

-- `wakeupProcessInInterrupt`
unfoldable pub wakeup_process_in_interrupt : Option ℕ → Kernel → Kernel
unfolding wakeup_process timeout_schedule
wakeup_process_in_interrupt o s =
    let (woken, s₁) = wakeup_process o s in
    if woken
    then (if s₁.running_process == s₁.idle_process then timeout_schedule s₁ else s₁)
    else s₁

-- The body of the loop of `wakeExpiredProcess`.
unfoldable pub wake_if_due : ℕ → Kernel → Kernel
unfolding wakeup
wake_if_due p s = if leb (s.pcbs p).wakeup_tick s.tick_count then (wakeup p s).1 else s

-- The loop of `wakeExpiredProcess`: it walks the sleep list as it was at the start, since the loop reads
-- `next` before it takes a node out.
unfoldable pub wake_expired : List ℕ → Kernel → Kernel
unfolding wake_if_due
wake_expired [] s = s
wake_expired (p ∷ ps) s = wake_expired ps (wake_if_due p s)

-- `timerInterruptHandler`, but for the end-of-interrupt command to the PIC.
unfoldable pub timer_interrupt : Kernel → Kernel
unfolding wake_expired timeout_schedule
timer_interrupt s =
    let s₁ = record s { tick_count = (s.tick_count + 1) % 2 ^ 64 } in
    timeout_schedule (wake_expired s₁.sleep_list s₁)

-- `schedule` behind `HeadRemove`, up to the switch; with an empty ready list it returns at once.
unfoldable pub switch_ready : Bool → Option ℕ × List ℕ → Kernel → Kernel
switch_ready pre_if (none, rest) s = (set_if pre_if s).1
switch_ready pre_if (some next, rest) s =
    let cur = s.running_process in
    let s₁ = set_state (record s { process_list = rest }) cur ready in
    let s₂ = record s₁ { process_list = Spec.insert s₁.process_list cur } in
    let s₃ = set_state s₂ next running in
    switch_context (update_tss_rsp0 (record s₃ { running_process = next }) next) cur next

unfoldable pub schedule : Kernel → Kernel
unfolding switch_ready
schedule s =
    let (pre_if, s₁) = set_if false s in switch_ready pre_if (Spec.head_remove s₁.process_list) s₁
