-- ===== src/Interrupt.antt =====
-- kernel/arch/HandlerImp.c, HandlerImp.h: the table of interrupt handlers, the dispatch, and exceptions. What they print is
-- left out.
pub mod Handlers
pub mod Frame
pub mod Keeps
pub mod Sound
pub mod Fault
use skhuos.Common.{
  ℤ, pos, negsuc, ℕ, ◌+◌, ◌%◌, Bool, true, false, Option, none, some, ◌==◌, if◌then◌else◌, leb,
}
use skhuos.Process.{Kernel, set_if}
use skhuos.Process.Exit.{exit_process}

abbrev pub interrupt_vector_count : ℕ
interrupt_vector_count = 48

-- `InterruptHandler` on a state; it may not return.
abbrev pub InterruptHandler : Type 0 → Type 0
InterruptHandler S = ℕ → S → Option S

-- `interruptHandlers`; `none` is NULL.
abbrev pub HandlerTable : Type 0 → Type 0
HandlerTable S = ℕ → Option (InterruptHandler S)

unfoldable pub register_interrupt_handler :
    {S : Type 0} → ℤ → InterruptHandler S → HandlerTable S → HandlerTable S
register_interrupt_handler (negsuc n) handler table = table
register_interrupt_handler (pos v) handler table =
    if leb interrupt_vector_count v then table else λ w. if w == v then some handler else table w

-- `dispatchInterrupt` behind the access to the table.
abbrev pub call_handler : {S : Type 0} → Option (InterruptHandler S) → InterruptHandler S
call_handler none vector_number s = some s
call_handler (some handler) vector_number s = handler vector_number s

unfoldable pub dispatch_interrupt : {S : Type 0} → HandlerTable S → InterruptHandler S
dispatch_interrupt table vector_number s = call_handler (table vector_number) vector_number s

abbrev pub rpl_user : ℕ
rpl_user = 3

-- `exceptionHandler`, for the code segment of the code that the exception interrupts; `none` if the system halts.
unfoldable pub exception_handler : ℕ → Kernel → Option Kernel
exception_handler cs s =
    let s₁ = (set_if false s).1 in if cs % 4 == rpl_user then some (exit_process s₁) else none
