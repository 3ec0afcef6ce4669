-- ===== src/Syscall.antt =====
-- kernel/syscall/Syscall.c: the check of user pointers, `writeXY`, and the dispatch of system calls. User
-- memory is the memory of the screen's model, as one address space.
pub mod Check
use skhuos.Common.{
  ℕ, zero, suc, ◌+◌, ◌-◌, ◌*◌, ◌/◌, ◌%◌, ◌^◌, Bool, true, false, ◌||◌, not, ◌==◌, if◌then◌else◌,
  leb, ltb,
}
use skhuos.Process.{Kernel, user_memory_base, user_memory_end, get_running_pid}
use skhuos.Process.Switch.{sleep_process}
use skhuos.Process.Exit.{exit_process}
use skhuos.Screen.{Screen, view_character_xy}

abbrev pub syscall_fail : ℕ
syscall_fail = 2 ^ 64 - 1

-- The loop of `isUserString`, with the addresses up to the end of the user area that are left.
unfoldable pub find_nul : (ℕ → ℕ) → ℕ → ℕ → Bool
find_nul mem addr zero = false
find_nul mem addr (suc n) =
    let rest = find_nul mem (addr + 1) n in if mem addr == 0 then true else rest

unfoldable pub is_user_string : (ℕ → ℕ) → ℕ → Bool
is_user_string mem addr =
    if ltb addr user_memory_base || leb user_memory_end addr
    then false
    else find_nul mem addr (user_memory_end - addr)

abbrev pub line_width : ℕ
line_width = 80

-- The loop of `writeXY` from the index `i` on, with the columns that are left.
unfoldable pub write_loop : ℕ → ℕ → (line column i : ℕ) → Screen → Screen
write_loop zero str line column i s = s
write_loop (suc n) str line column i s =
    let c = s.memory (str + i) in
    let rest = write_loop n str line column (i + 1) (view_character_xy c line (column + i) s) in
    if c == 0 then s else rest

-- `writeXY`: what it returns, and the memory behind it.
unfoldable pub write_xy : (line column str : ℕ) → Screen → ℕ × Screen
write_xy line column str s =
    if leb 25 line || (leb line_width column || not (is_user_string s.memory str))
    then (syscall_fail, s)
    else (0, write_loop (line_width - column) str line column 0 s)

-- What `dispatchSyscall` does: it returns a value, or the caller is switched away from (`left`); after a
-- sleep the call returns 0 when the caller runs again, after an exit it does not return.
pub data Outcome : Type 0 where
  returns : ℕ → Kernel → Screen → Outcome
  sleeps exits : Kernel → Outcome

unfoldable pub dispatch_syscall : (number arg1 arg2 arg3 : ℕ) → Kernel → Screen → Outcome
dispatch_syscall number arg1 arg2 arg3 k s =
    if number == 1
    then (let (r, s') = write_xy arg1 arg2 arg3 s in returns r k s')
    else if number == 2
    then sleeps (sleep_process arg1 k)
    else if number == 3
    then returns (get_running_pid k) k s
    else if number == 4
    then exits (exit_process k)
    else returns syscall_fail k s
