-- ===== src/Shell/Tasks.antt =====
-- kernel/shell/Shell.c: the commands that start processes. The screen that they clear is left out.
pub mod Banner
use skhuos.Common.{
  ℕ, zero, suc, ◌+◌, ◌<◌, ◌≤◌, ◌≡◌, refl, sym, ap, ◌∙◌, Bool, true, false, Option, none, some, List,
  [], ◌∷◌, ◌++◌, ◌==◌, arith, if◌then◌else◌, Bool-cases, Option-cases, inl, inr, length, get_or,
  append_assoc, append_nil,
}
use mathlib.Core.Path.{subst}
use mathlib.Core.Option.{some-injective, none-ne-some}
use skhuos.Sectors.{Buffer}
use skhuos.Shell.{attack_flag}
use skhuos.Process.{Kernel, process_max_count, state_of, ready, reg_rip, reg_rdi, set_if}
use skhuos.Process.Create.{
  create_process, run_user_program, Launch, fill_slot, find_slot, set_up_process,
}
use skhuos.Process.Lifecycle.{Created, create_process_total, filled, create_some, create_none}
use skhuos.Process.Reach.{Good}

-- The number of lines of `bannerData`.
abbrev pub banner_lines : ℕ
banner_lines = 24

-- The loop of `processTest` from the line `i` on, with the lines that are left and the address of `bannerProcess`.
unfoldable pub create_banners : ℕ → ℕ → ℕ → Kernel → Option Kernel
create_banners zero i banner_process s = some s
create_banners (suc n) i banner_process s = elim (create_process banner_process i s) [
  | none ↦ none
  | some (p, s') ↦ create_banners n (i + 1) banner_process s'
]

unfoldable pub process_test : ℕ → Kernel → Option Kernel
process_test banner_process s = create_banners banner_lines 0 banner_process s

-- How many of the first `n` slots are free.
abbrev pub free_count : ℕ → (ℕ → Bool) → ℕ
free_count zero table = 0
free_count (suc n) table = free_count n table + (if table n then 0 else 1)

-- `ring3`, with the image of the user program; "ring3 fail!" is shown if that is too large.
unfoldable pub ring3_command : List ℕ → Buffer → Kernel → Launch
ring3_command image arg s =
    run_user_program image (length image) (if attack_flag arg then 1 else 0) s
