-- ===== src/Shell/Tasks/Banner.antt =====
-- kernel/shell/Shell.c: the processes of the banner that `processTest` starts.
use skhuos.Common.{ℕ, ◌+◌, ◌<◌, ◌≡◌, Bool, true, List, ◌++◌, ◌==◌, if◌then◌else◌, length, get_or}
use skhuos.Process.{Kernel, process_max_count, state_of, ready, reg_rip, reg_rdi}
use skhuos.Process.Reach.{Good}
use skhuos.Shell.Tasks.{free_count}

abbrev taking : (ℕ → Bool) → ℕ → ℕ → Bool
taking table p q = if q == p then true else table q

-- A READY process, in a slot that is taken, that is about to run an entry point with an argument.
pub record Starts (entry arg : ℕ) (s : Kernel) (p : ℕ) : Type 0 where
  pub taken : s.alloc_process_table p ≡ true
  pub is_ready : state_of s p ≡ ready
  pub at_entry : (s.pcbs p).context reg_rip ≡ entry
  pub with_arg : (s.pcbs p).context reg_rdi ≡ arg

-- The processes that were there stay, with their PCBs.
abbrev Keeps : Kernel → Kernel → Type 0
Keeps s s' =
    (q : ℕ)
    → s.alloc_process_table q ≡ true
    → (s'.alloc_process_table q ≡ true) × (s'.pcbs q ≡ s.pcbs q)

-- What a run that made the processes `ps` for the lines from `i` on comes to.
record Spawned (entry i : ℕ) (ps : List ℕ) (s s' : Kernel) : Type 0 where
  good : Good s'
  slots_used :
      free_count process_max_count s'.alloc_process_table + length ps
      ≡ free_count process_max_count s.alloc_process_table
  last_ready : s'.process_list ≡ s.process_list ++ ps
  started : (l : ℕ) → l < length ps → Starts entry (i + l) s' (get_or ps l 0)
  kept : Keeps s s'
