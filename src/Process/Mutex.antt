-- ===== src/Process/Mutex.antt =====
-- kernel/proc/Sync.c: the reentrant mutex whose owner hands it to the first process that waits. The owner
-- -1 of a free mutex is `none`. A call that blocks ends, here, with the switch.
pub mod Handover
pub mod Inv
use skhuos.Common.{
  ℕ, ◌+◌, ◌-◌, ◌%◌, ◌^◌, Bool, true, false, Option, none, some, List, [], ◌∷◌, ◌==◌, if◌then◌else◌,
}
use skhuos.LinkedList.Spec
use skhuos.Process.{Kernel, set_if, get_running_pid}
use skhuos.Process.Switch.{block_running_process, wakeup_process}

-- `Mutex`
pub record Mutex : Type 0 where
  pub pid : Option ℕ
  pub count : ℕ
  pub wait_list : List ℕ

unfoldable pub init_mutex : Mutex
init_mutex = record { pid = none; count = 0; wait_list = [] }

-- `mutex->pid == p`
abbrev pub owned_by : Option ℕ → ℕ → Bool
owned_by none p = false
owned_by (some q) p = q == p

-- `mutex->pid == -1`
abbrev pub is_free : Option ℕ → Bool
is_free none = true
is_free (some q) = false

unfoldable pub acquire_lock : Mutex → Kernel → Mutex × Kernel
acquire_lock m s =
    let (pre_if, s₁) = set_if false s in
    let cur = get_running_pid s₁ in
    if owned_by m.pid cur
    then (record m { count = (m.count + 1) % 2 ^ 16 }, (set_if pre_if s₁).1)
    else if is_free m.pid
    then (record m { pid = some cur; count = 1 }, (set_if pre_if s₁).1)
    else (record m { wait_list = Spec.insert m.wait_list cur }, block_running_process s₁)

-- The branch of `releaseLock` in which the count has fallen to 0, with what `HeadRemove` gave and left.
unfoldable pub hand_over : Option ℕ × List ℕ → Mutex → Kernel → Mutex × Kernel
hand_over (none, rest) m s = (record m { pid = none; wait_list = rest }, s)
hand_over (some next, rest) m s =
    (record m { pid = some next; count = 1; wait_list = rest }, (wakeup_process (some next) s).1)

-- `count` is a WORD: 0 less 1 is 65535.
abbrev pub dec_word : ℕ → ℕ
dec_word n = (n + 2 ^ 16 - 1) % 2 ^ 16

-- `releaseLock` for the owner.
unfoldable pub release_owned : Mutex → Kernel → Mutex × Kernel
unfolding hand_over
release_owned m s =
    let m₁ = record m { count = dec_word m.count } in
    if m₁.count == 0 then hand_over (Spec.head_remove m₁.wait_list) m₁ s else (m₁, s)

unfoldable pub release_lock : Mutex → Kernel → Mutex × Kernel
unfolding release_owned
release_lock m s =
    let (pre_if, s₁) = set_if false s in
    if owned_by m.pid (get_running_pid s₁)
    then (let (m₂, s₂) = release_owned m s₁ in (m₂, (set_if pre_if s₂).1))
    else (m, (set_if pre_if s₁).1)
