-- ===== src/Process/Pages.antt =====
-- kernel/proc/Process.c: the pages that user mode may access, and where the stacks lie.
use skhuos.Common.{
  ℕ, zero, suc, ◌+◌, ◌-◌, ◌*◌, ◌/◌, ◌%◌, ◌<◌, ◌≤◌, ◌≡◌, Bool, true, false, ◌&&◌, arith,
  if◌then◌else◌, leb, ltb, ◌∙◌,
}
use skhuos.Process.{
  Kernel, Page, user_memory_base, user_memory_end, user_code_size, process_stack_base,
  process_stack_size, process_stack_interval, process_max_count,
}
use skhuos.Process.Create.{set_user_pages, set_page_user_access, set_page, make_user, user_stack_of}
use skhuos.Process.Exit.{free_slot}

-- The loop of `setPageUserAccess` sets the U/S flag of `n` pages from that of `addr` on, and of no other.
set_user_pages_lem :
    (n addr : ℕ) (allow : Bool) (pages : ℕ → Page) (j : ℕ)
    → (set_user_pages n addr allow pages j).user
      ≡ (if leb (addr / 0x1000) j && ltb j (addr / 0x1000 + n) then allow else (pages j).user)
unfolding set_user_pages
set_user_pages_lem zero addr allow pages j = ground arith
set_user_pages_lem (suc n) addr allow pages j = ground (
  arith,
  set_user_pages_lem n (addr + 0x1000) allow
      (set_page pages (addr / 0x1000) (record (pages (addr / 0x1000)) { user = allow })) j,
  up,
)
  where
    up : (addr + 0x1000) / 0x1000 ≡ addr / 0x1000 + 1
    up = omega arith

-- `setPageUserAccess(start, end, allow)` sets the U/S flag of exactly the pages that hold an address from
-- `start` up to `end`, if `start` begins a page.
set_page_user_access_lem :
    (start end : ℕ) (allow : Bool) (s : Kernel) (j : ℕ)
    → start % 0x1000 ≡ 0
    → start ≤ end
    → ((set_page_user_access start end allow s).pages j).user
      ≡ (if leb start (j * 0x1000) && ltb (j * 0x1000) end then allow else (s.pages j).user)
unfolding set_page_user_access
set_page_user_access_lem start end allow s j a le =
    set_user_pages_lem ((end - start + 0xfff) / 0x1000) start allow s.pages j ∙ ground arith

-- Only pages of the user area, 48 to 64 MB, can be accessed in user mode.
abbrev pub UserOnly : Kernel → Type 0
UserOnly s =
    (j : ℕ)
    → (s.pages j).user ≡ true
    → (user_memory_base ≤ j * 0x1000) × (j * 0x1000 < user_memory_end)

-- The stack of a process `p` of the table lies in its area, and those of two processes are a page apart:
-- the kernel stacks below the user area, the user stacks in it, behind the user code.
stacks_apart :
    (p q : ℕ)
    → p < process_max_count
    → q < process_max_count
    → p < q
    → let stack : ℕ → ℕ = λ r. process_stack_base + process_stack_interval * r in
      (stack p + process_stack_size + 0x1000 ≤ stack q)
      × (stack q + process_stack_size ≤ user_memory_base)
      × (user_memory_base + user_code_size ≤ user_stack_of p)
      × (user_stack_of p + process_stack_size + 0x1000 ≤ user_stack_of q)
      × (user_stack_of q + process_stack_size ≤ user_memory_end)
stacks_apart p q hp hq h = omega arith

module _ (p : ℕ) (b : p < process_max_count) (s : Kernel) (u : UserOnly s) where
  access_UserOnly :
      (allow : Bool)
      → UserOnly
          (set_page_user_access (user_stack_of p) (user_stack_of p + process_stack_size) allow s)
  access_UserOnly allow j h = ground (
    arith,
    u j,
    set_page_user_access_lem (user_stack_of p) (user_stack_of p + process_stack_size) allow s j,
  )

-- Making a process of the table a user process keeps kernel memory out of user mode's reach, and so does
-- giving its slot back.
pub user_pages :
    (p : ℕ) (s : Kernel)
    → p < process_max_count
    → UserOnly s
    → UserOnly (make_user p s) × UserOnly (free_slot p s)
unfolding make_user free_slot
user_pages p s b u =
    (access_UserOnly p b s u true, λ j h. access_UserOnly p b s u false j (ground arith))
