-- ===== src/Process/Lifecycle.antt =====
-- kernel/proc/Process.c: creating a process keeps the invariant, and finds a free slot if there is one.
use skhuos.Common.{
  ℕ, zero, suc, ◌+◌, ◌-◌, ◌%◌, ◌<◌, ◌≤◌, ◌≡◌, ◌≢◌, ◌⊎◌, inl, inr, refl, Bool, true, false, none,
  some, [], ◌∷◌, ◌++◌, ◌==◌, arith, if◌then◌else◌, Bool-cases, Option-cases, sym, ◌∙◌,
}
use mathlib.Core.Path.{fun_ext, subst}
use mathlib.Core.Option.{some-injective, none-ne-some}
use skhuos.Process.{Kernel, ProcessState, set_if, process_max_count}
use skhuos.Process.Create.{find_slot, fill_slot, create_process, make_user, set_page_user_access}
use skhuos.Process.Inv.{Valid, IsValid, View, view}
use skhuos.Process.Inv.Slot.{create-Valid}

index_lem : (idx : ℕ) → idx ≤ 1024 → (idx ≡ idx % 1024) ⊎ (idx % 1024 ≡ 0)
index_lem idx h = elim (Bool-cases (idx == 1024)) [
  | inl e ↦ inr (ground arith)
  | inr n ↦ inl (ground arith)
]

-- A slot that the search finds is free; from an index of at most 1024, and with slot 0 taken, it is one
-- of the 1024 slots.
pub find_slot_lem :
    (k : ℕ) (table : ℕ → Bool) (idx p : ℕ)
    → table 0 ≡ true
    → idx ≤ 1024
    → find_slot k table idx ≡ some p
    → (table p ≡ false) × (p < 1024)
unfolding find_slot
find_slot_lem zero table idx p z b h = ground (arith, index_lem idx b)
find_slot_lem (suc k) table idx p z b h =
    ground (arith, index_lem idx b, find_slot_lem k table ((idx + 1) % 1024) p z)

-- The next index is one step nearer to `f`, going round.
next_index : (r : ℕ) → r < 1024 → (r + 1) % 1024 ≡ (if r == 1023 then 0 else r + 1)
next_index r h = ground arith

closer :
    (f idx k : ℕ)
    → f < 1024
    → idx % 1024 ≢ f
    → (f + 1024 - idx % 1024) % 1024 ≤ suc k
    → (f + 1024 - (idx + 1) % 1024 % 1024) % 1024 ≤ k
closer f idx k b ne d = omega arith

-- The search finds a slot if one is free within the rounds that are left.
find_slot_total :
    (k : ℕ) (table : ℕ → Bool) (idx f : ℕ)
    → f < 1024
    → table f ≡ false
    → (f + 1024 - idx % 1024) % 1024 ≤ k
    → (p : ℕ) × (find_slot k table idx ≡ some p)
unfolding find_slot
find_slot_total zero table idx f b h d = (idx, rw (← slot) (rw h))
  where
    slot : f ≡ idx % 1024
    slot = omega arith
find_slot_total (suc k) table idx f b h d = elim (Bool-cases (table (idx % 1024))) [
  | inl busy ↦
      rw busy (find_slot_total k table ((idx + 1) % 1024) f b h (closer f idx k b (λ e. cc) d))
  | inr free ↦ (idx, rw free)
]

-- Taking a free slot keeps the invariant.
fill_slot-IsValid :
    (p entry arg : ℕ) (s : Kernel)
    → IsValid s
    → s.alloc_process_table p ≡ false
    → IsValid (fill_slot p entry arg s)
unfolding fill_slot
fill_slot-IsValid p entry arg s i free =
    create-Valid (view s) p _ _ i free (λ q. (λ e. ground arith, λ n. ground arith))
      (λ q. (λ e. ground arith, λ n. ground arith))

-- A state that differs in nothing that the invariant reads.
Valid-same :
    (v : View) (st' : ℕ → ProcessState)
    → ((q : ℕ) → st' q ≡ v.st q)
    → Valid v
    → Valid (record v { st = st' })
Valid-same v st' h i = let e : st' ≡ v.st = fun_ext h in rw e i

make_user-IsValid : (p : ℕ) (s : Kernel) → IsValid s → IsValid (make_user p s)
unfolding make_user
make_user-IsValid p s i = unfold set_page_user_access in Valid-same (view s) _ (λ q. ground arith) i

-- What a successful `createProcess` of the process `p` has done.
pub record Created (s : Kernel) (p : ℕ) (s' : Kernel) : Type 0 where
  pub valid : IsValid s'
  pub was_free : s.alloc_process_table p ≡ false
  pub in_table : p < process_max_count
  pub last_ready : s'.process_list ≡ s.process_list ++ (p ∷ [])
  pub next_index : s'.pid_count_idx ≤ process_max_count
  pub marked : s'.alloc_process_table ≡ λ q. if q == p then true else s.alloc_process_table q

fill_Created :
    (pre_if : Bool) (entry arg p : ℕ) (s : Kernel)
    → IsValid s
    → (s.alloc_process_table p ≡ false) × (p < 1024)
    → Created s p (set_if pre_if (fill_slot p entry arg s)).1
unfolding fill_slot set_if
fill_Created pre_if entry arg p s i f = record {
  valid = fill_slot-IsValid p entry arg s i f.0;
  was_free = f.0;
  in_table = f.1;
  last_ready = refl;
  next_index = ground arith;
  marked = refl;
}

-- The state that `createProcess` leaves if the search found `p`.
abbrev pub filled : ℕ → ℕ → ℕ → Kernel → Kernel
filled entry arg p s =
    let (pre_if, s₁) = set_if false s in (set_if pre_if (fill_slot p entry arg s₁)).1

pub create_some :
    (entry arg p : ℕ) (s : Kernel)
    → find_slot process_max_count s.alloc_process_table s.pid_count_idx ≡ some p
    → create_process entry arg s ≡ some (p, filled entry arg p s)
unfolding create_process set_if
create_some entry arg p s h = rw h refl

pub create_none :
    (entry arg : ℕ) (s : Kernel)
    → find_slot process_max_count s.alloc_process_table s.pid_count_idx ≡ none
    → create_process entry arg s ≡ none
unfolding create_process set_if
create_none entry arg s h = rw h refl

filled-Created :
    (entry arg p : ℕ) (s : Kernel)
    → IsValid s
    → s.pid_count_idx ≤ process_max_count
    → find_slot process_max_count s.alloc_process_table s.pid_count_idx ≡ some p
    → Created s p (filled entry arg p s)
unfolding set_if
filled-Created entry arg p s i b h =
    let c = fill_Created (set_if false s).0 entry arg p (set_if false s).1 i (
      find_slot_lem process_max_count s.alloc_process_table s.pid_count_idx p i.slots.zero_taken b
        h) in
    record {
      valid = c.valid;
      was_free = c.was_free;
      in_table = c.in_table;
      last_ready = c.last_ready;
      next_index = c.next_index;
      marked = c.marked;
    }

-- From a valid state whose slot index is at most 1024: a process that `createProcess` makes had a free one
-- of the 1024 slots, and is the last READY process; the state is valid and its slot index at most 1024.
pub create_process-Created :
    (entry arg : ℕ) (s : Kernel) (p : ℕ) (s' : Kernel)
    → IsValid s
    → s.pid_count_idx ≤ process_max_count
    → create_process entry arg s ≡ some (p, s')
    → Created s p s'
create_process-Created entry arg s p s' i b e =
    elim (Option-cases (find_slot process_max_count s.alloc_process_table s.pid_count_idx)) [
      | inl h ↦ absurd (none-ne-some _ (sym (create_none entry arg s h) ∙ e))
      | inr (q, h) ↦
          subst (λ (x : ℕ × Kernel). Created s x.0 x.1)
            (some-injective _ _ (sym (create_some entry arg q s h) ∙ e))
            (filled-Created entry arg q s i b h)
    ]

-- From a valid state whose slot index is at most 1024, `createProcess` makes a process whenever one of the
-- 1024 slots is free, so that it does not hang. The process had a free one of these slots and is the last READY
-- process; the state is valid again and its slot index at most 1024.
pub create_process_total :
    (entry arg : ℕ) (s : Kernel) (f : ℕ)
    → IsValid s
    → s.pid_count_idx ≤ process_max_count
    → f < process_max_count
    → s.alloc_process_table f ≡ false
    → (p : ℕ) × (s' : Kernel) × (create_process entry arg s ≡ some (p, s')) × Created s p s'
create_process_total entry arg s f i b bf free =
    let (p, h) =
      find_slot_total process_max_count s.alloc_process_table s.pid_count_idx f bf free
        (omega arith) in
    (p, filled entry arg p s, create_some entry arg p s h, filled-Created entry arg p s i b h)
