-- ===== src/Process/Stale.antt =====
-- kernel/proc/Process.c: the registers that a new process starts with.
use skhuos.Common.{
  ℕ, ◌+◌, ◌-◌, ◌/◌, ◌<◌, ◌≤◌, ◌≡◌, ◌⊎◌, inl, inr, refl, sym, ◌∙◌, false, none, some, arith,
  Option-cases,
}
use mathlib.Core.Path.{subst}
use mathlib.Core.Option.{some-injective, none-ne-some}
use skhuos.Process.{Kernel, Context, set_if, process_max_count}
use skhuos.Process.Create.{
  initialize_memory, context_address, set_up_process, fill_slot, find_slot, create_process,
  make_user, create_user_process, set_page_user_access,
}
use skhuos.Process.Lifecycle.{filled, create_some, create_none}

-- `InitializeMemory` gets a size where it takes an end address, and clears nothing.
initialize_memory_none :
    (p : ℕ) (c : Context) (i : ℕ) → initialize_memory (context_address p) 192 c i ≡ c i
unfolding initialize_memory
initialize_memory_none p c i =
    let rounds : (192 - context_address p + 3) / 4 ≡ 0 = omega arith in ground (arith, rounds)

-- A register that is neither a segment nor RDI, RBP, RIP, RFLAGS or RSP.
abbrev pub General : ℕ → Type 0
General i = ((4 ≤ i) × (i < 9)) ⊎ ((11 ≤ i) × (i < 19))

filled-General :
    (entry arg p : ℕ) (s : Kernel) (i : ℕ)
    → General i
    → ((filled entry arg p s).pcbs p).context i ≡ (s.pcbs p).context i
unfolding fill_slot set_up_process set_if
filled-General entry arg p s i g = ground (arith, initialize_memory_none p (s.pcbs p).context i)

create_process-General :
    (entry arg : ℕ) (s : Kernel) (p : ℕ) (s' : Kernel) (i : ℕ)
    → General i
    → create_process entry arg s ≡ some (p, s')
    → (s'.pcbs p).context i ≡ (s.pcbs p).context i
create_process-General entry arg s p s' i g e =
    elim (Option-cases (find_slot process_max_count s.alloc_process_table s.pid_count_idx)) [
      | inl h ↦ absurd (none-ne-some _ (sym (create_none entry arg s h) ∙ e))
      | inr (q, h) ↦
          subst (λ (x : ℕ × Kernel). (x.1.pcbs x.0).context i ≡ (s.pcbs x.0).context i)
            (some-injective _ _ (sym (create_some entry arg q s h) ∙ e))
            (filled-General entry arg q s i g)
    ]

make_user-General :
    (p : ℕ) (s : Kernel) (i : ℕ)
    → General i
    → ((make_user p s).pcbs p).context i ≡ (s.pcbs p).context i
unfolding make_user set_page_user_access
make_user-General p s i g = ground arith

pub user_some :
    (entry arg : ℕ) (s : Kernel) (p : ℕ) (s₂ : Kernel)
    → create_process entry arg (set_if false s).1 ≡ some (p, s₂)
    → create_user_process entry arg s ≡ some (p, (set_if (set_if false s).0 (make_user p s₂)).1)
unfolding create_user_process set_if
user_some entry arg s p s₂ h = rw h refl

user_none :
    (entry arg : ℕ) (s : Kernel)
    → create_process entry arg (set_if false s).1 ≡ none
    → create_user_process entry arg s ≡ none
unfolding create_user_process set_if
user_none entry arg s h = rw h refl

-- A new user process starts with what the registers in its slot held before, be it another process's: every register
-- but the segments, RDI, RBP, RIP, RFLAGS and RSP is as it was.
pub create_user_process-General :
    (entry arg : ℕ) (s : Kernel) (p : ℕ) (s' : Kernel) (i : ℕ)
    → General i
    → create_user_process entry arg s ≡ some (p, s')
    → (s'.pcbs p).context i ≡ (s.pcbs p).context i
unfolding set_if
create_user_process-General entry arg s p s' i g e =
    elim (Option-cases (create_process entry arg (set_if false s).1)) [
      | inl h ↦ absurd (none-ne-some _ (sym (user_none entry arg s h) ∙ e))
      | inr ((q, s₂), h) ↦
          subst (λ (x : ℕ × Kernel). (x.1.pcbs x.0).context i ≡ (s.pcbs x.0).context i)
            (some-injective _ _ (sym (user_some entry arg s q s₂ h) ∙ e))
            (make_user-General q s₂ i g
              ∙ create_process-General entry arg (set_if false s).1 q s₂ i g h)
    ]
