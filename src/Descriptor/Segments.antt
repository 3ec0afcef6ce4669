-- ===== src/Descriptor/Segments.antt =====
-- kernel/arch/Descriptor.c: what the processor makes of the tables.
use skhuos.Common.{
  ℕ, zero, suc, ◌+◌, ◌*◌, ◌/◌, ◌%◌, ◌^◌, ◌<◌, ◌≤◌, ◌≡◌, refl, ap, ◌∙◌, Bool, false, ◌&&◌, ◌||◌,
  ◌==◌, if◌then◌else◌, leb, arith, Bool-cases, inl, inr,
}
use skhuos.Descriptor.{Gate, initialize_idt, idt_gate}
use skhuos.Descriptor.Gates.{gate_lem}
use skhuos.Descriptor.Tables.{
  Bytes, get_bytes, initialize_tables, initialize_gdtr, initialize_gdt, initialize_tss_descriptor,
  initialize_tss, initialize_idtr, clear_from, set_tss_rsp0, gdtr_address, tss_descriptor_offset,
}

-- The limit and the base address that `lgdt` takes from the GDTR's place.
abbrev pub gdt_limit : Bytes → ℕ
gdt_limit mem = get_bytes 2 gdtr_address mem

abbrev pub gdt_base : Bytes → ℕ
gdt_base mem = get_bytes 8 (gdtr_address + 2) mem

-- The upper half of the descriptor with an index.
abbrev pub upper_half : Bytes → ℕ → ℕ
upper_half mem i = get_bytes 4 (gdt_base mem + 8 * i + 4) mem

-- Whether code in ring 3 can load a selector: it is one of the GDT, within the limit, of a descriptor that is present,
-- that is a segment of data or code, and that is of level 3 or conforming code.
abbrev pub open_at : Bytes → ℕ → Bool
open_at mem i =
    let u = upper_half mem i in
    leb (8 * i + 7) (gdt_limit mem)
    && (u / 0x8000 % 2 == 1)
    && (u / 0x1000 % 2 == 1)
    && ((u / 0x2000 % 4 == 3) || (u / 0x400 % 4 == 3))

abbrev pub user_loads : Bytes → ℕ → Bool
user_loads mem selector = (selector / 4 % 2 == 0) && open_at mem (selector / 8)

limit_lem : (mem : Bytes) → gdt_limit (initialize_tables mem) ≡ 55
unfolding initialize_tables initialize_gdtr initialize_gdt initialize_tss_descriptor initialize_tss
    initialize_idtr clear_from
limit_lem mem = refl

base_lem : (mem : Bytes) → gdt_base (initialize_tables mem) ≡ 0x510010
unfolding initialize_tables initialize_gdtr initialize_gdt initialize_tss_descriptor initialize_tss
    initialize_idtr clear_from
base_lem mem = refl

-- A descriptor behind the limit is closed.
far :
    (mem : Bytes) (i : ℕ)
    → gdt_limit (initialize_tables mem) ≡ 55
    → 7 ≤ i
    → open_at (initialize_tables mem) i ≡ ((i == 3) || (i == 4))
far mem i limit h =
    let behind : leb (8 * i + 7) (gdt_limit (initialize_tables mem)) ≡ false =
      ground (arith, limit) in
    let other : ((i == 3) || (i == 4)) ≡ false = ground arith in rw (behind, other) refl

-- Only the segments 3 and 4 are open to ring 3; the indices behind them are the TSS descriptor's two halves, and what lies
-- behind the limit.
open_at_lem : (mem : Bytes) (i : ℕ) → open_at (initialize_tables mem) i ≡ ((i == 3) || (i == 4))
unfolding initialize_tables initialize_gdtr initialize_gdt initialize_tss_descriptor initialize_tss
    initialize_idtr clear_from
open_at_lem mem zero = refl
open_at_lem mem (suc zero) = refl
open_at_lem mem (suc (suc zero)) = refl
open_at_lem mem (suc (suc (suc zero))) = refl
open_at_lem mem (suc (suc (suc (suc zero)))) = refl
open_at_lem mem (suc (suc (suc (suc (suc zero))))) = refl
open_at_lem mem (suc (suc (suc (suc (suc (suc zero)))))) = refl
open_at_lem mem (suc (suc (suc (suc (suc (suc (suc i))))))) =
    far mem (suc (suc (suc (suc (suc (suc (suc i))))))) (limit_lem mem) (omega arith)

-- After `initializeDescriptor`, whatever memory held before, code in ring 3 can load its own two segments and
-- no other: the selectors from 0x18 to 0x1b and from 0x20 to 0x23.
pub user_loads_lem :
    (mem : Bytes) (selector : ℕ)
    → user_loads (initialize_tables mem) selector
      ≡ ((leb 0x18 selector && leb selector 0x1b) || (leb 0x20 selector && leb selector 0x23))
user_loads_lem mem selector =
    ap (λ b. (selector / 4 % 2 == 0) && b) (open_at_lem mem (selector / 8)) ∙ ground arith

-- The address of the TSS that `ltr` takes from the descriptor of its selector.
abbrev pub tss_base : Bytes → ℕ
tss_base mem =
    let a = gdt_base mem + tss_descriptor_offset in
    get_bytes 4 a mem / 2 ^ 16
    + get_bytes 4 (a + 4) mem % 2 ^ 8 * 2 ^ 16
    + get_bytes 4 (a + 4) mem / 2 ^ 24 * 2 ^ 24
    + get_bytes 4 (a + 8) mem * 2 ^ 32

-- The stack pointer with which the processor enters the kernel from ring 3 through a gate.
abbrev pub entry_stack : Gate → Bytes → ℕ
entry_stack g mem =
    if g.ist == 0
    then get_bytes 8 (tss_base mem + 4) mem
    else get_bytes 8 (tss_base mem + 28 + 8 * g.ist) mem

entry_tables :
    (v : ℕ) (mem : Bytes)
    → v < 2 ^ 64
    → (get_bytes 8
          (tss_base (set_tss_rsp0 v (initialize_tables mem)) + 4)
          (set_tss_rsp0 v (initialize_tables mem))
        ≡ v)
      × (get_bytes 8
            (tss_base (set_tss_rsp0 v (initialize_tables mem)) + 28 + 8 * 1)
            (set_tss_rsp0 v (initialize_tables mem))
          ≡ 0xc00000)
unfolding set_tss_rsp0 initialize_tables initialize_gdtr initialize_gdt initialize_tss_descriptor
    initialize_tss initialize_idtr clear_from
entry_tables v mem h = (omega arith, refl)

-- From ring 3, the processor enters the kernel through the gate of the system call on the stack that `setTSSRsp0` set last,
-- and through every other gate on the interrupt stack below 0xc00000, after `initializeDescriptor` and
-- whatever memory held before.
pub entry_stack_lem :
    (stubs : ℕ → ℕ) (entry : ℕ) (idt : ℕ → Gate) (mem : Bytes) (rsp0 j : ℕ)
    → j < 130
    → rsp0 < 2 ^ 64
    → entry_stack (initialize_idt stubs entry idt j) (set_tss_rsp0 rsp0 (initialize_tables mem))
      ≡ (if j == 0x81 then rsp0 else 0xc00000)
unfolding idt_gate
entry_stack_lem stubs entry idt mem rsp0 j h b =
    let (own, shared) = entry_tables rsp0 mem b in
    ap (λ g. entry_stack g (set_tss_rsp0 rsp0 (initialize_tables mem)))
      (gate_lem stubs entry idt j h)
    ∙ elim (Bool-cases (j == 0x81)) [ inl syscall ↦ rw syscall own | inr other ↦ rw other shared ]
