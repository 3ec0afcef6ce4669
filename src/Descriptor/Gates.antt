-- ===== src/Descriptor/Gates.antt =====
-- kernel/arch/Descriptor.c: where each gate leads, and who may use it.
use skhuos.Common.{
  ℕ, zero, suc, ◌+◌, ◌*◌, ◌/◌, ◌%◌, ◌^◌, ◌<◌, ◌≡◌, refl, ◌∙◌, ◌&&◌, ◌==◌, if◌then◌else◌, leb, ltb,
  arith, Bool-cases, inl, inr,
}
use skhuos.Descriptor.{Gate, idt_gate, store_gate, stub_of, fill_idt, initialize_idt}

-- The address that the processor jumps to through a gate, and the privilege level that may call it.
abbrev pub target : Gate → ℕ
target g = g.offset_0_to_15 + 2 ^ 16 * g.offset_16_to_31 + 2 ^ 32 * g.offset_32_to_63

abbrev pub privilege : Gate → ℕ
privilege g = g.flag / 0x20 % 4

-- The interrupt stack that the gate switches to, 0 for the stack of the TSS field RSP0.
abbrev pub stack_of : Gate → ℕ
stack_of g = g.ist

fill_idt_lem :
    (stubs : ℕ → ℕ) (i n : ℕ) (idt : ℕ → Gate) (j : ℕ)
    → fill_idt stubs i n idt j
      ≡ (if leb i j && ltb j (i + n) then idt_gate (stub_of stubs j) 1 0x8e else idt j)
unfolding fill_idt
fill_idt_lem stubs i zero idt j = ground arith
fill_idt_lem stubs i (suc n) idt j =
    fill_idt_lem stubs (i + 1) n (store_gate idt i (idt_gate (stub_of stubs i) 1 0x8e)) j
    ∙ ground arith

target_lem : (isr ist flag : ℕ) → isr < 2 ^ 64 → target (idt_gate isr ist flag) ≡ isr
unfolding idt_gate
target_lem isr ist flag h = omega arith

pub gate_lem :
    (stubs : ℕ → ℕ) (entry : ℕ) (idt : ℕ → Gate) (j : ℕ)
    → j < 130
    → initialize_idt stubs entry idt j
      ≡ (if j == 0x81 then idt_gate entry 0 0xee else idt_gate (stub_of stubs j) 1 0x8e)
unfolding initialize_idt
gate_lem stubs entry idt j h = ground (arith, fill_idt_lem stubs 0 130 idt j)

-- After `initializeIDT`, for 64-bit stub addresses: the gate of the system call, 0x81, leads to its entry,
-- may be called by user programs (level 3), and uses the process's kernel stack; every other gate leads to
-- its vector's stub, that of vector 20 from 48 on, is closed to user programs, and uses interrupt stack 1.
initialize_idt_lem :
    (stubs : ℕ → ℕ) (entry : ℕ) (idt : ℕ → Gate) (j : ℕ)
    → j < 130
    → entry < 2 ^ 64
    → stub_of stubs j < 2 ^ 64
    → let g = initialize_idt stubs entry idt j in
      (target g ≡ (if j == 0x81 then entry else stub_of stubs j))
      × (privilege g ≡ (if j == 0x81 then 3 else 0))
      × (stack_of g ≡ (if j == 0x81 then 0 else 1))
unfolding idt_gate
initialize_idt_lem stubs entry idt j h e s =
    rw (gate_lem stubs entry idt j h) (elim (Bool-cases (j == 0x81)) [
      | inl syscall ↦ rw syscall (target_lem entry 0 0xee e, refl, refl)
      | inr other ↦ rw other (target_lem (stub_of stubs j) 1 0x8e s, refl, refl)
    ])
