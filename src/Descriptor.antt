-- ===== src/Descriptor.antt =====
-- kernel/arch/Descriptor.c: the interrupt descriptor table and the entry points in it. The stubs of
-- Handler.asm are addresses, given as arguments.
pub mod Gates
pub mod Tables
pub mod Segments
use skhuos.Common.{ℕ, zero, suc, ◌+◌, ◌-◌, ◌*◌, ◌/◌, ◌%◌, ◌^◌, ◌==◌, if◌then◌else◌, ltb}

abbrev pub idt_gated_count : ℕ
idt_gated_count = 130

abbrev pub syscall_vector : ℕ
syscall_vector = 0x81

-- The flags P, DPL 0 or 3, and the type of an interrupt gate: distinct bits, so that `|` adds them.
abbrev pub idt_flag_p : ℕ
idt_flag_p = 0x80

abbrev pub idt_flag_dpl3 : ℕ
idt_flag_dpl3 = 0x60

abbrev pub idt_type_interrupt : ℕ
idt_type_interrupt = 0x0e

-- `IDT`
pub record Gate : Type 0 where
  pub offset_0_to_15 : ℕ
  pub segment : ℕ
  pub ist : ℕ
  pub flag : ℕ
  pub offset_16_to_31 : ℕ
  pub offset_32_to_63 : ℕ
  pub reserved : ℕ

-- `setIDTGate`: the new entry.
unfoldable pub idt_gate : (isr ist flag : ℕ) → Gate
idt_gate isr ist flag = record {
  offset_0_to_15 = isr % 2 ^ 16;
  segment = 0x10;
  ist = ist;
  flag = flag;
  offset_16_to_31 = isr / 2 ^ 16 % 2 ^ 16;
  offset_32_to_63 = isr / 2 ^ 32 % 2 ^ 32;
  reserved = 0;
}

abbrev pub store_gate : (ℕ → Gate) → ℕ → Gate → ℕ → Gate
store_gate idt i g j = if j == i then g else idt j

-- The stub that the entry `i` leads to: vectors from 48 on have that of the reserved vector 20.
abbrev pub stub_of : (ℕ → ℕ) → ℕ → ℕ
stub_of vector_stub_table i = if ltb i 48 then vector_stub_table i else vector_stub_table 20

-- The loop of `initializeIDT` from `i` on, with the entries that are left.
unfoldable pub fill_idt : (ℕ → ℕ) → ℕ → ℕ → (ℕ → Gate) → ℕ → Gate
fill_idt stubs i zero idt = idt
fill_idt stubs i (suc n) idt =
    fill_idt stubs (i + 1) n
      (store_gate idt i (idt_gate (stub_of stubs i) 1 (idt_flag_p + idt_type_interrupt)))

unfoldable pub initialize_idt :
    (vector_stub_table : ℕ → ℕ) (syscall_entry : ℕ) (idt : ℕ → Gate) → ℕ → Gate
initialize_idt vector_stub_table syscall_entry idt =
    store_gate (fill_idt vector_stub_table 0 idt_gated_count idt) syscall_vector
      (idt_gate syscall_entry 0 (idt_flag_p + idt_flag_dpl3 + idt_type_interrupt))
