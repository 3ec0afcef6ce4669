-- ===== src/Descriptor/Tables.antt =====
-- kernel/arch/Descriptor.c, Descriptor.h: the tables but for the interrupt gates, in memory. Memory is a function from
-- address to byte.
use skhuos.Common.{ℕ, zero, suc, ◌+◌, ◌-◌, ◌*◌, ◌/◌, ◌%◌, ◌^◌, ◌&&◌, if◌then◌else◌, leb, ltb}
use skhuos.Descriptor.{idt_gated_count}

abbrev pub Bytes : Type 0
Bytes = ℕ → ℕ

-- The write of a number of `w` bytes, low byte first, and the number that lies at an address.
abbrev pub put_bytes : ℕ → ℕ → ℕ → Bytes → Bytes
put_bytes w a v mem x = if leb a x && ltb x (a + w) then v / 256 ^ (x - a) % 256 else mem x

abbrev pub get_bytes : ℕ → ℕ → Bytes → ℕ
get_bytes zero a mem = 0
get_bytes (suc w) a mem = mem a + 256 * get_bytes w (a + 1) mem

abbrev pub gdtr_address : ℕ
gdtr_address = 0x510000

-- `sizeof` of GDT, of GDTR and IDTR, of TSSDescriptor, of TSS and of IDT, which are packed.
abbrev pub size_of_gdt : ℕ
size_of_gdt = 8

abbrev pub size_of_gdtr : ℕ
size_of_gdtr = 16

abbrev pub size_of_tss_descriptor : ℕ
size_of_tss_descriptor = 16

abbrev pub size_of_tss : ℕ
size_of_tss = 104

abbrev pub size_of_idt : ℕ
size_of_idt = 16

abbrev pub gdt_count : ℕ
gdt_count = 5

abbrev pub gdt_address : ℕ
gdt_address = gdtr_address + size_of_gdtr

abbrev pub tss_descriptor_address : ℕ
tss_descriptor_address = gdt_address + size_of_gdt * gdt_count

abbrev pub tss_address : ℕ
tss_address = tss_descriptor_address + size_of_tss_descriptor

abbrev pub idtr_address : ℕ
idtr_address = tss_address + size_of_tss

abbrev pub idt_address : ℕ
idt_address = idtr_address + size_of_gdtr

abbrev pub ist_start_address : ℕ
ist_start_address = 0xb00000

abbrev pub ist_size : ℕ
ist_size = 0x100000

-- The flags and types, which are distinct bits, so that `|` adds them.
abbrev pub gdt_flag_g : ℕ
gdt_flag_g = 0x800000

abbrev pub gdt_flag_l : ℕ
gdt_flag_l = 0x200000

abbrev pub gdt_flag_p : ℕ
gdt_flag_p = 0x8000

abbrev pub gdt_flag_dpl3 : ℕ
gdt_flag_dpl3 = 0x6000

abbrev pub gdt_flag_s : ℕ
gdt_flag_s = 0x1000

abbrev pub gdt_type_data : ℕ
gdt_type_data = 0x200

abbrev pub gdt_type_code : ℕ
gdt_type_code = 0xa00

abbrev pub gdt_type_tss : ℕ
gdt_type_tss = 0x900

abbrev pub tss_descriptor_offset : ℕ
tss_descriptor_offset = 0x28

-- A GDTR or an IDTR: the limit, the base address and the reserved fields.
abbrev put_register : ℕ → ℕ → ℕ → Bytes → Bytes
put_register a limit base mem =
    put_bytes 4 (a + 12) 0
      (put_bytes 2 (a + 10) 0 (put_bytes 8 (a + 2) base (put_bytes 2 a limit mem)))

unfoldable pub initialize_gdtr : Bytes → Bytes
initialize_gdtr mem =
    put_register gdtr_address (size_of_gdt * gdt_count + size_of_tss_descriptor - 1) gdt_address mem

unfoldable pub initialize_idtr : Bytes → Bytes
initialize_idtr mem =
    put_register idtr_address ((size_of_idt * idt_gated_count - 1) % 2 ^ 16) idt_address mem

-- `gdt[i]`, and the upper half of a segment of the whole memory.
abbrev put_gdt : ℕ → ℕ → ℕ → Bytes → Bytes
put_gdt i lower upper mem =
    put_bytes 4 (gdt_address + size_of_gdt * i + 4) upper
      (put_bytes 4 (gdt_address + size_of_gdt * i) lower mem)

abbrev segment_upper : ℕ → ℕ → ℕ
segment_upper dpl kind = gdt_flag_p + dpl + gdt_flag_g + gdt_flag_l + gdt_flag_s + kind + 0xf0000

unfoldable pub initialize_gdt : Bytes → Bytes
initialize_gdt mem = put_gdt 4 0xffff (segment_upper gdt_flag_dpl3 gdt_type_code) (
    put_gdt 3 0xffff (segment_upper gdt_flag_dpl3 gdt_type_data) (
      put_gdt 2 0xffff (segment_upper 0 gdt_type_code)
        (put_gdt 1 0xffff (segment_upper 0 gdt_type_data) (put_gdt 0 0 0 mem))))

unfoldable pub initialize_tss_descriptor : Bytes → Bytes
initialize_tss_descriptor mem =
    let segment_size = size_of_tss - 1 in
    let a = tss_descriptor_address in
    put_bytes 4 (a + 12) 0 (
      put_bytes 4 (a + 8) (tss_address / 2 ^ 32) (
        put_bytes 4 (a + 4)
          (tss_address / 2 ^ 16 % 2 ^ 8
            + (gdt_flag_p + gdt_flag_g + gdt_type_tss)
            + tss_address / 2 ^ 24 * 2 ^ 24
            + segment_size / 2 ^ 16 * 2 ^ 16)
          (put_bytes 4 a (segment_size % 2 ^ 16 + tss_address % 2 ^ 16 * 2 ^ 16) mem)))

-- `InitializeMemory` on the TSS, with the rounds that are left.
unfoldable pub clear_from : ℕ → ℕ → Bytes → Bytes
clear_from zero a mem = mem
clear_from (suc n) a mem = clear_from n (a + 4) (put_bytes 4 a 0 mem)

unfoldable pub initialize_tss : Bytes → Bytes
unfolding clear_from
initialize_tss mem = put_bytes 2 (tss_address + 102) 0xffff (
    put_bytes 8 (tss_address + 36) (ist_start_address + ist_size)
      (clear_from (size_of_tss / 4) tss_address mem))

-- `setTSSRsp0`
unfoldable pub set_tss_rsp0 : ℕ → Bytes → Bytes
set_tss_rsp0 rsp0 mem = put_bytes 8 (tss_address + 4) rsp0 mem

-- `initializeDescriptor` but for the interrupt gates and the loading of the registers.
unfoldable pub initialize_tables : Bytes → Bytes
unfolding initialize_gdtr initialize_gdt initialize_tss_descriptor initialize_tss initialize_idtr
initialize_tables mem =
    initialize_idtr
      (initialize_tss (initialize_tss_descriptor (initialize_gdt (initialize_gdtr mem))))
