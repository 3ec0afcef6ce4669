-- ===== src/Boot/Load.antt =====
-- loader/32bit.c: clearing memory, and the copy of the kernel to its address. PhysicalMemory is a function from
-- address to byte.
use skhuos.Common.{
  ℕ, zero, suc, ◌+◌, ◌-◌, ◌*◌, ◌/◌, Bool, true, false, ◌&&◌, Option, none, some, List, [], ◌∷◌,
  ◌==◌, if◌then◌else◌, leb, ltb,
}
use skhuos.Boot.{find_boot_info, read_short}

abbrev pub PhysicalMemory : Type 0
PhysicalMemory = ℕ → ℕ

abbrev pub boot_sector_loaded_address : ℕ
boot_sector_loaded_address = 0x7c00

abbrev pub protected_start_address : ℕ
protected_start_address = 0x10000

abbrev pub page_table_start_address : ℕ
page_table_start_address = 0x100000

abbrev pub ia32_start_address : ℕ
ia32_start_address = 0x600000

abbrev pub ia32_end_address : ℕ
ia32_end_address = 0xa00000

-- `n` bytes from an address on.
unfoldable pub bytes_from : PhysicalMemory → ℕ → ℕ → List ℕ
bytes_from mem a zero = []
bytes_from mem a (suc n) = mem a ∷ bytes_from mem (a + 1) n

-- `*dest = *src` for an `int`.
abbrev pub copy_int : PhysicalMemory → ℕ → ℕ → PhysicalMemory
copy_int mem dest src a = if leb dest a && ltb a (dest + 4) then mem (src + (a - dest)) else mem a

-- The loop of `copyIA32ModeImage`, with the rounds that are left.
unfoldable pub copy_ints : ℕ → ℕ → ℕ → PhysicalMemory → PhysicalMemory
copy_ints zero dest src mem = mem
copy_ints (suc n) dest src mem = copy_ints n (dest + 4) (src + 4) (copy_int mem dest src)

-- `copyIA32ModeImage` with the boot sector, behind the search for the boot information in it; `none` if it
-- stops for good.
abbrev pub copy_with : PhysicalMemory → List ℕ → Option ℕ → Option PhysicalMemory
copy_with mem sector none = none
copy_with mem sector (some o) =
    let total = read_short sector (o + 8) in
    let loader = read_short sector (o + 10) in
    some (
      copy_ints (512 * (total - loader) / 4) ia32_start_address
        (protected_start_address + loader * 512) mem)

unfoldable pub copy_ia32_mode_image : PhysicalMemory → Option PhysicalMemory
copy_ia32_mode_image mem =
    let sector = bytes_from mem boot_sector_loaded_address 512 in
    copy_with mem sector (find_boot_info sector)

-- `*address = 0` for an `int`, where memory keeps what is written to it only at some addresses.
abbrev pub clear_int : (ℕ → Bool) → PhysicalMemory → ℕ → PhysicalMemory
clear_int keeps mem address a = if leb address a && ltb a (address + 4) && keeps a then 0 else mem a

-- The `int` at an address is 0.
abbrev pub is_clear : PhysicalMemory → ℕ → Bool
is_clear mem a = (mem a == 0) && (mem (a + 1) == 0) && (mem (a + 2) == 0) && (mem (a + 3) == 0)

-- `InitializeMemory`, with the rounds that are left: the memory, and what the function returns.
unfoldable pub initialize_memory : ℕ → (ℕ → Bool) → ℕ → PhysicalMemory → PhysicalMemory × Bool
initialize_memory zero keeps address mem = (mem, true)
initialize_memory (suc n) keeps address mem =
    let mem' = clear_int keeps mem address in
    let rest = initialize_memory n keeps (address + 4) mem' in
    if is_clear mem' address then rest else (mem', false)
