-- ===== src/MemoryMap.antt =====
-- kernel/mm/Memory.c, Memory.h: the bitmap of the pages in use, and the search for the end of memory.
pub mod Marks
pub mod Size
use skhuos.Common.{
  ℤ, pos, negsuc, ℕ, zero, suc, ◌+◌, ◌-◌, ◌*◌, ◌/◌, ◌%◌, ◌^◌, Bool, ◌&&◌, Option, none, some, ◌==◌,
  if◌then◌else◌, ltb,
}

abbrev pub total_memory_pages : ℕ
total_memory_pages = 0x60000

abbrev pub kernel_pages : ℕ
kernel_pages = 0x4000

-- `memory[pdt][pt][pm]`
abbrev pub Bitmap : Type 0
Bitmap = ℕ → ℕ → ℕ → ℕ

abbrev pub mark_byte : ℕ → ℕ → ℕ → ℕ → Bitmap → Bitmap
mark_byte pdt pt pm v memory x y z =
    if (x == pdt) && (y == pt) && (z == pm) then v else memory x y z

-- The three nested loops, each with the rounds that are left.
unfoldable pub mark_bytes : ℕ → ℕ → ℕ → ℕ → ℕ → Bitmap → Bitmap
mark_bytes zero pdt pt pm v memory = memory
mark_bytes (suc n) pdt pt pm v memory =
    mark_bytes n pdt pt (pm + 1) v (mark_byte pdt pt pm v memory)

unfoldable pub mark_tables : ℕ → ℕ → ℕ → ℕ → Bitmap → Bitmap
mark_tables zero pdt pt v memory = memory
mark_tables (suc n) pdt pt v memory =
    mark_tables n pdt (pt + 1) v (mark_bytes 0x20 pdt pt 0 v memory)

unfoldable pub mark_directories : ℕ → ℕ → ℕ → ℕ → Bitmap → Bitmap
mark_directories zero pdt count v memory = memory
mark_directories (suc n) pdt count v memory =
    mark_directories n (pdt + 1) count v (mark_tables count pdt 0 v memory)

-- The static variables.
pub record Usage : Type 0 where
  pub best_idx : ℕ
  pub using_memory : ℕ
  pub memory : Bitmap

unfoldable pub init_memory_bitmap : Usage → Usage
init_memory_bitmap u =
    let cleared =
      mark_directories (total_memory_pages / 0x20000) 0 (total_memory_pages % 0x20000 / 0x100) 0x00
        u.memory in
    record {
      best_idx = 0x400;
      using_memory = 0x4000;
      memory = mark_tables (kernel_pages / 0x100) 0 0 0xff cleared;
    }

-- The two numbers that `printMemoryRate` prints: gigabytes, and the pages in use in per cent.
unfoldable pub print_memory_rate : Usage → ℕ × ℕ
print_memory_rate u = (total_memory_pages / 0x20000, 100 * u.using_memory / total_memory_pages)

-- How `memorySizeCheck` ends: by a page fault, which halts the kernel, with what it found, or not in the rounds that it gets.
pub data SizeCheck (A : Type 0) : Type 0 where
  faults unfinished : SizeCheck A
  found : A → SizeCheck A

-- The loop of `memorySizeCheck` from an address on, with the rounds that are left: the address at which it stops. `present`
-- says which addresses stand on a present page, and `keeps` where memory reads 0xFFFFFFFF back.
unfoldable pub probe : ℕ → (ℕ → Bool) → (ℕ → Bool) → ℕ → SizeCheck ℕ
probe zero present keeps address = unfinished
probe (suc n) present keeps address =
    let rest = probe n present keeps (address + 0x100000) in
    if present address then (if keeps address then rest else found address) else faults

-- `(int)(QWORD)currentAddress / 0x100000` for an address below 4 GB: the division of an `int` truncates.
abbrev pub megabytes : ℕ → ℤ
megabytes address =
    if ltb address (2 ^ 31)
    then pos (address / 0x100000)
    else (let size = (2 ^ 32 - address) / 0x100000 in
        if size == 0 then pos 0 else negsuc (size - 1))

abbrev pub size_at : SizeCheck ℕ → SizeCheck ℤ
size_at faults = faults
size_at unfinished = unfinished
size_at (found address) = found (megabytes address)

-- `memorySizeCheck`, whose first access stands in front of the loop: the new `totalMemory`, which `getTotalMemory` returns.
unfoldable pub memory_size_check : ℕ → (ℕ → Bool) → (ℕ → Bool) → SizeCheck ℤ
memory_size_check rounds present keeps =
    let probed = size_at (probe rounds present keeps 0x4000000) in
    if present 0x4000000 then probed else faults
