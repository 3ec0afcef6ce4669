-- ===== src/Tests/Images.antt =====
-- The theorems on the boot information and the descriptor tables at concrete inputs.
use skhuos.Common.{
  ℕ, zero, suc, ◌+◌, ◌-◌, ◌*◌, ◌/◌, ◌≡◌, ◌<◌, ◌==◌, true, if◌then◌else◌, ltb, if_true, if_false,
  false, ◌%◌, ap, ◌∙◌, refl, Option, none, some, List, [], ◌∷◌, ◌++◌, arith, replicate, get_or,
  length,
}
use skhuos.Boot.{
  find_boot_info, find_from, signature, places, scan_from, matches_at, write_short, write_at,
  write_boot_info, padding, sector_count,
}
use skhuos.Descriptor.{Gate, idt_gate, initialize_idt}
use skhuos.MemoryMap.{Usage, init_memory_bitmap, memory_size_check, faults}
use skhuos.MemoryMap.Size.{memory_size_check_faults}
use skhuos.PageTable.{initialize_page_table, no_entry}
use skhuos.MemoryMap.Marks.{is_used, init_memory_bitmap_lem}
use skhuos.Descriptor.Tables.{initialize_tables, set_tss_rsp0}
use skhuos.Descriptor.Segments.{user_loads, user_loads_lem, entry_stack, entry_stack_lem}
use skhuos.Boot.Image.{
  Host, image_main, is_same_file, make_image, append_file, append_blocks, change_image,
}
use skhuos.Boot.Load.{copy_ia32_mode_image}
use skhuos.Boot.Kernel.{InMemory, kernel_loaded}

abbrev boot_sector : List ℕ
boot_sector = 0xeb ∷ 0x0c ∷ (signature ++ replicate 502 0)

scanned : scan_from boot_sector 0 places none ≡ some (some 2)
unfolding scan_from matches_at
scanned = refl

-- A host with a boot sector, a loader of one byte and a kernel of two bytes.
abbrev files : ℕ → Option (List (List ℕ))
files zero = some (boot_sector ∷ [])
files (suc zero) = some ((0xfa ∷ []) ∷ [])
files (suc (suc zero)) = some ((0x55 ∷ 0xaa ∷ []) ∷ [])
files (suc (suc (suc n))) = none

abbrev test_host : Host ℕ
test_host = record {
  stat = λ n. if ltb n 3 then some (0, n) else none;
  same_text = λ a b. a == b;
  open_read = files;
  open_write = λ n. true;
  open_change = λ n. true;
  write_count = λ image block. length block;
}

abbrev image_sector : List ℕ
image_sector = write_short (write_short boot_sector 10 2) 12 1

image_written : write_boot_info boot_sector 2 1 ≡ some image_sector
unfolding write_boot_info write_at
image_written = rw scanned refl

abbrev disk_image : List ℕ
disk_image = image_sector ++ ((0xfa ∷ replicate 511 0) ++ (0x55 ∷ 0xaa ∷ replicate 510 0))

image_made : image_main test_host (0 ∷ 1 ∷ 2 ∷ 3 ∷ []) ≡ some disk_image
unfolding image_main is_same_file make_image append_file append_blocks change_image padding
    sector_count
image_made = rw image_written refl

-- Memory with the image, in which the boot sector has changed behind the boot information, and the loader's sector.
abbrev loaded_memory : ℕ → ℕ
loaded_memory a =
    if ltb a 0x7c0e
    then get_or disk_image (a - 0x7c00) 0
    else if ltb a 0x10200
    then 0xff
    else get_or disk_image (512 + (a - 0x10000)) 0

loaded_memory-InMemory : InMemory loaded_memory disk_image
unfolding find_boot_info find_from matches_at
loaded_memory-InMemory = (
  2,
  refl,
  λ i h.
      let same : 0x7c00 + i - 0x7c00 ≡ i = omega arith in
      if_true (ltb (0x7c00 + i) 0x7c0e) _ _ (ground arith) ∙ ap (λ n. get_or disk_image n 0) same,
  λ i low h.
      let same : 512 + (0x10000 + i - 0x10000) ≡ 512 + i = omega arith in
      if_false (ltb (0x10000 + i) 0x7c0e) _ _ (ground arith)
      ∙ if_false (ltb (0x10000 + i) 0x10200) _ _ (ground arith)
      ∙ ap (λ n. get_or disk_image n 0) same,
)

kernel_loaded_example :
    (mem' : ℕ → ℕ) × (copy_ia32_mode_image loaded_memory ≡ some mem')
    × ((i : ℕ) → i < 2 → mem' (0x600000 + i) ≡ get_or (0x55 ∷ 0xaa ∷ []) i 0)
kernel_loaded_example =
    kernel_loaded test_host 0 1 2 3 [] disk_image boot_sector (0xfa ∷ []) (0x55 ∷ 0xaa ∷ [])
      loaded_memory (boot_sector ∷ [], refl, refl) ((0xfa ∷ []) ∷ [], refl, refl)
      ((0x55 ∷ 0xaa ∷ []) ∷ [], refl, refl) refl
      (unfold padding in unfold sector_count in omega arith) image_made loaded_memory-InMemory

abbrev stubs : ℕ → ℕ
stubs i = 0x602000 + 16 * i

abbrev blank_idt : ℕ → Gate
blank_idt j = idt_gate 0 0 0

abbrev noise : ℕ → ℕ
noise a = a * 37 % 256

user_loads_lem_example : user_loads (initialize_tables noise) 0x08 ≡ false
user_loads_lem_example = user_loads_lem noise 0x08

entry_stack_lem_example :
    entry_stack
      (initialize_idt stubs 0x603000 blank_idt 0x81)
      (set_tss_rsp0 0x2005000 (initialize_tables noise))
    ≡ 0x2005000
entry_stack_lem_example =
    entry_stack_lem stubs 0x603000 blank_idt noise 0x2005000 0x81 (omega arith) (omega arith)

abbrev cleared_usage : Usage
cleared_usage = record { best_idx = 0; using_memory = 0; memory = λ x y z. 0 }

init_memory_bitmap_lem_example : is_used (init_memory_bitmap cleared_usage).memory 0x4001 ≡ false
unfolding init_memory_bitmap
init_memory_bitmap_lem_example =
    init_memory_bitmap_lem cleared_usage (λ x y z. refl) 0x4001 (omega arith)

memory_size_check_faults_example :
    memory_size_check 1
      (λ a. (initialize_page_table (λ j. no_entry) (a / 0x1000)).lower_4_byte % 2 == 1)
      (λ a. true)
    ≡ faults
memory_size_check_faults_example = memory_size_check_faults (λ j. no_entry) 1 (λ a. true)
