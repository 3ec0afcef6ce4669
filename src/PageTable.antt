-- ===== src/PageTable.antt =====
-- loader/Page.c: the page tables that the loader builds for long mode. A table is a function from an index
-- to its entry; the loops run over the entries.
pub mod Identity
use skhuos.Common.{ℕ, zero, suc, ◌+◌, ◌-◌, ◌*◌, ◌/◌, ◌%◌, ◌^◌, ◌==◌, if◌then◌else◌, leb}

abbrev pub table_count : ℕ
table_count = 512

abbrev pub page_table_size : ℕ
page_table_size = 0x1000

abbrev pub max_memory_size : ℕ
max_memory_size = 4

abbrev pub max_code_size : ℕ
max_code_size = 2

abbrev pub kernel_size : ℕ
kernel_size = 32

-- P, RW and US are the lowest three bits.
abbrev pub flags_p : ℕ
flags_p = 1

abbrev pub flags_rw : ℕ
flags_rw = 2

abbrev pub flags_us : ℕ
flags_us = 4

abbrev pub upper_flags_exb : ℕ
upper_flags_exb = 2 ^ 31

-- `struct pageEntry`
pub record PageEntry : Type 0 where
  pub lower_4_byte : ℕ
  pub upper_4_byte : ℕ

abbrev pub Table : Type 0
Table = ℕ → PageEntry

abbrev pub store : Table → ℕ → PageEntry → Table
store t i e j = if j == i then e else t j

-- `(a >> 28) & 0xFF` for an `int` with the 32-bit pattern `a`: the shift repeats the sign bit.
abbrev pub upper_of : ℕ → ℕ
upper_of a = if leb (2 ^ 31) a then 0xf0 + a / 2 ^ 28 else a / 2 ^ 28

-- An entry for the address pattern `a`, whose lowest 12 bits are 0, so that `|` adds the flags.
abbrev pub entry : ℕ → ℕ → PageEntry
entry flags a = record { lower_4_byte = flags + a; upper_4_byte = upper_of a }

abbrev pub no_entry : PageEntry
no_entry = record { lower_4_byte = 0; upper_4_byte = 0 }

-- A loop that stores `make i` at each index from `i` on, for `n` rounds.
unfoldable pub fill : (ℕ → PageEntry) → ℕ → ℕ → Table → Table
fill make i zero t = t
fill make i (suc n) t = fill make (i + 1) n (store t i (make i))

unfoldable pub initialize_pml4_table : Table → Table
initialize_pml4_table t =
    fill (λ i. no_entry) 1 (table_count - 1)
      (store t 0 (entry (flags_p + flags_rw + flags_us) 0x101000))

unfoldable pub initialize_page_directory_pointer_table : Table → Table
initialize_page_directory_pointer_table t =
    fill (λ i. no_entry) max_memory_size (table_count - max_memory_size)
      (fill (λ i. entry (flags_p + flags_rw + flags_us) (0x102000 + i * page_table_size)) 0
        max_memory_size t)

unfoldable pub initialize_page_directory_table : Table → Table
initialize_page_directory_table t =
    fill (λ i. entry (flags_p + flags_rw + flags_us) (0x106000 + i * page_table_size)) 0
      (max_memory_size * table_count) t

-- The entry of the second and of the third loop of `InitializePageTable`; `i*0x1000` is an `int`.
abbrev pub absent_page : ℕ → PageEntry
absent_page i = entry flags_rw (i * 0x1000 % 2 ^ 32)

abbrev pub absent_data_page : ℕ → PageEntry
absent_data_page i = record (absent_page i) {
  upper_4_byte = (absent_page i).upper_4_byte + upper_flags_exb;
}

unfoldable pub initialize_page_table : Table → Table
initialize_page_table t =
    let present =
      fill (λ i. entry (flags_p + flags_rw) (i * 0x1000 % 2 ^ 32)) 0 (kernel_size * 512) t in
    let absent =
      fill absent_page (kernel_size * 512) (max_memory_size * table_count * 512 - kernel_size * 512)
        present in
    fill absent_data_page (max_code_size * table_count * 512)
      (max_memory_size * table_count * 512 - max_code_size * table_count * 512) absent
