-- ===== src/MemoryMap/Size.antt =====
-- kernel/mm/Memory.c: how `memorySizeCheck` ends.
use skhuos.Common.{
  pos, negsuc, ℕ, zero, suc, ◌+◌, ◌-◌, ◌*◌, ◌/◌, ◌%◌, ◌<◌, ◌≤◌, ◌≡◌, ap, ◌∙◌, Bool, true, false,
  ◌==◌, arith, if◌then◌else◌, ltb, Bool-cases, inl, inr, if_true, if_false,
}
use skhuos.MemoryMap.{faults, found, probe, megabytes, size_at, memory_size_check}
use skhuos.PageTable.{Table, initialize_page_table}
use skhuos.PageTable.Identity.{initialize_page_table_lem}

-- The probe stops at the end of a memory of `size` megabytes, if it has the rounds for it and the pages are present.
probe_lem :
    (n i size : ℕ) (keeps : ℕ → Bool)
    → ((a : ℕ) → keeps a ≡ ltb a (size * 0x100000))
    → i ≤ size
    → size < i + n
    → probe n (λ a. true) keeps (i * 0x100000) ≡ found (size * 0x100000)
unfolding probe
probe_lem zero i size keeps k low high = absurd (omega arith)
probe_lem (suc n) i size keeps k low high = elim (Bool-cases (i == size)) [
  | inl here ↦
      let at : i ≡ size = ground arith in
      let stop : keeps (i * 0x100000) ≡ false = k (i * 0x100000) ∙ ground arith in
      if_false (keeps (i * 0x100000)) (probe n (λ a. true) keeps (i * 0x100000 + 0x100000))
        (found (i * 0x100000)) stop
      ∙ ap (λ j. found (j * 0x100000)) at
  | inr more ↦
      let below : i < size = ground arith in
      let goes : keeps (i * 0x100000) ≡ true = k (i * 0x100000) ∙ ground arith in
      let next : i * 0x100000 + 0x100000 ≡ (i + 1) * 0x100000 = omega arith in
      if_true (keeps (i * 0x100000)) (probe n (λ a. true) keeps (i * 0x100000 + 0x100000))
        (found (i * 0x100000)) goes
      ∙ ap (probe n (λ a. true) keeps) next
      ∙ probe_lem n (i + 1) size keeps k (omega arith) (omega arith)
]

megabytes_lem :
    (size : ℕ)
    → size < 4096
    → megabytes (size * 0x100000) ≡ (if ltb size 2048 then pos size else negsuc (4095 - size))
megabytes_lem size h = elim (Bool-cases (ltb size 2048)) [
  | inl small ↦ ground arith
  | inr large ↦ ground arith
]

-- If all pages were present: on a machine with 64 to 4095 megabytes of memory, `memorySizeCheck` ends (it makes a
-- round for each megabyte behind the 64th), and the size that `getTotalMemory` returns then is the number of
-- megabytes below 2048, and this number less 4096 from 2048 on.
memory_size_check_lem :
    (rounds size : ℕ) (keeps : ℕ → Bool)
    → 64 ≤ size
    → size < 4096
    → size < 64 + rounds
    → ((a : ℕ) → keeps a ≡ ltb a (size * 0x100000))
    → memory_size_check rounds (λ a. true) keeps
      ≡ found (if ltb size 2048 then pos size else negsuc (4095 - size))
unfolding memory_size_check
memory_size_check_lem rounds size keeps low high enough k =
    ap size_at (probe_lem rounds 64 size keeps k low enough) ∙ ap found (megabytes_lem size high)

-- With the page tables that `InitializePageTable` of the loader makes, `memorySizeCheck` ends by a page fault, at its first
-- access to 0x4000000, whatever the memory behind it: the pages from 64 MB on are not present.
pub memory_size_check_faults :
    (table : Table) (rounds : ℕ) (keeps : ℕ → Bool)
    → memory_size_check rounds
        (λ a. (initialize_page_table table (a / 0x1000)).lower_4_byte % 2 == 1)
        keeps
      ≡ faults
unfolding memory_size_check
memory_size_check_faults table rounds keeps =
    let absent = (initialize_page_table_lem table 0x4000 (omega arith)).0 in ground (arith, absent)
