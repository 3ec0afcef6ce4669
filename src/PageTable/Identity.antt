-- ===== src/PageTable/Identity.antt =====
-- loader/Page.c: the loader's page tables map the first 64 MB to themselves, for the kernel alone.
use skhuos.Common.{
  ℕ, zero, suc, ◌+◌, ◌*◌, ◌/◌, ◌%◌, ◌^◌, ◌<◌, ◌≡◌, ◌≢◌, ◌⊎◌, ◌∙◌, ◌&&◌, if◌then◌else◌, leb, ltb,
  arith,
}
use skhuos.PageTable.{
  PageEntry, Table, fill, store, initialize_page_table, entry, absent_page, absent_data_page,
}

fill_lem :
    (make : ℕ → PageEntry) (i n : ℕ) (t : Table) (j : ℕ)
    → fill make i n t j ≡ (if leb i j && ltb j (i + n) then make j else t j)
unfolding fill
fill_lem make i zero t j = ground arith
fill_lem make i (suc n) t j = fill_lem make (i + 1) n (store t i (make i)) j ∙ ground arith

-- The three loops of `InitializePageTable` as one description of the entry of each page of the 4 GB.
page_table_lem :
    (t : Table) (j : ℕ)
    → j < 1048576
    → initialize_page_table t j ≡ (
        if ltb j 16384
        then entry 3 (j * 0x1000 % 2 ^ 32)
        else if ltb j 524288
        then absent_page j
        else absent_data_page j)
unfolding initialize_page_table
page_table_lem t j h =
    let first = fill (λ i. entry 3 (i * 0x1000 % 2 ^ 32)) 0 16384 t in
    let second = fill absent_page 16384 1032192 first in
    fill_lem absent_data_page 524288 524288 second j
    ∙ ground (
      arith,
      fill_lem absent_page 16384 1032192 first j,
      fill_lem (λ i. entry 3 (i * 0x1000 % 2 ^ 32)) 0 16384 t j,
    )

-- The entry of each page of the 4 GB after `InitializePageTable`: bit 0 (present) is set for the first 64 MB
-- and for no other page, bit 2 (user) for none, and the lower half has the page's own address.
pub initialize_page_table_lem :
    (t : Table) (j : ℕ)
    → j < 1048576
    → let lower = (initialize_page_table t j).lower_4_byte in
      (lower % 2 ≡ (if ltb j 16384 then 1 else 0))
      × (lower / 4 % 2 ≡ 0)
      × (lower / 0x1000 * 0x1000 ≡ j * 0x1000)
initialize_page_table_lem t j h = rw (page_table_lem t j h) (ground arith)

-- After `InitializePageTable` each page of the 4 GB is not present or has the upper half 0, so that no
-- present page has address bits above 4 GB; each page from 256 MB on has an upper half with address bits,
-- as the code shifts by 28 in place of 32.
pub present_identity :
    (t : Table) (j : ℕ)
    → j < 1048576
    → let e = initialize_page_table t j in
      ((e.lower_4_byte % 2 ≡ 0) ⊎ (e.upper_4_byte ≡ 0))
      × ((j < 65536) ⊎ (e.upper_4_byte % 2 ^ 20 ≢ 0))
present_identity t j h = rw (page_table_lem t j h) (ground arith, ground arith)
