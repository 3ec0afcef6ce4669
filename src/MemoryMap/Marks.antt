-- ===== src/MemoryMap/Marks.antt =====
-- kernel/mm/Memory.c: which pages `initMemoryBitmap` marks.
use skhuos.Common.{
  ℕ, zero, suc, ◌+◌, ◌/◌, ◌%◌, ◌^◌, ◌<◌, ◌≡◌, refl, ap, ◌∙◌, Bool, ◌&&◌, ◌==◌, arith, if◌then◌else◌,
  ltb, leb, Bool-cases, inl, inr,
}
use skhuos.MemoryMap.{
  Bitmap, Usage, mark_byte, mark_bytes, mark_tables, mark_directories, init_memory_bitmap,
}

mark_bytes_lem :
    (n pdt pt pm v : ℕ) (memory : Bitmap) (x y z : ℕ)
    → mark_bytes n pdt pt pm v memory x y z
      ≡ (if (x == pdt) && (y == pt) && leb pm z && ltb z (pm + n) then v else memory x y z)
unfolding mark_bytes
mark_bytes_lem zero pdt pt pm v memory x y z = ground arith
mark_bytes_lem (suc n) pdt pt pm v memory x y z =
    mark_bytes_lem n pdt pt (pm + 1) v (mark_byte pdt pt pm v memory) x y z ∙ ground arith

mark_tables_lem :
    (n pdt pt v : ℕ) (memory : Bitmap) (x y z : ℕ)
    → z < 0x20
    → mark_tables n pdt pt v memory x y z
      ≡ (if (x == pdt) && leb pt y && ltb y (pt + n) then v else memory x y z)
unfolding mark_tables
mark_tables_lem zero pdt pt v memory x y z h = ground arith
mark_tables_lem (suc n) pdt pt v memory x y z h =
    mark_tables_lem n pdt (pt + 1) v (mark_bytes 0x20 pdt pt 0 v memory) x y z h
    ∙ ground (arith, mark_bytes_lem 0x20 pdt pt 0 v memory x y z)

mark_nothing : (n pdt v : ℕ) (memory : Bitmap) → mark_directories n pdt 0 v memory ≡ memory
unfolding mark_directories mark_tables
mark_nothing zero pdt v memory = refl
mark_nothing (suc n) pdt v memory = mark_nothing n (pdt + 1) v memory

bits_of_ff : (i : ℕ) → i < 8 → 0xff / 2 ^ i % 2 ≡ 1
bits_of_ff zero h = refl
bits_of_ff (suc zero) h = refl
bits_of_ff (suc (suc zero)) h = refl
bits_of_ff (suc (suc (suc zero))) h = refl
bits_of_ff (suc (suc (suc (suc zero)))) h = refl
bits_of_ff (suc (suc (suc (suc (suc zero))))) h = refl
bits_of_ff (suc (suc (suc (suc (suc (suc zero)))))) h = refl
bits_of_ff (suc (suc (suc (suc (suc (suc (suc zero))))))) h = refl
bits_of_ff (suc (suc (suc (suc (suc (suc (suc (suc i)))))))) h = absurd (omega arith)

bits_of_zero : (i : ℕ) → i < 8 → 0 / 2 ^ i % 2 ≡ 0
bits_of_zero zero h = refl
bits_of_zero (suc zero) h = refl
bits_of_zero (suc (suc zero)) h = refl
bits_of_zero (suc (suc (suc zero))) h = refl
bits_of_zero (suc (suc (suc (suc zero)))) h = refl
bits_of_zero (suc (suc (suc (suc (suc zero))))) h = refl
bits_of_zero (suc (suc (suc (suc (suc (suc zero)))))) h = refl
bits_of_zero (suc (suc (suc (suc (suc (suc (suc zero))))))) h = refl
bits_of_zero (suc (suc (suc (suc (suc (suc (suc (suc i)))))))) h = absurd (omega arith)

-- Whether the bitmap marks a page: its directory, its table, its byte and its bit.
abbrev pub is_used : Bitmap → ℕ → Bool
is_used memory page =
    memory (page / 0x20000) (page % 0x20000 / 0x100) (page % 0x100 / 8) / 2 ^ (page % 8) % 2 == 1

byte_lem :
    (u : Usage) (page : ℕ)
    → (init_memory_bitmap u).memory (page / 0x20000) (page % 0x20000 / 0x100) (page % 0x100 / 8) ≡ (
        if ltb page 0x4000
        then 0xff
        else u.memory (page / 0x20000) (page % 0x20000 / 0x100) (page % 0x100 / 8))
unfolding init_memory_bitmap
byte_lem u page =
    let x = page / 0x20000 in
    let y = page % 0x20000 / 0x100 in
    let z = page % 0x100 / 8 in
    ap (λ m. mark_tables 0x40 0 0 0xff m x y z) (mark_nothing 3 0 0 u.memory)
    ∙ mark_tables_lem 0x40 0 0 0xff u.memory x y z (omega arith)
    ∙ ground arith

-- On the cleared variables of boot, `initMemoryBitmap` marks the pages in use and no other: as many, from the first on, as
-- `usingMemory` says.
pub init_memory_bitmap_lem :
    (u : Usage)
    → ((x y z : ℕ) → u.memory x y z ≡ 0)
    → (page : ℕ) → page < 0x60000
    → is_used (init_memory_bitmap u).memory page ≡ ltb page (init_memory_bitmap u).using_memory
unfolding init_memory_bitmap
init_memory_bitmap_lem u clear page h =
    let zero_byte = clear (page / 0x20000) (page % 0x20000 / 0x100) (page % 0x100 / 8) in
    ap (λ b. b / 2 ^ (page % 8) % 2 == 1) (byte_lem u page) ∙ elim (Bool-cases (ltb page 0x4000)) [
      | inl used ↦ rw (used, bits_of_ff (page % 8) (omega arith)) refl
      | inr unused ↦ rw (unused, zero_byte, bits_of_zero (page % 8) (omega arith)) refl
    ]
