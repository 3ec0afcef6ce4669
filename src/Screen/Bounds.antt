-- ===== src/Screen/Bounds.antt =====
-- common/Print.c: the screen's functions write video memory only, scroll, and bring back a saved screen.
use skhuos.Common.{
  ℕ, zero, suc, ◌+◌, ◌-◌, ◌*◌, ◌/◌, ◌%◌, ◌<◌, ◌≤◌, ◌≡◌, ◌≢◌, ◌⊎◌, inl, inr, refl, ◌∙◌, ◌&&◌, ◌==◌,
  if◌then◌else◌, leb, ltb, arith, Bool-cases,
}
use skhuos.Screen.{
  Screen, Monitor, video_memory_addr, put, copy, fill_blank, fill_last_line_blank, scroll,
  view_character, save_video_memory, load_video_memory, load_cells,
}

-- A copy to a lower address moves the block as it was.
copy_lem :
    (mem : ℕ → ℕ) (d s n a : ℕ)
    → d < s
    → copy mem d s n a ≡ (if leb d a && ltb a (d + n) then mem (a + (s - d)) else mem a)
unfolding copy
copy_lem mem d s zero a h = ground arith
copy_lem mem d s (suc n) a h =
    copy_lem (put mem d (mem s)) (d + 1) (s + 1) n a (omega arith) ∙ ground arith

fill_blank_lem :
    (mem : ℕ → ℕ) (b n a : ℕ)
    → fill_blank mem b n a
      ≡ (if leb b a && ltb a (b + 2 * n) && ((a - b) % 2 == 0) then 0 else mem a)
unfolding fill_blank
fill_blank_lem mem b zero a = ground arith
fill_blank_lem mem b (suc n) a = ground (arith, fill_blank_lem (put mem b 0) (b + 2) n a)

-- A full screen scrolls: every line but the last one shows what the next one showed, the characters of the
-- last one are 0 and its attributes stay, and no byte behind or before video memory changes.
scroll_lem :
    (mem : ℕ → ℕ) (a : ℕ)
    → scroll mem a ≡ (
        if leb 0xb8000 a && ltb a (0xb8000 + 3840)
        then mem (a + 160)
        else if leb (0xb8000 + 3840) a && ltb a (0xb8000 + 4000) && (a % 2 == 0)
        then 0
        else mem a)
unfolding scroll fill_last_line_blank
scroll_lem mem a =
    let moved = copy mem 0xb8000 (0xb8000 + 160) 3840 in
    fill_blank_lem moved (0xb8000 + 3840) 80 a
    ∙ ground (arith, copy_lem mem 0xb8000 (0xb8000 + 160) 3840 a)

-- With the cursor on the screen or just behind it, and not at its start for a backspace, `viewCharacter`
-- leaves the cursor on the screen and changes no byte outside video memory.
pub view_character_bounds :
    (ch : ℕ) (s : Screen) (a : ℕ)
    → video_memory_addr ≤ s.current_point
    → s.current_point ≤ video_memory_addr + 4000
    → (ch ≢ 8) ⊎ (video_memory_addr + 2 ≤ s.current_point)
    → (a < video_memory_addr) ⊎ (video_memory_addr + 4000 ≤ a)
    → (video_memory_addr ≤ (view_character ch s).current_point)
      × ((view_character ch s).current_point < video_memory_addr + 4000)
      × ((view_character ch s).memory a ≡ s.memory a)
unfolding view_character
view_character_bounds ch s a h k b out = ground (arith, scroll_lem s.memory a)

-- The cell that an address lies in.
even_cell : (i a : ℕ) → a ≡ 0xb8000 + 2 * i → (a % 2 ≡ 0) × ((a - 0xb8000) / 2 ≡ i)
even_cell i a e = omega arith

odd_cell : (i a : ℕ) → a ≡ 0xb8000 + 2 * i + 1 → (a % 2 ≡ 1) × ((a - 0xb8000) / 2 ≡ i)
odd_cell i a e = omega arith

cell_of :
    (a : ℕ)
    → 0xb8000 ≤ a
    → ((a % 2 ≡ 0) × (0xb8000 + 2 * ((a - 0xb8000) / 2) ≡ a))
      ⊎ ((a % 2 ≡ 1) × (0xb8000 + 2 * ((a - 0xb8000) / 2) + 1 ≡ a))
cell_of a h = elim (Bool-cases (a % 2 == 0)) [
  | inl e ↦ inl (ground arith)
  | inr o ↦ inr (ground arith)
]

load_cells_lem :
    (vc : ℕ → ℕ × ℕ) (i n : ℕ) (mem : ℕ → ℕ) (a : ℕ)
    → load_cells vc i n mem a ≡ (
        if leb (0xb8000 + 2 * i) a && ltb a (0xb8000 + 2 * (i + n))
        then (if a % 2 == 0 then (vc ((a - 0xb8000) / 2)).0 else (vc ((a - 0xb8000) / 2)).1)
        else mem a)
unfolding load_cells
load_cells_lem vc i zero mem a = ground arith
load_cells_lem vc i (suc n) mem a =
    let b = 0xb8000 + 2 * i in
    load_cells_lem vc (i + 1) n (put (put mem (b + 1) (vc i).1) b (vc i).0) a
    ∙ ground (arith, even_cell i a, odd_cell i a)

-- `loadVideoMemory` brings back the screen that `saveVideoMemory` saved, whatever was shown in between: the
-- bytes of video memory and the cursor; other memory stays.
load_video_memory-save_video_memory :
    (s t : Screen) (m : Monitor) (a : ℕ)
    → ((load_video_memory (save_video_memory s m) t).memory a
        ≡ (if leb 0xb8000 a && ltb a (0xb8000 + 4000) then s.memory a else t.memory a))
      × ((load_video_memory (save_video_memory s m) t).current_point ≡ s.current_point)
unfolding load_video_memory save_video_memory
load_video_memory-save_video_memory s t m a =
    (load_cells_lem (save_video_memory s m).vc 0 2000 t.memory a ∙ ground (arith, cell_of a), refl)
