-- ===== src/Syscall/Check.antt =====
-- kernel/syscall/Syscall.c: which strings of a user program the kernel reads, and what `writeXY` writes.
use skhuos.Common.{
  ℕ, zero, suc, ◌+◌, ◌-◌, ◌^◌, ◌<◌, ◌≤◌, ◌≡◌, ◌↔◌, ◌⊎◌, inl, inr, refl, ◌∙◌, true, false, ◌||◌, not,
  ◌==◌, leb, ltb, arith, Bool-cases,
}
use skhuos.Process.{user_memory_base, user_memory_end}
use skhuos.Screen.{Screen, view_character_xy}
use skhuos.Syscall.{find_nul, is_user_string, write_xy, write_loop}

find_nul_lem :
    (mem : ℕ → ℕ) (addr n : ℕ)
    → find_nul mem addr n ≡ true
    → (i : ℕ) × (i < n) × (mem (addr + i) ≡ 0)
unfolding find_nul
find_nul_lem mem addr zero h = absurd (ground (arith))
find_nul_lem mem addr (suc n) h = elim (Bool-cases (mem addr == 0)) [
  | inl e ↦ (0, omega arith, ground arith)
  | inr ne ↦
      let (i, l, z) = find_nul_lem mem (addr + 1) n (ground arith) in
      (i + 1, omega arith, ground arith)
]

find_nul_found :
    (mem : ℕ → ℕ) (addr n i : ℕ) → i < n → mem (addr + i) ≡ 0 → find_nul mem addr n ≡ true
unfolding find_nul
find_nul_found mem addr zero i l z = absurd (omega arith)
find_nul_found mem addr (suc n) i l z = elim (Bool-cases (mem addr == 0)) [
  | inl e ↦ rw e refl
  | inr ne ↦ rw ne (find_nul_found mem (addr + 1) n (i - 1) (ground arith) (ground arith))
]

-- What `isUserString` accepts: a string in the user area, with its NUL there.
abbrev pub UserString : (ℕ → ℕ) → ℕ → Type 0
UserString mem addr =
    (i : ℕ) × (mem (addr + i) ≡ 0) × (user_memory_base ≤ addr) × (addr + i < user_memory_end)

-- `isUserString` accepts an address exactly if a NUL stands at it or behind it and both are addresses of the
-- user area.
pub is_user_string_iff :
    (mem : ℕ → ℕ) (addr : ℕ) → (is_user_string mem addr ≡ true) ↔ UserString mem addr
unfolding is_user_string
is_user_string_iff mem addr = (
  λ h.
      (let below : ltb addr user_memory_base ≡ false = ground arith in
        let above : leb user_memory_end addr ≡ false = ground arith in
        let (i, l, z) = find_nul_lem mem addr (user_memory_end - addr) (ground arith) in
        (i, z, ground arith, ground arith)),
  λ (i, z, l, u).
      (let found = find_nul_found mem addr (user_memory_end - addr) i (ground arith) z in
        ground arith),
)

xy_outside :
    (ch line x : ℕ) (s : Screen) (a : ℕ)
    → line < 25
    → x < 80
    → (a < 0xb8000 - 2) ⊎ (0xb8000 + 4000 ≤ a)
    → (view_character_xy ch line x s).memory a ≡ s.memory a
unfolding view_character_xy
xy_outside ch line x s a l h out = ground arith

write_loop_outside :
    (n str line column i : ℕ) (s : Screen) (a : ℕ)
    → line < 25
    → column + i + n ≤ 80
    → (a < 0xb8000 - 2) ⊎ (0xb8000 + 4000 ≤ a)
    → (write_loop n str line column i s).memory a ≡ s.memory a
unfolding write_loop
write_loop_outside zero str line column i s a l b out = refl
write_loop_outside (suc n) str line column i s a l b out =
    let c = s.memory (str + i) in
    let s₁ = view_character_xy c line (column + i) s in
    elim (Bool-cases (c == 0)) [
      | inl end ↦ rw end refl
      | inr more ↦ rw more (
          write_loop_outside n str line column (i + 1) s₁ a l (omega arith) out
          ∙ xy_outside c line (column + i) s a l (omega arith) out)
    ]

-- Whatever a user program passes to `writeXY`, the call returns 0 or -1, and -1 if the string is not one of the
-- user area. Of the memory apart from the kernel's variable `currentPoint`, which a backspace moves, it changes no
-- byte but those of video memory and of the cell in front of it.
pub write_xy_confined :
    (line column str : ℕ) (s : Screen) (a : ℕ)
    → (a < 0xb8000 - 2) ⊎ (0xb8000 + 4000 ≤ a)
    → let (r, s') = write_xy line column str s in
      ((r ≡ 0) ⊎ (r ≡ 2 ^ 64 - 1))
      × ((is_user_string s.memory str ≡ true) ⊎ (r ≡ 2 ^ 64 - 1))
      × (s'.memory a ≡ s.memory a)
unfolding write_xy
write_xy_confined line column str s a out =
    elim (Bool-cases (leb 25 line || (leb 80 column || not (is_user_string s.memory str)))) [
      | inl bad ↦ rw bad (inr refl, inr refl, refl)
      | inr good ↦ rw good (
        inl refl,
        inl (ground arith),
        write_loop_outside (80 - column) str line column 0 s a (ground arith) (ground arith) out,
      )
    ]
