-- ===== src/Screen.antt =====
-- common/Print.c: the text screen, its cursor, and numbers as text.
--
-- Memory is a function from an address to its byte: the character of a cell stands at an even address from
-- `video_memory_addr` on, its attribute at the next one.
pub mod Bounds
pub mod Digits
use skhuos.Common.{
  ℕ, zero, suc, ◌+◌, ◌-◌, ◌*◌, ◌/◌, ◌%◌, ◌^◌, Bool, true, false, List, [], ◌∷◌, ◌==◌, if◌then◌else◌,
  leb, ltb, get_or, set, replicate,
}
use skhuos.CString.{reverse_array}

abbrev pub one_line_size : ℕ
one_line_size = 160

abbrev pub video_memory_addr : ℕ
video_memory_addr = 0xb8000

abbrev pub one_char_size : ℕ
one_char_size = 2

abbrev pub line_count : ℕ
line_count = 25

abbrev pub back_space : ℕ
back_space = 8

-- Memory and the static variable `currentPoint`.
pub record Screen : Type 0 where
  pub memory : ℕ → ℕ
  pub current_point : ℕ

abbrev pub put : (ℕ → ℕ) → ℕ → ℕ → ℕ → ℕ
put mem a v b = if b == a then v else mem b

unfoldable pub move_to_next_line : Screen → Screen
move_to_next_line s =
    let x_idx = (s.current_point - video_memory_addr) % one_line_size in
    record s { current_point = s.current_point + (one_line_size - x_idx) }

-- `memcpy(dest, src, size)` within memory.
unfoldable pub copy : (ℕ → ℕ) → ℕ → ℕ → ℕ → ℕ → ℕ
copy mem dest src zero = mem
copy mem dest src (suc n) = copy (put mem dest (mem src)) (dest + 1) (src + 1) n

-- The loop of `fillLastLineBlank`, with the cells that are left.
unfoldable pub fill_blank : (ℕ → ℕ) → ℕ → ℕ → ℕ → ℕ
fill_blank mem a zero = mem
fill_blank mem a (suc n) = fill_blank (put mem a 0) (a + one_char_size) n

unfoldable pub fill_last_line_blank : (ℕ → ℕ) → ℕ → ℕ
fill_last_line_blank mem =
    fill_blank mem (video_memory_addr + one_line_size * (line_count - 1))
      (one_line_size / one_char_size)

-- The scrolling of `viewCharacter`.
unfoldable pub scroll : (ℕ → ℕ) → ℕ → ℕ
scroll mem = fill_last_line_blank (
    copy mem video_memory_addr (video_memory_addr + one_line_size)
      (one_line_size * (line_count - 1)))

unfoldable pub view_character : ℕ → Screen → Screen
view_character ch s =
    let video = s.current_point in
    if ch == back_space
    then record {
      memory = put s.memory (video - one_char_size) 0;
      current_point = s.current_point - one_char_size;
    }
    else (let next = s.current_point + one_char_size in
        if leb (video_memory_addr + one_line_size * line_count) next
        then record {
          memory = put (scroll s.memory) (video - one_line_size) ch;
          current_point = next - one_line_size;
        }
        else record { memory = put s.memory video ch; current_point = next })

-- `viewCharacterXY`. The cursor `currentPoint` is a number here, which a backspace takes no lower than 0, where the
-- `int` of the source becomes negative; it is not a part of `memory`, as the static variable is of the kernel's.
unfoldable pub view_character_xy : (ch line x : ℕ) → Screen → Screen
view_character_xy ch line x s =
    let video = video_memory_addr + line * one_line_size + 2 * x in
    if ch == back_space
    then record {
      memory = put s.memory (video - one_char_size) 0;
      current_point = s.current_point - one_char_size;
    }
    else record s { memory = put (put s.memory (video + 1) 0x0a) video ch }

-- `printString`, with the characters of the string in front of its NUL.
unfoldable pub print_string : List ℕ → Screen → Screen
unfolding move_to_next_line view_character
print_string [] s = s
print_string (c ∷ str) s =
    print_string str (if c == 10 then move_to_next_line s else view_character c s)

unfoldable pub puts : List ℕ → Screen → Screen
unfolding print_string move_to_next_line
puts str s = move_to_next_line (print_string str s)

-- The loop of `printStringLine` from the index `i` on.
unfoldable pub print_from : ℕ → List ℕ → ℕ → Screen → Screen
unfolding view_character_xy
print_from i [] line s = s
print_from i (c ∷ str) line s =
    let s₁ = print_from (i + 1) str line (view_character_xy c line i s) in
    if leb i 80 then s₁ else s

unfoldable pub print_string_line : List ℕ → ℕ → Screen → Screen
unfolding print_from
print_string_line str line s = print_from 0 str line s

unfoldable pub cursor_init : Screen → Screen
cursor_init s = record s { current_point = video_memory_addr }

unfoldable pub cursor_line : ℕ → Screen → Screen
cursor_line line s = record s { current_point = video_memory_addr + one_line_size * line }

-- The loop of `clear`, with the cells that are left.
unfoldable pub clear_cells : (ℕ → ℕ) → ℕ → ℕ → ℕ → ℕ
clear_cells mem a zero = mem
clear_cells mem a (suc n) = clear_cells (put (put mem a 0) (a + 1) 7) (a + one_char_size) n

unfoldable pub clear : Screen → Screen
clear s = cursor_init (record s {
  memory = clear_cells s.memory video_memory_addr (one_line_size * line_count / one_char_size);
})

-- `Monitor`: a copy of the cells, by index, and of the cursor.
pub record Monitor : Type 0 where
  pub vc : ℕ → ℕ × ℕ
  pub cp : ℕ

-- `saveVideoMemory`; each cell is read once.
unfoldable pub save_video_memory : Screen → Monitor → Monitor
save_video_memory s m = record {
  vc = λ i.
      let a = video_memory_addr + one_char_size * i in
      if ltb i (one_line_size * line_count / one_char_size)
      then (s.memory a, s.memory (a + 1))
      else m.vc i;
  cp = s.current_point;
}

-- The loop of `loadVideoMemory`, with the cells that are left.
unfoldable pub load_cells : (ℕ → ℕ × ℕ) → ℕ → ℕ → (ℕ → ℕ) → ℕ → ℕ
load_cells vc i zero mem = mem
load_cells vc i (suc n) mem =
    let a = video_memory_addr + one_char_size * i in
    load_cells vc (i + 1) n (put (put mem (a + 1) (vc i).1) a (vc i).0)

unfoldable pub load_video_memory : Monitor → Screen → Screen
load_video_memory m s = record {
  memory = load_cells m.vc 0 (one_line_size * line_count / one_char_size) s.memory;
  current_point = m.cp;
}

-- `"0123456789ABCDEF"[d]`
abbrev pub digit : ℕ → ℕ
digit d = if ltb d 10 then 48 + d else 55 + d

-- The loop of `printInt` and of `printHex` on the block `charNum`; it divides until 0 is left.
unfoldable pub digits : ℕ → ℕ → ℕ → List ℕ → ℕ → List ℕ × ℕ
digits zero num radix char_num count = (char_num, count)
digits (suc k) num radix char_num count =
    if num == 0
    then (char_num, count)
    else digits k (num / radix) radix (set char_num count (digit (num % radix))) (count + 1)

-- The last loop of the two functions.
unfoldable pub view_digits : List ℕ → ℕ → Screen → Screen
unfolding view_character
view_digits char_num zero s = s
view_digits [] (suc n) s = s
view_digits (c ∷ cs) (suc n) s = view_digits cs n (view_character c s)

-- `printInt` with `num` a 32-bit pattern: it is negative from 2^31 on, and its negation wraps.
unfoldable pub print_int : ℕ → ℕ → Screen → Screen
unfolding digits view_digits view_character
print_int num radix s =
    let negative = leb (2 ^ 31) num in
    let s₁ = if negative then view_character 45 s else s in
    let abs = if negative then (2 ^ 32 - num) % 2 ^ 32 else num in
    let rounds = if leb (2 ^ 31) abs then 0 else 32 in
    let (char_num, count) = digits rounds abs radix (replicate 32 0) 0 in
    if num == 0 then view_character 48 s else view_digits (reverse_array char_num count) count s₁

unfoldable pub print_hex : ℕ → Screen → Screen
unfolding digits view_digits view_character
print_hex num s =
    let (char_num, count) = digits 16 num 16 (replicate 16 0) 0 in
    if num == 0 then view_character 48 s else view_digits (reverse_array char_num count) count s
