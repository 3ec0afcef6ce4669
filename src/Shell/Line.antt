-- ===== src/Shell/Line.antt =====
-- kernel/shell/Shell.c: the input line of the shell is the list of characters that the user has typed.
use skhuos.Common.{
  ℕ, zero, suc, ◌+◌, ◌-◌, ◌<◌, ◌≤◌, ◌≡◌, ◌≢◌, refl, sym, ap, ◌∙◌, not, List, [], ◌∷◌, ◌++◌, ◌==◌,
  if◌then◌else◌, length, get_or, length-append, arith, inl, inr, Bool-cases, if_true, if_false,
}
use skhuos.CString.{c_string}
use skhuos.Sectors.{Buffer}
use skhuos.Shell.{Shell, shell_key, start_shell, store_char, key_enter, key_backspace}

-- The buffer holds a line and its NUL.
abbrev pub Line : Buffer → List ℕ → Type 0
Line b line = (i : ℕ) → i ≤ length line → b i ≡ c_string line i

pub record Typed (s : Shell) (line : List ℕ) : Type 0 where
  pub at_end : s.buffer_index ≡ length line
  pub holds : Line s.command_buffer line

-- The line without its last character.
abbrev pub drop_last : List ℕ → List ℕ
drop_last [] = []
drop_last (c ∷ []) = []
drop_last (c ∷ d ∷ cs) = c ∷ drop_last (d ∷ cs)

-- What a key makes of the line.
abbrev pub edit : ℕ → List ℕ → List ℕ
edit key line =
    if key == key_enter
    then []
    else if key == key_backspace
    then drop_last line
    else if not (key == 0)
    then line ++ (key ∷ [])
    else line

abbrev pub edits : List ℕ → List ℕ → List ℕ
edits [] line = line
edits (key ∷ keys) line = edits keys (edit key line)

length-drop_last : (line : List ℕ) → length (drop_last line) ≡ length line - 1
length-drop_last [] = refl
length-drop_last (c ∷ []) = refl
length-drop_last (c ∷ d ∷ cs) = omega (arith, length-drop_last (d ∷ cs))

get_or-drop_last :
    (line : List ℕ) (i : ℕ) → i + 1 < length line → get_or (drop_last line) i 0 ≡ get_or line i 0
get_or-drop_last [] i h = refl
get_or-drop_last (c ∷ []) i h = absurd (omega arith)
get_or-drop_last (c ∷ d ∷ cs) zero h = refl
get_or-drop_last (c ∷ d ∷ cs) (suc i) h = get_or-drop_last (d ∷ cs) i (omega arith)

get_or-end : (line : List ℕ) (i : ℕ) → length line ≤ i → get_or line i 0 ≡ 0
get_or-end [] i h = refl
get_or-end (c ∷ cs) zero h = absurd (omega arith)
get_or-end (c ∷ cs) (suc i) h = get_or-end cs i (omega arith)

get_or-snoc :
    (line : List ℕ) (key i : ℕ)
    → i < length line
    → get_or (line ++ (key ∷ [])) i 0 ≡ get_or line i 0
get_or-snoc [] key i h = absurd (omega arith)
get_or-snoc (c ∷ cs) key zero h = refl
get_or-snoc (c ∷ cs) key (suc i) h = get_or-snoc cs key i (omega arith)

get_or-snoc_last : (line : List ℕ) (key : ℕ) → get_or (line ++ (key ∷ [])) (length line) 0 ≡ key
get_or-snoc_last [] key = refl
get_or-snoc_last (c ∷ cs) key = get_or-snoc_last cs key

char_deleted :
    (s : Shell) (line : List ℕ)
    → Typed s line
    → s.buffer_index ≢ 0
    → Typed
        record {
          buffer_index = s.buffer_index - 1;
          command_buffer = store_char s.command_buffer (s.buffer_index - 1) 0;
        }
        (drop_last line)
char_deleted s line t nz = record {
  at_end = omega (arith, length-drop_last line, t.at_end);
  holds = λ i h. elim (Bool-cases (i == s.buffer_index - 1)) [
    | inl at_last ↦
        let e = get_or-end (drop_last line) i (ground (arith, length-drop_last line, t.at_end)) in
        if_true (i == s.buffer_index - 1) 0 (s.command_buffer i) at_last ∙ sym e
    | inr before ↦
        let lower : i + 1 < length line = ground (arith, length-drop_last line, t.at_end, nz) in
        if_false (i == s.buffer_index - 1) 0 (s.command_buffer i) before
        ∙ t.holds i (omega arith)
        ∙ sym (get_or-drop_last line i lower)
  ];
}

char_added :
    (key : ℕ) (s : Shell) (line : List ℕ)
    → Typed s line
    → Typed
        record {
          buffer_index = s.buffer_index + 1;
          command_buffer =
              store_char (store_char s.command_buffer s.buffer_index key) (s.buffer_index + 1) 0;
        }
        (line ++ (key ∷ []))
char_added key s line t = record {
  at_end = omega (arith, length-append line (key ∷ []), t.at_end);
  holds = λ i h.
      let size = length-append line (key ∷ []) in
      elim (Bool-cases (i == s.buffer_index + 1)) [
        | inl at_nul ↦
            let e = get_or-end (line ++ (key ∷ [])) i (ground (arith, size, t.at_end)) in
            if_true (i == s.buffer_index + 1) 0 _ at_nul ∙ sym e
        | inr before ↦
            if_false (i == s.buffer_index + 1) 0 _ before
            ∙ elim (Bool-cases (i == s.buffer_index)) [
              | inl at_key ↦
                  let e : length line ≡ i = ground (arith, t.at_end) in
                  if_true (i == s.buffer_index) key (s.command_buffer i) at_key
                  ∙ sym (get_or-snoc_last line key)
                  ∙ ap (λ n. get_or (line ++ (key ∷ [])) n 0) e
              | inr lower ↦
                  let inside : i < length line = ground (arith, size, t.at_end) in
                  if_false (i == s.buffer_index) key (s.command_buffer i) lower
                  ∙ t.holds i (omega arith)
                  ∙ sym (get_or-snoc line key i inside)
            ]
      ];
}

empty_line : (line : List ℕ) → length line ≡ 0 → drop_last line ≡ line
empty_line [] h = refl
empty_line (c ∷ cs) h = absurd (omega arith)

shell_key-Typed :
    (key : ℕ) (s : Shell) (line : List ℕ) → Typed s line → Typed (shell_key key s).0 (edit key line)
unfolding shell_key
shell_key-Typed key s line t = elim (Bool-cases (key == key_enter)) [
  | inl enter ↦ rw enter (record { at_end = refl; holds = λ i h. ground arith })
  | inr other ↦ elim (Bool-cases (key == key_backspace)) [
    | inl back ↦ elim (Bool-cases (s.buffer_index == 0)) [
      | inl empty ↦ rw (other, back, empty, empty_line line (ground (arith, t.at_end))) t
      | inr some_left ↦ rw (other, back, some_left) (char_deleted s line t (λ e. ground arith))
    ]
    | inr char ↦ elim (Bool-cases (key == 0)) [
      | inl no_key ↦ rw (other, char, no_key) t
      | inr a_key ↦ rw (other, char, a_key) (char_added key s line t)
    ]
  ]
]

-- The line never has more than the 99 characters that `commandBuffer` has room for.
abbrev pub Short : List ℕ → List ℕ → Type 0
Short [] line = length line < 100
Short (key ∷ keys) line = (length line < 100) × Short keys (edit key line)

-- `startShell` keeps the line in its buffer: behind a sequence of keys in which the line never has 100
-- characters, the buffer holds the characters that the keys have left on the line, and its NUL, and the index
-- is at the NUL, inside the array. ENTER empties the line, a backspace takes its last character, and the key 0
-- leaves it.
pub start_shell-Typed :
    (keys : List ℕ) (s : Shell) (line : List ℕ)
    → Typed s line
    → Short keys line
    → Typed (start_shell keys s).0 (edits keys line) × ((start_shell keys s).0.buffer_index < 100)
unfolding start_shell
start_shell-Typed [] s line t short = (t, omega (arith, t.at_end))
start_shell-Typed (key ∷ keys) s line t (now, short) =
    start_shell-Typed keys (shell_key key s).0 (edit key line) (shell_key-Typed key s line t) short
