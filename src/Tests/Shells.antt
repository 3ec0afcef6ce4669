-- ===== src/Tests/Shells.antt =====
-- The theorems on the shell at a line with a command and a file name.
use skhuos.Common.{
  ℕ, zero, suc, ◌<◌, ◌≤◌, ◌≡◌, ◌≢◌, ◌⊎◌, inl, refl, List, [], ◌∷◌, get_or, some, arith,
}
use skhuos.CString.{c_string}
use skhuos.Shell
use skhuos.Editor
use skhuos.Editor.Bounds.{InBounds, editor_keys-InBounds}
use skhuos.Shell.Line.{Typed, start_shell-Typed}
use skhuos.Shell.Lookup.{IsWord, Begins, execute_command_lem}

-- "rm a" typed with a mistake that is taken back, into an empty line.
abbrev rm_keys : List ℕ
rm_keys = b'r' ∷ b'n' ∷ 8 ∷ b'm' ∷ b' ' ∷ b'a' ∷ []

abbrev rm_line : List ℕ
rm_line = b'r' ∷ b'm' ∷ b' ' ∷ b'a' ∷ []

abbrev fresh_shell : Shell.Shell
fresh_shell = record { buffer_index = 0; command_buffer = λ i. 0 }

fresh_shell-Typed : Typed fresh_shell []
fresh_shell-Typed = record { at_end = refl; holds = λ i h. refl }

start_shell-Typed_example :
    Typed (Shell.start_shell rm_keys fresh_shell).0 rm_line
    × ((Shell.start_shell rm_keys fresh_shell).0.buffer_index < 100)
start_shell-Typed_example = start_shell-Typed rm_keys fresh_shell [] fresh_shell-Typed (
  omega arith,
  (omega arith, (omega arith, (omega arith, (omega arith, (omega arith, omega arith))))),
)

abbrev rm_word : List ℕ
rm_word = b'r' ∷ b'm' ∷ []

rm_word-IsWord : IsWord rm_word
rm_word-IsWord =
    (omega arith, omega arith, omega arith, (omega arith, omega arith, omega arith, tt))

rm_line-Begins : Begins (c_string rm_line) rm_word
rm_line-Begins = record { reads = reads; ends = inl refl }
  where
    reads : (i : ℕ) → i < 2 → c_string rm_line i ≡ get_or rm_word i 0
    reads zero h = refl
    reads (suc zero) h = refl
    reads (suc (suc i)) h = absurd (omega arith)

execute_command_lem_example :
    ((c : Shell.Command) × (rm_word ≡ Shell.name_of c)
      × (Shell.execute_command (c_string rm_line) ≡ some (Shell.run_command c 3)))
    ⊎ (((c : Shell.Command) → rm_word ≢ Shell.name_of c)
        × (Shell.execute_command (c_string rm_line) ≡ some Shell.is_not_found))
execute_command_lem_example =
    execute_command_lem (c_string rm_line) rm_word rm_word-IsWord rm_line-Begins (omega arith)
      (omega arith)

-- An editor with the text "ab", and keys that add a line, leave the text and quit.
abbrev editing : Editor.Editor
editing = record { buffer = c_string (b'a' ∷ b'b' ∷ []); str_idx = 2; mode = Editor.typing }

editing-InBounds : InBounds (λ j. 0) editing
editing-InBounds = record {
  inside = omega arith;
  ended = refl;
  kept = λ j h. behind j h;
  command = tt;
}
  where
    behind : (j : ℕ) → 4096 ≤ j → c_string (b'a' ∷ b'b' ∷ []) j ≡ 0
    behind zero h = absurd (omega arith)
    behind (suc zero) h = absurd (omega arith)
    behind (suc (suc j)) h = refl

abbrev quit_keys : List ℕ
quit_keys = b'c' ∷ b'\n' ∷ 8 ∷ 0x1b ∷ b'x' ∷ 8 ∷ b'q' ∷ b'\n' ∷ []

editor_keys-InBounds_example : InBounds (λ j. 0) (Editor.editor_keys quit_keys editing)
editor_keys-InBounds_example = editor_keys-InBounds quit_keys (λ j. 0) editing editing-InBounds
