-- ===== src/Shell/Lookup.antt =====
-- kernel/shell/Shell.c: the first word of the line names the command that runs.
use skhuos.Common.{
  ℕ, zero, suc, ◌+◌, ◌<◌, ◌≤◌, ◌≡◌, ◌≢◌, ◌⊎◌, refl, sym, ap, ◌∙◌, Bool, true, not, ◌&&◌, Option,
  none, some, List, [], ◌∷◌, ◌==◌, if◌then◌else◌, ltb, length, get_or, arith, inl, inr, Bool-cases,
  Option-cases, if_true, if_false,
}
use mathlib.Core.Path.{ap₂}
use skhuos.CString.{c_string}
use skhuos.CString.Compare.{IsText, same, strcmp_lem, same_unique, same-c_string, same-window}
use skhuos.Sectors.{Buffer}
use skhuos.Shell

-- The characters of a word: neither a blank nor NUL.
abbrev pub IsWord : List ℕ → Type 0
IsWord [] = Unit {0}
IsWord (c ∷ cs) = (c ≢ 0) × (c ≢ b' ') × (c < 256) × IsWord cs

word-IsText : (word : List ℕ) → IsWord word → IsText word
word-IsText [] w = tt
word-IsText (c ∷ cs) (nz, nb, b, w) = (nz, b, word-IsText cs w)

-- A line begins with a word that a blank or NUL ends.
pub record Begins (cmd : Buffer) (word : List ℕ) : Type 0 where
  pub reads : (i : ℕ) → i < length word → cmd i ≡ get_or word i 0
  pub ends : (cmd (length word) ≡ b' ') ⊎ (cmd (length word) ≡ 0)

word_char :
    (word : List ℕ) (i : ℕ)
    → IsWord word
    → i < length word
    → (get_or word i 0 ≢ 0) × (get_or word i 0 ≢ b' ')
word_char [] i w h = absurd (omega arith)
word_char (c ∷ cs) zero (nz, nb, b, w) h = (nz, nb)
word_char (c ∷ cs) (suc i) (nz, nb, b, w) h = word_char cs i w (omega arith)

word_end : (word : List ℕ) (i : ℕ) → length word ≤ i → get_or word i 0 ≡ 0
word_end [] i h = refl
word_end (c ∷ cs) zero h = absurd (omega arith)
word_end (c ∷ cs) (suc i) h = word_end cs i (omega arith)

scan_name_lem :
    (k idx : ℕ) (cmd : Buffer) (word : List ℕ)
    → IsWord word
    → Begins cmd word
    → idx ≤ length word
    → length word < idx + k
    → Shell.scan_name k cmd idx ≡ some (length word)
unfolding Shell.scan_name
scan_name_lem zero idx cmd word w b h l = absurd (omega arith)
scan_name_lem (suc k) idx cmd word w b h l = elim (Bool-cases (idx == length word)) [
  | inl last ↦ let at : idx ≡ length word = ground arith in rw at (ground (arith, b.ends))
  | inr more ↦
      let inside : idx < length word = ground arith in
      let (nz, nb) = word_char word idx w inside in
      let same_char = b.reads idx inside in
      ground (
        arith,
        nz,
        nb,
        same_char,
        scan_name_lem k (idx + 1) cmd word w b (omega arith) (omega arith),
      )
]

-- The lookup of a word, not in a buffer.
unfoldable find_word : List ℕ → List Shell.Command → Option Shell.Command
find_word word [] = none
find_word word (c ∷ table) =
    let rest = find_word word table in
    if same (c_string word) (Shell.name_of c) then some c else rest

abbrev is_text : List ℕ → Bool
is_text [] = true
is_text (c ∷ cs) = not (c == 0) && ltb c 256 && is_text cs

is_text-IsText : (cs : List ℕ) → is_text cs ≡ true → IsText cs
is_text-IsText [] e = tt
is_text-IsText (c ∷ cs) e = (λ z. ground arith, ground arith, is_text-IsText cs (ground arith))

name-IsText : (c : Shell.Command) → IsText (Shell.name_of c)
name-IsText Shell.help = is_text-IsText (Shell.name_of Shell.help) refl
name-IsText Shell.clear_command = is_text-IsText (Shell.name_of Shell.clear_command) refl
name-IsText Shell.mem_used = is_text-IsText (Shell.name_of Shell.mem_used) refl
name-IsText Shell.reboot = is_text-IsText (Shell.name_of Shell.reboot) refl
name-IsText Shell.print_disk_capacity =
    is_text-IsText (Shell.name_of Shell.print_disk_capacity) refl
name-IsText Shell.multi_tasking = is_text-IsText (Shell.name_of Shell.multi_tasking) refl
name-IsText Shell.mount_command = is_text-IsText (Shell.name_of Shell.mount_command) refl
name-IsText Shell.formatting = is_text-IsText (Shell.name_of Shell.formatting) refl
name-IsText Shell.ls = is_text-IsText (Shell.name_of Shell.ls) refl
name-IsText Shell.touch = is_text-IsText (Shell.name_of Shell.touch) refl
name-IsText Shell.rm = is_text-IsText (Shell.name_of Shell.rm) refl
name-IsText Shell.editor = is_text-IsText (Shell.name_of Shell.editor) refl
name-IsText Shell.ring3 = is_text-IsText (Shell.name_of Shell.ring3) refl

find_name : (c : Shell.Command) → find_word (Shell.name_of c) Shell.command_table ≡ some c
unfolding find_word
find_name Shell.help = refl
find_name Shell.clear_command = refl
find_name Shell.mem_used = refl
find_name Shell.reboot = refl
find_name Shell.print_disk_capacity = refl
find_name Shell.multi_tasking = refl
find_name Shell.mount_command = refl
find_name Shell.formatting = refl
find_name Shell.ls = refl
find_name Shell.touch = refl
find_name Shell.rm = refl
find_name Shell.editor = refl
find_name Shell.ring3 = refl

find_command-word :
    (name : Buffer) (word : List ℕ) (table : List Shell.Command)
    → ((j : ℕ) → name j ≡ c_string word j)
    → Shell.find_command name table ≡ find_word word table
unfolding Shell.find_command find_word
find_command-word name word [] h = refl
find_command-word name word (c ∷ table) h =
    ap₂ (λ b r. if b then some c else r)
      (strcmp_lem name (Shell.name_of c) (name-IsText c)
        ∙ same-window name (c_string word) (Shell.name_of c) (λ j l. h j))
      (find_command-word name word table h)

find_word_sound :
    (word : List ℕ) (table : List Shell.Command) (c : Shell.Command)
    → IsText word
    → find_word word table ≡ some c
    → word ≡ Shell.name_of c
unfolding find_word
find_word_sound word [] c t e = absurd (ground arith)
find_word_sound word (d ∷ table) c t e =
    elim (Bool-cases (same (c_string word) (Shell.name_of d))) [
      | inl found ↦
          let at : d ≡ c = ground arith in
          same_unique (c_string word) word (Shell.name_of d) t (name-IsText d) (same-c_string word)
            found
          ∙ ap Shell.name_of at
      | inr other ↦ find_word_sound word table c t (ground arith)
    ]

-- The array `name` behind the copy of the first word.
name_copied :
    (cmd : Buffer) (word : List ℕ)
    → Begins cmd word
    → (j : ℕ) → (if ltb j (length word) then cmd j else 0) ≡ c_string word j
name_copied cmd word b j = elim (Bool-cases (ltb j (length word))) [
  | inl inside ↦ if_true (ltb j (length word)) (cmd j) 0 inside ∙ b.reads j (ground arith)
  | inr behind ↦
      if_false (ltb j (length word)) (cmd j) 0 behind ∙ sym (word_end word j (ground arith))
]

-- Where the argument of a command begins: behind the blank.
abbrev pub argument_at : Buffer → List ℕ → ℕ
argument_at cmd word = if cmd (length word) == b' ' then length word + 1 else length word

-- `executeCommand` on a line that begins with a word of 1 to 99 characters returns. If the word is the name of
-- a command, this command runs, and its argument begins behind the blank, or at the NUL without one; otherwise the line
-- is not found, and no command has its first word as a name.
pub execute_command_lem :
    (cmd : Buffer) (word : List ℕ)
    → IsWord word
    → Begins cmd word
    → 0 < length word
    → length word < 100
    → ((c : Shell.Command) × (word ≡ Shell.name_of c)
        × (Shell.execute_command cmd ≡ some (Shell.run_command c (argument_at cmd word))))
      ⊎ (((c : Shell.Command) → word ≢ Shell.name_of c)
          × (Shell.execute_command cmd ≡ some Shell.is_not_found))
unfolding Shell.execute_command
execute_command_lem cmd word w b nonempty short =
    let found = find_word word Shell.command_table in
    let run : Shell.execute_command cmd ≡ some (Shell.execution_of found (argument_at cmd word)) =
      ap (λ o. elim o [ none ↦ none | some idx ↦ some (Shell.execute_word cmd idx) ])
        (scan_name_lem 100 0 cmd word w b (omega arith) (omega arith))
      ∙ ap some (
          if_false (length word == 0) _ _ (ground arith)
          ∙ ap (λ o. Shell.execution_of o (argument_at cmd word))
              (find_command-word _ word Shell.command_table (name_copied cmd word b))) in
    elim (Option-cases found) [
      | inl nothing ↦ inr (
        λ c e. absurd (
            no_name c
              (sym (find_name c) ∙ ap (λ v. find_word v Shell.command_table) (sym e) ∙ nothing)),
        run ∙ ap (λ o. some (Shell.execution_of o (argument_at cmd word))) nothing,
      )
      | inr (c, known) ↦ inl (
        c,
        find_word_sound word Shell.command_table c (word-IsText word w) known,
        run ∙ ap (λ o. some (Shell.execution_of o (argument_at cmd word))) known,
      )
    ]
  where
    no_name : (c : Shell.Command) → some c ≡ none → ⊥
    no_name c e = ground arith
