-- ===== src/Editor.antt =====
-- kernel/shell/editor.c: the editor's text and its command line, as a state machine of the keys.
pub mod Bounds
use skhuos.Common.{
  ℕ, zero, suc, ◌+◌, ◌-◌, ◌*◌, ◌/◌, ◌%◌, ◌^◌, Bool, true, false, not, ◌&&◌, ◌||◌, Option, none,
  some, List, [], ◌∷◌, ◌==◌, if◌then◌else◌, leb, ltb,
}
use skhuos.CString.{c_string, strlen, memcmp}
use skhuos.Sectors.{Buffer, Device}
use skhuos.Shell.{key_enter, key_backspace, store_char}
use skhuos.Fat.{Fs}
use skhuos.Fat.Files.{read_file, write_file}

abbrev pub key_esc : ℕ
key_esc = 0x1b

-- The size of `buffer`, and that of `stateBuffer`.
abbrev pub buffer_size : ℕ
buffer_size = 4096

abbrev pub state_size : ℕ
state_size = 80

-- Which loop of `runEditor` waits for a key: that of the text, that of the command line with `stateIdx` and `stateBuffer`, or
-- neither, with TRUE if the text is to be written.
pub data Mode : Type 0 where
  typing : Mode
  commanding : ℕ → Buffer → Mode
  left : Bool → Mode

-- `buffer`, `strIdx` and the loop.
pub record Editor : Type 0 where
  pub buffer : Buffer
  pub str_idx : ℕ
  pub mode : Mode

-- `while(strIdx < strIdxNew) buffer[strIdx++] = ' '`, with the rounds that are left.
unfoldable pub fill_blanks : ℕ → ℕ → Buffer → Buffer
fill_blanks zero i b = b
fill_blanks (suc k) i b = fill_blanks k (i + 1) (store_char b i b' ')

-- A key in the loop of the text.
unfoldable pub text_key : ℕ → Editor → Editor
text_key key e =
    let i = e.str_idx in
    let new = i - i % 80 + 80 in
    if key == key_enter
    then (if ltb (buffer_size - 1) new then e else record e {
      buffer = store_char (fill_blanks (new - i) i e.buffer) new 0;
      str_idx = new;
    })
    else if key == key_backspace
    then (if i == 0
        then e
        else record e { buffer = store_char e.buffer (i - 1) 0; str_idx = i - 1 })
    else if key == key_esc
    then record e { mode = commanding 0 (λ j. 0) }
    else if not (key == 0)
    then (if leb (buffer_size - 1) i then e else record e {
      buffer = store_char (store_char e.buffer i key) (i + 1) 0;
      str_idx = i + 1;
    })
    else e

-- A key in the loop of the command line.
unfoldable pub command_key : ℕ → ℕ → Buffer → Mode
command_key key i b =
    if key == key_esc
    then typing
    else if key == key_enter
    then (if memcmp 1 b (c_string (b'w' ∷ [])) == 0
        then left true
        else if memcmp 1 b (c_string (b'q' ∷ [])) == 0
        then left false
        else commanding i b)
    else if key == key_backspace
    then (if i == 0 then commanding i b else commanding (i - 1) (store_char b (i - 1) 0))
    else if not (key == 0) && ltb i (state_size - 1)
    then commanding (i + 1) (store_char (store_char b i key) (i + 1) 0)
    else commanding i b

unfoldable pub editor_key : ℕ → Editor → Editor
editor_key key e = elim e.mode [
  | typing ↦ text_key key e
  | commanding i b ↦ record e { mode = command_key key i b }
  | left save ↦ e
]

unfoldable pub editor_keys : List ℕ → Editor → Editor
editor_keys [] e = e
editor_keys (key ∷ keys) e = editor_keys keys (editor_key key e)

module _ {D : Type 0} (dev : Device D) where
  -- The begin of `runEditor`: the file's text, if there is one.
  unfoldable pub open_editor : List ℕ → Buffer → Fs D → Option Editor × Fs D
  open_editor name buffer s =
      let (size, text, s₁) = read_file dev name buffer s in
      (
        elim size [
          | none ↦ none
          | some n ↦ elim (strlen (suc buffer_size) text 0) [
            | none ↦ none
            | some i ↦ some (record { buffer = text; str_idx = i; mode = typing })
          ]
        ],
        s₁,
      )

  -- The end: `writeFile` with the length of the text.
  unfoldable pub close_editor : List ℕ → Editor → Fs D → Fs D
  close_editor name e s = elim e.mode [
    | typing ↦ s
    | commanding i b ↦ s
    | left save ↦
        (if save
          then elim (strlen (suc buffer_size) e.buffer 0) [
            | none ↦ s
            | some n ↦ (write_file dev name e.buffer n s).0
          ]
          else s)
  ]
