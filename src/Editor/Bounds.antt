-- ===== src/Editor/Bounds.antt =====
-- kernel/shell/editor.c: the editor stays inside its two arrays.
use skhuos.Common.{
  ℕ, zero, suc, ◌+◌, ◌-◌, ◌%◌, ◌<◌, ◌≤◌, ◌≡◌, refl, ◌∙◌, Bool, true, false, not, ◌&&◌, List, [],
  ◌∷◌, ◌==◌, if◌then◌else◌, leb, ltb, arith, inl, inr, Bool-cases,
}
use skhuos.Sectors.{Buffer}
use skhuos.CString.{c_string, memcmp}
use skhuos.Shell.{store_char, key_enter, key_backspace}
use skhuos.Editor
use skhuos.Editor.{key_esc, typing, commanding, left}

-- What the command line keeps: it ends with a NUL inside `stateBuffer`, and nothing is written behind that.
abbrev pub CommandBounds : Editor.Mode → Type 0
CommandBounds Editor.typing = Unit {0}
CommandBounds (Editor.commanding i b) = (i < 80) × (b i ≡ 0) × ((j : ℕ) → 80 ≤ j → b j ≡ 0)
CommandBounds (Editor.left save) = Unit {0}

-- The editor is inside its arrays: the text ends with a NUL inside `buffer`, and the memory behind `buffer` holds
-- what stood there.
pub record InBounds (behind : Buffer) (e : Editor.Editor) : Type 0 where
  pub inside : e.str_idx < 4096
  pub ended : e.buffer e.str_idx ≡ 0
  pub kept : (j : ℕ) → 4096 ≤ j → e.buffer j ≡ behind j
  pub command : CommandBounds e.mode

fill_blanks-outside : (k i : ℕ) (b : Buffer) (j : ℕ) → i + k ≤ j → Editor.fill_blanks k i b j ≡ b j
unfolding Editor.fill_blanks
fill_blanks-outside zero i b j h = refl
fill_blanks-outside (suc k) i b j h =
    fill_blanks-outside k (i + 1) (store_char b i b' ') j (omega arith) ∙ ground arith

-- The same for the result of a test.
bounds-if :
    (b : Bool) (x y : Editor.Mode)
    → CommandBounds x
    → CommandBounds y
    → CommandBounds (if b then x else y)
bounds-if true x y p q = p
bounds-if false x y p q = q

deleted :
    (i : ℕ) (b : Buffer)
    → CommandBounds (Editor.commanding i b)
    → CommandBounds (Editor.commanding (i - 1) (store_char b (i - 1) 0))
deleted i b (h, nul, z) = (omega arith, ground arith, λ j l. ground (arith, z j l))

-- A character is added if there is room.
added :
    (key i : ℕ) (b : Buffer) (wanted : Bool)
    → CommandBounds (Editor.commanding i b)
    → CommandBounds (
        if wanted && ltb i 79
        then Editor.commanding (i + 1) (store_char (store_char b i key) (i + 1) 0)
        else Editor.commanding i b)
added key i b wanted (h, nul, z) = elim (Bool-cases (wanted && ltb i 79)) [
  | inl room ↦
      rw room (
        let low : i < 79 = ground arith in
        (omega arith, ground arith, λ j l. ground (arith, z j l)))
  | inr full ↦ rw full (h, nul, z)
]

command_key-CommandBounds :
    (key i : ℕ) (b : Buffer)
    → CommandBounds (Editor.commanding i b)
    → CommandBounds (Editor.command_key key i b)
unfolding Editor.command_key
command_key-CommandBounds key i b inv =
    let is_w = memcmp 1 b (c_string (b'w' ∷ [])) == 0 in
    let is_q = memcmp 1 b (c_string (b'q' ∷ [])) == 0 in
    bounds-if (key == key_esc) _ _ tt (
      bounds-if (key == key_enter) _ _
        (bounds-if is_w (left true) (if is_q then left false else commanding i b) tt
          (bounds-if is_q (left false) (commanding i b) tt inv))
        (bounds-if (key == key_backspace) _ _
          (bounds-if (i == 0) (Editor.commanding i b) _ inv (deleted i b inv))
          (added key i b (not (key == 0)) inv)))

inbounds-if :
    (behind : Buffer) (b : Bool) (x y : Editor.Editor)
    → (b ≡ true → InBounds behind x)
    → (b ≡ false → InBounds behind y)
    → InBounds behind (if b then x else y)
inbounds-if behind true x y p q = p refl
inbounds-if behind false x y p q = q refl

-- The text with a new end.
ends_at :
    (behind : Buffer) (e : Editor.Editor) (b : Buffer) (i : ℕ)
    → InBounds behind e
    → i < 4096
    → ((j : ℕ) → 4096 ≤ j → b j ≡ e.buffer j)
    → InBounds behind (record e { buffer = store_char b i 0; str_idx = i })
ends_at behind e b i inv h same = record {
  inside = h;
  ended = ground arith;
  kept = λ j l. ground (arith, same j l, inv.kept j l);
  command = inv.command;
}

text_key-InBounds :
    (key : ℕ) (behind : Buffer) (e : Editor.Editor)
    → InBounds behind e
    → InBounds behind (Editor.text_key key e)
unfolding Editor.text_key
text_key-InBounds key behind e inv =
    let i = e.str_idx in
    let new = i - i % 80 + 80 in
    inbounds-if behind (key == key_enter) _ _
      (λ enter.
        inbounds-if behind (ltb 4095 new) e _ (λ full. inv)
          (λ room.
            let fits : new < 4096 = ground arith in
            ends_at behind e (Editor.fill_blanks (new - i) i e.buffer) new inv fits
              (λ j l. fill_blanks-outside (new - i) i e.buffer j (omega arith))))
      (λ other.
        inbounds-if behind (key == key_backspace) _ _
          (λ back.
            inbounds-if behind (i == 0) e _ (λ empty. inv)
              (λ some_left.
                ends_at behind e e.buffer (i - 1) inv (omega (arith, inv.inside)) (λ j l. refl)))
          (λ char.
            inbounds-if behind (key == key_esc) _ _
              (λ escape. record {
                inside = inv.inside;
                ended = inv.ended;
                kept = inv.kept;
                command = (omega arith, refl, λ j l. refl);
              })
              (λ plain.
                inbounds-if behind (not (key == 0)) _ e
                  (λ a_key.
                    inbounds-if behind (leb 4095 i) e _ (λ full. inv)
                      (λ room.
                        let fits : i + 1 < 4096 = ground arith in
                        ends_at behind e (store_char e.buffer i key) (i + 1) inv fits
                          (λ j l. ground arith)))
                  (λ no_key. inv))))

editor_key-InBounds :
    (key : ℕ) (behind : Buffer) (e : Editor.Editor)
    → InBounds behind e
    → InBounds behind (Editor.editor_key key e)
unfolding Editor.editor_key
editor_key-InBounds key behind e inv = go e.mode inv.command
  where
    go :
        (m : Editor.Mode)
        → CommandBounds m
        → InBounds behind (elim m [
          | typing ↦ Editor.text_key key e
          | commanding i b ↦ record e { mode = Editor.command_key key i b }
          | left save ↦ e
        ])
    go Editor.typing h = text_key-InBounds key behind e inv
    go (Editor.commanding i b) h = record {
      inside = inv.inside;
      ended = inv.ended;
      kept = inv.kept;
      command = command_key-CommandBounds key i b h;
    }
    go (Editor.left save) h = inv

-- Whatever keys are typed, the editor stays inside its arrays: the text ends with a NUL inside the 4096 bytes
-- of `buffer`, the command line inside the 80 of `stateBuffer`, and the memory behind both keeps its bytes.
pub editor_keys-InBounds :
    (keys : List ℕ) (behind : Buffer) (e : Editor.Editor)
    → InBounds behind e
    → InBounds behind (Editor.editor_keys keys e)
unfolding Editor.editor_keys
editor_keys-InBounds [] behind e inv = inv
editor_keys-InBounds (key ∷ keys) behind e inv =
    editor_keys-InBounds keys behind (Editor.editor_key key e)
      (editor_key-InBounds key behind e inv)
