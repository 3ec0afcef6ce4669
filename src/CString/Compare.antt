-- ===== src/CString/Compare.antt =====
-- common/String.c: `strlen` and `strcmp` on strings that end in NUL.
use skhuos.Common.{
  ℕ, suc, ◌+◌, ◌<◌, ◌≤◌, ◌≡◌, ◌≢◌, refl, sym, ◌↔◌, ◌∙◌, Bool, true, ◌&&◌, some, List, [], ◌∷◌, ◌==◌,
  length, arith, ap,
}
use mathlib.Core.Path.{ap₂}
use skhuos.CString.{c_string, strlen, strcmp, char_diff, is_zero}

-- The characters of a string: bytes, none of them NUL.
abbrev pub IsText : List ℕ → Type 0
IsText [] = Unit {0}
IsText (c ∷ cs) = (c ≢ 0) × (c < 256) × IsText cs

-- Whether the bytes from an address on are those of a string and its NUL, as the code tells characters apart.
abbrev pub same : (ℕ → ℕ) → List ℕ → Bool
same s [] = char_diff (s 0) 0 == 0
same s (c ∷ cs) = (char_diff (s 0) c == 0) && same (λ i. s (suc i)) cs

pub strlen_lem :
    (str : List ℕ) (idx : ℕ)
    → IsText str
    → strlen (suc (length str)) (c_string str) idx ≡ some (idx + length str)
unfolding strlen
strlen_lem [] idx t = ap some (omega arith)
strlen_lem (c ∷ cs) idx (nz, b, t) = ground (arith, strlen_lem cs (idx + 1) t)

strcmp-suc :
    (k : ℕ) (s t : ℕ → ℕ)
    → t 0 ≢ 0
    → t 0 < 256
    → is_zero (strcmp (suc k) s t)
      ≡ ((char_diff (s 0) (t 0) == 0) && is_zero (strcmp k (λ i. s (suc i)) (λ i. t (suc i))))
unfolding strcmp
strcmp-suc k s t nz b = ground arith

-- `strcmp` ends within a round for each character of one of the strings and one for its NUL, and gives 0
-- exactly if the other string is the same.
pub strcmp_lem :
    (s : ℕ → ℕ) (str : List ℕ)
    → IsText str
    → is_zero (strcmp (suc (length str)) s (c_string str)) ≡ same s str
unfolding strcmp
strcmp_lem s [] t = ground arith
strcmp_lem s (c ∷ cs) (nz, b, t) =
    strcmp-suc (suc (length cs)) s (c_string (c ∷ cs)) nz b
    ∙ ap (λ r. (char_diff (s 0) c == 0) && r) (strcmp_lem (λ i. s (suc i)) cs t)

-- What is the same as two strings shows that these are equal.
pub same_unique :
    (s : ℕ → ℕ) (xs ys : List ℕ)
    → IsText xs
    → IsText ys
    → same s xs ≡ true
    → same s ys ≡ true
    → xs ≡ ys
same_unique s [] [] t u h k = refl
same_unique s [] (y ∷ ys) t (nz, b, u) h k = absurd (ground arith)
same_unique s (x ∷ xs) [] (nz, b, t) u h k = absurd (ground arith)
same_unique s (x ∷ xs) (y ∷ ys) (nx, bx, t) (ny, by, u) h k =
    ap₂ ◌∷◌ (ground arith) (same_unique (λ i. s (suc i)) xs ys t u (ground arith) (ground arith))

pub same-c_string : (xs : List ℕ) → same (c_string xs) xs ≡ true
same-c_string [] = refl
same-c_string (x ∷ xs) = ground (arith, same-c_string xs)

-- Only the bytes of the string and its NUL count.
pub same-window :
    (s t : ℕ → ℕ) (xs : List ℕ) → ((j : ℕ) → j ≤ length xs → s j ≡ t j) → same s xs ≡ same t xs
same-window s t [] h = ap (λ c. char_diff c 0 == 0) (h 0 (omega arith))
same-window s t (x ∷ xs) h =
    ap₂ (λ c r. (char_diff c x == 0) && r) (h 0 (omega arith))
      (same-window (λ i. s (suc i)) (λ i. t (suc i)) xs (λ j k. h (suc j) (omega arith)))

-- For two strings of characters other than NUL, `strcmp` ends within a round for each character of the second
-- one and one for its NUL, and gives 0 exactly if the strings are equal.
strcmp_iff :
    (xs ys : List ℕ)
    → IsText xs
    → IsText ys
    → (is_zero (strcmp (suc (length ys)) (c_string xs) (c_string ys)) ≡ true) ↔ (xs ≡ ys)
strcmp_iff xs ys t u = (
  λ z.
      same_unique (c_string xs) xs ys t u (same-c_string xs)
        (sym (strcmp_lem (c_string xs) ys u) ∙ z),
  λ e. strcmp_lem (c_string xs) ys u ∙ rw (← e) (same-c_string xs),
)
