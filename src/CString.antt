-- ===== src/CString.antt =====
-- common/String.c and common/util.c: C strings and blocks of bytes. A block is the list of its bytes, as
-- numbers; a byte of a block that is read past its end is 0, and a write there changes nothing.
pub mod Blocks
pub mod Compare
use skhuos.Common.{
  ℕ, zero, suc, ◌+◌, ◌-◌, ◌/◌, ◌%◌, ◌^◌, Bool, true, false, not, ◌||◌, Option, none, some, List, [],
  ◌∷◌, ◌==◌, if◌then◌else◌, get_or, set, ltb,
}

-- `memcpy(dest + d, src + s, size)` between two blocks: byte after byte, from the first on.
pub memcpy : List ℕ → ℕ → List ℕ → ℕ → ℕ → List ℕ
memcpy dest d src s zero = dest
memcpy dest d src s (suc n) = memcpy (set dest d (get_or src s 0)) (d + 1) src (s + 1) n

-- `memsetZero(mem + d, size)`
pub memset_zero : List ℕ → ℕ → ℕ → List ℕ
memset_zero mem d zero = mem
memset_zero mem d (suc n) = memset_zero (set mem d 0) (d + 1) n

-- `swapChar(&arr[i], &arr[j])`
pub swap_char : List ℕ → ℕ → ℕ → List ℕ
swap_char arr i j = set (set arr i (get_or arr j 0)) j (get_or arr i 0)

-- The loop of `reverseArray`, with the rounds that are left and the index `i`.
reverse_loop : ℕ → ℕ → ℕ → List ℕ → List ℕ
unfolding swap_char
reverse_loop zero i count arr = arr
reverse_loop (suc k) i count arr = reverse_loop k (i + 1) count (swap_char arr i (count - i - 1))

pub reverse_array : List ℕ → ℕ → List ℕ
unfolding reverse_loop
reverse_array arr count = reverse_loop (count / 2) 0 count arr

-- A string of characters other than NUL, as the bytes from its address on: a NUL follows.
abbrev pub c_string : List ℕ → ℕ → ℕ
c_string str i = get_or str i 0

-- `strlen`, with the rounds that are left and the bytes from the pointer on.
unfoldable pub strlen : ℕ → (ℕ → ℕ) → ℕ → Option ℕ
strlen zero str idx = none
strlen (suc k) str idx =
    let rest = strlen k (λ i. str (suc i)) (idx + 1) in if str 0 == 0 then some idx else rest

-- A `char` as an `int`, both as bit patterns.
abbrev pub of_char : ℕ → ℕ
of_char c = if ltb c 128 then c else c + 2 ^ 32 - 2 ^ 8

abbrev pub char_diff : ℕ → ℕ → ℕ
char_diff a b = (of_char a + 2 ^ 32 - of_char b) % 2 ^ 32

-- `strcmp`, with the rounds that are left and the bytes from the two pointers on.
unfoldable pub strcmp : ℕ → (ℕ → ℕ) → (ℕ → ℕ) → Option ℕ
strcmp zero s t = none
strcmp (suc k) s t =
    let tmp = char_diff (s 0) (t 0) in
    let rest = strcmp k (λ i. s (suc i)) (λ i. t (suc i)) in
    if not (tmp == 0) then some tmp else if (s 0 == 0) || (t 0 == 0) then some tmp else rest

-- `memcmp`: the difference is kept in a BYTE.
unfoldable pub memcmp : ℕ → (ℕ → ℕ) → (ℕ → ℕ) → ℕ
memcmp zero s t = 0
memcmp (suc n) s t =
    let tmp = (s 0 + 2 ^ 8 - t 0) % 2 ^ 8 in
    let rest = memcmp n (λ i. s (suc i)) (λ i. t (suc i)) in if tmp == 0 then rest else tmp

-- Whether a comparison gave 0.
abbrev pub is_zero : Option ℕ → Bool
is_zero none = false
is_zero (some d) = d == 0
