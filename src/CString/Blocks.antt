-- ===== src/CString/Blocks.antt =====
-- What `memcpy` and `reverseArray` leave in a block, byte by byte.
use skhuos.Common.{
  ℕ, zero, suc, ◌+◌, ◌-◌, ◌/◌, ◌≤◌, ◌<◌, ◌≡◌, refl, ◌&&◌, List, arith, ◌==◌, ltb, leb,
  if◌then◌else◌, length, get_or, set, length-set, get_or-set_self, get_or-set_ne,
}
use skhuos.CString.{memcpy, swap_char, reverse_loop, reverse_array}

pub get_or-set :
    (xs : List ℕ) (i j v : ℕ)
    → i < length xs
    → get_or (set xs i v) j 0 ≡ (if i == j then v else get_or xs j 0)
get_or-set xs i j v h = ground (arith, get_or-set_self xs i v 0, get_or-set_ne xs i j v 0)

pub length-memcpy :
    (dest : List ℕ) (d : ℕ) (src : List ℕ) (s n : ℕ) → length (memcpy dest d src s n) ≡ length dest
unfolding memcpy
length-memcpy dest d src s zero = refl
length-memcpy dest d src s (suc n) = omega (
  arith,
  length-memcpy (set dest d (get_or src s 0)) (d + 1) src (s + 1) n,
  length-set dest d (get_or src s 0),
)

-- If the bytes fit, `memcpy` writes `size` bytes of the source from `d` on, and no other byte.
pub memcpy_lem :
    (dest : List ℕ) (d : ℕ) (src : List ℕ) (s n j : ℕ)
    → d + n ≤ length dest
    → get_or (memcpy dest d src s n) j 0
      ≡ (if leb d j && ltb j (d + n) then get_or src (s + (j - d)) 0 else get_or dest j 0)
unfolding memcpy
memcpy_lem dest d src s zero j h = ground arith
memcpy_lem dest d src s (suc n) j h =
    let dest' = set dest d (get_or src s 0) in
    ground (
      arith,
      memcpy_lem dest' (d + 1) src (s + 1) n j,
      length-set dest d (get_or src s 0),
      get_or-set dest d j (get_or src s 0),
      shift,
    )
  where
    shift : d < j → s + 1 + (j - (d + 1)) ≡ s + (j - d)
    shift p = omega arith

swap_char_lem :
    (arr : List ℕ) (i j k : ℕ)
    → i < length arr
    → j < length arr
    → get_or (swap_char arr i j) k 0
      ≡ (if j == k then get_or arr i 0 else if i == k then get_or arr j 0 else get_or arr k 0)
unfolding swap_char
swap_char_lem arr i j k hi hj = ground (
  arith,
  get_or-set (set arr i (get_or arr j 0)) j k (get_or arr i 0),
  get_or-set arr i k (get_or arr j 0),
  length-set arr i (get_or arr j 0),
)

length-swap_char : (arr : List ℕ) (i j : ℕ) → length (swap_char arr i j) ≡ length arr
unfolding swap_char
length-swap_char arr i j = omega (
  arith,
  length-set (set arr i (get_or arr j 0)) j (get_or arr i 0),
  length-set arr i (get_or arr j 0),
)

reverse_loop_lem :
    (k i count : ℕ) (arr : List ℕ) (j : ℕ)
    → i + k ≡ count / 2
    → count ≤ length arr
    → get_or (reverse_loop k i count arr) j 0
      ≡ (if leb i j && ltb j (count - i) then get_or arr (count - 1 - j) 0 else get_or arr j 0)
unfolding reverse_loop
reverse_loop_lem zero i count arr j e h = ground arith
reverse_loop_lem (suc k) i count arr j e h = ground (
  arith,
  reverse_loop_lem k (i + 1) count (swap_char arr i (count - i - 1)) j,
  length-swap_char arr i (count - i - 1),
  swap_char_lem arr i (count - i - 1) j,
  swap_char_lem arr i (count - i - 1) (count - 1 - j),
)

-- `reverseArray` turns the first `count` bytes of a block round, and leaves the others.
reverse_array_lem :
    (arr : List ℕ) (count j : ℕ)
    → count ≤ length arr
    → get_or (reverse_array arr count) j 0
      ≡ (if ltb j count then get_or arr (count - 1 - j) 0 else get_or arr j 0)
unfolding reverse_array
reverse_array_lem arr count j h = ground (arith, reverse_loop_lem (count / 2) 0 count arr j)
