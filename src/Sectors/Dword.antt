-- ===== src/Sectors/Dword.antt =====
-- Numbers in the buffers of kernel/fs/FAT.c: a DWORD that is stored is read back, and others stay.
use skhuos.Common.{ℕ, ◌+◌, ◌%◌, ◌^◌, ◌<◌, ◌≤◌, ◌≡◌, ◌⊎◌, inl, inr, ◌-◌, arith}
use skhuos.Sectors.{Buffer, get_dword, put_dword, save}

pub get-put_dword : (b : Buffer) (o v : ℕ) → get_dword (put_dword b o v) o ≡ v % 2 ^ 32
unfolding put_dword
get-put_dword b o v = ground arith

pub put_dword_outside : (b : Buffer) (o v i : ℕ) → (i < o) ⊎ (o + 4 ≤ i) → put_dword b o v i ≡ b i
unfolding put_dword
put_dword_outside b o v i h = ground arith

pub get-put_dword_ne :
    (b : Buffer) (o v p : ℕ)
    → (p + 4 ≤ o) ⊎ (o + 4 ≤ p)
    → get_dword (put_dword b o v) p ≡ get_dword b p
get-put_dword_ne b o v p (inl h) = omega (
  arith,
  put_dword_outside b o v p (inl (omega arith)),
  put_dword_outside b o v (p + 1) (inl (omega arith)),
  put_dword_outside b o v (p + 2) (inl (omega arith)),
  put_dword_outside b o v (p + 3) (inl (omega arith)),
)
get-put_dword_ne b o v p (inr h) = omega (
  arith,
  put_dword_outside b o v p (inr (omega arith)),
  put_dword_outside b o v (p + 1) (inr (omega arith)),
  put_dword_outside b o v (p + 2) (inr (omega arith)),
  put_dword_outside b o v (p + 3) (inr (omega arith)),
)

pub put_dword-cong : (b c : Buffer) (o v i : ℕ) → b i ≡ c i → put_dword b o v i ≡ put_dword c o v i
unfolding put_dword
put_dword-cong b c o v i e = ground arith

-- Inside a block that is written stand the bytes of the buffer, outside what stood there.
pub save_inside :
    (bytes : Buffer) (o n : ℕ) (b : Buffer) (j : ℕ) → j < n → save bytes o n b (o + j) ≡ b j
save_inside bytes o n b j h = let e : o + j - o ≡ j = omega arith in ground arith

pub save_outside :
    (bytes : Buffer) (o n : ℕ) (b : Buffer) (a : ℕ)
    → (a < o) ⊎ (o + n ≤ a)
    → save bytes o n b a ≡ bytes a
save_outside bytes o n b a h = ground arith
