-- ===== src/Boot/Copy.antt =====
-- loader/32bit.c: the copy of a range of memory, byte by byte.
use skhuos.Common.{
  ℕ, zero, suc, ◌+◌, ◌-◌, ◌*◌, ◌<◌, ◌≤◌, ◌≡◌, ◌⊎◌, inl, inr, refl, ap, ◌∙◌, ◌&&◌, List, [], ◌∷◌,
  leb, ltb, length, get_or, arith, Bool-cases, if_true,
}
use skhuos.Boot.Load.{PhysicalMemory, bytes_from, copy_int, copy_ints}

pub bytes_from_lem :
    (mem : PhysicalMemory) (a : ℕ) (xs : List ℕ)
    → ((i : ℕ) → i < length xs → mem (a + i) ≡ get_or xs i 0)
    → bytes_from mem a (length xs) ≡ xs
unfolding bytes_from
bytes_from_lem mem a [] h = refl
bytes_from_lem mem a (x ∷ xs) h =
    let here : a ≡ a + 0 = omega arith in
    let shift : (i : ℕ) → (a + 1) + i ≡ a + suc i = λ i. omega arith in
    rw
      (
        ap mem here ∙ h 0 (omega arith),
        bytes_from_lem mem (a + 1) xs (λ i l. ap mem (shift i) ∙ h (suc i) (omega arith)),
      )
      refl

pub get_or-bytes_from :
    (mem : PhysicalMemory) (a n i : ℕ) → i < n → get_or (bytes_from mem a n) i 0 ≡ mem (a + i)
unfolding bytes_from
get_or-bytes_from mem a zero i h = absurd (omega arith)
get_or-bytes_from mem a (suc n) zero h = let at : a ≡ a + 0 = omega arith in ap mem at
get_or-bytes_from mem a (suc n) (suc i) h =
    let at : (a + 1) + i ≡ a + suc i = omega arith in
    get_or-bytes_from mem (a + 1) n i (omega arith) ∙ ap mem at

copy_int-other :
    (mem : PhysicalMemory) (dest src a : ℕ)
    → (a < dest) ⊎ (dest + 4 ≤ a)
    → copy_int mem dest src a ≡ mem a
copy_int-other mem dest src a h = ground arith

copy_int_self :
    (mem : PhysicalMemory) (dest src i : ℕ)
    → i < 4
    → copy_int mem dest src (dest + i) ≡ mem (src + i)
copy_int_self mem dest src i h =
    let same : src + (dest + i - dest) ≡ src + i = omega arith in
    if_true (leb dest (dest + i) && ltb (dest + i) (dest + 4)) (mem (src + (dest + i - dest)))
      (mem (dest + i)) (ground arith)
    ∙ ap mem same

copy_ints-other :
    (n dest src : ℕ) (mem : PhysicalMemory) (a : ℕ)
    → (a < dest) ⊎ (dest + 4 * n ≤ a)
    → copy_ints n dest src mem a ≡ mem a
unfolding copy_ints
copy_ints-other zero dest src mem a h = refl
copy_ints-other (suc n) dest src mem a h =
    copy_ints-other n (dest + 4) (src + 4) (copy_int mem dest src) a
      (elim h [ inl l ↦ inl (omega arith) | inr g ↦ inr (omega arith) ])
    ∙ copy_int-other mem dest src a (elim h [ inl l ↦ inl l | inr g ↦ inr (omega arith) ])

-- A copy to a higher range that the source does not reach.
pub copy_ints_lem :
    (n dest src : ℕ) (mem : PhysicalMemory) (i : ℕ)
    → src + 4 * n ≤ dest
    → i < 4 * n
    → copy_ints n dest src mem (dest + i) ≡ mem (src + i)
unfolding copy_ints
copy_ints_lem zero dest src mem i h l = absurd (omega arith)
copy_ints_lem (suc n) dest src mem i h l =
    let mem' = copy_int mem dest src in
    elim (Bool-cases (ltb i 4)) [
      | inl low ↦
          copy_ints-other n (dest + 4) (src + 4) mem' (dest + i) (inl (ground arith))
          ∙ copy_int_self mem dest src i (ground arith)
      | inr high ↦
          let four : 4 ≤ i = ground arith in
          let to : dest + i ≡ (dest + 4) + (i - 4) = omega arith in
          let from : (src + 4) + (i - 4) ≡ src + i = omega arith in
          ap (copy_ints n (dest + 4) (src + 4) mem') to
          ∙ copy_ints_lem n (dest + 4) (src + 4) mem' (i - 4) (omega arith) (omega arith)
          ∙ ap mem' from
          ∙ copy_int-other mem dest src (src + i) (inl (omega arith))
    ]
