-- ===== src/Queue/Slots.antt =====
-- The items in the ring: the bytes of a slot, and the slots from an index on.
use skhuos.Common.{
  ℕ, zero, suc, ◌+◌, ◌-◌, ◌*◌, ◌%◌, ◌<◌, ◌≤◌, ◌≡◌, refl, ◌≢◌, ap, List, [], ◌∷◌, ◌++◌, arith,
  length, get_or, if◌then◌else◌, ltb, ◌⊎◌, inl, inr,
}
use mathlib.Core.Path.{ap₂}
use native.Mathlib.Decide.{dec_lt}
use skhuos.CString.{memcpy}
use skhuos.CString.Blocks.{memcpy_lem}
use skhuos.Queue.Inv.{next_lem}

-- The `n` bytes of a block from `p` on.
abbrev pub slice : List ℕ → ℕ → ℕ → List ℕ
slice arr p zero = []
slice arr p (suc n) = get_or arr p 0 ∷ slice arr (p + 1) n

pub slice-eq :
    (xs ys : List ℕ) (p q n : ℕ)
    → ((i : ℕ) → i < n → get_or xs (p + i) 0 ≡ get_or ys (q + i) 0)
    → slice xs p n ≡ slice ys q n
slice-eq xs ys p q zero h = refl
slice-eq xs ys p q (suc n) h =
    ap₂ ◌∷◌ (ground (arith, h 0))
      (slice-eq xs ys (p + 1) (q + 1) n (λ i k. ground (arith, h (i + 1))))

pub slice-memcpy_self :
    (arr : List ℕ) (d : ℕ) (src : List ℕ) (s n : ℕ)
    → d + n ≤ length arr
    → slice (memcpy arr d src s n) d n ≡ slice src s n
slice-memcpy_self arr d src s n h =
    slice-eq (memcpy arr d src s n) src d s n
      (λ i k. rw (memcpy_lem arr d src s n (d + i) h) (ground arith))

pub slice-memcpy_apart :
    (arr : List ℕ) (d : ℕ) (src : List ℕ) (s n p m : ℕ)
    → d + n ≤ length arr
    → (p + m ≤ d) ⊎ (d + n ≤ p)
    → slice (memcpy arr d src s n) p m ≡ slice arr p m
slice-memcpy_apart arr d src s n p m h apart =
    slice-eq (memcpy arr d src s n) arr p p m
      (λ i k. rw (memcpy_lem arr d src s n (p + i) h) (ground arith))

slot_in : (size i n : ℕ) → i < n → size * i + size ≤ size * n
slot_in size i n h = grind arith

-- Slots of one size do not overlap.
slots_apart : (size i j : ℕ) → i ≢ j → (size * i + size ≤ size * j) ⊎ (size * j + size ≤ size * i)
slots_apart size i j ne = elim (dec_lt i j) [
  | yes p ↦ inl (slot_in size i j p)
  | no p ↦ inr (slot_in size j i (omega arith))
]

module _ (size len : ℕ) where
  -- The `n` items from slot `h` on, going round at `len`.
  abbrev pub slots : List ℕ → ℕ → ℕ → List (List ℕ)
  slots arr h zero = []
  slots arr h (suc n) = slice arr (size * h) size ∷ slots arr ((h + 1) % len) n

  pub length-slots : (arr : List ℕ) (h n : ℕ) → length (slots arr h n) ≡ n
  length-slots arr h zero = refl
  length-slots arr h (suc n) = ap suc (length-slots arr ((h + 1) % len) n)

  -- Writing the slot behind the last one adds its item at the end.
  pub slots-memcpy :
      (arr item : List ℕ) (h n i : ℕ)
      → size * len ≤ length arr
      → h < len
      → n < len
      → i ≡ (if ltb (h + n) len then h + n else h + n - len)
      → slots (memcpy arr (size * i) item 0 size) h (suc n)
        ≡ slots arr h n ++ (slice item 0 size ∷ [])
  slots-memcpy arr item h zero i st hh hn e =
      let at : i ≡ h = ground arith in
      rw at (
        ap (λ s. s ∷ [])
          (slice-memcpy_self arr (size * h) item 0 size (omega (arith, slot_in size h len hh))))
  slots-memcpy arr item h (suc n) i st hh hn e =
      ap₂ ◌∷◌
        (slice-memcpy_apart arr (size * i) item 0 size (size * h) size
          (omega (arith, slot_in size i len (ground arith))) (slots_apart size h i (ground arith)))
        (slots-memcpy arr item ((h + 1) % len) n i st (ground (arith, next_lem h len)) (omega arith)
          (ground (arith, next_lem h len)))
