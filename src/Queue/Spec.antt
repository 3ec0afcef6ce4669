-- ===== src/Queue/Spec.antt =====
-- A FIFO of at most `cap` items, oldest first: what kernel/lib/Queue.c promises.
use skhuos.Common.{
  ℕ, Bool, true, false, Option, none, some, List, [], ◌∷◌, ◌++◌, ◌==◌, if◌then◌else◌, length,
}

module _ {ℓ} {A : Type ℓ} where
  -- A full queue refuses the item.
  abbrev pub push : ℕ → List A → A → List A × Bool
  push cap xs x = if length xs == cap then (xs, false) else (xs ++ (x ∷ []), true)

  abbrev pub pop : List A → List A × Option A
  pop [] = ([], none)
  pop (x ∷ xs) = (xs, some x)
