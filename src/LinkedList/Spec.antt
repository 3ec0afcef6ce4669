-- ===== src/LinkedList/Spec.antt =====
-- What the lists of kernel/lib/LinkedList.c promise, on the sequence of the nodes' ids alone: a
-- FIFO from which the first node of an id can be taken out. The scheduler and the mutex use lists
-- through these functions.
use skhuos.Common.{
  ℕ, ◌≡◌, refl, true, false, Option, none, some, List, [], ◌∷◌, ◌++◌, arith, ◌==◌, if◌then◌else◌,
  has, distinct,
}

-- `insertList`
abbrev pub insert : List ℕ → ℕ → List ℕ
insert xs a = xs ++ (a ∷ [])

-- `removeList`: what is left
abbrev pub remove : List ℕ → ℕ → List ℕ
remove [] a = []
remove (x ∷ xs) a = if x == a then xs else x ∷ remove xs a

-- `HeadRemove`: the node taken, NULL being `none`, and what is left
abbrev pub head_remove : List ℕ → Option ℕ × List ℕ
head_remove [] = (none, [])
head_remove (x ∷ xs) = (some x, xs)

pub has-remove_ne : (xs : List ℕ) (a b : ℕ) → (b == a) ≡ false → has b (remove xs a) ≡ has b xs
has-remove_ne [] a b h = refl
has-remove_ne (x ∷ xs) a b h = ground (arith, has-remove_ne xs a b)

pub has-remove_self : (xs : List ℕ) (a : ℕ) → distinct xs ≡ true → has a (remove xs a) ≡ false
has-remove_self [] a d = refl
has-remove_self (x ∷ xs) a d = ground (arith, has-remove_self xs a)

pub has_of_remove : (xs : List ℕ) (a b : ℕ) → has b (remove xs a) ≡ true → has b xs ≡ true
has_of_remove (x ∷ xs) a b h = ground (arith, has_of_remove xs a b)
has_of_remove [] a b h = h

pub distinct-remove : (xs : List ℕ) (a : ℕ) → distinct xs ≡ true → distinct (remove xs a) ≡ true
distinct-remove [] a d = refl
distinct-remove (x ∷ xs) a d = ground (arith, distinct-remove xs a, has_of_remove xs a x)

pub remove_of_not_has : (xs : List ℕ) (a : ℕ) → has a xs ≡ false → remove xs a ≡ xs
remove_of_not_has [] a h = refl
remove_of_not_has (x ∷ xs) a h = ground (arith, remove_of_not_has xs a)
