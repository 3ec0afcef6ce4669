-- ===== src/LinkedList/Chain.antt =====
-- The nodes that a list of kernel/lib/LinkedList.c holds: the chain of `next` pointers in memory.
use skhuos.Common.{ℕ, ◌≡◌, refl, ◌≢◌, true, false, List, [], ◌∷◌, ◌++◌, arith, has, length}
use skhuos.LinkedList.{Ptr, null, Memory, LinkedList, set_next}

-- From `p` the `next` pointers lead through the distinct nodes `xs` to NULL.
abbrev pub Chain : Memory → Ptr → List Ptr → Type 0
Chain h p [] = p ≡ null
Chain h p (x ∷ xs) = (p ≡ x) × (x ≢ null) × (has x xs ≡ false) × Chain h (h x).next xs

-- The last node, NULL for no node.
abbrev pub last : List Ptr → Ptr
last [] = null
last (x ∷ []) = x
last (x ∷ y ∷ xs) = last (y ∷ xs)

-- A `struct linkedList` that holds the nodes `xs`, in order.
pub record IsList (h : Memory) (l : LinkedList) (xs : List Ptr) : Type 0 where
  pub chain : Chain h l.head xs
  pub tail_last : l.tail ≡ last xs
  pub counted : l.count ≡ length xs

-- The ids of the nodes, in order.
abbrev pub ids : Memory → List Ptr → List ℕ
ids h [] = []
ids h (x ∷ xs) = (h x).id ∷ ids h xs

-- Only nodes among `xs` differ between `h` and `g`, and those in `next` alone.
pub record Touches (xs : List Ptr) (h g : Memory) : Type 0 where
  pub outside : (a : Ptr) → has a xs ≡ false → g a ≡ h a
  pub same_ids : (a : Ptr) → (g a).id ≡ (h a).id

pub Chain-frame :
    (h g : Memory) (p : Ptr) (xs : List Ptr)
    → Chain h p xs
    → ((a : Ptr) → has a xs ≡ true → g a ≡ h a)
    → Chain g p xs
Chain-frame h g p [] c same = c
Chain-frame h g p (x ∷ xs) (e, nz, out, c) same = (
  e,
  nz,
  out,
  rw (same x (ground arith)) (Chain-frame h g (h x).next xs c λ a i. same a (ground arith)),
)

pub has-last : (x : Ptr) (xs : List Ptr) → has (last (x ∷ xs)) (x ∷ xs) ≡ true
has-last x [] = ground arith
has-last x (y ∷ xs) = ground (arith, has-last y xs)

pub last-snoc : (xs : List Ptr) (a : Ptr) → last (xs ++ (a ∷ [])) ≡ a
last-snoc [] a = refl
last-snoc (x ∷ []) a = refl
last-snoc (x ∷ y ∷ xs) a = last-snoc (y ∷ xs) a

pub Chain-set_next :
    (h : Memory) (p : Ptr) (xs : List Ptr) (a q : Ptr)
    → Chain h p xs
    → has a xs ≡ false
    → Chain (set_next h a q) p xs
Chain-set_next h p xs a q c out = Chain-frame h (set_next h a q) p xs c (λ b i. ne b i)
  where
    ne : (b : Ptr) → has b xs ≡ true → set_next h a q b ≡ h b
    ne b i = ground arith

pub ids-same :
    (h g : Memory) (xs : List Ptr) → ((a : Ptr) → (g a).id ≡ (h a).id) → ids g xs ≡ ids h xs
ids-same h g [] same = refl
ids-same h g (x ∷ xs) same = rw (same x, ids-same h g xs same)

pub ids-append : (h : Memory) (xs ys : List Ptr) → ids h (xs ++ ys) ≡ ids h xs ++ ids h ys
ids-append h [] ys = refl
ids-append h (x ∷ xs) ys = rw (ids-append h xs ys)

-- A list with none of the touched nodes is as it was.
pub IsList-frame :
    (h g : Memory) (l : LinkedList) (xs ys : List Ptr)
    → IsList h l ys
    → Touches xs h g
    → ((a : Ptr) → has a ys ≡ true → has a xs ≡ false)
    → IsList g l ys
IsList-frame h g l xs ys v t apart = record {
  chain = Chain-frame h g l.head ys v.chain (λ a i. t.outside a (apart a i));
  tail_last = v.tail_last;
  counted = v.counted;
}
