-- ===== src/LinkedList/Pop.antt =====
-- kernel/lib/LinkedList.c: HeadRemove takes the first node of a chain.
use skhuos.Common.{◌≡◌, refl, Option, some, List, [], ◌∷◌, arith, eq→==}
use skhuos.LinkedList.{Ptr, null, Memory, LinkedList, Removed, remove_list, head_remove}
use skhuos.LinkedList.Chain.{IsList, Touches}
use skhuos.LinkedList.Remove.{Erased, remove_list-erase}

-- What `HeadRemove` takes from the nodes `xs`.
abbrev pub first : List Ptr → Ptr
first [] = null
first (x ∷ xs) = x

abbrev pub rest : List Ptr → List Ptr
rest [] = []
rest (x ∷ xs) = xs

abbrev pub Popped : Memory → List Ptr → Option Removed → Type 0
Popped h xs r =
    (l' : LinkedList) × (g : Memory) × (r ≡ some (first xs, l', g))
    × IsList g l' (rest xs)
    × Touches xs h g

head_remove_nil : (h : Memory) (l : LinkedList) → IsList h l [] → Popped h [] (head_remove l h)
unfolding head_remove
head_remove_nil h l v =
    (l, h, ground (arith, v.counted), v, record { outside = λ b i. refl; same_ids = λ b. refl })

head_remove_cons :
    (h : Memory) (l : LinkedList) (x : Ptr) (xs : List Ptr)
    → IsList h l (x ∷ xs)
    → head_remove l h ≡ remove_list l (h x).id h
unfolding head_remove
head_remove_cons h l x xs v = ground (arith, v.counted, v.chain)

erase_first :
    (h : Memory) (x : Ptr) (xs : List Ptr) (r : Option Removed)
    → Erased h (h x).id (x ∷ xs) r
    → Popped h (x ∷ xs) r
erase_first h x xs r e = rw (eq→== (h x).id (h x).id refl) at e

-- On a list of the nodes `xs`, `HeadRemove` ends, returns the first node (NULL if there is none) and
-- leaves a list of the nodes behind it; it changes no id, and no node outside `xs`.
pub head_remove-first :
    (h : Memory) (l : LinkedList) (xs : List Ptr) → IsList h l xs → Popped h xs (head_remove l h)
head_remove-first h l [] v = head_remove_nil h l v
head_remove-first h l (x ∷ xs) v =
    rw (head_remove_cons h l x xs v)
      (erase_first h x xs _ (remove_list-erase h l (h x).id (x ∷ xs) v))
