-- ===== src/LinkedList/Insert.antt =====
-- `insertList` appends its node, and touches nothing but that node and the last one.
use skhuos.Common.{
  ◌+◌, ◌≡◌, refl, ◌≢◌, false, List, [], ◌∷◌, ◌++◌, arith, ◌==◌, has, sym, length-append, has-append,
}
use skhuos.LinkedList.{Ptr, null, Memory, LinkedList, set_next, insert_list}
use skhuos.LinkedList.Chain.{Chain, last, IsList, Touches, has-last, last-snoc}

-- Relinking the last node of a chain extends it by the new node.
Chain-snoc :
    (h g : Memory) (p x : Ptr) (xs : List Ptr) (a : Ptr)
    → Chain h p (x ∷ xs)
    → a ≢ null
    → has a (x ∷ xs) ≡ false
    → (g a).next ≡ null
    → (g (last (x ∷ xs))).next ≡ a
    → ((b : Ptr) → b ≢ a → b ≢ last (x ∷ xs) → (g b).next ≡ (h b).next)
    → Chain g p (x ∷ (xs ++ (a ∷ [])))
Chain-snoc h g p x [] a (e, nz, out, c) na new ga gl same =
    (e, nz, ground arith, (gl, na, refl, ga))
Chain-snoc h g p x (y ∷ xs) a (e, nz, out, c) na new ga gl same = (
  e,
  nz,
  ground (arith, has-append x (y ∷ xs) (a ∷ [])),
  rw (same x (ground arith) (ground (arith, has-last y xs)))
      (Chain-snoc h g (h x).next y xs a c na (ground arith) ga gl same),
)

-- What `insertList` leaves: a list of the nodes `xs` and the new one, in which only these changed.
abbrev pub Inserted : List Ptr → Ptr → Memory → LinkedList × Memory → Type 0
Inserted xs a h (l', g) = IsList g l' (xs ++ (a ∷ [])) × Touches (xs ++ (a ∷ [])) h g

module _ (h : Memory) (l : LinkedList) (a : Ptr) (na : a ≢ null) where
  insert_nil : IsList h l [] → Inserted [] a h (insert_list l a h)
  unfolding insert_list
  insert_nil v = rw v.chain (
    record {
      chain = (refl, na, refl, ground arith);
      tail_last = refl;
      counted = omega (arith, v.counted);
    },
    record { outside = λ b i. ground arith; same_ids = λ b. ground arith },
  )

  insert_cons_eq :
      (x : Ptr) (xs : List Ptr)
      → IsList h l (x ∷ xs)
      → insert_list l a h
        ≡ (record l { tail = a; count = l.count + 1 }, set_next (set_next h a null) l.tail a)
  unfolding insert_list
  insert_cons_eq x xs v = rw (nonnull) refl
    where
      nonnull : (l.head == null) ≡ false
      nonnull = ground (arith, v.chain)

  insert_cons :
      (x : Ptr) (xs : List Ptr)
      → IsList h l (x ∷ xs)
      → has a (x ∷ xs) ≡ false
      → Inserted (x ∷ xs) a h (insert_list l a h)
  insert_cons x xs v new =
      rw (insert_cons_eq x xs v, v.tail_last)
        (
          record {
            chain =
                Chain-snoc h (set_next (set_next h a null) (last (x ∷ xs)) a) l.head x xs a v.chain
                  na new (ground (arith, has-last x xs)) (ground arith) (λ b p q. ground arith);
            tail_last = sym (last-snoc (x ∷ xs) a);
            counted = omega (arith, v.counted, length-append xs (a ∷ []));
          },
          record {
            outside = λ b i. ground (arith, has-last x xs, has-append b (x ∷ xs) (a ∷ []));
            same_ids = λ b. ground arith;
          },
        )

-- On a list of the nodes `xs`, and a node `a` that is not among them nor NULL, `insertList` leaves a
-- list of `xs` and then `a`; no other node changes, and no id does.
pub insert_list-append :
    (h : Memory) (l : LinkedList) (xs : List Ptr) (a : Ptr)
    → IsList h l xs
    → a ≢ null
    → has a xs ≡ false
    → Inserted xs a h (insert_list l a h)
insert_list-append h l [] a v na new = insert_nil h l a na v
insert_list-append h l (x ∷ xs) a v na new = insert_cons h l a na x xs v new
