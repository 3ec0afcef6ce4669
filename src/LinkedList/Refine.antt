-- ===== src/LinkedList/Refine.antt =====
-- The lists of kernel/lib/LinkedList.c implement their specification on ids, and an operation on one
-- list leaves every other list of the same memory as it is.
use skhuos.Common.{
  ℕ, ◌≡◌, refl, ◌≢◌, true, false, Option, none, some, List, [], ◌∷◌, ◌++◌, arith, has, ◌∙◌, ap,
  Bool-cases, inl, inr, ◌==◌, ==_iff, Bool, if◌then◌else◌, has-append,
}
use skhuos.LinkedList.{Ptr, null, Memory, LinkedList, insert_list, remove_list, head_remove}
use skhuos.LinkedList.Chain.{Chain, IsList, IsList-frame, ids, ids-same, ids-append}
use skhuos.LinkedList.Insert.{insert_list-append}
use skhuos.LinkedList.Remove.{find, erase, ids-erase, remove_list-erase}
use skhuos.LinkedList.Pop.{first, rest, head_remove-first}
use skhuos.LinkedList.Spec

-- A list of some nodes whose ids are `ks`.
abbrev pub Holds : Memory → LinkedList → List ℕ → Type 0
Holds h l ks = (xs : List Ptr) × IsList h l xs × (ids h xs ≡ ks)

-- `insertList` is `Spec.insert` on the ids: on a list of the nodes `xs` and a node `a` not among them nor
-- NULL, it leaves a list that holds the ids of `xs` and then that of `a`.
insert_list-refines :
    (h : Memory) (l : LinkedList) (xs : List Ptr) (a : Ptr)
    → IsList h l xs
    → a ≢ null
    → has a xs ≡ false
    → Holds (insert_list l a h).1 (insert_list l a h).0 (Spec.insert (ids h xs) (h a).id)
insert_list-refines h l xs a v na new =
    let (is, t) = insert_list-append h l xs a v na new in
    (
      xs ++ (a ∷ []),
      is,
      ids-same h (insert_list l a h).1 (xs ++ (a ∷ [])) t.same_ids ∙ ids-append h xs (a ∷ []),
    )

-- The node that a removal returns has the id that the specification returns, NULL being `none`.
abbrev pub Taken : Memory → Ptr → Option ℕ → Type 0
Taken h p none = p ≡ null
Taken h p (some a) = (p ≢ null) × ((h p).id ≡ a)

find-Taken :
    (h : Memory) (q : Ptr) (id : ℕ) (xs : List Ptr)
    → Chain h q xs
    → Taken h (find h id xs) (if has id (ids h xs) then some id else none)
find-Taken h q id [] c = refl
find-Taken h q id (x ∷ xs) (e, nz, out, c) = elim (Bool-cases ((h x).id == id)) [
  | inl hit ↦ rw (hit, flip hit) (nz, (==_iff _ id).0 hit)
  | inr miss ↦ rw (miss, flip miss) (find-Taken h (h x).next id xs c)
]
  where
    flip : {b : Bool} → ((h x).id == id) ≡ b → (id == (h x).id) ≡ b
    flip e = ground arith

ids-rest : (h : Memory) (xs : List Ptr) → ids h (rest xs) ≡ (Spec.head_remove (ids h xs)).1
ids-rest h [] = refl
ids-rest h (x ∷ xs) = refl

first-Taken :
    (h : Memory) (q : Ptr) (xs : List Ptr)
    → Chain h q xs
    → Taken h (first xs) (Spec.head_remove (ids h xs)).0
first-Taken h q [] c = refl
first-Taken h q (x ∷ xs) (e, nz, out, c) = (nz, refl)

-- `removeList` is `Spec.remove` on the ids: on a list that holds the ids `ks` it ends, and leaves a list
-- that holds `ks` less the first `id`; it returns a node with that id if there is one, else NULL.
pub remove_list-refines :
    (h : Memory) (l : LinkedList) (id : ℕ) (ks : List ℕ)
    → Holds h l ks
    → (p : Ptr) × (l' : LinkedList) × (g : Memory) × (remove_list l id h ≡ some (p, l', g))
      × Holds g l' (Spec.remove ks id)
      × Taken h p (if has id ks then some id else none)
remove_list-refines h l id ks (xs, v, e) =
    let (l', g, run, is, t) = remove_list-erase h l id xs v in
    (
      find h id xs,
      l',
      g,
      run,
      (
        erase h id xs,
        is,
        ids-same h g (erase h id xs) t.same_ids
            ∙ ids-erase h id xs
            ∙ ap (λ ys. Spec.remove ys id) e,
      ),
      rw (← e) (find-Taken h l.head id xs v.chain),
    )

-- `HeadRemove` is `Spec.head_remove` on the ids: on a list that holds the ids `ks` it ends, returns a
-- node with the first id, NULL if `ks` is empty, and leaves a list that holds the others.
head_remove-refines :
    (h : Memory) (l : LinkedList) (ks : List ℕ)
    → Holds h l ks
    → (p : Ptr) × (l' : LinkedList) × (g : Memory) × (head_remove l h ≡ some (p, l', g))
      × Holds g l' (Spec.head_remove ks).1
      × Taken h p (Spec.head_remove ks).0
head_remove-refines h l ks (xs, v, e) =
    let (l', g, run, is, t) = head_remove-first h l xs v in
    (
      first xs,
      l',
      g,
      run,
      (
        rest xs,
        is,
        ids-same h g (rest xs) t.same_ids ∙ ids-rest h xs ∙ ap (λ ys. (Spec.head_remove ys).1) e,
      ),
      rw (← e) (first-Taken h l.head xs v.chain),
    )

-- Lists that share no node do not disturb each other: `insertList` and `removeList` on the list `l` of
-- `xs` leave the list `m` of the nodes `ys` a list of `ys`, if `ys` has no node of `xs`, nor the new one.
others_keep :
    (h : Memory) (l m : LinkedList) (xs ys : List Ptr) (a : Ptr) (id : ℕ)
    → IsList h l xs
    → IsList h m ys
    → a ≢ null
    → has a xs ≡ false
    → has a ys ≡ false
    → ((b : Ptr) → has b ys ≡ true → has b xs ≡ false)
    → (p : Ptr) (l' : LinkedList) (g : Memory) → remove_list l id h ≡ some (p, l', g)
    → IsList (insert_list l a h).1 m ys × IsList g m ys
others_keep h l m xs ys a id v w na new new' apart p l' g run =
    let (l₂, g₂, run', is, t) = remove_list-erase h l id xs v in
    let same : g₂ ≡ g = cc in
    (
      IsList-frame h (insert_list l a h).1 m (xs ++ (a ∷ [])) ys w
          (insert_list-append h l xs a v na new).1
          (λ b i. ground (arith, has-append b xs (a ∷ []), apart b)),
      rw (← same) (IsList-frame h g₂ m xs ys w t apart),
    )
