-- ===== src/LinkedList/Remove.antt =====
-- `removeList` takes out the first node of an id, and `HeadRemove` the first node.
use skhuos.Common.{
  ℕ, zero, suc, ◌+◌, ◌-◌, ◌<◌, ◌≤◌, ◌∙◌, ◌≡◌, refl, ◌≢◌, inl, inr, true, false, Option, some, List,
  [], ◌∷◌, arith, ◌==◌, Bool-cases, if◌then◌else◌, has, length, eq→==,
}
use native.Mathlib.Numerals.{add-one}
use skhuos.LinkedList.{Ptr, null, Memory, LinkedList, Removed, set_next, remove_loop, remove_list}
use skhuos.LinkedList.Chain.{Chain, Chain-frame, last, has-last, IsList, Touches, ids}
use skhuos.LinkedList.Spec

-- The first node of an id, NULL if there is none.
abbrev pub find : Memory → ℕ → List Ptr → Ptr
find h id [] = null
find h id (x ∷ xs) = if (h x).id == id then x else find h id xs

-- The nodes but for the first one of an id.
abbrev pub erase : Memory → ℕ → List Ptr → List Ptr
erase h id [] = []
erase h id (x ∷ xs) = if (h x).id == id then xs else x ∷ erase h id xs

has-erase :
    (h : Memory) (id : ℕ) (xs : List Ptr) (a : Ptr)
    → has a xs ≡ false
    → has a (erase h id xs) ≡ false
has-erase h id [] a out = refl
has-erase h id (x ∷ xs) a out = ground (arith, has-erase h id xs a)

-- What the loop leaves behind `pre`, from which the nodes `zs` were still to be looked at.
record Scan (h : Memory) (l : LinkedList) (id : ℕ) (pre : Ptr) (zs : List Ptr) (l' : LinkedList)
    (g : Memory) : Type 0 where
  chain : Chain g (g pre).next (erase h id zs)
  same_head : l'.head ≡ l.head
  tail_last : l'.tail ≡ last (pre ∷ erase h id zs)
  counted : l'.count + length zs ≡ l.count + length (erase h id zs)
  touches : Touches (pre ∷ zs) h g

abbrev Scanned : Memory → LinkedList → ℕ → Ptr → List Ptr → Option Removed → Type 0
Scanned h l id pre zs r =
    (l' : LinkedList) × (g : Memory) × (r ≡ some (find h id zs, l', g)) × Scan h l id pre zs l' g

module _ (h : Memory) (l : LinkedList) (id : ℕ) where
  hit_last :
      (k : ℕ) (pre z : Ptr)
      → (h pre).next ≡ z
      → z ≢ null
      → (pre == z) ≡ false
      → (z == l.head) ≡ false
      → l.tail ≡ z
      → 0 < l.count
      → ((h z).id == id) ≡ true
      → (h z).next ≡ null
      → Scanned h l id pre (z ∷ []) (remove_loop (suc k) l id pre z h)
  unfolding remove_loop
  hit_last k pre z e nz ne nh t pos hit nx = (
    record l { tail = pre; count = l.count - 1 },
    set_next h pre null,
    ground arith,
    record {
      chain = ground arith;
      same_head = refl;
      tail_last = ground arith;
      counted = ground arith;
      touches = record { outside = λ b i. ground arith; same_ids = λ b. ground arith };
    },
  )

  hit_middle :
      (k : ℕ) (pre z w : Ptr) (ws : List Ptr)
      → (h pre).next ≡ z
      → z ≢ null
      → (z == l.head) ≡ false
      → has pre (z ∷ w ∷ ws) ≡ false
      → has z (w ∷ ws) ≡ false
      → l.tail ≡ last (w ∷ ws)
      → 0 < l.count
      → ((h z).id == id) ≡ true
      → Chain h (h z).next (w ∷ ws)
      → Scanned h l id pre (z ∷ w ∷ ws) (remove_loop (suc k) l id pre z h)
  unfolding remove_loop
  hit_middle k pre z w ws e nz nh out out' t pos hit c = (
    record l { count = l.count - 1 },
    set_next h pre (h z).next,
    ground (arith, has-last w ws),
    record {
      chain =
          rw (hit, eq→== pre pre refl)
            (Chain-frame h (set_next h pre (h z).next) (h z).next (w ∷ ws) c (λ a i. ground arith));
      same_head = refl;
      tail_last = rw hit t;
      counted = rw hit (omega arith);
      touches = record { outside = λ b i. ground arith; same_ids = λ b. ground arith };
    },
  )

  miss_step :
      (k : ℕ) (pre z : Ptr) (zs : List Ptr)
      → (h pre).next ≡ z
      → z ≢ null
      → has pre (z ∷ zs) ≡ false
      → has z zs ≡ false
      → ((h z).id == id) ≡ false
      → Scanned h l id z zs (remove_loop k l id z (h z).next h)
      → Scanned h l id pre (z ∷ zs) (remove_loop (suc k) l id pre z h)
  unfolding remove_loop
  miss_step k pre z zs e nz out out' miss (l', g, run, s) = (
    l',
    g,
    ground arith,
    record {
      chain =
          rw miss (ground (arith, s.touches.outside pre), nz, has-erase h id zs z out', s.chain);
      same_head = s.same_head;
      tail_last = rw miss s.tail_last;
      counted = rw miss (omega (arith, s.counted));
      touches = record {
        outside = λ b i. s.touches.outside b (ground arith);
        same_ids = s.touches.same_ids;
      };
    },
  )

  scan :
      (k : ℕ) (pre cur : Ptr) (zs : List Ptr)
      → (h pre).next ≡ cur
      → Chain h cur zs
      → has pre zs ≡ false
      → has l.head zs ≡ false
      → l.tail ≡ last (pre ∷ zs)
      → length zs ≤ l.count
      → length zs < k
      → Scanned h l id pre zs (remove_loop k l id pre cur h)
  scan zero pre cur zs e c out nh t pos fuel = absurd (omega arith)
  scan (suc k) pre cur [] e c out nh t pos fuel =
      unfold remove_loop in
      (
        l,
        h,
        ground arith,
        record {
          chain = e ∙ c;
          same_head = refl;
          tail_last = t;
          counted = refl;
          touches = record { outside = λ b i. refl; same_ids = λ b. refl };
        },
      )
  scan (suc k) pre cur (z ∷ zs) e (at, nz, out', c) out nh t pos fuel =
      rw at (elim (Bool-cases ((h z).id == id)) [
        | inl hit ↦ found zs out' c out nh t pos hit
        | inr miss ↦
            miss_step k pre z zs (e ∙ at) nz out out' miss
              (scan k z (h z).next zs refl c out' (ground arith) t (omega arith) (omega arith))
      ])
    where
      found :
          (zs : List Ptr)
          → has z zs ≡ false
          → Chain h (h z).next zs
          → has pre (z ∷ zs) ≡ false
          → has l.head (z ∷ zs) ≡ false
          → l.tail ≡ last (pre ∷ z ∷ zs)
          → length (z ∷ zs) ≤ l.count
          → ((h z).id == id) ≡ true
          → Scanned h l id pre (z ∷ zs) (remove_loop (suc k) l id pre z h)
      found [] out' c out nh t pos hit =
          hit_last k pre z (e ∙ at) nz (ground arith) (ground arith) t (omega arith) hit c
      found (w ∷ ws) out' c out nh t pos hit =
          hit_middle k pre z w ws (e ∙ at) nz (ground arith) out out' t (omega arith) hit c

-- What `removeList` leaves: the node it found, and a list of the others.
abbrev pub Erased : Memory → ℕ → List Ptr → Option Removed → Type 0
Erased h id xs r =
    (l' : LinkedList) × (g : Memory) × (r ≡ some (find h id xs, l', g))
    × IsList g l' (erase h id xs)
    × Touches xs h g

module _ (h : Memory) (l : LinkedList) (id : ℕ) where
  hit_head :
      (x : Ptr) (xs : List Ptr)
      → IsList h l (x ∷ xs)
      → ((h x).id == id) ≡ true
      → Erased h id (x ∷ xs) (remove_list l id h)
  unfolding remove_list
  hit_head x [] v hit = (
    record { head = null; tail = null; count = l.count - 1 },
    h,
    ground (arith, v.chain, v.tail_last),
    rw hit (record { chain = refl; tail_last = refl; counted = omega (arith, v.counted) }),
    record { outside = λ b i. refl; same_ids = λ b. refl },
  )
  hit_head x (w ∷ ws) v hit = (
    record l { head = (h x).next; count = l.count - 1 },
    h,
    ground (arith, v.chain, v.tail_last, has-last w ws),
    rw hit
        (record { chain = v.chain.3; tail_last = v.tail_last; counted = omega (arith, v.counted) }),
    record { outside = λ b i. refl; same_ids = λ b. refl },
  )

  miss_head :
      (x : Ptr) (xs : List Ptr)
      → IsList h l (x ∷ xs)
      → ((h x).id == id) ≡ false
      → Erased h id (x ∷ xs) (remove_list l id h)
  unfolding remove_list
  miss_head x xs v miss = after (
      scan h l id l.count x (h x).next xs refl v.chain.3 v.chain.2 (ground (arith, v.chain))
        v.tail_last (omega (arith, v.counted)) (omega (arith, v.counted)))
    where
      step : remove_list l id h ≡ remove_loop l.count l id x (h x).next h
      step = rw (add-one l.count) (ground (arith, v.chain))

      after :
          Scanned h l id x xs (remove_loop l.count l id x (h x).next h)
          → Erased h id (x ∷ xs) (remove_list l id h)
      after (l', g, run, s) = (
        l',
        g,
        ground (arith, step, run),
        rw miss (record {
          chain = (s.same_head ∙ v.chain.0, v.chain.1, has-erase h id xs x v.chain.2, s.chain);
          tail_last = s.tail_last;
          counted = omega (arith, s.counted, v.counted);
        }),
        s.touches,
      )

-- On a list of the nodes `xs`, `removeList` ends, returns the first node of the id (NULL if there is
-- none) and leaves a list of the others in their order; it changes no id, and no node outside `xs`.
pub remove_list-erase :
    (h : Memory) (l : LinkedList) (id : ℕ) (xs : List Ptr)
    → IsList h l xs
    → Erased h id xs (remove_list l id h)
unfolding remove_list
remove_list-erase h l id [] v =
    (l, h, ground (arith, v.chain), v, record { outside = λ b i. refl; same_ids = λ b. refl })
remove_list-erase h l id (x ∷ xs) v = elim (Bool-cases ((h x).id == id)) [
  | inl hit ↦ hit_head h l id x xs v hit
  | inr miss ↦ miss_head h l id x xs v miss
]

-- `erase` on the nodes is `Spec.remove` on their ids.
pub ids-erase :
    (h : Memory) (id : ℕ) (xs : List Ptr) → ids h (erase h id xs) ≡ Spec.remove (ids h xs) id
ids-erase h id [] = refl
ids-erase h id (x ∷ xs) = ground (arith, ids-erase h id xs)
