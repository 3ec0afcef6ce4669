-- ===== src/Queue/Refine.antt =====
-- A valid queue of kernel/lib/Queue.c behaves as the bounded FIFO of the items that it holds.
use skhuos.Common.{
  ℕ, zero, suc, ◌+◌, ◌-◌, ◌*◌, ◌%◌, ◌<◌, ◌≤◌, ◌≡◌, refl, ap, true, false, none, some, List, [], ◌∷◌,
  ◌++◌, arith, length, if◌then◌else◌, ◌==◌, ==_iff, eq→==, ◌∙◌, sym, Bool-cases, inl, inr,
}
use skhuos.CString.{memcpy}
use skhuos.Queue.{Queue, en_queue, de_queue, queue_is_empty, queue_is_full}
use skhuos.Queue.Inv.{IsValid, count, next_lem}
use skhuos.Queue.Slots.{slice, slots, length-slots, slots-memcpy, slice-memcpy_self}
use skhuos.Queue.Spec

-- The items that a queue holds, oldest first.
abbrev pub contents : Queue → List (List ℕ)
contents q = slots q.data_size q.len q.queue_arr q.front (count q)

pub length-contents : (q : Queue) → length (contents q) ≡ count q
length-contents q = length-slots q.data_size q.len q.queue_arr q.front (count q)

slots_cons :
    (size len : ℕ) (arr : List ℕ) (h n : ℕ)
    → 0 < n
    → slots size len arr h n
      ≡ slice arr (size * h) size ∷ slots size len arr ((h + 1) % len) (n - 1)
slots_cons size len arr h zero p = absurd (omega arith)
slots_cons size len arr h (suc n) p = ap (λ k. slots size len arr h (suc k)) (omega arith)

-- A queue is full exactly when it holds one item less than it has slots, and empty exactly when it
-- holds none.
full_empty :
    (q : Queue)
    → IsValid q
    → (queue_is_full q ≡ (count q == q.len - 1)) × (queue_is_empty q ≡ (count q == 0))
unfolding queue_is_full queue_is_empty
full_empty q v = ground (arith, next_lem q.rear q.len)

-- The queue after a successful `enQueue`, and after a successful `deQueue`.
abbrev stored : Queue → List ℕ → Queue
stored q item = record q {
  queue_arr = memcpy q.queue_arr (q.data_size * q.rear) item 0 q.data_size;
  rear = (q.rear + 1) % q.len;
}

abbrev advanced : Queue → Queue
advanced q = record q { front = (q.front + 1) % q.len }

module _ (q : Queue) (v : IsValid q) where
  count-stored :
      (item : List ℕ) → (count q == q.len - 1) ≡ false → count (stored q item) ≡ suc (count q)
  count-stored item h = ground (arith, next_lem q.rear q.len)

  count-advanced : (count q == 0) ≡ false → count (advanced q) ≡ count q - 1
  count-advanced h = ground (arith, next_lem q.front q.len)

  contents-stored :
      (item : List ℕ)
      → (count q == q.len - 1) ≡ false
      → contents (stored q item) ≡ contents q ++ (slice item 0 q.data_size ∷ [])
  contents-stored item h =
      ap (slots q.data_size q.len (stored q item).queue_arr q.front) (count-stored item h)
      ∙ slots-memcpy q.data_size q.len q.queue_arr item q.front (count q) q.rear v.storage
          v.front_in (ground arith) (ground arith)

  contents_nil : (count q == 0) ≡ true → contents q ≡ []
  contents_nil h = ap (slots q.data_size q.len q.queue_arr q.front) ((==_iff (count q) 0).0 h)

  contents-cons :
      (count q == 0) ≡ false
      → contents q ≡ slice q.queue_arr (q.data_size * q.front) q.data_size ∷ contents (advanced q)
  contents-cons h =
      slots_cons q.data_size q.len q.queue_arr q.front (count q) (ground arith)
      ∙ ap
          (λ n.
            slice q.queue_arr (q.data_size * q.front) q.data_size
            ∷ slots q.data_size q.len q.queue_arr ((q.front + 1) % q.len) n)
          (sym (count-advanced h))

  -- `enQueue` is `Spec.push` on the items: it refuses the item and changes nothing when `len - 1` items
  -- are held, else the item is the last one.
  pub en_queue-refines :
      (item : List ℕ)
      → let (q', done) = en_queue q item in
        (contents q', done) ≡ Spec.push (q.len - 1) (contents q) (slice item 0 q.data_size)
  unfolding en_queue
  en_queue-refines item = rw (length-contents q) (elim (Bool-cases (count q == q.len - 1)) [
    | inl full ↦ rw (full, (full_empty q v).0 ∙ full) refl
    | inr room ↦
        rw (room, (full_empty q v).0 ∙ room) (ap (λ xs. (xs, true)) (contents-stored item room))
  ])

  -- `deQueue` is `Spec.pop` on the items: an empty queue stays as it is and gives FALSE, else the oldest
  -- item leaves the queue, and its bytes stand at the start of the caller's block.
  pub de_queue-refines :
      (out : List ℕ)
      → q.data_size ≤ length out
      → let (q', out', done) = de_queue q out in
        (contents q', if done then some (slice out' 0 q.data_size) else none)
        ≡ Spec.pop (contents q)
  unfolding de_queue
  de_queue-refines out h = elim (Bool-cases (count q == 0)) [
    | inl empty ↦ rw ((full_empty q v).1 ∙ empty, contents_nil empty) refl
    | inr more ↦
        rw ((full_empty q v).1 ∙ more, contents-cons more)
          (ap (λ x. (contents (advanced q), some x))
            (slice-memcpy_self out 0 q.queue_arr (q.data_size * q.front) q.data_size (omega arith)))
  ]

  -- The ring is a bounded FIFO. `enQueue` is `Spec.push` on the items: it refuses the item and changes nothing when
  -- `len - 1` items are held, else the item is the last one. `deQueue` is `Spec.pop`, if the caller's block has room
  -- for an item: an empty queue stays as it is and gives FALSE, else the oldest item leaves the queue, and
  -- its bytes stand at the start of the block.
  pub fifo_refines :
      (item out : List ℕ)
      → q.data_size ≤ length out
      → (let (q', done) = en_queue q item in
          (contents q', done) ≡ Spec.push (q.len - 1) (contents q) (slice item 0 q.data_size))
        × (let (q', out', done) = de_queue q out in
            (contents q', if done then some (slice out' 0 q.data_size) else none)
            ≡ Spec.pop (contents q))
  fifo_refines item out h = (en_queue-refines item, de_queue-refines out h)

pub data_size-en_queue : (q : Queue) (item : List ℕ) → (en_queue q item).0.data_size ≡ q.data_size
unfolding en_queue
data_size-en_queue q item = ground arith

-- `deQueue` on an empty queue changes nothing.
pub de_queue_empty :
    (q : Queue) (out : List ℕ) → IsValid q → contents q ≡ [] → de_queue q out ≡ (q, out, false)
unfolding de_queue
de_queue_empty q out v e =
    let none_held : count q ≡ 0 = sym (length-contents q) ∙ ap length e in
    rw ((full_empty q v).1 ∙ eq→== (count q) 0 none_held) refl
