-- ===== src/LinkedList.antt =====
-- kernel/lib/LinkedList.c: the intrusive lists of nodes, with their nodes in an explicit memory.
-- A pointer is an address, NULL is 0. `Memory` gives the `next` and `id` fields of the node at each
-- address; a write changes the node at one address. The loop of `remove_list` runs on fuel.
pub mod Chain
pub mod Insert
pub mod Pop
pub mod Refine
pub mod Remove
pub mod Spec
use skhuos.Common.{ℕ, zero, suc, ◌+◌, ◌-◌, Bool, ◌&&◌, Option, none, some, ◌==◌, if◌then◌else◌}

abbrev pub Ptr : Type 0
Ptr = ℕ

abbrev pub null : Ptr
null = 0

-- `Node`
pub record Node : Type 0 where
  pub next : Ptr
  pub id : ℕ

abbrev pub Memory : Type 0
Memory = Ptr → Node

-- `LinkedList`
pub record LinkedList : Type 0 where
  pub head : Ptr
  pub tail : Ptr
  pub count : ℕ

-- The assignment `p->next = q`.
abbrev pub set_next : Memory → Ptr → Ptr → Memory
set_next h p q a = if a == p then record (h p) { next = q } else h a

pub init_list : LinkedList
init_list = record { head = null; tail = null; count = 0 }

pub insert_list : LinkedList → Ptr → Memory → LinkedList × Memory
insert_list l item h =
    let h₁ = set_next h item null in
    if l.head == null
    then (record { head = item; tail = item; count = l.count + 1 }, h₁)
    else (record l { tail = item; count = l.count + 1 }, set_next h₁ l.tail item)

-- The branches of `removeList` at the node that it found.
unfoldable pub unlink : LinkedList → Ptr → Ptr → Memory → LinkedList × Memory
unlink l pre cur h =
    if (cur == l.head) && (cur == l.tail)
    then (record l { head = null; tail = null }, h)
    else if cur == l.head
    then (record l { head = (h cur).next }, h)
    else if cur == l.tail
    then (record l { tail = pre }, set_next h pre null)
    else (l, set_next h pre (h cur).next)

abbrev pub Removed : Type 0
Removed = Ptr × LinkedList × Memory

-- The loop of `removeList`; `none` means that the fuel ran out.
unfoldable pub remove_loop : ℕ → LinkedList → ℕ → Ptr → Ptr → Memory → Option Removed
unfolding unlink
remove_loop zero l id pre cur h = none
remove_loop (suc k) l id pre cur h =
    let rest = remove_loop k l id cur (h cur).next h in
    let (l', h') = unlink l pre cur h in
    if cur == null
    then some (null, l, h)
    else if (h cur).id == id
    then some (cur, record l' { count = l'.count - 1 }, h')
    else rest

-- A list of `count` nodes takes `count + 1` rounds, the last one at NULL.
unfoldable pub remove_list : LinkedList → ℕ → Memory → Option Removed
unfolding remove_loop
remove_list l id h = remove_loop (l.count + 1) l id l.head l.head h

pub head_remove : LinkedList → Memory → Option Removed
unfolding remove_list
head_remove l h = if l.count == 0 then some (null, l, h) else remove_list l (h l.head).id h
