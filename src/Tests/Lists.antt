-- ===== src/Tests/Lists.antt =====
-- The theorems on lists, queues and blocks of bytes at concrete inputs.
use skhuos.Common.{◌≡◌, refl, none, some, [], ◌∷◌, arith, ◌==◌, if◌then◌else◌}
use skhuos.LinkedList.{Ptr, Memory, LinkedList, remove_list, set_next, remove_loop, unlink}
use skhuos.LinkedList.Chain.{IsList}
use skhuos.LinkedList.Remove.{Erased, remove_list-erase}
use skhuos.LinkedList.Refine.{Holds, Taken, remove_list-refines}
use skhuos.Queue.{Queue, en_queue, de_queue}
use skhuos.Queue.Inv.{IsValid}
use skhuos.Queue.Slots.{slice}
use skhuos.Queue.Refine.{contents, fifo_refines}
use skhuos.Queue.Spec as Fifo

-- Nodes 10 → 20 → 30 with the ids 1, 2 and 3; node 40 stands alone.
abbrev memory : Memory
memory p =
    if p == 10
    then record { next = 20; id = 1 }
    else if p == 20
    then record { next = 30; id = 2 }
    else if p == 30
    then record { next = 0; id = 3 }
    else record { next = 0; id = 4 }

abbrev three : LinkedList
three = record { head = 10; tail = 30; count = 3 }

abbrev empty_list : LinkedList
empty_list = record { head = 0; tail = 0; count = 0 }

three-IsList : IsList memory three (10 ∷ 20 ∷ 30 ∷ [])
three-IsList = record {
  chain = (refl, omega arith, refl, (refl, omega arith, refl, (refl, omega arith, refl, refl)));
  tail_last = refl;
  counted = refl;
}

empty-IsList : IsList memory empty_list []
empty-IsList = record { chain = refl; tail_last = refl; counted = refl }

remove_list-erase_example : Erased memory 2 (10 ∷ 20 ∷ 30 ∷ []) (remove_list three 2 memory)
remove_list-erase_example = remove_list-erase memory three 2 (10 ∷ 20 ∷ 30 ∷ []) three-IsList

remove_list-refines_example :
    (p : Ptr) × (l' : LinkedList) × (g : Memory) × (remove_list three 3 memory ≡ some (p, l', g))
    × Holds g l' (1 ∷ 2 ∷ [])
    × Taken memory p (some 3)
remove_list-refines_example =
    remove_list-refines memory three 3 (1 ∷ 2 ∷ 3 ∷ []) (10 ∷ 20 ∷ 30 ∷ [], three-IsList, refl)

abbrev single : LinkedList
single = record { head = 40; tail = 40; count = 1 }

single-IsList : IsList memory single (40 ∷ [])
single-IsList = record { chain = (refl, omega arith, refl, refl); tail_last = refl; counted = refl }

removed : remove_list three 2 memory ≡ some (20, record three { count = 2 }, set_next memory 10 30)
unfolding remove_list remove_loop unlink
removed = refl

-- A ring of four slots of two bytes that holds two items, the second one behind the wrap.
abbrev wrapped : Queue
wrapped = record {
  front = 3;
  rear = 1;
  len = 4;
  data_size = 2;
  queue_arr = 5 ∷ 6 ∷ 0 ∷ 0 ∷ 0 ∷ 0 ∷ 7 ∷ 8 ∷ [];
}

wrapped-IsValid : IsValid wrapped
wrapped-IsValid = omega arith

wrapped-contents : contents wrapped ≡ (7 ∷ 8 ∷ []) ∷ (5 ∷ 6 ∷ []) ∷ []
wrapped-contents = refl

fifo_refines_example :
    (let (q', done) = en_queue wrapped (1 ∷ 2 ∷ []) in
      (contents q', done) ≡ Fifo.push 3 (contents wrapped) (1 ∷ 2 ∷ []))
    × (let (q', out', done) = de_queue wrapped (0 ∷ 0 ∷ []) in
        (contents q', if done then some (slice out' 0 2) else none) ≡ Fifo.pop (contents wrapped))
fifo_refines_example = fifo_refines wrapped wrapped-IsValid (1 ∷ 2 ∷ []) (0 ∷ 0 ∷ []) (omega arith)
