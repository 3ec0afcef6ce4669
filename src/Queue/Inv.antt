-- ===== src/Queue/Inv.antt =====
-- The invariant of a queue: its indices lie in the ring, and the ring in the buffer.
use skhuos.Common.{
  ℕ, ◌+◌, ◌-◌, ◌*◌, ◌%◌, ◌<◌, ◌≤◌, ◌≡◌, List, arith, length, leb, if◌then◌else◌, ◌==◌,
}
use skhuos.CString.Blocks.{length-memcpy}
use skhuos.Queue.{Queue, init_queue, en_queue, de_queue}

pub record IsValid (q : Queue) : Type 0 where
  pub front_in : q.front < q.len
  pub rear_in : q.rear < q.len
  pub storage : q.data_size * q.len ≤ length q.queue_arr

-- How many items the queue holds.
abbrev pub count : Queue → ℕ
count q = if leb q.front q.rear then q.rear - q.front else q.rear + q.len - q.front

pub next_lem : (i n : ℕ) → i < n → (i + 1) % n ≡ (if i + 1 == n then 0 else i + 1)
next_lem i n h = grind arith

pub init_queue-IsValid :
    (buffer : List ℕ) (n size : ℕ)
    → 0 < n
    → size * n ≤ length buffer
    → IsValid (init_queue buffer n size)
unfolding init_queue
init_queue-IsValid buffer n size h k = record { front_in = h; rear_in = h; storage = k }

-- `enQueue` keeps the invariant of the ring, whether or not there is room.
pub en_queue-IsValid : (q : Queue) (item : List ℕ) → IsValid q → IsValid (en_queue q item).0
unfolding en_queue
en_queue-IsValid q item v = ground (
  arith,
  next_lem q.rear q.len,
  length-memcpy q.queue_arr (q.data_size * q.rear) item 0 q.data_size,
)

-- So does `deQueue`.
pub de_queue-IsValid : (q : Queue) (out : List ℕ) → IsValid q → IsValid (de_queue q out).0
unfolding de_queue
de_queue-IsValid q out v = ground (arith, next_lem q.front q.len)
