-- ===== src/Queue.antt =====
-- kernel/lib/Queue.c: the ring of items of `data_size` bytes in a buffer that the caller gives. One slot
-- stays free, so that equal indices mean an empty queue.
pub mod Inv
pub mod Slots
pub mod Spec
pub mod Refine
use skhuos.Common.{ℕ, ◌+◌, ◌*◌, ◌%◌, Bool, true, false, List, ◌==◌, if◌then◌else◌}
use skhuos.CString.{memcpy}

-- `Queue`; `queue_arr` is the block that the pointer leads to.
pub record Queue : Type 0 where
  pub front : ℕ
  pub rear : ℕ
  pub len : ℕ
  pub data_size : ℕ
  pub queue_arr : List ℕ

pub init_queue : List ℕ → ℕ → ℕ → Queue
init_queue buffer queue_len size = record {
  front = 0;
  rear = 0;
  len = queue_len;
  data_size = size;
  queue_arr = buffer;
}

pub queue_is_empty : Queue → Bool
queue_is_empty q = if q.front == q.rear then true else false

pub queue_is_full : Queue → Bool
queue_is_full q = if q.front == (q.rear + 1) % q.len then true else false

-- The new queue and the return value.
pub en_queue : Queue → List ℕ → Queue × Bool
unfolding queue_is_full
en_queue q item = if queue_is_full q then (q, false) else (
  record q {
    queue_arr = memcpy q.queue_arr (q.data_size * q.rear) item 0 q.data_size;
    rear = (q.rear + 1) % q.len;
  },
  true,
)

-- The new queue, what `*data` holds afterwards, and the return value.
pub de_queue : Queue → List ℕ → Queue × List ℕ × Bool
unfolding queue_is_empty
de_queue q out = if queue_is_empty q then (q, out, false) else (
  record q { front = (q.front + 1) % q.len },
  memcpy out 0 q.queue_arr (q.data_size * q.front) q.data_size,
  true,
)
