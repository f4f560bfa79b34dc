-- ===== src/Util/Queue.antt =====
-- src/util/queue.h and queue_item.h: a queue whose items hold the pointers to the next ones. The
-- store gives the `next` of each item; 0 is the null pointer.
pub mod Order
mod Tests
use btree_benchmarks.Prelude.{ℕ, Bool, true, false, ◌==◌, if◌then◌else◌}
use btree_benchmarks.Prelude.Memory.{update}
use btree_benchmarks.Blinktree.Node.{Ptr, null}

pub record Queue : Type 0 where
  pub next : Ptr → Ptr
  pub head : Ptr
  pub tail : Ptr

-- A new queue, over a store of items.
unfoldable pub new_queue : (next : Ptr → Ptr) → Queue
new_queue next = record { next = next; head = null; tail = null }

unfoldable pub push_back : (item : Ptr) → Queue → Queue
push_back item q =
    let cleared = update q.next item null in
    if q.tail == null
    then record { next = cleared; head = item; tail = item }
    else record { next = update cleared q.tail item; head = q.head; tail = item }

unfoldable pub empty : Queue → Bool
empty q = q.head == null

-- The item, or null, and the queue after it.
unfoldable pub pop_front : Queue → Ptr × Queue
pop_front q = if q.head == null then (null, q) else (
  q.head,
  record {
    next = q.next;
    head = q.next q.head;
    tail = if q.next q.head == null then null else q.tail;
  },
)
