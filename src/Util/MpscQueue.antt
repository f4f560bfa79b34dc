-- ===== src/Util/MpscQueue.antt =====
-- `util::MPSCQueue` of src/util/mpsc_queue.h and mpsc_queue.cpp, run by one thread: a linked queue that
-- is never without a cell, since a stub item stands for its end.
pub mod Order
mod Tests
use btree_benchmarks.Prelude.{ℕ, Bool, true, false, ◌&&◌, ◌==◌, if◌then◌else◌}
use btree_benchmarks.Prelude.Memory.{update}
use btree_benchmarks.Blinktree.Node.{Ptr, null}

-- `end` is the address of the stub.
pub record MpscQueue : Type 0 where
  pub next : Ptr → Ptr
  pub head : Ptr
  pub tail : Ptr
  pub end : Ptr

-- A new queue, over a store of items; the stub's `next` is null.
abbrev pub new_mpsc_queue : (next : Ptr → Ptr) (stub : Ptr) → MpscQueue
new_mpsc_queue next stub = record {
  next = update next stub null;
  head = stub;
  tail = stub;
  end = stub;
}

abbrev pub push : (item : Ptr) → MpscQueue → MpscQueue
push item q = record q { next = update (update q.next item null) q.head item; head = item }

-- `push_back(begin, end)`
abbrev pub push_range : (first last : Ptr) → MpscQueue → MpscQueue
push_range first last q = record q {
  next = update (update q.next last null) q.head first;
  head = last;
}

abbrev pub is_empty_queue : MpscQueue → Bool
is_empty_queue q = (q.tail == q.end) && (q.next q.end == null)

-- The end of `pop_front`, with its local variables.
abbrev pub take : (tail next : Ptr) → MpscQueue → Ptr × MpscQueue
take tail next q =
    if next == null
    then (if tail == q.head
        then (let q' : MpscQueue = push q.end q in
            if q'.next tail == null then (null, q') else (tail, record q' { tail = q'.next tail }))
        else (null, q))
    else (tail, record q { tail = next })

-- The item, or null, and the queue after it.
abbrev pub pop : MpscQueue → Ptr × MpscQueue
pop q =
    let next : Ptr = q.next q.tail in
    if q.tail == q.end
    then if next == null then (null, q) else take next (q.next next) (record q { tail = next })
    else take q.tail next q
