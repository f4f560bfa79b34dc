-- ===== src/Blinktree/EpochManager/Threads.antt =====
-- Worker threads and the epoch thread of src/indices/blinktree/epoch_manager.cpp, one shared access
-- at a time, in any order. The accesses are taken to be sequentially consistent.
use btree_benchmarks.Prelude.{ℕ, suc, ◌<◌, ◌≤◌, ◌≡◌, min, Bool, true, false, List, [], ◌∷◌, ◌++◌}
use btree_benchmarks.Prelude.Memory.{update}
use btree_benchmarks.Blinktree.Node.{Ptr}
use btree_benchmarks.Blinktree.EpochManager.{
  Epochs, new_epochs, store_epoch, leave_epoch, mark_garbage, push_garbage, next_epoch,
}

-- Where a worker stands. Nodes are removed inside of an epoch and outside (`reclaim_node`).
pub data Worker : Type 0 where
  outside : Worker
  joining : (epoch : ℕ) → Worker  -- in `join_epoch`, between the load and the store
  inside : Worker
  removing : (garbage : Ptr) (was_inside : Bool) → Worker  -- in `add_to_garbage`, before the push

abbrev pub back : Bool → Worker
back true = inside
back false = outside

pub data WorkerMove (i : ℕ) (s : Epochs) : Worker → Epochs → Worker → Type 0 where
  load : WorkerMove i s outside s (joining s.global_epoch)
  join : {epoch : ℕ} → WorkerMove i s (joining epoch) (store_epoch i epoch s) inside
  leave : WorkerMove i s inside (leave_epoch i s) outside
  mark :
      (garbage : Ptr) (was_inside : Bool)
      → WorkerMove i s (back was_inside) (mark_garbage garbage s) (removing garbage was_inside)
  push :
      {garbage : Ptr} {was_inside : Bool}
      → WorkerMove i s (removing garbage was_inside) (push_garbage garbage s) (back was_inside)

-- Where the epoch thread stands.
pub data Reclaimer : Type 0 where
  asleep : Reclaimer
  ticked : Reclaimer  -- before the first load of `min_local_epoch`
  scanning : (min_epoch i : ℕ) → Reclaimer  -- the loop of `min_local_epoch`
  popping : (min_epoch : ℕ) (deferred : List Ptr) → Reclaimer  -- the loop over the garbage
  returning : (deferred : List Ptr) → Reclaimer  -- before the last `push_back`

-- `pop_front` gives null when the queue is empty, and also while a push is half done.
pub data ReclaimerMove (count_threads : ℕ) (s : Epochs)
    : Reclaimer → Epochs → Reclaimer → Type 0 where
  tick : ReclaimerMove count_threads s asleep (next_epoch s) ticked
  scan_first : ReclaimerMove count_threads s ticked s (scanning (s.local_epochs 0) 1)
  scan_next :
      {min_epoch i : ℕ}
      → i < count_threads
      → ReclaimerMove count_threads s
          (scanning min_epoch i)
          s
          (scanning (min min_epoch (s.local_epochs i)) (suc i))
  scan_done :
      {min_epoch i : ℕ}
      → count_threads ≤ i
      → ReclaimerMove count_threads s (scanning min_epoch i) s (popping min_epoch [])
  free :
      {min_epoch : ℕ} {deferred : List Ptr} {garbage : Ptr} {rest : List Ptr}
      → s.garbage_queue ≡ garbage ∷ rest
      → s.remove_epoch garbage < min_epoch
      → ReclaimerMove count_threads s
          (popping min_epoch deferred)
          (record s { garbage_queue = rest; freed = update s.freed garbage true })
          (popping min_epoch deferred)
  defer :
      {min_epoch : ℕ} {deferred : List Ptr} {garbage : Ptr} {rest : List Ptr}
      → s.garbage_queue ≡ garbage ∷ rest
      → min_epoch ≤ s.remove_epoch garbage
      → ReclaimerMove count_threads s
          (popping min_epoch deferred)
          (record s { garbage_queue = rest })
          (popping min_epoch (deferred ++ (garbage ∷ [])))
  no_more :
      {min_epoch : ℕ} {deferred : List Ptr}
      → ReclaimerMove count_threads s (popping min_epoch deferred) s (returning deferred)
  push_deferred :
      {deferred : List Ptr}
      → ReclaimerMove count_threads s
          (returning deferred)
          (record s { garbage_queue = s.garbage_queue ++ deferred })
          asleep

pub record System : Type 0 where
  pub epochs : Epochs
  pub workers : ℕ → Worker
  pub reclaimer : Reclaimer

pub data Step (count_threads : ℕ) (s : System) : System → Type 0 where
  work :
      (i : ℕ) {e : Epochs} {w : Worker}
      → i < count_threads
      → WorkerMove i s.epochs (s.workers i) e w
      → Step count_threads s (record s { epochs = e; workers = update s.workers i w })
  reclaim :
      {e : Epochs} {r : Reclaimer}
      → ReclaimerMove count_threads s.epochs s.reclaimer e r
      → Step count_threads s (record s { epochs = e; reclaimer = r })

abbrev pub init : System
init = record { epochs = new_epochs; workers = λ _. outside; reclaimer = asleep }

-- The states after `n` steps.
pub data Reach (count_threads : ℕ) : ℕ → System → Type 0 where
  at_first : Reach count_threads 0 init
  later :
      {n : ℕ} {s t : System}
      → Reach count_threads n s
      → Step count_threads s t
      → Reach count_threads (suc n) t

abbrev pub is_inside : Worker → Bool
is_inside outside = false
is_inside (joining epoch) = false
is_inside inside = true
is_inside (removing garbage was_inside) = was_inside

-- Steps during which a thread stays inside of its epoch.
pub data Stays (count_threads thread : ℕ) (s : System) : ℕ → System → Type 0 where
  at_once : Stays count_threads thread s 0 s
  then_step :
      {n : ℕ} {t u : System}
      → Stays count_threads thread s n t
      → Step count_threads t u
      → is_inside (u.workers thread) ≡ true
      → Stays count_threads thread s (suc n) u
