-- ===== src/Blinktree/EpochManager/Reclaim.antt =====
-- `reclaim_epoch_garbage` and `stop` of src/indices/blinktree/epoch_manager.cpp without other threads.
use btree_benchmarks.Prelude.{
  ℕ, ◌≤◌, ◌<◌, ◌≡◌, refl, Bool, true, false, ◌&&◌, ◌||◌, not, List, [], ◌∷◌, ◌++◌, ltb, arith,
  if◌then◌else◌,
}
use btree_benchmarks.Prelude.Memory.{update}
use btree_benchmarks.Blinktree.Node.{Ptr}
use btree_benchmarks.Blinktree.EpochManager.{
  Epochs, free_all, stop, reclaim_loop, reclaim_epoch_garbage, min_local_epoch,
}
use btree_benchmarks.Blinktree.EpochManager.Minimum.{min_local_epoch_unique}
use btree_benchmarks.Blinktree.EpochManager.Guarded.{contains, contains-append}

module _ (min_epoch : ℕ) (remove_epoch : Ptr → ℕ) (node : Ptr) where
  abbrev is_old : Bool
  is_old = ltb (remove_epoch node) min_epoch

  reclaim_loop-deferred :
      (garbage deferred : List Ptr) (freed : Ptr → Bool)
      → contains node (reclaim_loop min_epoch remove_epoch garbage deferred freed).0
        ≡ (if contains node deferred then true else if is_old then false else contains node garbage)
  reclaim_loop-deferred [] deferred freed = ground arith
  reclaim_loop-deferred (x ∷ xs) deferred freed = ground (
    arith,
    contains-append node deferred (x ∷ []),
    reclaim_loop-deferred xs deferred (update freed x true),
    reclaim_loop-deferred xs (deferred ++ (x ∷ [])) freed,
  )

  reclaim_loop-freed :
      (garbage deferred : List Ptr) (freed : Ptr → Bool)
      → (reclaim_loop min_epoch remove_epoch garbage deferred freed).1 node
        ≡ (if freed node then true else if is_old then contains node garbage else false)
  reclaim_loop-freed [] deferred freed = ground arith
  reclaim_loop-freed (x ∷ xs) deferred freed = ground (
    arith,
    reclaim_loop-freed xs deferred (update freed x true),
    reclaim_loop-freed xs (deferred ++ (x ∷ [])) freed,
  )

free_all-freed :
    (node : Ptr) (garbage : List Ptr) (freed : Ptr → Bool)
    → free_all garbage freed node ≡ (if freed node then true else contains node garbage)
free_all-freed node [] freed = ground arith
free_all-freed node (x ∷ xs) freed = ground (arith, free_all-freed node xs (update freed x true))

-- `reclaim_epoch_garbage`, while no other thread runs, frees of the queue exactly the nodes whose
-- remove epoch is before `least`, and keeps exactly the others, where `least` is the local epoch of
-- one of the threads, and no thread has a smaller one.
pub reclaim_epoch_garbage_lem :
    (count_threads : ℕ) (s : Epochs) (node : Ptr) (least : ℕ)
    → ((i : ℕ) → i < count_threads → least ≤ s.local_epochs i)
    → (thread : ℕ) → thread < count_threads
    → s.local_epochs thread ≡ least
    → (contains node (reclaim_epoch_garbage count_threads s).garbage_queue
        ≡ (contains node s.garbage_queue && not (ltb (s.remove_epoch node) least)))
      × ((reclaim_epoch_garbage count_threads s).freed node
          ≡ (s.freed node || (contains node s.garbage_queue && ltb (s.remove_epoch node) least)))
reclaim_epoch_garbage_lem count_threads s node least below thread lt here =
    let same : min_local_epoch count_threads s ≡ least =
      min_local_epoch_unique count_threads s least below thread lt here in
    (
      ground
          (arith, same, reclaim_loop-deferred least s.remove_epoch node s.garbage_queue [] s.freed),
      ground (arith, same, reclaim_loop-freed least s.remove_epoch node s.garbage_queue [] s.freed),
    )

-- `stop` leaves no garbage: it frees every node of the queue, and no other.
pub stop_lem :
    (s : Epochs) (node : Ptr)
    → ((stop s).garbage_queue ≡ [])
      × ((stop s).freed node ≡ (s.freed node || contains node s.garbage_queue))
stop_lem s node = (refl, ground (arith, free_all-freed node s.garbage_queue s.freed))
