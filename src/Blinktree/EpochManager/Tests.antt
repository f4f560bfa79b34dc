-- ===== src/Blinktree/EpochManager/Tests.antt =====
-- Runs of two worker threads and the epoch thread.
use btree_benchmarks.Prelude.{ℕ, suc, ◌≡◌, ◌-◌, refl, true, false, [], ◌∷◌, arith}
use btree_benchmarks.Blinktree.EpochManager.{
  Epochs, new_epochs, start_epochs, register_thread, stop, reclaim_epoch_garbage, max_epoch,
}
use btree_benchmarks.Blinktree.EpochManager.Threads.{
  WorkerMove, ReclaimerMove, System, Step, work, reclaim, Reach, at_first, later, is_inside, Stays,
  at_once, then_step,
}
use btree_benchmarks.Blinktree.EpochManager.Guarded.{contains}
use btree_benchmarks.Blinktree.EpochManager.Reclaim.{reclaim_epoch_garbage_lem, stop_lem}
use btree_benchmarks.Blinktree.EpochManager.Safety.{no_early_free}

-- Two threads in an epoch, three nodes of which the last was removed in the epoch of thread 1.
abbrev sample : Epochs
sample = record new_epochs {
  local_epochs = λ i. suc i;
  garbage_queue = 5 ∷ 6 ∷ 7 ∷ [];
  remove_epoch = λ node. node - 5;
}

second_thread : (register_thread (register_thread (start_epochs sample)).1).0 ≡ 1
second_thread = refl

reclaim_deferred : (reclaim_epoch_garbage 2 sample).garbage_queue ≡ 6 ∷ 7 ∷ []
reclaim_deferred = refl

reclaim_freed : (reclaim_epoch_garbage 2 sample).freed 5 ≡ true
reclaim_freed = refl

stop_freed : (stop sample).freed 7 ≡ true
stop_freed = refl

reclaim_epoch_garbage_lem_example :
    (contains 6 (reclaim_epoch_garbage 2 sample).garbage_queue ≡ true)
    × ((reclaim_epoch_garbage 2 sample).freed 6 ≡ false)
reclaim_epoch_garbage_lem_example =
    reclaim_epoch_garbage_lem 2 sample 6 1 (λ i lt. omega arith) 0 (omega arith) refl

stop_lem_example : ((stop sample).garbage_queue ≡ []) × ((stop sample).freed 7 ≡ true)
stop_lem_example = stop_lem sample 7

abbrev Run : Type 0
Run = (n : ℕ) × (s : System) × Reach 2 n s

abbrev after_step : (r : Run) {t : System} → Step 2 r.1 t → Run
after_step (n, s, reach) {t} st = (suc n, t, later reach st)

abbrev initial : Run
initial = (0, _, at_first)

-- Thread 0 has joined.
abbrev joined : Run
joined =
    after_step (after_step initial (work 0 (omega arith) WorkerMove.load))
      (work 0 (omega arith) WorkerMove.join)

abbrev Stay : Type 0
Stay = (n : ℕ) × (t : System) × Stays 2 0 joined.1 n t

abbrev stay : (r : Stay) {t : System} → Step 2 r.1 t → is_inside (t.workers 0) ≡ true → Stay
stay (n, s, stays) {t} st now = (suc n, t, then_step stays st now)

-- Thread 1 removes node 5, and the epoch thread looks at the epochs.
abbrev removed : Stay
removed =
    stay
      (stay
        (stay
          (stay (stay (0, _, at_once) (work 1 (omega arith) (WorkerMove.mark 5 false)) refl)
            (work 1 (omega arith) WorkerMove.push) refl)
          (reclaim ReclaimerMove.tick) refl)
        (reclaim ReclaimerMove.scan_first) refl)
      (reclaim (ReclaimerMove.scan_next (omega arith))) refl

-- It goes through the garbage and defers the node.
abbrev deferred : Stay
deferred =
    stay
      (stay (stay removed (reclaim (ReclaimerMove.scan_done (omega arith))) refl)
        (reclaim (ReclaimerMove.defer refl (omega arith))) refl)
      (reclaim ReclaimerMove.no_more) refl

no_early_free_example : deferred.1.epochs.freed 5 ≡ false
no_early_free_example =
    no_early_free {thread = 0} {node = 5} joined.2 (omega arith) (omega arith) refl
      (record {
        not_queued = refl;
        not_pushed = λ i. ground arith;
        not_deferred = refl;
        not_freed = refl;
      })
      tt deferred.2

-- Both threads have been inside and have left, and the epoch thread has found that nobody is inside.
abbrev left : Run
left =
    after_step
      (after_step
        (after_step
          (after_step (after_step joined (work 0 (omega arith) WorkerMove.leave))
            (work 1 (omega arith) WorkerMove.load))
          (work 1 (omega arith) WorkerMove.join))
        (work 1 (omega arith) WorkerMove.leave))
      (reclaim ReclaimerMove.tick)

abbrev scanned : Run
scanned =
    after_step
      (after_step (after_step left (reclaim ReclaimerMove.scan_first))
        (reclaim (ReclaimerMove.scan_next (omega arith))))
      (reclaim (ReclaimerMove.scan_done (omega arith)))

-- Only now thread 0 joins, thread 1 removes node 5, and the node is freed under thread 0: the
-- condition on a reclamation under way is needed.
abbrev freed_early : Run
freed_early =
    after_step
      (after_step
        (after_step
          (after_step (after_step scanned (work 0 (omega arith) WorkerMove.load))
            (work 0 (omega arith) WorkerMove.join))
          (work 1 (omega arith) (WorkerMove.mark 5 false)))
        (work 1 (omega arith) WorkerMove.push))
      (reclaim
        (ReclaimerMove.free {min_epoch = max_epoch} {garbage = 5} {rest = []} refl (omega arith)))

freed_early_lem :
    (freed_early.1.epochs.freed 5 ≡ true) × (is_inside (freed_early.1.workers 0) ≡ true)
freed_early_lem = (refl, refl)
