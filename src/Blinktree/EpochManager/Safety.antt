-- ===== src/Blinktree/EpochManager/Safety.antt =====
-- A node that is removed while a thread is inside of its epoch is not freed before the thread leaves:
-- src/indices/blinktree/epoch_manager.cpp.
use btree_benchmarks.Prelude.{ℕ, suc, ◌+◌, ◌^◌, ◌<◌, ◌≡◌, refl, true, false, arith, subst}
use btree_benchmarks.Blinktree.Node.{Ptr}
use btree_benchmarks.Blinktree.EpochManager.Threads.{
  System, Step, work, reclaim, Reach, is_inside, Stays, at_once, then_step,
}
use btree_benchmarks.Blinktree.EpochManager.Invariant.{Inv, Step-Inv, Reach-Inv}
use btree_benchmarks.Blinktree.EpochManager.Guarded.{
  contains, is_removing, deferred_of, IsCautious, IsGuarded, reclaim-IsGuarded, work-IsGuarded,
}

-- The node is not on its way to be freed.
pub record IsInUse (node : Ptr) (s : System) : Type 0 where
  pub not_queued : contains node s.epochs.garbage_queue ≡ false
  pub not_pushed : (i : ℕ) → is_removing node (s.workers i) ≡ false
  pub not_deferred : contains node (deferred_of s.reclaimer) ≡ false
  pub not_freed : s.epochs.freed node ≡ false

start-IsGuarded :
    {count_threads n : ℕ} (thread : ℕ) {node : Ptr} {s : System}
    → Inv n s
    → is_inside (s.workers thread) ≡ true
    → IsInUse node s
    → IsCautious thread (s.epochs.local_epochs thread) s.reclaimer
    → IsGuarded count_threads thread (s.epochs.local_epochs thread) node s
start-IsGuarded thread inv now use_ cautious = record {
  slot = refl;
  past = ground (arith, inv.soon thread, now);
  queued = ground (arith, use_.not_queued);
  pushed = λ i. ground (arith, use_.not_pushed i);
  kept = ground (arith, use_.not_deferred);
  cautious = cautious;
  unfreed = use_.not_freed;
}

Step-IsGuarded :
    {count_threads n thread epoch : ℕ} {node : Ptr} {s t : System}
    → thread < count_threads
    → suc n < 2 ^ 32
    → Inv n s
    → is_inside (s.workers thread) ≡ true
    → Step count_threads s t
    → is_inside (t.workers thread) ≡ true
    → IsGuarded count_threads thread epoch node s
    → IsGuarded count_threads thread epoch node t
Step-IsGuarded lt few inv was (work i _ mv) is h = work-IsGuarded h was is mv
Step-IsGuarded lt few inv was (reclaim mv) is h =
    reclaim-IsGuarded h lt (omega (arith, few, inv.few)) mv

module _ {count_threads k thread : ℕ} {node : Ptr} {s : System} where
  Stays-IsGuarded :
      (n : ℕ) {epoch : ℕ} {t : System}
      → thread < count_threads
      → k + n < 2 ^ 32
      → Inv k s
      → is_inside (s.workers thread) ≡ true
      → Stays count_threads thread s n t
      → IsGuarded count_threads thread epoch node s
      → Inv (k + n) t
        × (is_inside (t.workers thread) ≡ true)
        × IsGuarded count_threads thread epoch node t
  Stays-IsGuarded n lt few inv was at_once h = (subst (λ m. Inv m s) (omega arith) inv, was, h)
  Stays-IsGuarded n lt few inv was (then_step {n = m} {u = t} r st is) h =
      let (inv', was', h') = Stays-IsGuarded m lt (omega (arith, few)) inv was r h in
      (
        subst (λ j. Inv j t) (omega arith) (Step-Inv (omega (arith, few)) st inv'),
        is,
        Step-IsGuarded lt (omega (arith, few)) inv' was' st is h',
      )

-- Let a thread be inside of its epoch in a state that the threads and the epoch thread reach, and a
-- node be in use there: not freed, not in the queue of garbage, and not being removed. If the
-- epoch thread, where it has already read the thread's epoch for a reclamation under way, has a
-- least epoch not later than that, then the node is not freed as long as the thread stays
-- inside, whoever removes it. (Fewer than 2^32 steps, in which the global epoch cannot wrap around.)
pub no_early_free :
    {count_threads k n thread : ℕ} {node : Ptr} {s t : System}
    → Reach count_threads k s
    → thread < count_threads
    → k + n < 2 ^ 32
    → is_inside (s.workers thread) ≡ true
    → IsInUse node s
    → IsCautious thread (s.epochs.local_epochs thread) s.reclaimer
    → Stays count_threads thread s n t
    → t.epochs.freed node ≡ false
no_early_free {n = n} {thread} reach lt few now use_ cautious stays =
    let inv = Reach-Inv (omega (arith, few)) reach in
    (Stays-IsGuarded n lt few inv now stays
      (start-IsGuarded thread inv now use_ cautious)).2.unfreed
