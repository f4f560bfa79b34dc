-- ===== src/Blinktree/EpochManager/Guarded.antt =====
-- What protects a node while a thread is inside of its epoch, and that every access of
-- src/indices/blinktree/epoch_manager.cpp keeps it.
use btree_benchmarks.Prelude.{
  ℕ, ◌+◌, ◌^◌, ◌<◌, ◌≤◌, ◌≡◌, ◌∙◌, refl, Bool, true, false, arith, ◌==◌, Bool-cases, inl, inr, List,
  [], ◌∷◌, ◌++◌, ap, ℕ_discrete, if◌then◌else◌,
}
use btree_benchmarks.Prelude.Memory.{update}
use btree_benchmarks.Blinktree.Node.{Ptr}
use btree_benchmarks.Blinktree.EpochManager.{Epochs}
use btree_benchmarks.Blinktree.EpochManager.Threads.{
  Worker, removing, WorkerMove, load, mark, push, Reclaimer, scanning, popping, returning,
  ReclaimerMove, tick, scan_first, scan_next, scan_done, free, defer, push_deferred, System,
  is_inside,
}
use btree_benchmarks.Blinktree.EpochManager.Invariant.{
  ReclaimerMove-locals, WorkerMove-other, WorkerMove-global, ReclaimerMove-global,
}

abbrev pub contains : Ptr → List Ptr → Bool
contains node [] = false
contains node (x ∷ xs) = if x == node then true else contains node xs

pub contains-append :
    (node : Ptr) (xs ys : List Ptr)
    → contains node (xs ++ ys) ≡ (if contains node xs then true else contains node ys)
contains-append node [] ys = refl
contains-append node (x ∷ xs) ys = ground (arith, contains-append node xs ys)

-- The worker is about to put the node into the queue.
abbrev pub is_removing : Ptr → Worker → Bool
is_removing node (removing garbage was_inside) = garbage == node
is_removing node w = false

abbrev pub deferred_of : Reclaimer → List Ptr
deferred_of (popping min_epoch deferred) = deferred
deferred_of (returning deferred) = deferred
deferred_of r = []

-- What the epoch thread has found to be the least epoch cannot be later than `epoch`, once it has
-- looked at the thread's.
abbrev pub IsCautious : (thread epoch : ℕ) → Reclaimer → Type 0
IsCautious thread epoch (scanning min_epoch i) = thread < i → min_epoch ≤ epoch
IsCautious thread epoch (popping min_epoch deferred) = min_epoch ≤ epoch
IsCautious thread epoch r = Unit {0}

-- The thread is inside since `epoch`, and the node, if it is on its way to be freed, has been removed
-- since then.
pub record IsGuarded (count_threads thread epoch : ℕ) (node : Ptr) (s : System) : Type 0 where
  pub slot : s.epochs.local_epochs thread ≡ epoch
  pub past : epoch ≤ s.epochs.global_epoch
  pub queued : contains node s.epochs.garbage_queue ≡ true → epoch ≤ s.epochs.remove_epoch node
  pub pushed : (i : ℕ) → is_removing node (s.workers i) ≡ true → epoch ≤ s.epochs.remove_epoch node
  pub kept : contains node (deferred_of s.reclaimer) ≡ true → epoch ≤ s.epochs.remove_epoch node
  pub cautious : IsCautious thread epoch s.reclaimer
  pub unfreed : s.epochs.freed node ≡ false

module _ {count_threads thread epoch : ℕ} {node : Ptr} {s : System}
    (h : IsGuarded count_threads thread epoch node s) where
  open h use {slot, past, queued, pushed, kept, cautious, unfreed}

  reclaim-kept :
      {e : Epochs} {r r' : Reclaimer}
      → s.reclaimer ≡ r
      → ReclaimerMove count_threads s.epochs r e r'
      → contains node (deferred_of r') ≡ true
      → epoch ≤ e.remove_epoch node
  reclaim-kept here (defer {deferred = deferred} {garbage} {rest} q le) =
      ground (arith, kept, queued, q, here, contains-append node deferred (garbage ∷ []))
  reclaim-kept here mv = ground (arith, here, kept)

  reclaim-IsCautious :
      {e : Epochs} {r r' : Reclaimer}
      → s.reclaimer ≡ r
      → thread < count_threads
      → ReclaimerMove count_threads s.epochs r e r'
      → IsCautious thread epoch r'
  reclaim-IsCautious here lt scan_first = ground (arith, slot)
  reclaim-IsCautious here lt (scan_next {i = i} low) = λ below. elim (ℕ_discrete thread i) [
    | yes e ↦ omega (arith, slot, ap s.epochs.local_epochs e)
    | no ne ↦ ground (arith, here, cautious, below, ne)
  ]
  reclaim-IsCautious here lt (scan_done last) = ground (arith, here, lt, cautious, last)
  reclaim-IsCautious here lt mv = ground (arith, here, lt, cautious, slot)

  reclaim-queued :
      {e : Epochs} {r r' : Reclaimer}
      → s.reclaimer ≡ r
      → ReclaimerMove count_threads s.epochs r e r'
      → contains node e.garbage_queue ≡ true
      → epoch ≤ e.remove_epoch node
  reclaim-queued here (free q lt) = ground (arith, queued, q)
  reclaim-queued here (defer q lt) = ground (arith, queued, q)
  reclaim-queued here (push_deferred {deferred}) =
      ground (arith, here, queued, kept, contains-append node s.epochs.garbage_queue deferred)
  reclaim-queued here mv = queued

  reclaim-unfreed :
      {e : Epochs} {r r' : Reclaimer}
      → s.reclaimer ≡ r
      → ReclaimerMove count_threads s.epochs r e r'
      → e.freed node ≡ false
  reclaim-unfreed here (free q lt) = ground (arith, here, unfreed, cautious, queued, q, lt)
  reclaim-unfreed here mv = unfreed

  reclaim-pushed :
      {e : Epochs} {r r' : Reclaimer}
      → ReclaimerMove count_threads s.epochs r e r'
      → (i : ℕ) → is_removing node (s.workers i) ≡ true
      → epoch ≤ e.remove_epoch node
  reclaim-pushed tick = pushed
  reclaim-pushed mv = pushed

  pub reclaim-IsGuarded :
      {e : Epochs} {r : Reclaimer}
      → thread < count_threads
      → s.epochs.global_epoch + 1 < 2 ^ 32
      → ReclaimerMove count_threads s.epochs s.reclaimer e r
      → IsGuarded count_threads thread epoch node (record s { epochs = e; reclaimer = r })
  reclaim-IsGuarded lt small mv = record {
    slot = ap (λ f. f thread) (ReclaimerMove-locals count_threads mv) ∙ slot;
    past = omega (arith, past, ReclaimerMove-global count_threads small mv);
    queued = reclaim-queued refl mv;
    pushed = reclaim-pushed mv;
    kept = reclaim-kept refl mv;
    cautious = reclaim-IsCautious refl lt mv;
    unfreed = reclaim-unfreed refl mv;
  }

  work-queued :
      {i : ℕ} {e : Epochs} {w w' : Worker}
      → s.workers i ≡ w
      → WorkerMove i s.epochs w e w'
      → contains node e.garbage_queue ≡ true
      → epoch ≤ e.remove_epoch node
  work-queued {i} here (push {garbage}) =
      ground
        (arith, here, queued, pushed i, contains-append node s.epochs.garbage_queue (garbage ∷ []))
  work-queued here mv = ground (arith, here, queued, past)

  work-pushed :
      {i : ℕ} {e : Epochs} {w w' : Worker}
      → s.workers i ≡ w
      → WorkerMove i s.epochs w e w'
      → (j : ℕ) → is_removing node (update s.workers i w' j) ≡ true
      → epoch ≤ e.remove_epoch node
  work-pushed here (mark garbage was_inside) j = ground (arith, here, pushed j, past)
  work-pushed here mv j = ground (arith, here, pushed j)

  work-kept :
      {i : ℕ} {e : Epochs} {w w' : Worker}
      → s.workers i ≡ w
      → WorkerMove i s.epochs w e w'
      → contains node (deferred_of s.reclaimer) ≡ true
      → epoch ≤ e.remove_epoch node
  work-kept here (mark garbage was_inside) = ground (arith, here, kept, past)
  work-kept here mv = kept

  work-unfreed :
      {i : ℕ} {e : Epochs} {w w' : Worker} → WorkerMove i s.epochs w e w' → e.freed node ≡ false
  work-unfreed load = unfreed
  work-unfreed mv = unfreed

  -- A thread that is inside, and stays so, does not write its slot.
  own-slot :
      {i : ℕ} {e : Epochs} {w w' : Worker}
      → WorkerMove i s.epochs w e w'
      → is_inside w ≡ true
      → is_inside w' ≡ true
      → e.local_epochs thread ≡ s.epochs.local_epochs thread
  own-slot (mark garbage was_inside) was is = refl
  own-slot mv was is = ground (arith, was, is)

  pub work-IsGuarded :
      {i : ℕ} {e : Epochs} {w : Worker}
      → is_inside (s.workers thread) ≡ true
      → is_inside (update s.workers i w thread) ≡ true
      → WorkerMove i s.epochs (s.workers i) e w
      → IsGuarded count_threads thread epoch node
          (record s { epochs = e; workers = update s.workers i w })
  work-IsGuarded {i} {e} {w} was is mv = record {
    slot = elim (Bool-cases (thread == i)) [
      | inl own ↦ own-slot mv (ground (arith, own, was)) (ground (arith, own, is)) ∙ slot
      | inr other ↦ WorkerMove-other thread other mv ∙ slot
    ];
    past = omega (arith, past, WorkerMove-global mv);
    queued = work-queued refl mv;
    pushed = work-pushed refl mv;
    kept = work-kept refl mv;
    cautious = cautious;
    unfreed = work-unfreed mv;
  }
