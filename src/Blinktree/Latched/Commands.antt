-- ===== src/Blinktree/Latched/Commands.antt =====
-- The calls of src/indices/blinktree/thread/latched/thread_tree.h on a latch, where one node at most
-- is latched.
use btree_benchmarks.Prelude.{
  ◌<◌, ◌≡◌, ◌≢◌, refl, false, arith, ◌==◌, ne→==, ==_iff, inl, inr, Bool-cases,
}
use btree_benchmarks.Prelude.Memory.{update}
use btree_benchmarks.Blinktree.Node.{Ptr, Node, Layout}
use btree_benchmarks.Blinktree.Tree.{Tree, IsAllocated, set_node}
use btree_benchmarks.Blinktree.Tree.Shape.{Shape, IsTree}
use btree_benchmarks.Blinktree.Latched.{
  Latch, read_node, write_node, latch_with, lock_node_shared, unlock_node_shared, upgrade_lock,
  unlock_node,
}
use btree_benchmarks.Blinktree.Latched.Running.{Outcome, done, and_then, Ends, ends}
use btree_benchmarks.Blinktree.Latched.Latches.{LatchLaws}

-- The run returns, has changed no more of `t` than latches, and its result and the latches satisfy
-- `P`.
pub data LatchesOnly {L A : Type 0} (t : Tree L) (P : A → (Ptr → L) → Type 0)
    : Outcome (Tree L) A → Type 0 where
  latches_only : {a : A} {m : Ptr → L} → P a m → LatchesOnly t P (done a (record t { latches = m }))

module _ {L A B : Type 0} {t : Tree L} {P : A → (Ptr → L) → Type 0} where
  pub latches-bind :
      {Q : B → (Ptr → L) → Type 0} {r : Outcome (Tree L) A} (k : A → Tree L → Outcome (Tree L) B)
      → LatchesOnly t P r
      → ((a : A) (m : Ptr → L) → P a m → LatchesOnly t Q (k a (record t { latches = m })))
      → LatchesOnly t Q (and_then r k)
  latches-bind k (latches_only p) next = next _ _ p

  pub latches-Ends :
      {Q : B → Tree L → Type 0} {r : Outcome (Tree L) A} (k : A → Tree L → Outcome (Tree L) B)
      → LatchesOnly t P r
      → ((a : A) (m : Ptr → L) → P a m → Ends Q (k a (record t { latches = m })))
      → Ends Q (and_then r k)
  latches-Ends k (latches_only p) next = next _ _ p

module _ {L A : Type 0} {t : Tree L} {P : A → (Ptr → L) → Type 0} where
  pub latches-weaken :
      {Q : A → Tree L → Type 0} {r : Outcome (Tree L) A}
      → LatchesOnly t P r
      → ((a : A) (m : Ptr → L) → P a m → Q a (record t { latches = m }))
      → Ends Q r
  latches-weaken (latches_only p) weaken = ends (weaken _ _ p)

-- The latches play no part in the shape.
pub IsTree-latches :
    {L : Type 0} {l : Layout} {s : Shape} {t : Tree L} (m : Ptr → L)
    → IsTree l s t
    → IsTree l s (record t { latches = m })
IsTree-latches m tree = record {
  nodes_fit = tree.nodes_fit;
  apart = tree.apart;
  root_at = tree.root_at;
  root_low = tree.root_low;
  height_root = tree.height_root;
  top = tree.top;
  some_node = tree.some_node;
}

module _ (b : Latch) (laws : LatchLaws b) where
  open b use {State as L}
  open laws use {IsFree, IsShared, IsExclusive}

  pub record IsHeld (P : L → Type 0) (p next : Ptr) (m : Ptr → L) : Type 0 where
    pub held : P (m p)
    pub others_free : (q : Ptr) → q ≢ p → 0 < q → q < next → IsFree (m q)

  abbrev pub AllFree : (next : Ptr) (m : Ptr → L) → Type 0
  AllFree next m = (q : Ptr) → 0 < q → q < next → IsFree (m q)

  update_here : (P : L → Type 0) (m : Ptr → L) (p : Ptr) {x : L} → P x → P (update m p x p)
  update_here P m p h = rw ((==_iff p p).1 refl) h

  update_others :
      (P : L → Type 0) (m : Ptr → L) (p : Ptr) (x : L) (q : Ptr)
      → q ≢ p
      → P (m q)
      → P (update m p x q)
  update_others P m p x q other h = rw (ne→== q p other) h

  hold :
      (P : L → Type 0) (m : Ptr → L) {p next : Ptr} {x : L}
      → P x
      → ((q : Ptr) → q ≢ p → 0 < q → q < next → IsFree (m q))
      → IsHeld P p next (update m p x)
  hold P m {p} {x} h free = record {
    held = update_here P m p h;
    others_free =
        λ q other above below. update_others IsFree m p x q other (free q other above below);
  }

  release :
      (P : L → Type 0) (m : Ptr → L) {p next : Ptr} {x : L}
      → IsFree x
      → IsHeld P p next m
      → AllFree next (update m p x)
  release P m {p} {x} h was q above below = elim (Bool-cases (q == p)) [
    | inl same ↦ rw same h
    | inr other ↦ rw other (was.others_free q (λ e. cc (other, (==_iff q p).1 e)) above below)
  ]

  module _ (t : Tree L) (m : Ptr → L) (p : Ptr) (at : IsAllocated t p) where
    with_latches : Tree L
    with_latches = record t { latches = m }

    some_node : (p == 0) ≡ false
    some_node = ne→== p 0 (omega (arith, at))

    read_node-done :
        read_node b p (record t { latches = m }) ≡ done (t.nodes p) (record t { latches = m })
    unfolding read_node
    read_node-done = rw some_node

    pub read-latches :
        {A : Type 0} {Q : A → (Ptr → L) → Type 0} (k : Node → Tree L → Outcome (Tree L) A)
        → LatchesOnly t Q (k (t.nodes p) (record t { latches = m }))
        → LatchesOnly t Q (and_then (read_node b p (record t { latches = m })) k)
    read-latches k h = rw read_node-done h

    pub read-Ends :
        {A : Type 0} {Q : A → Tree L → Type 0} (k : Node → Tree L → Outcome (Tree L) A)
        → Ends Q (k (t.nodes p) (record t { latches = m }))
        → Ends Q (and_then (read_node b p (record t { latches = m })) k)
    read-Ends k h = rw read_node-done h

    write_node-done :
        (n : Node)
        → write_node b p n (record t { latches = m })
          ≡ done tt (set_node (record t { latches = m }) p n)
    unfolding write_node
    write_node-done n = rw some_node

    pub write-Ends :
        {A : Type 0} {Q : A → Tree L → Type 0} (n : Node)
        (k : Unit {0} → Tree L → Outcome (Tree L) A)
        → Ends Q (k tt (set_node (record t { latches = m }) p n))
        → Ends Q (and_then (write_node b p n (record t { latches = m })) k)
    write-Ends n k h = rw (write_node-done n) h

    pub lock_node_shared-Holds :
        AllFree t.next m
        → LatchesOnly t
            (λ _ m'. IsHeld IsShared p t.next m')
            (lock_node_shared b p (record t { latches = m }))
    unfolding lock_node_shared latch_with
    lock_node_shared-Holds free =
        let (y, e, h) = laws.lock_shared_lem (m p) (free p at.0 at.1) in
        rw some_node
          (rw e (latches_only (hold IsShared m h (λ q other above below. free q above below))))

    pub unlock_node_shared-Frees :
        IsHeld IsShared p t.next m
        → LatchesOnly t
            (λ _ m'. AllFree t.next m')
            (unlock_node_shared b p (record t { latches = m }))
    unfolding unlock_node_shared latch_with
    unlock_node_shared-Frees held =
        rw some_node
          (latches_only (release IsShared m (laws.unlock_shared_lem (m p) held.held) held))

    pub upgrade_lock-Holds :
        IsHeld IsShared p t.next m
        → LatchesOnly t
            (λ _ m'. IsHeld IsExclusive p t.next m')
            (upgrade_lock b p (record t { latches = m }))
    unfolding upgrade_lock latch_with
    upgrade_lock-Holds held =
        let (y, e, h) = laws.lock_upgrade_lem (m p) held.held in
        rw some_node (rw e (latches_only (hold IsExclusive m h held.others_free)))

    pub unlock_node-Frees :
        IsHeld IsExclusive p t.next m
        → LatchesOnly t (λ _ m'. AllFree t.next m') (unlock_node b p (record t { latches = m }))
    unfolding unlock_node latch_with
    unlock_node-Frees held =
        rw some_node (latches_only (release IsExclusive m (laws.unlock_lem (m p) held.held) held))
