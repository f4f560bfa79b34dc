-- ===== src/Blinktree/Optimistic/Reads.antt =====
-- What src/indices/blinktree/thread/optimistic/thread_tree.cpp reads while no node is locked.
use btree_benchmarks.Prelude.{ℕ, ◌≡◌, refl, true, false, arith, ◌==◌, ne→==, ==_iff}
use btree_benchmarks.Blinktree.Node.{Ptr, Node}
use btree_benchmarks.Blinktree.Tree.{Tree, IsAllocated}
use btree_benchmarks.Blinktree.Latched.{read_node}
use btree_benchmarks.Blinktree.Latched.Running.{Outcome, done, and_then, Ends}
use btree_benchmarks.Blinktree.Latched.Commands.{LatchesOnly, AllFree}
use btree_benchmarks.Blinktree.Optimistic.{read_version, is_valid_node}
use btree_benchmarks.Blinktree.Optimistic.Latch.{optimistic, optimistic-LatchLaws}

-- The run returns with a result that satisfies `P`, and changes nothing.
pub data Reads {A : Type 0} (t : Tree ℕ) (P : A → Type 0) : Outcome (Tree ℕ) A → Type 0 where
  reads : {a : A} → P a → Reads t P (done a t)

module _ {A B : Type 0} {t : Tree ℕ} {P : A → Type 0} where
  pub Reads-bind :
      {Q : B → Type 0} {r : Outcome (Tree ℕ) A} (k : A → Tree ℕ → Outcome (Tree ℕ) B)
      → Reads t P r
      → ((a : A) → P a → Reads t Q (k a t))
      → Reads t Q (and_then r k)
  Reads-bind k (reads p) next = next _ p

  pub Reads-Ends :
      {Q : B → Tree ℕ → Type 0} {r : Outcome (Tree ℕ) A} (k : A → Tree ℕ → Outcome (Tree ℕ) B)
      → Reads t P r
      → ((a : A) → P a → Ends Q (k a t))
      → Ends Q (and_then r k)
  Reads-Ends k (reads p) next = next _ p

  pub Reads-latches :
      {Q : B → (Ptr → ℕ) → Type 0} {r : Outcome (Tree ℕ) A} (k : A → Tree ℕ → Outcome (Tree ℕ) B)
      → Reads t P r
      → ((a : A) → P a → LatchesOnly t Q (k a t))
      → LatchesOnly t Q (and_then r k)
  Reads-latches k (reads p) next = next _ p

abbrev pub IsUnlocked : Tree ℕ → Type 0
IsUnlocked t = AllFree optimistic optimistic-LatchLaws t.next t.latches

module _ (t : Tree ℕ) (p : Ptr) (at : IsAllocated t p) where
  some_node : (p == 0) ≡ false
  some_node = ne→== p 0 (omega (arith, at))

  pub node_lem : read_node optimistic p t ≡ done (t.nodes p) t
  unfolding read_node
  node_lem = rw some_node

  pub version_lem : IsUnlocked t → read_version p t ≡ done (t.latches p) t
  unfolding read_version
  version_lem free = rw some_node (ground (arith, free p at.0 at.1))

  pub valid_lem : is_valid_node p (t.latches p) t ≡ done true t
  unfolding is_valid_node
  valid_lem = rw (some_node, (==_iff (t.latches p) (t.latches p)).1 refl)

  pub node-Reads :
      {B : Type 0} {Q : B → Type 0} (k : Node → Tree ℕ → Outcome (Tree ℕ) B)
      → Reads t Q (k (t.nodes p) t)
      → Reads t Q (and_then (read_node optimistic p t) k)
  node-Reads k h = rw node_lem h
