-- ===== src/Blinktree/Optimistic.antt =====
-- src/indices/blinktree/thread/optimistic: the tree whose readers take no latch but check that the
-- version of a node has not changed, run by one thread. `rounds` bounds the outer loops, `fuel` the
-- descent, `steps` each walk to the right. The `EpochGuard` of each call, which keeps nodes from being
-- freed (EpochManager), does not touch the tree and is left out.
pub mod Latch
pub mod Reads
pub mod Descent
pub mod Leaf
pub mod Find
pub mod Update
pub mod Insert
mod Tests
use btree_benchmarks.Prelude.{
  ℕ, zero, suc, ◌==◌, Bool, true, false, not, ◌&&◌, Option, none, some, [], leb, if◌then◌else◌,
}
use btree_benchmarks.Prelude.Memory.{update}
use btree_benchmarks.Blinktree.Node.{Ptr, null, Key, Value, Layout, leaf_key, index, child}
use btree_benchmarks.Blinktree.Tree.{Tree, create_new_root}
use btree_benchmarks.Blinktree.NodePath.{NodePath}
use btree_benchmarks.Blinktree.OptimisticLock.{is_locked}
use btree_benchmarks.Blinktree.Latched
use btree_benchmarks.Blinktree.Latched.{
  ThreadTree, insert_root, read_node, write_node, lock_node_shared, unlock_node, push_node,
}
use btree_benchmarks.Blinktree.Latched.Running.{
  Outcome, done, null_access, path_overflow, blocked, no_fuel, ◌>>=◌, ◌>>◌, pure,
}
use Latch.{optimistic}

abbrev pub Command : Type 0 → Type 0
Command A = Tree ℕ → Outcome (Tree ℕ) A

-- `p->header().version()`, which waits while the node is locked.
unfoldable pub read_version : Ptr → Command ℕ
read_version p t =
    if p == null
    then null_access
    else if is_locked (t.latches p)
    then blocked
    else done (t.latches p) t

-- `p->header().is_valid(version)`.
unfoldable pub is_valid_node : Ptr → (version : ℕ) → Command Bool
is_valid_node p version t = if p == null then null_access else done (version == t.latches p) t

-- The body of the loop of `locate_leaf`, up to the next version: the next node, and the path.
unfoldable pub descend_step :
    (current : Ptr) (version : ℕ) (key : Key) → Option NodePath → Command (Ptr × Option NodePath)
descend_step current version key path = do
  n ← read_node optimistic current
  let next = child n key
  valid ← is_valid_node current version
  elim valid [
    | true ↦ do
      path' ← if next == n.right_sibling then pure path else push_node optimistic path current
      pure (next, path')
    | false ↦ pure (current, path)
  ]

-- The loop `while (current->is_inner())`.
unfoldable pub descend :
    (fuel : ℕ) (current : Ptr) (version : ℕ) (key : Key)
    → Option NodePath
    → Command (Ptr × Option NodePath)
unfolding descend_step
descend zero current version key path = λ t. no_fuel
descend (suc fuel) current version key path = do
  n ← read_node optimistic current
  elim n.is_leaf [
    | true ↦ pure (current, path)
    | false ↦ do
      (next, path') ← descend_step current version key path
      version' ← read_version next
      descend fuel next version' key path'
  ]

unfoldable pub locate_leaf :
    (fuel : ℕ) (key : Key) → Option NodePath → Command (Ptr × Option NodePath)
unfolding descend
locate_leaf fuel key path t =
    (do version ← read_version t.root; descend fuel t.root version key path) t

-- The loop `while (key >= leaf->high_key() && leaf->right_sibling())`.
unfoldable pub walk_leaf : (steps : ℕ) (leaf : Ptr) (version : ℕ) (key : Key) → Command (Ptr × ℕ)
walk_leaf zero leaf version key = λ t. no_fuel
walk_leaf (suc steps) leaf version key = do
  n ← read_node optimistic leaf
  elim (leb n.high_key key && not (n.right_sibling == null)) [
    | true ↦ do
      valid ← is_valid_node leaf version
      let next = if valid then n.right_sibling else leaf
      version' ← read_version next
      walk_leaf steps next version' key
    | false ↦ pure (leaf, version)
  ]

-- The loop of `find`.
unfoldable pub find_loop : (l : Layout) (rounds steps : ℕ) (leaf : Ptr) (key : Key) → Command Value
unfolding walk_leaf
find_loop l zero steps leaf key = λ t. no_fuel
find_loop l (suc rounds) steps leaf key = do
  version ← read_version leaf
  (leaf', version') ← walk_leaf steps leaf version key
  n ← read_node optimistic leaf'
  let i = index n key
  valid ← is_valid_node leaf' version'
  elim valid [
    | true ↦ pure (if leaf_key l n i == key then n.values i else 0)
    | false ↦ find_loop l rounds steps leaf' key
  ]

unfoldable pub find : (l : Layout) (rounds fuel steps : ℕ) (key : Key) → Command Value
unfolding find_loop locate_leaf
find l rounds fuel steps key = do
  (leaf, _) ← locate_leaf fuel key none
  find_loop l rounds steps leaf key

-- The loop of `update`.
unfoldable pub update_loop :
    (l : Layout) (rounds steps : ℕ) (leaf : Ptr) (key : Key) (value : Value) → Command (Unit {0})
unfolding walk_leaf
update_loop l zero steps leaf key value = λ t. no_fuel
update_loop l (suc rounds) steps leaf key value = do
  version ← read_version leaf
  (leaf', version') ← walk_leaf steps leaf version key
  valid ← is_valid_node leaf' version'
  elim valid [
    | true ↦ do
      lock_node_shared optimistic leaf'
      n ← read_node optimistic leaf'
      let i = index n key
      if leaf_key l n i == key
          then (do
            write_node optimistic leaf' (record n { values = update n.values i value })
            unlock_node optimistic leaf')
          else unlock_node optimistic leaf'
    | false ↦ update_loop l rounds steps leaf' key value
  ]

unfoldable pub update_value :
    (l : Layout) (rounds fuel steps : ℕ) (key : Key) (value : Value) → Command (Unit {0})
unfolding update_loop locate_leaf
update_value l rounds fuel steps key value = do
  (leaf, _) ← locate_leaf fuel key (some [])
  update_loop l rounds steps leaf key value

module _ (l : Layout) where
  -- These three have the text of the latched tree's; to acquire a node is to lock its version.
  unfoldable pub insert_into_leaf : (leaf : Ptr) (key : Key) (value : Value) → Command (Ptr × Key)
  insert_into_leaf = Latched.insert_into_leaf optimistic l

  unfoldable pub insert_into_inner :
      (inner : Ptr) (key : Key) (separator : Ptr) → Command (Ptr × Key)
  insert_into_inner = Latched.insert_into_inner optimistic l

  unfoldable pub propagate : (steps : ℕ) (up : Ptr × Key) → NodePath → Command (Ptr × Key)
  propagate = Latched.propagate optimistic l

  -- The loop of `insert`, up to the new root.
  unfoldable pub insert_loop :
      (rounds steps : ℕ) (leaf : Ptr) (path : NodePath) (key : Key) (value : Value)
      → Command (Ptr × Key)
  unfolding walk_leaf insert_into_leaf propagate
  insert_loop zero steps leaf path key value = λ t. no_fuel
  insert_loop (suc rounds) steps leaf path key value = do
    version ← read_version leaf
    valid ← is_valid_node leaf version
    elim valid [
      | true ↦ do
        (leaf', version') ← walk_leaf steps leaf version key
        lock_node_shared optimistic leaf'
        up ← insert_into_leaf leaf' key value
        unlock_node optimistic leaf'
        propagate steps up path
      | false ↦ insert_loop rounds steps leaf path key value
    ]

  unfoldable pub insert_below :
      (rounds fuel steps : ℕ) (key : Key) (value : Value) → Command (Ptr × Key)
  unfolding insert_loop locate_leaf
  insert_below rounds fuel steps key value = do
    (leaf, path) ← locate_leaf fuel key (some [])
    insert_loop rounds steps leaf (elim path [ none ↦ [] | some p ↦ p ]) key value

  -- The end of `insert`: `_lock` guards the new root.
  unfoldable pub insert :
      (rounds fuel steps : ℕ) (key : Key) (value : Value)
      → ThreadTree ℕ
      → Outcome (ThreadTree ℕ) (Unit {0})
  unfolding insert_below
  insert rounds fuel steps key value s =
      insert_root optimistic l s (insert_below rounds fuel steps key value s.tree)
