-- ===== src/Blinktree/Tasks.antt =====
-- src/indices/blinktree/tbb: lookups and updates as tasks that are executed once for each node that
-- they visit, in the builds with TBB's locks, run by one thread. TBB's locks are a parameter, the
-- latch: `scoped_lock` latches a node until `execute` returns, and `upgrade_to_writer` upgrades.
pub mod Run
pub mod Lookup
pub mod Update
mod Tests
use btree_benchmarks.Prelude.{ℕ, zero, suc, ◌==◌, true, false, leb, if◌then◌else◌}
use btree_benchmarks.Prelude.Memory.{update}
use btree_benchmarks.Blinktree.Node.{Ptr, null, Key, Value, Node, Layout, leaf_key, index, child}
use btree_benchmarks.Blinktree.Tree.{Tree}
use btree_benchmarks.Blinktree.Latched.{
  Latch, Command, read_node, write_node, lock_node_shared, unlock_node_shared, upgrade_lock,
  unlock_node,
}
use btree_benchmarks.Blinktree.Latched.Running.{Outcome, done, no_fuel, ◌>>=◌, ◌>>◌, pure}

module _ (b : Latch) where
  -- `NodeTask::execute`, again and again as TBB does with a task that is recycled: `execute` gives
  -- the next node, or null, and the task's own state.
  unfoldable pub task_loop :
      {S : Type 0}
      → (fuel : ℕ) (execute : Ptr → S → Command b (Ptr × S)) (node : Ptr) (state : S) → Command b S
  task_loop zero execute node state = λ t. no_fuel
  task_loop (suc fuel) execute node state = do
    (next, state') ← execute node state
    elim (next == null) [ true ↦ pure state' | false ↦ task_loop fuel execute next state' ]

  -- `LookupTask::execute`; the state is `_value`.
  unfoldable pub lookup_execute :
      (l : Layout) (key : Key) (node : Ptr) (value : Value) → Command b (Ptr × Value)
  lookup_execute l key node value = do
    lock_node_shared b node
    n ← read_node b node
    elim (leb n.high_key key) [
      | true ↦ do unlock_node_shared b node; pure (n.right_sibling, value)
      | false ↦ elim n.is_leaf [
        | false ↦ do unlock_node_shared b node; pure (child n key, value)
        | true ↦ do
          unlock_node_shared b node
          pure (null, if leaf_key l n (index n key) == key then n.values (index n key) else value)
      ]
    ]

  -- A `LookupTask`, from the root.
  unfoldable pub lookup_task : (l : Layout) (fuel : ℕ) (key : Key) → Command b Value
  unfolding task_loop lookup_execute
  lookup_task l fuel key t = task_loop fuel (lookup_execute l key) t.root 0 t

  -- The end of `UpdateTask::execute`, at the leaf.
  unfoldable pub write_value :
      (l : Layout) (key : Key) (new_value : Value) (node : Ptr) (n : Node)
      → Command b (Ptr × Unit {0})
  write_value l key new_value node n = do
    upgrade_lock b node
    (if leaf_key l n (index n key) == key
        then write_node b node (record n { values = update n.values (index n key) new_value })
        else pure tt)
    unlock_node b node
    pure (null, tt)

  -- `UpdateTask::execute`.
  unfoldable pub update_execute :
      (l : Layout) (key : Key) (new_value : Value) (node : Ptr) (state : Unit {0})
      → Command b (Ptr × Unit {0})
  update_execute l key new_value node state = do
    lock_node_shared b node
    n ← read_node b node
    elim (leb n.high_key key) [
      | true ↦ do unlock_node_shared b node; pure (n.right_sibling, tt)
      | false ↦ elim n.is_leaf [
        | false ↦ do unlock_node_shared b node; pure (child n key, tt)
        | true ↦ write_value l key new_value node n
      ]
    ]

  -- An `UpdateTask`, from the root.
  unfoldable pub update_task :
      (l : Layout) (fuel : ℕ) (key : Key) (new_value : Value) → Command b (Unit {0})
  unfolding task_loop update_execute
  update_task l fuel key new_value t = task_loop fuel (update_execute l key new_value) t.root tt t
