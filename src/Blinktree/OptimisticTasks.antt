-- ===== src/Blinktree/OptimisticTasks.antt =====
-- The tasks of src/indices/blinktree/tbb in the optimistic build, run by themselves: lookup_task.cpp,
-- update_task.cpp and insert_task.cpp with `blinktree_tbb_olfit`, and optimistic_node_base.h. A node
-- is read without a latch, and its version is checked behind. `rounds` bounds the loops that retry. The
-- `EpochGuard` of each execution does not touch the tree and is left out.
pub mod Visits
pub mod Lookup
pub mod Update
pub mod Insert
mod Tests
use btree_benchmarks.Prelude.{
  ℕ, zero, suc, ◌==◌, Bool, true, false, not, ◌&&◌, Option, none, some, leb, if◌then◌else◌,
}
use btree_benchmarks.Prelude.Memory.{update}
use btree_benchmarks.Blinktree.Node.{Ptr, null, Key, Value, Layout, Node, leaf_key, index, child}
use btree_benchmarks.Blinktree.Latched.{read_node, write_node, lock_node_shared, unlock_node}
use btree_benchmarks.Blinktree.Latched.Running.{Outcome, no_fuel, ◌>>=◌, ◌>>◌, pure}
use btree_benchmarks.Blinktree.Optimistic.{Command, read_version, is_valid_node}
use btree_benchmarks.Blinktree.Optimistic.Latch.{optimistic}
use btree_benchmarks.Blinktree.Tasks.{task_loop}
use btree_benchmarks.Blinktree.InsertTask.{
  InsertState, is_for_leaf, new_insert_state, insert_into_leaf_node, insert_into_inner_node,
}

-- The end of the loop's body in `LookupTask::execute`, with the next round.
unfoldable pub read_value :
    (l : Layout) (key : Key) (node : Ptr) (version : ℕ) (value : Value)
    (again : Value → Command (Ptr × Value))
    → Command (Ptr × Value)
read_value l key node version value again = do
  n ← read_node optimistic node
  let found = if leaf_key l n (index n key) == key then n.values (index n key) else value
  valid ← is_valid_node node version
  elim valid [ true ↦ pure (null, found) | false ↦ again found ]

-- `LookupTask::execute`; where a check fails, the code goes on to read a value.
unfoldable pub lookup_execute :
    (l : Layout) (rounds : ℕ) (key : Key) (node : Ptr) (value : Value) → Command (Ptr × Value)
unfolding read_value
lookup_execute l zero key node value = λ t. no_fuel
lookup_execute l (suc rounds) key node value = do
  version ← read_version node
  n ← read_node optimistic node
  elim (leb n.high_key key) [
    | true ↦ do
      valid ← is_valid_node node version
      elim valid [
        | true ↦ pure (n.right_sibling, value)
        | false ↦ read_value l key node version value (lookup_execute l rounds key node)
      ]
    | false ↦ elim n.is_leaf [
      | false ↦ do
        valid ← is_valid_node node version
        elim valid [
          | true ↦ pure (child n key, value)
          | false ↦ read_value l key node version value (lookup_execute l rounds key node)
        ]
      | true ↦ read_value l key node version value (lookup_execute l rounds key node)
    ]
  ]

unfoldable pub lookup_task : (l : Layout) (fuel rounds : ℕ) (key : Key) → Command Value
unfolding lookup_execute
lookup_task l fuel rounds key t = task_loop optimistic fuel (lookup_execute l rounds key) t.root 0 t

-- The loop of `UpdateTask::execute` and `InsertTask::execute`: the next node, or `none` after the
-- `break`. `down` is true in an update, and `is_for_leaf()` in an insertion.
unfoldable pub visit_loop :
    (rounds : ℕ) (key : Key) (down : Bool) (node : Ptr) → Command (Option Ptr)
visit_loop zero key down node = λ t. no_fuel
visit_loop (suc rounds) key down node = do
  version ← read_version node
  n ← read_node optimistic node
  valid ← is_valid_node node version
  elim valid [
    | false ↦ visit_loop rounds key down node
    | true ↦ elim (leb n.high_key key) [
      | true ↦ pure (some n.right_sibling)
      | false ↦ elim (down && not n.is_leaf) [
        | true ↦ pure (some (child n key))
        | false ↦ pure none
      ]
    ]
  ]

-- `UpdateTask::execute` behind the loop.
unfoldable pub write_value :
    (l : Layout) (key : Key) (new_value : Value) (node : Ptr) → Command (Ptr × Unit {0})
write_value l key new_value node = do
  lock_node_shared optimistic node
  n ← read_node optimistic node
  (if leaf_key l n (index n key) == key
      then write_node optimistic node
          (record n { values = update n.values (index n key) new_value })
      else pure tt)
  unlock_node optimistic node
  pure (null, tt)

-- `UpdateTask::execute`.
unfoldable pub update_execute :
    (l : Layout) (rounds : ℕ) (key : Key) (new_value : Value) (node : Ptr) (state : Unit {0})
    → Command (Ptr × Unit {0})
unfolding visit_loop write_value
update_execute l rounds key new_value node state = do
  next ← visit_loop rounds key true node
  elim next [ some p ↦ pure (p, tt) | none ↦ write_value l key new_value node ]

unfoldable pub update_task :
    (l : Layout) (fuel rounds : ℕ) (key : Key) (new_value : Value) → Command (Unit {0})
unfolding update_execute
update_task l fuel rounds key new_value t =
    task_loop optimistic fuel (update_execute l rounds key new_value) t.root tt t

module _ (l : Layout) where
  -- `InsertTask::execute` behind the loop.
  unfoldable pub insert_at_node :
      (key : Key) (value : Value) (node : Ptr) (state : InsertState) → Command (Ptr × InsertState)
  insert_at_node key value node state = do
    lock_node_shared optimistic node
    n ← read_node optimistic node
    next ←
        if n.is_leaf
        then insert_into_leaf_node optimistic l node key value state
        else insert_into_inner_node optimistic l node state.separator_key state.separator state
    unlock_node optimistic node
    pure next

  -- `InsertTask::execute`.
  unfoldable pub insert_execute :
      (rounds : ℕ) (key : Key) (value : Value) (node : Ptr) (state : InsertState)
      → Command (Ptr × InsertState)
  unfolding visit_loop insert_at_node
  insert_execute rounds key value node state = do
    next ← visit_loop rounds key (is_for_leaf state) node
    elim next [ some p ↦ pure (p, state) | none ↦ insert_at_node key value node state ]

  unfoldable pub insert_task : (fuel rounds : ℕ) (key : Key) (value : Value) → Command InsertState
  unfolding insert_execute
  insert_task fuel rounds key value t =
      task_loop optimistic fuel (insert_execute rounds key value) t.root new_insert_state t
