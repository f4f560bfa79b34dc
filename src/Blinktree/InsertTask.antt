-- ===== src/Blinktree/InsertTask.antt =====
-- `InsertTask` of src/indices/blinktree/tbb/insert_task.h and insert_task.cpp, in the builds with TBB's
-- locks: an insertion as a task that visits one node in each execution, down to a leaf and up again by
-- the parent pointers. The assertion that the split node without a parent is the root is left out.
pub mod Parents
pub mod Splits
pub mod AtLeaf
pub mod AtInner
pub mod Climb
pub mod Inserts
mod Tests
use btree_benchmarks.Prelude.{ℕ, ◌==◌, Bool, true, false, not, ◌&&◌, ltb, leb, if◌then◌else◌}
use btree_benchmarks.Blinktree.Node.{
  Ptr, null, Key, Value, Layout, Node, index, child, is_full, insert_value, insert_separator,
}
use btree_benchmarks.Blinktree.Tree.{Tree, create_new_root, split_leaf_node, split_inner_node}
use btree_benchmarks.Blinktree.Latched.{
  Latch, Command, read_node, write_node, lock_node_shared, unlock_node_shared, upgrade_lock,
  unlock_node,
}
use btree_benchmarks.Blinktree.Latched.Running.{Outcome, done, blocked, ◌>>=◌, ◌>>◌, pure}
use btree_benchmarks.Blinktree.Tasks.{task_loop}

-- The members of the task that `execute` changes; `locked` is the tree's `_lock`, which only new
-- roots take.
pub record InsertState : Type 0 where
  pub separator_key : Key
  pub separator : Ptr
  pub locked : Bool

abbrev pub is_for_leaf : InsertState → Bool
is_for_leaf state = state.separator == null

abbrev pub new_insert_state : InsertState
new_insert_state = record { separator_key = 0; separator = null; locked = false }

module _ (b : Latch) where
  -- `lock()`, `create_new_root` and `unlock()`.
  unfoldable pub lock_and_create_new_root :
      (node : Ptr) (state : InsertState) → Command b (Ptr × InsertState)
  lock_and_create_new_root node state t =
      if state.locked
      then blocked
      else done (null, state) (create_new_root b.fresh node state.separator state.separator_key t)

  -- The end of both insertions after a split of `node`.
  unfoldable pub climb : (node : Ptr) (state : InsertState) → Command b (Ptr × InsertState)
  unfolding lock_and_create_new_root
  climb node state = do
    n ← read_node b node
    elim (n.parent == null) [
      | true ↦ lock_and_create_new_root node state
      | false ↦ pure (n.parent, state)
    ]

module _ (b : Latch) (l : Layout) where
  unfoldable pub insert_into_leaf_node :
      (node : Ptr) (key : Key) (value : Value) (state : InsertState) → Command b (Ptr × InsertState)
  unfolding climb
  insert_into_leaf_node node key value state = do
    n ← read_node b node
    let i = index n key
    if ltb i n.size && n.keys i == key
        then pure (null, state)
        else if not (is_full l n)
        then (do write_node b node (insert_value n i value key); pure (null, state))
        else λ t.
            let (right, t') = split_leaf_node l b.fresh node key value t in
            climb b node
              (record state { separator = right; separator_key = (t'.nodes right).keys 0 }) t'

  unfoldable pub insert_into_inner_node :
      (node : Ptr) (key : Key) (separator : Ptr) (state : InsertState)
      → Command b (Ptr × InsertState)
  unfolding climb
  insert_into_inner_node node key separator state = do
    n ← read_node b node
    if not (is_full l n)
        then (do
          write_node b node (insert_separator n (index n key) separator key)
          m ← read_node b separator
          write_node b separator (record m { parent = node })
          pure (null, state))
        else λ t.
            let (right, key_up, t') = split_inner_node l b.fresh node key separator t in
            climb b node (record state { separator = right; separator_key = key_up }) t'

  -- The two insertions, under the latch of the node as a writer.
  unfoldable pub insert_at_node :
      (key : Key) (value : Value) (node : Ptr) (state : InsertState) → Command b (Ptr × InsertState)
  unfolding insert_into_leaf_node insert_into_inner_node
  insert_at_node key value node state = do
    upgrade_lock b node
    next ←
        if is_for_leaf state
        then insert_into_leaf_node node key value state
        else insert_into_inner_node node state.separator_key state.separator state
    unlock_node b node
    pure next

  -- `InsertTask::execute`.
  unfoldable pub insert_execute :
      (key : Key) (value : Value) (node : Ptr) (state : InsertState) → Command b (Ptr × InsertState)
  unfolding insert_at_node
  insert_execute key value node state = do
    lock_node_shared b node
    n ← read_node b node
    elim (leb n.high_key key) [
      | true ↦ do unlock_node_shared b node; pure (n.right_sibling, state)
      | false ↦ elim (is_for_leaf state && not n.is_leaf) [
        | true ↦ do unlock_node_shared b node; pure (child n key, state)
        | false ↦ insert_at_node key value node state
      ]
    ]

  -- An `InsertTask`, from the root.
  unfoldable pub insert_task : (fuel : ℕ) (key : Key) (value : Value) → Command b InsertState
  unfolding insert_execute
  insert_task fuel key value t =
      task_loop b fuel (insert_execute key value) t.root new_insert_state t
