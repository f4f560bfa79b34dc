-- ===== src/Blinktree/Latched.antt =====
-- src/indices/blinktree/thread/latched/thread_tree.h and thread_tree.cpp: the tree for threads that
-- latch nodes, run by one thread. The latch is a parameter: `Latches` has the spinlock and the
-- reader-writer lock of the two builds. A loop takes fuel; `steps` bounds each walk to the right.
pub mod Running
pub mod Latches
pub mod Commands
pub mod Path
pub mod Descent
pub mod Find
pub mod Update
pub mod Step
pub mod LeafStep
pub mod InnerStep
pub mod Propagate
pub mod Insert
mod Tests
use btree_benchmarks.Prelude.{
  ℕ, zero, suc, ◌==◌, Bool, true, false, not, ◌&&◌, Option, none, some, List, [], ◌∷◌, leb, ltb,
  if◌then◌else◌,
}
use btree_benchmarks.Prelude.Memory.{update}
use btree_benchmarks.Blinktree.Node.{
  Ptr, null, Key, Value, Layout, Node, is_full, leaf_key, index, child, insert_value,
  insert_separator,
}
use btree_benchmarks.Blinktree.Tree.{
  Tree, set_node, split_leaf_node, split_inner_node, create_new_root,
}
use btree_benchmarks.Blinktree.NodePath.{NodePath, push, pop, is_empty}
use Running.{Outcome, done, null_access, path_overflow, blocked, no_fuel, ◌>>=◌, ◌>>◌, pure}

-- The latch of a node as the tree uses it. `none` stands for a call that waits for ever when no
-- other thread runs.
pub record Latch : Type 1 where
  pub State : Type 0
  pub fresh : State
  pub lock_shared : State → Option State
  pub unlock_shared : State → State
  pub lock_upgrade : State → Option State
  pub unlock : State → State

-- `_lock`, a util::Spinlock, is the flag `locked`.
pub record ThreadTree (L : Type 0) : Type 0 where
  pub tree : Tree L
  pub locked : Bool

module _ (b : Latch) where
  open b use {State as L, fresh, lock_shared, unlock_shared, lock_upgrade, unlock}

  abbrev pub Command : Type 0 → Type 0
  Command A = Tree L → Outcome (Tree L) A

  abbrev pub set_latch : Ptr → L → Tree L → Tree L
  set_latch p x t = record t { latches = update t.latches p x }

  -- `*p`.
  unfoldable pub read_node : Ptr → Command Node
  read_node p t = if p == null then null_access else done (t.nodes p) t

  unfoldable pub write_node : Ptr → Node → Command (Unit {0})
  write_node p n t = if p == null then null_access else done tt (set_node t p n)

  unfoldable pub latch_with : (L → Option L) → Ptr → Command (Unit {0})
  latch_with f p t =
      if p == null
      then null_access
      else elim (f (t.latches p)) [ none ↦ blocked | some x ↦ done tt (set_latch p x t) ]

  -- `lock<true>(p)`, `unlock<true>(p)`, `upgrade_lock(p)` and `unlock<false>(p)`.
  unfoldable pub lock_node_shared : Ptr → Command (Unit {0})
  unfolding latch_with
  lock_node_shared = latch_with lock_shared

  unfoldable pub unlock_node_shared : Ptr → Command (Unit {0})
  unfolding latch_with
  unlock_node_shared = latch_with (λ x. some (unlock_shared x))

  unfoldable pub upgrade_lock : Ptr → Command (Unit {0})
  unfolding latch_with
  upgrade_lock = latch_with lock_upgrade

  unfoldable pub unlock_node : Ptr → Command (Unit {0})
  unfolding latch_with
  unlock_node = latch_with (λ x. some (unlock x))

  -- The loop `while (node->high_key() <= key)`, which hands the latch over to the right sibling.
  unfoldable pub walk_right : (fuel : ℕ) (node : Ptr) (key : Key) → Command Ptr
  walk_right zero node key = λ t. no_fuel
  walk_right (suc fuel) node key = do
    n ← read_node node
    elim (leb n.high_key key) [
      | true ↦ do
        unlock_node_shared node
        lock_node_shared n.right_sibling
        walk_right fuel n.right_sibling key
      | false ↦ pure node
    ]

  -- `node_path->push(node)`, if the caller wants the path.
  unfoldable pub push_node : Option NodePath → Ptr → Command (Option NodePath)
  push_node none node = pure none
  push_node (some path) node = elim (push path node) [
    | none ↦ λ t. path_overflow
    | some path' ↦ pure (some path')
  ]

  -- The loop `while (current_node->is_inner())`.
  unfoldable pub descend :
      (fuel steps : ℕ) (node : Ptr) (key : Key) → Option NodePath → Command (Ptr × Option NodePath)
  descend zero steps node key path = λ t. no_fuel
  descend (suc fuel) steps node key path = do
    n ← read_node node
    elim n.is_leaf [
      | true ↦ pure (node, path)
      | false ↦ do
        lock_node_shared node
        current ← walk_right steps node key
        path' ← push_node path current
        m ← read_node current
        unlock_node_shared current
        descend fuel steps (child m key) key path'
    ]

  unfoldable pub locate_leaf :
      (fuel steps : ℕ) (key : Key) → Option NodePath → Command (Ptr × Option NodePath)
  unfolding descend walk_right push_node
  locate_leaf fuel steps key path t =
      (do
        (node, path') ← descend fuel steps t.root key path
        lock_node_shared node
        leaf ← walk_right steps node key
        pure (leaf, path'))
        t

  unfoldable pub find : (l : Layout) (fuel steps : ℕ) (key : Key) → Command Value
  unfolding locate_leaf
  find l fuel steps key = do
    (leaf, _) ← locate_leaf fuel steps key none
    n ← read_node leaf
    let i = index n key
    unlock_node_shared leaf
    pure (if leaf_key l n i == key then n.values i else 0)

  unfoldable pub update_value :
      (l : Layout) (fuel steps : ℕ) (key : Key) (value : Value) → Command (Unit {0})
  unfolding locate_leaf
  update_value l fuel steps key value = do
    (leaf, _) ← locate_leaf fuel steps key (some [])
    n ← read_node leaf
    let i = index n key
    if leaf_key l n i == key
        then (do
          upgrade_lock leaf
          write_node leaf (record n { values = update n.values i value })
          unlock_node leaf)
        else unlock_node_shared leaf

  module _ (l : Layout) where
    -- The new node and the key to insert into the parent; the null pointer if there is none.
    unfoldable pub insert_into_leaf : (leaf : Ptr) (key : Key) (value : Value) → Command (Ptr × Key)
    insert_into_leaf leaf key value = do
      n ← read_node leaf
      let i = index n key
      if ltb i n.size && n.keys i == key
          then pure (null, 0)
          else if not (is_full l n)
          then (do write_node leaf (insert_value n i value key); pure (null, 0))
          else λ t.
              let (right, t') = split_leaf_node l fresh leaf key value t in
              done (right, (t'.nodes right).keys 0) t'

    unfoldable pub insert_into_inner :
        (inner : Ptr) (key : Key) (separator : Ptr) → Command (Ptr × Key)
    insert_into_inner inner key separator = do
      n ← read_node inner
      if not (is_full l n)
          then (do
            write_node inner (insert_separator n (index n key) separator key)
            pure (null, 0))
          else λ t.
              let (right, key_up, t') = split_inner_node l fresh inner key separator t in
              done (right, key_up) t'

    -- The loop `while (up.first && path.is_empty() == false)`.
    unfoldable pub propagate : (steps : ℕ) (up : Ptr × Key) → NodePath → Command (Ptr × Key)
    unfolding walk_right
    propagate steps (node, key) [] = pure (node, key)
    propagate steps (node, key) (q ∷ path) = elim (node == null) [
      | true ↦ pure (node, key)
      | false ↦ do
        lock_node_shared q
        parent ← walk_right steps q key
        upgrade_lock parent
        up ← insert_into_inner parent key node
        unlock_node parent
        propagate steps up path
    ]

    -- `insert` up to the new root.
    unfoldable pub insert_below : (fuel steps : ℕ) (key : Key) (value : Value) → Command (Ptr × Key)
    unfolding locate_leaf
    insert_below fuel steps key value = do
      (leaf, path) ← locate_leaf fuel steps key (some [])
      upgrade_lock leaf
      up ← insert_into_leaf leaf key value
      unlock_node leaf
      propagate steps up (elim path [ none ↦ [] | some p ↦ p ])

    -- The end of `insert`: `_lock` guards the new root.
    unfoldable pub insert_root :
        ThreadTree L → Outcome (Tree L) (Ptr × Key) → Outcome (ThreadTree L) (Unit {0})
    insert_root s (done (node, up_key) t) =
        if node == null
        then done tt (record s { tree = t })
        else if s.locked
        then blocked
        else done tt (record { tree = create_new_root fresh t.root node up_key t; locked = false })
    insert_root s null_access = null_access
    insert_root s path_overflow = path_overflow
    insert_root s blocked = blocked
    insert_root s no_fuel = no_fuel

    unfoldable pub insert :
        (fuel steps : ℕ) (key : Key) (value : Value)
        → ThreadTree L
        → Outcome (ThreadTree L) (Unit {0})
    unfolding insert_root
    insert fuel steps key value s = insert_root s (insert_below fuel steps key value s.tree)
