-- ===== src/Blinktree/Sample.antt =====
-- A tree of one leaf, for the tests of the trees of src/indices/blinktree.
use btree_benchmarks.Prelude.{◌+◌, ◌*◌, refl, true, arith, ltb, if◌then◌else◌}
use btree_benchmarks.Blinktree.Node.{null, Value, max_key, Layout, leaf_key, Node}
use btree_benchmarks.Blinktree.Tree.{Tree}
use btree_benchmarks.Blinktree.Tree.Shape.{IsRoomy, IsTree}
use btree_benchmarks.Blinktree.Tree.NewTree.{leaf_shape}
use btree_benchmarks.Blinktree.Tree.Contents.{Contains}
use btree_benchmarks.Blinktree.Latched.Find.{NoStaleKey}

abbrev pub layout : Layout
layout = record { header_size = 40; garbage_size = 0 }

pub layout-IsRoomy : IsRoomy layout
layout-IsRoomy = record { room = omega arith }

-- The keys 0, 10 and 20 with the values 7, 8 and 9.
abbrev pub leaf : Node
leaf = record {
  is_leaf = true;
  high_key = max_key;
  right_sibling = null;
  parent = null;
  size = 3;
  keys = λ i. if ltb i 3 then 10 * i else 0;
  values = λ i. i + 7;
  separators = λ i. null;
}

abbrev pub one_leaf : {L : Type 0} → (fresh : L) → Tree L
one_leaf fresh = record { nodes = λ p. leaf; latches = λ p. fresh; next = 2; root = 1; height = 1 }

pub one_leaf-IsTree : {L : Type 0} (fresh : L) → IsTree layout leaf_shape (one_leaf fresh)
one_leaf-IsTree fresh = record {
  nodes_fit = λ p h. record {
    kind = refl;
    within = omega arith;
    sorted = λ i j q r. ground arith;
    keys_in = λ i q. ground arith;
    inner_keys_in = λ e. cc e;
    range = omega arith;
    capped = omega arith;
    ends = refl;
    rightmost = λ e. refl;
    linked = λ e. absurd (e refl);
    children = λ e. cc e;
  };
  apart = λ p q hp hq d e. absurd (omega arith);
  root_at = (omega arith, omega arith);
  root_low = refl;
  height_root = refl;
  top = λ p h. omega arith;
  some_node = omega arith;
}

pub one_leaf-Contains : {L : Type 0} (fresh : L) → Contains (one_leaf fresh) 10 8
one_leaf-Contains fresh = (1, (omega arith, omega arith), refl, (1, omega arith, refl, refl))

pub lacks_15 : {L : Type 0} (fresh : L) → ¬ ((v : Value) × Contains (one_leaf fresh) 15 v)
lacks_15 fresh (v, (p, a, is_leaf, (i, below, e, e'))) = ground arith

pub no_stale_15 : {L : Type 0} (fresh : L) → NoStaleKey layout (one_leaf fresh) 15
unfolding leaf_key
no_stale_15 fresh p a is_leaf e = ground arith
