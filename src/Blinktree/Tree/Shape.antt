-- ===== src/Blinktree/Tree/Shape.antt =====
-- The shape of a B-link tree (src/indices/blinktree/tree.h): the level of each node and the range
-- of keys that it is responsible for, what that demands of the node, and what the tree keeps.
-- Between the split of a node and the insertion into its parent these hold too.
use btree_benchmarks.Prelude.{
  ℕ, ◌+◌, ◌-◌, ◌≤◌, ◌<◌, ◌≡◌, ◌≢◌, ◌⊎◌, ◌∙◌, sym, false, arith, ◌==◌, if◌then◌else◌, ℕ_discrete,
  ==_iff, ne→==, refl,
}
use btree_benchmarks.Prelude.Memory.{update}
use btree_benchmarks.Blinktree.Node.{Ptr, null, Key, max_key, Layout, max_keys, max_items, Node}
use btree_benchmarks.Blinktree.Node.Search.{IsSorted}
use btree_benchmarks.Blinktree.Tree.{Tree, IsAllocated, set_node}

-- A leaf is at level 0. The node is responsible for the keys from `low` up to below `high`.
pub record Shape : Type 0 where
  pub level : Ptr → ℕ
  pub low : Ptr → Key
  pub high : Ptr → Key

-- Header and garbage leave at least half of a node for the arrays.
pub record IsRoomy (l : Layout) : Type 0 where
  pub room : l.header_size + l.garbage_size ≤ 504

abbrev pub capacity : Layout → Node → ℕ
capacity l n = if n.is_leaf then max_items l else max_keys l

pub record IsAt (s : Shape) (next : Ptr) (q : Ptr) (level : ℕ) (low : Key) : Type 0 where
  pub not_null : 0 < q
  pub below_next : q < next
  pub at_level : s.level q ≡ level
  pub at_low : s.low q ≡ low

-- Where the range of child `i` begins.
abbrev pub child_low : Shape → Ptr → Node → ℕ → Key
child_low s p n i = if i == 0 then s.low p else n.keys (i - 1)

pub record NodeFits (l : Layout) (s : Shape) (next : Ptr) (p : Ptr) (n : Node) : Type 0 where
  pub kind : n.is_leaf ≡ (s.level p == 0)
  pub within : n.size ≤ capacity l n
  pub sorted : IsSorted n.keys n.size
  pub keys_in : (i : ℕ) → i < n.size → (s.low p ≤ n.keys i) × (n.keys i < s.high p)
  pub inner_keys_in : n.is_leaf ≡ false → (i : ℕ) → i < n.size → s.low p < n.keys i
  pub range : s.low p < s.high p
  pub capped : s.high p ≤ max_key
  pub ends : n.high_key ≡ s.high p
  pub rightmost : n.right_sibling ≡ null → s.high p ≡ max_key
  pub linked : n.right_sibling ≢ null → IsAt s next n.right_sibling (s.level p) (s.high p)
  pub children :
      n.is_leaf ≡ false
      → (i : ℕ) → i ≤ n.size
      → IsAt s next (n.separators i) (s.level p - 1) (child_low s p n i)

abbrev pub Apart : Shape → Ptr → Ptr → Type 0
Apart s p q = (s.high p ≤ s.low q) ⊎ (s.high q ≤ s.low p)

module _ {L : Type 0} where
  pub record IsTree (l : Layout) (s : Shape) (t : Tree L) : Type 0 where
    pub nodes_fit : (p : Ptr) → IsAllocated t p → NodeFits l s t.next p (t.nodes p)
    pub apart :
        (p q : Ptr)
        → IsAllocated t p
        → IsAllocated t q
        → p ≢ q
        → s.level p ≡ s.level q
        → Apart s p q
    pub root_at : IsAllocated t t.root
    pub root_low : s.low t.root ≡ 0
    pub height_root : t.height ≡ s.level t.root + 1
    pub top : (p : Ptr) → IsAllocated t p → s.level p ≤ s.level t.root
    pub some_node : 0 < t.next

-- The parent pointer plays no part.
pub NodeFits-parent :
    {l : Layout} {s : Shape} {next p : Ptr} {n : Node} (parent : Ptr)
    → NodeFits l s next p n
    → NodeFits l s next p (record n { parent = parent })
NodeFits-parent parent f = record {
  kind = f.kind;
  within = f.within;
  sorted = f.sorted;
  keys_in = f.keys_in;
  inner_keys_in = f.inner_keys_in;
  range = f.range;
  capped = f.capped;
  ends = f.ends;
  rightmost = f.rightmost;
  linked = f.linked;
  children = f.children;
}

-- The shape after a split of `p` at `sep`, with the new node at `new`.
abbrev pub split_shape : Shape → (p new : Ptr) (sep : Key) → Shape
split_shape s p new sep = record {
  level = update s.level new (s.level p);
  low = update s.low new sep;
  high = update (update s.high p sep) new (s.high p);
}

pub IsAt-cong :
    {s : Shape} {next q : Ptr} {level level' : ℕ} {low low' : Key}
    → IsAt s next q level low
    → level ≡ level'
    → low ≡ low'
    → IsAt s next q level' low'
IsAt-cong at e f = record {
  not_null = at.not_null;
  below_next = at.below_next;
  at_level = at.at_level ∙ e;
  at_low = at.at_low ∙ f;
}

-- A larger shape, in which the addresses below `next` keep their levels and the lower ends.
pub record Grows (s s' : Shape) (next : Ptr) : Type 0 where
  pub same_level : (q : Ptr) → q < next → s'.level q ≡ s.level q
  pub same_low : (q : Ptr) → q < next → s'.low q ≡ s.low q

module _ {s s' : Shape} {next : Ptr} (grows : Grows s s' next) where
  pub IsAt-grow :
      {q : Ptr} {level : ℕ} {low : Key} → IsAt s next q level low → IsAt s' (next + 1) q level low
  IsAt-grow {q} at = record {
    not_null = at.not_null;
    below_next = omega (arith, at.below_next);
    at_level = grows.same_level q at.below_next ∙ at.at_level;
    at_low = grows.same_low q at.below_next ∙ at.at_low;
  }

  -- A node that keeps its upper end fits as before.
  pub NodeFits-grow :
      {l : Layout} (q : Ptr) {n : Node}
      → q < next
      → s'.high q ≡ s.high q
      → NodeFits l s next q n
      → NodeFits l s' (next + 1) q n
  NodeFits-grow q old high f = record {
    kind = ground (arith, f.kind, level);
    within = f.within;
    sorted = f.sorted;
    keys_in = λ i h. ground (arith, f.keys_in i h, low);
    inner_keys_in = λ e i h. ground (arith, f.inner_keys_in e i h, low);
    range = ground (arith, f.range, low);
    capped = ground (arith, f.capped);
    ends = ground (arith, f.ends);
    rightmost = λ e. ground (arith, f.rightmost e);
    linked = λ e. IsAt-cong (IsAt-grow (f.linked e)) (sym level) (sym high);
    children = λ e i h.
        IsAt-cong (IsAt-grow (f.children e i h)) (ground (arith, level)) (ground (arith, low));
  }
    where
      level : s'.level q ≡ s.level q
      level = grows.same_level q old

      low : s'.low q ≡ s.low q
      low = grows.same_low q old

module _ {s : Shape} (p new : Ptr) (sep : Key) where
  split_shape-Grows : Grows s (split_shape s p new sep) new
  split_shape-Grows = record { same_level = λ q h. ground arith; same_low = λ q h. ground arith }

  pub IsAt-split :
      {q : Ptr} {level : ℕ} {low : Key}
      → IsAt s new q level low
      → IsAt (split_shape s p new sep) (new + 1) q level low
  IsAt-split = IsAt-grow split_shape-Grows

  pub NodeFits-split :
      {l : Layout} (q : Ptr) {n : Node}
      → q ≢ p
      → q < new
      → NodeFits l s new q n
      → NodeFits l (split_shape s p new sep) (new + 1) q n
  NodeFits-split q other old = NodeFits-grow split_shape-Grows q old (ground arith)

-- The nodes of a tree after a split: two of them given anew, the others the same but for their
-- parent pointers.
module _ {L : Type 0} {l : Layout} {s : Shape} {t t' : Tree L} {p : Ptr} {sep : Key} where
  pub split-IsTree :
      IsTree l s t
      → IsAllocated t p
      → s.low p < sep
      → sep < s.high p
      → t'.next ≡ t.next + 1
      → t'.root ≡ t.root
      → t'.height ≡ t.height
      → NodeFits l (split_shape s p t.next sep) (t.next + 1) p (t'.nodes p)
      → NodeFits l (split_shape s p t.next sep) (t.next + 1) t.next (t'.nodes t.next)
      → ((q : Ptr)
          → q ≢ p
          → q ≢ t.next
          → t'.nodes q ≡ record (t.nodes q) { parent = (t'.nodes q).parent })
      → IsTree l (split_shape s p t.next sep) t'
  split-IsTree tree at above below e_next e_root e_height left right others = record {
    nodes_fit = nodes_fit;
    apart = λ q r hq hr d e. ground (arith, tree.apart q r, tree.apart p r, tree.apart q p);
    root_at = ground (arith, tree.root_at);
    root_low = ground (arith, tree.root_at, tree.root_low);
    height_root = ground (arith, tree.root_at, tree.height_root);
    top = λ q h. ground (arith, tree.root_at, tree.top q, tree.top p);
    some_node = ground (arith, tree.some_node);
  }
    where
      nodes_fit :
          (q : Ptr)
          → IsAllocated t' q
          → NodeFits l (split_shape s p t.next sep) t'.next q (t'.nodes q)
      nodes_fit q h = rw e_next (elim (ℕ_discrete q p) [
        | yes e ↦ rw e left
        | no other ↦ elim (ℕ_discrete q t.next) [
          | yes e ↦ rw e right
          | no old ↦ rw (others q other old) (
              NodeFits-parent _ (
                NodeFits-split p t.next sep q other (omega arith)
                  (tree.nodes_fit q (h.0, omega arith))))
        ]
      ])

-- A node given anew in the same shape.
module _ {L : Type 0} {l : Layout} {s : Shape} {t : Tree L} {p : Ptr} {n : Node} where
  pub set_node-IsTree : IsTree l s t → NodeFits l s t.next p n → IsTree l s (set_node t p n)
  set_node-IsTree tree fits = record {
    nodes_fit = nodes_fit;
    apart = tree.apart;
    root_at = tree.root_at;
    root_low = tree.root_low;
    height_root = tree.height_root;
    top = tree.top;
    some_node = tree.some_node;
  }
    where
      nodes_fit : (q : Ptr) → IsAllocated t q → NodeFits l s t.next q (update t.nodes p n q)
      nodes_fit q h = elim (ℕ_discrete q p) [
        | yes e ↦ rw (e, (==_iff p p).1 refl) fits
        | no other ↦ rw (ne→== q p other) (tree.nodes_fit q h)
      ]
