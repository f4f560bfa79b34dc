-- ===== src/Blinktree/Latched/Step.antt =====
-- What an insertion into one node of src/indices/blinktree/thread/latched/thread_tree.cpp leaves
-- behind: the tree, and the node that its parent does not know yet.
use btree_benchmarks.Prelude.{
  ℕ, suc, ◌+◌, ◌≤◌, ◌<◌, ◌≡◌, ◌≢◌, ◌⊎◌, ◌↔◌, ◌-◌, ◌==◌, refl, sym, ◌∙◌, ap, subst, false, arith, [],
  ◌∷◌, ℕ_discrete,
}
use btree_benchmarks.Blinktree.Node.{Ptr, null, Key, Value, max_key, Layout, Node}
use btree_benchmarks.Blinktree.NodePath.{NodePath}
use btree_benchmarks.Blinktree.Tree.{Tree, IsAllocated}
use btree_benchmarks.Blinktree.Tree.Shape.{Shape, IsAt, IsTree, Grows, split_shape}
use btree_benchmarks.Blinktree.Tree.Parents.{SameButParent}
use btree_benchmarks.Blinktree.Tree.Contents.{Contains}
use btree_benchmarks.Blinktree.Latched.{Latch}
use btree_benchmarks.Blinktree.Latched.Latches.{LatchLaws}
use btree_benchmarks.Blinktree.Latched.Commands.{IsHeld}
use btree_benchmarks.Blinktree.Latched.Path.{IsPath, at_root, below}

-- `up.0` took over the keys from `up.1` on from a node at `level` that begins at `low`, and is the
-- child of no node yet.
pub record Pending {L : Type 0} (s : Shape) (t : Tree L) (level : ℕ) (low : Key) (up : Ptr × Key)
    : Type 0 where
  pub new_at : IsAt s t.next up.0 level up.1
  pub unlinked :
      (p : Ptr)
      → IsAllocated t p
      → (t.nodes p).is_leaf ≡ false
      → (i : ℕ) → i ≤ (t.nodes p).size
      → (t.nodes p).separators i ≢ up.0
  pub above : low < up.1
  pub below_max : up.1 < max_key

-- Nothing is left to insert, or the new node is.
abbrev pub IsUp : {L : Type 0} → Shape → Tree L → (level : ℕ) (low : Key) → Ptr × Key → Type 0
IsUp s t level low up = (up.0 ≡ null) ⊎ Pending s t level low up

-- A change that keeps the addresses, the levels and the lower ends.
pub record Changes {L : Type 0} (l : Layout) (s : Shape) (t : Tree L) (s' : Shape) (t' : Tree L)
    : Type 0 where
  pub tree : IsTree l s' t'
  pub grows : Grows s s' t.next
  pub more : t.next ≤ t'.next
  pub same_root : t'.root ≡ t.root

abbrev pub SameEntries : {L : Type 0} → (t t' : Tree L) → Type 0
SameEntries t t' = (k : Key) (v : Value) → Contains t' k v ↔ Contains t k v

pub split_shape-Grows :
    (s : Shape) (p next : Ptr) (sep : Key) → Grows s (split_shape s p next sep) next
split_shape-Grows s p next sep = record {
  same_level = λ q h. ground arith;
  same_low = λ q h. ground arith;
}

pub Grows-refl : (s : Shape) (next : Ptr) → Grows s s next
Grows-refl s next = record { same_level = λ q h. refl; same_low = λ q h. refl }

-- The path is still one, and the node below it began no further left.
pub IsPath-grow :
    {s s' : Shape} {next next' root : Ptr} (path : NodePath) (level : ℕ) (low : Key)
    → Grows s s' next
    → next ≤ next'
    → root < next
    → IsPath s next root level low path
    → IsPath s' next' root level low path
IsPath-grow {root} [] level low grows more old (at_root e) = at_root (grows.same_level root old ∙ e)
IsPath-grow {s} {s'} {next} {next'} {root} (q ∷ path) level low grows more old (below at rest) =
    let e = grows.same_low q at.below_next in
    below
      (record {
        not_null = at.not_null;
        below_next = omega (arith, at.below_next);
        at_level = grows.same_level q at.below_next ∙ at.at_level;
        begins = omega (arith, at.begins);
      })
      (rw e (IsPath-grow path (suc level) (s.low q) grows more old rest))

module _ (b : Latch) (laws : LatchLaws b) (t t' : Tree b.State) {p : Ptr} where
  open b use {State as L}
  open laws use {IsFree}

  -- The new node's latch is fresh, the others are as they were.
  pub IsHeld-split :
      (P : L → Type 0)
      → IsAllocated t p
      → t'.next ≡ t.next + 1
      → ((q : Ptr) → q ≢ t.next → t'.latches q ≡ t.latches q)
      → t'.latches t.next ≡ b.fresh
      → IsHeld b laws P p t.next t.latches
      → IsHeld b laws P p t'.next t'.latches
  IsHeld-split P at one_more latches new_latch was = record {
    held = rw (latches p (omega arith)) was.held;
    others_free = λ q other above below'. elim (ℕ_discrete q t.next) [
      | yes e ↦ rw (e, new_latch) laws.fresh_free
      | no old ↦ rw (latches q old) (was.others_free q other above (omega arith))
    ];
  }

-- No node has the new node of a split as a child: one above it kept the children that it had.
pub split-unlinked :
    {L : Type 0} {l : Layout} {s : Shape} {q : Ptr} (sep : Key) (t t' : Tree L)
    → IsTree l s t
    → IsTree l (split_shape s q t.next sep) t'
    → IsAllocated t q
    → t'.next ≡ t.next + 1
    → ((p : Ptr) → p ≢ q → p ≢ t.next → SameButParent (t.nodes p) (t'.nodes p))
    → (p : Ptr) → IsAllocated t' p
    → (t'.nodes p).is_leaf ≡ false
    → (i : ℕ) → i ≤ (t'.nodes p).size
    → (t'.nodes p).separators i ≢ t.next
split-unlinked {s} {q} sep t t' tree tree' at one_more others p a inner i inside e =
    let fits' = tree'.nodes_fit p a in
    let child' = fits'.children inner i inside in
    let kind : false ≡ ((split_shape s q t.next sep).level p == 0) = sym inner ∙ fits'.kind in
    let same_level : s.level q ≡ (split_shape s q t.next sep).level p - 1 =
      ground (arith, child'.at_level, e) in
    let other : p ≢ q = λ e'. ground (arith, kind, same_level, e') in
    let old : p ≢ t.next = λ e'. ground (arith, kind, same_level, e') in
    let kept = others p other old in
    let child =
      (tree.nodes_fit p (a.0, omega arith)).children
        (sym (ap (λ (n : Node). n.is_leaf) kept) ∙ inner) i
        (subst (λ k. i ≤ k) (ap (λ (n : Node). n.size) kept) inside) in
    let same : (t'.nodes p).separators i ≡ (t.nodes p).separators i =
      ap (λ (n : Node). n.separators i) kept in
    omega (arith, child.below_next)
