-- ===== src/Blinktree/Latched/Path.antt =====
-- Where a descent of src/indices/blinktree/thread stands, and the path that it keeps.
use btree_benchmarks.Prelude.{
  ℕ, suc, ◌+◌, ◌-◌, ◌≤◌, ◌<◌, ◌≡◌, Bool, false, Option, none, some, [], ◌∷◌, arith, length,
}
use btree_benchmarks.Blinktree.Node.{Ptr, Key, Layout, child}
use btree_benchmarks.Blinktree.Node.Search.{child-IsUpperBound}
use btree_benchmarks.Blinktree.NodePath.{NodePath}
use btree_benchmarks.Blinktree.Tree.{Tree}
use btree_benchmarks.Blinktree.Tree.Shape.{Shape, IsTree}

-- The node at `q` is at `level` and begins at or before `key`.
pub record StartsBefore (s : Shape) (next : Ptr) (level : ℕ) (key : Key) (q : Ptr) : Type 0 where
  pub not_null : 0 < q
  pub below_next : q < next
  pub at_level : s.level q ≡ level
  pub begins : s.low q ≤ key

-- The node at `q` is at `level` and responsible for `key`.
pub record Covers (s : Shape) (next : Ptr) (level : ℕ) (key : Key) (q : Ptr) : Type 0 where
  pub starts : StartsBefore s next level key q
  pub ends_behind : key < s.high q

-- The path from the root down to above `level`, each of its nodes beginning at or before those
-- below it, and the last one at or before `low`.
pub data IsPath (s : Shape) (next root : Ptr) : (level : ℕ) (low : Key) → NodePath → Type 0 where
  at_root : {level : ℕ} {low : Key} → s.level root ≡ level → IsPath s next root level low []
  below :
      {level : ℕ} {low : Key} {q : Ptr} {path : NodePath}
      → StartsBefore s next (suc level) low q
      → IsPath s next root (suc level) (s.low q) path
      → IsPath s next root level low (q ∷ path)

pub StartsBefore-raise :
    {s : Shape} {next : Ptr} {level : ℕ} {q : Ptr} (low low' : Key)
    → low ≤ low'
    → StartsBefore s next level low q
    → StartsBefore s next level low' q
StartsBefore-raise low low' h at = record {
  not_null = at.not_null;
  below_next = at.below_next;
  at_level = at.at_level;
  begins = omega (arith, at.begins);
}

pub IsPath-raise :
    {s : Shape} {next root : Ptr} {level : ℕ} {path : NodePath} (low low' : Key)
    → low ≤ low'
    → IsPath s next root level low path
    → IsPath s next root level low' path
IsPath-raise low low' h (at_root e) = at_root e
IsPath-raise low low' h (below at path) = below (StartsBefore-raise low low' h at) path

pub IsPath-length :
    {s : Shape} {next root : Ptr} (path : NodePath) (level : ℕ) (low : Key)
    → IsPath s next root level low path
    → length path + level ≡ s.level root
IsPath-length [] level low (at_root e) = omega arith
IsPath-length {s} (q ∷ path) level low (below at rest) =
    let e = IsPath-length path (suc level) (s.low q) rest in omega arith

-- The path, if the caller wants one.
abbrev pub IsOptionalPath :
    (wanted : Bool) → Shape → (next root : Ptr) (level : ℕ) (low : Key) → Option NodePath → Type 0
IsOptionalPath wanted s next root level low none = wanted ≡ false
IsOptionalPath wanted s next root level low (some path) = IsPath s next root level low path

pub raise_optional :
    (s : Shape) (next root : Ptr) (wanted : Bool) (level : ℕ) (low low' : Key)
    (path : Option NodePath)
    → low ≤ low'
    → IsOptionalPath wanted s next root level low path
    → IsOptionalPath wanted s next root level low' path
raise_optional s next root wanted level low low' none h is_path = is_path
raise_optional s next root wanted level low low' (some path) h is_path =
    IsPath-raise low low' h is_path

-- A child begins between its parent's begin and the key.
pub child-StartsBefore :
    {L : Type 0} {l : Layout} {s : Shape} {t : Tree L} (tree : IsTree l s t) (key : Key) (level : ℕ)
    (q : Ptr)
    → StartsBefore s t.next (suc level) key q
    → StartsBefore s t.next level key (child (t.nodes q) key)
      × (s.low q ≤ s.low (child (t.nodes q) key))
child-StartsBefore {s = s} {t} tree key level q starts =
    let fits = tree.nodes_fit q (starts.not_null, starts.below_next) in
    let inner : (t.nodes q).is_leaf ≡ false = ground (arith, fits.kind, starts.at_level) in
    let (r, bound, e) =
      child-IsUpperBound (t.nodes q) key fits.sorted (ground (arith, fits.within)) in
    let at = fits.children inner r bound.inside in
    rw e (
      record {
        not_null = at.not_null;
        below_next = at.below_next;
        at_level = omega (arith, at.at_level, starts.at_level);
        begins = ground (arith, at.at_low, starts.begins, bound.below (r - 1));
      },
      ground (arith, at.at_low, bound.inside, fits.keys_in (r - 1)),
    )
