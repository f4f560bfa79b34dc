-- ===== src/Blinktree/Tree/Contents.antt =====
-- The entries of a tree as a relation between keys and values, and what a change of a leaf and a
-- split of one (src/indices/blinktree/tree.cpp) do to it.
use btree_benchmarks.Prelude.{
  ◌+◌, ◌≤◌, ◌≡◌, ◌≢◌, ◌↔◌, ◌⊎◌, inl, inr, true, arith, sym, ◌∙◌, ℕ_discrete, subst,
}
use btree_benchmarks.Blinktree.Node.{Ptr, Key, Value, Node}
use btree_benchmarks.Blinktree.Node.Contents.{Holds}
use btree_benchmarks.Blinktree.Tree.{Tree, IsAllocated}

abbrev pub NodeHolds : Node → Key → Value → Type 0
NodeHolds n = Holds n.keys n.values n.size

-- Some leaf of the tree holds the entry. Which leaf is forgotten.
abbrev pub Contains : {L : Type 0} → Tree L → Key → Value → Type 0
Contains t k v =
    (p : Ptr) × IsAllocated t p × ((t.nodes p).is_leaf ≡ true) × NodeHolds (t.nodes p) k v

-- `E` says which entries come in.
abbrev pub Gains : {L : Type 0} → (E : Key → Value → Type 0) (t t' : Tree L) → Type 0
Gains E t t' = (k : Key) (v : Value) → Contains t' k v ↔ (E k v ⊎ Contains t k v)

module _ {L : Type 0} (t t' : Tree L) {p : Ptr} {E : Key → Value → Type 0} (at : IsAllocated t p)
    (leaf : (t.nodes p).is_leaf ≡ true) where
  -- The leaf at `p` gains entries, the other nodes hold what they held.
  pub gain-Gains :
      t'.next ≡ t.next
      → (t'.nodes p).is_leaf ≡ true
      → ((k : Key) (v : Value) → NodeHolds (t'.nodes p) k v ↔ (E k v ⊎ NodeHolds (t.nodes p) k v))
      → ((q : Ptr) → q ≢ p → t'.nodes q ≡ t.nodes q)
      → Gains E t t'
  gain-Gains e_next leaf' gain others k v = (there, back)
    where
      keep : E k v ⊎ NodeHolds (t.nodes p) k v → E k v ⊎ Contains t k v
      keep (inl e) = inl e
      keep (inr h) = inr (p, at, leaf, h)

      there : Contains t' k v → E k v ⊎ Contains t k v
      there (q, a, b, h) = elim (ℕ_discrete q p) [
        | yes e ↦ keep ((gain k v).0 (subst (λ x. NodeHolds (t'.nodes x) k v) e h))
        | no other ↦ inr (
          q,
          (a.0, omega arith),
          subst (λ n. n.is_leaf ≡ true) (others q other) b,
          subst (λ n. NodeHolds n k v) (others q other) h,
        )
      ]

      back : E k v ⊎ Contains t k v → Contains t' k v
      back (inl e) = (p, (at.0, omega arith), leaf', (gain k v).1 (inl e))
      back (inr (q, a, b, h)) = elim (ℕ_discrete q p) [
        | yes e ↦ (
          p,
          (at.0, omega arith),
          leaf',
          (gain k v).1 (inr (subst (λ x. NodeHolds (t.nodes x) k v) e h)),
        )
        | no other ↦ (
          q,
          (a.0, omega arith),
          subst (λ n. n.is_leaf ≡ true) (sym (others q other)) b,
          subst (λ n. NodeHolds n k v) (sym (others q other)) h,
        )
      ]

  -- The leaf at `p` becomes two, at `p` and at `next`.
  pub split-Gains :
      t'.next ≡ t.next + 1
      → (t'.nodes p).is_leaf ≡ true
      → (t'.nodes t.next).is_leaf ≡ true
      → ((k : Key) (v : Value)
          → (NodeHolds (t'.nodes p) k v ⊎ NodeHolds (t'.nodes t.next) k v)
            ↔ (E k v ⊎ NodeHolds (t.nodes p) k v))
      → ((q : Ptr) → q ≢ p → q ≢ t.next → t'.nodes q ≡ t.nodes q)
      → Gains E t t'
  split-Gains e_next left right gain others k v = (there, back)
    where
      keep : E k v ⊎ NodeHolds (t.nodes p) k v → E k v ⊎ Contains t k v
      keep (inl e) = inl e
      keep (inr h) = inr (p, at, leaf, h)

      there : Contains t' k v → E k v ⊎ Contains t k v
      there (q, a, b, h) = elim (ℕ_discrete q p) [
        | yes e ↦ keep ((gain k v).0 (inl (subst (λ x. NodeHolds (t'.nodes x) k v) e h)))
        | no other ↦ elim (ℕ_discrete q t.next) [
          | yes e ↦ keep ((gain k v).0 (inr (subst (λ x. NodeHolds (t'.nodes x) k v) e h)))
          | no old ↦ inr (
            q,
            (a.0, omega arith),
            subst (λ n. n.is_leaf ≡ true) (others q other old) b,
            subst (λ n. NodeHolds n k v) (others q other old) h,
          )
        ]
      ]

      place : NodeHolds (t'.nodes p) k v ⊎ NodeHolds (t'.nodes t.next) k v → Contains t' k v
      place (inl h) = (p, (at.0, omega arith), left, h)
      place (inr h) = (t.next, (omega arith, omega arith), right, h)

      back : E k v ⊎ Contains t k v → Contains t' k v
      back (inl e) = place ((gain k v).1 (inl e))
      back (inr (q, a, b, h)) = elim (ℕ_discrete q p) [
        | yes e ↦ place ((gain k v).1 (inr (subst (λ x. NodeHolds (t.nodes x) k v) e h)))
        | no other ↦
            let old : q ≢ t.next = omega arith in
            (
              q,
              (a.0, omega arith),
              subst (λ n. n.is_leaf ≡ true) (sym (others q other old)) b,
              subst (λ n. NodeHolds n k v) (sym (others q other old)) h,
            )
      ]

-- Nothing is lost or gained where inner nodes and parent pointers change.
module _ {L : Type 0} (t t' : Tree L) where
  pub inner_change-Contains :
      t.next ≤ t'.next
      → ((q : Ptr) → IsAllocated t' q → (t'.nodes q).is_leaf ≡ true → IsAllocated t q)
      → ((q : Ptr)
          → IsAllocated t q
          → ((t'.nodes q).is_leaf ≡ (t.nodes q).is_leaf)
            × ((t.nodes q).is_leaf ≡ true
                → t'.nodes q ≡ record (t.nodes q) { parent = (t'.nodes q).parent }))
      → (k : Key) (v : Value) → Contains t' k v ↔ Contains t k v
  inner_change-Contains grows old same k v = (there, back)
    where
      there : Contains t' k v → Contains t k v
      there (q, a, b, h) =
          let leaf = sym (same q (old q a b)).0 ∙ b in
          (q, old q a b, leaf, subst (λ n. NodeHolds n k v) ((same q (old q a b)).1 leaf) h)

      back : Contains t k v → Contains t' k v
      back (q, a, b, h) = (
        q,
        (a.0, omega arith),
        (same q a).0 ∙ b,
        subst (λ n. NodeHolds n k v) (sym ((same q a).1 b)) h,
      )
