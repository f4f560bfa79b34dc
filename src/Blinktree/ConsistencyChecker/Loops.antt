-- ===== src/Blinktree/ConsistencyChecker/Loops.antt =====
-- What the loops of src/indices/blinktree/consistency_checker.cpp decide.
use btree_benchmarks.Prelude.{
  ℕ, zero, suc, ◌+◌, ◌-◌, ◌≤◌, ◌<◌, ◌≡◌, ◌≢◌, ◌↔◌, refl, true, arith, ◌==◌, ==_iff, ne→==,
  Bool-cases, inl, inr, ℕ_discrete, subst, sym,
}
use btree_benchmarks.Blinktree.Node.{Ptr, null, Key, Node}
use btree_benchmarks.Blinktree.Node.Search.{IsSorted}
use btree_benchmarks.Blinktree.ConsistencyChecker.{
  key_order_loop, is_key_order_valid, separator_loop, position_loop,
}

key_order_loop-neighbours :
    (rounds index : ℕ) (n : Node)
    → key_order_loop rounds index n ≡ true
    → (j : ℕ) → index ≤ j
    → j < index + rounds
    → n.keys (j - 1) < n.keys j
key_order_loop-neighbours zero index n h j low high = absurd (omega arith)
key_order_loop-neighbours (suc rounds) index n h j low high = elim (ℕ_discrete index j) [
  | yes e ↦ subst (λ k. n.keys (k - 1) < n.keys k) e (ground (arith, h))
  | no ne ↦
      key_order_loop-neighbours rounds (suc index) n (ground (arith, h)) j (omega (arith, low, ne))
        (omega (arith, high))
]

key_order_loop-true :
    (rounds index : ℕ) (n : Node)
    → ((j : ℕ) → index ≤ j → j < index + rounds → n.keys (j - 1) < n.keys j)
    → key_order_loop rounds index n ≡ true
key_order_loop-true zero index n h = refl
key_order_loop-true (suc rounds) index n h = ground (
  arith,
  h index (omega arith) (omega arith),
  key_order_loop-true rounds (suc index) n (λ j low high. h j (omega arith) (omega arith)),
)

-- Neighbours in order make the whole in order.
neighbours-IsSorted :
    (keys : ℕ → Key) (size : ℕ)
    → ((j : ℕ) → 1 ≤ j → j < size → keys (j - 1) < keys j)
    → IsSorted keys size
neighbours-IsSorted keys size h i zero lt below = absurd (omega (arith, lt))
neighbours-IsSorted keys size h i (suc j) lt below =
    let e : suc j - 1 ≡ j = omega arith in
    let step : keys j < keys (suc j) =
      subst (λ k. keys k < keys (suc j)) e (h (suc j) (omega arith) below) in
    elim (ℕ_discrete i j) [
      | yes same ↦ subst (λ k. keys k < keys (suc j)) (sym same) step
      | no ne ↦ omega (
        arith,
        step,
        neighbours-IsSorted keys size h i j (omega (arith, lt, ne)) (omega (arith, below)),
      )
    ]

-- `is_key_order_valid` answers true exactly if the keys of the node are strictly ascending.
pub is_key_order_valid_iff : (n : Node) → (is_key_order_valid n ≡ true) ↔ IsSorted n.keys n.size
is_key_order_valid_iff n = (
  λ h.
      neighbours-IsSorted n.keys n.size (λ j low high.
        key_order_loop-neighbours (n.size - 1) 1 n h j low (omega (arith, low, high))),
  λ sorted.
      key_order_loop-true (n.size - 1) 1 n
        (λ j low high. sorted (j - 1) j (omega (arith, low)) (omega (arith, low, high))),
)

pub separator_loop-true :
    (rounds index : ℕ) (n : Node)
    → ((j : ℕ) → index ≤ j → j < index + rounds → n.separators j ≢ null)
    → separator_loop rounds index n ≡ true
separator_loop-true zero index n h = refl
separator_loop-true (suc rounds) index n h =
    rw (ne→== (n.separators index) null (h index (omega arith) (omega arith)))
      (separator_loop-true rounds (suc index) n (λ j low high. h j (omega arith) (omega arith)))

-- The search stops at a child that is there.
pub position_loop-finds :
    (rounds index j : ℕ) (node : Ptr) (n : Node)
    → index ≤ j
    → j < index + rounds
    → n.separators j ≡ node
    → (i : ℕ) × (position_loop rounds index node n ≡ i)
      × (i < index + rounds)
      × (n.separators i ≡ node)
position_loop-finds zero index j node n low high e = absurd (omega arith)
position_loop-finds (suc rounds) index j node n low high e =
    elim (Bool-cases (n.separators index == node)) [
      | inl here ↦ (index, rw here refl, omega arith, (==_iff (n.separators index) node).0 here)
      | inr other ↦
          let past : index ≢ j = λ same. ground (arith, other, e, same) in
          let (i, found, inside, at) =
            position_loop-finds rounds (suc index) j node n (omega (arith, low, past))
              (omega (arith, high)) e in
          (i, rw other found, omega (arith, inside), at)
    ]
