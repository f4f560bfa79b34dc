-- ===== src/Blinktree/Latched/Running.antt =====
-- How a run of the tree's code ends: with a result and a new state, or in one of the ways in which
-- src/indices/blinktree/thread/latched/thread_tree.cpp can fail to return.
pub data Outcome (S A : Type 0) : Type 0 where
  done : A → S → Outcome S A
  null_access : Outcome S A  -- a read or write through a null pointer
  path_overflow : Outcome S A  -- a push onto a full NodePath, or a pop from an empty one
  blocked : Outcome S A  -- a wait for a latch that nobody releases
  no_fuel : Outcome S A

module _ {S A B : Type 0} where
  abbrev pub and_then : Outcome S A → (A → S → Outcome S B) → Outcome S B
  and_then (done a s) k = k a s
  and_then null_access k = null_access
  and_then path_overflow k = path_overflow
  and_then blocked k = blocked
  and_then no_fuel k = no_fuel

  infixl 5 ◌>>=◌ ◌>>◌
  abbrev pub ◌>>=◌ : (S → Outcome S A) → (A → S → Outcome S B) → S → Outcome S B
  ◌>>=◌ m k s = and_then (m s) k

  abbrev pub ◌>>◌ : (S → Outcome S A) → (S → Outcome S B) → S → Outcome S B
  ◌>>◌ m k s = and_then (m s) (λ _. k)

abbrev pub pure : {S A : Type 0} → A → S → Outcome S A
pure = done

-- The run returns, and its result and state satisfy `P`.
pub data Ends {S A : Type 0} (P : A → S → Type 0) : Outcome S A → Type 0 where
  ends : {a : A} {s : S} → P a s → Ends P (done a s)

module _ {S A : Type 0} {P : A → S → Type 0} where
  pub Ends-bind :
      {B : Type 0} {Q : B → S → Type 0} {r : Outcome S A} {k : A → S → Outcome S B}
      → Ends P r
      → ((a : A) (s : S) → P a s → Ends Q (k a s))
      → Ends Q (and_then r k)
  Ends-bind (ends p) next = next _ _ p

  pub Ends-weaken :
      {Q : A → S → Type 0} {r : Outcome S A}
      → Ends P r
      → ((a : A) (s : S) → P a s → Q a s)
      → Ends Q r
  Ends-weaken (ends p) weaken = ends (weaken _ _ p)
