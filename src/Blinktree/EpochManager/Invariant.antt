-- ===== src/Blinktree/EpochManager/Invariant.antt =====
-- In every state of src/indices/blinktree/epoch_manager.cpp the epoch of a thread that is inside is
-- not later than the global epoch.
use btree_benchmarks.Prelude.{
  ℕ, suc, ◌+◌, ◌^◌, ◌<◌, ◌≤◌, ◌≡◌, refl, true, false, arith, ◌==◌, ==_iff, Bool-cases, inl, inr,
  subst, sym, ap,
}
use btree_benchmarks.Prelude.Memory.{update}
use btree_benchmarks.Blinktree.EpochManager.{Epochs}
use btree_benchmarks.Blinktree.EpochManager.Threads.{
  Worker, joining, WorkerMove, join, load, leave, mark, push, System, Step, work, reclaim,
  Reclaimer, ReclaimerMove, tick, Reach, at_first, later, is_inside,
}

-- The epoch that a thread has loaded or stored is not later than `last`.
abbrev pub IsSoon : (locals : ℕ → ℕ) (i last : ℕ) → Worker → Type 0
IsSoon locals i last (joining epoch) = epoch ≤ last
IsSoon locals i last w = is_inside w ≡ true → locals i ≤ last

pub record Inv (n : ℕ) (s : System) : Type 0 where
  pub few : s.epochs.global_epoch ≤ n
  pub soon : (i : ℕ) → IsSoon s.epochs.local_epochs i s.epochs.global_epoch (s.workers i)

pub WorkerMove-global :
    {i : ℕ} {s e : Epochs} {w v : Worker} → WorkerMove i s w e v → e.global_epoch ≡ s.global_epoch
WorkerMove-global load = refl
WorkerMove-global join = refl
WorkerMove-global leave = refl
WorkerMove-global (mark garbage was_inside) = refl
WorkerMove-global push = refl

pub WorkerMove-other :
    {i : ℕ} {s e : Epochs} {w v : Worker} (j : ℕ)
    → (j == i) ≡ false
    → WorkerMove i s w e v
    → e.local_epochs j ≡ s.local_epochs j
WorkerMove-other j ne load = refl
WorkerMove-other j ne join = rw ne refl
WorkerMove-other j ne leave = rw ne refl
WorkerMove-other j ne (mark garbage was_inside) = refl
WorkerMove-other j ne push = refl

WorkerMove-IsSoon :
    {i : ℕ} {s e : Epochs} {w v : Worker}
    → IsSoon s.local_epochs i s.global_epoch w
    → WorkerMove i s w e v
    → IsSoon e.local_epochs i e.global_epoch v
WorkerMove-IsSoon h load = omega arith
WorkerMove-IsSoon h mv = ground (arith, h)

pub ReclaimerMove-locals :
    (count_threads : ℕ) {s e : Epochs} {r r' : Reclaimer}
    → ReclaimerMove count_threads s r e r'
    → e.local_epochs ≡ s.local_epochs
ReclaimerMove-locals count_threads tick = refl
ReclaimerMove-locals count_threads mv = refl

-- The global epoch grows by at most one, as long as it does not wrap around.
pub ReclaimerMove-global :
    (count_threads : ℕ) {s e : Epochs} {r r' : Reclaimer}
    → s.global_epoch + 1 < 2 ^ 32
    → ReclaimerMove count_threads s r e r'
    → (s.global_epoch ≤ e.global_epoch) × (e.global_epoch ≤ s.global_epoch + 1)
ReclaimerMove-global count_threads small tick = omega (arith, small)
ReclaimerMove-global count_threads small mv = omega arith

IsSoon-weaken :
    (i : ℕ) (locals locals' : ℕ → ℕ) (last last' : ℕ) (w : Worker)
    → locals' i ≡ locals i
    → last ≤ last'
    → IsSoon locals i last w
    → IsSoon locals' i last' w
IsSoon-weaken i locals locals' last last' w e le h = ground (arith, e, le, h)

work-IsSoon :
    (s : System) {i : ℕ} {e : Epochs} {w : Worker}
    → WorkerMove i s.epochs (s.workers i) e w
    → ((j : ℕ) → IsSoon s.epochs.local_epochs j s.epochs.global_epoch (s.workers j))
    → (j : ℕ) → IsSoon e.local_epochs j e.global_epoch (update s.workers i w j)
work-IsSoon s {i} {e} {w} mv soon j = elim (Bool-cases (j == i)) [
  | inl own ↦ rw own (
      subst (λ k. IsSoon e.local_epochs k e.global_epoch w) (sym ((==_iff j i).0 own))
        (WorkerMove-IsSoon (soon i) mv))
  | inr other ↦ rw other (
      IsSoon-weaken j s.epochs.local_epochs e.local_epochs s.epochs.global_epoch e.global_epoch
        (s.workers j) (WorkerMove-other j other mv) (omega (arith, WorkerMove-global mv)) (soon j))
]

pub Step-Inv :
    {count_threads n : ℕ} {s t : System}
    → suc n < 2 ^ 32
    → Step count_threads s t
    → Inv n s
    → Inv (suc n) t
Step-Inv {s = s} few (work i lt mv) inv = record {
  few = omega (arith, WorkerMove-global mv, inv.few);
  soon = work-IsSoon s mv inv.soon;
}
Step-Inv {count_threads} {s = s} few (reclaim {e} mv) inv = record {
  few = omega (arith, grows.1, inv.few);
  soon = λ j.
      IsSoon-weaken j s.epochs.local_epochs e.local_epochs s.epochs.global_epoch e.global_epoch
        (s.workers j) (ap (λ f. f j) (ReclaimerMove-locals count_threads mv)) grows.0 (inv.soon j);
}
  where
    grows : (s.epochs.global_epoch ≤ e.global_epoch) × (e.global_epoch ≤ s.epochs.global_epoch + 1)
    grows = ReclaimerMove-global count_threads (omega (arith, few, inv.few)) mv

pub Reach-Inv : {count_threads n : ℕ} {s : System} → n < 2 ^ 32 → Reach count_threads n s → Inv n s
Reach-Inv few at_first = record { few = omega arith; soon = λ i. cc }
Reach-Inv few (later r st) = Step-Inv few st (Reach-Inv (omega (arith, few)) r)
