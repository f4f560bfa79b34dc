-- ===== src/Util/RwSpinlock/Invariant.antt =====
-- What the word of src/util/rw_spinlock.h says about the threads.
use btree_benchmarks.Prelude.{ℕ, zero, suc, ◌+◌, ◌*◌, ◌%◌, ◌^◌, ◌<◌, ◌≤◌, ◌≡◌, ◌≢◌, refl, arith}
use btree_benchmarks.Prelude.Memory.{update}
use btree_benchmarks.Prelude.Sums.{sum_of, sum_of-update, sum_of-all, sum_of-le, part-le, two-le}
use btree_benchmarks.Util.RwSpinlock.{
  Holder, idle, reading, backing_out, upgraded, writing, downgrading, shifting, Move, try_lock,
  unlock, try_lock_shared, try_lock_shared_fails, try_lock_upgrade, try_lock_upgrade_fails,
  try_unlock_upgrade_and_lock, Lock, Reach, new_lock, later,
}

-- 1, if the thread is counted in READERs.
abbrev pub counted : Holder → ℕ
counted reading = 1
counted backing_out = 1
counted downgrading = 1
counted h = 0

abbrev pub reads : Holder → ℕ
reads reading = 1
reads h = 0

-- 1, if the thread owns the bit UPGRADED or the bit WRITER.
abbrev pub owns : Holder → ℕ
owns upgraded = 1
owns writing = 1
owns downgrading = 1
owns shifting = 1
owns h = 0

abbrev pub writes : Holder → ℕ
writes writing = 1
writes downgrading = 1
writes shifting = 1
writes h = 0

-- The low bits, as the thread must find them.
abbrev pub IsMarked : (bits : ℕ) → Holder → Type 0
IsMarked bits upgraded = bits % 4 ≡ 2
IsMarked bits writing = bits % 2 ≡ 1
IsMarked bits downgrading = bits % 2 ≡ 1
IsMarked bits shifting = bits % 4 ≡ 3
IsMarked bits h = Unit {0}

pub record Inv (threads bits : ℕ) (holders : ℕ → Holder) : Type 0 where
  pub split : bits ≡ 4 * sum_of counted threads holders + bits % 4
  pub one_owner : sum_of owns threads holders ≤ 1
  pub unmarked : sum_of owns threads holders ≡ 0 → bits % 4 ≡ 0
  pub unowned : bits % 4 ≡ 0 → sum_of owns threads holders ≡ 0
  pub marked : (i : ℕ) → i < threads → IsMarked bits (holders i)
  pub alone : (i : ℕ) → i < threads → writes (holders i) ≡ 1 → sum_of reads threads holders ≡ 0

counted-le : (h : Holder) → counted h ≤ 1
counted-le idle = omega arith
counted-le h = omega arith

reads-le : (h : Holder) → reads h ≤ counted h
reads-le idle = omega arith
reads-le h = omega arith

-- Fewer threads read than are counted.
sum-reads-le :
    (threads : ℕ) (holders : ℕ → Holder)
    → sum_of reads threads holders ≤ sum_of counted threads holders
sum-reads-le zero holders = omega arith
sum-reads-le (suc threads) holders =
    omega (arith, reads-le (holders threads), sum-reads-le threads holders)

-- The premise of a move.
abbrev Guard : {bits bits' : ℕ} {h h' : Holder} → Move bits h bits' h' → Type 0
Guard {bits} (try_lock _) = bits ≡ 0
Guard {bits} (try_lock_shared _) = bits % 4 ≡ 0
Guard {bits} (try_lock_shared_fails _) = bits % 4 ≢ 0
Guard {bits} (try_lock_upgrade _) = bits % 4 ≡ 0
Guard {bits} (try_lock_upgrade_fails _) = bits % 4 ≢ 0
Guard {bits} (try_unlock_upgrade_and_lock _) = bits ≡ 2
Guard mv = Unit {0}

guard : {bits bits' : ℕ} {h h' : Holder} (mv : Move bits h bits' h') → Guard mv
guard (try_lock g) = g
guard (try_lock_shared g) = g
guard (try_lock_shared_fails g) = g
guard (try_lock_upgrade g) = g
guard (try_lock_upgrade_fails g) = g
guard (try_unlock_upgrade_and_lock g) = g
guard mv = tt

module _ {threads bits : ℕ} {holders : ℕ → Holder} (few : threads < 2 ^ 29)
    (inv : Inv threads bits holders) (i : ℕ) (lt : i < threads) where
  open inv use {split, one_owner, unmarked, unowned, marked, alone}

  -- What the moving thread knows.
  record Mover (h h' : Holder) : Type 0 where
    here : holders i ≡ h
    mark : IsMarked bits h
    is_counted :
        sum_of counted threads (update holders i h') + counted h
        ≡ sum_of counted threads holders + counted h'
    is_owner :
        sum_of owns threads (update holders i h') + owns h ≡ sum_of owns threads holders + owns h'
    is_reader :
        sum_of reads threads (update holders i h') + reads h
        ≡ sum_of reads threads holders + reads h'
    room :
        (sum_of counted threads holders < 2 ^ 29)
        × (sum_of counted threads (update holders i h') < 2 ^ 29)
    part :
        (counted h ≤ sum_of counted threads holders)
        × (owns h ≤ sum_of owns threads holders)
        × (reads h ≤ sum_of reads threads holders)

  mover : (h' : Holder) → Mover (holders i) h'
  mover h' = record {
    here = refl;
    mark = marked i lt;
    is_counted = sum_of-update counted threads holders i h' lt;
    is_owner = sum_of-update owns threads holders i h' lt;
    is_reader = sum_of-update reads threads holders i h' lt;
    room = (
      omega (arith, few, sum_of-le counted counted-le threads holders),
      omega (arith, few, sum_of-le counted counted-le threads (update holders i h')),
    );
    part = (
      part-le counted threads holders i lt,
      part-le owns threads holders i lt,
      part-le reads threads holders i lt,
    );
  }

  Move-split :
      {h h' : Holder} {bits' : ℕ}
      → Mover h h'
      → Move bits h bits' h'
      → bits' ≡ 4 * sum_of counted threads (update holders i h') + bits' % 4
  Move-split f unlock = ground (arith, split, f.mark, f.is_counted, f.room)
  Move-split f mv = ground (arith, guard mv, split, f.mark, f.is_counted, f.room, f.part)

  Move-one_owner :
      {h h' : Holder} {bits' : ℕ}
      → Mover h h'
      → Move bits h bits' h'
      → sum_of owns threads (update holders i h') ≤ 1
  Move-one_owner f unlock = ground (arith, one_owner, f.is_owner)
  Move-one_owner f mv = ground (arith, guard mv, one_owner, unowned, f.is_owner)

  Move-unmarked :
      {h h' : Holder} {bits' : ℕ}
      → Mover h h'
      → Move bits h bits' h'
      → sum_of owns threads (update holders i h') ≡ 0
      → bits' % 4 ≡ 0
  Move-unmarked f unlock = ground (arith, f.is_owner)
  Move-unmarked f mv = ground (
    arith,
    guard mv,
    split,
    unmarked,
    one_owner,
    f.is_owner,
    f.mark,
    f.is_counted,
    f.room,
    f.part,
  )

  Move-unowned :
      {h h' : Holder} {bits' : ℕ}
      → Mover h h'
      → Move bits h bits' h'
      → bits' % 4 ≡ 0
      → sum_of owns threads (update holders i h') ≡ 0
  Move-unowned f unlock = ground (arith, one_owner, f.is_owner)
  Move-unowned f mv =
      ground (
        arith,
        guard mv,
        split,
        unowned,
        one_owner,
        f.is_owner,
        f.mark,
        f.is_counted,
        f.room,
        f.part,
      )

  -- Two threads do not own the bits.
  apart : (j : ℕ) → j < threads → j ≢ i → owns (holders i) + owns (holders j) ≤ 1
  apart j below other =
      omega (arith, one_owner, two-le owns threads holders i j idle refl lt below other)

  Move-marked :
      {h h' : Holder} {bits' : ℕ}
      → Mover h h'
      → Move bits h bits' h'
      → (j : ℕ) → j < threads
      → IsMarked bits' (update holders i h' j)
  Move-marked f unlock j below = ground (arith, f.here, apart j below, marked j below)
  Move-marked f mv j below = ground (
    arith,
    guard mv,
    f.here,
    f.mark,
    f.room,
    f.part,
    split,
    unowned,
    part-le owns threads holders j below,
    apart j below,
    marked j below,
  )

  Move-alone :
      {h h' : Holder} {bits' : ℕ}
      → Mover h h'
      → Move bits h bits' h'
      → (j : ℕ) → j < threads
      → writes (update holders i h' j) ≡ 1
      → sum_of reads threads (update holders i h') ≡ 0
  Move-alone f unlock j below = ground (arith, f.here, f.is_reader, apart j below, alone j below)
  Move-alone f mv j below = ground (
    arith,
    guard mv,
    f.here,
    f.mark,
    f.is_reader,
    f.part,
    split,
    unowned,
    sum-reads-le threads holders,
    part-le owns threads holders j below,
    apart j below,
    alone j below,
    alone i lt,
  )

  Move-Inv :
      {h' : Holder} {bits' : ℕ}
      → Move bits (holders i) bits' h'
      → Inv threads bits' (update holders i h')
  Move-Inv {h'} mv = record {
    split = Move-split (mover h') mv;
    one_owner = Move-one_owner (mover h') mv;
    unmarked = Move-unmarked (mover h') mv;
    unowned = Move-unowned (mover h') mv;
    marked = Move-marked (mover h') mv;
    alone = Move-alone (mover h') mv;
  }

new_lock-Inv : (threads : ℕ) → Inv threads 0 (λ _. idle)
new_lock-Inv threads = record {
  split = omega (arith, sum_of-all counted threads (λ _. idle) (λ i lt. refl));
  one_owner = omega (arith, sum_of-all owns threads (λ _. idle) (λ i lt. refl));
  unmarked = λ e. refl;
  unowned = λ e. sum_of-all owns threads (λ _. idle) (λ i lt. refl);
  marked = λ i lt. tt;
  alone = λ i lt. cc;
}

pub Reach-Inv :
    {threads : ℕ} {s : Lock} → threads < 2 ^ 29 → Reach threads s → Inv threads s.bits s.holders
Reach-Inv {threads} few new_lock = new_lock-Inv threads
Reach-Inv few (later {i = i} r lt mv) = Move-Inv few (Reach-Inv few r) i lt mv
