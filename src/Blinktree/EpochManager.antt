-- ===== src/Blinktree/EpochManager.antt =====
-- `EpochManager` of src/indices/blinktree/epoch_manager.h and epoch_manager.cpp, which frees a removed
-- node only when no thread can still read it. The queue of garbage is a list here: what it is made
-- of is in Util/MpscQueue.
pub mod Minimum
pub mod Threads
pub mod Invariant
pub mod Guarded
pub mod Safety
pub mod Reclaim
mod Tests
use btree_benchmarks.Prelude.{
  ℕ, zero, suc, ◌+◌, ◌-◌, ◌%◌, ◌^◌, min, Bool, true, false, List, [], ◌∷◌, ◌++◌, ltb, if◌then◌else◌,
}
use btree_benchmarks.Prelude.Memory.{update}
use btree_benchmarks.Blinktree.Node.{Ptr}

-- `std::numeric_limits<epoch_t>::max()`: the epoch of a thread that is outside.
abbrev pub max_epoch : ℕ
max_epoch = 2 ^ 32 - 1

pub record Epochs : Type 0 where
  pub registered_threads : ℕ
  pub local_epochs : ℕ → ℕ
  pub global_epoch : ℕ
  pub garbage_queue : List Ptr
  pub remove_epoch : Ptr → ℕ  -- in the header of each node
  pub freed : Ptr → Bool  -- what `std::free` was called for

abbrev pub new_epochs : Epochs
new_epochs = record {
  registered_threads = 0;
  local_epochs = λ _. 0;
  global_epoch = 0;
  garbage_queue = [];
  remove_epoch = λ _. 0;
  freed = λ _. false;
}

abbrev pub start_epochs : Epochs → Epochs
start_epochs s = record s { registered_threads = 0 }

-- The id of the thread, and the new state.
abbrev pub register_thread : Epochs → ℕ × Epochs
register_thread s =
    (s.registered_threads, record s { registered_threads = (s.registered_threads + 1) % 2 ^ 16 })

-- The second half of `join_epoch`; the first half loads the global epoch.
abbrev pub store_epoch : (thread epoch : ℕ) → Epochs → Epochs
store_epoch thread epoch s = record s { local_epochs = update s.local_epochs thread epoch }

abbrev pub leave_epoch : (thread : ℕ) → Epochs → Epochs
leave_epoch thread s = record s { local_epochs = update s.local_epochs thread max_epoch }

-- The two halves of `add_to_garbage`.
abbrev pub mark_garbage : Ptr → Epochs → Epochs
mark_garbage garbage s = record s { remove_epoch = update s.remove_epoch garbage s.global_epoch }

abbrev pub push_garbage : Ptr → Epochs → Epochs
push_garbage garbage s = record s { garbage_queue = s.garbage_queue ++ (garbage ∷ []) }

abbrev pub next_epoch : Epochs → Epochs
next_epoch s = record s { global_epoch = (s.global_epoch + 1) % 2 ^ 32 }

abbrev pub min_loop : (locals : ℕ → ℕ) (min_epoch i steps : ℕ) → ℕ
min_loop locals min_epoch i zero = min_epoch
min_loop locals min_epoch i (suc steps) = min_loop locals (min min_epoch (locals i)) (suc i) steps

-- The loop makes `count_threads - 1` steps.
abbrev pub min_local_epoch : (count_threads : ℕ) → Epochs → ℕ
min_local_epoch count_threads s = min_loop s.local_epochs (s.local_epochs 0) 1 (count_threads - 1)

abbrev pub free_all : List Ptr → (Ptr → Bool) → Ptr → Bool
free_all [] freed = freed
free_all (garbage ∷ rest) freed = free_all rest (update freed garbage true)

-- `stop`, once the epoch thread has ended, and the destructor: both free what is left.
abbrev pub stop : Epochs → Epochs
stop s = record s { garbage_queue = []; freed = free_all s.garbage_queue s.freed }

-- The loop of `reclaim_epoch_garbage`: what is freed, and what is deferred.
abbrev pub reclaim_loop :
    (min_epoch : ℕ) (remove_epoch : Ptr → ℕ) (garbage deferred : List Ptr)
    → (Ptr → Bool)
    → List Ptr × (Ptr → Bool)
reclaim_loop min_epoch remove_epoch [] deferred freed = (deferred, freed)
reclaim_loop min_epoch remove_epoch (garbage ∷ rest) deferred freed =
    if ltb (remove_epoch garbage) min_epoch
    then reclaim_loop min_epoch remove_epoch rest deferred (update freed garbage true)
    else reclaim_loop min_epoch remove_epoch rest (deferred ++ (garbage ∷ [])) freed

-- `reclaim_epoch_garbage` without other threads.
abbrev pub reclaim_epoch_garbage : (count_threads : ℕ) → Epochs → Epochs
reclaim_epoch_garbage count_threads s =
    let (deferred, freed) =
      reclaim_loop (min_local_epoch count_threads s) s.remove_epoch s.garbage_queue [] s.freed in
    record s { garbage_queue = deferred; freed = freed }
