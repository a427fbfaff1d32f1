-- ===== src/Mutex.antt =====
-- Mutexes, in kernel/src/proc/mutex.c, as steps of processes by their numbers in any order. A step is what a
-- process does between two accesses to what the processes share: the spinlock, `locked`, the queue.
pub mod Exclusion
mod Tests
use scales_os.Prelude.{ℕ, Bool, true, false, List, [], ◌∷◌, ◌++◌, ◌==◌, if◌then◌else◌}

-- Where a process is
pub data Point : Type 0 where
  outside : Point
  -- `LOCK(mutex->lock)` and `while(mutex->locked)` of `mutex_lock`, asleep in it, and behind it
  locking : Point
  testing : Point
  asleep : Point
  taking : Point
  taken : Point
  -- between `mutex_lock` and `mutex_unlock`
  inside : Point
  -- `LOCK(mutex->lock)` of `mutex_unlock`, behind it, and at its end
  unlocking : Point
  clearing : Point
  cleared : Point

-- `mutex_t`, with the points of the processes
pub record State : Type 0 where
  pub lock : Bool
  pub locked : Bool
  pub wait_queue : List ℕ
  pub at : ℕ → Point

abbrev pub update {ℓ} : {A : Type ℓ} → (ℕ → A) → ℕ → A → ℕ → A
update f i v j = if j == i then v else f j

-- The list without its last element, and the points once the process there is woken: it goes on with the
-- test of `locked`.
pub without_last : List ℕ → List ℕ
without_last [] = []
without_last (p ∷ []) = []
without_last (p ∷ (q ∷ qs)) = p ∷ without_last (q ∷ qs)

pub wake_last : List ℕ → (ℕ → Point) → ℕ → Point
wake_last [] at = at
wake_last (p ∷ []) at = update at p testing
wake_last (p ∷ (q ∷ qs)) at = wake_last (q ∷ qs) at

abbrev pub go : State → (p : ℕ) → Point → State
go s p point = record s { at = update s.at p point }

-- A step of a process that is at a point
abbrev pub step_at : State → (p : ℕ) → Point → State
step_at s p outside = go s p locking
step_at s p locking = if s.lock then s else record (go s p testing) { lock = true }
step_at s p testing =
    if s.locked
    then record (go s p asleep) { wait_queue = s.wait_queue ++ (p ∷ []); lock = false }
    else go s p taking
step_at s p asleep = s
step_at s p taking = record (go s p taken) { locked = true }
step_at s p taken = record (go s p inside) { lock = false }
step_at s p inside = go s p unlocking
step_at s p unlocking = if s.lock then s else record (go s p clearing) { lock = true }
step_at s p clearing = record s {
  locked = false;
  wait_queue = without_last s.wait_queue;
  at = wake_last s.wait_queue (update s.at p cleared);
}
step_at s p cleared = record (go s p outside) { lock = false }

pub step : State → (p : ℕ) → State
step s p = step_at s p (s.at p)

-- `mutex_init` of zeroed memory (it leaves `locked` as it is), with every process outside
abbrev pub init : State
init = record { lock = false; locked = false; wait_queue = []; at = λ p. outside }

-- The processes take their steps in an order.
pub run : State → List ℕ → State
run s [] = s
run s (p ∷ ps) = run (step s p) ps

-- Between having the mutex and giving it back
abbrev pub has_mutex : Point → Bool
has_mutex taken = true
has_mutex inside = true
has_mutex unlocking = true
has_mutex clearing = true
has_mutex outside = false
has_mutex locking = false
has_mutex testing = false
has_mutex asleep = false
has_mutex taking = false
has_mutex cleared = false
