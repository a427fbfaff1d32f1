-- ===== src/Mutex/Exclusion.antt =====
-- Mutual exclusion, in kernel/src/proc/mutex.c, as long as no process has had to sleep.
use scales_os.Prelude.{
  ℕ, ◌≡◌, ◌∙◌, refl, sym, ap, subst, Bool, true, false, not, List, [], ◌∷◌, ◌++◌, arith,
  if◌then◌else◌,
}
use scales_os.Mutex.{
  Point, outside, locking, testing, asleep, taking, taken, inside, unlocking, clearing, cleared,
  State, update, go, step_at, step, run, init, has_mutex, wake_last, without_last,
}

-- Having the spinlock
abbrev has_lock : Point → Bool
has_lock testing = true
has_lock taking = true
has_lock taken = true
has_lock clearing = true
has_lock cleared = true
has_lock outside = false
has_lock locking = false
has_lock asleep = false
has_lock inside = false
has_lock unlocking = false

abbrev is_taking : Point → Bool
is_taking taking = true
is_taking testing = false
is_taking taken = false
is_taking clearing = false
is_taking cleared = false
is_taking outside = false
is_taking locking = false
is_taking asleep = false
is_taking inside = false
is_taking unlocking = false

-- At most one process is at such a point.
pub Only : (Point → Bool) → (ℕ → Point) → Type 0
Only f at = (q r : ℕ) → f (at q) ≡ true → f (at r) ≡ true → q ≡ r

-- No process is at such a point but where a flag is set.
Flagged : (Point → Bool) → (ℕ → Point) → Bool → Type 0
Flagged f at b = (q : ℕ) → f (at q) ≡ true → b ≡ true

Only-off :
    (f : Point → Bool) (at : ℕ → Point) (p : ℕ) (x : Point)
    → Only f at
    → f x ≡ false
    → Only f (update at p x)
unfolding Only
Only-off f at p x only off q r hq hr = grind (arith, only q r, off, hq, hr)

Only-kept :
    (f : Point → Bool) (at : ℕ → Point) (p : ℕ) (x : Point)
    → Only f at
    → f (at p) ≡ true
    → Only f (update at p x)
unfolding Only
Only-kept f at p x only on q r hq hr = grind (arith, only q r, only q p, only p r, on, hq, hr)

Only-first :
    (f : Point → Bool) (at : ℕ → Point) (p : ℕ) (x : Point)
    → Flagged f at false
    → Only f (update at p x)
unfolding Only Flagged
Only-first f at p x first q r hq hr = grind (arith, first q, first r, hq, hr)

Flagged-any : (f : Point → Bool) (at : ℕ → Point) → Flagged f at true
unfolding Flagged
Flagged-any f at q h = refl

Flagged-off :
    (f : Point → Bool) (at : ℕ → Point) (p : ℕ) (x : Point) (b : Bool)
    → Flagged f at b
    → f x ≡ false
    → Flagged f (update at p x) b
unfolding Flagged
Flagged-off f at p x b flag off q h = grind (arith, flag q, off, h)

Flagged-kept :
    (f : Point → Bool) (at : ℕ → Point) (p : ℕ) (x : Point) (b : Bool)
    → Flagged f at b
    → f (at p) ≡ true
    → Flagged f (update at p x) b
unfolding Flagged
Flagged-kept f at p x b flag on q h = flag p on

Flagged-last :
    (f : Point → Bool) (at : ℕ → Point) (p : ℕ) (x : Point)
    → Only f at
    → f (at p) ≡ true
    → f x ≡ false
    → Flagged f (update at p x) false
unfolding Flagged Only
Flagged-last f at p x only on off q h = grind (arith, only q p, on, off, h)

taking-has_lock : (x : Point) → is_taking x ≡ true → has_lock x ≡ true
taking-has_lock taking h = refl
taking-has_lock testing h = refl
taking-has_lock taken h = refl
taking-has_lock clearing h = refl
taking-has_lock cleared h = refl
taking-has_lock outside h = h
taking-has_lock locking h = h
taking-has_lock asleep h = h
taking-has_lock inside h = h
taking-has_lock unlocking h = h

Only-taking : (at : ℕ → Point) → Only has_lock at → Only is_taking at
unfolding Only
Only-taking at only q r hq hr = only q r (taking-has_lock (at q) hq) (taking-has_lock (at r) hr)

-- At most one process has the spinlock and at most one the mutex, as the flags say, and nobody sleeps.
record Good (s : State) : Type 0 where
  lock_one : Only has_lock s.at
  lock_set : Flagged has_lock s.at s.lock
  mutex_one : Only has_mutex s.at
  mutex_set : Flagged has_mutex s.at s.locked
  taking_free : Flagged is_taking s.at (not s.locked)
  nobody : s.wait_queue ≡ []

-- A process goes where it has neither the spinlock nor the mutex.
away :
    (s : State) (p : ℕ) (x : Point) (lock : Bool)
    → has_lock x ≡ false
    → has_mutex x ≡ false
    → is_taking x ≡ false
    → Flagged has_lock (update s.at p x) lock
    → Good s
    → Good (record (go s p x) { lock = lock })
away s p x lock l m t set g = record {
  lock_one = Only-off has_lock s.at p x g.lock_one l;
  lock_set = set;
  mutex_one = Only-off has_mutex s.at p x g.mutex_one m;
  mutex_set = Flagged-off has_mutex s.at p x s.locked g.mutex_set m;
  taking_free = Flagged-off is_taking s.at p x (not s.locked) g.taking_free t;
  nobody = g.nobody;
}

-- A process with the mutex goes on with it.
keeps :
    (s : State) (p : ℕ) (x : Point) (lock : Bool)
    → has_mutex (s.at p) ≡ true
    → is_taking x ≡ false
    → Only has_lock (update s.at p x)
    → Flagged has_lock (update s.at p x) lock
    → Good s
    → Good (record (go s p x) { lock = lock })
keeps s p x lock m t one set g = record {
  lock_one = one;
  lock_set = set;
  mutex_one = Only-kept has_mutex s.at p x g.mutex_one m;
  mutex_set = Flagged-kept has_mutex s.at p x s.locked g.mutex_set m;
  taking_free = Flagged-off is_taking s.at p x (not s.locked) g.taking_free t;
  nobody = g.nobody;
}

free-locking :
    (s : State) (p : ℕ) → s.lock ≡ false → Good s → Good (record (go s p testing) { lock = true })
free-locking s p free g = record {
  lock_one = Only-first has_lock s.at p testing (subst (Flagged has_lock s.at) free g.lock_set);
  lock_set = Flagged-any has_lock (update s.at p testing);
  mutex_one = Only-off has_mutex s.at p testing g.mutex_one refl;
  mutex_set = Flagged-off has_mutex s.at p testing s.locked g.mutex_set refl;
  taking_free = Flagged-off is_taking s.at p testing (not s.locked) g.taking_free refl;
  nobody = g.nobody;
}

free-testing :
    (s : State) (p : ℕ) → s.at p ≡ testing → s.locked ≡ false → Good s → Good (go s p taking)
free-testing s p e free g = record {
  lock_one = Only-kept has_lock s.at p taking g.lock_one (ap has_lock e);
  lock_set = Flagged-kept has_lock s.at p taking s.lock g.lock_set (ap has_lock e);
  mutex_one = Only-off has_mutex s.at p taking g.mutex_one refl;
  mutex_set = Flagged-off has_mutex s.at p taking s.locked g.mutex_set refl;
  taking_free =
      subst (λ (b : Bool). Flagged is_taking (update s.at p taking) (not b)) (sym free)
        (Flagged-any is_taking (update s.at p taking));
  nobody = g.nobody;
}

takes :
    (s : State) (p : ℕ) → s.at p ≡ taking → Good s → Good (record (go s p taken) { locked = true })
unfolding Flagged
takes s p e g =
    let free : s.locked ≡ false = grind (arith, g.taking_free p (ap is_taking e)) in
    record {
      lock_one = Only-kept has_lock s.at p taken g.lock_one (ap has_lock e);
      lock_set = Flagged-kept has_lock s.at p taken s.lock g.lock_set (ap has_lock e);
      mutex_one =
          Only-first has_mutex s.at p taken (subst (Flagged has_mutex s.at) free g.mutex_set);
      mutex_set = Flagged-any has_mutex (update s.at p taken);
      taking_free =
          Flagged-last is_taking s.at p taken (Only-taking s.at g.lock_one) (ap is_taking e) refl;
      nobody = g.nobody;
    }

clears :
    (s : State) (p : ℕ)
    → s.at p ≡ clearing
    → Good s
    → Good (record (go s p cleared) { locked = false })
clears s p e g = record {
  lock_one = Only-kept has_lock s.at p cleared g.lock_one (ap has_lock e);
  lock_set = Flagged-kept has_lock s.at p cleared s.lock g.lock_set (ap has_lock e);
  mutex_one = Only-off has_mutex s.at p cleared g.mutex_one refl;
  mutex_set = Flagged-last has_mutex s.at p cleared g.mutex_one (ap has_mutex e) refl;
  taking_free = Flagged-any is_taking (update s.at p cleared);
  nobody = g.nobody;
}

nobody_woken :
    (s : State) (p : ℕ)
    → s.at p ≡ clearing
    → Good s
    → Good (record s {
      locked = false;
      wait_queue = without_last [];
      at = wake_last [] (update s.at p cleared);
    })
unfolding without_last wake_last
nobody_woken s p e g =
    let c = clears s p e g in
    record {
      lock_one = c.lock_one;
      lock_set = c.lock_set;
      mutex_one = c.mutex_one;
      mutex_set = c.mutex_set;
      taking_free = c.taking_free;
      nobody = refl;
    }

either :
    (b : Bool) (s t : State)
    → (b ≡ true → Good s)
    → (b ≡ false → Good t)
    → Good (if b then s else t)
either true s t f g = f refl
either false s t f g = g refl

step_at-Good :
    (s : State) (p : ℕ) (x : Point)
    → s.at p ≡ x
    → Good s
    → (step_at s p x).wait_queue ≡ []
    → Good (step_at s p x)
step_at-Good s p outside e g calm =
    away s p locking s.lock refl refl refl
      (Flagged-off has_lock s.at p locking s.lock g.lock_set refl) g
step_at-Good s p locking e g calm =
    either s.lock s (record (go s p testing) { lock = true }) (λ held. g)
      (λ free. free-locking s p free g)
step_at-Good s p testing e g calm =
    either s.locked (record (go s p asleep) { wait_queue = s.wait_queue ++ (p ∷ []); lock = false })
      (go s p taking)
      (λ held.
        let slept : (step_at s p testing).wait_queue ≡ s.wait_queue ++ (p ∷ []) = rw held refl in
        let one : p ∷ [] ≡ [] =
          ap (λ (ps : List ℕ). ps ++ (p ∷ [])) (sym g.nobody) ∙ sym slept ∙ calm in
        absurd (grind (arith, one)))
      (λ free. free-testing s p e free g)
step_at-Good s p asleep e g calm = g
step_at-Good s p taking e g calm = takes s p e g
step_at-Good s p taken e g calm =
    keeps s p inside false (ap has_mutex e) refl (Only-off has_lock s.at p inside g.lock_one refl)
      (Flagged-last has_lock s.at p inside g.lock_one (ap has_lock e) refl) g
step_at-Good s p inside e g calm =
    keeps s p unlocking s.lock (ap has_mutex e) refl
      (Only-off has_lock s.at p unlocking g.lock_one refl)
      (Flagged-off has_lock s.at p unlocking s.lock g.lock_set refl) g
step_at-Good s p unlocking e g calm =
    either s.lock s (record (go s p clearing) { lock = true }) (λ held. g)
      (λ free.
        keeps s p clearing true (ap has_mutex e) refl
          (Only-first has_lock s.at p clearing (subst (Flagged has_lock s.at) free g.lock_set))
          (Flagged-any has_lock (update s.at p clearing)) g)
step_at-Good s p clearing e g calm =
    subst
      (λ (ps : List ℕ). Good (record s {
        locked = false;
        wait_queue = without_last ps;
        at = wake_last ps (update s.at p cleared);
      }))
      (sym g.nobody) (nobody_woken s p e g)
step_at-Good s p cleared e g calm =
    away s p outside false refl refl refl
      (Flagged-last has_lock s.at p outside g.lock_one (ap has_lock e) refl) g

step-Good : (s : State) (p : ℕ) → Good s → (step s p).wait_queue ≡ [] → Good (step s p)
unfolding step
step-Good s p g calm = step_at-Good s p (s.at p) refl g calm

init-Good : Good init
unfolding Only Flagged
init-Good = record {
  lock_one = λ q r h. absurd (grind (arith, h));
  lock_set = λ q h. h;
  mutex_one = λ q r h. absurd (grind (arith, h));
  mutex_set = λ q h. h;
  taking_free = λ q h. refl;
  nobody = refl;
}

-- Nobody is asleep after any of the steps.
unfoldable pub IsCalm : State → List ℕ → Type 0
IsCalm s [] = Unit
IsCalm s (p ∷ ps) = ((step s p).wait_queue ≡ []) × IsCalm (step s p) ps

run-Good : (ps : List ℕ) (s : State) → Good s → IsCalm s ps → Good (run s ps)
unfolding IsCalm run
run-Good [] s g calm = g
run-Good (p ∷ ps) s g (now, later) = run-Good ps (step s p) (step-Good s p g now) later

-- In whatever order processes take their steps through mutex_lock and mutex_unlock, at most one of them has the
-- mutex at a time, as long as none has had to sleep in mutex_lock.
pub run-Only : (ps : List ℕ) → IsCalm init ps → Only has_mutex (run init ps).at
run-Only ps calm = let g = run-Good ps init init-Good calm in g.mutex_one
