-- ===== src/Mutex/Tests.antt =====
-- Two processes that take turns, and three of which one is woken while another comes.
use scales_os.Prelude.{ℕ, ◌≡◌, refl, true, List, [], ◌∷◌}
use scales_os.Mutex.{init, step, run, has_mutex, without_last, wake_last}
use scales_os.Mutex.Exclusion.{Only, IsCalm, run-Only}

-- The second waits for the spinlock while the first takes the mutex, and gets it after the first.
abbrev turns : List ℕ
turns = 1 ∷ 1 ∷ 2 ∷ 1 ∷ 2 ∷ 1 ∷ 1 ∷ 1 ∷ 1 ∷ 1 ∷ 1 ∷ 2 ∷ 2 ∷ 2 ∷ 2 ∷ []

turns-IsCalm : IsCalm init turns
unfolding IsCalm step without_last wake_last
turns-IsCalm = (
  refl,
  (
    refl,
    (
      refl,
      (
        refl,
        (refl, (refl, (refl, (refl, (refl, (refl, (refl, (refl, (refl, (refl, (refl, tt))))))))))),
      ),
    ),
  ),
)

-- The second sleeps, is woken without the spinlock, and takes the mutex together with the third.
abbrev woken : List ℕ
woken = 1 ∷ 1 ∷ 1 ∷ 1 ∷ 1 ∷ 2 ∷ 2 ∷ 2 ∷ 1 ∷ 1 ∷ 1 ∷ 1 ∷ 3 ∷ 3 ∷ 3 ∷ 2 ∷ 3 ∷ 2 ∷ []

both : (has_mutex ((run init woken).at 2) ≡ true) × (has_mutex ((run init woken).at 3) ≡ true)
unfolding run step without_last wake_last
both = (refl, refl)

run-Only_example : Only has_mutex (run init turns).at
run-Only_example = run-Only turns turns-IsCalm
