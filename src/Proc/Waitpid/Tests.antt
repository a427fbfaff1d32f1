-- ===== src/Proc/Waitpid/Tests.antt =====
-- Runs of waiting for a child: 7 lives on and 8 ends with status 3 during the first sleep.
use scales_os.Prelude.{ℕ, ◌≡◌, refl, Bool, true, false, List, [], ◌∷◌, arith}
use scales_os.Proc.Waitpid.{
  pos, negsuc, Child, echild, can_pick, search, remove_child, reaped, failed, wait_round, wait_loop,
  waitpid,
}
use scales_os.Proc.Waitpid.Reaping.{some_match, first_finished, rounds, Alive, waitpid-reaps}

abbrev child : ℕ → Bool → Child
child pid finished = record { pid = pid; group_id = 1; finished = finished; status = 3 }

abbrev both : List Child
both = child 7 false ∷ child 8 false ∷ []

abbrev one_finished : List Child
one_finished = child 7 false ∷ child 8 true ∷ []

waitpid-reaps_example :
    waitpid 1 (negsuc 0) 0 both (one_finished ∷ []) ≡ reaped 8 3 (child 7 false ∷ [])
unfolding rounds Alive some_match first_finished can_pick remove_child
waitpid-reaps_example =
    waitpid-reaps 1 (negsuc 0) 0 (both ∷ []) one_finished [] (child 8 true) (omega arith) refl
      ((refl, refl), tt) refl

-- There is no child 9.
no_such_child : waitpid 1 (pos 9) 0 both [] ≡ failed echild
unfolding waitpid wait_loop wait_round search can_pick
no_such_child = refl
