-- ===== src/Proc/Sleep/Tests.antt =====
-- Runs of the queue of sleepers: node 5 is due at 9 seconds and node 6 at 4.
use scales_os.Prelude.{ℕ, ◌≡◌, refl, some, [], ◌∷◌, arith, ◌==◌, if◌then◌else◌}
use scales_os.Proc.Sleep.{
  WaitNode, Sleepers, insert, is_later, find_target, remove, woken_first, wakeup_timing, deadline,
}
use scales_os.Proc.Sleep.Chain.{Chain, Fresh, Distinct}
use scales_os.Proc.Sleep.Insert.{place, insert-Chain}
use scales_os.Proc.Sleep.Wakeup.{Alone, due, not_due, wakeup_timing-due_prefix}

abbrev wait : ℕ → ℕ → WaitNode
wait s next = record { process = 40; seconds = s; microseconds = 0; next = next }

abbrev nodes : ℕ → WaitNode
nodes a =
    if a == 5 then wait 9 6 else if a == 6 then wait 4 0 else if a == 7 then wait 6 0 else wait 11 0

abbrev sleepers : Sleepers
sleepers = record { nodes = nodes; sleep_queue = 5 }

sleepers-Chain : Chain nodes 5 (5 ∷ 6 ∷ [])
unfolding Chain
sleepers-Chain = (refl, omega arith, (refl, omega arith, refl))

-- A node due at 6 seconds goes between the two.
insert-Chain_example :
    (q' : Sleepers) × (insert 3 sleepers 7 ≡ some q')
    × Chain q'.nodes q'.sleep_queue (place nodes 6 0 7 (5 ∷ 6 ∷ []))
unfolding Distinct Fresh is_later
insert-Chain_example =
    insert-Chain 5 (6 ∷ []) 2 sleepers 7 sleepers-Chain ((omega arith, tt), (tt, tt))
      (omega arith, (omega arith, tt)) (omega arith) refl (omega arith)

placed_between : place nodes 6 0 7 (5 ∷ 6 ∷ []) ≡ 5 ∷ 7 ∷ 6 ∷ []
unfolding place is_later
placed_between = refl

one_each : Alone (λ n. 0) (5 ∷ 6 ∷ [])
unfolding Alone Fresh
one_each = ((omega arith, tt), (tt, tt))

-- At 5 seconds nobody is woken: node 5, at the front, is not due.
wakeup_timing-due_prefix_example :
    (head : ℕ) × (wakeup_timing 3 (λ n. 0) sleepers 5 0
      ≡ some (due nodes 5 0 (5 ∷ 6 ∷ []), record sleepers { sleep_queue = head }))
    × Chain nodes head (not_due nodes 5 0 (5 ∷ 6 ∷ []))
wakeup_timing-due_prefix_example =
    wakeup_timing-due_prefix (5 ∷ 6 ∷ []) 3 (λ n. 0) sleepers 5 0 sleepers-Chain one_each
      (omega arith)

none_woken : wakeup_timing 3 (λ n. 0) sleepers 5 0 ≡ some ([], sleepers)
unfolding wakeup_timing is_later
none_woken = refl

carried : deadline 1900000 2 150000 ≡ (4, 50000)
unfolding deadline
carried = refl

-- At 10 seconds node 5 is woken, whose process also holds node 6.
both_gone :
    wakeup_timing 3 (λ n. if n == 5 then 6 else 0) sleepers 10 0
    ≡ some (5 ∷ [], record sleepers { sleep_queue = 0 })
unfolding wakeup_timing woken_first remove find_target is_later
both_gone = refl
