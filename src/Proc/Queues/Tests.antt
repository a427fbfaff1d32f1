-- ===== src/Proc/Queues/Tests.antt =====
-- Runs of the scheduler's queues: the processes 1 and 2 sleep in the queue 5, and 3 runs.
use scales_os.Prelude.{ℕ, ◌<◌, ◌≡◌, refl, false, none, [], ◌∷◌, arith}
use scales_os.Proc.Queues.{
  running, sleeping, Sched, own_block, release_block, mark_ready, sleep_on_queue, wakeup_queue,
  wakeup_queue_single, unlink, invalidate_locks, leave, pop_back, wakes, is_finished, is_ready,
  delete,
}
use scales_os.Proc.Queues.Counts.{count, Linked}
use scales_os.Proc.Queues.Emptying.{wakeup_queue-Awake}
use scales_os.Proc.Queues.Runs.{sleep, wake_all, wake_one, switch, call, run, run-Linked}

abbrev idle_sched : Sched
idle_sched = record {
  procs = λ p. record {
    state = running;
    interrupted = false;
    owners = [];
    wait_node = none;
    timeout_node = none;
    select_wait_node = 0;
    select_wait_event = 0;
  };
  queues = λ q. [];
  sleep_queue = [];
  ready_queue = 3 ∷ [];
}

idle_sched-Linked : Linked idle_sched
unfolding Linked count
idle_sched-Linked p q = refl

abbrev waiting : Sched
waiting = run (sleep 1 5 ∷ sleep 2 5 ∷ []) idle_sched

waiting-Linked : Linked waiting
waiting-Linked = run-Linked (sleep 1 5 ∷ sleep 2 5 ∷ []) idle_sched idle_sched-Linked

run-Linked_example :
    Linked (run (sleep 1 5 ∷ sleep 2 5 ∷ wake_one 5 ∷ switch 0 ∷ wake_all 5 ∷ []) idle_sched)
run-Linked_example =
    run-Linked (sleep 1 5 ∷ sleep 2 5 ∷ wake_one 5 ∷ switch 0 ∷ wake_all 5 ∷ []) idle_sched
      idle_sched-Linked

wakeup_queue-Awake_example :
    ((wakeup_queue 2 waiting 5).queues 5 ≡ [])
    × ((p : ℕ)
        → (waiting.procs p).state ≡ sleeping
        → 0 < count p (waiting.queues 5)
        → ((wakeup_queue 2 waiting 5).procs p).state ≡ running)
unfolding run call sleep_on_queue own_block
wakeup_queue-Awake_example = wakeup_queue-Awake 2 waiting 5 (omega arith)

-- The last to sleep is the first to be woken.
wake_order : (wakeup_queue 2 waiting 5).ready_queue ≡ 3 ∷ 2 ∷ 1 ∷ []
unfolding run call sleep_on_queue own_block wakeup_queue wakeup_queue_single unlink mark_ready
    invalidate_locks release_block leave pop_back wakes is_finished is_ready delete
wake_order = refl
