-- ===== src/Proc/Signals/Tests.antt =====
-- Runs of the signals: 10, 17 and 19 are pending, and 17 has a handler.
use scales_os.Prelude.{
  ℕ, ◌≡◌, ◌≢◌, refl, true, false, ◌||◌, none, some, [], ◌∷◌, arith, ◌==◌, if◌then◌else◌,
}
use scales_os.Proc.Queues.{running, finished, Sched, is_finished}
use scales_os.Proc.Signals.{
  Signals, stops, enters, process_signals, send_signal, sig_defaults, shift_one,
}
use scales_os.Proc.Signals.Deliver.{clear, first, process_signals-first}
use scales_os.Proc.Signals.Stopping.{process_signals-never_stops}

abbrev three : Signals
three = record {
  pending = λ k. k == 17 || k == 19;
  ignored = λ k. false;
  handler = λ k. if k == 17 then 0x8000 else 0;
}

process_signals-first_example : process_signals three ≡ first (clear three 17) 17
process_signals-first_example =
    process_signals-first three 17 (omega arith) refl (λ k lt. ground (arith, lt))

-- The handler of 17 is entered, and 19 is still pending.
handler_entered : process_signals three ≡ enters 0x8000 17 (clear three 17)
unfolding first sig_defaults
handler_entered = process_signals-first three 17 (omega arith) refl (λ k lt. ground (arith, lt))

process_signals-never_stops_example : process_signals three ≢ stops three
process_signals-never_stops_example = process_signals-never_stops three three

-- Process 4 has finished, process 1 is the current one.
abbrev sched : Sched
sched = record {
  procs = λ p. record {
    state = if p == 4 then finished else running;
    interrupted = false;
    owners = [];
    wait_node = none;
    timeout_node = none;
    select_wait_node = 0;
    select_wait_event = 0;
  };
  queues = λ q. [];
  sleep_queue = [];
  ready_queue = 3 ∷ [];
}

abbrev tables : ℕ → Signals
tables p = three

-- The block node of process 4 has been freed.
not_sent_finished : send_signal sched tables 1 4 10 ≡ none
unfolding send_signal shift_one is_finished
not_sent_finished = refl

-- Signal 31 makes all the signals above it pending too; the shift by 32 is undefined.
sent_31 :
    (sched' : Sched) × (signals' : ℕ → Signals) × (send_signal sched tables 1 5 31
      ≡ some (sched', signals'))
    × ((signals' 5).pending 40 ≡ true)
unfolding send_signal shift_one is_finished
sent_31 = (_, _, refl, refl)

not_sent_32 : send_signal sched tables 1 5 32 ≡ none
unfolding send_signal shift_one
not_sent_32 = refl
