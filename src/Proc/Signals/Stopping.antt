-- ===== src/Proc/Signals/Stopping.antt =====
-- No signal stops a process (kernel/src/proc/process.c): the default of SIGSTOP is SIGSTOP, not SIG_STOP.
use scales_os.Prelude.{
  ℕ, zero, suc, ◌+◌, ◌≡◌, ◌≢◌, refl, ap, Bool, true, false, Bool-cases, Option-cases, inl, inr,
  arith, leb, ◌==◌,
}
use scales_os.Proc.Signals.{
  max_signal, shift_one, sig_terminate, sig_stop, Signals, meet, some_pending, Outcome, goes_on,
  exits, stops, enters, undefined_behaviour, Handled, returned, ended, is_ignored, take_signal,
  handle_signal, react, deliver_round, without, deliver, process_signals,
}
use scales_os.Proc.Signals.Deliver.{sig_defaults-cases}

is_stop : Outcome → Bool
is_stop (stops s) = true
is_stop (goes_on s) = false
is_stop (exits status) = false
is_stop (enters handler sig s) = false
is_stop undefined_behaviour = false

ends_stopped : Handled → Bool
unfolding is_stop
ends_stopped (returned stop) = false
ends_stopped (ended outcome) = is_stop outcome

take_signal-runs : (s : Signals) (sig : ℕ) → ends_stopped (take_signal s sig) ≡ false
unfolding ends_stopped take_signal
take_signal-runs s sig = elim (Bool-cases (s.handler sig == 0)) [
  | inl own ↦ elim (sig_defaults-cases sig) [
    | inl d ↦ rw (own, d) refl
    | inr (d, is, ne) ↦
        let no_stop : (d == sig_stop) ≡ false = ground arith in
        elim (Bool-cases (d == sig_terminate)) [
          | inl e ↦ rw (own, is, e) refl
          | inr e ↦ rw (own, is, e, no_stop) refl
        ]
  ]
  | inr own ↦ rw own refl
]

handle_signal-runs : (s : Signals) (sig : ℕ) → ends_stopped (handle_signal s sig) ≡ false
unfolding ends_stopped handle_signal
handle_signal-runs s sig = elim (Bool-cases (leb max_signal sig)) [
  | inl e ↦ rw (handle_signal, e) refl
  | inr e ↦ elim (Option-cases (is_ignored s sig)) [
    | inl i ↦ rw (handle_signal, e, i) refl
    | inr (b, i) ↦ elim (Bool-cases b) [
      | inl t ↦ rw (handle_signal, e, i, t) refl
      | inr t ↦ rw (handle_signal, e, i, t) (take_signal-runs s sig)
    ]
  ]
]

react-runs :
    (h : Handled) (s : Signals) (rest : Signals → Outcome)
    → ends_stopped h ≡ false
    → ((t : Signals) → is_stop (rest t) ≡ false)
    → is_stop (react h s rest) ≡ false
unfolding is_stop react ends_stopped
react-runs (returned true) s rest e f = refl
react-runs (returned false) s rest e f = f s
react-runs (ended outcome) s rest e f = e

round-runs :
    (b : Bool) (i : ℕ) (check : ℕ → Bool) (s : Signals) (rest : Signals → Outcome)
    → ((t : Signals) → is_stop (rest t) ≡ false)
    → is_stop (deliver_round b i check s rest) ≡ false
unfolding deliver_round
round-runs false i check s rest f = f s
round-runs true i check s rest f =
    react-runs (handle_signal (without s check) i) (without s check) rest
      (handle_signal-runs (without s check) i) f

deliver-runs : (left i : ℕ) (s : Signals) → is_stop (deliver i left s) ≡ false
unfolding deliver is_stop
deliver-runs zero i s = refl
deliver-runs (suc left) i s = elim (Option-cases (shift_one i)) [
  | inl e ↦ rw (deliver, e) refl
  | inr (check, e) ↦
      rw (deliver, e)
        (round-runs (meet max_signal s.pending check) i check s (λ t. deliver (i + 1) left t)
          (λ t. deliver-runs left (i + 1) t))
]

-- Whatever is pending and SIGSTOP too, and whatever is ignored, delivering the signals of a process does not
-- come to where it is stopped: it goes on, exits, enters a handler, or does what C leaves undefined.
pub process_signals-never_stops : (s s' : Signals) → process_signals s ≢ stops s'
unfolding process_signals is_stop
process_signals-never_stops s s' e =
    let runs : is_stop (process_signals s) ≡ false = elim (Bool-cases (some_pending s)) [
      | inl p ↦ rw (process_signals, p) (deliver-runs max_signal 0 s)
      | inr p ↦ rw (process_signals, p) refl
    ] in
    let stopped : is_stop (process_signals s) ≡ true = ap is_stop e in absurd (grind arith)
