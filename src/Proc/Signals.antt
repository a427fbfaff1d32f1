-- ===== src/Proc/Signals.antt =====
-- Signals, in kernel/src/proc/process.c: sending one, and handing the pending ones to the process on
-- its way back to user mode. A set of signals stands as its 64 bits. `1 << sig` is a shift of a
-- 32-bit int that is then widened: for 31 it has the bits 31 to 63, and from 32 on it is undefined.
pub mod Masks
pub mod Deliver
pub mod Stopping
mod Tests
use scales_os.Prelude.{
  ℕ, zero, suc, ◌+◌, ◌*◌, ◌≤◌, Bool, true, false, not, ◌&&◌, ◌||◌, Option, none, some, ltb, leb,
  ◌==◌, if◌then◌else◌,
}
use scales_os.Proc.Queues.{Sched, is_finished, wakeup_on_signal}

-- MAX_SIGNAL
abbrev pub max_signal : ℕ
max_signal = 64

-- `1 << sig` in a uint64_t, as its bits
pub shift_one : (sig : ℕ) → Option (ℕ → Bool)
shift_one sig =
    if ltb sig 31 then some (λ k. k == sig) else if sig == 31 then some (λ k. leb 31 k) else none

-- What `sig_defaults` says: SIG_IGNORE, SIG_TERMINATE, SIG_STOP, or the number that stands there.
abbrev pub sig_terminate : ℕ
sig_terminate = 1

abbrev pub sig_stop : ℕ
sig_stop = 2

-- `sig_defaults`, whose last entry is that of SIGSTOP; behind it there is no entry.
pub sig_defaults : (sig : ℕ) → Option ℕ
sig_defaults sig =
    if sig == 19
    then some 19
    else if sig == 2 || sig == 3 || sig == 6 || sig == 9 || sig == 10 || sig == 12 || sig == 11
    then some sig_terminate
    else if ltb sig 19
    then some 0
    else none

-- The part of `process_t` that signals use: `handler` is the address of the handler, or 0.
pub record Signals : Type 0 where
  pub pending : ℕ → Bool
  pub ignored : ℕ → Bool
  pub handler : ℕ → ℕ

-- The bits below `n` of a set that are in another.
pub meet : (n : ℕ) → (set mask : ℕ → Bool) → Bool
meet zero set mask = false
meet (suc n) set mask = (set n && mask n) || meet n set mask

-- `signal_queue`, whether it is not 0
pub some_pending : Signals → Bool
unfolding meet
some_pending s = meet max_signal s.pending (λ k. true)

-- What becomes of a process whose signals are handled: it goes on, exits with a status, sleeps after
-- SIG_STOP, enters a handler, or the code does what C leaves open.
pub data Outcome : Type 0 where
  goes_on : Signals → Outcome
  exits : (status : ℕ) → Outcome
  stops : Signals → Outcome
  enters : (handler sig : ℕ) → Signals → Outcome
  undefined_behaviour : Outcome

-- `((128 + sig) << 4) | sig`, for a signal below 16
pub exit_status : (sig : ℕ) → ℕ
exit_status sig = (128 + sig) * 16 + sig

-- What `k_proc_process_handle_signal` does with one signal; `true` for a return of 1.
pub data Handled : Type 0 where
  returned : Bool → Handled
  ended : Outcome → Handled

-- IS_SIGNAL_IGNORED
pub is_ignored : Signals → (sig : ℕ) → Option Bool
unfolding shift_one meet
is_ignored s sig = elim (shift_one sig) [
  | none ↦ none
  | some check ↦ some (meet max_signal s.ignored check)
]

-- The default of a signal, or the handler.
pub take_signal : Signals → (sig : ℕ) → Handled
unfolding some_pending sig_defaults exit_status
take_signal s sig =
    if s.handler sig == 0
    then elim (sig_defaults sig) [
      | none ↦ ended undefined_behaviour
      | some def ↦
          if def == sig_terminate
          then ended (exits (exit_status sig))
          else if def == sig_stop
          then ended (stops s)
          else returned (not (some_pending s))
    ]
    else ended (enters (s.handler sig) sig s)

-- `k_proc_process_handle_signal`
pub handle_signal : Signals → (sig : ℕ) → Handled
unfolding is_ignored take_signal
handle_signal s sig = if leb max_signal sig then returned true else elim (is_ignored s sig) [
  | none ↦ ended undefined_behaviour
  | some ignored ↦ if ignored then returned true else take_signal s sig
]

-- `signal_queue &= ~check`
abbrev pub without : Signals → (mask : ℕ → Bool) → Signals
without s mask = record s { pending = λ k. s.pending k && not (mask k) }

-- What follows a signal that was handled: a return of 1 ends the loop.
pub react : Handled → Signals → (rest : Signals → Outcome) → Outcome
react (returned true) s rest = goes_on s
react (returned false) s rest = rest s
react (ended outcome) s rest = outcome

-- A round of the loop, with whether the signal is pending.
pub deliver_round :
    (is_pending : Bool)
    → (i : ℕ) → (check : ℕ → Bool) → Signals
    → (rest : Signals → Outcome) → Outcome
unfolding react handle_signal
deliver_round false i check s rest = rest s
deliver_round true i check s rest = let s' = without s check in react (handle_signal s' i) s' rest

-- The loop of `k_proc_process_process_signals` over the last `left` signals.
pub deliver : (i left : ℕ) → Signals → Outcome
unfolding shift_one meet deliver_round
deliver i zero s = goes_on s
deliver i (suc left) s = elim (shift_one i) [
  | none ↦ undefined_behaviour
  | some check ↦
      deliver_round (meet max_signal s.pending check) i check s (λ s'. deliver (i + 1) left s')
]

-- `k_proc_process_process_signals`
pub process_signals : Signals → Outcome
unfolding deliver some_pending
process_signals s = if some_pending s then deliver 0 max_signal s else goes_on s

-- `k_proc_process_send_signal` of a signal that is not negative; `none` is what C leaves undefined, also the
-- use of the block node of a process that has finished, which `k_proc_process_exit` has freed.
pub send_signal : Sched → (ℕ → Signals) → (current p sig : ℕ) → Option (Sched × (ℕ → Signals))
unfolding shift_one
send_signal sched signals current p sig =
    if leb max_signal sig then some (sched, signals) else elim (shift_one sig) [
      | none ↦ none
      | some check ↦
          if not (p == current) && is_finished (sched.procs p).state
          then none
          else some (
            wakeup_on_signal sched current p,
            λ j.
                if j == p
                then record (signals p) { pending = λ k. (signals p).pending k || check k }
                else signals j,
          )
    ]
