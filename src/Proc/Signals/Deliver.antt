-- ===== src/Proc/Signals/Deliver.antt =====
-- What the pending signals come to (kernel/src/proc/process.c).
use scales_os.Prelude.{
  ℕ, zero, suc, ◌+◌, ◌-◌, ◌≤◌, ◌<◌, ◌≡◌, ◌≢◌, ◌⊎◌, refl, sym, ap, ap₂, ◌∙◌, Bool, true, false, not,
  ◌||◌, Bool-cases, inl, inr, none, some, arith, ltb, leb, ◌==◌, if◌then◌else◌,
}
use scales_os.Proc.Signals.{
  max_signal, sig_defaults, sig_terminate, sig_stop, exit_status, Signals, some_pending, Outcome,
  goes_on, exits, stops, enters, undefined_behaviour, Handled, returned, ended, take_signal,
  handle_signal, react, deliver_round, without, deliver, process_signals,
}
use scales_os.Proc.Signals.Masks.{meet_bit, meet-some, shift_one-bit, is_ignored-bit}

-- One signal off the pending ones.
abbrev pub clear : Signals → (sig : ℕ) → Signals
clear s sig = without s (λ k. k == sig)

-- The loop below 31: a round looks at one bit.
deliver-round :
    (i left : ℕ) (s : Signals)
    → i < 31
    → deliver i (suc left) s
      ≡ deliver_round (s.pending i) i (λ k. k == i) s (λ s'. deliver (i + 1) left s')
unfolding deliver
deliver-round i left s h =
    rw (deliver, shift_one-bit i h)
      (ap (λ (b : Bool). deliver_round b i (λ k. k == i) s (λ s'. deliver (i + 1) left s'))
        (meet_bit s.pending i h))

round-pending :
    (i : ℕ) (check : ℕ → Bool) (s : Signals) (rest : Signals → Outcome)
    → deliver_round true i check s rest
      ≡ react (handle_signal (without s check) i) (without s check) rest
unfolding deliver_round
round-pending i check s rest = refl

-- A signal that is not pending is passed over.
deliver-skip :
    (i left : ℕ) (s : Signals)
    → i < 31
    → s.pending i ≡ false
    → deliver i (suc left) s ≡ deliver (i + 1) left s
unfolding deliver_round
deliver-skip i left s h e =
    deliver-round i left s h
    ∙ ap (λ (b : Bool). deliver_round b i (λ k. k == i) s (λ s'. deliver (i + 1) left s')) e

-- A signal that is pending is handled.
deliver-takes :
    (i left : ℕ) (s : Signals)
    → i < 31
    → s.pending i ≡ true
    → deliver i (suc left) s
      ≡ react (handle_signal (clear s i) i) (clear s i) (λ s'. deliver (i + 1) left s')
deliver-takes i left s h e =
    deliver-round i left s h
    ∙ ap (λ (b : Bool). deliver_round b i (λ k. k == i) s (λ s'. deliver (i + 1) left s')) e
    ∙ round-pending i (λ k. k == i) s (λ s'. deliver (i + 1) left s')

-- Below the first pending signal nothing happens.
deliver-skips :
    (n i left : ℕ) (s : Signals)
    → i + n ≤ 31
    → ((k : ℕ) → k < i + n → s.pending k ≡ false)
    → deliver i (n + left) s ≡ deliver (i + n) left s
deliver-skips zero i left s h e = ap₂ (λ (x y : ℕ). deliver x y s) (omega arith) (omega arith)
deliver-skips (suc n) i left s h e =
    ap (λ (x : ℕ). deliver i x s) (omega arith)
    ∙ deliver-skip i (n + left) s (omega (arith, h)) (e i (omega arith))
    ∙ deliver-skips n (i + 1) left s (omega (arith, h)) (λ k lt. e k (omega (arith, lt)))
    ∙ ap (λ (x : ℕ). deliver x left s) (omega arith)

handle-bit :
    (s : Signals) (sig : ℕ)
    → sig < 31
    → handle_signal s sig ≡ (if s.ignored sig then returned true else take_signal s sig)
unfolding handle_signal
handle-bit s sig h =
    let e : leb max_signal sig ≡ false = ground arith in
    rw (handle_signal, e, is_ignored-bit s sig h) refl

-- What handling the signal `sig` means, in the state `s` with the signal off the pending ones: ignored,
-- it ends the delivery; with no handler its default counts, and the other signals follow.
unfoldable pub first : Signals → (sig : ℕ) → Outcome
first s sig =
    if s.ignored sig
    then goes_on s
    else if s.handler sig == 0
    then elim (sig_defaults sig) [
      | none ↦ undefined_behaviour
      | some def ↦ if def == sig_terminate then exits (exit_status sig) else process_signals s
    ]
    else enters (s.handler sig) sig s

-- No default is SIG_STOP.
pub sig_defaults-cases :
    (sig : ℕ) → (sig_defaults sig ≡ none) ⊎ ((d : ℕ) × (sig_defaults sig ≡ some d) × (d ≢ 2))
unfolding sig_defaults
sig_defaults-cases sig = elim (Bool-cases (sig == 19)) [
  | inl a ↦ inr (19, rw (sig_defaults, a) refl, omega arith)
  | inr a ↦
      elim (Bool-cases
        (sig == 2 || sig == 3 || sig == 6 || sig == 9 || sig == 10 || sig == 12 || sig == 11)) [
          | inl b ↦ inr (1, rw (sig_defaults, a, b) refl, omega arith)
          | inr b ↦ elim (Bool-cases (ltb sig 19)) [
            | inl c ↦ inr (0, rw (sig_defaults, a, b, c) refl, omega arith)
            | inr c ↦ inl (rw (sig_defaults, a, b, c) refl)
          ]
        ]
]

deliver-start :
    (n left : ℕ) (s : Signals)
    → n ≤ 31
    → ((k : ℕ) → k < n → s.pending k ≡ false)
    → deliver 0 (n + left) s ≡ deliver n left s
deliver-start n left s h e =
    deliver-skips n 0 left s (omega (arith, h)) (λ k lt. e k (omega (arith, lt)))
    ∙ ap (λ (x : ℕ). deliver x left s) (omega arith)

-- The loop goes on behind a signal as it would from the start.
continue :
    (s : Signals) (i : ℕ)
    → i ≤ 31
    → ((k : ℕ) → k < i → s.pending k ≡ false)
    → react (returned (not (some_pending s))) s (λ s'. deliver i (64 - i) s') ≡ process_signals s
unfolding react process_signals
continue s i h below =
    let split : 64 ≡ i + (64 - i) = omega (arith, h) in
    elim (Bool-cases (some_pending s)) [
      | inl e ↦
          rw e (sym (ap (λ (x : ℕ). deliver 0 x s) split ∙ deliver-start i (64 - i) s h below))
      | inr e ↦ rw e refl
    ]

default_taken :
    (s : Signals) (sig d : ℕ)
    → sig < 31
    → ((k : ℕ) → k < sig + 1 → s.pending k ≡ false)
    → d ≢ 2
    → react
        (if d == sig_terminate
          then ended (exits (exit_status sig))
          else if d == sig_stop
          then ended (stops s)
          else returned (not (some_pending s)))
        s
        (λ s'. deliver (sig + 1) (64 - (sig + 1)) s')
      ≡ (if d == sig_terminate then exits (exit_status sig) else process_signals s)
unfolding react
default_taken s sig d h below ne =
    let no_stop : (d == sig_stop) ≡ false = ground arith in
    elim (Bool-cases (d == sig_terminate)) [
      | inl e ↦ rw e refl
      | inr e ↦ rw (e, no_stop) (continue s (sig + 1) (omega (arith, h)) below)
    ]

taken :
    (s : Signals) (sig : ℕ)
    → sig < 31
    → ((k : ℕ) → k < sig + 1 → s.pending k ≡ false)
    → react
        (if s.ignored sig then returned true else take_signal s sig)
        s
        (λ s'. deliver (sig + 1) (64 - (sig + 1)) s')
      ≡ first s sig
unfolding first take_signal react
taken s sig h below = elim (Bool-cases (s.ignored sig)) [
  | inl e ↦ rw e refl
  | inr e ↦ elim (Bool-cases (s.handler sig == 0)) [
    | inl own ↦ elim (sig_defaults-cases sig) [
      | inl d ↦ rw (e, own, d) refl
      | inr (d, is, ne) ↦ rw (e, own, is) (default_taken s sig d h below ne)
    ]
    | inr own ↦ rw (e, own) refl
  ]
]

-- The lowest pending signal, below 31, is taken first and dropped from the pending ones. An ignored one
-- ends the delivery and a handler is entered; without one, the default exits with its status or lets
-- the delivery go on with the other signals, and a signal behind the table is undefined behaviour.
pub process_signals-first :
    (s : Signals) (sig : ℕ)
    → sig < 31
    → s.pending sig ≡ true
    → ((k : ℕ) → k < sig → s.pending k ≡ false)
    → process_signals s ≡ first (clear s sig) sig
unfolding process_signals some_pending
process_signals-first s sig h e below =
    let some_left : some_pending s ≡ true =
      meet-some 64 s.pending (λ k. true) sig (omega (arith, h)) e refl in
    let cleared : (k : ℕ) → k < sig + 1 → (clear s sig).pending k ≡ false = λ k lt.
      elim (Bool-cases (k == sig)) [
        | inl same ↦ ground (arith, same)
        | inr other ↦ let early : k < sig = ground (arith, other, lt) in rw (below k early) refl
      ] in
    let split : 64 ≡ sig + suc (64 - (sig + 1)) = omega (arith, h) in
    rw (process_signals, some_left)
      (ap (λ (x : ℕ). deliver 0 x s) split
        ∙ deliver-start sig (suc (64 - (sig + 1))) s (omega (arith, h)) below
        ∙ deliver-takes sig (64 - (sig + 1)) s h e
        ∙ ap (λ (x : Handled). react x (clear s sig) (λ s'. deliver (sig + 1) (64 - (sig + 1)) s'))
            (handle-bit (clear s sig) sig h)
        ∙ taken (clear s sig) sig h cleared)
