-- ===== src/Proc/Signals/Masks.antt =====
-- The masks of kernel/src/proc/process.c: a signal below 31 is one bit.
use scales_os.Prelude.{
  ℕ, zero, suc, ◌<◌, ◌≡◌, refl, ap, ◌∙◌, Bool, true, false, ◌&&◌, Bool-cases, inl, inr, some, arith,
  lt→ltb, ltb, ◌==◌,
}
use scales_os.Proc.Signals.{max_signal, shift_one, Signals, meet, is_ignored}

meet-single : (n : ℕ) (set : ℕ → Bool) (i : ℕ) → meet n set (λ k. k == i) ≡ (ltb i n && set i)
unfolding meet
meet-single zero set i = ground arith
meet-single (suc n) set i = elim (Bool-cases (n == i)) [
  | inl e ↦
      let same : n ≡ i = ground arith in
      let at : set n ≡ set i = ap (λ (x : ℕ). set x) same in ground (arith, meet-single n set i, at)
  | inr e ↦ ground (arith, meet-single n set i)
]

pub meet_bit : (set : ℕ → Bool) (i : ℕ) → i < 31 → meet max_signal set (λ k. k == i) ≡ set i
meet_bit set i h = meet-single 64 set i ∙ rw (lt→ltb i 64 (omega arith)) refl

pub meet-none : (n : ℕ) (set mask : ℕ → Bool) → ((k : ℕ) → set k ≡ false) → meet n set mask ≡ false
unfolding meet
meet-none zero set mask h = refl
meet-none (suc n) set mask h = rw (h n, meet-none n set mask h) refl

pub meet-some :
    (n : ℕ) (set mask : ℕ → Bool) (k : ℕ)
    → k < n
    → set k ≡ true
    → mask k ≡ true
    → meet n set mask ≡ true
unfolding meet
meet-some zero set mask k lt a b = absurd (omega (arith, lt))
meet-some (suc n) set mask k lt a b = elim (Bool-cases (k == n)) [
  | inl e ↦
      let same : n ≡ k = ground arith in
      let sa : set n ≡ true = ap (λ (x : ℕ). set x) same ∙ a in
      let sb : mask n ≡ true = ap (λ (x : ℕ). mask x) same ∙ b in rw (sa, sb) refl
  | inr e ↦
      let later : k < n = ground arith in
      let m = meet-some n set mask k later a b in ground (arith, m)
]

pub meet-found :
    (n : ℕ) (set mask : ℕ → Bool) → meet n set mask ≡ true → (k : ℕ) × (k < n) × (set k ≡ true)
unfolding meet
meet-found zero set mask h = absurd (grind arith)
meet-found (suc n) set mask h = elim (Bool-cases (set n)) [
  | inl e ↦ (n, omega arith, e)
  | inr e ↦
      let h' : meet n set mask ≡ true = ground arith in
      let (k, lt, found) = meet-found n set mask h' in (k, omega arith, found)
]

pub shift_one-bit : (sig : ℕ) → sig < 31 → shift_one sig ≡ some (λ k. k == sig)
unfolding shift_one
shift_one-bit sig h = rw (lt→ltb sig 31 h) refl

pub is_ignored-bit : (s : Signals) (sig : ℕ) → sig < 31 → is_ignored s sig ≡ some (s.ignored sig)
unfolding is_ignored
is_ignored-bit s sig h = rw (is_ignored, shift_one-bit sig h) (ap some (meet_bit s.ignored sig h))
