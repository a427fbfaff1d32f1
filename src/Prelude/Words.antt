-- ===== src/Prelude/Words.antt =====
-- 32-bit words as native numbers: sums and differences wrap, and single bits are read and written.
use Prim.Native.Nat.{ℕ, zero, suc, ◌+◌, ◌-◌, ◌*◌, ◌/◌, ◌%◌, ◌^◌}
use mathlib.Core.Path.{◌≡◌, refl, ap}
use mathlib.Core.Logic.{◌≢◌}
use mathlib.Core.Bool.{Bool, true, false}
use native.Mathlib.Omega.{arith}
use scales_os.Prelude.Tests.{◌==◌}

abbrev pub u32_mod : ℕ
u32_mod = 2 ^ 32

abbrev pub add32 : ℕ → ℕ → ℕ
add32 a b = (a + b) % 2 ^ 32

abbrev pub sub32 : ℕ → ℕ → ℕ
sub32 a b = (a + 2 ^ 32 - b) % 2 ^ 32

abbrev pub mul32 : ℕ → ℕ → ℕ
mul32 a b = a * b % 2 ^ 32

-- `x & (1 << j)`
unfoldable pub test_bit : ℕ → ℕ → Bool
test_bit x zero = x % 2 == 1
test_bit x (suc j) = test_bit (x / 2) j

-- `x & ~(1 << j)`
unfoldable pub clear_bit : ℕ → ℕ → ℕ
clear_bit x zero = x / 2 * 2
clear_bit x (suc j) = clear_bit (x / 2) j * 2 + x % 2

-- `x | (1 << j)`
unfoldable pub set_bit : ℕ → ℕ → ℕ
set_bit x zero = x / 2 * 2 + 1
set_bit x (suc j) = set_bit (x / 2) j * 2 + x % 2

pub test_bit-zero : (j : ℕ) → test_bit 0 j ≡ false
unfolding test_bit
test_bit-zero zero = refl
test_bit-zero (suc j) = test_bit-zero j

pub clear_bit-zero : (j : ℕ) → clear_bit 0 j ≡ 0
unfolding clear_bit
clear_bit-zero zero = refl
clear_bit-zero (suc j) = omega (arith, clear_bit-zero j)

pub test_bit-clear_self : (x j : ℕ) → test_bit (clear_bit x j) j ≡ false
unfolding test_bit clear_bit
test_bit-clear_self x zero = ground arith
test_bit-clear_self x (suc j) =
    let e : (clear_bit (x / 2) j * 2 + x % 2) / 2 ≡ clear_bit (x / 2) j = omega arith in
    ground (arith, test_bit-clear_self (x / 2) j, ap (λ y. test_bit y j) e)

pub test_bit-set_self : (x j : ℕ) → test_bit (set_bit x j) j ≡ true
unfolding test_bit set_bit
test_bit-set_self x zero = ground arith
test_bit-set_self x (suc j) =
    let e : (set_bit (x / 2) j * 2 + x % 2) / 2 ≡ set_bit (x / 2) j = omega arith in
    ground (arith, test_bit-set_self (x / 2) j, ap (λ y. test_bit y j) e)

pub test_bit-clear_ne : (x j k : ℕ) → j ≢ k → test_bit (clear_bit x j) k ≡ test_bit x k
unfolding test_bit clear_bit
test_bit-clear_ne x zero zero h = absurd (h refl)
test_bit-clear_ne x zero (suc k) h = ap (λ y. test_bit y k) (omega arith)
test_bit-clear_ne x (suc j) zero h = ap (λ y. y == 1) (omega arith)
test_bit-clear_ne x (suc j) (suc k) h =
    let e : (clear_bit (x / 2) j * 2 + x % 2) / 2 ≡ clear_bit (x / 2) j = omega arith in
    ground (arith, test_bit-clear_ne (x / 2) j k (λ p. h (ap suc p)), ap (λ y. test_bit y k) e)

pub test_bit-set_ne : (x j k : ℕ) → j ≢ k → test_bit (set_bit x j) k ≡ test_bit x k
unfolding test_bit set_bit
test_bit-set_ne x zero zero h = absurd (h refl)
test_bit-set_ne x zero (suc k) h = ap (λ y. test_bit y k) (omega arith)
test_bit-set_ne x (suc j) zero h = ap (λ y. y == 1) (omega arith)
test_bit-set_ne x (suc j) (suc k) h =
    let e : (set_bit (x / 2) j * 2 + x % 2) / 2 ≡ set_bit (x / 2) j = omega arith in
    ground (arith, test_bit-set_ne (x / 2) j k (λ p. h (ap suc p)), ap (λ y. test_bit y k) e)
