-- ===== src/Pmm/Bitmap.antt =====
-- The bitmap as a set of free frame numbers.
use scales_os.Prelude.{
  ℕ, zero, suc, ◌+◌, ◌-◌, ◌/◌, ◌%◌, ◌≤◌, ◌<◌, ◌≡◌, refl, ap, ◌∙◌, Bool, true, false, List, [], ◌∷◌,
  ◌++◌, arith, length, get_or, set, replicate, length-set, get_or-set_self, get_or-set_ne, test_bit,
  clear_bit, set_bit, test_bit-zero, test_bit-clear_self, test_bit-clear_ne, test_bit-set_self,
  test_bit-set_ne, ◌==◌, if◌then◌else◌,
}
use native.Mathlib.Decide.{dec_lt, ℕ_discrete}
use scales_os.Pmm.{clear_frame, set_frame, extend, bitmap_index}

-- Frame number `k` is free.
unfoldable pub free_at : List ℕ → ℕ → Bool
free_at bitmap k = test_bit (get_or bitmap (k / 32) 0) (k % 32)

pub get_or-past : (xs : List ℕ) (i : ℕ) → length xs ≤ i → get_or xs i 0 ≡ 0
get_or-past [] i h = refl
get_or-past (x ∷ xs) zero h = absurd (omega arith)
get_or-past (x ∷ xs) (suc i) h = get_or-past xs i (omega arith)

-- A word of the bitmap after one of them is written.
pub get_or-set :
    (xs : List ℕ) (i j v : ℕ)
    → i < length xs
    → get_or (set xs i v) j 0 ≡ (if j == i then v else get_or xs j 0)
get_or-set xs i j v h = elim (ℕ_discrete i j) [
  | yes e ↦ rw (← e) (get_or-set_self xs i v 0 h ∙ ground arith)
  | no ne ↦ get_or-set_ne xs i j v 0 ne ∙ ground arith
]

pub length-clear_frame : (bm : List ℕ) (f : ℕ) → length (clear_frame bm f) ≡ length bm
unfolding clear_frame
length-clear_frame bm f = length-set bm _ _

pub length-set_frame : (bm : List ℕ) (f : ℕ) → length (set_frame bm f) ≡ length bm
unfolding set_frame
length-set_frame bm f = length-set bm _ _

pub set-past : (xs : List ℕ) (i v : ℕ) → length xs ≤ i → set xs i v ≡ xs
set-past [] i v h = refl
set-past (x ∷ xs) zero v h = absurd (omega arith)
set-past (x ∷ xs) (suc i) v h = ap (◌∷◌ x) (set-past xs i v (omega arith))

-- Clearing takes exactly one frame out of the set.
pub free_at-clear_frame :
    (bm : List ℕ) (f k : ℕ)
    → free_at (clear_frame bm f) k ≡ (if k == f / 0x1000 then false else free_at bm k)
unfolding clear_frame free_at
free_at-clear_frame bm f k = elim (dec_lt (bitmap_index f) (length bm)) [
  | yes h ↦ ground (
    arith,
    get_or-set bm (bitmap_index f) (k / 32)
        (clear_bit (get_or bm (bitmap_index f) 0) (f / 0x1000 % 32)) h,
    test_bit-clear_self (get_or bm (bitmap_index f) 0) (f / 0x1000 % 32),
    test_bit-clear_ne (get_or bm (bitmap_index f) 0) (f / 0x1000 % 32) (k % 32),
  )
  | no h ↦
      rw (set-past bm (bitmap_index f) _ (omega arith))
        (ground (arith, get_or-past bm (bitmap_index f), test_bit-zero (f / 0x1000 % 32)))
]

pub free_at-set_frame :
    (bm : List ℕ) (f k : ℕ)
    → bitmap_index f < length bm
    → free_at (set_frame bm f) k ≡ (if k == f / 0x1000 then true else free_at bm k)
unfolding set_frame free_at
free_at-set_frame bm f k h = ground (
  arith,
  get_or-set bm (bitmap_index f) (k / 32) (set_bit (get_or bm (bitmap_index f) 0) (f / 0x1000 % 32))
      h,
  test_bit-set_self (get_or bm (bitmap_index f) 0) (f / 0x1000 % 32),
  test_bit-set_ne (get_or bm (bitmap_index f) 0) (f / 0x1000 % 32) (k % 32),
)

pub get_or-extend : (xs : List ℕ) (n i : ℕ) → get_or (xs ++ replicate n 0) i 0 ≡ get_or xs i 0
get_or-extend [] zero i = refl
get_or-extend [] (suc n) zero = refl
get_or-extend [] (suc n) (suc i) = get_or-extend [] n i
get_or-extend (x ∷ xs) n zero = refl
get_or-extend (x ∷ xs) n (suc i) = get_or-extend xs n i

pub free_at-extend : (bm : List ℕ) (i k : ℕ) → free_at (extend bm i) k ≡ free_at bm k
unfolding extend free_at
free_at-extend bm i k =
    ap (λ w. test_bit w (k % 32)) (get_or-extend bm (i + 1 - length bm) (k / 32))

pub free_at-past : (bm : List ℕ) (k : ℕ) → length bm ≤ k / 32 → free_at bm k ≡ false
unfolding free_at
free_at-past bm k h =
    ap (λ w. test_bit w (k % 32)) (get_or-past bm (k / 32) h) ∙ test_bit-zero (k % 32)
