-- ===== src/Circular.antt =====
-- The geometry that ringbuffer.c and pipe.c share: the bytes met on a walk round a circular array.
use scales_os.Prelude.{
  ℕ, zero, suc, ◌+◌, ◌-◌, ◌≤◌, ◌<◌, ◌≡◌, ◌≢◌, refl, ap, ap₂, ◌⊎◌, List, [], ◌∷◌, ◌++◌, arith,
  length, get_or, set, get_or-set_self, get_or-set_ne, ◌==◌, if◌then◌else◌,
}

-- The index after `i` in an array of `cap` cells.
abbrev pub succ_index : ℕ → ℕ → ℕ
succ_index cap i = if i + 1 == cap then 0 else i + 1

-- The `n` bytes from index `i` on.
abbrev pub window : List ℕ → ℕ → ℕ → ℕ → List ℕ
window buf cap i zero = []
window buf cap i (suc n) = get_or buf i 0 ∷ window buf cap (succ_index cap i) n

-- `w` is the index `n` places after `i`.
abbrev pub Offset : ℕ → ℕ → ℕ → ℕ → Type 0
Offset cap i n w = (w ≡ i + n) ⊎ (w + cap ≡ i + n)

pub length-window : (buf : List ℕ) (cap i n : ℕ) → length (window buf cap i n) ≡ n
length-window buf cap i zero = refl
length-window buf cap i (suc n) = ap suc (length-window buf cap (succ_index cap i) n)

pub window_pos :
    (buf : List ℕ) (cap i n : ℕ)
    → n ≢ 0
    → window buf cap i n ≡ get_or buf i 0 ∷ window buf cap (succ_index cap i) (n - 1)
window_pos buf cap i zero h = absurd (h refl)
window_pos buf cap i (suc n) h = ap (λ k. window buf cap i (suc k)) (omega arith)

Offset-ne : (cap i n w : ℕ) → i < cap → suc n < cap → Offset cap i (suc n) w → w ≢ i
Offset-ne cap i n w hi hn o e = ground arith

Offset-succ :
    (cap i n w : ℕ) → i < cap → w < cap → Offset cap i (suc n) w → Offset cap (succ_index cap i) n w
Offset-succ cap i n w hi hw o = ground arith

-- A byte written just past a window extends it.
pub window-set :
    (buf : List ℕ) (cap x n i w : ℕ)
    → cap ≤ length buf
    → i < cap
    → n < cap
    → w < cap
    → Offset cap i n w
    → window (set buf w x) cap i (suc n) ≡ window buf cap i n ++ (x ∷ [])
window-set buf cap x zero i w hb hi hn hw o =
    let e : w ≡ i = ground arith in rw (e, get_or-set_self buf i x 0 (omega arith))
window-set buf cap x (suc n) i w hb hi hn hw o =
    ap₂ ◌∷◌ (get_or-set_ne buf w i x 0 (Offset-ne cap i n w hi hn o)) (
      window-set buf cap x n (succ_index cap i) w hb (ground arith) (omega arith) hw
        (Offset-succ cap i n w hi hw o))
