-- ===== src/Mem/Copy.antt =====
-- The copying functions of libc/src/string: memmove, memcpy and memset move whole ranges, also where
-- they overlap, and touch nothing else.
use scales_os.Prelude.{
  ℕ, zero, suc, ◌+◌, ◌-◌, ◌%◌, ◌≤◌, ◌≡◌, ◌≢◌, ◌⊎◌, ◌∙◌, inl, inr, true, not, ◌&&◌, ◌||◌, Bool-cases,
  arith, ltb, leb, ◌==◌, if◌then◌else◌,
}
use scales_os.Mem.{store, memset, copy_up, copy_down, memcpy, memmove}

-- The memory after `n` bytes from `from` on have been read all at once and written from `to` on.
pub copied : (ℕ → ℕ) → (to from n : ℕ) → ℕ → ℕ
copied m to from n x = if leb to x && ltb x (to + n) then m (from + (x - to)) else m x

-- Copying upwards is right where no byte is overwritten before it is read.
copy_up-copied :
    (n : ℕ) (m : ℕ → ℕ) (to from x : ℕ)
    → (to ≤ from) ⊎ (from + n ≤ to)
    → copy_up m to from n x ≡ copied m to from n x
unfolding copy_up copied
copy_up-copied zero m to from x h = ground arith
copy_up-copied (suc n) m to from x h =
    copy_up-copied n (store m to (m from)) (to + 1) (from + 1) x (ground (arith, h)) ∙ grind arith

copy_down-copied :
    (n : ℕ) (m : ℕ → ℕ) (to from x : ℕ)
    → (from ≤ to) ⊎ (to + n ≤ from)
    → copy_down m to from n x ≡ copied m to from n x
unfolding copy_down copied
copy_down-copied zero m to from x h = ground arith
copy_down-copied (suc n) m to from x h =
    copy_down-copied n (store m (to + n) (m (from + n))) to from x (ground (arith, h)) ∙ grind arith

-- Nothing is to be done for no bytes and for a range that is copied to itself.
copied-same :
    (m : ℕ → ℕ) (to from n x : ℕ) → (from == to || n == 0) ≡ true → m x ≡ copied m to from n x
unfolding copied
copied-same m to from n x same = grind arith

-- `memmove` of fewer than 2 ^ 31 bytes, neither pointer NULL, moves the whole range as if it were
-- read at once before anything is written, however source and destination overlap, and changes
-- nothing outside the destination.
pub memmove-copied :
    (m : ℕ → ℕ) (to from n x : ℕ) → to ≢ 0 → from ≢ 0 → memmove m to from n x ≡ copied m to from n x
unfolding memmove memcpy
memmove-copied m to from n x h h' =
    let up = copy_up-copied n m to from x in
    let down = copy_down-copied n m to from x in
    let ptrs : (not (to == 0) && not (from == 0)) ≡ true = ground arith in
    elim (Bool-cases (from == to || n == 0)) [
      | inl same ↦ rw same (copied-same m to from n x (ground arith))
      | inr moved ↦ rw moved (elim (Bool-cases (ltb from to && ltb (to - from) n)) [
        | inl over ↦ rw over (down (ground arith))
        | inr not_over ↦ rw not_over (elim (Bool-cases (ltb to from && ltb (from - to) n)) [
          | inl under ↦ rw under (up (ground arith))
          | inr apart ↦ rw apart (rw ptrs (up (ground arith)))
        ])
      ])
    ]

-- `memcpy` does the same where the ranges do not overlap.
pub memcpy-copied :
    (m : ℕ → ℕ) (to from n x : ℕ)
    → to ≢ 0
    → from ≢ 0
    → (to + n ≤ from) ⊎ (from + n ≤ to)
    → memcpy m to from n x ≡ copied m to from n x
unfolding memcpy
memcpy-copied m to from n x h h' apart =
    let ptrs : (not (to == 0) && not (from == 0)) ≡ true = ground arith in
    rw ptrs (copy_up-copied n m to from x (ground arith))

-- `memset` fills exactly its range with the byte of `c`.
pub memset-filled :
    (n : ℕ) (m : ℕ → ℕ) (dest c x : ℕ)
    → memset m dest c n x ≡ (if leb dest x && ltb x (dest + n) then c % 256 else m x)
unfolding memset
memset-filled zero m dest c x = ground arith
memset-filled (suc n) m dest c x =
    memset-filled n (store m dest (c % 256)) (dest + 1) c x ∙ ground arith
