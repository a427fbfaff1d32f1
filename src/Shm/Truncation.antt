-- ===== src/Shm/Truncation.antt =====
-- What truncation does to the frames of a shared region (kernel/src/mem/shm.c).
use scales_os.Prelude.{
  ℕ, zero, suc, ◌+◌, ◌-◌, ◌*◌, ◌/◌, ◌%◌, ◌^◌, ◌≤◌, ◌&&◌, sub32, ◌<◌, ◌≡◌, ◌≢◌, refl, sym, ap, ◌∙◌,
  subst, true, false, Option-cases, inl, inr, Option, none, some, some-injective, List, [], ◌∷◌,
  ◌++◌, length, length-append, length-drop, get_elem?, drop, arith, ltb, ◌==◌,
}
use mathlib.Core.List.{append-nil, append_assoc}
use scales_os.Pmm.{Pmm, alloc_frames, free}
use scales_os.Shm.{Shm, delete, grow, shrink, pages_of, resized, truncate}

-- `x` is not in a list.
unfoldable pub Absent : ℕ → List ℕ → Type 0
Absent x [] = Unit
Absent x (y ∷ ys) = (y ≢ x) × Absent x ys

unfoldable pub Distinct : List ℕ → Type 0
Distinct [] = Unit
Distinct (x ∷ xs) = Absent x xs × Distinct xs

Absent-at : (x : ℕ) (l : List ℕ) (i y : ℕ) → Absent x l → get_elem? l i ≡ some y → y ≢ x
unfolding Absent
Absent-at x [] i y a e = absurd (grind arith)
Absent-at x (z ∷ l) zero y (ne, a) e = subst (λ (w : ℕ). w ≢ x) (some-injective e) ne
Absent-at x (z ∷ l) (suc i) y (ne, a) e = Absent-at x l i y a e

-- The list without its element at `i`.
unfoldable pub without_at : ℕ → List ℕ → List ℕ
without_at i [] = []
without_at zero (x ∷ xs) = xs
without_at (suc i) (x ∷ xs) = x ∷ without_at i xs

-- In a list of different elements the first occurrence of the element at `i` is at `i`.
delete-at :
    (l : List ℕ) (i y : ℕ) → Distinct l → get_elem? l i ≡ some y → delete y l ≡ without_at i l
unfolding delete without_at Distinct
delete-at [] i y d e = refl
delete-at (x ∷ l) zero y d e =
    let at : x ≡ y = some-injective e in
    let same : (x == y) ≡ true = ground (arith, at) in rw same refl
delete-at (x ∷ l) (suc i) y (a, d) e =
    let ne : y ≢ x = Absent-at x l i y a e in
    let other : (x == y) ≡ false = ground (arith, ne) in
    rw other (ap (λ (m : List ℕ). x ∷ m) (delete-at l i y d e))

Absent-without : (x i : ℕ) (l : List ℕ) → Absent x l → Absent x (without_at i l)
unfolding Absent without_at
Absent-without x i [] a = a
Absent-without x zero (y ∷ l) (ne, a) = a
Absent-without x (suc i) (y ∷ l) (ne, a) = (ne, Absent-without x i l a)

Distinct-without : (i : ℕ) (l : List ℕ) → Distinct l → Distinct (without_at i l)
unfolding Distinct without_at
Distinct-without i [] d = d
Distinct-without zero (y ∷ l) (a, d) = d
Distinct-without (suc i) (y ∷ l) (a, d) = (Absent-without y i l a, Distinct-without i l d)

at-cases : (l : List ℕ) (i : ℕ) → i < length l → (x : ℕ) × (get_elem? l i ≡ some x)
at-cases [] i h = absurd (omega (arith, h))
at-cases (y ∷ l) zero h = (y, refl)
at-cases (y ∷ l) (suc i) h = at-cases l i (omega (arith, h))

length-without : (i : ℕ) (l : List ℕ) → i < length l → length (without_at i l) + 1 ≡ length l
unfolding without_at
length-without i [] h = absurd (omega (arith, h))
length-without zero (y ∷ l) h = omega arith
length-without (suc i) (y ∷ l) h = omega (arith, length-without i l (omega (arith, h)))

drop-without : (i : ℕ) (l : List ℕ) → i < length l → drop i (without_at i l) ≡ drop (suc i) l
unfolding without_at
drop-without i [] h = absurd (omega (arith, h))
drop-without zero (y ∷ l) h = refl
drop-without (suc i) (y ∷ l) h = drop-without i l (omega (arith, h))

shrink-step :
    (i : ℕ) (p : Pmm) (frames : List ℕ) (y : ℕ)
    → get_elem? frames i ≡ some y
    → shrink (suc i) p frames ≡ shrink i (free p y 1) (delete y frames)
unfolding shrink
shrink-step i p frames y e = rw (shrink, e) refl

grow-none :
    (n : ℕ) (p : Pmm) (frames : List ℕ) → alloc_frames p 1 ≡ none → grow (suc n) p frames ≡ none
unfolding grow
grow-none n p frames e = rw (grow, e) refl

grow-some :
    (n : ℕ) (p q : Pmm) (frames : List ℕ) (frame : ℕ)
    → alloc_frames p 1 ≡ some (frame, q)
    → grow (suc n) p frames ≡ grow n q (frames ++ (frame ∷ []))
unfolding grow
grow-some n p q frames frame e = rw (grow, e) refl

-- Giving `n` frames back leaves those from index `n` on.
pub shrink-drop :
    (n : ℕ) (p : Pmm) (frames : List ℕ)
    → Distinct frames
    → n ≤ length frames
    → (p' : Pmm) × (shrink n p frames ≡ some (p', drop n frames))
unfolding shrink
shrink-drop zero p frames d h = (p, refl)
shrink-drop (suc i) p frames d h =
    let (y, at) = at-cases frames i (omega (arith, h)) in
    let gone = delete-at frames i y d at in
    let shorter = length-without i frames (omega (arith, h)) in
    let (p', e) =
      shrink-drop i (free p y 1) (without_at i frames) (Distinct-without i frames d)
        (omega (arith, h, shorter)) in
    (
      p',
      shrink-step i p frames y at
          ∙ ap (λ (m : List ℕ). shrink i (free p y 1) m) gone
          ∙ e
          ∙ ap (λ (m : List ℕ). some (p', m)) (drop-without i frames (omega (arith, h))),
    )

-- Growing puts the new frames behind the others.
grow-appends :
    (n : ℕ) (p p' : Pmm) (frames frames' : List ℕ)
    → grow n p frames ≡ some (p', frames')
    → (new : List ℕ) × (frames' ≡ frames ++ new) × (length new ≡ n)
unfolding grow
grow-appends zero p p' frames frames' e =
    let same = some-injective e in
    ([], ap (λ (x : Pmm × List ℕ). x.1) (sym same) ∙ sym (append-nil frames), refl)
grow-appends (suc n) p p' frames frames' e = elim (Option-cases (alloc_frames p 1)) [
  | inl a ↦ absurd (grind (arith, grow-none n p frames a))
  | inr ((frame, q), a) ↦
      let (new, more, counted) =
        grow-appends n q p' (frames ++ (frame ∷ [])) frames'
          (sym (grow-some n p q frames frame a) ∙ e) in
      (frame ∷ new, more ∙ append_assoc frames (frame ∷ []) new, omega (arith, counted))
]

-- A region whose size is a number of whole pages, with a frame for each.
unfoldable pub IsWhole : Shm → Type 0
IsWhole shm = (shm.size ≡ length shm.frames * 0x1000) × Distinct shm.frames

pages_of-pages : (k : ℕ) → pages_of (k * 0x1000) ≡ k
unfolding pages_of
pages_of-pages k =
    let whole : (k * 0x1000) / 0x1000 ≡ k = omega arith in
    let rest : (k * 0x1000) % 0x1000 ≡ 0 = omega arith in ground (arith, whole, rest)

truncate-shrinks :
    (p : Pmm) (shm : Shm) (sz : ℕ)
    → sz ≤ shm.size
    → shm.size < 2 ^ 31
    → truncate p shm sz ≡ resized sz (shrink (pages_of (shm.size - sz)) p shm.frames)
unfolding truncate
truncate-shrinks p shm sz h bound =
    let diff = sub32 sz shm.size in
    let up : (ltb 0 diff && ltb diff (2 ^ 31)) ≡ false = ground (arith, h, bound) in
    let least : (diff == 2 ^ 31) ≡ false = ground (arith, h, bound) in
    let back : sub32 0 diff ≡ shm.size - sz = omega (arith, h, bound) in
    rw up (rw least (ap (λ (k : ℕ). resized sz (shrink (pages_of k) p shm.frames)) back))

truncate-grows :
    (p : Pmm) (shm : Shm) (sz : ℕ)
    → shm.size < sz
    → sz < 2 ^ 31
    → truncate p shm sz ≡ resized sz (grow (pages_of (sz - shm.size)) p shm.frames)
unfolding truncate
truncate-grows p shm sz h bound =
    let diff = sub32 sz shm.size in
    let up : (ltb 0 diff && ltb diff (2 ^ 31)) ≡ true = ground (arith, h, bound) in
    let exact : diff ≡ sz - shm.size = omega (arith, h, bound) in
    rw up (ap (λ (k : ℕ). resized sz (grow (pages_of k) p shm.frames)) exact)

resized-none : (sz : ℕ) (r : Option (Pmm × List ℕ)) → r ≡ none → resized sz r ≡ none
unfolding resized
resized-none sz r e = rw e refl

resized-some :
    (sz : ℕ) (q p' : Pmm) (frames : List ℕ) (shm' : Shm)
    → resized sz (some (q, frames)) ≡ some (p', shm')
    → (frames ≡ shm'.frames) × (sz ≡ shm'.size)
unfolding resized
resized-some sz q p' frames shm' e =
    let same = some-injective e in
    (ap (λ (x : Pmm × Shm). x.1.frames) same, ap (λ (x : Pmm × Shm). x.1.size) same)

pages_between : (size k n : ℕ) → size ≡ (k + n) * 0x1000 → pages_of (size - k * 0x1000) ≡ n
pages_between size k n e =
    let gap : size - k * 0x1000 ≡ n * 0x1000 = omega (arith, e) in
    ap pages_of gap ∙ pages_of-pages n

-- A region of whole pages, truncated to `k` pages, no more than it has, loses its first frames and
-- not its last: those from the number of pages taken away on are left, as many as the size says. Its size
-- is below 2 ^ 31.
pub truncate-drops :
    (p : Pmm) (shm : Shm) (k : ℕ)
    → IsWhole shm
    → k ≤ length shm.frames
    → shm.size < 2 ^ 31
    → (p' : Pmm) × (truncate p shm (k * 0x1000)
        ≡ some (p', record { frames = drop (length shm.frames - k) shm.frames; size = k * 0x1000 }))
      × (length (drop (length shm.frames - k) shm.frames) ≡ k)
unfolding IsWhole resized
truncate-drops p shm k (whole, d) h bound =
    let n = length shm.frames - k in
    let sz = k * 0x1000 in
    let (p', e) = shrink-drop n p shm.frames d (omega arith) in
    let pages : pages_of (shm.size - sz) ≡ n =
      pages_between shm.size k n (omega (arith, whole, h)) in
    (
      p',
      truncate-shrinks p shm sz (omega (arith, whole, h)) bound
          ∙ ap (λ (m : ℕ). resized sz (shrink m p shm.frames)) pages
          ∙ ap (resized sz) e,
      length-drop n shm.frames ∙ omega (arith, h),
    )

-- A region of whole pages, truncated to `k` pages, more than it has, keeps its frames and gets the
-- missing ones behind them, if the allocation succeeds. The new size is below 2 ^ 31.
pub truncate-appends :
    (p p' : Pmm) (shm shm' : Shm) (k : ℕ)
    → IsWhole shm
    → length shm.frames < k
    → k * 0x1000 < 2 ^ 31
    → truncate p shm (k * 0x1000) ≡ some (p', shm')
    → (new : List ℕ) × (shm'.frames ≡ shm.frames ++ new)
      × (length shm'.frames ≡ k)
      × (shm'.size ≡ k * 0x1000)
unfolding IsWhole
truncate-appends p p' shm shm' k (whole, d) h bound e =
    let n = k - length shm.frames in
    let sz = k * 0x1000 in
    let gap : sz - shm.size ≡ n * 0x1000 = omega (arith, whole, h) in
    let grown : resized sz (grow n p shm.frames) ≡ some (p', shm') =
      ap (λ (m : ℕ). resized sz (grow m p shm.frames)) (sym (ap pages_of gap ∙ pages_of-pages n))
      ∙ sym (truncate-grows p shm sz (omega (arith, whole, h)) bound)
      ∙ e in
    elim (Option-cases (grow n p shm.frames)) [
      | inl g ↦ absurd (grind (arith, resized-none sz (grow n p shm.frames) g))
      | inr ((q, frames), g) ↦
          let (new, more, counted) = grow-appends n p q shm.frames frames g in
          let is : frames ≡ shm'.frames × (sz ≡ shm'.size) =
            resized-some sz q p' frames shm' (ap (resized sz) (sym g) ∙ grown) in
          (
            new,
            sym is.0 ∙ more,
            ap (λ (l : List ℕ). length l) (sym is.0 ∙ more)
                ∙ omega (arith, length-append shm.frames new, counted, h),
            sym is.1,
          )
    ]
