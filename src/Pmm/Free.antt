-- ===== src/Pmm/Free.antt =====
-- `k_mem_pmm_free`: which frames it gives back, and that it keeps the allocator valid.
use mathlib.Core.List.{append-nil}
use scales_os.Prelude.{
  ℕ, zero, suc, ◌+◌, ◌-◌, ◌*◌, ◌/◌, ◌%◌, ◌^◌, ◌≤◌, ◌<◌, ◌≡◌, refl, ◌∙◌, inl, inr, true, false, not,
  some, List, arith, length, get_or, replicate, length-append, length-replicate, set_bit, ◌==◌,
  Bool-cases, if◌then◌else◌,
}
use scales_os.Pmm.{
  Pmm, bitmap_index, bit_number, set_frame, is_allocated, alloc_frames, extend, free_one, free_loop,
  free,
}
use scales_os.Pmm.Bitmap.{
  free_at, get_or-set, get_or-extend, length-set_frame, free_at-set_frame, free_at-past,
}
use scales_os.Pmm.Alloc.{IsValid, within, alloc_frames-Taken}

length-extend :
    (bm : List ℕ) (index : ℕ)
    → (length bm ≤ length (extend bm index)) × (index < length (extend bm index))
unfolding extend
length-extend bm index = omega (
  arith,
  length-append bm (replicate (index + 1 - length bm) 0),
  length-replicate {A = ℕ} (index + 1 - length bm) 0,
)

extend-small :
    (bm : List ℕ) (index n : ℕ) → length bm ≤ n → index < n → length (extend bm index) ≤ n
unfolding extend
extend-small bm index n h k = omega (
  arith,
  length-append bm (replicate (index + 1 - length bm) 0),
  length-replicate {A = ℕ} (index + 1 - length bm) 0,
)

extend-inside : (bm : List ℕ) (index : ℕ) → index < length bm → extend bm index ≡ bm
unfolding extend
extend-inside bm index h = let e : index + 1 - length bm ≡ 0 = omega arith in rw e (append-nil bm)

pub is_allocated-free_at :
    (p : Pmm) (f : ℕ)
    → bitmap_index f < length p.bitmap
    → is_allocated p f ≡ not (free_at p.bitmap (f / 0x1000))
unfolding is_allocated free_at
is_allocated-free_at p f h = ground arith

free_one-IsValid :
    (p : Pmm) (f : ℕ) → IsValid p → bitmap_index f < length p.bitmap → IsValid (free_one p f)
unfolding free_one set_frame
free_one-IsValid p f v h = record {
  small = omega (arith, v.small, length-set_frame p.bitmap f);
  full_below = λ i l. ground (
    arith,
    v.full_below i,
    get_or-set p.bitmap (bitmap_index f) i
        (set_bit (get_or p.bitmap (bitmap_index f) 0) (bit_number f)) h,
  );
}

grown-IsValid :
    (p : Pmm) (f : ℕ)
    → IsValid p
    → f < 2 ^ 32
    → IsValid (record p { bitmap = extend p.bitmap (bitmap_index f) })
unfolding extend
grown-IsValid p f v h = record {
  small = extend-small p.bitmap (bitmap_index f) (2 ^ 15) v.small (omega arith);
  full_below = λ i l. get_or-extend p.bitmap _ i ∙ v.full_below i l;
}

free_loop-IsValid :
    (left : ℕ) (p : Pmm) (f : ℕ)
    → IsValid p
    → f + 0x1000 * left ≤ 2 ^ 32
    → IsValid (free_loop p f left)
unfolding free_loop
free_loop-IsValid zero p f v h = v
free_loop-IsValid (suc left) p f v h =
    let grown : Pmm = record p { bitmap = extend p.bitmap (bitmap_index f) } in
    let g : IsValid grown = grown-IsValid p f v (omega arith) in
    elim (Bool-cases (is_allocated grown f)) [
      | inl a ↦ rw a (
          free_loop-IsValid left (free_one grown f) (f + 0x1000)
            (free_one-IsValid grown f g (length-extend p.bitmap (bitmap_index f)).1) (omega arith))
      | inr a ↦ rw a g
    ]

-- Giving back frames below 4 GiB keeps the allocator valid, whether or not they were taken.
pub free-IsValid :
    (p : Pmm) (frame size : ℕ)
    → IsValid p
    → frame + 0x1000 * size ≤ 2 ^ 32
    → IsValid (free p frame size)
unfolding free
free-IsValid p frame size v h = elim (Bool-cases (frame % 0x1000 == 0)) [
  | inl a ↦ rw a (free_loop-IsValid size p frame v h)
  | inr a ↦ rw a v
]

free_loop-free_at :
    (left : ℕ) (p : Pmm) (q k : ℕ)
    → q + left ≤ 32 * length p.bitmap
    → ((j : ℕ) → q ≤ j → j < q + left → free_at p.bitmap j ≡ false)
    → free_at (free_loop p (0x1000 * q) left).bitmap k
      ≡ (if within q left k then true else free_at p.bitmap k)
unfolding free_loop free_one
free_loop-free_at zero p q k h taken = ground arith
free_loop-free_at (suc left) p q k h taken =
    let inside : bitmap_index (0x1000 * q) < length p.bitmap = omega arith in
    let at : 0x1000 * q / 0x1000 ≡ q = omega arith in
    let next : 0x1000 * q + 0x1000 ≡ 0x1000 * (q + 1) = omega arith in
    let done = free_one p (0x1000 * q) in
    let marked = free_at-set_frame p.bitmap (0x1000 * q) in
    let a : is_allocated p (0x1000 * q) ≡ true =
      ground (arith, is_allocated-free_at p (0x1000 * q) inside, taken q, at) in
    rw (extend-inside p.bitmap (bitmap_index (0x1000 * q)) inside, a, next)
      (free_loop-free_at left done (q + 1) k (omega (arith, length-set_frame p.bitmap (0x1000 * q)))
          (λ j lo hi. ground (arith, marked j inside, taken j, at))
        ∙ ground (arith, marked k inside, at))

-- Giving back what was just allocated restores exactly the set of free frames.
pub free-alloc_frames :
    (p : Pmm) (n frame : ℕ) (p' : Pmm)
    → IsValid p
    → alloc_frames p n ≡ some (frame, p')
    → (k : ℕ) → free_at (free p' frame n).bitmap k ≡ free_at p.bitmap k
unfolding free
free-alloc_frames p n frame p' v e k =
    let t = alloc_frames-Taken p n frame p' v e in
    let q = t.number in
    let aligned : (frame % 0x1000 == 0) ≡ true = ground (arith, t.address) in
    rw (aligned, t.address)
      (free_loop-free_at n p' q k (omega (arith, t.inside, t.same_size))
          (λ j lo hi. t.now_taken j ∙ ground arith)
        ∙ ground (arith, t.now_taken k, t.were_free k))

free_loop-free_at_self :
    (size : ℕ) (p : Pmm) (q : ℕ) → free_at p.bitmap q ≡ true → free_loop p (0x1000 * q) size ≡ p
unfolding free_loop
free_loop-free_at_self zero p q h = refl
free_loop-free_at_self (suc size) p q h =
    let inside : bitmap_index (0x1000 * q) < length p.bitmap =
      ground (arith, free_at-past p.bitmap q) in
    let at : 0x1000 * q / 0x1000 ≡ q = omega arith in
    let a : is_allocated p (0x1000 * q) ≡ false =
      ground (arith, is_allocated-free_at p (0x1000 * q) inside, at) in
    rw (extend-inside p.bitmap (bitmap_index (0x1000 * q)) inside, a)

-- Giving back a frame that is free already changes nothing, and gives back none behind it.
pub free-free_at : (p : Pmm) (q size : ℕ) → free_at p.bitmap q ≡ true → free p (0x1000 * q) size ≡ p
unfolding free
free-free_at p q size h =
    let aligned : (0x1000 * q % 0x1000 == 0) ≡ true = ground arith in
    rw aligned (free_loop-free_at_self size p q h)
