-- ===== src/Pmm/Boot.antt =====
-- `k_mem_pmm_init`: the allocator that the kernel starts with.
use scales_os.Prelude.{
  ℕ, zero, suc, ◌+◌, ◌*◌, ◌/◌, ◌^◌, ◌≤◌, ◌<◌, ◌≡◌, refl, ◌∙◌, inl, inr, false, some, ltb, List, [],
  ◌∷◌, arith, length, get_or, All, leb, ◌==◌, Bool-cases,
}
use scales_os.Pmm.{Pmm, Region, unstarted, mark_frame, mark_region, mark_map, occupy, started, init}
use scales_os.Pmm.Bitmap.{free_at, length-clear_frame, free_at-clear_frame}
use scales_os.Pmm.Alloc.{IsValid, clear_frame_zero}
use scales_os.Pmm.Free.{free-IsValid}

-- A usable region ends below 4 GiB, with room to round its length up.
abbrev pub Fits : Region → Type 0
Fits r = r.addr + r.len + 0xfff < 2 ^ 32

mark_region-IsValid :
    (left : ℕ) (p : Pmm) (bitmap_phys addr i : ℕ)
    → IsValid p
    → addr + (i + left) * 0x1000 ≤ 2 ^ 32
    → IsValid (mark_region p bitmap_phys addr i left)
unfolding mark_region mark_frame
mark_region-IsValid zero p b addr i v h = v
mark_region-IsValid (suc left) p b addr i v h = elim (Bool-cases (leb b (addr + i * 0x1000))) [
  | inl at ↦ rw at (
      mark_region-IsValid left _ b addr (i + 1)
        (free-IsValid p (addr + i * 0x1000) 1 v (omega arith)) (omega arith))
  | inr at ↦ rw at (mark_region-IsValid left p b addr (i + 1) v (omega arith))
]

mark_map-IsValid :
    (rs : List Region) (p : Pmm) (bitmap_phys : ℕ)
    → IsValid p
    → All Fits rs
    → (p' : Pmm) × (mark_map p bitmap_phys rs ≡ some p') × IsValid p'
unfolding mark_map
mark_map-IsValid [] p b v fit = (p, refl, v)
mark_map-IsValid (r ∷ rs) p b v fit =
    let here : r.addr + r.len + 0xfff < 2 ^ 32 = fit.0 in
    let short : ltb 0xfffff000 r.len ≡ false = ground (arith, here) in
    elim (Bool-cases r.usable) [
      | inl u ↦
          rw (u, short)
            (mark_map-IsValid rs _ b
              (mark_region-IsValid ((r.len + 0xfff) / 0x1000) p b r.addr 0 v (omega arith)) fit.1)
      | inr u ↦ rw u (mark_map-IsValid rs p b v fit.1)
    ]

length-occupy : (left : ℕ) (bm : List ℕ) (b i : ℕ) → length (occupy bm b i left) ≡ length bm
unfolding occupy
length-occupy zero bm b i = refl
length-occupy (suc left) bm b i = length-occupy left _ b (i + 1) ∙ length-clear_frame bm _

occupy_zero :
    (left : ℕ) (bm : List ℕ) (b i j : ℕ) → get_or bm j 0 ≡ 0 → get_or (occupy bm b i left) j 0 ≡ 0
unfolding occupy
occupy_zero zero bm b i j z = z
occupy_zero (suc left) bm b i j z =
    occupy_zero left _ b (i + 1) j (clear_frame_zero bm (b + i * 4) j z)

occupy_taken :
    (left : ℕ) (bm : List ℕ) (b i k : ℕ)
    → free_at bm k ≡ false
    → free_at (occupy bm b i left) k ≡ false
unfolding occupy
occupy_taken zero bm b i k t = t
occupy_taken (suc left) bm b i k t =
    occupy_taken left _ b (i + 1) k (ground (arith, free_at-clear_frame bm (b + i * 4) k))

free_at-occupy :
    (left : ℕ) (bm : List ℕ) (b i t : ℕ)
    → i ≤ t
    → t < i + left
    → free_at (occupy bm b i left) ((b + t * 4) / 0x1000) ≡ false
unfolding occupy
free_at-occupy zero bm b i t lo hi = absurd (omega arith)
free_at-occupy (suc left) bm b i t lo hi = elim (Bool-cases (t == i)) [
  | inl e ↦
      let p : t ≡ i = ground arith in
      rw p (
        occupy_taken left _ b (i + 1) _
          (free_at-clear_frame bm (b + i * 4) ((b + i * 4) / 0x1000) ∙ ground arith))
  | inr ne ↦ free_at-occupy left _ b (i + 1) t (ground arith) (omega arith)
]

-- From a memory map whose regions lie below 4 GiB the kernel starts with a valid allocator, in
-- which no frame that holds a word of the bitmap itself is free.
pub init-IsValid :
    (bitmap_phys : ℕ) (rs : List Region)
    → All Fits rs
    → (p : Pmm) × (init bitmap_phys rs ≡ some p)
      × IsValid p
      × ((t : ℕ) → t ≤ length p.bitmap → free_at p.bitmap ((bitmap_phys + t * 4) / 0x1000) ≡ false)
unfolding init started
init-IsValid b rs fit =
    let (p, marked, v) =
      mark_map-IsValid rs unstarted b (record { small = omega arith; full_below = λ i h. refl })
        fit in
    (
      started b p,
      rw (init, marked) refl,
      record {
        small = omega (arith, v.small, length-occupy (length p.bitmap + 1) p.bitmap b 0);
        full_below = λ i h. occupy_zero (length p.bitmap + 1) p.bitmap b 0 i (v.full_below i h);
      },
      λ t h.
          free_at-occupy (length p.bitmap + 1) p.bitmap b 0 t (omega arith)
            (omega (arith, length-occupy (length p.bitmap + 1) p.bitmap b 0)),
    )
