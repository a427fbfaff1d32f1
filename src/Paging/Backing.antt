-- ===== src/Paging/Backing.antt =====
-- Mapping a page without giving a frame, which takes a free one (kernel/src/mem/paging.c).
use scales_os.Prelude.{
  ℕ, zero, suc, ◌+◌, ◌-◌, ◌/◌, ◌%◌, ◌^◌, ◌≤◌, ◌<◌, ◌≡◌, ◌∙◌, refl, sym, ap, subst, inl, inr, true,
  false, Bool-cases, Option, Option-cases, none, some, arith, ◌==◌, if◌then◌else◌,
}
use scales_os.Pmm.{Pmm, alloc_frames}
use scales_os.Pmm.Bitmap.{free_at}
use scales_os.Pmm.Alloc.{IsValid, Taken, within, alloc_frames-Taken}
use scales_os.Paging.{
  Pte, Pde, absent, large, table, Memory, pd_index, pt_index, kernel_flags, user_flag, no_page, pte,
  present, phys, window, virt2phys, done, panic, with_pte, map_in, map_new, map_at, map,
}
use scales_os.Paging.Entries.{Stands}
use scales_os.Paging.Mapping.{
  Mapped, same_frames, done-injective, with_pte-Mapped, new_table, not_window, virt2phys-translate,
  same_below,
}

-- A page that was not mapped translates to a frame that was free and is taken, and all others translate as
-- before.
pub record Backed (m : Memory) (v : ℕ) (m' : Memory) : Type 0 where
  pub frame : ℕ
  pub aligned : frame % 0x1000 ≡ 0
  pub was_free : free_at m.pmm.bitmap (frame / 0x1000) ≡ true
  pub is_taken : free_at m'.pmm.bitmap (frame / 0x1000) ≡ false
  pub mapped : Mapped m v frame m'

-- The frame that is taken alone
number-Taken : (p p' : Pmm) (frame : ℕ) → (t : Taken p 1 frame p') → frame / 0x1000 ≡ t.number
number-Taken p p' frame t = let a = t.address in omega (arith, a)

within_one : (q : ℕ) → within q 1 q ≡ true
within_one q = ground arith

free_at_before :
    (p p' : Pmm) (frame : ℕ) → Taken p 1 frame p' → free_at p.bitmap (frame / 0x1000) ≡ true
free_at_before p p' frame t =
    ap (free_at p.bitmap) (number-Taken p p' frame t)
    ∙ t.were_free t.number (omega arith) (omega arith)

free_at_after :
    (p p' : Pmm) (frame : ℕ) → Taken p 1 frame p' → free_at p'.bitmap (frame / 0x1000) ≡ false
free_at_after p p' frame t =
    ap (free_at p'.bitmap) (number-Taken p p' frame t)
    ∙ t.now_taken t.number
    ∙ rw (within_one t.number) refl

-- A frame that is free after another was taken was free before.
still_free :
    (p p' : Pmm) (frame k : ℕ)
    → Taken p 1 frame p'
    → free_at p'.bitmap k ≡ true
    → free_at p.bitmap k ≡ true
still_free p p' frame k t e = elim (Bool-cases (within t.number 1 k)) [
  | inl is ↦
      let gone : free_at p'.bitmap k ≡ false = t.now_taken k ∙ rw is refl in
      absurd (grind (arith, gone, e))
  | inr off ↦ sym (t.now_taken k ∙ rw off refl) ∙ e
]

map_in-Backed :
    (m m' : Memory) (v flags frame fl : ℕ) (pt : ℕ → Pte)
    → IsValid m.pmm
    → Stands m v (table frame fl pt)
    → flags % 2 ≡ 1
    → map_in m v 0 flags frame fl pt ≡ done m'
    → Backed m v m'
map_in-Backed m m' v flags frame fl pt valid h is_present e =
    elim (Bool-cases (present (pt (pt_index v)))) [
      | inl there ↦
          let lost : map_in m v 0 flags frame fl pt ≡ panic = rw there refl in
          absurd (grind (arith, lost, e))
      | inr free ↦ elim (Option-cases (alloc_frames m.pmm 1)) [
        | inl nothing ↦
            let lost : map_in m v 0 flags frame fl pt ≡ panic = rw (free, nothing) refl in
            absurd (grind (arith, lost, e))
        | inr ((f, pmm), got) ↦
            let t = alloc_frames-Taken m.pmm 1 f pmm valid got in
            let to = with_pte (record m { pmm = pmm }) v frame fl pt (pte f flags) in
            let done_to : map_in m v 0 flags frame fl pt ≡ done to = rw (free, got) refl in
            let a = t.address in
            let aligned : f % 0x1000 ≡ 0 = omega (arith, a) in
            subst (Backed m v) (done-injective to m' (sym done_to ∙ e)) (record {
              frame = f;
              aligned = aligned;
              was_free = free_at_before m.pmm pmm f t;
              is_taken = free_at_after m.pmm pmm f t;
              mapped = same_frames m to v f pmm (
                  with_pte-Mapped (record m { pmm = pmm }) v frame fl f flags pt h free aligned
                    is_present);
            })
      ]
    ]

map_new-Backed :
    (m m' : Memory) (v flags : ℕ) (taken : Option (ℕ × Pmm))
    → IsValid m.pmm
    → alloc_frames m.pmm 1 ≡ taken
    → m.directory (pd_index v) ≡ absent
    → flags % 2 ≡ 1
    → map_new m v 0 flags taken ≡ done m'
    → Backed m v m'
map_new-Backed m m' v flags none valid got h is_present e = absurd (grind (arith, e))
map_new-Backed m m' v flags (some (zero, pmm)) valid got h is_present e = absurd (grind (arith, e))
map_new-Backed m m' v flags (some (suc frame, pmm)) valid got h is_present e =
    let fl = if flags / 4 % 2 == 1 then kernel_flags + user_flag else kernel_flags in
    let m1 = record m { pmm = pmm } in
    let t = alloc_frames-Taken m.pmm 1 (suc frame) pmm valid got in
    let b =
      map_in-Backed m1 m' v flags (suc frame) fl (λ j. no_page) t.valid
        (new_table m1 v (suc frame) fl h) is_present e in
    record {
      frame = b.frame;
      aligned = b.aligned;
      was_free = still_free m.pmm pmm (suc frame) (b.frame / 0x1000) t b.was_free;
      is_taken = b.is_taken;
      mapped = same_frames m m' v b.frame pmm b.mapped;
    }

map_at-Backed :
    (m m' : Memory) (v flags : ℕ) (pde : Pde)
    → IsValid m.pmm
    → m.directory (pd_index v) ≡ pde
    → flags % 2 ≡ 1
    → map_at m v 0 flags pde ≡ done m'
    → Backed m v m'
map_at-Backed m m' v flags (large raw) valid h is_present e = absurd (grind (arith, e))
map_at-Backed m m' v flags (table frame fl pt) valid h is_present e =
    map_in-Backed m m' v flags frame fl pt valid (λ w. ap (λ (pde : Pde). phys pde w) h) is_present
      e
map_at-Backed m m' v flags absent valid h is_present e =
    map_new-Backed m m' v flags (alloc_frames m.pmm 1) valid refl h is_present e

map-Backed :
    (m m' : Memory) (v flags : ℕ)
    → IsValid m.pmm
    → flags % 2 ≡ 1
    → map m v 0 flags ≡ done m'
    → ((pd_index v == 1023) ≡ false) × Backed m v m'
unfolding map
map-Backed m m' v flags valid is_present e =
    let off : (flags == 0) ≡ false = ground (arith, is_present) in
    let fl : (if flags == 0 then kernel_flags else flags) ≡ flags = rw off refl in
    let at = map_at m v 0 (if flags == 0 then kernel_flags else flags) (m.directory (pd_index v)) in
    let (low, got) = not_window (pd_index v == 1023) at m' e in
    (
      low,
      map_at-Backed m m' v flags (m.directory (pd_index v)) valid refl is_present
          (ap (λ (f : ℕ). map_at m v 0 f (m.directory (pd_index v))) (sym fl) ∙ got),
    )

-- A page at `v` that was not mapped translates to a frame that was free and is taken, and every other address
-- below the recursive window translates as before.
pub record Page (m : Memory) (v : ℕ) (m' : Memory) : Type 0 where
  pub frame : ℕ
  pub aligned : frame % 0x1000 ≡ 0
  pub was_free : free_at m.pmm.bitmap (frame / 0x1000) ≡ true
  pub is_taken : free_at m'.pmm.bitmap (frame / 0x1000) ≡ false
  pub before : (w : ℕ) → v ≤ w → w < v + 0x1000 → virt2phys m w ≡ 0
  pub here : (w : ℕ) → v ≤ w → w < v + 0x1000 → virt2phys m' w ≡ frame + (w - v)
  pub below : (w : ℕ) → w < v → virt2phys m' w ≡ virt2phys m w
  pub above : (w : ℕ) → v + 0x1000 ≤ w → w < window → virt2phys m' w ≡ virt2phys m w

-- Mapping a page without giving a frame, with PAGE_PRESENT among the flags and a valid allocator, where it
-- returns: the page was not mapped, its addresses translate to those of a frame that was free and is taken
-- now, and every other address below the recursive window translates as it did. The page's address is a
-- multiple of 4096 and a word.
pub map-Page :
    (m m' : Memory) (v flags : ℕ)
    → IsValid m.pmm
    → v % 0x1000 ≡ 0
    → v < 2 ^ 32
    → flags % 2 ≡ 1
    → map m v 0 flags ≡ done m'
    → Page m v m'
map-Page m m' v flags valid va word is_present e =
    let (not_last, b) = map-Backed m m' v flags valid is_present e in
    let low : v + 0x1000 ≤ window = ground (arith, not_last, va, word) in
    record {
      frame = b.frame;
      aligned = b.aligned;
      was_free = b.was_free;
      is_taken = b.is_taken;
      before = λ w ge lt.
          virt2phys-translate m w (omega (arith, low, lt))
          ∙ b.mapped.before w (omega (arith, va, ge, lt));
      here = λ w ge lt.
          virt2phys-translate m' w (omega (arith, low, lt))
          ∙ b.mapped.here w (omega (arith, va, ge, lt))
          ∙ omega (arith, va, ge, lt);
      below = λ w l.
          same_below m m' w (omega (arith, low, l)) (b.mapped.elsewhere w (omega (arith, va, l)));
      above = λ w g l. same_below m m' w l (b.mapped.elsewhere w (omega (arith, va, g)));
    }
