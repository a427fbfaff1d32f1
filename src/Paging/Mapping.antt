-- ===== src/Paging/Mapping.antt =====
-- What the page tables translate after a page is mapped or unmapped (kernel/src/mem/paging.c).
use scales_os.Prelude.{
  ℕ, zero, suc, ◌+◌, ◌/◌, ◌%◌, ◌<◌, ◌≡◌, ◌≢◌, ◌∙◌, refl, sym, ap, subst, inl, inr, Bool, true,
  false, Bool-cases, Option, none, some, arith, ◌==◌, if◌then◌else◌,
}
use scales_os.Pmm.{Pmm, alloc_frames, free}
use scales_os.Paging.{
  Pte, Pde, absent, large, table, Memory, pd_index, pt_index, kernel_flags, user_flag, no_page,
  unmap_in, pte, present, phys, translate, window, virt2phys, Outcome, done, panic, stray, with_pte,
  unmap, map_in, map_new, map_at, map,
}
use scales_os.Paging.Entries.{
  pte_phys, same_page, same-pd, Stands, test-eq, eq-test, translate-with_pte, pte-phys,
}

-- An entry of the directory that has a table
abbrev pub IsTable : Pde → Type 0
IsTable absent = ⊥
IsTable (large raw) = ⊥
IsTable (table frame flags pt) = Unit

-- A page that was not mapped translates to the frame, and all others translate as before.
pub record Mapped (m : Memory) (v paddr : ℕ) (m' : Memory) : Type 0 where
  pub before : (w : ℕ) → w / 0x1000 ≡ v / 0x1000 → translate m w ≡ 0
  pub here : (w : ℕ) → w / 0x1000 ≡ v / 0x1000 → translate m' w ≡ paddr + w % 0x1000
  pub elsewhere : (w : ℕ) → w / 0x1000 ≢ v / 0x1000 → translate m' w ≡ translate m w
  pub has_table : IsTable (m'.directory (pd_index v))

with_pte-IsTable :
    (m : Memory) (v frame flags : ℕ) (pt : ℕ → Pte) (e : Pte)
    → IsTable ((with_pte m v frame flags pt e).directory (pd_index v))
with_pte-IsTable m v frame flags pt e =
    let is : (pd_index v == pd_index v) ≡ true = ground arith in rw is tt

not_present :
    (m : Memory) (v frame flags w : ℕ) (pt : ℕ → Pte)
    → Stands m v (table frame flags pt)
    → present (pt (pt_index v)) ≡ false
    → w / 0x1000 ≡ v / 0x1000
    → translate m w ≡ 0
not_present m v frame flags w pt h free same =
    let t : pt_index w ≡ pt_index v = ap (λ (k : ℕ). k % 0x400) same in
    ap (λ (k : ℕ). phys (m.directory k) w) (same-pd w v same)
    ∙ h w
    ∙ ap (λ (k : ℕ). pte_phys (pt k) w) t
    ∙ rw free refl

pub with_pte-Mapped :
    (m : Memory) (v frame pde_flags paddr flags : ℕ) (pt : ℕ → Pte)
    → Stands m v (table frame pde_flags pt)
    → present (pt (pt_index v)) ≡ false
    → paddr % 0x1000 ≡ 0
    → flags % 2 ≡ 1
    → Mapped m v paddr (with_pte m v frame pde_flags pt (pte paddr flags))
with_pte-Mapped m v frame pde_flags paddr flags pt h free aligned is_present = record {
  before = λ w. not_present m v frame pde_flags w pt h free;
  here = λ w same.
      translate-with_pte m v frame pde_flags w pt (pte paddr flags) h
      ∙ rw (eq-test (w / 0x1000) (v / 0x1000) same) (pte-phys paddr flags w aligned is_present);
  elsewhere = λ w other.
      let off : same_page w v ≡ false = ground (arith, other) in
      translate-with_pte m v frame pde_flags w pt (pte paddr flags) h ∙ rw off refl;
  has_table = with_pte-IsTable m v frame pde_flags pt (pte paddr flags);
}

memory_of : Memory → Outcome → Memory
memory_of m (done m') = m'
memory_of m panic = m
memory_of m stray = m

pub done-injective : (m m' : Memory) → done m ≡ done m' → m ≡ m'
unfolding memory_of
done-injective m m' e = ap (memory_of m) e

map_in-Mapped :
    (m m' : Memory) (v paddr flags frame pde_flags : ℕ) (pt : ℕ → Pte)
    → Stands m v (table frame pde_flags pt)
    → paddr ≢ 0
    → paddr % 0x1000 ≡ 0
    → flags % 2 ≡ 1
    → map_in m v paddr flags frame pde_flags pt ≡ done m'
    → Mapped m v paddr m'
map_in-Mapped m m' v zero flags frame pde_flags pt h nz aligned is_present e = absurd (nz refl)
map_in-Mapped m m' v (suc p) flags frame pde_flags pt h nz aligned is_present e =
    elim (Bool-cases (present (pt (pt_index v)))) [
      | inl there ↦
          let lost : map_in m v (suc p) flags frame pde_flags pt ≡ panic = rw there refl in
          absurd (grind (arith, lost, e))
      | inr free ↦
          let to = with_pte m v frame pde_flags pt (pte (suc p) flags) in
          let got : map_in m v (suc p) flags frame pde_flags pt ≡ done to = rw free refl in
          subst (Mapped m v (suc p)) (done-injective to m' (sym got ∙ e))
            (with_pte-Mapped m v frame pde_flags (suc p) flags pt h free aligned is_present)
    ]

pub new_table :
    (m : Memory) (v frame flags : ℕ)
    → m.directory (pd_index v) ≡ absent
    → Stands m v (table frame flags (λ j. no_page))
new_table m v frame flags h w = ap (λ (pde : Pde). phys pde w) h

-- The frames play no part.
pub same_frames :
    (m m' : Memory) (v paddr : ℕ) (pmm : Pmm)
    → Mapped (record m { pmm = pmm }) v paddr m'
    → Mapped m v paddr m'
same_frames m m' v paddr pmm mapped = record {
  before = mapped.before;
  here = mapped.here;
  elsewhere = mapped.elsewhere;
  has_table = mapped.has_table;
}

map_new-Mapped :
    (m m' : Memory) (v paddr flags : ℕ) (taken : Option (ℕ × Pmm))
    → m.directory (pd_index v) ≡ absent
    → paddr ≢ 0
    → paddr % 0x1000 ≡ 0
    → flags % 2 ≡ 1
    → map_new m v paddr flags taken ≡ done m'
    → Mapped m v paddr m'
map_new-Mapped m m' v paddr flags none h nz aligned is_present e = absurd (grind (arith, e))
map_new-Mapped m m' v paddr flags (some (zero, pmm)) h nz aligned is_present e =
    absurd (grind (arith, e))
map_new-Mapped m m' v paddr flags (some (suc frame, pmm)) h nz aligned is_present e =
    let fl = if flags / 4 % 2 == 1 then kernel_flags + user_flag else kernel_flags in
    let m1 = record m { pmm = pmm } in
    same_frames m m' v paddr pmm (
      map_in-Mapped m1 m' v paddr flags (suc frame) fl (λ j. no_page)
        (new_table m1 v (suc frame) fl h) nz aligned is_present e)

map_at-Mapped :
    (m m' : Memory) (v paddr flags : ℕ) (pde : Pde)
    → m.directory (pd_index v) ≡ pde
    → paddr ≢ 0
    → paddr % 0x1000 ≡ 0
    → flags % 2 ≡ 1
    → map_at m v paddr flags pde ≡ done m'
    → Mapped m v paddr m'
map_at-Mapped m m' v paddr flags (large raw) h nz aligned is_present e = absurd (grind (arith, e))
map_at-Mapped m m' v paddr flags (table frame fl pt) h nz aligned is_present e =
    map_in-Mapped m m' v paddr flags frame fl pt (λ w. ap (λ (pde : Pde). phys pde w) h) nz aligned
      is_present e
map_at-Mapped m m' v paddr flags absent h nz aligned is_present e =
    map_new-Mapped m m' v paddr flags (alloc_frames m.pmm 1) h nz aligned is_present e

below_window-pd_index : (w : ℕ) → w < window → (pd_index w == 1023) ≡ false
below_window-pd_index w l = ground (arith, l)

-- Below the recursive window an address translates as its table says.
pub virt2phys-translate : (m : Memory) (w : ℕ) → w < window → virt2phys m w ≡ translate m w
virt2phys-translate m w l = rw (below_window-pd_index w l) refl

pub same_below :
    (m m' : Memory) (w : ℕ)
    → w < window
    → translate m' w ≡ translate m w
    → virt2phys m' w ≡ virt2phys m w
same_below m m' w l e = virt2phys-translate m' w l ∙ e ∙ sym (virt2phys-translate m w l)

-- An operation that returns has no address of the window.
pub not_window :
    (b : Bool) (o : Outcome) (m' : Memory)
    → (if b then stray else o) ≡ done m'
    → (b ≡ false) × (o ≡ done m')
not_window true o m' e = absurd (grind (arith, e))
not_window false o m' e = (refl, e)

-- Mapping a page to a frame that is given, with PAGE_PRESENT among the flags, where it returns: the page
-- was not mapped before, it translates to the frame afterwards, and every other page translates as it
-- did, also those of a table that had to be created. The frame's address is a multiple of 4096 and not 0.
pub map-Mapped :
    (m m' : Memory) (v paddr flags : ℕ)
    → paddr ≢ 0
    → paddr % 0x1000 ≡ 0
    → flags % 2 ≡ 1
    → map m v paddr flags ≡ done m'
    → Mapped m v paddr m'
unfolding map
map-Mapped m m' v paddr flags nz aligned is_present e =
    let off : (flags == 0) ≡ false = ground (arith, is_present) in
    let fl : (if flags == 0 then kernel_flags else flags) ≡ flags = rw off refl in
    let at =
      map_at m v paddr (if flags == 0 then kernel_flags else flags) (m.directory (pd_index v)) in
    let (low, got) = not_window (pd_index v == 1023) at m' e in
    map_at-Mapped m m' v paddr flags (m.directory (pd_index v)) refl nz aligned is_present
      (ap (λ (f : ℕ). map_at m v paddr f (m.directory (pd_index v))) (sym fl) ∙ got)

map-low :
    (m m' : Memory) (v paddr flags : ℕ)
    → map m v paddr flags ≡ done m'
    → (pd_index v == 1023) ≡ false
unfolding map
map-low m m' v paddr flags e =
    let at =
      map_at m v paddr (if flags == 0 then kernel_flags else flags) (m.directory (pd_index v)) in
    let (low, got) = not_window (pd_index v == 1023) at m' e in low

-- The page does not translate, and all others translate as before.
pub record Unmapped (m : Memory) (v : ℕ) (m' : Memory) : Type 0 where
  pub here : (w : ℕ) → w / 0x1000 ≡ v / 0x1000 → translate m' w ≡ 0
  pub elsewhere : (w : ℕ) → w / 0x1000 ≢ v / 0x1000 → translate m' w ≡ translate m w

cleared-Unmapped :
    (m : Memory) (v frame flags : ℕ) (pt : ℕ → Pte)
    → m.directory (pd_index v) ≡ table frame flags pt
    → Unmapped m v (with_pte m v frame flags pt no_page)
cleared-Unmapped m v frame flags pt h =
    let at = λ (w : ℕ).
      translate-with_pte m v frame flags w pt no_page (λ u. ap (λ (pde : Pde). phys pde u) h) in
    record {
      here = λ w same. at w ∙ rw (eq-test (w / 0x1000) (v / 0x1000) same) refl;
      elsewhere =
          λ w other. let off : same_page w v ≡ false = ground (arith, other) in at w ∙ rw off refl;
    }

unmap_in-Unmapped :
    (m m' : Memory) (v : ℕ) (pde : Pde)
    → m.directory (pd_index v) ≡ pde
    → unmap_in m v pde ≡ done m'
    → Unmapped m v m'
unmap_in-Unmapped m m' v absent h e = subst (Unmapped m v) (done-injective m m' e) (record {
  here = λ w same.
      ap (λ (k : ℕ). phys (m.directory k) w) (same-pd w v same) ∙ ap (λ (pde : Pde). phys pde w) h;
  elsewhere = λ w other. refl;
})
unmap_in-Unmapped m m' v (large raw) h e = absurd (grind (arith, e))
unmap_in-Unmapped m m' v (table frame flags pt) h e =
    subst (Unmapped m v) (done-injective (with_pte m v frame flags pt no_page) m' e)
      (cleared-Unmapped m v frame flags pt h)

-- Unmapping, where it returns, leaves the page without a translation and every other page as it was.
pub unmap-Unmapped : (m m' : Memory) (v : ℕ) → unmap m v ≡ done m' → Unmapped m v m'
unfolding unmap
unmap-Unmapped m m' v e =
    let at = unmap_in m v (m.directory (pd_index v)) in
    let (low, got) = not_window (pd_index v == 1023) at m' e in
    unmap_in-Unmapped m m' v (m.directory (pd_index v)) refl got

unmap_in-returns :
    (m : Memory) (v : ℕ) (pde : Pde) → IsTable pde → (m' : Memory) × (unmap_in m v pde ≡ done m')
unmap_in-returns m v absent t = absurd t
unmap_in-returns m v (large raw) t = absurd t
unmap_in-returns m v (table frame flags pt) t = (with_pte m v frame flags pt no_page, refl)

unmap-returns :
    (m : Memory) (v : ℕ)
    → (pd_index v == 1023) ≡ false
    → IsTable (m.directory (pd_index v))
    → (m' : Memory) × (unmap m v ≡ done m')
unfolding unmap
unmap-returns m v low t = rw low (unmap_in-returns m v (m.directory (pd_index v)) t)

-- Unmapping a page that has just been mapped returns, and then every address below the recursive window
-- translates as it did before both. The frame's address is a multiple of 4096 and not 0, and PAGE_PRESENT is
-- among the flags.
pub unmap-map :
    (m m' : Memory) (v paddr flags : ℕ)
    → paddr ≢ 0
    → paddr % 0x1000 ≡ 0
    → flags % 2 ≡ 1
    → map m v paddr flags ≡ done m'
    → (m'' : Memory) × (unmap m' v ≡ done m'')
      × ((w : ℕ) → w < window → virt2phys m'' w ≡ virt2phys m w)
unmap-map m m' v paddr flags nz aligned is_present e =
    let mapped = map-Mapped m m' v paddr flags nz aligned is_present e in
    let (m'', returns) = unmap-returns m' v (map-low m m' v paddr flags e) mapped.has_table in
    let cleared = unmap-Unmapped m' m'' v returns in
    (
      m'',
      returns,
      λ w l.
          virt2phys-translate m'' w l
          ∙ elim (Bool-cases (same_page w v)) [
            | inl is ↦
                let same = test-eq (w / 0x1000) (v / 0x1000) is in
                cleared.here w same ∙ sym (mapped.before w same)
            | inr off ↦
                let other : w / 0x1000 ≢ v / 0x1000 = ground (arith, off) in
                cleared.elsewhere w other ∙ mapped.elsewhere w other
          ]
          ∙ sym (virt2phys-translate m w l),
    )
