-- ===== src/Paging/Regions.antt =====
-- Regions of pages, in kernel/src/mem/paging.c.
use scales_os.Prelude.{
  ℕ, zero, suc, ◌+◌, ◌-◌, ◌*◌, ◌%◌, ◌^◌, ◌≤◌, ◌<◌, ◌≡◌, ◌∙◌, refl, sym, ap, inl, inr, Bool-cases,
  add32, arith, ltb, ltb→lt,
}
use scales_os.Paging.{
  Memory, translate, window, virt2phys, Outcome, done, panic, stray, then_, unmap, unmap_region,
}
use scales_os.Paging.Mapping.{
  Unmapped, virt2phys-translate, same_below, unmap-Unmapped, done-injective,
}

then-done :
    (o : Outcome) (f : Memory → Outcome) (m' : Memory)
    → then_ o f ≡ done m'
    → (m1 : Memory) × (o ≡ done m1) × (f m1 ≡ done m')
then-done (done m) f m' e = (m, refl, e)
then-done panic f m' e = absurd (grind (arith, e))
then-done stray f m' e = absurd (grind (arith, e))

-- The same in the tables, whose entries are at any address
record TableRun (m : Memory) (v frame size : ℕ) (m' : Memory) : Type 0 where
  before : (w : ℕ) → v ≤ w → w < v + size * 0x1000 → translate m w ≡ 0
  pub here : (w : ℕ) → v ≤ w → w < v + size * 0x1000 → translate m' w ≡ frame + (w - v)
  pub below : (w : ℕ) → w < v → translate m' w ≡ translate m w
  pub above : (w : ℕ) → v + size * 0x1000 ≤ w → translate m' w ≡ translate m w

-- The pages of a region below the recursive window are mapped to frames one behind the other.
pub record Run (m : Memory) (v frame size : ℕ) (m' : Memory) : Type 0 where
  pub before : (w : ℕ) → v ≤ w → w < v + size * 0x1000 → virt2phys m w ≡ 0
  pub here : (w : ℕ) → v ≤ w → w < v + size * 0x1000 → virt2phys m' w ≡ frame + (w - v)
  pub below : (w : ℕ) → w < v → virt2phys m' w ≡ virt2phys m w
  pub above : (w : ℕ) → v + size * 0x1000 ≤ w → w < window → virt2phys m' w ≡ virt2phys m w

-- The same in the tables
record TableCleared (m : Memory) (v size : ℕ) (m' : Memory) : Type 0 where
  pub here : (w : ℕ) → v ≤ w → w < v + size * 0x1000 → translate m' w ≡ 0
  pub below : (w : ℕ) → w < v → translate m' w ≡ translate m w
  pub above : (w : ℕ) → v + size * 0x1000 ≤ w → translate m' w ≡ translate m w

TableCleared-Unmapped :
    (m m1 m' : Memory) (v size : ℕ)
    → v % 0x1000 ≡ 0
    → Unmapped m v m1
    → TableCleared m1 (v + 0x1000) size m'
    → TableCleared m v (suc size) m'
TableCleared-Unmapped m m1 m' v size aligned first rest = record {
  here = λ w ge lt. elim (Bool-cases (ltb w (v + 0x1000))) [
    | inl is ↦
        let l = ltb→lt w (v + 0x1000) is in
        rest.below w l ∙ first.here w (omega (arith, aligned, ge, l))
    | inr off ↦
        let past : v + 0x1000 ≤ w = ground (arith, off) in rest.here w past (omega (arith, lt))
  ];
  below = λ w l. rest.below w (omega (arith, l)) ∙ first.elsewhere w (omega (arith, l, aligned));
  above = λ w g. rest.above w (omega (arith, g)) ∙ first.elsewhere w (omega (arith, g, aligned));
}

unmap_region-TableCleared :
    (size : ℕ) (m m' : Memory) (v : ℕ)
    → v % 0x1000 ≡ 0
    → v + size * 0x1000 < 2 ^ 32
    → unmap_region m v size ≡ done m'
    → TableCleared m v size m'
unfolding unmap_region
unmap_region-TableCleared zero m m' v va vb e =
    let same : m ≡ m' = done-injective m m' e in
    record {
      here = λ w ge lt. absurd (omega (arith, ge, lt));
      below = λ w l. ap (λ (x : Memory). translate x w) (sym same);
      above = λ w g. ap (λ (x : Memory). translate x w) (sym same);
    }
unmap_region-TableCleared (suc size) m m' v va vb e =
    let f = λ (x : Memory). unmap_region x (add32 v 0x1000) size in
    let (m1, first, rest) = then-done (unmap m v) f m' e in
    let v_next : add32 v 0x1000 ≡ v + 0x1000 = omega (arith, vb) in
    let rest' = ap (λ (x : ℕ). unmap_region m1 x size) (sym v_next) ∙ rest in
    TableCleared-Unmapped m m1 m' v size va (unmap-Unmapped m m1 v first) (
      unmap_region-TableCleared size m1 m' (v + 0x1000) (omega (arith, va)) (omega (arith, vb))
        rest')

-- No page of a region below the recursive window is mapped.
pub record Cleared (m : Memory) (v size : ℕ) (m' : Memory) : Type 0 where
  pub here : (w : ℕ) → v ≤ w → w < v + size * 0x1000 → virt2phys m' w ≡ 0
  pub below : (w : ℕ) → w < v → virt2phys m' w ≡ virt2phys m w
  pub above : (w : ℕ) → v + size * 0x1000 ≤ w → w < window → virt2phys m' w ≡ virt2phys m w

-- Unmapping a region of whole pages that ends at the recursive window or below it, where it returns, leaves
-- none of its addresses with a translation and every address outside and below the window as it was.
pub unmap_region-Cleared :
    (size : ℕ) (m m' : Memory) (v : ℕ)
    → v % 0x1000 ≡ 0
    → v + size * 0x1000 ≤ window
    → unmap_region m v size ≡ done m'
    → Cleared m v size m'
unmap_region-Cleared size m m' v va low e =
    let cleared = unmap_region-TableCleared size m m' v va (omega (arith, low)) e in
    record {
      here = λ w ge lt. virt2phys-translate m' w (omega (arith, low, lt)) ∙ cleared.here w ge lt;
      below = λ w l. same_below m m' w (omega (arith, low, l)) (cleared.below w l);
      above = λ w g l. same_below m m' w l (cleared.above w g);
    }
