-- ===== src/Paging/Entries.antt =====
-- What an entry of the page tables translates (kernel/src/mem/paging.c).
use Prim.Native.Nat.{bit_or, bit_or-bitwise}
use scales_os.Prelude.{
  ℕ, ◌+◌, ◌*◌, ◌/◌, ◌%◌, ◌≡◌, ◌∙◌, refl, sym, ap, inl, inr, Bool, true, false, Bool-cases, arith,
  ◌==◌, if◌then◌else◌,
}
use scales_os.Paging.{
  Pte, Pde, table, Memory, pd_index, pt_index, pte, present, phys, translate, update, with_pte,
}

-- The address that an entry gives
abbrev pub pte_phys : Pte → ℕ → ℕ
pte_phys e w = if present e then e.page * 0x1000 + w % 0x1000 else 0

abbrev pub same_page : ℕ → ℕ → Bool
same_page w v = w / 0x1000 == v / 0x1000

same-indices :
    (w v : ℕ) → pd_index w ≡ pd_index v → pt_index w ≡ pt_index v → w / 0x1000 ≡ v / 0x1000
same-indices w v d t = omega (arith, d, t)

pub same-pd : (w v : ℕ) → w / 0x1000 ≡ v / 0x1000 → pd_index w ≡ pd_index v
same-pd w v h = omega (arith, h)

-- A table that translates as what stands in the directory
abbrev pub Stands : Memory → (v : ℕ) → Pde → Type 0
Stands m v pde = (w : ℕ) → phys (m.directory (pd_index v)) w ≡ phys pde w

phys-update :
    (frame flags v w : ℕ) (pt : ℕ → Pte) (e : Pte)
    → phys (table frame flags (update pt (pt_index v) e)) w
      ≡ (if pt_index w == pt_index v then pte_phys e w else phys (table frame flags pt) w)
phys-update frame flags v w pt e = elim (Bool-cases (pt_index w == pt_index v)) [
  | inl is ↦ rw is refl
  | inr off ↦ rw off refl
]

translate-update :
    (m : Memory) (v w : ℕ) (pde : Pde)
    → translate (record m { directory = update m.directory (pd_index v) pde }) w
      ≡ (if pd_index w == pd_index v then phys pde w else translate m w)
translate-update m v w pde = elim (Bool-cases (pd_index w == pd_index v)) [
  | inl is ↦ rw is refl
  | inr off ↦ rw off refl
]

both_tests :
    (a b c : Bool) (x y z : ℕ)
    → (a ≡ true → y ≡ z)
    → (a ≡ true → b ≡ true → c ≡ true)
    → (c ≡ true → a ≡ true)
    → (c ≡ true → b ≡ true)
    → (if a then if b then x else y else z) ≡ (if c then x else z)
both_tests true true c x y z h f g k = rw (f refl refl) refl
both_tests true false true x y z h f g k = grind (arith, k refl)
both_tests true false false x y z h f g k = h refl
both_tests false b true x y z h f g k = grind (arith, g refl)
both_tests false b false x y z h f g k = refl

pub test-eq : (a b : ℕ) → (a == b) ≡ true → a ≡ b
test-eq a b h = ground (arith, h)

pub eq-test : (a b : ℕ) → a ≡ b → (a == b) ≡ true
eq-test a b h = ground (arith, h)

pub translate-with_pte :
    (m : Memory) (v frame flags w : ℕ) (pt : ℕ → Pte) (e : Pte)
    → Stands m v (table frame flags pt)
    → translate (with_pte m v frame flags pt e) w
      ≡ (if same_page w v then pte_phys e w else translate m w)
translate-with_pte m v frame flags w pt e h =
    translate-update m v w (table frame flags (update pt (pt_index v) e))
    ∙ ap (λ (x : ℕ). if pd_index w == pd_index v then x else translate m w)
        (phys-update frame flags v w pt e)
    ∙ both_tests (pd_index w == pd_index v) (pt_index w == pt_index v) (same_page w v)
        (pte_phys e w) (phys (table frame flags pt) w) (translate m w)
        (λ d.
          sym (h w)
          ∙ ap (λ (k : ℕ). phys (m.directory k) w) (sym (test-eq (pd_index w) (pd_index v) d)))
        (λ d t. eq-test (w / 0x1000) (v / 0x1000) (
          same-indices w v (test-eq (pd_index w) (pd_index v) d)
            (test-eq (pt_index w) (pt_index v) t)))
        (λ c. eq-test (pd_index w) (pd_index v) (same-pd w v (test-eq (w / 0x1000) (v / 0x1000) c)))
        (λ c.
          eq-test (pt_index w) (pt_index v)
            (ap (λ (k : ℕ). k % 0x400) (test-eq (w / 0x1000) (v / 0x1000) c)))

-- The entry of a frame
pub pte-phys :
    (paddr flags w : ℕ)
    → paddr % 0x1000 ≡ 0
    → flags % 2 ≡ 1
    → pte_phys (pte paddr flags) w ≡ paddr + w % 0x1000
pte-phys paddr flags w aligned is_present =
    let f : bit_or (paddr % 0x1000) flags ≡ flags =
      ap (λ (k : ℕ). bit_or k flags) aligned ∙ (λ i. bit_or-bitwise 0 flags i) in
    let there : present (pte paddr flags) ≡ true =
      ap (λ (k : ℕ). k % 2 == 1) f ∙ eq-test (flags % 2) 1 is_present in
    rw there (omega (arith, aligned))
