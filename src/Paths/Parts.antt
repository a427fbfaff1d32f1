-- ===== src/Paths/Parts.antt =====
-- `k_util_path_segment` finds the parts between the slashes (kernel/src/util/path.c).
use scales_os.Prelude.{
  ℕ, zero, suc, ◌+◌, ◌≤◌, ◌<◌, ◌≡◌, refl, sym, ap, ◌∙◌, subst, Bool, true, false, not, Bool-cases,
  inl, inr, some, List, [], ◌∷◌, length, get_elem?, drop, arith, some-injective, leb, ◌==◌,
  if◌then◌else◌,
}
use scales_os.Paths.{
  slash, count_slashes, until_slash, skip, segment_of, strip, path_length, segment, same_string,
}

-- A character in front of the first part.
unfoldable pub prepend : ℕ → List (List ℕ) → List (List ℕ)
prepend c [] = (c ∷ []) ∷ []
prepend c (p ∷ ps) = (c ∷ p) ∷ ps

-- The parts between the slashes of a string.
unfoldable pub parts : List ℕ → List (List ℕ)
parts [] = [] ∷ []
parts (c ∷ cs) = if c == slash then [] ∷ parts cs else prepend c (parts cs)

-- The last character is not a slash, and there is one.
unfoldable pub ends_plain : List ℕ → Bool
ends_plain [] = false
ends_plain (c ∷ []) = not (c == slash)
ends_plain (c ∷ (d ∷ cs)) = ends_plain (d ∷ cs)

length-prepend : (c : ℕ) (ps : List (List ℕ)) → 0 < length ps → length (prepend c ps) ≡ length ps
unfolding prepend
length-prepend c [] h = absurd (omega (arith, h))
length-prepend c (p ∷ ps) h = refl

pub length-parts : (s : List ℕ) → length (parts s) ≡ count_slashes s + 1
unfolding parts count_slashes
length-parts [] = omega arith
length-parts (c ∷ cs) = elim (Bool-cases (c == slash)) [
  | inl e ↦ rw e (omega (arith, length-parts cs))
  | inr e ↦ rw e (
      length-prepend c (parts cs) (omega (arith, length-parts cs)) ∙ omega (arith, length-parts cs))
]

prepend-first :
    (c : ℕ) (p : List ℕ) (ps : List (List ℕ))
    → get_elem? ps 0 ≡ some p
    → get_elem? (prepend c ps) 0 ≡ some (c ∷ p)
unfolding prepend
prepend-first c p [] e = absurd (grind arith)
prepend-first c p (q ∷ ps) e = ap (λ (x : List ℕ). some (c ∷ x)) (some-injective e)

prepend-later :
    (c n : ℕ) (ps : List (List ℕ)) → get_elem? (prepend c ps) (suc n) ≡ get_elem? ps (suc n)
unfolding prepend
prepend-later c n [] = refl
prepend-later c n (q ∷ ps) = refl

-- The first part is what stands before the first slash, and the others are the parts behind it.
parts-first : (s : List ℕ) → get_elem? (parts s) 0 ≡ some (until_slash s)
unfolding parts until_slash
parts-first [] = refl
parts-first (c ∷ cs) = elim (Bool-cases (c == slash)) [
  | inl e ↦ rw e refl
  | inr e ↦ rw e (prepend-first c (until_slash cs) (parts cs) (parts-first cs))
]

until_slash-cons :
    (c : ℕ) (cs : List ℕ) → (c == slash) ≡ false → until_slash (c ∷ cs) ≡ c ∷ until_slash cs
unfolding until_slash
until_slash-cons c cs e = rw e refl

parts-later :
    (s : List ℕ) (n : ℕ)
    → length (until_slash s) < length s
    → get_elem? (parts s) (suc n) ≡ get_elem? (parts (drop (suc (length (until_slash s))) s)) n
unfolding parts until_slash
parts-later [] n h = absurd (omega (arith, h))
parts-later (c ∷ cs) n h = elim (Bool-cases (c == slash)) [
  | inl e ↦ rw e refl
  | inr e ↦
      let longer : length (until_slash (c ∷ cs)) ≡ suc (length (until_slash cs)) =
        ap (λ (l : List ℕ). length l) (until_slash-cons c cs e) in
      rw e (prepend-later c n (parts cs) ∙ parts-later cs n (omega (arith, h, longer)))
]

-- A string without a slash has one part.
one_part : (s : List ℕ) → length s ≤ length (until_slash s) → length (parts s) ≡ 1
unfolding parts until_slash
one_part [] h = refl
one_part (c ∷ cs) h = elim (Bool-cases (c == slash)) [
  | inl e ↦
      let none_before : length (until_slash (c ∷ cs)) ≡ 0 = rw e refl in
      omega (arith, h, none_before)
  | inr e ↦
      let longer : length (until_slash (c ∷ cs)) ≡ suc (length (until_slash cs)) =
        ap (λ (l : List ℕ). length l) (until_slash-cons c cs e) in
      let inner = one_part cs (omega (arith, h, longer)) in
      rw e (length-prepend c (parts cs) (omega (arith, inner)) ∙ inner)
]

-- A string that ends in no slash goes on behind its first slash, and ends in no slash there.
ends_plain-drop :
    (s : List ℕ)
    → ends_plain s ≡ true
    → length (until_slash s) < length s
    → (suc (length (until_slash s)) < length s)
      × (ends_plain (drop (suc (length (until_slash s))) s) ≡ true)
unfolding ends_plain until_slash
ends_plain-drop [] e h = absurd (omega (arith, h))
ends_plain-drop (c ∷ []) e h =
    let plain : (c == slash) ≡ false = ground arith in
    let one : length (until_slash (c ∷ [])) ≡ 1 = rw plain refl in absurd (omega (arith, h, one))
ends_plain-drop (c ∷ (d ∷ cs)) e h = elim (Bool-cases (c == slash)) [
  | inl i ↦ rw i (omega arith, e)
  | inr i ↦
      let grown = until_slash-cons c (d ∷ cs) i in
      let longer : length (until_slash (c ∷ (d ∷ cs))) ≡ suc (length (until_slash (d ∷ cs))) =
        ap (λ (l : List ℕ). length l) grown in
      let (inside, plain) = ends_plain-drop (d ∷ cs) e (omega (arith, h, longer)) in
      subst
        (λ (l : List ℕ).
          (suc (length l) < length (c ∷ (d ∷ cs)))
          × (ends_plain (drop (suc (length l)) (c ∷ (d ∷ cs))) ≡ true))
        (sym grown) (omega (arith, inside), plain)
]

length-later :
    (s : List ℕ)
    → length (until_slash s) < length s
    → length (parts s) ≡ suc (length (parts (drop (suc (length (until_slash s))) s)))
unfolding parts until_slash
length-later [] h = absurd (omega (arith, h))
length-later (c ∷ cs) h = elim (Bool-cases (c == slash)) [
  | inl e ↦ rw e refl
  | inr e ↦
      let longer : length (until_slash (c ∷ cs)) ≡ suc (length (until_slash cs)) =
        ap (λ (l : List ℕ). length l) (until_slash-cons c cs e) in
      let inner = length-later cs (omega (arith, h, longer)) in
      rw e (length-prepend c (parts cs) (omega (arith, inner)) ∙ inner)
]

-- On a string that ends in no slash the loop of `k_util_path_segment` finds each of its parts.
pub skip-part :
    (n : ℕ) (s : List ℕ)
    → ends_plain s ≡ true
    → n < length (parts s)
    → segment_of (skip n s) ≡ get_elem? (parts s) n
unfolding skip segment_of
skip-part zero s e h = sym (parts-first s)
skip-part (suc n) s e h = elim (Bool-cases (leb (length s) (length (until_slash s) + 1))) [
  | inl last ↦ elim (Bool-cases (leb (length s) (length (until_slash s)))) [
    | inl whole ↦ let one = one_part s (ground (arith, whole)) in absurd (omega (arith, h, one))
    | inr partly ↦
        let (inside, plain) = ends_plain-drop s e (ground (arith, partly)) in
        absurd (ground (arith, inside, last))
  ]
  | inr more ↦
      let inside : length (until_slash s) < length s = ground (arith, more) in
      let (further, plain) = ends_plain-drop s e inside in
      let s' = drop (suc (length (until_slash s))) s in
      rw more (
        skip-part n s' plain (omega (arith, h, length-later s inside))
        ∙ sym (parts-later s n inside))
]

pub path_length-parts :
    (path : List ℕ)
    → same_string path (slash ∷ []) ≡ false
    → path_length path ≡ length (parts (strip path))
unfolding path_length
path_length-parts path nr =
    ap (λ (b : Bool). if b then 0 else count_slashes (strip path) + 1) nr
    ∙ sym (length-parts (strip path))

-- A path that is not "/" and that, stripped, ends in no slash has as many segments as it has parts
-- between its slashes, and segment `n` is part `n`.
pub segment-parts :
    (path : List ℕ) (n : ℕ)
    → same_string path (slash ∷ []) ≡ false
    → ends_plain (strip path) ≡ true
    → n < path_length path
    → (path_length path ≡ length (parts (strip path)))
      × (segment path n ≡ get_elem? (parts (strip path)) n)
unfolding segment
segment-parts path n nr e h =
    let counted = path_length-parts path nr in
    (counted, skip-part n (strip path) e (omega (arith, h, counted)))
