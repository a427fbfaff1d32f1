-- ===== src/Mem/Tests.antt =====
-- Runs of the models of libc/src/string on a small memory.
use scales_os.Prelude.{ℕ, ◌-◌, ◌≡◌, refl, inl, arith, leb, if◌then◌else◌, get_or, List, [], ◌∷◌}
use scales_os.Mem.{memmove, strcpy}
use scales_os.Mem.Copy.{copied, memmove-copied}
use scales_os.Mem.Strings.{IsString, compare, Copied, strcpy-Copied}

-- "abc" at 100, with room behind it, and "abd" at 120.
abbrev bytes : List ℕ
bytes =
    97 ∷ 98 ∷ 99 ∷ 0 ∷ 0 ∷ 0 ∷ 0 ∷ 0 ∷ 0 ∷ 0 ∷ 0 ∷ 0 ∷ 0 ∷ 0 ∷ 0 ∷ 0 ∷ 0 ∷ 0 ∷ 0 ∷ 0 ∷ 97 ∷ 98 ∷ 100
    ∷ 0 ∷ []

abbrev memory : ℕ → ℕ
memory x = if leb 100 x then get_or bytes (x - 100) 0 else 0

abbrev abc : List ℕ
abc = 97 ∷ 98 ∷ 99 ∷ []

abbrev abd : List ℕ
abd = 97 ∷ 98 ∷ 100 ∷ []

abc-IsString : IsString memory 100 abc
unfolding IsString
abc-IsString = (refl, omega arith, (refl, omega arith, (refl, omega arith, refl)))

abd-IsString : IsString memory 120 abd
unfolding IsString
abd-IsString = (refl, omega arith, (refl, omega arith, (refl, omega arith, refl)))

-- The string moved up by one over itself.
memmove-copied_example : memmove memory 101 100 3 103 ≡ copied memory 101 100 3 103
memmove-copied_example = memmove-copied memory 101 100 3 103 (omega arith) (omega arith)

strcmp_differs : compare abc abd ≡ (99, 100)
unfolding compare
strcmp_differs = refl

strcpy-Copied_example : Copied memory 110 abd (strcpy memory 110 120 9)
strcpy-Copied_example =
    strcpy-Copied abd memory 110 120 9 abd-IsString (inl (omega arith)) (omega arith)
