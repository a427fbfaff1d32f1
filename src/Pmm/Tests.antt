-- ===== src/Pmm/Tests.antt =====
-- Runs of pmm.c, and its theorems at concrete bitmaps.
use scales_os.Prelude.{
  ℕ, zero, suc, ◌<◌, ◌≡◌, refl, ◌⊎◌, get_or, test_bit, clear_bit, true, false, none, some, List, [],
  ◌∷◌, arith,
}
use scales_os.Pmm.{Pmm, Region, alloc_frames, free}
use scales_os.Pmm.Bitmap.{free_at}
use scales_os.Pmm.Search.{AllFree}
use scales_os.Pmm.Alloc.{IsValid, Taken, alloc_frames-Taken, alloc_frames-panics}
use scales_os.Pmm.Free.{free-alloc_frames}

-- Frames 33, 35 and 36 are free.
abbrev pmm : Pmm
pmm = record {
  bitmap = 0 ∷ 0b11010 ∷ [];
  first_free_index = 1;
  allocated = 0;
  freed = 0;
  total = 3;
  initialised = true;
}

abbrev full : Pmm
full = record pmm { bitmap = 0 ∷ 0 ∷ [] }

pmm-IsValid : IsValid pmm
pmm-IsValid = record { small = omega arith; full_below = λ i h. below i h }
  where
    below : (i : ℕ) → i < 1 → get_or pmm.bitmap i 0 ≡ 0
    below zero h = refl
    below (suc i) h = absurd (omega arith)

full-IsValid : IsValid full
full-IsValid = record { small = omega arith; full_below = λ i h. below i h }
  where
    below : (i : ℕ) → i < 1 → get_or full.bitmap i 0 ≡ 0
    below zero h = refl
    below (suc i) h = absurd (omega arith)

abbrev after_two : Pmm
after_two = record pmm { bitmap = 0 ∷ 0b10 ∷ []; allocated = 2 }

alloc_two : alloc_frames pmm 2 ≡ some (0x23000, after_two)
unfolding alloc_frames test_bit clear_bit
alloc_two = refl

alloc_three : alloc_frames pmm 3 ≡ none
unfolding alloc_frames test_bit
alloc_three = refl

alloc_full : alloc_frames full 1 ≡ none
unfolding alloc_frames test_bit
alloc_full = refl

alloc_frames-Taken_example : Taken pmm 2 0x23000 after_two
alloc_frames-Taken_example = alloc_frames-Taken pmm 2 0x23000 after_two pmm-IsValid alloc_two

alloc_frames-panics_example : (◌≡◌ {A = ℕ} 3 0) ⊎ ((q : ℕ) → ¬ AllFree pmm.bitmap q 3)
alloc_frames-panics_example = alloc_frames-panics pmm 3 pmm-IsValid alloc_three

free-alloc_frames_example : free_at (free after_two 0x23000 2).bitmap 36 ≡ free_at pmm.bitmap 36
free-alloc_frames_example = free-alloc_frames pmm 2 0x23000 after_two pmm-IsValid alloc_two 36

abbrev regions : List Region
regions =
    record { addr = 0x100000; len = 0x3000; usable = true }
    ∷ record { addr = 0x200000; len = 0x1000; usable = false }
    ∷ []
