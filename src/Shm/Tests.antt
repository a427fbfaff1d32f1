-- ===== src/Shm/Tests.antt =====
-- Runs of truncation on a region of three pages and on one of one page.
use scales_os.Prelude.{ℕ, ◌*◌, ◌≡◌, refl, true, some, [], ◌∷◌, length, arith, test_bit, clear_bit}
use scales_os.Pmm.{Pmm, alloc_frames, search, clear_frames, clear_frame, next_free_index, skip_full}
use scales_os.Shm.{Shm, grow, pages_of, resized, truncate}
use scales_os.Shm.Truncation.{IsWhole, Distinct, Absent, truncate-drops}

-- The frames 33, 35 and 36 are free.
abbrev pmm : Pmm
pmm = record {
  bitmap = 0 ∷ 0b11010 ∷ [];
  first_free_index = 1;
  allocated = 0;
  freed = 0;
  total = 3;
  initialised = true;
}

abbrev three_pages : Shm
three_pages = record { frames = 0x50000 ∷ 0x51000 ∷ 0x52000 ∷ []; size = 0x3000 }

-- Of three pages the last one is left, not the first.
truncate-drops_example :
    (p' : Pmm) × (truncate pmm three_pages (1 * 0x1000)
      ≡ some (p', record { frames = 0x52000 ∷ []; size = 1 * 0x1000 }))
    × (length {A = ℕ} (0x52000 ∷ []) ≡ 1)
unfolding IsWhole Distinct Absent
truncate-drops_example =
    truncate-drops pmm three_pages 1
      (refl, ((omega arith, (omega arith, tt)), ((omega arith, tt), (tt, tt)))) (omega arith)
      (omega arith)

abbrev one_page : Shm
one_page = record { frames = 0x50000 ∷ []; size = 0x1000 }

abbrev grown : Shm
grown = record { frames = 0x50000 ∷ 0x21000 ∷ []; size = 0x2000 }

abbrev after_one : Pmm
after_one = record pmm { bitmap = 0 ∷ 0b11000 ∷ []; allocated = 1 }

truncated : truncate pmm one_page 0x2000 ≡ some (after_one, grown)
unfolding truncate grow pages_of resized alloc_frames search clear_frames clear_frame
    next_free_index skip_full test_bit clear_bit
truncated = refl
