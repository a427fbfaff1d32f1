-- ===== src/Paging/Tests.antt =====
-- Runs of the page tables: an empty directory, where the frames 0x2000 and 0x3000 are free, and two pages that are
-- mapped and unmapped; the translation of a page of 4 MB.
use scales_os.Prelude.{ℕ, ◌+◌, ◌<◌, ◌≡◌, refl, true, List, [], ◌∷◌, arith, test_bit, clear_bit}
use scales_os.Pmm.{Pmm, alloc_frames, search}
use scales_os.Paging.{
  Memory, absent, no_page, pte, update, with_pte, window, virt2phys, large_phys, done, map, unmap,
  unmap_region,
}
use scales_os.Paging.Mapping.{unmap-map}
use scales_os.Pmm.Alloc.{IsValid}
use scales_os.Paging.Backing.{Page, map-Page}
use scales_os.Paging.Regions.{Cleared, unmap_region-Cleared}

abbrev frames : List ℕ → ℕ → Pmm
frames bitmap allocated = record {
  bitmap = bitmap;
  first_free_index = 0;
  allocated = allocated;
  freed = 2;
  total = 2;
  initialised = true;
}

abbrev empty : Memory
empty = record { pmm = frames (0b1100 ∷ []) 0; directory = λ i. absent; directory_frame = 0x1000 }

abbrev v : ℕ
v = 0x40000000

abbrev one : Memory
one =
    with_pte (record empty { pmm = frames (0b1000 ∷ []) 1 }) v 0x2000 7 (λ j. no_page)
      (pte 0x5000 7)

mapped_one : map empty v 0x5000 7 ≡ done one
unfolding map alloc_frames search test_bit clear_bit
mapped_one = refl

unmap-map_example :
    (m : Memory) × (unmap one v ≡ done m)
    × ((w : ℕ) → w < window → virt2phys m w ≡ virt2phys empty w)
unmap-map_example =
    unmap-map empty one v 0x5000 7 (omega arith) (omega arith) (omega arith) mapped_one

-- A page that is mapped without a frame takes the second, behind that of its table.
abbrev backed : Memory
backed =
    with_pte (record empty { pmm = record (frames (0 ∷ []) 2) { first_free_index = 1 } }) v 0x2000 7
      (λ j. no_page) (pte 0x3000 7)

mapped_backed : map empty v 0 7 ≡ done backed
unfolding map alloc_frames search test_bit clear_bit
mapped_backed = refl

empty-IsValid : IsValid empty.pmm
empty-IsValid = record { small = omega arith; full_below = λ i h. absurd (omega (arith, h)) }

map-Page_example : Page empty v backed
map-Page_example =
    map-Page empty backed v 7 empty-IsValid (omega arith) (omega arith) (omega arith) mapped_backed

abbrev two : Memory
two = with_pte one (v + 0x1000) 0x2000 7 (update (λ j. no_page) 0 (pte 0x5000 7)) (pte 0x6000 7)

abbrev cleared : Memory
cleared =
    with_pte
      (with_pte two v 0x2000 7 (update (update (λ j. no_page) 0 (pte 0x5000 7)) 1 (pte 0x6000 7))
        no_page)
      (v + 0x1000) 0x2000 7
      (update (update (update (λ j. no_page) 0 (pte 0x5000 7)) 1 (pte 0x6000 7)) 0 no_page) no_page

unmapped_two : unmap_region two v 2 ≡ done cleared
unfolding unmap_region unmap
unmapped_two = refl

unmap_region-Cleared_example : Cleared two v 2 cleared
unmap_region-Cleared_example =
    unmap_region-Cleared 2 two cleared v (omega arith) (omega arith) unmapped_two

-- The entry of the page of 4 MB at 0x400000 is taken for one at 0x40000000.
large_page : large_phys 0x400083 0x123 ≡ 0x40000123
large_page = refl

-- In the recursive window the table of the page can be read, and the directory.
window_table : virt2phys one (0xffd00008) ≡ 0x2008
window_table = refl

window_directory : virt2phys one 0xfffff004 ≡ 0x1004
window_directory = refl
