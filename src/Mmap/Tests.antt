-- ===== src/Mmap/Tests.antt =====
-- Runs of the mappings: an empty page table; two mappings at one place; a search that never ends.
use scales_os.Prelude.{
  ℕ, zero, suc, ◌≡◌, refl, true, false, none, [], ◌∷◌, arith, if◌then◌else◌, ◌==◌, ltb, ◌||◌,
  test_bit, clear_bit,
}
use scales_os.Pmm.{unstarted, alloc_frames, search}
use scales_os.Pmm.Alloc.{IsValid}
use scales_os.Paging.{Memory, Pte, absent, table, no_page, pte, with_pte, map}
use scales_os.Mmap.{
  Block, State, get_mapping, allocated, new_block, allocate_block, allocate_fixed,
  allocate_anywhere, allocate_found, find_room, first_mapped, skip_mapped, loads, fails,
  handle_pagefault,
}
use scales_os.Mmap.Allocation.{Fresh, allocate_block-Fresh}
use scales_os.Mmap.Faults.{Served, handle_pagefault-Served}

abbrev empty : Memory
empty = record { pmm = unstarted; directory = λ i. absent; directory_frame = 0x1000 }

abbrev fresh : State
fresh = record {
  start = 0x40000000;
  mmap_blocks = [];
  shared_mappings = [];
  memory = empty;
  next = 0;
}

abbrev first : Block
first = new_block 0 0x40000000 2 3 2

abbrev with_first : State
with_first = record fresh { start = 0x40002000; mmap_blocks = first ∷ []; next = 1 }

allocates : allocate_block 1 fresh 0 0x1001 3 2 ≡ allocated first with_first
unfolding allocate_block allocate_anywhere allocate_found find_room first_mapped
allocates = refl

allocate_block-Fresh_example : Fresh fresh 0x1001 first with_first
allocate_block-Fresh_example =
    allocate_block-Fresh 1 fresh with_first 0 0x1001 3 2 first (omega arith) (omega arith) allocates

-- The page behind the first is loaded, with its write allowed, into the second of two free frames.
abbrev two_free : Memory
two_free = record empty {
  pmm = record unstarted {
    bitmap = 0b1100 ∷ [];
    first_free_index = 0;
    freed = 2;
    total = 2;
    initialised = true;
  };
}

abbrev with_memory : State
with_memory = record with_first { memory = two_free }

abbrev served : Memory
served =
    with_pte
      (record two_free {
        pmm = record two_free.pmm { bitmap = 0 ∷ []; first_free_index = 1; allocated = 2 };
      })
      0x40001000 0x2000 7 (λ j. no_page) (pte 0x3000 7)

faults :
    handle_pagefault with_memory (λ fd. true) 0x40001234 true ≡ loads 0 0x1000 0x40001000 served
unfolding handle_pagefault get_mapping map alloc_frames search test_bit clear_bit
faults = refl

two_free-IsValid : IsValid two_free.pmm
two_free-IsValid = record { small = omega arith; full_below = λ i h. absurd (omega (arith, h)) }

handle_pagefault-Served_example :
    Served with_memory (λ fd. true) 0x40001234 true 0 0x1000 0x40001000 served
handle_pagefault-Served_example =
    handle_pagefault-Served with_memory (λ fd. true) 0x40001234 true 0 0x1000 0x40001000 served
      two_free-IsValid (omega arith) faults

-- Without a frame the map panics.
fault_fails : handle_pagefault with_first (λ fd. true) 0x40001234 true ≡ fails
unfolding handle_pagefault get_mapping map alloc_frames
fault_fails = refl

-- A second mapping at the same place, which nothing has touched yet
abbrev second : Block
second = new_block 1 0x40000000 1 3 6

overlaps :
    allocate_block 1 with_first 0x40000000 0x1000 3 6
    ≡ allocated second (record with_first { mmap_blocks = first ∷ second ∷ []; next = 2 })
unfolding allocate_block allocate_fixed first_mapped
overlaps = refl

-- The pages 0 to 4, 6 and 7 of the place are mapped, and two are asked for: the search goes back to 3 and 2 for ever.
abbrev holes : ℕ → Pte
holes i = if (ltb i 5 || i == 6) || i == 7 then pte 0x5000 7 else no_page

abbrev fragmented : Memory
fragmented = record { pmm = unstarted; directory = λ i. table 0 7 holes; directory_frame = 0x1000 }

from_three : (fuel : ℕ) → find_room fuel fragmented [] 2 0x40000000 3 false ≡ none
unfolding find_room first_mapped skip_mapped get_mapping
from_three zero = refl
from_three (suc zero) = refl
from_three (suc (suc zero)) = refl
from_three (suc (suc (suc zero))) = refl
from_three (suc (suc (suc (suc (suc n))))) = from_three (suc (suc (suc n)))
from_three (suc (suc (suc (suc zero)))) = refl

search_endless : (fuel : ℕ) → find_room fuel fragmented [] 2 0x40000000 0 false ≡ none
unfolding find_room first_mapped skip_mapped get_mapping
search_endless zero = refl
search_endless (suc zero) = refl
search_endless (suc (suc zero)) = refl
search_endless (suc (suc (suc zero))) = refl
search_endless (suc (suc (suc (suc zero)))) = refl
search_endless (suc (suc (suc (suc (suc zero))))) = refl
search_endless (suc (suc (suc (suc (suc (suc n)))))) = from_three (suc (suc (suc (suc n))))
