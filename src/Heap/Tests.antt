-- ===== src/Heap/Tests.antt =====
-- Runs of alloc.c, and its theorems at a concrete heap.
use scales_os.Prelude.{ℕ, ◌+◌, ◌≡◌, refl, Bool, true, false, some, [], ◌∷◌, arith}
use scales_os.Heap.{
  Block, Heap, find_block, past, is_valid_block, heap_end, suitable, take_block, split_block,
  malloc, merge, lookup, free,
}
use scales_os.Heap.Tiling.{IsValid}
use scales_os.Heap.Malloc.{Outcome, malloc-Outcome}
use scales_os.Heap.Free.{Freed, free-Freed}

abbrev start : ℕ
start = 0xf700_1000

abbrev block : ℕ → ℕ → Bool → Block
block at size is_free = record { addr = start + at; size = size; is_free = is_free }

-- 91 bytes in use, 41 free, 100 in use, 200 free.
abbrev heap : Heap
heap = record {
  start = start;
  heap_size = 468;
  chain = block 0 91 false ∷ block 100 41 true ∷ block 150 100 false ∷ block 259 200 true ∷ [];
  allocated = 191;
  freed = 0;
}

heap-IsValid : IsValid heap
heap-IsValid = omega arith

-- 64 bytes come out of the second free block.
malloc_runs :
    malloc heap 64
    ≡ some (
      start + 268,
      record heap {
        chain =
            block 0 91 false
            ∷ block 100 41 true
            ∷ block 150 100 false
            ∷ block 259 64 false
            ∷ block 332 127 true
            ∷ [];
        allocated = 255;
      },
    )
unfolding malloc find_block past is_valid_block heap_end suitable take_block split_block
malloc_runs = refl

-- The free block at 100 swallows the freed one behind it; the free block at 332 stays apart, since
-- the walk has gone on.
free_runs :
    free heap (start + 159)
    ≡ some (record heap {
      chain = block 0 91 false ∷ block 100 150 true ∷ block 259 200 true ∷ [];
      freed = 100;
    })
unfolding free lookup past is_valid_block heap_end merge
free_runs = refl

malloc-Outcome_example : Outcome heap 64 (malloc heap 64)
malloc-Outcome_example = malloc-Outcome heap 64 heap-IsValid (omega arith) (omega arith)

free-Freed_example : Freed heap (start + 159) (free heap (start + 159))
free-Freed_example = free-Freed heap (start + 159) heap-IsValid
