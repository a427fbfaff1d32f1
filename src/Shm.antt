-- ===== src/Shm.antt =====
-- Shared memory, in kernel/src/mem/shm.c: the frames of a shared region and their allocation from
-- Pmm. A panic of the frame allocator, a read behind the list of frames and the negation of the
-- least int32_t are `none`.
pub mod Truncation
mod Tests
use scales_os.Prelude.{
  ℕ, zero, suc, ◌+◌, ◌-◌, ◌/◌, ◌%◌, ◌^◌, ◌≤◌, ◌&&◌, sub32, Bool, true, false, Option, none, some,
  List, [], ◌∷◌, ◌++◌, get_elem?, ltb, ◌==◌, if◌then◌else◌,
}
use scales_os.Pmm.{Pmm, alloc_frames, free}

-- The part of `shm_node_t` and its node that truncation uses
pub record Shm : Type 0 where
  pub frames : List ℕ
  pub size : ℕ

-- `list_delete_element`: the first occurrence (DynList).
unfoldable pub delete : ℕ → List ℕ → List ℕ
delete x [] = []
delete x (y ∷ ys) = if y == x then ys else y ∷ delete x ys

-- The loop that allocates `n` frames.
pub grow : (n : ℕ) → Pmm → List ℕ → Option (Pmm × List ℕ)
grow zero p frames = some (p, frames)
grow (suc n) p frames = elim (alloc_frames p 1) [
  | none ↦ none
  | some (frame, p') ↦ grow n p' (frames ++ (frame ∷ []))
]

-- The loop that gives the frames from index `n - 1` down back.
pub shrink : (n : ℕ) → Pmm → List ℕ → Option (Pmm × List ℕ)
unfolding delete
shrink zero p frames = some (p, frames)
shrink (suc i) p frames = elim (get_elem? frames i) [
  | none ↦ none
  | some frame ↦ shrink i (free p frame 1) (delete frame frames)
]

-- `pages + (bytes > 0)`
pub pages_of : (diff : ℕ) → ℕ
pages_of diff = diff / 0x1000 + (if ltb 0 (diff % 0x1000) then 1 else 0)

pub resized : ℕ → Option (Pmm × List ℕ) → Option (Pmm × Shm)
resized sz none = none
resized sz (some (p, frames)) = some (p, record { frames = frames; size = sz })

-- `__k_mem_shm_truncate`, whose `diff` is an int32_t: from 2 ^ 31 on the difference is negative.
pub truncate : Pmm → Shm → (sz : ℕ) → Option (Pmm × Shm)
unfolding grow shrink pages_of resized
truncate p shm sz =
    let diff = sub32 sz shm.size in
    if ltb 0 diff && ltb diff (2 ^ 31)
    then resized sz (grow (pages_of diff) p shm.frames)
    else if diff == 2 ^ 31
    then none
    else resized sz (shrink (pages_of (sub32 0 diff)) p shm.frames)

-- `__k_mem_shm_remove`, the frames it gives back
pub remove_frames : Pmm → List ℕ → Pmm
remove_frames p [] = p
remove_frames p (frame ∷ frames) = remove_frames (free p frame 1) frames
