-- ===== src/Pmm.antt =====
-- kernel/src/mem/pmm.c: the physical frame allocator, a bitmap of 32-bit words with a one for each
-- free frame. `bitmap_size` is the length of the list. A call that panics has no state after it.
-- `pmm_frame_t` is 64 bits wide and its sums do not wrap here; the `uint32_t` frames of
-- `k_mem_pmm_alloc_frames` do.
pub mod Bitmap
pub mod Search
pub mod Alloc
pub mod Free
pub mod Boot
mod Tests
use scales_os.Prelude.{
  ℕ, zero, suc, ◌+◌, ◌-◌, ◌*◌, ◌/◌, ◌%◌, ◌^◌, Bool, true, false, not, ◌&&◌, ◌||◌, Option, none,
  some, List, [], ◌∷◌, ◌++◌, length, get_or, set, replicate, add32, mul32, test_bit, clear_bit,
  set_bit, ltb, leb, ◌==◌, if◌then◌else◌,
}

pub record Pmm : Type 0 where
  pub bitmap : List ℕ
  pub first_free_index : ℕ
  pub allocated : ℕ
  pub freed : ℕ
  pub total : ℕ
  pub initialised : Bool

-- The static initialisers.
abbrev pub unstarted : Pmm
unstarted = record {
  bitmap = [];
  first_free_index = 0xffff_ffff;
  allocated = 0;
  freed = 0;
  total = 0;
  initialised = false;
}

abbrev pub bitmap_index : ℕ → ℕ
bitmap_index frame = frame / 0x1000 / 32

abbrev pub bit_number : ℕ → ℕ
bit_number frame = frame / 0x1000 % 32

-- `FRAME(idx, bit)`
abbrev pub frame_of : ℕ → ℕ → ℕ
frame_of idx bit = 0x1000 * (idx * 32 + bit)

-- `bitmap[BITMAP_INDEX(frame)] &= ~BITMAP_BIT_MASK(frame)`
unfoldable pub clear_frame : List ℕ → ℕ → List ℕ
clear_frame bitmap frame =
    set bitmap (bitmap_index frame)
      (clear_bit (get_or bitmap (bitmap_index frame) 0) (bit_number frame))

-- `bitmap[index] |= BITMAP_BIT_MASK(frame)`
pub set_frame : List ℕ → ℕ → List ℕ
set_frame bitmap frame =
    set bitmap (bitmap_index frame)
      (set_bit (get_or bitmap (bitmap_index frame) 0) (bit_number frame))

-- `k_mem_pmm_set_allocated`
pub set_allocated : Pmm → ℕ → Pmm
unfolding clear_frame
set_allocated p frame = record p { bitmap = clear_frame p.bitmap frame }

-- `k_mem_pmm_is_allocated`
unfoldable pub is_allocated : Pmm → ℕ → Bool
is_allocated p frame =
    if leb (length p.bitmap) (bitmap_index frame)
    then false
    else not (test_bit (get_or p.bitmap (bitmap_index frame) 0) (bit_number frame))

-- The two search loops, which visit bit `pos % 32` of word `pos / 32` in turn, `left` bits in all:
-- `run` is `found_frames`, and `frame` the `uint32_t` where the run began.
unfoldable pub search : List ℕ → ℕ → (left pos run frame : ℕ) → Option ℕ
search bitmap frames zero pos run frame = none
search bitmap frames (suc left) pos run frame =
    let start = if run == 0 then frame_of (pos / 32) (pos % 32) % 2 ^ 32 else frame in
    let longer = search bitmap frames left (pos + 1) (run + 1) start in
    let restart = search bitmap frames left (pos + 1) 0 frame in
    if test_bit (get_or bitmap (pos / 32) 0) (pos % 32)
    then if leb frames (run + 1) then some start else longer
    else if leb frames 0
    then some frame
    else restart

-- The loop that marks the found frames from number `i` on.
unfoldable pub clear_frames : List ℕ → (frame i left : ℕ) → List ℕ
unfolding clear_frame
clear_frames bitmap frame i zero = bitmap
clear_frames bitmap frame i (suc left) =
    clear_frames (clear_frame bitmap (add32 frame (mul32 i 0x1000))) frame (i + 1) left

-- `while(first_free_index < bitmap_size && !bitmap[first_free_index]) first_free_index++`
unfoldable pub skip_full : List ℕ → (left index : ℕ) → ℕ
skip_full bitmap zero index = index
skip_full bitmap (suc left) index =
    let next = skip_full bitmap left (index + 1) in
    if get_or bitmap index 0 == 0 then next else index

-- The three statements that move `first_free_index` after an allocation.
unfoldable pub next_free_index : List ℕ → ℕ → ℕ
unfolding skip_full
next_free_index bitmap index =
    let skipped = skip_full bitmap (length bitmap - index) index in
    let index' = if leb (length bitmap) skipped then 0 else skipped in
    skip_full bitmap (length bitmap - index') index'

-- `none` where the kernel panics.
unfoldable pub alloc_frames : Pmm → ℕ → Option (ℕ × Pmm)
unfolding search clear_frames next_free_index
alloc_frames p frames =
    if frames == 0 || leb (length p.bitmap) p.first_free_index
    then none
    else (elim (search p.bitmap frames (32 * (length p.bitmap - p.first_free_index))
        (32 * p.first_free_index) 0 0) [
          | none ↦ none
          | some frame ↦
              let marked = clear_frames p.bitmap frame 0 frames in
              some (
                frame,
                record p {
                  bitmap = marked;
                  first_free_index = next_free_index marked p.first_free_index;
                  allocated = add32 p.allocated frames;
                },
              )
        ])

-- `while(index >= bitmap_size) bitmap[bitmap_size++] = 0`
pub extend : List ℕ → ℕ → List ℕ
extend bitmap index = bitmap ++ replicate (index + 1 - length bitmap) 0

-- The body of `k_mem_pmm_free` behind its test of the frame.
pub free_one : Pmm → ℕ → Pmm
unfolding set_frame
free_one p f = record p {
  bitmap = set_frame p.bitmap f;
  freed = add32 p.freed 1;
  first_free_index =
      if ltb (bitmap_index f) p.first_free_index then bitmap_index f else p.first_free_index;
}

-- Its loop over `left` more frames, which stops at one that is not allocated.
pub free_loop : Pmm → (f left : ℕ) → Pmm
unfolding extend is_allocated free_one
free_loop p f zero = p
free_loop p f (suc left) =
    let grown = record p { bitmap = extend p.bitmap (bitmap_index f) } in
    let rest = free_loop (free_one grown f) (f + 0x1000) left in
    if is_allocated grown f then rest else grown

-- `k_mem_pmm_free`
pub free : Pmm → (frame size : ℕ) → Pmm
unfolding free_loop
free p frame size = if frame % 0x1000 == 0 then free_loop p frame size else p

-- `k_mem_pmm_mark_frame`
pub mark_frame : Pmm → ℕ → Pmm
unfolding free
mark_frame p frame = free p frame 1

-- An entry of the boot loader's memory map; `usable` is MULTIBOOT_MEMORY_AVAILABLE.
pub record Region : Type 0 where
  pub addr : ℕ
  pub len : ℕ
  pub usable : Bool

-- `for(i = 0; i < len; i += 0x1000)` over one region, from frame number `i` on.
pub mark_region : Pmm → (bitmap_phys addr i left : ℕ) → Pmm
unfolding mark_frame
mark_region p bitmap_phys addr i zero = p
mark_region p bitmap_phys addr i (suc left) =
    let frame = addr + i * 0x1000 in
    mark_region (if leb bitmap_phys frame then mark_frame p frame else p) bitmap_phys addr (i + 1)
      left

-- The loop over the memory map; `i` is a uint32_t, so that the inner loop never ends for a usable region of
-- more than 0xfffff000 bytes, which is `none`.
pub mark_map : Pmm → ℕ → List Region → Option Pmm
unfolding mark_region
mark_map p bitmap_phys [] = some p
mark_map p bitmap_phys (r ∷ rs) =
    let rest =
      mark_map
        (if r.usable then mark_region p bitmap_phys r.addr 0 ((r.len + 0xfff) / 0x1000) else p)
        bitmap_phys rs in
    if r.usable && ltb 0xfffff000 r.len then none else rest

-- The loop that takes the frames of the bitmap itself, one word of it at a time.
pub occupy : List ℕ → (bitmap_phys i left : ℕ) → List ℕ
unfolding clear_frame
occupy bitmap bitmap_phys i zero = bitmap
occupy bitmap bitmap_phys i (suc left) =
    occupy (clear_frame bitmap (bitmap_phys + i * 4)) bitmap_phys (i + 1) left

-- `k_mem_pmm_init`; `bitmap_phys` is the physical address of the bitmap.
pub started : (bitmap_phys : ℕ) → Pmm → Pmm
unfolding occupy
started bitmap_phys p = record {
  bitmap = occupy p.bitmap bitmap_phys 0 (length p.bitmap + 1);
  first_free_index = p.first_free_index;
  allocated = 0;
  freed = 0;
  total = p.freed;
  initialised = true;
}

pub init : ℕ → List Region → Option Pmm
unfolding mark_map
init bitmap_phys regions = elim (mark_map unstarted bitmap_phys regions) [
  | none ↦ none
  | some p ↦ some (started bitmap_phys p)
]
