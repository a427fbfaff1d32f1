-- ===== src/Mmap/Allocation.antt =====
-- The room that a mapping gets, in kernel/src/mem/mmap.c.
use scales_os.Prelude.{
  ℕ, ◌+◌, ◌*◌, ◌%◌, ◌^◌, ◌≤◌, ◌<◌, ◌≡◌, ◌≢◌, ◌∙◌, refl, sym, ap, subst, inl, inr, Bool, true, false,
  not, ◌||◌, Bool-cases, Option-cases, none, [], ◌∷◌, ◌++◌, arith, leb, ◌==◌, add32, mul32,
}
use scales_os.Paging.{virt2phys, Outcome, done, panic, stray}
use scales_os.Mmap.{
  Block, State, user_stack_end, map_fixed, map_pages, pages_of, page_at, first_mapped, find_room,
  Allocated, no_block, allocated, endless, crashed, add_block, new_block, finish, cannot_fix,
  allocate_fixed, allocate_found, allocate_anywhere, allocate_block,
}
use scales_os.Mmap.Search.{first_mapped-none, find_room-Found}

block_of : Block → Allocated → Block
block_of b (allocated b' s) = b'
block_of b no_block = b
block_of b endless = b
block_of b crashed = b

state_of : State → Allocated → State
state_of s (allocated b s') = s'
state_of s no_block = s
state_of s endless = s
state_of s crashed = s

pub add_block-allocated :
    (s s' : State) (made b : Block) (o : Outcome)
    → add_block s made o ≡ allocated b s'
    → (made ≡ b) × (s'.mmap_blocks ≡ s.mmap_blocks ++ (b ∷ []))
unfolding block_of state_of
add_block-allocated s s' made b panic e = absurd (grind (arith, e))
add_block-allocated s s' made b stray e = absurd (grind (arith, e))
add_block-allocated s s' made b (done memory) e =
    let same : made ≡ b = ap (block_of made) e in
    (
      same,
      ap (λ (x : State). x.mmap_blocks) (sym (ap (state_of s) e))
          ∙ ap (λ (x : Block). s.mmap_blocks ++ (x ∷ [])) same,
    )

-- A block with room for `size` bytes, on pages that were not mapped, below the stack, behind the other blocks
pub record Fresh (s : State) (size : ℕ) (b : Block) (s' : State) : Type 0 where
  pub enough : size ≤ b.size
  pub ends : b.end ≡ add32 b.start b.size
  pub below : b.end < user_stack_end
  pub unmapped_before :
      (j : ℕ) → j * 0x1000 < b.size → virt2phys s.memory (add32 b.start (j * 0x1000)) ≡ 0
  pub added : s'.mmap_blocks ≡ s.mmap_blocks ++ (b ∷ [])

pages-size :
    (size : ℕ)
    → size + 0x1000 ≤ 2 ^ 32
    → (size ≤ pages_of size * 0x1000) × (pages_of size * 0x1000 < 2 ^ 32)
pages-size size h = elim (Bool-cases (size % 0x1000 == 0)) [
  | inl whole ↦
      let e : size % 0x1000 ≡ 0 = ground (arith, whole) in
      rw whole (omega (arith, e), omega (arith, h))
  | inr part ↦
      let e : size % 0x1000 ≢ 0 = ground (arith, part) in rw part (omega arith, omega (arith, h, e))
]

finish-Fresh :
    (s s' : State) (size a prot flags : ℕ) (b : Block)
    → size + 0x1000 ≤ 2 ^ 32
    → add32 a (mul32 (pages_of size) 0x1000) < user_stack_end
    → ((j : ℕ) → j < pages_of size → virt2phys s.memory (add32 a (mul32 j 0x1000)) ≡ 0)
    → finish s a (pages_of size) prot flags ≡ allocated b s'
    → Fresh s size b s'
finish-Fresh s s' size a prot flags b bound low free e =
    let pages = pages_of size in
    let made = new_block s.next a pages prot flags in
    let (same, added) = add_block-allocated s s' made b (map_pages s.memory a pages prot flags) e in
    let (covers, fits) = pages-size size bound in
    let whole : made.size ≡ pages * 0x1000 = omega (arith, fits) in
    subst (λ (x : Block). s'.mmap_blocks ≡ s.mmap_blocks ++ (x ∷ []) → Fresh s size x s') same
      (λ added'. record {
        enough = omega (arith, covers, whole);
        ends = refl;
        below = low;
        unmapped_before = λ j lt.
            let within : j < pages = omega (arith, lt, whole) in
            let exact : mul32 j 0x1000 ≡ j * 0x1000 = omega (arith, within, fits) in
            ap (λ (k : ℕ). virt2phys s.memory (add32 a k)) (sym exact) ∙ free j within;
        added = added';
      })
      added

or_right : (x y : Bool) → (x || y) ≡ false → y ≡ false
or_right true y h = absurd (grind (arith, h))
or_right false y h = h

leb-false : (x y : ℕ) → leb x y ≡ false → y < x
leb-false x y h = ground (arith, h)

below_stack :
    (s : State) (start pages : ℕ)
    → cannot_fix s start pages ≡ false
    → add32 start (mul32 pages 0x1000) < user_stack_end
below_stack s start pages h = leb-false user_stack_end (add32 start (mul32 pages 0x1000)) (
    or_right (start == 0 || not (start % 0x1000 == 0))
      (leb user_stack_end (add32 start (mul32 pages 0x1000))) h)

allocate_fixed-Fresh :
    (s s' : State) (start size prot flags : ℕ) (b : Block)
    → size + 0x1000 ≤ 2 ^ 32
    → allocate_fixed s start (pages_of size) prot flags ≡ allocated b s'
    → Fresh s size b s'
unfolding allocate_fixed
allocate_fixed-Fresh s s' start size prot flags b bound e =
    let pages = pages_of size in
    elim (Bool-cases (cannot_fix s start pages)) [
      | inl bad ↦
          let got : allocate_fixed s start pages prot flags ≡ no_block = rw bad refl in
          absurd (grind (arith, got, e))
      | inr good ↦ elim (Option-cases (first_mapped s.memory start 0 0 pages)) [
        | inr (i, taken) ↦
            let got : allocate_fixed s start pages prot flags ≡ no_block =
              rw good (rw taken refl) in
            absurd (grind (arith, got, e))
        | inl free ↦
            let got : allocate_fixed s start pages prot flags ≡ finish s start pages prot flags =
              rw good (rw free refl) in
            finish-Fresh s s' size start prot flags b bound (below_stack s start pages good)
              (λ j lt.
                ap (λ (k : ℕ). virt2phys s.memory (add32 start (mul32 k 0x1000))) (omega arith)
                ∙ first_mapped-none pages 0 j s.memory start 0 free (omega arith)
                    (omega (arith, lt)))
              (sym got ∙ e)
      ]
    ]

-- The pages of a range from its first page on
page_from :
    (start_addr offset j : ℕ)
    → add32 (page_at start_addr offset 0) (mul32 j 0x1000) ≡ page_at start_addr offset j
page_from start_addr offset j = omega arith

-- `start` plays no part.
moved :
    (s s' : State) (size stop : ℕ) (b : Block)
    → Fresh (record s { start = stop }) size b s'
    → Fresh s size b s'
moved s s' size stop b f = record {
  enough = f.enough;
  ends = f.ends;
  below = f.below;
  unmapped_before = f.unmapped_before;
  added = f.added;
}

allocate_found-Fresh :
    (s s' : State) (start_addr offset size prot flags : ℕ) (b : Block)
    → size + 0x1000 ≤ 2 ^ 32
    → first_mapped s.memory start_addr offset 0 (pages_of size) ≡ none
    → allocate_found s (page_at start_addr offset 0) (pages_of size) prot flags ≡ allocated b s'
    → Fresh s size b s'
unfolding allocate_found
allocate_found-Fresh s s' start_addr offset size prot flags b bound free e =
    let pages = pages_of size in
    let a = page_at start_addr offset 0 in
    let stop = add32 a (mul32 pages 0x1000) in
    elim (Bool-cases (leb user_stack_end stop)) [
      | inl high ↦
          let got : allocate_found s a pages prot flags ≡ no_block = rw high refl in
          absurd (grind (arith, got, e))
      | inr low ↦
          let s0 = record s { start = stop } in
          let got : allocate_found s a pages prot flags ≡ finish s0 a pages prot flags =
            rw low refl in
          moved s s' size stop b (
            finish-Fresh s0 s' size a prot flags b bound (leb-false user_stack_end stop low)
              (λ j lt.
                ap (λ (k : ℕ). virt2phys s.memory k) (page_from start_addr offset j)
                ∙ first_mapped-none pages 0 j s.memory start_addr offset free (omega arith)
                    (omega (arith, lt)))
              (sym got ∙ e))
    ]

allocate_found-start :
    (s s' : State) (a pages prot flags : ℕ) (b : Block)
    → allocate_found s a pages prot flags ≡ allocated b s'
    → b.start ≡ a
unfolding allocate_found
allocate_found-start s s' a pages prot flags b e =
    let stop = add32 a (mul32 pages 0x1000) in
    elim (Bool-cases (leb user_stack_end stop)) [
      | inl high ↦
          let got : allocate_found s a pages prot flags ≡ no_block = rw high refl in
          absurd (grind (arith, got, e))
      | inr low ↦
          let s0 = record s { start = stop } in
          let got : allocate_found s a pages prot flags ≡ finish s0 a pages prot flags =
            rw low refl in
          let (same, added) =
            add_block-allocated s0 s' (new_block s.next a pages prot flags) b
              (map_pages s.memory a pages prot flags) (sym got ∙ e) in
          ap (λ (x : Block). x.start) (sym same)
    ]

-- A block that is allocated has room for the size that was asked for; it lies on pages that were not
-- mapped, ends below the stack and stands behind the other blocks. The size is at most 2^32 - 4096, and
-- the block starts below the stack.
pub allocate_block-Fresh :
    (fuel : ℕ) (s s' : State) (start size prot flags : ℕ) (b : Block)
    → size + 0x1000 ≤ 2 ^ 32
    → b.start < user_stack_end
    → allocate_block fuel s start size prot flags ≡ allocated b s'
    → Fresh s size b s'
unfolding allocate_block allocate_anywhere
allocate_block-Fresh fuel s s' start size prot flags b bound low e =
    elim (Bool-cases (map_fixed flags)) [
      | inl fixed ↦
          allocate_fixed-Fresh s s' start size prot flags b bound (sym (rw fixed refl) ∙ e)
      | inr found ↦
          let pages = pages_of size in
          elim (Option-cases (find_room fuel s.memory s.mmap_blocks pages s.start 0 false)) [
            | inl nowhere ↦
                let got : allocate_block fuel s start size prot flags ≡ endless =
                  rw found (rw (allocate_anywhere, nowhere) refl) in
                absurd (grind (arith, got, e))
            | inr ((a, o), at) ↦
                let got : allocate_block fuel s start size prot flags
                    ≡ allocate_found s (page_at a o 0) pages prot flags =
                  rw found (rw (allocate_anywhere, at) refl) in
                elim (find_room-Found fuel s.memory s.mmap_blocks pages s.start 0 false a o at) [
                  | inl free ↦
                      allocate_found-Fresh s s' a o size prot flags b bound free (sym got ∙ e)
                  | inr past ↦
                      let at_a =
                        allocate_found-start s s' (page_at a o 0) pages prot flags b
                          (sym got ∙ e) in
                      absurd (omega (arith, past, at_a, low))
                ]
          ]
    ]
