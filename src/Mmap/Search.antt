-- ===== src/Mmap/Search.antt =====
-- The search for room for a mapping, in kernel/src/mem/mmap.c.
use scales_os.Prelude.{
  ℕ, zero, suc, ◌+◌, ◌≤◌, ◌<◌, ◌≡◌, ◌∙◌, refl, sym, subst, inl, inr, ◌⊎◌, Bool, true, false,
  Bool-cases, Option-cases, some-injective, none, some, List, arith, leb, leb→le, ◌==◌,
}
use scales_os.Paging.{Memory, virt2phys}
use scales_os.Mmap.{
  Block, user_stack_end, lowmem_start, page_at, is_mapped, first_mapped, skip_mapped, find_room,
}

unmapped : (m : Memory) (v : ℕ) → is_mapped m v ≡ false → virt2phys m v ≡ 0
unmapped m v h = ground (arith, h)

-- No page of a range is mapped.
pub first_mapped-none :
    (left i j : ℕ) (m : Memory) (start_addr offset : ℕ)
    → first_mapped m start_addr offset i left ≡ none
    → i ≤ j
    → j < i + left
    → virt2phys m (page_at start_addr offset j) ≡ 0
unfolding first_mapped
first_mapped-none zero i j m start_addr offset h le lt = absurd (omega (arith, le, lt))
first_mapped-none (suc left) i j m start_addr offset h le lt =
    elim (Bool-cases (is_mapped m (page_at start_addr offset i))) [
      | inl is ↦
          let here : first_mapped m start_addr offset i (suc left) ≡ some i = rw is refl in
          absurd (grind (arith, here, h))
      | inr off ↦
          let rest : first_mapped m start_addr offset i (suc left)
              ≡ first_mapped m start_addr offset (i + 1) left =
            rw off refl in
          elim (Bool-cases (i == j)) [
            | inl same ↦
                let e : i ≡ j = ground (arith, same) in
                subst (λ (k : ℕ). virt2phys m (page_at start_addr offset k) ≡ 0) e
                  (unmapped m (page_at start_addr offset i) off)
            | inr other ↦
                let past : i + 1 ≤ j = ground (arith, other, le) in
                first_mapped-none left (i + 1) j m start_addr offset (sym rest ∙ h) past
                  (omega (arith, lt))
          ]
    ]

-- The search stops in front of pages that are not mapped, or behind the end of the users' addresses.
pub find_room-Found :
    (fuel : ℕ) (m : Memory) (blocks : List Block) (pages start_addr offset : ℕ) (loop : Bool)
    (a o : ℕ)
    → find_room fuel m blocks pages start_addr offset loop ≡ some (a, o)
    → (first_mapped m a o 0 pages ≡ none) ⊎ (user_stack_end ≤ page_at a o 0)
unfolding find_room
find_room-Found zero m blocks pages start_addr offset loop a o e = absurd (grind (arith, e))
find_room-Found (suc fuel) m blocks pages start_addr offset loop a o e =
    elim (Option-cases (first_mapped m start_addr offset 0 pages)) [
      | inl free ↦
          let got : find_room (suc fuel) m blocks pages start_addr offset loop
              ≡ some (start_addr, offset) =
            rw (find_room, free) refl in
          let same = some-injective (sym got ∙ e) in
          inl (subst (λ (x : ℕ × ℕ). first_mapped m x.0 x.1 0 pages ≡ none) same free)
      | inr (i, taken) ↦ elim (Option-cases (skip_mapped (suc fuel) m blocks start_addr offset i)) [
        | inl nowhere ↦
            let got : find_room (suc fuel) m blocks pages start_addr offset loop ≡ none =
              rw (find_room, taken) (rw nowhere refl) in
            absurd (grind (arith, got, e))
        | inr (offset', next) ↦
            elim (Bool-cases (leb user_stack_end (page_at start_addr offset' 0))) [
              | inl past ↦
                  elim loop
                      as (λ b.
                        find_room (suc fuel) m blocks pages start_addr offset b ≡ some (a, o)
                        → (first_mapped m a o 0 pages ≡ none) ⊎ (user_stack_end ≤ page_at a o 0)) [
                          | true ↦ λ e'.
                              let got : find_room (suc fuel) m blocks pages start_addr offset true
                                  ≡ some (start_addr, offset') =
                                rw (find_room, taken) (rw next (rw past refl)) in
                              let same = some-injective (sym got ∙ e') in
                              inr (
                                subst (λ (x : ℕ × ℕ). user_stack_end ≤ page_at x.0 x.1 0) same
                                  (leb→le user_stack_end (page_at start_addr offset' 0) past))
                          | false ↦ λ e'.
                              let got : find_room (suc fuel) m blocks pages start_addr offset false
                                  ≡ find_room fuel m blocks pages lowmem_start 0 true =
                                rw (find_room, taken) (rw next (rw past refl)) in
                              find_room-Found fuel m blocks pages lowmem_start 0 true a o
                                (sym got ∙ e')
                        ]
                    e
              | inr before ↦
                  let got : find_room (suc fuel) m blocks pages start_addr offset loop
                      ≡ find_room fuel m blocks pages start_addr offset' loop =
                    rw (find_room, taken) (rw next (rw before refl)) in
                  find_room-Found fuel m blocks pages start_addr offset' loop a o (sym got ∙ e)
            ]
      ]
    ]
