-- ===== src/Pmm/Alloc.antt =====
-- `k_mem_pmm_alloc_frames`: which frames it hands out, and when it panics.
use scales_os.Prelude.{
  ℕ, zero, suc, ◌+◌, ◌-◌, ◌*◌, ◌/◌, ◌%◌, ◌^◌, ◌≤◌, ◌<◌, ◌≡◌, ◌≢◌, refl, sym, subst, ◌∙◌, ◌⊎◌, inl,
  inr, Bool, true, false, ◌&&◌, ◌||◌, Option, none, some, List, arith, length, get_or, add32, mul32,
  clear_bit, clear_bit-zero, test_bit-zero, ltb, leb, ◌==◌, Bool-cases, Option-cases,
  some-injective, if◌then◌else◌,
}
use native.Mathlib.Decide.{dec_lt}
use scales_os.Pmm.{
  Pmm, bitmap_index, bit_number, clear_frame, search, clear_frames, skip_full, next_free_index,
  alloc_frames,
}
use scales_os.Pmm.Bitmap.{
  free_at, get_or-set, length-clear_frame, set-past, free_at-clear_frame, free_at-past,
}
use scales_os.Pmm.Search.{AllFree, search-Found, search-none}

-- No more words than 4 GiB of frames need, and none with a free frame below `first_free_index`.
pub record IsValid (p : Pmm) : Type 0 where
  pub small : length p.bitmap ≤ 2 ^ 15
  pub full_below : (i : ℕ) → i < p.first_free_index → get_or p.bitmap i 0 ≡ 0

-- Frame number `k` is one of the `n` from `q` on.
abbrev pub within : ℕ → ℕ → ℕ → Bool
within q n k = leb q k && ltb k (q + n)

pub free_at-clear_frames :
    (left : ℕ) (bm : List ℕ) (frame q i k : ℕ)
    → frame ≡ 0x1000 * q
    → 0x1000 * (q + i + left) ≤ 2 ^ 32
    → free_at (clear_frames bm frame i left) k
      ≡ (if within (q + i) left k then false else free_at bm k)
unfolding clear_frames
free_at-clear_frames zero bm frame q i k e h = ground arith
free_at-clear_frames (suc left) bm frame q i k e h =
    let target : add32 frame (mul32 i 0x1000) / 0x1000 ≡ q + i = omega arith in
    let bm' = clear_frame bm (add32 frame (mul32 i 0x1000)) in
    ground (
      arith,
      target,
      free_at-clear_frames left bm' frame q (i + 1) k e (omega arith),
      free_at-clear_frame bm (add32 frame (mul32 i 0x1000)) k,
    )

pub length-clear_frames :
    (left : ℕ) (bm : List ℕ) (frame i : ℕ) → length (clear_frames bm frame i left) ≡ length bm
unfolding clear_frames
length-clear_frames zero bm frame i = refl
length-clear_frames (suc left) bm frame i =
    length-clear_frames left _ frame (i + 1) ∙ length-clear_frame bm _

pub clear_frame_zero :
    (bm : List ℕ) (f i : ℕ) → get_or bm i 0 ≡ 0 → get_or (clear_frame bm f) i 0 ≡ 0
unfolding clear_frame
clear_frame_zero bm f i z = elim (dec_lt (bitmap_index f) (length bm)) [
  | yes h ↦ ground (
    arith,
    get_or-set bm (bitmap_index f) i (clear_bit (get_or bm (bitmap_index f) 0) (bit_number f)) h,
    clear_bit-zero (bit_number f),
  )
  | no h ↦ rw (set-past bm (bitmap_index f) _ (omega arith)) z
]

clear_frames_zero :
    (left : ℕ) (bm : List ℕ) (frame i j : ℕ)
    → get_or bm j 0 ≡ 0
    → get_or (clear_frames bm frame i left) j 0 ≡ 0
unfolding clear_frames
clear_frames_zero zero bm frame i j z = z
clear_frames_zero (suc left) bm frame i j z =
    clear_frames_zero left _ frame (i + 1) j (clear_frame_zero bm _ j z)

-- All words before `index` are zero.
abbrev pub FullBelow : List ℕ → ℕ → Type 0
FullBelow bm index = (i : ℕ) → i < index → get_or bm i 0 ≡ 0

skip_full-FullBelow :
    (left : ℕ) (bm : List ℕ) (index : ℕ)
    → FullBelow bm index
    → FullBelow bm (skip_full bm left index)
unfolding skip_full
skip_full-FullBelow zero bm index full = full
skip_full-FullBelow (suc left) bm index full = elim (Bool-cases (get_or bm index 0 == 0)) [
  | inl z ↦ rw z (
      skip_full-FullBelow left bm (index + 1) λ i h. elim (Bool-cases (i == index)) [
        | inl e ↦ let p : i ≡ index = ground arith in rw p (ground arith)
        | inr e ↦ full i (ground arith)
      ])
  | inr z ↦ rw z full
]

next_free_index-FullBelow :
    (bm : List ℕ) (index : ℕ) → FullBelow bm index → FullBelow bm (next_free_index bm index)
unfolding next_free_index
next_free_index-FullBelow bm index full =
    let first = skip_full-FullBelow (length bm - index) bm index full in
    elim (Bool-cases (leb (length bm) (skip_full bm (length bm - index) index))) [
      | inl over ↦ rw over (skip_full-FullBelow _ bm 0 λ i h. absurd (omega arith))
      | inr fits ↦ rw fits (skip_full-FullBelow _ bm _ first)
    ]

-- What an allocation does to the set of free frames.
pub record Taken (p : Pmm) (n frame : ℕ) (p' : Pmm) : Type 0 where
  pub number : ℕ
  pub address : frame ≡ 0x1000 * number
  pub were_free : AllFree p.bitmap number n
  pub now_taken :
      (k : ℕ) → free_at p'.bitmap k ≡ (if within number n k then false else free_at p.bitmap k)
  pub inside : number + n ≤ 32 * length p.bitmap
  pub same_size : length p'.bitmap ≡ length p.bitmap
  pub counted : p'.allocated ≡ add32 p.allocated n
  pub valid : IsValid p'

marked-Taken :
    (p : Pmm) (n frame : ℕ)
    → IsValid p
    → n ≢ 0
    → p.first_free_index < length p.bitmap
    → search p.bitmap n (32 * (length p.bitmap - p.first_free_index)) (32 * p.first_free_index) 0 0
      ≡ some frame
    → Taken p n frame (record p {
      bitmap = clear_frames p.bitmap frame 0 n;
      first_free_index = next_free_index (clear_frames p.bitmap frame 0 n) p.first_free_index;
      allocated = add32 p.allocated n;
    })
marked-Taken p n frame v ne h found =
    let small = v.small in
    let full = v.full_below in
    let first = p.first_free_index in
    let (q, at, above, below, all) =
      search-Found p.bitmap n (32 * (length p.bitmap - first)) (32 * first) 0 0 (32 * first) 0
        (32 * length p.bitmap) (omega arith) (omega arith) (λ k. absurd (k refl))
        (λ k lo hi. absurd (omega arith)) (omega arith) (omega arith) (omega arith) found in
    record {
      number = q;
      address = at;
      were_free = all;
      now_taken = λ k. ground (arith, free_at-clear_frames n p.bitmap frame q 0 k at (omega arith));
      inside = below;
      same_size = length-clear_frames n p.bitmap frame 0;
      counted = refl;
      valid = record {
        small = omega (arith, length-clear_frames n p.bitmap frame 0);
        full_below =
            next_free_index-FullBelow (clear_frames p.bitmap frame 0 n) first
              (λ i l. clear_frames_zero n p.bitmap frame 0 i (full i l));
      };
    }

-- Both tests at the head of the call.
abbrev refused : Pmm → ℕ → Bool
refused p n = n == 0 || leb (length p.bitmap) p.first_free_index

abbrev search_from : Pmm → ℕ → Option ℕ
search_from p n =
    search p.bitmap n (32 * (length p.bitmap - p.first_free_index)) (32 * p.first_free_index) 0 0

alloc_frames-some :
    (p : Pmm) (n frame : ℕ)
    → refused p n ≡ false
    → search_from p n ≡ some frame
    → alloc_frames p n
      ≡ some (
        frame,
        record p {
          bitmap = clear_frames p.bitmap frame 0 n;
          first_free_index = next_free_index (clear_frames p.bitmap frame 0 n) p.first_free_index;
          allocated = add32 p.allocated n;
        },
      )
unfolding alloc_frames
alloc_frames-some p n frame r s = rw (r, s)

alloc_frames-refused : (p : Pmm) (n : ℕ) → refused p n ≡ true → alloc_frames p n ≡ none
unfolding alloc_frames
alloc_frames-refused p n r = rw r

alloc_frames-none :
    (p : Pmm) (n : ℕ) → refused p n ≡ false → search_from p n ≡ none → alloc_frames p n ≡ none
unfolding alloc_frames
alloc_frames-none p n r s = rw (r, s)

-- A successful call hands out frames that were all free, one behind the other: they and no others
-- are taken, the counter grows by their number, and the allocator stays valid.
pub alloc_frames-Taken :
    (p : Pmm) (n frame : ℕ) (p' : Pmm)
    → IsValid p
    → alloc_frames p n ≡ some (frame, p')
    → Taken p n frame p'
alloc_frames-Taken p n frame p' v e = elim (Bool-cases (refused p n)) [
  | inl r ↦ absurd (cc (alloc_frames-refused p n r))
  | inr r ↦ elim (Option-cases (search_from p n)) [
    | inl s ↦ absurd (cc (alloc_frames-none p n r s))
    | inr (f, s) ↦
        subst (λ (x : ℕ × Pmm). Taken p n x.0 x.1)
          (some-injective (sym (alloc_frames-some p n f r s) ∙ e))
          (marked-Taken p n f v (ground arith) (ground arith) s)
  ]
]

-- In a valid allocator a free frame lies in a word that the search visits.
free_at-bounds :
    (p : Pmm) (k : ℕ)
    → IsValid p
    → free_at p.bitmap k ≡ true
    → (p.first_free_index ≤ k / 32) × (k / 32 < length p.bitmap)
unfolding free_at
free_at-bounds p k v free =
    ground (arith, v.full_below (k / 32), test_bit-zero (k % 32), free_at-past p.bitmap k)

-- The call panics for no frames at all, and otherwise only when no run of that many free frames is
-- left anywhere in memory.
pub alloc_frames-panics :
    (p : Pmm) (n : ℕ)
    → IsValid p
    → alloc_frames p n ≡ none
    → (n ≡ 0) ⊎ ((q : ℕ) → ¬ AllFree p.bitmap q n)
alloc_frames-panics p n v e = elim (Bool-cases (n == 0)) [
  | inl z ↦ inl (ground arith)
  | inr pos ↦ inr λ q all.
      let some_left : 0 < n = ground arith in
      let lo = free_at-bounds p q v (all q (omega arith) (omega arith)) in
      let hi = free_at-bounds p (q + n - 1) v (all (q + n - 1) (omega arith) (omega arith)) in
      let r : refused p n ≡ false = ground arith in
      elim (Option-cases (search_from p n)) [
        | inl s ↦
            search-none p.bitmap n (32 * (length p.bitmap - p.first_free_index))
              (32 * p.first_free_index) 0 0 (32 * p.first_free_index) q (omega arith) (omega arith)
              (omega arith) (omega arith) s all
        | inr (f, s) ↦ cc (alloc_frames-some p n f r s)
      ]
]
