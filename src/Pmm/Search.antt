-- ===== src/Pmm/Search.antt =====
-- The search of `k_mem_pmm_alloc_frames` for a run of free frames: what it finds is one, and it
-- fails only where there is none.
use scales_os.Prelude.{
  ℕ, zero, suc, ◌+◌, ◌*◌, ◌/◌, ◌%◌, ◌^◌, ◌≤◌, ◌<◌, ◌≡◌, ◌≢◌, refl, inl, inr, true, none, some, List,
  arith, leb, ◌==◌, Bool-cases, if◌then◌else◌,
}
use scales_os.Pmm.{search, frame_of}
use scales_os.Pmm.Bitmap.{free_at}

-- The `n` frames from number `q` on are free.
abbrev pub AllFree : List ℕ → ℕ → ℕ → Type 0
AllFree bm q n = (k : ℕ) → q ≤ k → k < q + n → free_at bm k ≡ true

AllFree-snoc :
    (bm : List ℕ) (b run pos : ℕ)
    → b + run ≡ pos
    → AllFree bm b run
    → free_at bm pos ≡ true
    → AllFree bm b (run + 1)
AllFree-snoc bm b run pos e all here k lo hi = elim (Bool-cases (k == pos)) [
  | inl at ↦ let p : k ≡ pos = ground arith in rw p here
  | inr off ↦ all k lo (ground arith)
]

AllFree-fits : (bm : List ℕ) (q n m : ℕ) → n ≡ m → AllFree bm q n → AllFree bm q m
AllFree-fits bm q n m e all k lo hi = all k lo (omega arith)

-- A run found by the search.
abbrev pub Found : List ℕ → (frames lo hi frame : ℕ) → Type 0
Found bm frames lo hi frame =
    (q : ℕ) × (frame ≡ 0x1000 * q) × (lo ≤ q) × (q + frames ≤ hi) × AllFree bm q frames

pub search-Found :
    (bm : List ℕ) (frames left pos run frame b lo hi : ℕ) {f : ℕ}
    → run < frames
    → b + run ≡ pos
    → (run ≢ 0 → frame ≡ 0x1000 * b)
    → AllFree bm b run
    → lo ≤ b
    → pos + left ≡ hi
    → 0x1000 * hi ≤ 2 ^ 32
    → search bm frames left pos run frame ≡ some f
    → Found bm frames lo hi f
unfolding search free_at
search-Found bm frames zero pos run frame b lo hi less e at all above end small found = cc
search-Found bm frames (suc left) pos run frame b lo hi less e at all above end small found =
    elim (Bool-cases (free_at bm pos)) [
      | inl here ↦
          let start : ℕ = if run == 0 then frame_of (pos / 32) (pos % 32) % 2 ^ 32 else frame in
          let begun : start ≡ 0x1000 * b = ground arith in
          let more = AllFree-snoc bm b run pos e all here in
          elim (Bool-cases (leb frames (run + 1))) [
            | inl enough ↦ (
              b,
              ground arith,
              above,
              ground arith,
              AllFree-fits bm b (run + 1) frames (ground arith) more,
            )
            | inr short ↦
                search-Found bm frames left (pos + 1) (run + 1) start b lo hi (ground arith)
                  (omega arith) (λ _. begun) more above (omega arith) small (ground arith)
          ]
      | inr gone ↦
          search-Found bm frames left (pos + 1) 0 frame (pos + 1) lo hi (omega arith) (omega arith)
            (λ h. absurd (h refl)) (λ k a c. absurd (omega arith)) (omega arith) (omega arith) small
            (ground arith)
    ]

-- Where the search fails there is no run of free frames between its ends.
pub search-none :
    (bm : List ℕ) (frames left pos run frame b q : ℕ)
    → run < frames
    → b + run ≡ pos
    → b ≤ q
    → q + frames ≤ pos + left
    → search bm frames left pos run frame ≡ none
    → ¬ AllFree bm q frames
unfolding search free_at
search-none bm frames zero pos run frame b q less e lo hi failed all = omega arith
search-none bm frames (suc left) pos run frame b q less e lo hi failed all =
    elim (Bool-cases (free_at bm pos)) [
      | inl here ↦
          let start : ℕ = if run == 0 then frame_of (pos / 32) (pos % 32) % 2 ^ 32 else frame in
          search-none bm frames left (pos + 1) (run + 1) start b q (ground arith) (omega arith) lo
            (omega arith) (ground arith) all
      | inr gone ↦ elim (Bool-cases (leb q pos)) [
        | inl inside ↦ ground (arith, all pos)
        | inr past ↦
            search-none bm frames left (pos + 1) 0 frame (pos + 1) q (omega arith) (omega arith)
              (ground arith) (omega arith) (ground arith) all
      ]
    ]
