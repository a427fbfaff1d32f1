-- ===== src/Heap/Free.antt =====
-- `free` and `__mem_merge`: giving back one block keeps the others and the tiling.
use scales_os.Prelude.{
  ℕ, ◌+◌, ◌≤◌, ◌≡◌, ◌≢◌, refl, sym, ap, subst, ◌∙◌, ◌⊎◌, inl, inr, true, false, not, ◌&&◌, ◌||◌,
  Option, none, some, List, [], ◌∷◌, ◌++◌, arith, All, add32, ◌==◌, Bool-cases, if◌then◌else◌,
}
use scales_os.Heap.{
  Block, Heap, Place, found, ended, header, memory, is_valid_block, in_heap, past, merge, lookup,
  free,
}
use scales_os.Heap.Tiling.{
  Tiles, IsValid, used, Tiles-le, Tiles-append, Tiles-join, used-append, is_valid_block-Tiles,
}

-- Merging keeps the tiling.
merge-Tiles :
    (h : Heap) (bs : List Block) (a : ℕ)
    → IsValid h
    → h.start ≤ a
    → Tiles a bs (h.start + h.heap_size)
    → Tiles a (merge h bs) (h.start + h.heap_size)
unfolding merge
merge-Tiles h [] a v lo t = t
merge-Tiles h (b ∷ []) a v lo t = t
merge-Tiles h (b ∷ c ∷ rest) a v lo t =
    let e = h.start + h.heap_size in
    let hi = Tiles-le rest (a + header + b.size + header + c.size) e t.2.2 in
    let joined : add32 b.size (add32 header c.size) ≡ b.size + (header + c.size) =
      omega (arith, hi, v.limit) in
    let next : a + header + (b.size + (header + c.size)) ≡ a + header + b.size + header + c.size =
      omega arith in
    let kept = merge-Tiles h (c ∷ rest) (a + header + b.size) v (omega arith) t.2 in
    let after = merge-Tiles h rest (a + header + b.size + header + c.size) v (omega arith) t.2.2 in
    rw (is_valid_block-Tiles h b (c ∷ rest) a v lo t)
      (elim (Bool-cases
        (b.is_free && is_valid_block h c && c.is_free && c.addr == add32 (memory b) b.size)) [
          | inl free_pair ↦
              rw (free_pair, joined)
                (t.0, omega arith, subst (λ k. Tiles k (merge h rest) e) (sym next) after)
          | inr apart ↦ rw apart (t.0, t.1, kept)
        ])

-- Merging leaves the blocks in use as they are.
merge-used : (h : Heap) (bs : List Block) → used (merge h bs) ≡ used bs
unfolding merge used
merge-used h [] = refl
merge-used h (b ∷ []) = refl
merge-used h (b ∷ c ∷ rest) = ground (arith, merge-used h (c ∷ rest), merge-used h rest)

-- Where a pointer is found among blocks.
abbrev Leads : ℕ → List Block → Place → Type 0
Leads ptr bs (found xs b ys) = (bs ≡ xs ++ (b ∷ ys)) × (memory b ≡ ptr)
Leads ptr bs (ended xs rest) = All (λ b. memory b ≢ ptr) bs

lookup-Leads : (ptr : ℕ) (bs : List Block) → Leads ptr bs (lookup ptr bs)
unfolding lookup past
lookup-Leads ptr [] = tt
lookup-Leads ptr (b ∷ bs) = elim (Bool-cases (memory b == ptr)) [
  | inl here ↦ rw here (refl, ground arith)
  | inr on ↦ rw on (step (lookup ptr bs) (ground arith) (lookup-Leads ptr bs))
]
  where
    step : (p : Place) → memory b ≢ ptr → Leads ptr bs p → Leads ptr (b ∷ bs) (past b p)
    step (found xs c ys) ne l = (ap (◌∷◌ b) l.0, l.1)
    step (ended xs rest) ne l = (ne, l)

-- What giving back a block does.
pub record Released (h : Heap) (ptr : ℕ) (h' : Heap) : Type 0 where
  pub valid : IsValid h'
  pub block : Block
  pub at : memory block ≡ ptr
  pub was_used : block.is_free ≡ false
  pub before : List Block
  pub after : List Block
  pub was : used h.chain ≡ before ++ (block ∷ after)
  pub now : used h'.chain ≡ before ++ after
  pub counted : h'.freed ≡ add32 h.freed block.size

-- A pointer to a block of the heap that is free already
pub record Unused (h : Heap) (ptr : ℕ) : Type 0 where
  pub block : Block
  pub before : List Block
  pub after : List Block
  pub stands : h.chain ≡ before ++ (block ∷ after)
  pub at : memory block ≡ ptr
  pub is_free : block.is_free ≡ true

-- No block begins at a pointer.
abbrev pub Nowhere : Heap → ℕ → Type 0
Nowhere h ptr = All (λ b. memory b ≢ ptr) h.chain

-- `free` of a block in use, of a free one, and of an address where no block begins.
abbrev pub Freed : Heap → ℕ → Option Heap → Type 0
Freed h ptr (some h') =
    Released h ptr h' ⊎ ((h' ≡ h) × (Unused h ptr ⊎ (Nowhere h ptr × (in_heap h ptr ≡ false))))
Freed h ptr none = Nowhere h ptr × (in_heap h ptr ≡ true)

-- `free` on a valid heap: of the memory of a block in use it gives back that block, counts its bytes, leaves
-- the other blocks in use as they are and the heap valid; of a block of the heap that is free already
-- it changes nothing; and where no block of the heap has its memory at the pointer, it changes nothing if
-- the header would lie outside the heap, and reads a header that is none otherwise.
pub free-Freed : (h : Heap) (ptr : ℕ) → IsValid h → Freed h ptr (free h ptr)
unfolding free used
free-Freed h ptr v = go (lookup ptr h.chain) (lookup-Leads ptr h.chain)
  where
    go :
        (p : Place)
        → Leads ptr h.chain p
        → Freed h ptr (elim p [
          | ended before rest ↦ if in_heap h ptr then none else some h
          | found before b after ↦
              if not (is_valid_block h b) || b.is_free
              then some h
              else (some (record h {
                chain = merge h (before ++ (record b { is_free = true } ∷ after));
                freed = add32 h.freed b.size;
              }))
        ])
    go (ended before rest) l = elim (Bool-cases (in_heap h ptr)) [
      | inl inside ↦ rw inside (l, inside)
      | inr outside ↦ rw outside (inr (refl, inr (l, outside)))
    ]
    go (found before b after) l =
        let e = h.start + h.heap_size in
        let (m, x, r) =
          Tiles-append before (b ∷ after) h.start e (subst (λ c. Tiles h.start c e) l.0 v.tiles) in
        let ok = is_valid_block-Tiles h b after m v (Tiles-le before h.start m x) r in
        let freed : Block = record b { is_free = true } in
        elim (Bool-cases b.is_free) [
          | inl f ↦
              let c : (not (is_valid_block h b) || b.is_free) ≡ true = ground arith in
              rw c (
                inr (
                  refl,
                  inl (record {
                    block = b;
                    before = before;
                    after = after;
                    stands = l.0;
                    at = l.1;
                    is_free = f;
                  }),
                ))
          | inr u ↦
              let c : (not (is_valid_block h b) || b.is_free) ≡ false = ground arith in
              rw c (
                inl (record {
                  valid = record {
                    limit = v.limit;
                    tiles =
                        merge-Tiles h (before ++ (freed ∷ after)) h.start v (omega arith)
                          (Tiles-join before (freed ∷ after) h.start m e x r);
                  };
                  block = b;
                  at = l.1;
                  was_used = u;
                  before = used before;
                  after = used after;
                  was = ap used l.0 ∙ used-append before (b ∷ after) ∙ ground arith;
                  now =
                      merge-used h (before ++ (freed ∷ after)) ∙ used-append before (freed ∷ after);
                  counted = refl;
                }))
        ]
