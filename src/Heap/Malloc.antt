-- ===== src/Heap/Malloc.antt =====
-- `malloc`: what it hands out, what it leaves alone, and when it panics.
use mathlib.Core.List.{append-nil}
use scales_os.Prelude.{
  ℕ, ◌+◌, ◌-◌, ◌*◌, ◌/◌, ◌≤◌, ◌<◌, ◌≡◌, refl, sym, ap, subst, ◌∙◌, inl, inr, true, false, Option,
  none, some, List, [], ◌∷◌, ◌++◌, arith, All, add32, sub32, mul32, ltb, Bool-cases,
}
use scales_os.Heap.{
  Block, Heap, Place, found, ended, header, heap_limit, memory, heap_end, is_valid_block, suitable,
  past, find_block, split_block, take_block, relink, pages_for, grow, malloc,
}
use scales_os.Heap.Tiling.{
  Tiles, IsValid, used, Tiles-le, Tiles-append, Tiles-join, used-append, heap_end-valid,
  is_valid_block-Tiles,
}

-- Where the search for `size` bytes among `bs` stops.
abbrev Stops : ℕ → List Block → Place → Type 0
Stops size bs (found xs b ys) = (bs ≡ xs ++ (b ∷ ys)) × (suitable size b ≡ true)
Stops size bs (ended xs rest) = (bs ≡ xs) × (rest ≡ []) × All (λ b. suitable size b ≡ false) xs

past-Stops :
    (size : ℕ) (bs : List Block) (b : Block) (p : Place)
    → suitable size b ≡ false
    → Stops size bs p
    → Stops size (b ∷ bs) (past b p)
unfolding past
past-Stops size bs b (found xs c ys) no_fit s = (ap (◌∷◌ b) s.0, s.1)
past-Stops size bs b (ended xs rest) no_fit s = (ap (◌∷◌ b) s.0, s.1, (no_fit, s.2))

find_block-Stops :
    (size : ℕ) (h : Heap) (bs : List Block) (a : ℕ)
    → IsValid h
    → h.start ≤ a
    → Tiles a bs (h.start + h.heap_size)
    → Stops size bs (find_block h size bs)
unfolding find_block
find_block-Stops size h [] a v lo t = (refl, refl, tt)
find_block-Stops size h (b ∷ bs) a v lo t =
    rw (is_valid_block-Tiles h b bs a v lo t) (elim (Bool-cases (suitable size b)) [
      | inl fit ↦ rw fit (refl, fit)
      | inr no_fit ↦ rw no_fit (
          past-Stops size bs b (find_block h size bs) no_fit
            (find_block-Stops size h bs (a + header + b.size) v (omega arith) t.2))
    ])

-- The block that `__mem_split_block` leaves for `size` bytes, and what it splits off.
record Split (b : Block) (size : ℕ) (out : Option (Block × List Block)) : Type 0 where
  left : Block
  extra : List Block
  result : out ≡ some (left, extra)
  same : left.addr ≡ b.addr
  enough : size ≤ left.size
  snug : left.size < size + header + 1
  unused : used extra ≡ []
  tiles : Tiles (b.addr + header + left.size) extra (b.addr + header + b.size)

split_block-Split :
    (h : Heap) (b : Block) (size : ℕ)
    → is_valid_block h b ≡ true
    → 0 < size
    → size ≤ b.size
    → b.addr + header + b.size ≤ heap_limit
    → Split b size (split_block h b size)
unfolding split_block used
split_block-Split h b size ok pos fits small = elim (Bool-cases (ltb b.size (size + header + 1))) [
  | inl tight ↦ record {
    left = b;
    extra = [];
    result = ground arith;
    same = refl;
    enough = fits;
    snug = ground arith;
    unused = refl;
    tiles = refl;
  }
  | inr roomy ↦ record {
    left = record b { size = size };
    extra =
        record { addr = b.addr + header + size; size = b.size - size - header; is_free = true }
        ∷ [];
    result = ground arith;
    same = refl;
    enough = omega arith;
    snug = omega arith;
    unused = refl;
    tiles = ground arith;
  }
]

-- What an allocation does: one new block in use, between the old ones, in a valid heap.
pub record Allocated (h : Heap) (size ptr : ℕ) (h' : Heap) : Type 0 where
  pub valid : IsValid h'
  pub block : Block
  pub at : ptr ≡ block.addr + header
  pub in_use : block.is_free ≡ false
  pub enough : size ≤ block.size
  pub snug : block.size < size + header + 1
  pub before : List Block
  pub after : List Block
  pub was : used h.chain ≡ before ++ after
  pub now : used h'.chain ≡ before ++ (block ∷ after)

-- A panic needs a chain without a suitable block and a heap without room to grow.
abbrev pub Outcome : Heap → ℕ → Option (ℕ × Heap) → Type 0
Outcome h size (some (ptr, h')) = Allocated h size ptr h'
Outcome h size none =
    All (λ b. suitable size b ≡ false) h.chain
    × (heap_limit < h.start + h.heap_size + ((size + header + 1) / 0x1000 + 1) * 0x1000)

suitable-le : (size : ℕ) (b : Block) → suitable size b ≡ true → (size ≤ b.size) × (b.is_free ≡ true)
unfolding suitable
suitable-le size b s = ground arith

used_free :
    (xs : List Block) (b : Block) (ys : List Block)
    → b.is_free ≡ true
    → used (xs ++ (b ∷ ys)) ≡ used xs ++ used ys
unfolding used
used_free xs b ys f = used-append xs (b ∷ ys) ∙ ground arith

used_taken :
    (xs : List Block) (b : Block) (extra ys : List Block)
    → b.is_free ≡ false
    → used extra ≡ []
    → used (xs ++ (b ∷ (extra ++ ys))) ≡ used xs ++ (b ∷ used ys)
unfolding used
used_taken xs b extra ys f u = used-append xs (b ∷ (extra ++ ys)) ∙ rw (f, used-append extra ys, u)

take_block-some :
    (h : Heap) (before : List Block) (b : Block) (after : List Block) (size : ℕ) (left : Block)
    (extra : List Block)
    → split_block h b size ≡ some (left, extra)
    → take_block h before b after size
      ≡ some (
        memory left,
        record h {
          chain = before ++ (record left { is_free = false } ∷ (extra ++ after));
          allocated = add32 h.allocated size;
        },
      )
unfolding take_block
take_block-some h before b after size left extra e = rw (e, take_block)

-- The part that both ways of getting a block share.
take_block-Outcome :
    (h g : Heap) (before : List Block) (b : Block) (after : List Block) (size : ℕ)
    → IsValid g
    → g.chain ≡ before ++ (b ∷ after)
    → used h.chain ≡ used before ++ used after
    → 0 < size
    → size ≤ b.size
    → Outcome h size (take_block g before b after size)
take_block-Outcome h g before b after size v split was pos fits =
    let e = g.start + g.heap_size in
    let (m, l, r) =
      Tiles-append before (b ∷ after) g.start e (subst (λ c. Tiles g.start c e) split v.tiles) in
    let lo = Tiles-le before g.start m l in
    let hi = Tiles-le after (m + header + b.size) e r.2 in
    let ok = is_valid_block-Tiles g b after m v lo r in
    let sp = split_block-Split g b size ok pos fits (omega (arith, v.limit, hi, r.0)) in
    let b' : Block = record sp.left { is_free = false } in
    let t : Tiles (m + header + sp.left.size) sp.extra (m + header + b.size) =
      subst (λ k. Tiles (k + header + sp.left.size) sp.extra (k + header + b.size)) r.0 sp.tiles in
    subst (Outcome h size) (sym (take_block-some g before b after size sp.left sp.extra sp.result))
      (record {
        valid = record {
          limit = v.limit;
          tiles = Tiles-join before (b' ∷ (sp.extra ++ after)) g.start m e l (
            sp.same ∙ r.0,
            omega (arith, sp.enough, pos),
            Tiles-join sp.extra after (m + header + sp.left.size) (m + header + b.size) e t r.2,
          );
        };
        block = b';
        at = omega (arith, sp.same, r.0, v.limit, hi);
        in_use = refl;
        enough = sp.enough;
        snug = sp.snug;
        before = used before;
        after = used after;
        was = was;
        now = used_taken before b' sp.extra after refl sp.unused;
      })

relink-nil : (before : List Block) → relink before [] ≡ before
unfolding relink
relink-nil [] = refl
relink-nil (b ∷ before) = refl

-- The block that the heap grows by.
abbrev new_block : Heap → ℕ → Block
new_block h size = record {
  addr = heap_end h;
  size = sub32 (mul32 (pages_for size) 0x1000) header;
  is_free = true;
}

abbrev grown : Heap → ℕ → Heap
grown h size = record h { heap_size = add32 h.heap_size (mul32 (pages_for size) 0x1000) }

pub bytes_exact :
    (size : ℕ)
    → size < 0x3f_0000
    → mul32 (pages_for size) 0x1000 ≡ ((size + header + 1) / 0x1000 + 1) * 0x1000
unfolding pages_for
bytes_exact size small = omega arith

grow-room :
    (h : Heap) (before : List Block) (size : ℕ)
    → ltb heap_limit (add32 (heap_end h) (mul32 (pages_for size) 0x1000)) ≡ false
    → grow h before [] size ≡ take_block (grown h size) before (new_block h size) [] size
unfolding grow
grow-room h before size room = rw (room, relink-nil before)

grow-full :
    (h : Heap) (before : List Block) (size : ℕ)
    → ltb heap_limit (add32 (heap_end h) (mul32 (pages_for size) 0x1000)) ≡ true
    → grow h before [] size ≡ none
unfolding grow
grow-full h before size full = rw full

-- The grown heap with its new block in the chain.
abbrev with_new : Heap → ℕ → Heap
with_new h size = record (grown h size) { chain = h.chain ++ (new_block h size ∷ []) }

with_new-IsValid :
    (h : Heap) (size : ℕ)
    → IsValid h
    → size < 0x3f_0000
    → ltb heap_limit (add32 (heap_end h) (mul32 (pages_for size) 0x1000)) ≡ false
    → IsValid (with_new h size)
with_new-IsValid h size v small room =
    let e = h.start + h.heap_size in
    let n : ℕ = mul32 (pages_for size) 0x1000 in
    let exact = bytes_exact size small in
    let at = heap_end-valid h v in
    let fits : e + n ≤ heap_limit = ground (arith, exact, at, v.limit) in
    let grew : add32 h.heap_size n ≡ h.heap_size + n = omega arith in
    let big : header < n = omega (arith, exact) in
    record {
      limit = omega arith;
      tiles =
          Tiles-join h.chain (new_block h size ∷ []) h.start e (h.start + add32 h.heap_size n)
            v.tiles (at, omega arith, omega arith);
    }

take_block_grown :
    (h : Heap) (size : ℕ)
    → IsValid h
    → 0 < size
    → size < 0x3f_0000
    → IsValid (with_new h size)
    → Outcome h size (take_block (grown h size) h.chain (new_block h size) [] size)
unfolding take_block used split_block is_valid_block
take_block_grown h size v pos small w =
    take_block-Outcome h (with_new h size) h.chain (new_block h size) [] size w refl
      (sym (append-nil (used h.chain))) pos (omega (arith, bytes_exact size small))

grow-Outcome :
    (h : Heap) (size : ℕ)
    → IsValid h
    → 0 < size
    → size < 0x3f_0000
    → All (λ b. suitable size b ≡ false) h.chain
    → Outcome h size (grow h h.chain [] size)
grow-Outcome h size v pos small none_fits =
    let n : ℕ = mul32 (pages_for size) 0x1000 in
    let exact = bytes_exact size small in
    elim (Bool-cases (ltb heap_limit (add32 (heap_end h) n))) [
      | inl over ↦
          subst (Outcome h size) (sym (grow-full h h.chain size over))
            (none_fits, ground (arith, exact, heap_end-valid h v, v.limit))
      | inr room ↦
          subst (Outcome h size) (sym (grow-room h h.chain size room))
            (take_block_grown h size v pos small (with_new-IsValid h size v small room))
    ]

-- `malloc` on a valid heap, for a size of at least one byte and less than 0x3f0000: either it hands out a block in
-- use with at least the bytes asked for and at most nine more, between the blocks that were in use,
-- which stay as they are, and the blocks still lie one behind the other through the whole heap; or
-- it panics, and then no free block was suitable and the heap could not grow.
pub malloc-Outcome :
    (h : Heap) (size : ℕ) → IsValid h → 0 < size → size < 0x3f_0000 → Outcome h size (malloc h size)
unfolding malloc
malloc-Outcome h size v pos small =
    go (find_block h size h.chain) (find_block-Stops size h h.chain h.start v (omega arith) v.tiles)
  where
    go :
        (p : Place)
        → Stops size h.chain p
        → Outcome h size (elim p [
          | found before b after ↦ take_block h before b after size
          | ended before rest ↦ grow h before rest size
        ])
    go (found before b after) s =
        let fit = suitable-le size b s.1 in
        take_block-Outcome h h before b after size v s.0
          (ap used s.0 ∙ used_free before b after fit.1) pos fit.0
    go (ended before rest) s =
        rw (s.1, ← s.0)
          (grow-Outcome h size v pos small
            (subst (All (λ b. suitable size b ≡ false)) (sym s.0) s.2))
