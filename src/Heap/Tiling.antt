-- ===== src/Heap/Tiling.antt =====
-- The invariant of the heap: its blocks lie one behind the other, from its start to its end.
use scales_os.Prelude.{ℕ, ◌+◌, ◌≤◌, ◌<◌, ◌≡◌, refl, true, List, [], ◌∷◌, ◌++◌, arith, if◌then◌else◌}
use scales_os.Heap.{Block, Heap, header, heap_limit, heap_end, is_valid_block}

-- The blocks fill the addresses from `a` to `e`, and none of them is empty.
abbrev pub Tiles : ℕ → List Block → ℕ → Type 0
Tiles a [] e = a ≡ e
Tiles a (b ∷ bs) e = (b.addr ≡ a) × (0 < b.size) × Tiles (a + header + b.size) bs e

pub record IsValid (h : Heap) : Type 0 where
  pub limit : h.start + h.heap_size ≤ heap_limit
  pub tiles : Tiles h.start h.chain (h.start + h.heap_size)

-- The blocks in use, in order.
unfoldable pub used : List Block → List Block
used [] = []
used (b ∷ bs) = if b.is_free then used bs else b ∷ used bs

pub Tiles-le : (bs : List Block) (a e : ℕ) → Tiles a bs e → a ≤ e
Tiles-le [] a e t = omega arith
Tiles-le (b ∷ bs) a e t = omega (arith, Tiles-le bs (a + header + b.size) e t.2)

-- Where the first part of a tiling ends.
pub Tiles-append :
    (xs ys : List Block) (a e : ℕ) → Tiles a (xs ++ ys) e → (m : ℕ) × Tiles a xs m × Tiles m ys e
Tiles-append [] ys a e t = (a, refl, t)
Tiles-append (x ∷ xs) ys a e t =
    let (m, l, r) = Tiles-append xs ys (a + header + x.size) e t.2 in (m, (t.0, t.1, l), r)

pub Tiles-join :
    (xs ys : List Block) (a m e : ℕ) → Tiles a xs m → Tiles m ys e → Tiles a (xs ++ ys) e
Tiles-join [] ys a m e p q = rw p q
Tiles-join (x ∷ xs) ys a m e p q = (p.0, p.1, Tiles-join xs ys (a + header + x.size) m e p.2 q)

pub used-append : (xs ys : List Block) → used (xs ++ ys) ≡ used xs ++ used ys
unfolding used
used-append [] ys = refl
used-append (x ∷ xs) ys = ground (arith, used-append xs ys)

pub heap_end-valid : (h : Heap) → IsValid h → heap_end h ≡ h.start + h.heap_size
unfolding heap_end
heap_end-valid h v = omega arith

-- A block of a tiling inside the heap passes the test.
pub is_valid_block-Tiles :
    (h : Heap) (b : Block) (bs : List Block) (a : ℕ)
    → IsValid h
    → h.start ≤ a
    → Tiles a (b ∷ bs) (h.start + h.heap_size)
    → is_valid_block h b ≡ true
unfolding is_valid_block
is_valid_block-Tiles h b bs a v lo t =
    let hi = Tiles-le bs (a + header + b.size) (h.start + h.heap_size) t.2 in
    ground (arith, heap_end-valid h v, v.limit, hi, t.0, t.1)
