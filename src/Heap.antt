-- ===== src/Heap.antt =====
-- libc/src/stdlib/alloc.c as the kernel builds it (__LIBK): the heap as a chain of blocks, each a
-- header of nine bytes and its memory. The chain is the list of blocks in the order of their `next`
-- pointers. `none` stands for a panic, and in `free` for a header that is read from memory inside the heap
-- where no block begins.
pub mod Tiling
pub mod Malloc
pub mod Free
mod Tests
use scales_os.Prelude.{
  ℕ, zero, suc, ◌+◌, ◌-◌, ◌*◌, ◌/◌, Bool, true, false, not, ◌&&◌, ◌||◌, Option, none, some, List,
  [], ◌∷◌, ◌++◌, take, add32, sub32, mul32, ltb, leb, ◌==◌, if◌then◌else◌,
}

-- `mem_block_t` at its address; the flag is M_BLOCK_FREE.
pub record Block : Type 0 where
  pub addr : ℕ
  pub size : ℕ
  pub is_free : Bool

pub record Heap : Type 0 where
  pub start : ℕ
  pub heap_size : ℕ
  pub chain : List Block
  pub allocated : ℕ
  pub freed : ℕ

-- `sizeof(mem_block_t)`, a packed structure
abbrev pub header : ℕ
header = 9

-- `HEAP_END`
abbrev pub heap_limit : ℕ
heap_limit = 0xffbf_f000

-- `M_MEMORY`
abbrev pub memory : Block → ℕ
memory b = add32 b.addr header

-- `__mem_heap_end`
pub heap_end : Heap → ℕ
heap_end h = add32 h.start h.heap_size

-- `__mem_heap_is_valid_block`
pub is_valid_block : Heap → Block → Bool
unfolding heap_end
is_valid_block h b =
    leb h.start b.addr
    && leb b.addr (heap_end h)
    && not (b.size == 0)
    && leb (add32 (add32 b.addr header) b.size) (heap_end h)

-- The condition under which the search of `malloc` stops at a valid block.
pub suitable : ℕ → Block → Bool
suitable size b =
    b.is_free && not (ltb b.size size || (ltb size b.size && ltb b.size (add32 size (header + 1))))

-- Where the search stops: at a block, or past the last valid one.
pub data Place : Type 0 where
  found : (before : List Block) (block : Block) (after : List Block) → Place
  ended : (before rest : List Block) → Place

pub past : Block → Place → Place
past b (found before c after) = found (b ∷ before) c after
past b (ended before rest) = ended (b ∷ before) rest

pub find_block : Heap → ℕ → List Block → Place
find_block h size [] = ended [] []
find_block h size (b ∷ bs) =
    let on = past b (find_block h size bs) in
    if is_valid_block h b then if suitable size b then found [] b bs else on else ended [] (b ∷ bs)

-- `__mem_split_block` behind the test of `malloc`: the block and what is split off it.
pub split_block : Heap → Block → ℕ → Option (Block × List Block)
split_block h b size =
    if b.size == size
    then some (b, [])
    else if not (is_valid_block h b)
    then none
    else if ltb b.size size
    then none
    else if ltb b.size (add32 size (header + 1))
    then some (b, [])
    else if sub32 (sub32 b.size size) header == 0
    then none
    else some (
      record b { size = size },
      record {
        addr = add32 (memory b) size;
        size = sub32 (sub32 b.size size) header;
        is_free = true;
      }
          ∷ [],
    )

-- The rest of `malloc` once it has its block: split, mark as used, count.
pub take_block : Heap → (before : List Block) → Block → (after : List Block) → ℕ → Option (ℕ × Heap)
take_block h before b after size = elim (split_block h b size) [
  | none ↦ none
  | some (b', extra) ↦ some (
    memory b',
    record h {
      chain = before ++ (record b' { is_free = false } ∷ (extra ++ after));
      allocated = add32 h.allocated size;
    },
  )
]

-- `last_valid_block->next = block`; with no valid block the first one is linked to it.
pub relink : (before rest : List Block) → List Block
relink [] rest = take 1 rest
relink (b ∷ before) rest = b ∷ before

-- The pages that `malloc` asks for.
pub pages_for : ℕ → ℕ
pages_for size = add32 size (header + 1) / 0x1000 + 1

-- `__mem_grow_heap` and what `malloc` does with the new block.
pub grow : Heap → (before rest : List Block) → ℕ → Option (ℕ × Heap)
grow h before rest size =
    let bytes = mul32 (pages_for size) 0x1000 in
    let b : Block = record { addr = heap_end h; size = sub32 bytes header; is_free = true } in
    if ltb heap_limit (add32 (heap_end h) bytes)
    then none
    else take_block (record h { heap_size = add32 h.heap_size bytes }) (relink before rest) b []
        size

pub malloc : Heap → ℕ → Option (ℕ × Heap)
malloc h size = elim (find_block h size h.chain) [
  | found before b after ↦ take_block h before b after size
  | ended before rest ↦ grow h before rest size
]

-- `__mem_merge` from one block of the chain on: a free block swallows a free neighbour behind it.
pub merge : Heap → List Block → List Block
merge h [] = []
merge h (b ∷ []) = b ∷ []
merge h (b ∷ c ∷ rest) =
    let swallowed = record b { size = add32 b.size (add32 header c.size) } ∷ merge h rest in
    let kept = b ∷ merge h (c ∷ rest) in
    if is_valid_block h b
    then if b.is_free && is_valid_block h c && c.is_free && c.addr == add32 (memory b) b.size
      then swallowed
      else kept
    else b ∷ c ∷ rest

-- The block whose memory begins at `ptr`, with the blocks before and behind it.
pub lookup : ℕ → List Block → Place
lookup ptr [] = ended [] []
lookup ptr (b ∷ bs) = if memory b == ptr then found [] b bs else past b (lookup ptr bs)

-- The header of a pointer lies in the heap, so that `__mem_heap_is_valid_block` reads its size.
pub in_heap : Heap → (ptr : ℕ) → Bool
unfolding heap_end
in_heap h ptr = leb h.start (sub32 ptr header) && leb (sub32 ptr header) (heap_end h)

-- `free`
pub free : Heap → ℕ → Option Heap
free h ptr = elim (lookup ptr h.chain) [
  | ended before rest ↦ if in_heap h ptr then none else some h
  | found before b after ↦
      let marked = before ++ (record b { is_free = true } ∷ after) in
      if not (is_valid_block h b) || b.is_free
      then some h
      else (some (record h { chain = merge h marked; freed = add32 h.freed b.size }))
]
