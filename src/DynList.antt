-- ===== src/DynList.antt =====
-- types/src/list.c: the growing array of pointers that the kernel keeps its queues in. A pointer is
-- a number; `cells` is the block that `data` points to. A function that changes the list returns
-- the new one.
pub mod Laws
pub mod Sort
mod Tests
use scales_os.Prelude.{
  ℕ, zero, suc, ◌+◌, ◌-◌, Bool, true, false, List, [], ◌∷◌, ◌++◌, length, get_or, set, take, drop,
  replicate, add32, sub32, ltb, ◌==◌, if◌then◌else◌,
}

-- `list_t` without its lock.
pub record DynList : Type 0 where
  pub size : ℕ
  pub cells : List ℕ

-- `list_create`
abbrev pub create : DynList
create = record { size = 0; cells = [] }

-- `realloc` to `n` cells. New cells read as 0 here; every caller writes them before it reads them.
pub resize : List ℕ → ℕ → List ℕ
resize cells n = take n cells ++ replicate (n - length cells) 0

-- `memmove(data + dst, data + src, n * sizeof(void*))` inside the block.
pub move : List ℕ → (dst src n : ℕ) → List ℕ
move cells dst src n = take dst cells ++ (take n (drop src cells) ++ drop (dst + n) cells)

-- `EXTEND`
pub extend : DynList → DynList
extend l = record { size = add32 l.size 1; cells = resize l.cells (add32 l.size 1) }

pub push_front : DynList → ℕ → DynList
push_front l d =
    let e = extend l in
    let cells = if ltb 1 e.size then move e.cells 1 0 (e.size - 1) else e.cells in
    record e { cells = set cells 0 d }

pub push_back : DynList → ℕ → DynList
push_back l d = let e = extend l in record e { cells = set e.cells (sub32 e.size 1) d }

-- The result is 0 (NULL) on an empty list, which stays as it is.
pub pop_back : DynList → ℕ × DynList
pop_back l =
    let size = sub32 l.size 1 in
    if l.size == 0 then (0, l) else (
      get_or l.cells size 0,
      record { size = size; cells = if size == 0 then [] else resize l.cells size },
    )

pub pop_front : DynList → ℕ × DynList
pop_front l =
    let size = sub32 l.size 1 in
    if l.size == 0 then (0, l) else (
      get_or l.cells 0 0,
      record { size = size; cells = if size == 0 then [] else resize (move l.cells 0 1 size) size },
    )

-- What `list_delete_element` does at the index where it finds the element.
pub delete_at : DynList → ℕ → DynList
delete_at l i =
    let size = sub32 l.size 1 in
    let cleared = set l.cells i 0 in
    record {
      size = size;
      cells =
          if size == 0
          then []
          else (resize (if i == size then cleared else move cleared i (i + 1) (size - i)) size);
    }

-- Its loop from index `i` on.
pub delete_from : DynList → ℕ → (i left : ℕ) → DynList
unfolding delete_at
delete_from l d i zero = l
delete_from l d i (suc left) =
    let rest = delete_from l d (i + 1) left in
    if get_or l.cells i 0 == d then delete_at l i else rest

pub delete_element : DynList → ℕ → DynList
unfolding delete_from
delete_element l d = delete_from l d 0 l.size

-- `list_head`
pub head : DynList → ℕ
head l = if l.size == 0 then 0 else get_or l.cells 0 0

-- `list_tail`
pub tail : DynList → ℕ
tail l = if l.size == 0 then 0 else get_or l.cells (sub32 l.size 1) 0

contains_from : List ℕ → ℕ → (i left : ℕ) → Bool
contains_from cells d i zero = false
contains_from cells d i (suc left) =
    let rest = contains_from cells d (i + 1) left in if get_or cells i 0 == d then true else rest

pub contains : DynList → ℕ → Bool
unfolding contains_from
contains l d = contains_from l.cells d 0 l.size

-- The inner loop of `list_sort`, with `j + 1` for the index that the key may go to.
pub insert_down : (ℕ → ℕ → Bool) → List ℕ → ℕ → ℕ → List ℕ
insert_down predicate cells zero key = set cells 0 key
insert_down predicate cells (suc j) key =
    let rest = insert_down predicate (set cells (suc j) (get_or cells j 0)) j key in
    if predicate (get_or cells j 0) key then rest else set cells (suc j) key

-- Its outer loop from index `i` on.
pub sort_from : (ℕ → ℕ → Bool) → List ℕ → (i left : ℕ) → List ℕ
sort_from predicate cells i zero = cells
sort_from predicate cells i (suc left) =
    sort_from predicate (insert_down predicate cells i (get_or cells i 0)) (i + 1) left

-- `list_sort`
pub sort : (ℕ → ℕ → Bool) → DynList → DynList
unfolding sort_from
sort predicate l = record l { cells = sort_from predicate l.cells 1 (l.size - 1) }
