-- ===== src/Mmap.antt =====
-- Mappings of a process, in kernel/src/mem/mmap.c, on the page tables of Paging. Blocks go by numbers, which
-- stand for their addresses. The search for room runs on fuel: `endless` is one that needs more.
pub mod Search
pub mod Allocation
pub mod Faults
mod Tests
use Prim.Native.Nat.{bit_or}
use scales_os.Prelude.{
  ℕ, zero, suc, ◌+◌, ◌-◌, ◌*◌, ◌/◌, ◌%◌, ◌^◌, Bool, true, false, not, ◌&&◌, ◌||◌, Option, none,
  some, List, [], ◌∷◌, ◌++◌, ltb, leb, ◌==◌, add32, mul32, sub32, if◌then◌else◌,
}
use scales_os.Paging.{
  Memory, virt2phys, Outcome, done, panic, stray, map, map_region, unmap_region,
  unmap_and_free_region,
}

-- USER_STACK_END and LOWMEM_START
abbrev pub user_stack_end : ℕ
user_stack_end = 0xbffef000

abbrev pub lowmem_start : ℕ
lowmem_start = 0xc1000000

-- PROT_READ, PROT_WRITE; MAP_SHARED, MAP_PRIVATE, MAP_FIXED, MAP_ANONYMOUS; MMAP_FLAG_SHM
abbrev pub prot_read : ℕ → Bool
prot_read prot = prot % 2 == 1

abbrev pub prot_write : ℕ → Bool
prot_write prot = prot / 2 % 2 == 1

abbrev pub map_shared : ℕ → Bool
map_shared flags = flags % 2 == 1

abbrev pub map_private : ℕ → Bool
map_private flags = flags / 2 % 2 == 1

abbrev pub map_fixed : ℕ → Bool
map_fixed flags = flags / 4 % 2 == 1

abbrev pub map_anonymous : ℕ → Bool
map_anonymous flags = flags / 8 % 2 == 1

-- `mmap_block_t`
pub record Block : Type 0 where
  pub id : ℕ
  pub start : ℕ
  pub end : ℕ
  pub size : ℕ
  pub offset : ℕ
  pub fd : ℕ
  pub prot : ℕ
  pub type : ℕ
  pub shm : Bool

-- `mmap_info_t`, the list of shared mappings, the page tables, and the next block
pub record State : Type 0 where
  pub start : ℕ
  pub mmap_blocks : List Block
  pub shared_mappings : List Block
  pub memory : Memory
  pub next : ℕ

-- `k_mem_mmap_get_mapping`
pub get_mapping : List Block → (addr : ℕ) → Option Block
get_mapping [] addr = none
get_mapping (b ∷ bs) addr =
    if leb b.start addr && ltb addr b.end then some b else get_mapping bs addr

abbrev pub pages_of : (size : ℕ) → ℕ
pages_of size = if size % 0x1000 == 0 then size / 0x1000 else size / 0x1000 + 1

-- `start_addr + (i + offset) * 0x1000`
abbrev pub page_at : (start_addr offset i : ℕ) → ℕ
page_at start_addr offset i = add32 start_addr (mul32 (i + offset) 0x1000)

-- `k_mem_paging_virt2phys` as a test
abbrev pub is_mapped : Memory → ℕ → Bool
is_mapped m v = not (virt2phys m v == 0)

-- The number of the first page of a range that is mapped; `left` pages are left to look at.
pub first_mapped : Memory → (start_addr offset i left : ℕ) → Option ℕ
first_mapped m start_addr offset i zero = none
first_mapped m start_addr offset i (suc left) =
    let rest = first_mapped m start_addr offset (i + 1) left in
    if is_mapped m (page_at start_addr offset i) then some i else rest

-- The loop past what is mapped or belongs to a block
pub skip_mapped : (fuel : ℕ) → Memory → List Block → (start_addr offset i : ℕ) → Option ℕ
skip_mapped zero m blocks start_addr offset i = none
skip_mapped (suc fuel) m blocks start_addr offset i =
    let rest = skip_mapped fuel m blocks start_addr offset (i + 1) in
    let addr = page_at start_addr offset i in
    let in_block = elim (get_mapping blocks addr) as (λ o. Bool) [ none ↦ false | some b ↦ true ] in
    if is_mapped m addr || in_block then rest else some i

-- The search for room: `start_addr` and `offset` where it stops
pub find_room :
    (fuel : ℕ)
    → Memory
    → List Block
    → (pages start_addr offset : ℕ) → (loop : Bool) → Option (ℕ × ℕ)
find_room zero m blocks pages start_addr offset loop = none
find_room (suc fuel) m blocks pages start_addr offset loop =
    elim (first_mapped m start_addr offset 0 pages) [
      | none ↦ some (start_addr, offset)
      | some i ↦ elim (skip_mapped (suc fuel) m blocks start_addr offset i) [
        | none ↦ none
        | some offset' ↦
            if leb user_stack_end (page_at start_addr offset' 0)
            then if loop
              then some (start_addr, offset')
              else find_room fuel m blocks pages lowmem_start 0 true
            else find_room fuel m blocks pages start_addr offset' loop
      ]
    ]

pub data Allocated : Type 0 where
  no_block : Allocated
  allocated : Block → State → Allocated
  endless : Allocated
  crashed : Allocated

-- PAGE_PRESENT | PAGE_USER, and PAGE_WRITABLE
abbrev pub page_flags : (prot : ℕ) → ℕ
page_flags prot = if prot_write prot then 7 else 5

-- The pages of an anonymous mapping
abbrev pub map_pages : Memory → (start_addr pages prot flags : ℕ) → Outcome
map_pages m start_addr pages prot flags =
    if map_anonymous flags then map_region m start_addr 0 pages (page_flags prot) false else done m

-- The end of `k_mem_mmap_allocate_block`, with the address found
abbrev pub add_block : State → (b : Block) → Outcome → Allocated
add_block s b panic = crashed
add_block s b stray = crashed
add_block s b (done memory) = allocated b (record s {
  mmap_blocks = s.mmap_blocks ++ (b ∷ []);
  shared_mappings = if map_shared b.type then s.shared_mappings ++ (b ∷ []) else s.shared_mappings;
  memory = memory;
  next = s.next + 1;
})

abbrev pub new_block : (id start_addr pages prot flags : ℕ) → Block
new_block id start_addr pages prot flags = record {
  id = id;
  start = start_addr;
  end = add32 start_addr (mul32 pages 0x1000);
  size = mul32 pages 0x1000;
  offset = 0;
  fd = 0;
  prot = prot;
  type = flags;
  shm = false;
}

abbrev pub finish : State → (start_addr pages prot flags : ℕ) → Allocated
finish s start_addr pages prot flags =
    add_block s (new_block s.next start_addr pages prot flags)
      (map_pages s.memory start_addr pages prot flags)

-- MAP_FIXED
abbrev pub cannot_fix : State → (start pages : ℕ) → Bool
cannot_fix s start pages =
    start == 0 || not (start % 0x1000 == 0) || leb user_stack_end (add32 start (mul32 pages 0x1000))

pub allocate_fixed : State → (start pages prot flags : ℕ) → Allocated
allocate_fixed s start pages prot flags =
    if cannot_fix s start pages then no_block else elim (first_mapped s.memory start 0 0 pages) [
      | some i ↦ no_block
      | none ↦ finish s start pages prot flags
    ]

pub allocate_found : State → (start_addr pages prot flags : ℕ) → Allocated
allocate_found s start_addr pages prot flags =
    let stop = add32 start_addr (mul32 pages 0x1000) in
    if leb user_stack_end stop
    then no_block
    else finish (record s { start = stop }) start_addr pages prot flags

pub allocate_anywhere : (fuel : ℕ) → State → (pages prot flags : ℕ) → Allocated
allocate_anywhere fuel s pages prot flags =
    elim (find_room fuel s.memory s.mmap_blocks pages s.start 0 false) [
      | none ↦ endless
      | some (start_addr, offset) ↦ allocate_found s (page_at start_addr offset 0) pages prot flags
    ]

-- `k_mem_mmap_allocate_block`
pub allocate_block : (fuel : ℕ) → State → (start size prot flags : ℕ) → Allocated
allocate_block fuel s start size prot flags =
    if map_fixed flags
    then allocate_fixed s start (pages_of size) prot flags
    else allocate_anywhere fuel s (pages_of size) prot flags

-- `list_delete_element`
pub delete_block : List Block → (id : ℕ) → List Block
delete_block [] id = []
delete_block (b ∷ bs) id = if b.id == id then bs else b ∷ delete_block bs id

abbrev pub without : State → Block → State
without s b = record s {
  start = b.start;
  mmap_blocks = delete_block s.mmap_blocks b.id;
  shared_mappings =
      if map_shared b.type then delete_block s.shared_mappings b.id else s.shared_mappings;
}

abbrev pub freed_to : State → Outcome → Option State
freed_to s (done memory) = some (record s { memory = memory })
freed_to s panic = none
freed_to s stray = none

-- `k_mem_mmap_free_block`
pub free_block : State → Block → Option State
free_block s b = freed_to (without s b) (
    if b.shm
    then unmap_region s.memory b.start (b.size / 0x1000)
    else unmap_and_free_region s.memory b.start (b.size / 0x1000))

-- `k_mem_mmap_get_mappings_for_fd`
pub get_mappings_for_fd : List Block → (fd offset : ℕ) → List Block
get_mappings_for_fd [] fd offset = []
get_mappings_for_fd (b ∷ bs) fd offset =
    let rest = get_mappings_for_fd bs fd offset in
    if b.fd == fd && leb b.offset offset then b ∷ rest else rest

-- What `k_mem_mmap_handle_pagefault` comes to: the code that it returns; the page tables with the page mapped,
-- into which it then reads from the file at an offset, or puts zeros if that gives nothing; or a map that
-- panics or writes astray
pub data Fault : Type 0 where
  code : ℕ → Fault
  loads : (fd offset page : ℕ) → Memory → Fault
  fails : Fault

abbrev pub loaded : (fd offset page : ℕ) → Outcome → Fault
loaded fd offset page (done m) = loads fd offset page m
loaded fd offset page panic = fails
loaded fd offset page stray = fails

-- The tests of a block; `write` is bit 1 of the error code, `is_open` whether the descriptor is.
abbrev pub fault_in : Memory → (is_open : ℕ → Bool) → (address : ℕ) → (write : Bool) → Block → Fault
fault_in m is_open address write b =
    let page = address / 0x1000 * 0x1000 in
    if b.prot == 0
    then code 2
    else if not (prot_read b.prot) && not write
    then code 3
    else if not (prot_write b.prot) && write
    then code 4
    else if not (map_private b.type || map_shared b.type)
    then code 5
    else if not (is_open b.fd)
    then code 6
    else if is_mapped m page
    then code 7
    else loaded b.fd (add32 b.offset (mul32 (sub32 page b.start / 0x1000) 0x1000)) page
        (map m page 0 (page_flags b.prot))

-- `k_mem_mmap_handle_pagefault`
pub handle_pagefault : State → (is_open : ℕ → Bool) → (address : ℕ) → (write : Bool) → Fault
handle_pagefault s is_open address write = elim (get_mapping s.mmap_blocks address) [
  | none ↦ code 1
  | some b ↦ fault_in s.memory is_open address write b
]
