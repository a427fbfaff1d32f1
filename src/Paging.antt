-- ===== src/Paging.antt =====
-- Page tables, in kernel/src/mem/paging.c, on the frames of Pmm. An entry of the directory has its table
-- with it, as the recursive mapping does; an entry of a table is its fields. Addresses are numbers below
-- 2^32.
pub mod Entries
pub mod Backing
pub mod Mapping
pub mod Regions
mod Tests
use Prim.Native.Nat.{bit_or}
use scales_os.Prelude.{
  ℕ, zero, suc, ◌+◌, ◌-◌, ◌*◌, ◌/◌, ◌%◌, ◌^◌, Bool, true, false, Option, none, some, add32, ◌==◌,
  if◌then◌else◌,
}
use scales_os.Pmm.{Pmm, alloc_frames, is_allocated, set_allocated, free}

-- `pte_t`
pub record Pte : Type 0 where
  pub page : ℕ
  pub flags : ℕ

-- `pde_t`: not present, with `size`, or with a table
pub data Pde : Type 0 where
  absent : Pde
  large : (raw : ℕ) → Pde
  table : (frame flags : ℕ) → (ℕ → Pte) → Pde

-- The directory that is set, whose entry 1023 is itself, with its frame
pub record Memory : Type 0 where
  pub pmm : Pmm
  pub directory : ℕ → Pde
  pub directory_frame : ℕ

-- `PDE(addr)` and `PTE(addr)`
abbrev pub pd_index : ℕ → ℕ
pd_index v = v / 0x400000

abbrev pub pt_index : ℕ → ℕ
pt_index v = v / 0x1000 % 0x400

-- PAGE_PRESENT | PAGE_WRITABLE and PAGE_USER
abbrev pub kernel_flags : ℕ
kernel_flags = 3

abbrev pub user_flag : ℕ
user_flag = 4

abbrev pub no_page : Pte
no_page = record { page = 0; flags = 0 }

-- `raw = paddr | flags`
abbrev pub pte : (paddr flags : ℕ) → Pte
pte paddr flags = record { page = paddr / 0x1000; flags = bit_or (paddr % 0x1000) flags }

abbrev pub present : Pte → Bool
present e = e.flags % 2 == 1

-- The address that `virt2phys` computes for an entry with `size`: bits 22 and 23 go to 30 and 31, and bits
-- 13 to 20 stay, which overlap with nothing.
abbrev pub large_phys : (raw v : ℕ) → ℕ
large_phys raw v =
    (raw / 0x400000 * 0x400000 * 0x100 % 2 ^ 32 + raw / 0x2000 % 0x100 * 0x2000 + v % 0x400000)
    % 2 ^ 32

abbrev pub phys : Pde → (v : ℕ) → ℕ
phys absent v = 0
phys (large raw) v = large_phys raw v
phys (table frame flags pt) v =
    if present (pt (pt_index v)) then (pt (pt_index v)).page * 0x1000 + v % 0x1000 else 0

-- What the tables below the recursive window say
abbrev pub translate : Memory → (v : ℕ) → ℕ
translate m v = phys (m.directory (pd_index v)) v

-- The entry 1023 of the directory is the directory itself, so that in the last 4 MB its entries stand for
-- those of a table: `PT_PTR(i)` is the table of entry `i`.
abbrev pub window : ℕ
window = 0xffc0_0000

abbrev pub window_phys : Pde → (v : ℕ) → ℕ
window_phys absent v = 0
window_phys (large raw) v = raw / 0x1000 * 0x1000 + v % 0x1000
window_phys (table frame flags pt) v = frame / 0x1000 * 0x1000 + v % 0x1000

abbrev pub in_window : Memory → (v : ℕ) → ℕ
in_window m v =
    if pt_index v == 1023
    then m.directory_frame + v % 0x1000
    else window_phys (m.directory (pt_index v)) v

-- `k_mem_paging_virt2phys`
abbrev pub virt2phys : Memory → (v : ℕ) → ℕ
virt2phys m v = if pd_index v == 1023 then in_window m v else translate m v

-- An operation that panics; one that takes a page of 4 MB for a table and writes into the page, or, with an
-- address in the recursive window, writes over an entry of the directory
pub data Outcome : Type 0 where
  done : Memory → Outcome
  panic : Outcome
  stray : Outcome

abbrev pub update {ℓ} : {A : Type ℓ} → (ℕ → A) → ℕ → A → ℕ → A
update f i a j = if j == i then a else f j

abbrev pub with_pte : Memory → (v frame flags : ℕ) → (ℕ → Pte) → Pte → Memory
with_pte m v frame flags pt e = record m {
  directory = update m.directory (pd_index v) (table frame flags (update pt (pt_index v) e));
}

-- `k_mem_paging_unmap`
abbrev pub unmap_in : Memory → (v : ℕ) → Pde → Outcome
unmap_in m v absent = done m
unmap_in m v (large raw) = stray
unmap_in m v (table frame flags pt) = done (with_pte m v frame flags pt no_page)

pub unmap : Memory → (v : ℕ) → Outcome
unmap m v = if pd_index v == 1023 then stray else unmap_in m v (m.directory (pd_index v))

-- `k_mem_paging_unmap_and_free`
abbrev pub unmap_and_free_in : Memory → (v : ℕ) → Pde → Outcome
unmap_and_free_in m v absent = done m
unmap_and_free_in m v (large raw) = stray
unmap_and_free_in m v (table frame flags pt) =
    let page = (pt (pt_index v)).page in
    let cleared = with_pte m v frame flags pt no_page in
    if page == 0
    then done cleared
    else done (record cleared { pmm = free cleared.pmm (page * 0x1000) 1 })

pub unmap_and_free : Memory → (v : ℕ) → Outcome
unmap_and_free m v =
    if pd_index v == 1023 then stray else unmap_and_free_in m v (m.directory (pd_index v))

-- The frame of `k_mem_paging_map`, which takes one if it is given none; `none` is a panic.
abbrev pub frame_for : Pmm → (paddr : ℕ) → Option (ℕ × Pmm)
frame_for pmm zero = alloc_frames pmm 1
frame_for pmm (suc p) = some (suc p, pmm)

-- `k_mem_paging_map` behind the test for a table
abbrev pub map_in : Memory → (v paddr flags frame pde_flags : ℕ) → (ℕ → Pte) → Outcome
map_in m v paddr flags frame pde_flags pt =
    if present (pt (pt_index v)) then panic else elim (frame_for m.pmm paddr) [
      | none ↦ panic
      | some (paddr', pmm) ↦
          done (with_pte (record m { pmm = pmm }) v frame pde_flags pt (pte paddr' flags))
    ]

-- A new table
abbrev pub map_new : Memory → (v paddr flags : ℕ) → Option (ℕ × Pmm) → Outcome
map_new m v paddr flags none = panic
map_new m v paddr flags (some (zero, pmm)) = panic
map_new m v paddr flags (some (suc frame, pmm)) =
    map_in (record m { pmm = pmm }) v paddr flags (suc frame)
      (if flags / 4 % 2 == 1 then kernel_flags + user_flag else kernel_flags) (λ j. no_page)

abbrev pub map_at : Memory → (v paddr flags : ℕ) → Pde → Outcome
map_at m v paddr flags absent = map_new m v paddr flags (alloc_frames m.pmm 1)
map_at m v paddr flags (large raw) = stray
map_at m v paddr flags (table frame pde_flags pt) = map_in m v paddr flags frame pde_flags pt

-- `k_mem_paging_map`
unfoldable pub map : Memory → (v paddr flags : ℕ) → Outcome
map m v paddr flags =
    if pd_index v == 1023
    then stray
    else map_at m v paddr (if flags == 0 then kernel_flags else flags) (m.directory (pd_index v))

-- A round of `k_mem_paging_map_region` that has its frame
abbrev pub map_frame : Memory → (v frame flags : ℕ) → Outcome
map_frame m v frame flags =
    map (if is_allocated m.pmm frame then m else record m { pmm = set_allocated m.pmm frame }) v
      frame flags

abbrev pub then_ : Outcome → (Memory → Outcome) → Outcome
then_ (done m) f = f m
then_ panic f = panic
then_ stray f = stray

-- Its loop over frames one behind the other
pub map_run : Memory → (v frame flags size : ℕ) → Outcome
map_run m v frame flags zero = done m
map_run m v frame flags (suc size) =
    then_ (map_frame m v frame flags)
      (λ m'. map_run m' (add32 v 0x1000) (add32 frame 0x1000) flags size)

-- Its loop that takes the frames one by one
pub map_each : Memory → (v flags size : ℕ) → Outcome
map_each m v flags zero = done m
map_each m v flags (suc size) = elim (alloc_frames m.pmm 1) [
  | none ↦ panic
  | some (frame, pmm) ↦
      then_ (map_frame (record m { pmm = pmm }) v frame flags)
        (λ m'. map_each m' (add32 v 0x1000) flags size)
]

-- `k_mem_paging_map_region`
pub map_region : Memory → (v paddr size flags : ℕ) → (contiguous : Bool) → Outcome
map_region m v (suc p) size flags contiguous = map_run m v (suc p) flags size
map_region m v zero size flags false = map_each m v flags size
map_region m v zero size flags true = elim (alloc_frames m.pmm size) [
  | none ↦ panic
  | some (frame, pmm) ↦ map_run (record m { pmm = pmm }) v frame flags size
]

-- `k_mem_paging_unmap_region` and `k_mem_paging_unmap_and_free_region`
pub unmap_region : Memory → (v size : ℕ) → Outcome
unmap_region m v zero = done m
unmap_region m v (suc size) = then_ (unmap m v) (λ m'. unmap_region m' (add32 v 0x1000) size)

pub unmap_and_free_region : Memory → (v size : ℕ) → Outcome
unmap_and_free_region m v zero = done m
unmap_and_free_region m v (suc size) =
    then_ (unmap_and_free m v) (λ m'. unmap_and_free_region m' (add32 v 0x1000) size)
