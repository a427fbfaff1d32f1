-- ===== src/Mmap/Faults.antt =====
-- Which page faults a mapping serves, in kernel/src/mem/mmap.c.
use scales_os.Prelude.{
  ℕ, ◌+◌, ◌*◌, ◌/◌, ◌%◌, ◌^◌, ◌≤◌, ◌<◌, ◌≡◌, ◌∙◌, refl, sym, ap, subst, inl, inr, Bool, true, false,
  not, ◌&&◌, ◌||◌, Bool-cases, Option-cases, some-injective, some, List, [], ◌∷◌, arith, leb, ltb,
  ◌==◌, add32, mul32, sub32, if◌then◌else◌,
}
use scales_os.Paging.{Memory, Outcome, done, panic, stray, map}
use scales_os.Pmm.Alloc.{IsValid}
use scales_os.Paging.Backing.{Page, map-Page}
use scales_os.Mmap.{
  Block, State, get_mapping, is_mapped, prot_read, prot_write, map_private, map_shared, page_flags,
  Fault, code, loads, fails, loaded, fault_in, handle_pagefault,
}

-- The first block that holds an address
pub get_mapping-holds :
    (bs : List Block) (addr : ℕ) (b : Block)
    → get_mapping bs addr ≡ some b
    → (b.start ≤ addr) × (addr < b.end)
unfolding get_mapping
get_mapping-holds [] addr b e = absurd (grind (arith, e))
get_mapping-holds (c ∷ cs) addr b e = elim (Bool-cases (leb c.start addr && ltb addr c.end)) [
  | inl is ↦
      let same : c ≡ b = some-injective (sym (rw is refl) ∙ e) in
      let within : (c.start ≤ addr) × (addr < c.end) = (ground (arith, is), ground (arith, is)) in
      subst (λ (x : Block). (x.start ≤ addr) × (addr < x.end)) same within
  | inr off ↦ get_mapping-holds cs addr b (sym (rw off refl) ∙ e)
]

-- A test that is passed
passed :
    (c : Bool) (k : ℕ) (f : Fault) (fd offset page : ℕ) (m : Memory)
    → (if c then code k else f) ≡ loads fd offset page m
    → (c ≡ false) × (f ≡ loads fd offset page m)
passed true k f fd offset page m e = absurd (grind (arith, e))
passed false k f fd offset page m e = (refl, e)

-- A page that is mapped for an access, and what is loaded into it
pub record Served (s : State) (is_open : ℕ → Bool) (address : ℕ) (write : Bool) (fd offset page : ℕ)
    (m : Memory) : Type 0 where
  pub block : Block
  pub found : get_mapping s.mmap_blocks address ≡ some block
  pub holds : (block.start ≤ address) × (address < block.end)
  pub allowed : (if write then prot_write block.prot else prot_read block.prot) ≡ true
  pub opened : is_open fd ≡ true
  pub around : (page ≤ address) × (address < page + 0x1000)
  pub of_file :
      (fd ≡ block.fd)
      × (offset ≡ add32 block.offset (mul32 (sub32 page block.start / 0x1000) 0x1000))
  pub maps : map s.memory page 0 (page_flags block.prot) ≡ done m
  pub mapped : Page s.memory page m

allowed_of :
    (r w write : Bool)
    → (not r && not write) ≡ false
    → (not w && write) ≡ false
    → (if write then w else r) ≡ true
allowed_of true w false h k = refl
allowed_of false w false h k = absurd (grind (arith, h))
allowed_of r true true h k = refl
allowed_of r false true h k = absurd (grind (arith, k))

not-false : (b : Bool) → not b ≡ false → b ≡ true
not-false true h = refl
not-false false h = absurd (grind (arith, h))

memory_in : Memory → Fault → Memory
memory_in d (code k) = d
memory_in d fails = d
memory_in d (loads fd offset page m) = m

place_in : ℕ × ℕ × ℕ → Fault → ℕ × ℕ × ℕ
place_in d (code k) = d
place_in d fails = d
place_in d (loads fd offset page m) = (fd, offset, page)

-- What is loaded, where the map returns
loaded-loads :
    (f g q : ℕ) (o : Outcome) (fd offset page : ℕ) (m : Memory)
    → loaded f g q o ≡ loads fd offset page m
    → (o ≡ done m) × ◌≡◌ {A = ℕ × ℕ × ℕ} (f, g, q) (fd, offset, page)
unfolding memory_in place_in
loaded-loads f g q (done m') fd offset page m e =
    (ap (λ (x : Fault). done (memory_in m' x)) e, ap (place_in (f, g, q)) e)
loaded-loads f g q panic fd offset page m e = absurd (grind (arith, e))
loaded-loads f g q stray fd offset page m e = absurd (grind (arith, e))

page_flags-present : (prot : ℕ) → page_flags prot % 2 ≡ 1
page_flags-present prot = elim (Bool-cases (prot_write prot)) [
  | inl is ↦ rw is refl
  | inr off ↦ rw off refl
]

fault_in-Served :
    (s : State) (is_open : ℕ → Bool) (address : ℕ) (write : Bool) (fd offset page : ℕ) (m : Memory)
    (b : Block)
    → IsValid s.memory.pmm
    → address < 2 ^ 32
    → get_mapping s.mmap_blocks address ≡ some b
    → fault_in s.memory is_open address write b ≡ loads fd offset page m
    → Served s is_open address write fd offset page m
fault_in-Served s is_open address write fd offset page m b valid word found e =
    let at = address / 0x1000 * 0x1000 in
    let from = add32 b.offset (mul32 (sub32 at b.start / 0x1000) 0x1000) in
    let mapped = map s.memory at 0 (page_flags b.prot) in
    let end = loaded b.fd from at mapped in
    let after7 = if is_mapped s.memory at then code 7 else end in
    let after6 = if not (is_open b.fd) then code 6 else after7 in
    let after5 = if not (map_private b.type || map_shared b.type) then code 5 else after6 in
    let after4 = if not (prot_write b.prot) && write then code 4 else after5 in
    let after3 = if not (prot_read b.prot) && not write then code 3 else after4 in
    let (some_access, e3) = passed (b.prot == 0) 2 after3 fd offset page m e in
    let (readable, e4) =
      passed (not (prot_read b.prot) && not write) 3 after4 fd offset page m e3 in
    let (writable, e5) = passed (not (prot_write b.prot) && write) 4 after5 fd offset page m e4 in
    let (kind, e6) =
      passed (not (map_private b.type || map_shared b.type)) 5 after6 fd offset page m e5 in
    let (opened, e7) = passed (not (is_open b.fd)) 6 after7 fd offset page m e6 in
    let (free, last) = passed (is_mapped s.memory at) 7 end fd offset page m e7 in
    let (returns, same) = loaded-loads b.fd from at mapped fd offset page m last in
    subst (λ (x : ℕ × ℕ × ℕ). Served s is_open address write x.0 x.1 x.2 m) same
      (record {
        block = b;
        found = found;
        holds = get_mapping-holds s.mmap_blocks address b found;
        allowed = allowed_of (prot_read b.prot) (prot_write b.prot) write readable writable;
        opened = not-false (is_open b.fd) opened;
        around = (omega arith, omega arith);
        of_file = (refl, refl);
        maps = returns;
        mapped =
            map-Page s.memory m at (page_flags b.prot) valid (omega arith) (omega (arith, word))
              (page_flags-present b.prot) returns;
      })

-- A page fault is served only where a block of the process holds the address, allows the access and has an
-- open descriptor, and the page was not mapped. Then the page around the address, and no other below the
-- recursive window, has changed its translation: it is that to a frame that was free and is taken now. What
-- is loaded into it is of the block's file, as far behind the block's offset as the page is behind the
-- block's start. The allocator is valid, and the address is a word.
pub handle_pagefault-Served :
    (s : State) (is_open : ℕ → Bool) (address : ℕ) (write : Bool) (fd offset page : ℕ) (m : Memory)
    → IsValid s.memory.pmm
    → address < 2 ^ 32
    → handle_pagefault s is_open address write ≡ loads fd offset page m
    → Served s is_open address write fd offset page m
unfolding handle_pagefault
handle_pagefault-Served s is_open address write fd offset page m valid word e =
    elim (Option-cases (get_mapping s.mmap_blocks address)) [
      | inl nothing ↦
          let got : handle_pagefault s is_open address write ≡ code 1 =
            rw (handle_pagefault, nothing) refl in
          absurd (grind (arith, got, e))
      | inr (b, found) ↦
          let got : handle_pagefault s is_open address write
              ≡ fault_in s.memory is_open address write b =
            rw (handle_pagefault, found) refl in
          fault_in-Served s is_open address write fd offset page m b valid word found (sym got ∙ e)
    ]
