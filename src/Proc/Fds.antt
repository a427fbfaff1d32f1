-- ===== src/Proc/Fds.antt =====
-- The file descriptors of a process, in kernel/src/proc/process.c, with `dup2` of
-- kernel/src/int/syscall.c and kernel/src/util/fd.c. A slot of the table points to a `fd_t` by its
-- number, a `fd_t` to a node of the file system by its number; `none` as a result stands for a
-- read through NULL, a write past the table, or `__builtin_unreachable`.
pub mod Opening
pub mod Forking
pub mod Duplicates
mod Tests
use scales_os.Prelude.{
  ℕ, zero, suc, ◌+◌, Bool, true, false, not, ◌&&◌, ◌||◌, Option, none, some, List, [], ◌∷◌, ◌++◌,
  length, get_elem?, set, add32, sub32, ltb, leb, ◌==◌, if◌then◌else◌,
}

-- `fd_t`
pub record Fd : Type 0 where
  pub node : ℕ
  pub offset : ℕ
  pub links : ℕ

-- `fd_list_t` without its lock; a slot is NULL or points to a `fd_t`.
pub record Table : Type 0 where
  pub nodes : List (Option ℕ)
  pub amount : ℕ
  pub size : ℕ

-- What the tables of all processes share: the `fd_t`s, the first unused number among them, the
-- `links` of the nodes, and the nodes that have been freed, the last one first.
pub record Store : Type 0 where
  pub fds : ℕ → Fd
  pub fresh : ℕ
  pub links : ℕ → ℕ
  pub released : List ℕ

-- A function changed at one number.
abbrev pub update {ℓ} : {A : Type ℓ} → (ℕ → A) → ℕ → A → ℕ → A
update f i v j = if j == i then v else f j

-- `k_malloc(sizeof(fd_t))` and the writes to it
abbrev pub new_fd : Fd → Store → Store
new_fd fd s = record s { fds = update s.fds s.fresh fd; fresh = s.fresh + 1 }

-- The first NULL slot from index `i` on.
pub first_free : (i : ℕ) → List (Option ℕ) → Option ℕ
first_free i [] = none
first_free i (none ∷ slots) = some i
first_free i (some p ∷ slots) = first_free (i + 1) slots

-- `k_proc_process_open_node`
pub open_node : Table → Store → (node : ℕ) → Option (ℕ × Table × Store)
open_node t s node =
    let s' = new_fd (record { node = node; offset = 0; links = 1 }) s in
    if t.size == t.amount
    then some (
      t.size,
      record {
        nodes = t.nodes ++ (some s.fresh ∷ []);
        amount = add32 t.amount 1;
        size = add32 t.size 1;
      },
      s',
    )
    else elim (first_free 0 t.nodes) [
      | none ↦ none
      | some i ↦
          some (i, record t { nodes = set t.nodes i (some s.fresh); amount = add32 t.amount 1 }, s')
    ]

-- `k_fs_vfs_close` of a node
pub vfs_close : Store → (node : ℕ) → Store
vfs_close s node =
    let left = sub32 (s.links node) 1 in
    record s {
      links = update s.links node left;
      released = if left == 0 then node ∷ s.released else s.released;
    }

-- What closing does once it has the `fd_t`: the node, then the `fd_t`, which is freed with its last
-- link.
pub drop_fd : Store → (p : ℕ) → Store
unfolding vfs_close
drop_fd s p =
    let s' = vfs_close s (s.fds p).node in
    record s' { fds = update s.fds p (record (s.fds p) { links = sub32 (s.fds p).links 1 }) }

-- `k_proc_process_close_fd`
pub close_fd : Table → Store → (fd : ℕ) → Option (Table × Store)
close_fd t s fd = if leb t.size fd then some (t, s) else elim (get_elem? t.nodes fd) [
  | none ↦ none
  | some slot ↦ elim slot [
    | none ↦ none
    | some p ↦
        some (record t { nodes = set t.nodes fd none; amount = sub32 t.amount 1 }, drop_fd s p)
  ]
]

-- `fd2fdt`, of a descriptor that is not negative
unfoldable pub fd2fdt : Table → (fd : ℕ) → Option ℕ
fd2fdt t fd =
    if leb t.size fd then none else elim (get_elem? t.nodes fd) [ none ↦ none | some slot ↦ slot ]

-- The copy of one descriptor that `fork` makes.
pub copy_fd : Store → (p : ℕ) → Store
copy_fd s p =
    let fd = s.fds p in
    let s' = new_fd (record fd { links = 1 }) s in
    record s' { links = update s.links fd.node (add32 (s.links fd.node) 1) }

-- The loop of `k_proc_process_fork` over the slots.
pub fork_slots : List (Option ℕ) → Store → List (Option ℕ) × Store
fork_slots [] s = ([], s)
fork_slots (none ∷ slots) s = let (copies, s') = fork_slots slots s in (none ∷ copies, s')
fork_slots (some p ∷ slots) s =
    let (copies, s') = fork_slots slots (copy_fd s p) in (some s.fresh ∷ copies, s')

-- The table of the new process.
pub fork_fds : Table → Store → Table × Store
fork_fds t s = let (copies, s') = fork_slots t.nodes s in (record t { nodes = copies }, s')

-- The loop of `k_proc_process_exit` over the slots from `i` on.
pub close_from : (i left : ℕ) → Table → Store → Option (Table × Store)
close_from i zero t s = some (t, s)
close_from i (suc left) t s = elim (fd2fdt t i) [
  | none ↦ close_from (i + 1) left t s
  | some p ↦ elim (close_fd t s i) [ none ↦ none | some (t', s') ↦ close_from (i + 1) left t' s' ]
]

pub exit_fds : Table → Store → Option (Table × Store)
exit_fds t s = close_from 0 t.size t s

-- `k_proc_process_prepare_exec`, which closes what is open with O_CLOEXEC.
pub close_on_exec : (cloexec : ℕ → Bool) → (i left : ℕ) → Table → Store → Option (Table × Store)
close_on_exec cloexec i zero t s = some (t, s)
close_on_exec cloexec i (suc left) t s = elim (fd2fdt t i) [
  | none ↦ close_on_exec cloexec (i + 1) left t s
  | some p ↦ elim (cloexec (s.fds p).node) [
    | false ↦ close_on_exec cloexec (i + 1) left t s
    | true ↦ elim (close_fd t s i) [
      | none ↦ none
      | some (t', s') ↦ close_on_exec cloexec (i + 1) left t' s'
    ]
  ]
]

-- What `dup2` gives back: a descriptor or -EINVAL.
pub data Dup2 : Type 0 where
  dup2_fd : ℕ → Table → Store → Dup2
  dup2_invalid : Dup2
  dup2_past_table : Dup2

-- The slot that `dup2` writes; `none` stands for a negative number.
pub dup2_target : Table → Option ℕ → ℕ
dup2_target t none = elim (first_free 0 t.nodes) [ none ↦ t.size | some i ↦ i ]
dup2_target t (some fd) = fd

-- The growth of the table by `size - fd2 + 1`, which is 1 for the slot just behind the table. By any
-- other number it gets no slot that `dup2` can write.
pub dup2_grow : Table → ℕ → Table
dup2_grow t fd =
    let difference = add32 (sub32 t.size fd) 1 in
    let nodes = if difference == 1 then t.nodes ++ (none ∷ []) else t.nodes in
    if leb t.size fd then record t { size = add32 t.size difference; nodes = nodes } else t

-- `sys_dup2` of two descriptors, the first one not negative
pub dup2 : Table → Store → ℕ → Option ℕ → Dup2
dup2 t s fd1 fd2 =
    let target = dup2_target t fd2 in
    let t' = dup2_grow t target in
    elim (fd2fdt t fd1) [
      | none ↦ dup2_invalid
      | some p ↦
          if leb (length t'.nodes) target
          then dup2_past_table
          else dup2_fd target (record t' { nodes = set t'.nodes target (some p) })
              (record s {
                fds = update s.fds p (record (s.fds p) { links = add32 (s.fds p).links 1 });
              })
    ]
