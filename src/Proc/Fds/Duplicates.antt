-- ===== src/Proc/Fds/Duplicates.antt =====
-- `dup2` of kernel/src/int/syscall.c, which neither counts its slot nor takes a link of the node.
use scales_os.Prelude.{
  ℕ, ◌+◌, ◌^◌, ◌<◌, ◌≡◌, ◌≢◌, refl, sym, ap, ◌∙◌, false, Option, none, some, List, [], ◌∷◌, ◌++◌,
  length, length-append, arith, add32, leb, ◌==◌, set,
}
use scales_os.Proc.Fds.{
  Table, Store, dup2_fd, close_fd, first_free, open_node, fd2fdt, drop_fd, dup2, dup2_grow,
  dup2_target, update,
}
use scales_os.Proc.Fds.Opening.{used, IsValid, close_fd-Closed, fd2fdt-cases, fd2fdt-of}

-- A table with every slot in use.
pub data Full : List (Option ℕ) → Type 0 where
  full_nil : Full []
  full_cons : {slots : List (Option ℕ)} (p : ℕ) → Full slots → Full (some p ∷ slots)

first_free-Full : {slots : List (Option ℕ)} (k : ℕ) → Full slots → first_free k slots ≡ none
unfolding first_free
first_free-Full k full_nil = refl
first_free-Full k (full_cons p f) = first_free-Full (k + 1) f

Full-append : {slots : List (Option ℕ)} (p : ℕ) → Full slots → Full (slots ++ (some p ∷ []))
Full-append p full_nil = full_cons p full_nil
Full-append p (full_cons q f) = full_cons q (Full-append p f)

set-append_last :
    (slots : List (Option ℕ)) (p : ℕ)
    → set (slots ++ (none ∷ [])) (length slots) (some p) ≡ slots ++ (some p ∷ [])
set-append_last [] p = refl
set-append_last (q ∷ slots) p = ap (λ (l : List (Option ℕ)). q ∷ l) (set-append_last slots p)

used-Full : {slots : List (Option ℕ)} → Full slots → used slots ≡ length slots
unfolding used
used-Full full_nil = refl
used-Full (full_cons p f) = omega (arith, used-Full f)

-- A table with one slot more.
abbrev pub longer : Table → Option ℕ → Table
longer t slot = record t { nodes = t.nodes ++ (slot ∷ []); size = t.size + 1 }

dup2_grow-longer : (t : Table) → t.size + 1 < 2 ^ 32 → dup2_grow t t.size ≡ longer t none
unfolding dup2_grow
dup2_grow-longer t w = ground (arith, w)

-- `dup2` to the slot just behind the table.
dup2-longer :
    (t : Table) (s : Store) (fd1 p : ℕ)
    → length t.nodes ≡ t.size
    → t.size + 1 < 2 ^ 32
    → fd2fdt t fd1 ≡ some p
    → (s' : Store) × (dup2 t s fd1 (some t.size) ≡ dup2_fd t.size (longer t (some p)) s')
unfolding dup2 dup2_target
dup2-longer t s fd1 p sized w h =
    let len : leb (length (t.nodes ++ (none ∷ []))) t.size ≡ false =
      ground (arith, length-append t.nodes (none ∷ [])) in
    let last : set (t.nodes ++ (none ∷ [])) t.size (some p) ≡ t.nodes ++ (some p ∷ []) =
      ap (λ (n : ℕ). set (t.nodes ++ (none ∷ [])) n (some p)) (sym sized)
      ∙ set-append_last t.nodes p in
    let s' = record s {
      fds = update s.fds p (record (s.fds p) { links = add32 (s.fds p).links 1 });
    } in
    (
      s',
      rw (h, dup2)
          (rw (dup2_grow-longer t w) (
            rw len (
              ap
                (λ (l : List (Option ℕ)).
                  dup2_fd t.size (record { nodes = l; amount = t.amount; size = t.size + 1 }) s')
                last))),
    )

-- Once `dup2` has put a copy of an open descriptor behind a full table that counts right, the table counts one slot too few, and opening
-- anything finds no slot and reaches `__builtin_unreachable`.
pub open_node-dup2 :
    (t : Table) (s : Store) (fd1 p node : ℕ)
    → IsValid t
    → Full t.nodes
    → t.size + 1 < 2 ^ 32
    → fd2fdt t fd1 ≡ some p
    → (t' : Table) × (s' : Store) × (dup2 t s fd1 (some t.size) ≡ dup2_fd t.size t' s')
      × (open_node t' s' node ≡ none)
unfolding open_node
open_node-dup2 t s fd1 p node v full w h =
    let d = dup2-longer t s fd1 p v.sized w h in
    let short : (t.size + 1 == t.amount) ≡ false = ground (arith, used-Full full) in
    (longer t (some p), d.0, d.1, rw short (rw (first_free-Full 0 (Full-append p full)) refl))

drop_fd-released :
    (s : Store) (p : ℕ)
    → s.links (s.fds p).node ≡ 1
    → (drop_fd s p).released ≡ (s.fds p).node ∷ s.released
unfolding drop_fd
drop_fd-released s p one = rw one refl

-- Two descriptors of one `fd_t`, as `dup2` leaves them, in a table that counts right: closing either one frees a node that has a
-- single link, though the other descriptor still leads to it.
pub close_fd-shared :
    (t : Table) (s : Store) (fd fd' p : ℕ)
    → IsValid t
    → t.size < 2 ^ 32
    → fd2fdt t fd ≡ some p
    → fd2fdt t fd' ≡ some p
    → fd' ≢ fd
    → s.links (s.fds p).node ≡ 1
    → (t' : Table) × (s' : Store) × (close_fd t s fd ≡ some (t', s'))
      × (s'.released ≡ (s.fds p).node ∷ s.released)
      × (fd2fdt t' fd' ≡ some p)
close_fd-shared t s fd fd' p v w h h' ne one =
    let c = close_fd-Closed t s fd p v w h in
    let other = fd2fdt-cases t fd' p h' in
    (
      c.table,
      c.store,
      c.returned_is,
      ap (λ (x : Store). x.released) c.store_is ∙ drop_fd-released s p one,
      fd2fdt-of c.table fd' p (ground (arith, other.0, c.same_size)) (c.others fd' ne ∙ other.1),
    )
