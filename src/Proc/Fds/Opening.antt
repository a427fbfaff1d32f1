-- ===== src/Proc/Fds/Opening.antt =====
-- Opening and closing descriptors, in kernel/src/proc/process.c: the table keeps its count.
use scales_os.Prelude.{
  sub32, true, if◌then◌else◌, ℕ, zero, suc, ◌+◌, ◌^◌, ◌≤◌, ◌<◌, ◌≡◌, ◌≢◌, ◌⊎◌, refl, sym, ap, ◌∙◌,
  false, Bool-cases, Option, none, some, List, [], ◌∷◌, ◌++◌, length, get_elem?, set, take,
  take-length, get_elem?-set_self, get_elem?-set_ne, get_elem?-append_last, get_elem?-append_ne,
  arith, inl, inr, length-set, length-append, leb, ◌==◌,
}
use scales_os.Proc.Fds.{
  Fd, Table, Store, update, first_free, open_node, vfs_close, drop_fd, close_fd, fd2fdt,
}

-- The number of slots in use.
unfoldable pub used : List (Option ℕ) → ℕ
used [] = 0
used (none ∷ slots) = used slots
used (some p ∷ slots) = used slots + 1

-- The table has its size, and counts the slots in use.
pub record IsValid (t : Table) : Type 0 where
  pub sized : length t.nodes ≡ t.size
  pub counted : t.amount ≡ used t.nodes

used-le : (slots : List (Option ℕ)) → used slots ≤ length slots
unfolding used
used-le [] = omega arith
used-le (none ∷ slots) = omega (arith, used-le slots)
used-le (some p ∷ slots) = omega (arith, used-le slots)

used-append_some :
    (slots : List (Option ℕ)) (p : ℕ) → used (slots ++ (some p ∷ [])) ≡ used slots + 1
unfolding used
used-append_some [] p = omega arith
used-append_some (none ∷ slots) p = used-append_some slots p
used-append_some (some q ∷ slots) p = omega (arith, used-append_some slots p)

used-set-some :
    (slots : List (Option ℕ)) (i p : ℕ)
    → get_elem? slots i ≡ some none
    → used (set slots i (some p)) ≡ used slots + 1
unfolding used
used-set-some [] i p e = ground arith
used-set-some (none ∷ slots) zero p e = refl
used-set-some (some q ∷ slots) zero p e = ground arith
used-set-some (none ∷ slots) (suc i) p e = used-set-some slots i p e
used-set-some (some q ∷ slots) (suc i) p e = omega (arith, used-set-some slots i p e)

pub used-set-none :
    (slots : List (Option ℕ)) (i p : ℕ)
    → get_elem? slots i ≡ some (some p)
    → used (set slots i none) + 1 ≡ used slots
unfolding used
used-set-none [] i p e = ground arith
used-set-none (none ∷ slots) zero p e = ground arith
used-set-none (some q ∷ slots) zero p e = refl
used-set-none (none ∷ slots) (suc i) p e = used-set-none slots i p e
used-set-none (some q ∷ slots) (suc i) p e = omega (arith, used-set-none slots i p e)

-- What the search from index `k` on finds: the slot `i` behind it, with all before it in use.
pub record Found (slots : List (Option ℕ)) (k i : ℕ) : Type 0 where
  pub found : first_free k slots ≡ some (k + i)
  pub within : i < length slots
  pub free : get_elem? slots i ≡ some none
  pub before : used (take i slots) ≡ i

pub first_free-cases :
    (slots : List (Option ℕ)) (k : ℕ)
    → ((first_free k slots ≡ none) × (used slots ≡ length slots)) ⊎ ((i : ℕ) × Found slots k i)
unfolding first_free used
first_free-cases [] k = inl (refl, refl)
first_free-cases (none ∷ slots) k =
    inr (
      0,
      record { found = ap some (omega arith); within = omega arith; free = refl; before = refl },
    )
first_free-cases (some p ∷ slots) k = elim (first_free-cases slots (k + 1)) [
  | inl full ↦ inl (full.0, omega (arith, full.1))
  | inr (i, f) ↦ inr (
    suc i,
    record {
      found = f.found ∙ ap some (omega arith);
      within = omega (arith, f.within);
      free = f.free;
      before = omega (arith, f.before);
    },
  )
]

-- Descriptor `fd` of the table is open on `node` from its start, with all before it in use; the
-- other descriptors are as they were, and the table still counts its slots.
pub record Opened (t : Table) (s : Store) (node : ℕ) (out : Option (ℕ × Table × Store))
    : Type 0 where
  pub fd : ℕ
  pub table : Table
  pub store : Store
  pub returned_is : out ≡ some (fd, table, store)
  pub lowest : used (take fd t.nodes) ≡ fd
  pub was_free : (fd ≡ t.size) ⊎ (get_elem? t.nodes fd ≡ some none)
  pub slot : fd2fdt table fd ≡ some s.fresh
  pub open_at : store.fds s.fresh ≡ record { node = node; offset = 0; links = 1 }
  pub others : (j : ℕ) → j ≢ fd → get_elem? table.nodes j ≡ get_elem? t.nodes j
  pub valid : IsValid table

pub fd2fdt-of :
    (t : Table) (i p : ℕ) → i < t.size → get_elem? t.nodes i ≡ some (some p) → fd2fdt t i ≡ some p
unfolding fd2fdt
fd2fdt-of t i p lt e = let b : leb t.size i ≡ false = ground arith in rw (b, e) refl

fd2fdt-free : (t : Table) (i : ℕ) → get_elem? t.nodes i ≡ some none → fd2fdt t i ≡ none
unfolding fd2fdt
fd2fdt-free t i e = elim (Bool-cases (leb t.size i)) [
  | inl past ↦ rw past refl
  | inr within ↦ rw (within, e) refl
]

update_self : (f : ℕ → Fd) (i : ℕ) (v : Fd) → update f i v i ≡ v
update_self f i v = ground arith

-- A table that counts its slots and is not at its largest size always finds a slot: opening a node
-- gives it the lowest descriptor that is free, or the first one behind the table.
pub open_node-Opened :
    (t : Table) (s : Store) (node : ℕ)
    → IsValid t
    → t.size + 1 < 2 ^ 32
    → Opened t s node (open_node t s node)
unfolding open_node
open_node-Opened t s node v w = elim (Bool-cases (t.size == t.amount)) [
  | inl full ↦
      let e : t.size ≡ t.amount = ground arith in
      let sz = sym v.sized in
      let all_used = ap (λ (n : ℕ). used (take n t.nodes)) sz ∙ ap used (take-length t.nodes) in
      let last =
        ap (λ (n : ℕ). get_elem? (t.nodes ++ (some s.fresh ∷ [])) n) sz
        ∙ get_elem?-append_last t.nodes (some s.fresh) in
      rw full record {
        fd = t.size;
        table = _;
        store = _;
        returned_is = refl;
        lowest = omega (arith, all_used);
        was_free = inl refl;
        slot = fd2fdt-of _ t.size s.fresh (omega arith) last;
        open_at = update_self s.fds s.fresh _;
        others = λ j ne.
            get_elem?-append_ne t.nodes (some s.fresh) j
              (λ (h : j ≡ length t.nodes). ne (h ∙ v.sized));
        valid = record {
          sized = omega (arith, length-append t.nodes (some s.fresh ∷ []));
          counted = omega (arith, used-append_some t.nodes s.fresh, used-le t.nodes);
        };
      }
  | inr room ↦ elim (first_free-cases t.nodes 0) [
    | inl none_free ↦ absurd (ground (arith, none_free.1))
    | inr (i, f) ↦
        let hit : first_free 0 t.nodes ≡ some i = f.found ∙ ap some (omega arith) in
        rw room (
          rw hit record {
            fd = i;
            table = _;
            store = _;
            returned_is = refl;
            lowest = f.before;
            was_free = inr f.free;
            slot =
                fd2fdt-of _ i s.fresh (omega (arith, f.within))
                  (get_elem?-set_self t.nodes i (some s.fresh) f.within);
            open_at = update_self s.fds s.fresh _;
            others = λ j ne. get_elem?-set_ne t.nodes i j (some s.fresh) ne;
            valid = record {
              sized = omega (arith, length-set t.nodes i (some s.fresh));
              counted = omega (arith, used-set-some t.nodes i s.fresh f.free, used-le t.nodes);
            };
          })
  ]
]

-- Closing descriptor `fd`, open by the `fd_t` `p`: it is free, and the rest of the table stays.
pub record Closed (t : Table) (s : Store) (fd p : ℕ) (out : Option (Table × Store)) : Type 0 where
  pub table : Table
  pub store : Store
  pub returned_is : out ≡ some (table, store)
  pub store_is : store ≡ drop_fd s p
  pub node_links : store.links (s.fds p).node ≡ sub32 (s.links (s.fds p).node) 1
  pub fd_links : (store.fds p).links ≡ sub32 (s.fds p).links 1
  pub freed :
      store.released
      ≡ (if sub32 (s.links (s.fds p).node) 1 == 0 then (s.fds p).node ∷ s.released else s.released)
  pub slot : fd2fdt table fd ≡ none
  pub others : (j : ℕ) → j ≢ fd → get_elem? table.nodes j ≡ get_elem? t.nodes j
  pub same_size : table.size ≡ t.size
  pub valid : IsValid table

drop_fd-links :
    (s : Store) (p : ℕ) → (drop_fd s p).links (s.fds p).node ≡ sub32 (s.links (s.fds p).node) 1
unfolding drop_fd vfs_close
drop_fd-links s p = let e : ((s.fds p).node == (s.fds p).node) ≡ true = ground arith in rw e refl

drop_fd-fds : (s : Store) (p : ℕ) → ((drop_fd s p).fds p).links ≡ sub32 (s.fds p).links 1
unfolding drop_fd vfs_close
drop_fd-fds s p = let e : (p == p) ≡ true = ground arith in rw e refl

drop_fd-freed :
    (s : Store) (p : ℕ)
    → (drop_fd s p).released
      ≡ (if sub32 (s.links (s.fds p).node) 1 == 0 then (s.fds p).node ∷ s.released else s.released)
unfolding drop_fd vfs_close
drop_fd-freed s p = refl

pub fd2fdt-cases :
    (t : Table) (fd p : ℕ)
    → fd2fdt t fd ≡ some p
    → (leb t.size fd ≡ false) × (get_elem? t.nodes fd ≡ some (some p))
unfolding fd2fdt
fd2fdt-cases t fd p h = ground arith

-- Closing an open descriptor of a table that counts right, of less than 2 ^ 32 slots, frees its slot
-- and no other, keeps the count right, and takes one link, modulo 2 ^ 32, from the `fd_t` and one
-- from the node, which is freed when none is left.
pub close_fd-Closed :
    (t : Table) (s : Store) (fd p : ℕ)
    → IsValid t
    → t.size < 2 ^ 32
    → fd2fdt t fd ≡ some p
    → Closed t s fd p (close_fd t s fd)
unfolding close_fd
close_fd-Closed t s fd p v w h =
    let (within, slot) = fd2fdt-cases t fd p h in
    let lt : fd < length t.nodes = ground (arith, within) in
    let fewer = used-set-none t.nodes fd p slot in
    rw (within, slot)
      record {
        table = _;
        store = _;
        returned_is = refl;
        store_is = refl;
        node_links = drop_fd-links s p;
        fd_links = drop_fd-fds s p;
        freed = drop_fd-freed s p;
        slot = fd2fdt-free _ fd (get_elem?-set_self t.nodes fd none lt);
        others = λ j ne. get_elem?-set_ne t.nodes fd j none ne;
        same_size = refl;
        valid = record {
          sized = omega (arith, length-set t.nodes fd none);
          counted = omega (arith, fewer, used-le t.nodes);
        };
      }
