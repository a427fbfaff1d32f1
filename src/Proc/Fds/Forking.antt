-- ===== src/Proc/Fds/Forking.antt =====
-- The descriptors of a forked process, in kernel/src/proc/process.c.
use scales_os.Prelude.{
  ℕ, suc, ◌+◌, ◌^◌, ◌<◌, ◌≡◌, refl, sym, ap, ◌∙◌, Option, none, some, List, [], ◌∷◌, length, arith,
  ◌==◌, if◌then◌else◌,
}
use scales_os.Proc.Fds.{Fd, Table, Store, copy_fd, fork_slots, fork_fds}
use scales_os.Proc.Fds.Opening.{used, IsValid}

-- Every slot in use points below `k`.
unfoldable pub Below : ℕ → List (Option ℕ) → Type 0
Below k [] = Unit
Below k (none ∷ slots) = Below k slots
Below k (some p ∷ slots) = (p < k) × Below k slots

-- How many slots lead to the node `n`.
unfoldable pub refs : (ℕ → Fd) → List (Option ℕ) → ℕ → ℕ
refs fds [] n = 0
refs fds (none ∷ slots) n = refs fds slots n
refs fds (some p ∷ slots) n = (if n == (fds p).node then 1 else 0) + refs fds slots n

-- The slot of a copy: a `fd_t` of its own, for the same node and offset.
unfoldable pub Copies : (ℕ → Fd) → (ℕ → Fd) → (slots copies : List (Option ℕ)) → Type 0
Copies fds fds' [] [] = Unit
Copies fds fds' (none ∷ slots) (none ∷ copies) = Copies fds fds' slots copies
Copies fds fds' (some p ∷ slots) (some q ∷ copies) =
    (fds' q ≡ record (fds p) { links = 1 }) × Copies fds fds' slots copies
Copies fds fds' (some p ∷ slots) (none ∷ copies) = ⊥
Copies fds fds' (none ∷ slots) (some q ∷ copies) = ⊥
Copies fds fds' (some p ∷ slots) [] = ⊥
Copies fds fds' (none ∷ slots) [] = ⊥
Copies fds fds' [] (c ∷ copies) = ⊥

Below-suc : (k : ℕ) (slots : List (Option ℕ)) → Below k slots → Below (k + 1) slots
unfolding Below
Below-suc k [] b = tt
Below-suc k (none ∷ slots) b = Below-suc k slots b
Below-suc k (some p ∷ slots) b = (omega (arith, b.0), Below-suc k slots b.1)

-- What depends only on the `fd_t`s below `k`.
Copies-agree :
    (fds fds₀ fds' : ℕ → Fd) (k : ℕ) (slots copies : List (Option ℕ))
    → ((p : ℕ) → p < k → fds p ≡ fds₀ p)
    → Below k slots
    → Copies fds fds' slots copies
    → Copies fds₀ fds' slots copies
unfolding Copies Below
Copies-agree fds fds₀ fds' k [] [] same b c = tt
Copies-agree fds fds₀ fds' k (none ∷ slots) (none ∷ copies) same b c =
    Copies-agree fds fds₀ fds' k slots copies same b c
Copies-agree fds fds₀ fds' k (some p ∷ slots) (some q ∷ copies) same b c = (
  c.0 ∙ ap (λ (fd : Fd). record fd { links = 1 }) (same p b.0),
  Copies-agree fds fds₀ fds' k slots copies same b.1 c.1,
)
Copies-agree fds fds₀ fds' k (some p ∷ slots) (none ∷ copies) same b c = absurd c
Copies-agree fds fds₀ fds' k (none ∷ slots) (some q ∷ copies) same b c = absurd c
Copies-agree fds fds₀ fds' k (some p ∷ slots) [] same b c = absurd c
Copies-agree fds fds₀ fds' k (none ∷ slots) [] same b c = absurd c
Copies-agree fds fds₀ fds' k [] (x ∷ copies) same b c = absurd c

refs-agree :
    (fds fds₀ : ℕ → Fd) (k : ℕ) (slots : List (Option ℕ)) (n : ℕ)
    → ((p : ℕ) → p < k → fds p ≡ fds₀ p)
    → Below k slots
    → refs fds slots n ≡ refs fds₀ slots n
unfolding refs Below
refs-agree fds fds₀ k [] n same b = refl
refs-agree fds fds₀ k (none ∷ slots) n same b = refs-agree fds fds₀ k slots n same b
refs-agree fds fds₀ k (some p ∷ slots) n same b =
    let ih = refs-agree fds fds₀ k slots n same b.1 in rw (same p b.0) (omega (arith, ih))

-- What the loop over the slots leaves.
record Forked (slots : List (Option ℕ)) (s : Store) (out : List (Option ℕ) × Store) : Type 0 where
  copies : Copies s.fds out.1.fds slots out.0
  counts : used out.0 ≡ used slots
  sizes : length out.0 ≡ length slots
  links :
      (n : ℕ)
      → s.links n + refs s.fds slots n < 2 ^ 32
      → out.1.links n ≡ s.links n + refs s.fds slots n
  kept : (p : ℕ) → p < s.fresh → out.1.fds p ≡ s.fds p
  released : out.1.released ≡ s.released

copy_fd-below : (s : Store) (p q : ℕ) → q < s.fresh → (copy_fd s p).fds q ≡ s.fds q
unfolding copy_fd
copy_fd-below s p q lt = ground (arith, lt)

copy_fd-fresh : (s : Store) (p : ℕ) → (copy_fd s p).fds s.fresh ≡ record (s.fds p) { links = 1 }
unfolding copy_fd
copy_fd-fresh s p = ground arith

copy_fd-links :
    (s : Store) (p n : ℕ)
    → s.links n + (if n == (s.fds p).node then 1 else 0) < 2 ^ 32
    → (copy_fd s p).links n ≡ s.links n + (if n == (s.fds p).node then 1 else 0)
unfolding copy_fd
copy_fd-links s p n lt = ground (arith, lt)

copy_fd-lt : (s : Store) (p q : ℕ) → q < s.fresh + 1 → q < (copy_fd s p).fresh
unfolding copy_fd
copy_fd-lt s p q lt = lt

copy_fd-released : (s : Store) (p : ℕ) → (copy_fd s p).released ≡ s.released
unfolding copy_fd
copy_fd-released s p = refl

fork_slots-Forked :
    (slots : List (Option ℕ)) (s : Store)
    → Below s.fresh slots
    → Forked slots s (fork_slots slots s)
unfolding fork_slots Copies used refs Below copy_fd
fork_slots-Forked [] s b = record {
  copies = tt;
  counts = refl;
  sizes = refl;
  links = λ n lt. omega arith;
  kept = λ p lt. refl;
  released = refl;
}
fork_slots-Forked (none ∷ slots) s b =
    let f = fork_slots-Forked slots s b in
    record {
      copies = f.copies;
      counts = f.counts;
      sizes = ap suc f.sizes;
      links = f.links;
      kept = f.kept;
      released = f.released;
    }
fork_slots-Forked (some p ∷ slots) s b =
    let s1 = copy_fd s p in
    let f = fork_slots-Forked slots s1 (Below-suc s.fresh slots b.1) in
    let below = λ (q : ℕ) (lt : q < s.fresh). copy_fd-below s p q lt in
    let same = λ (n : ℕ). refs-agree s1.fds s.fds s.fresh slots n below b.1 in
    record {
      copies = (
        f.kept s.fresh (copy_fd-lt s p s.fresh (omega arith)) ∙ copy_fd-fresh s p,
        Copies-agree s1.fds s.fds _ s.fresh slots _ below b.1 f.copies,
      );
      counts = ap (λ (n : ℕ). n + 1) f.counts;
      sizes = ap suc f.sizes;
      links = λ n lt.
          let e = same n in
          let one = copy_fd-links s p n (omega (arith, lt)) in
          f.links n (omega (arith, lt, e, one)) ∙ omega (arith, e, one);
      kept = λ q lt. f.kept q (copy_fd-lt s p q (omega (arith, lt))) ∙ below q lt;
      released = f.released ∙ copy_fd-released s p;
    }

-- Where the descriptors lead to existing `fd_t`s, the table counts its slots right and the links of a
-- node leave room, `fork` gives the child a table of the same shape, each descriptor by a `fd_t` of its own for the
-- same node and offset; the node gains exactly as many links as the parent has descriptors for
-- it, the parent's descriptors stay, and the child's table counts right.
pub fork_fds-Copies :
    (t : Table) (s : Store) (n : ℕ)
    → Below s.fresh t.nodes
    → IsValid t
    → s.links n + refs s.fds t.nodes n < 2 ^ 32
    → Copies s.fds (fork_fds t s).1.fds t.nodes (fork_fds t s).0.nodes
      × IsValid (fork_fds t s).0
      × ((fork_fds t s).1.links n ≡ s.links n + refs s.fds t.nodes n)
      × ((p : ℕ) → p < s.fresh → (fork_fds t s).1.fds p ≡ s.fds p)
unfolding fork_fds
fork_fds-Copies t s n b v lt =
    let f = fork_slots-Forked t.nodes s b in
    (
      f.copies,
      record { sized = f.sizes ∙ v.sized; counted = v.counted ∙ sym f.counts },
      f.links n lt,
      f.kept,
    )
