-- ===== src/Proc/Waitpid/Reaping.antt =====
-- Which child a wait picks, and that it comes back (kernel/src/proc/process.c).
use scales_os.Prelude.{
  ℕ, ◌%◌, ◌≤◌, ◌≡◌, refl, sym, ◌∙◌, Bool, true, false, ◌&&◌, ◌||◌, Bool-cases, inl, inr,
  Option-cases, Option, none, some, List, [], ◌∷◌, ◌++◌, All, arith, ltb, ◌==◌, if◌then◌else◌,
}
use scales_os.Proc.Waitpid.{
  ℤ, Child, wnohang, wuntraced, echild, eintr, can_pick, search, remove_child, Waited, reaped,
  failed, asleep, wait_round, wait_loop, waitpid,
}

-- Some child may be picked.
unfoldable pub some_match : (group : ℕ) → (pid : ℤ) → List Child → Bool
some_match group pid [] = false
some_match group pid (c ∷ cs) = can_pick c group pid || some_match group pid cs

-- The first child that may be picked and has finished.
unfoldable pub first_finished : (group : ℕ) → (pid : ℤ) → List Child → Option Child
first_finished group pid [] = none
first_finished group pid (c ∷ cs) =
    if can_pick c group pid && c.finished then some c else first_finished group pid cs

search-finds :
    (group : ℕ) (pid : ℤ) (was : Bool) (l : List Child)
    → search group pid was l ≡ (was || some_match group pid l, first_finished group pid l)
unfolding search some_match first_finished
search-finds group pid true [] = refl
search-finds group pid false [] = refl
search-finds group pid true (c ∷ l) = elim (Bool-cases (can_pick c group pid)) [
  | inl e ↦ elim (Bool-cases c.finished) [
    | inl f ↦ rw (search, e, f) refl
    | inr f ↦ rw (search, e, f) (search-finds group pid true l)
  ]
  | inr e ↦ rw (search, e) (search-finds group pid true l)
]
search-finds group pid false (c ∷ l) = elim (Bool-cases (can_pick c group pid)) [
  | inl e ↦ elim (Bool-cases c.finished) [
    | inl f ↦ rw (search, e, f) refl
    | inr f ↦ rw (search, e, f) (search-finds group pid true l)
  ]
  | inr e ↦ rw (search, e) (search-finds group pid false l)
]

first-matches :
    (group : ℕ) (pid : ℤ) (l : List Child) (c : Child)
    → first_finished group pid l ≡ some c
    → some_match group pid l ≡ true
unfolding first_finished some_match
first-matches group pid [] c e = absurd (grind arith)
first-matches group pid (x ∷ l) c e = elim (Bool-cases (can_pick x group pid)) [
  | inl m ↦ rw m refl
  | inr m ↦
      let skip : first_finished group pid (x ∷ l) ≡ first_finished group pid l = rw m refl in
      rw m (first-matches group pid l c (sym skip ∙ e))
]

-- A round that finds a finished child.
loop-reaps :
    (group : ℕ) (pid : ℤ) (options : ℕ) (now : List Child) (after : List (List Child)) (c : Child)
    → first_finished group pid now ≡ some c
    → wait_loop group pid options now after ≡ reaped c.pid c.status (remove_child c.pid now)
unfolding wait_loop wait_round
loop-reaps group pid options now [] c e =
    rw (wait_loop, search-finds group pid false now, e, first-matches group pid now c e) refl
loop-reaps group pid options now (l ∷ after) c e =
    rw (wait_loop, search-finds group pid false now, e, first-matches group pid now c e) refl

-- The children at the first of some rounds, and the schedule of the others.
unfoldable pub rounds :
    (before : List (List Child))
    → (now : List Child) → (after : List (List Child)) → List Child × List (List Child)
rounds [] now after = (now, after)
rounds (l ∷ before) now after = (l, before ++ (now ∷ after))

-- A child may be picked, but none has finished.
unfoldable pub Alive : (group : ℕ) → (pid : ℤ) → List Child → Type 0
Alive group pid l = (some_match group pid l ≡ true) × (first_finished group pid l ≡ none)

loop-sleeps :
    (group : ℕ) (pid : ℤ) (options : ℕ) (l later : List Child) (schedule : List (List Child))
    → (options % 2 == wnohang) ≡ false
    → Alive group pid l
    → wait_loop group pid options l (later ∷ schedule) ≡ wait_loop group pid options later schedule
unfolding wait_loop wait_round Alive
loop-sleeps group pid options l later schedule o (m, f) =
    rw (search-finds group pid false l, m, f, o) refl

waits :
    (group : ℕ) (pid : ℤ) (options : ℕ) (before : List (List Child)) (now : List Child)
    (after : List (List Child)) (c : Child)
    → (options % 2 == wnohang) ≡ false
    → All (Alive group pid) before
    → first_finished group pid now ≡ some c
    → wait_loop group pid options (rounds before now after).0 (rounds before now after).1
      ≡ reaped c.pid c.status (remove_child c.pid now)
unfolding rounds
waits group pid options [] now after c o alive e = loop-reaps group pid options now after c e
waits group pid options (l ∷ []) now after c o (a, alive) e =
    loop-sleeps group pid options l now after o a ∙ loop-reaps group pid options now after c e
waits group pid options (l ∷ (l' ∷ before)) now after c o (a, alive) e =
    loop-sleeps group pid options l l' (before ++ (now ∷ after)) o a
    ∙ waits group pid options (l' ∷ before) now after c o alive e

-- Without WNOHANG, when children that may be picked go on living for any number of sleeps and then
-- some have finished, the wait comes back with the first of these and its status, and that child is
-- taken off the children.
pub waitpid-reaps :
    (group : ℕ) (pid : ℤ) (options : ℕ) (before : List (List Child)) (now : List Child)
    (after : List (List Child)) (c : Child)
    → options ≤ wuntraced
    → (options % 2 == wnohang) ≡ false
    → All (Alive group pid) before
    → first_finished group pid now ≡ some c
    → waitpid group pid options (rounds before now after).0 (rounds before now after).1
      ≡ reaped c.pid c.status (remove_child c.pid now)
unfolding waitpid
waitpid-reaps group pid options before now after c h o alive e =
    let valid : ltb wuntraced options ≡ false = ground arith in
    rw (waitpid, valid) (waits group pid options before now after c o alive e)

round_wnohang :
    (group : ℕ) (pid : ℤ) (children : List Child) (slept : Waited)
    → wait_round wnohang children (search group pid false children) slept
      ≡ elim (first_finished group pid children) [
        | some c ↦ reaped c.pid c.status (remove_child c.pid children)
        | none ↦ if some_match group pid children then failed eintr else failed echild
      ]
unfolding wait_round
round_wnohang group pid children slept = elim (Option-cases (first_finished group pid children)) [
  | inl e ↦ elim (Bool-cases (some_match group pid children)) [
    | inl m ↦ rw (search-finds group pid false children, e, m) refl
    | inr m ↦ rw (search-finds group pid false children, e, m) refl
  ]
  | inr (c, e) ↦
      rw (search-finds group pid false children, e, first-matches group pid children c e) refl
]

-- With WNOHANG the wait never sleeps: it reaps the first finished child that may be picked, fails
-- with EINTR when there are only living ones, and with ECHILD when there is none at all.
pub waitpid-wnohang :
    (group : ℕ) (pid : ℤ) (children : List Child) (schedule : List (List Child))
    → waitpid group pid wnohang children schedule ≡ elim (first_finished group pid children) [
      | some c ↦ reaped c.pid c.status (remove_child c.pid children)
      | none ↦ if some_match group pid children then failed eintr else failed echild
    ]
unfolding waitpid wait_loop wait_round
waitpid-wnohang group pid children [] = round_wnohang group pid children (asleep children)
waitpid-wnohang group pid children (l ∷ schedule) =
    round_wnohang group pid children (wait_loop group pid wnohang l schedule)
