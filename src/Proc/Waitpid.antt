-- ===== src/Proc/Waitpid.antt =====
-- Waiting for a child, `k_proc_process_waitpid` in kernel/src/proc/process.c. A process's children
-- are the list of its tree node. The caller's sleeps are a schedule: the children as each sleep
-- leaves them. The options are not negative.
pub mod Reaping
mod Tests
use scales_os.Prelude.{
  ℕ, zero, suc, ◌+◌, ◌%◌, Bool, true, false, not, ◌&&◌, Option, none, some, List, [], ◌∷◌, ltb,
  ◌==◌, if◌then◌else◌,
}

-- A C int
pub data ℤ : Type 0 where
  pos : ℕ → ℤ
  negsuc : ℕ → ℤ

-- The part of `process_t` that waiting looks at
pub record Child : Type 0 where
  pub pid : ℕ
  pub group_id : ℕ
  pub finished : Bool
  pub status : ℕ

-- PROCESS_WAITPID_WNOHANG and PROCESS_WAITPID_WUNTRACED
abbrev pub wnohang : ℕ
wnohang = 1

abbrev pub wuntraced : ℕ
wuntraced = 2

abbrev pub echild : ℕ
echild = 10

abbrev pub eintr : ℕ
eintr = 4

abbrev pub einval : ℕ
einval = 22

-- `__k_proc_process_waitpid_can_pick`
unfoldable pub can_pick : Child → (group : ℕ) → (pid : ℤ) → Bool
can_pick c group (pos zero) = c.group_id == group
can_pick c group (pos (suc n)) = c.pid == suc n
can_pick c group (negsuc zero) = true
can_pick c group (negsuc (suc n)) = c.pid == suc (suc n)

-- The loop over the children: whether one may be picked (`was`), and the first of these that has
-- finished, where the loop ends.
pub search : (group : ℕ) → (pid : ℤ) → (was : Bool) → List Child → Bool × Option Child
unfolding can_pick
search group pid was [] = (was, none)
search group pid was (c ∷ cs) =
    let rest = search group pid (if can_pick c group pid then true else was) cs in
    if can_pick c group pid then if c.finished then (true, some c) else rest else rest

-- The children without the one that `k_proc_process_destroy` takes off the tree
unfoldable pub remove_child : ℕ → List Child → List Child
remove_child pid [] = []
remove_child pid (c ∷ cs) = if c.pid == pid then cs else c ∷ remove_child pid cs

-- The pid that is returned with the status of the child and the children left; a negative errno; or
-- the caller that still sleeps when the schedule ends.
pub data Waited : Type 0 where
  reaped : (pid status : ℕ) → List Child → Waited
  failed : (errno : ℕ) → Waited
  asleep : List Child → Waited

-- A round of the loop, with what follows when the caller sleeps.
pub wait_round : (options : ℕ) → List Child → Bool × Option Child → (slept : Waited) → Waited
unfolding remove_child
wait_round options children (false, found) slept = failed echild
wait_round options children (true, some c) slept =
    reaped c.pid c.status (remove_child c.pid children)
wait_round options children (true, none) slept =
    if options % 2 == wnohang then failed eintr else slept

pub wait_loop :
    (group : ℕ) → (pid : ℤ) → (options : ℕ) → List Child → (schedule : List (List Child)) → Waited
unfolding search wait_round
wait_loop group pid options children [] =
    wait_round options children (search group pid false children) (asleep children)
wait_loop group pid options children (later ∷ schedule) =
    wait_round options children (search group pid false children)
      (wait_loop group pid options later schedule)

-- `k_proc_process_waitpid`
pub waitpid :
    (group : ℕ) → (pid : ℤ) → (options : ℕ) → List Child → (schedule : List (List Child)) → Waited
unfolding wait_loop
waitpid group pid options children schedule =
    if ltb wuntraced options then failed einval else wait_loop group pid options children schedule
