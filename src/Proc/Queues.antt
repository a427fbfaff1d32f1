-- ===== src/Proc/Queues.antt =====
-- The queues that processes wait on and the ready queue, in kernel/src/proc/process.c. A process and
-- its block node go by the process's number, a queue by its own. The queue of sleepers stands as
-- the sequence of its nodes (Proc.Sleep has its pointers). A call that gives the processor away
-- ends where it would be switched out.
pub mod Counts
pub mod Ready
pub mod Wakeup
pub mod Emptying
pub mod Select
pub mod Runs
mod Tests
use scales_os.Prelude.{
  ℕ, zero, suc, ◌+◌, ◌≤◌, Bool, true, false, not, ◌&&◌, ◌||◌, Option, none, some, List, [], ◌∷◌,
  ◌++◌, reverse, length, ltb, leb, ◌==◌, if◌then◌else◌,
}

-- PROCESS_STATE_*
pub data State : Type 0 where
  starting : State
  running : State
  finished : State
  sleeping : State

-- PROCESS_IS_SCHEDULABLE, which is `k_proc_process_is_ready`
unfoldable pub is_ready : State → Bool
is_ready starting = true
is_ready running = true
is_ready finished = false
is_ready sleeping = false

unfoldable pub is_finished : State → Bool
is_finished finished = true
is_finished _ = false

-- The part of `process_t` that scheduling uses: `owners` are the queues that its block node stands
-- in, `interrupted` is PROCESS_FLAG_INTERRUPTED.
pub record Process : Type 0 where
  pub state : State
  pub interrupted : Bool
  pub owners : List ℕ
  pub wait_node : Option ℕ
  pub timeout_node : Option ℕ
  pub select_wait_node : ℕ
  pub select_wait_event : ℕ

pub record Sched : Type 0 where
  pub procs : ℕ → Process
  pub queues : ℕ → List ℕ
  pub sleep_queue : List ℕ
  pub ready_queue : List ℕ

abbrev pub update {ℓ} : {A : Type ℓ} → (ℕ → A) → ℕ → A → ℕ → A
update f i v j = if j == i then v else f j

-- `list_delete_element`: the first occurrence (DynList).
unfoldable pub delete : ℕ → List ℕ → List ℕ
delete x [] = []
delete x (y ∷ ys) = if y == x then ys else y ∷ delete x ys

abbrev pub with_proc : Sched → ℕ → Process → Sched
with_proc s p proc = record s { procs = update s.procs p proc }

-- `k_proc_process_own_block`
pub own_block : Sched → (p q : ℕ) → Sched
own_block s p q =
    let proc = s.procs p in
    with_proc (record s { queues = update s.queues q (s.queues q ++ (p ∷ [])) }) p
      (record proc { owners = proc.owners ++ (q ∷ []) })

-- The deletions of a process from some queues, one after the other.
pub leave : ℕ → List ℕ → (ℕ → List ℕ) → ℕ → List ℕ
leave p [] queues = queues
leave p (q ∷ owners) queues = leave p owners (update queues q (delete p (queues q)))

-- `k_proc_process_release_block`, which pops the owners from the back
pub release_block : Sched → ℕ → Sched
unfolding leave
release_block s p =
    let proc = s.procs p in
    with_proc (record s { queues = leave p (reverse proc.owners) s.queues }) p
      (record proc { owners = [] })

pub is_some : Option ℕ → Bool
is_some none = false
is_some (some n) = true

-- `k_proc_process_has_locks`
pub has_locks : Process → Bool
has_locks proc = ltb 0 (length proc.owners) || is_some proc.timeout_node || is_some proc.wait_node

-- `__k_proc_process_remove_from_sleep_queue` of a node or NULL
pub forget_node : Option ℕ → List ℕ → List ℕ
forget_node none l = l
forget_node (some n) l = delete n l

-- `k_proc_process_invalidate_locks`
pub invalidate_locks : Sched → ℕ → Sched
unfolding release_block forget_node
invalidate_locks s p =
    let s' = release_block s p in
    let proc = s'.procs p in
    with_proc
      (record s' {
        sleep_queue = forget_node proc.timeout_node (forget_node proc.wait_node s'.sleep_queue);
      })
      p (record proc { wait_node = none; timeout_node = none })

-- `k_proc_process_mark_ready`
pub mark_ready : Sched → ℕ → Sched
unfolding invalidate_locks has_locks
mark_ready s p =
    let proc = s.procs p in
    let s1 =
      with_proc s p
        (record proc { interrupted = proc.interrupted || has_locks proc; state = running }) in
    let s2 = invalidate_locks s1 p in record s2 { ready_queue = s2.ready_queue ++ (p ∷ []) }

-- `k_proc_process_sleep_on_queue` and `k_proc_process_sleep_and_unlock` up to the yield
pub sleep_on_queue : Sched → (p q : ℕ) → Sched
unfolding own_block
sleep_on_queue s p q =
    let s' = own_block s p q in
    with_proc s' p (record (s'.procs p) { interrupted = false; state = sleeping })

-- What is left of a list without its last element, and that element.
pub pop_back : List ℕ → Option (List ℕ × ℕ)
pop_back [] = none
pop_back (x ∷ xs) = elim (pop_back xs) [ none ↦ some ([], x) | some (ys, y) ↦ some (x ∷ ys, y) ]

-- The start of a round of waking: the last process of the queue is off it.
pub unlink : Sched → (q p : ℕ) → (rest : List ℕ) → Sched
unlink s q p rest =
    let proc = s.procs p in
    with_proc (record s { queues = update s.queues q rest }) p
      (record proc { owners = delete q proc.owners })

-- A process that sleeps is to be woken; one that runs, starts or has finished is passed over.
pub wakes : Process → Bool
unfolding is_finished is_ready
wakes proc = not (is_finished proc.state) && not (is_ready proc.state)

-- `k_proc_process_wakeup_queue_single`, a round for each process of the queue
pub wakeup_queue_single : (rounds : ℕ) → Sched → ℕ → Sched
wakeup_queue_single zero s q = s
wakeup_queue_single (suc n) s q = elim (pop_back (s.queues q)) [
  | none ↦ s
  | some (rest, p) ↦
      let s' = unlink s q p rest in
      let more = wakeup_queue_single n s' q in if wakes (s'.procs p) then mark_ready s' p else more
]

-- `k_proc_process_wakeup_queue`
pub wakeup_queue : (rounds : ℕ) → Sched → ℕ → Sched
wakeup_queue zero s q = s
wakeup_queue (suc n) s q = elim (s.queues q) [
  | [] ↦ s
  | p ∷ ps ↦ wakeup_queue n (wakeup_queue_single (length (s.queues q)) s q) q
]

-- `k_proc_process_wakeup_on_signal`
pub wakeup_on_signal : Sched → (current p : ℕ) → Sched
wakeup_on_signal s current p =
    if not (p == current) && not (is_ready (s.procs p).state) then mark_ready s p else s

-- `k_proc_process_next`: the first of the ready queue, or the idle process
pub next : (idle : ℕ) → Sched → ℕ × Sched
next idle s = elim s.ready_queue [ [] ↦ (idle, s) | p ∷ ps ↦ (p, record s { ready_queue = ps }) ]
