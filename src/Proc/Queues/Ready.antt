-- ===== src/Proc/Queues/Ready.antt =====
-- The moves of a process between waiting and the ready queue (kernel/src/proc/process.c).
use scales_os.Prelude.{
  ℕ, ◌≡◌, ◌≢◌, refl, sym, ap, ◌∙◌, true, false, ◌||◌, Bool-cases, inl, inr, none, List, [], ◌∷◌,
  ◌++◌, reverse, arith, ◌==◌, if◌then◌else◌,
}
use scales_os.Proc.Queues.{
  running, sleeping, Process, Sched, with_proc, has_locks, own_block, release_block,
  invalidate_locks, mark_ready, sleep_on_queue, is_some, is_ready, wakeup_on_signal,
}
use scales_os.Proc.Queues.Counts.{
  count, count-leave, Linked, owners-with_proc, own_block-Linked, release_block-Linked,
  count-release_block,
}

-- Writing to a process what leaves its owners alone keeps the two sides together.
pub with_proc-Linked :
    (s : Sched) (p : ℕ) (proc : Process)
    → proc.owners ≡ (s.procs p).owners
    → Linked s
    → Linked (with_proc s p proc)
unfolding Linked
with_proc-Linked s p proc same l p' q = l p' q ∙ sym (owners-with_proc s p p' q proc ∙ kept)
  where
    kept :
        (if p' == p then count q proc.owners else count q (s.procs p').owners)
        ≡ count q (s.procs p').owners
    kept = elim (Bool-cases (p' == p)) [
      | inl e ↦
          let at : p ≡ p' = ground arith in
          rw e (ap (λ (x : List ℕ). count q x) same ∙ ap (λ (x : ℕ). count q (s.procs x).owners) at)
      | inr e ↦ rw e refl
    ]

at_with_proc : (s : Sched) (p : ℕ) (proc : Process) → (with_proc s p proc).procs p ≡ proc
at_with_proc s p proc = let e : (p == p) ≡ true = ground arith in rw e refl

pub elsewhere-with_proc :
    (s : Sched) (p p' : ℕ) (proc : Process) → p' ≢ p → (with_proc s p proc).procs p' ≡ s.procs p'
elsewhere-with_proc s p p' proc ne = let e : (p' == p) ≡ false = ground arith in rw e refl

pub invalidate_locks-Linked : (s : Sched) (p : ℕ) → Linked s → Linked (invalidate_locks s p)
unfolding invalidate_locks Linked
invalidate_locks-Linked s p l =
    let s' = release_block s p in
    let free = record (s'.procs p) { wait_node = none; timeout_node = none } in
    with_proc-Linked s' p free refl (release_block-Linked s p l)

pub mark_ready-Linked : (s : Sched) (p : ℕ) → Linked s → Linked (mark_ready s p)
unfolding mark_ready Linked
mark_ready-Linked s p l =
    let proc = s.procs p in
    let up = record proc { interrupted = proc.interrupted || has_locks proc; state = running } in
    invalidate_locks-Linked (with_proc s p up) p (with_proc-Linked s p up refl l)

pub sleep_on_queue-Linked : (s : Sched) (p q : ℕ) → Linked s → Linked (sleep_on_queue s p q)
unfolding sleep_on_queue
sleep_on_queue-Linked s p q l =
    let s' = own_block s p q in
    with_proc-Linked s' p (record (s'.procs p) { interrupted = false; state = sleeping }) refl
      (own_block-Linked s p q l)

pub mark_ready-state : (s : Sched) (p : ℕ) → ((mark_ready s p).procs p).state ≡ running
unfolding mark_ready invalidate_locks release_block
mark_ready-state s p = let e : (p == p) ≡ true = ground arith in rw e refl

pub mark_ready-queue :
    (s : Sched) (p : ℕ) → (mark_ready s p).ready_queue ≡ s.ready_queue ++ (p ∷ [])
unfolding mark_ready invalidate_locks release_block
mark_ready-queue s p = refl

pub wakeup-other :
    (s : Sched) (current p : ℕ)
    → p ≢ current
    → is_ready (s.procs p).state ≡ false
    → wakeup_on_signal s current p ≡ mark_ready s p
unfolding wakeup_on_signal
wakeup-other s current p ne e =
    let other : (p == current) ≡ false = ground arith in rw (wakeup_on_signal, other, e) refl

pub mark_ready-elsewhere :
    (s : Sched) (p p' : ℕ)
    → p' ≢ p
    → ((mark_ready s p).procs p' ≡ s.procs p')
      × ((q : ℕ) → count p' ((mark_ready s p).queues q) ≡ count p' (s.queues q))
unfolding mark_ready invalidate_locks release_block
mark_ready-elsewhere s p p' ne =
    let proc = s.procs p in
    let up = record proc { interrupted = proc.interrupted || has_locks proc; state = running } in
    let owners = ((with_proc s p up).procs p).owners in
    let e : (p' == p) ≡ false = ground arith in
    (rw e refl, λ q. count-leave p (reverse owners) s.queues p' q ∙ rw e refl)

-- What waking `p` leaves: `p` runs, holds no lock, stands in no queue and last in the ready queue,
-- and knows whether it was interrupted; the other processes are as they were, in every queue.
unfoldable pub Woken : Sched → ℕ → Sched → Type 0
Woken s p s' =
    ((s'.procs p).state ≡ running)
    × (has_locks (s'.procs p) ≡ false)
    × ((s'.procs p).interrupted ≡ ((s.procs p).interrupted || has_locks (s.procs p)))
    × ((q : ℕ) → count p (s'.queues q) ≡ 0)
    × (s'.ready_queue ≡ s.ready_queue ++ (p ∷ []))
    × ((p' : ℕ)
        → p' ≢ p
        → (s'.procs p' ≡ s.procs p') × ((q : ℕ) → count p' (s'.queues q) ≡ count p' (s.queues q)))

-- Where the queues and the owners agree, `mark_ready` takes a process out of every queue it waits in,
-- drops its other locks and appends it to the ready queue; it says that it interrupted a process that
-- had locks. The other processes keep their state and their places in the queues.
pub mark_ready-Woken : (s : Sched) (p : ℕ) → Linked s → Woken s p (mark_ready s p)
unfolding Woken mark_ready invalidate_locks release_block has_locks is_some
mark_ready-Woken s p l =
    let proc = s.procs p in
    let up = record proc { interrupted = proc.interrupted || has_locks proc; state = running } in
    let s1 = with_proc s p up in
    let s' = mark_ready s p in
    let e : (p == p) ≡ true = ground arith in
    let gone : (q : ℕ) → count p (s'.queues q) ≡ 0 =
      λ q. count-release_block s1 p p q (with_proc-Linked s p up refl l) ∙ rw e refl in
    (
      mark_ready-state s p,
      rw e refl,
      rw e refl,
      gone,
      refl,
      λ p' ne. mark_ready-elsewhere s p p' ne,
    )
