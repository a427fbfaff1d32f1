-- ===== src/Proc/Queues/Runs.antt =====
-- Sequences of the scheduler's calls, in any order (kernel/src/proc/process.c).
use scales_os.Prelude.{
  ℕ, zero, suc, not, ◌&&◌, Bool-cases, Option-cases, inl, inr, List, [], ◌∷◌, length, ◌==◌,
}
use scales_os.Proc.Queues.{
  Sched, release_block, mark_ready, sleep_on_queue, pop_back, unlink, wakes, is_ready,
  wakeup_queue_single, wakeup_queue, wakeup_on_signal, next,
}
use scales_os.Proc.Queues.Counts.{Linked, release_block-Linked}
use scales_os.Proc.Queues.Ready.{mark_ready-Linked, sleep_on_queue-Linked}
use scales_os.Proc.Queues.Emptying.{List-cases, wakeup-nil, wakeup-cons}
use scales_os.Proc.Queues.Select.{
  wakeup_queue_single_select, wakeup_queue_select, single_select-Linked, queue_select-Linked,
}
use scales_os.Proc.Queues.Wakeup.{
  unlink-Linked, pop_back-none, single-empty, single-wakes, single-passes,
}

single-Linked : (n : ℕ) (s : Sched) (q : ℕ) → Linked s → Linked (wakeup_queue_single n s q)
unfolding wakeup_queue_single
single-Linked zero s q l = l
single-Linked (suc n) s q l = elim (Option-cases (pop_back (s.queues q))) [
  | inl e ↦ rw (single-empty n s q (pop_back-none (s.queues q) e)) l
  | inr ((rest, x), e) ↦
      let s' = unlink s q x rest in
      let l' = unlink-Linked s q x rest e l in
      elim (Bool-cases (wakes (s.procs x))) [
        | inl k ↦ rw (single-wakes n s q x rest e k) (mark_ready-Linked s' x l')
        | inr k ↦ rw (single-passes n s q x rest e k) (single-Linked n s' q l')
      ]
]

wakeup_queue-Linked : (n : ℕ) (s : Sched) (q : ℕ) → Linked s → Linked (wakeup_queue n s q)
unfolding wakeup_queue
wakeup_queue-Linked zero s q l = l
wakeup_queue-Linked (suc n) s q l = elim (List-cases (s.queues q)) [
  | inl e ↦ rw (wakeup-nil (suc n) s q e) l
  | inr (x, xs, e) ↦
      let s' = wakeup_queue_single (length (s.queues q)) s q in
      rw (wakeup-cons n s q x xs e)
        (wakeup_queue-Linked n s' q (single-Linked (length (s.queues q)) s q l))
]

signal-Linked : (s : Sched) (current p : ℕ) → Linked s → Linked (wakeup_on_signal s current p)
unfolding wakeup_on_signal
signal-Linked s current p l =
    elim (Bool-cases (not (p == current) && not (is_ready (s.procs p).state))) [
      | inl e ↦ rw (wakeup_on_signal, e) (mark_ready-Linked s p l)
      | inr e ↦ rw (wakeup_on_signal, e) l
    ]

next-Linked : (idle : ℕ) (s : Sched) → Linked s → Linked (next idle s).1
unfolding next Linked
next-Linked idle s l p q = elim (List-cases s.ready_queue) [
  | inl e ↦ rw (next, e) (l p q)
  | inr (x, xs, e) ↦ rw (next, e) (l p q)
]

-- A call of the scheduler on processes and queues, with the process that makes it.
pub data Call : Type 0 where
  sleep : (p q : ℕ) → Call
  release : (p : ℕ) → Call
  ready : (p : ℕ) → Call
  wake_one : (q : ℕ) → Call
  wake_all : (q : ℕ) → Call
  wake_one_select : (q node event : ℕ) → Call
  wake_all_select : (q node event : ℕ) → Call
  signal : (current p : ℕ) → Call
  switch : (idle : ℕ) → Call

-- What a call does; a loop over a queue has a round for each process in it.
unfoldable pub call : Call → Sched → Sched
call (sleep p q) s = sleep_on_queue s p q
call (release p) s = release_block s p
call (ready p) s = mark_ready s p
call (wake_one q) s = wakeup_queue_single (length (s.queues q)) s q
call (wake_all q) s = wakeup_queue (length (s.queues q)) s q
call (wake_one_select q node event) s =
    wakeup_queue_single_select (length (s.queues q)) s q node event
call (wake_all_select q node event) s = wakeup_queue_select (length (s.queues q)) s q node event
call (signal current p) s = wakeup_on_signal s current p
call (switch idle) s = (next idle s).1

unfoldable pub run : List Call → Sched → Sched
run [] s = s
run (c ∷ cs) s = run cs (call c s)

call-Linked : (c : Call) (s : Sched) → Linked s → Linked (call c s)
unfolding call
call-Linked (sleep p q) s l = sleep_on_queue-Linked s p q l
call-Linked (release p) s l = release_block-Linked s p l
call-Linked (ready p) s l = mark_ready-Linked s p l
call-Linked (wake_one q) s l = single-Linked (length (s.queues q)) s q l
call-Linked (wake_all q) s l = wakeup_queue-Linked (length (s.queues q)) s q l
call-Linked (wake_one_select q node event) s l =
    single_select-Linked (length (s.queues q)) s q node event l
call-Linked (wake_all_select q node event) s l =
    queue_select-Linked (length (s.queues q)) s q node event l
call-Linked (signal current p) s l = signal-Linked s current p l
call-Linked (switch idle) s l = next-Linked idle s l

-- Whatever the calls and their order, a process stands in a queue as often as the queue stands among
-- the owners of its block node, when that held before.
pub run-Linked : (cs : List Call) (s : Sched) → Linked s → Linked (run cs s)
unfolding run
run-Linked [] s l = l
run-Linked (c ∷ cs) s l = run-Linked cs (call c s) (call-Linked c s l)
