-- ===== src/Proc/Queues/Select.antt =====
-- Waking the processes that wait in select (kernel/src/proc/process.c): a woken process leaves all its
-- queues and its timeout, and learns which node woke it and why.
use scales_os.Prelude.{
  ℕ, zero, suc, refl, Bool-cases, Option-cases, inl, inr, none, some, [], ◌∷◌, length,
  if◌then◌else◌,
}
use scales_os.Proc.Queues.{
  Sched, with_proc, release_block, forget_node, mark_ready, pop_back, unlink, wakes,
}
use scales_os.Proc.Queues.Counts.{Linked, release_block-Linked}
use scales_os.Proc.Queues.Wakeup.{unlink-Linked}
use scales_os.Proc.Queues.Emptying.{List-cases}
use scales_os.Proc.Queues.Ready.{with_proc-Linked, mark_ready-Linked}

-- The node, the event and the timeout of a process that is woken.
pub select_woken : Sched → (p node event : ℕ) → Sched
unfolding forget_node
select_woken s p node event =
    let proc = s.procs p in
    with_proc (record s { sleep_queue = forget_node proc.timeout_node s.sleep_queue }) p
      (record proc { select_wait_node = node; select_wait_event = event; timeout_node = none })

-- `k_proc_process_wakeup_queue_single_select`, a round for each process of the queue
pub wakeup_queue_single_select : (rounds : ℕ) → Sched → (q node event : ℕ) → Sched
unfolding pop_back unlink release_block wakes select_woken mark_ready
wakeup_queue_single_select zero s q node event = s
wakeup_queue_single_select (suc n) s q node event = elim (pop_back (s.queues q)) [
  | none ↦ s
  | some (rest, p) ↦
      let s' = release_block (unlink s q p rest) p in
      let more = wakeup_queue_single_select n s' q node event in
      if wakes (s'.procs p) then mark_ready (select_woken s' p node event) p else more
]

-- `k_proc_process_wakeup_queue_select`
pub wakeup_queue_select : (rounds : ℕ) → Sched → (q node event : ℕ) → Sched
unfolding wakeup_queue_single_select
wakeup_queue_select zero s q node event = s
wakeup_queue_select (suc n) s q node event = elim (s.queues q) [
  | [] ↦ s
  | p ∷ ps ↦
      wakeup_queue_select n (wakeup_queue_single_select (length (s.queues q)) s q node event) q node
        event
]

select_woken-Linked :
    (s : Sched) (p node event : ℕ) → Linked s → Linked (select_woken s p node event)
unfolding select_woken Linked
select_woken-Linked s p node event l =
    let proc = s.procs p in
    let woken = record proc {
      select_wait_node = node;
      select_wait_event = event;
      timeout_node = none;
    } in
    with_proc-Linked s p woken refl l

pub single_select-Linked :
    (n : ℕ) (s : Sched) (q node event : ℕ)
    → Linked s
    → Linked (wakeup_queue_single_select n s q node event)
unfolding wakeup_queue_single_select
single_select-Linked zero s q node event l = l
single_select-Linked (suc n) s q node event l = elim (Option-cases (pop_back (s.queues q))) [
  | inl e ↦ rw (wakeup_queue_single_select, e) l
  | inr ((rest, p), e) ↦
      let s' = release_block (unlink s q p rest) p in
      let l' = release_block-Linked (unlink s q p rest) p (unlink-Linked s q p rest e l) in
      elim (Bool-cases (wakes (s'.procs p))) [
        | inl k ↦
            rw (wakeup_queue_single_select, e, k)
              (mark_ready-Linked (select_woken s' p node event) p
                (select_woken-Linked s' p node event l'))
        | inr k ↦ rw (wakeup_queue_single_select, e, k) (single_select-Linked n s' q node event l')
      ]
]

pub queue_select-Linked :
    (n : ℕ) (s : Sched) (q node event : ℕ)
    → Linked s
    → Linked (wakeup_queue_select n s q node event)
unfolding wakeup_queue_select
queue_select-Linked zero s q node event l = l
queue_select-Linked (suc n) s q node event l = elim (List-cases (s.queues q)) [
  | inl e ↦ rw (wakeup_queue_select, e) l
  | inr (x, xs, e) ↦
      let k = length (s.queues q) in
      rw (wakeup_queue_select, e)
        (queue_select-Linked n (wakeup_queue_single_select k s q node event) q node event
          (single_select-Linked k s q node event l))
]
