-- ===== src/Proc/Sleep.antt =====
-- The queue of sleeping processes in kernel/src/proc/process.c: a linked list of wait nodes, each at
-- its address, with NULL as 0. The loops run on fuel, `none` when it is not enough; a chain of
-- nodes is passed with one more than its length.
pub mod Chain
pub mod Insert
pub mod Wakeup
mod Tests
use scales_os.Prelude.{
  ℕ, zero, suc, ◌+◌, ◌/◌, ◌%◌, Bool, true, false, not, ◌&&◌, ◌||◌, Option, none, some, List, [],
  ◌∷◌, ◌++◌, ltb, leb, ◌==◌, if◌then◌else◌,
}

-- `wait_node_t`
pub record WaitNode : Type 0 where
  pub process : ℕ
  pub seconds : ℕ
  pub microseconds : ℕ
  pub next : ℕ

-- The nodes at their addresses, and `sleep_queue`.
pub record Sleepers : Type 0 where
  pub nodes : ℕ → WaitNode
  pub sleep_queue : ℕ

-- `p->next = q`
abbrev pub set_next : (ℕ → WaitNode) → (p q : ℕ) → ℕ → WaitNode
set_next nodes p q a = if a == p then record (nodes p) { next = q } else nodes a

-- The node is due after the time.
pub is_later : WaitNode → (seconds microseconds : ℕ) → Bool
is_later n seconds microseconds =
    ltb seconds n.seconds || (n.seconds == seconds && ltb microseconds n.microseconds)

-- The time `microseconds` and `seconds` after `ticks` microseconds (`TICKS_SECONDS` and the carry).
pub deadline : (ticks seconds microseconds : ℕ) → ℕ × ℕ
deadline ticks seconds microseconds =
    let s = ticks / 1000000 + seconds in
    let us = ticks % 1000000 + microseconds in
    if leb 1000000 us then (s + us / 1000000, us % 1000000) else (s, us)

-- The search for the place of a new node: the nodes before and behind it.
pub find_place : ℕ → (ℕ → WaitNode) → (prev node seconds microseconds : ℕ) → Option (ℕ × ℕ)
find_place zero nodes prev node s us = none
find_place (suc fuel) nodes prev node s us =
    let rest = find_place fuel nodes node (nodes node).next s us in
    if not (node == 0) && is_later (nodes node) s us then rest else some (prev, node)

-- The insertion of the node `new`, which holds its process and time, in `k_proc_process_timeout`
-- and `k_proc_process_sleep`.
pub insert : ℕ → Sleepers → (new : ℕ) → Option Sleepers
insert fuel q new =
    let n = q.nodes new in
    if q.sleep_queue == 0
    then some (record { nodes = set_next q.nodes new 0; sleep_queue = new })
    else elim (find_place fuel q.nodes q.sleep_queue q.sleep_queue n.seconds n.microseconds) [
      | none ↦ none
      | some (prev, node) ↦
          some (record q { nodes = set_next (set_next q.nodes prev new) new node })
    ]

-- The search of `__k_proc_process_remove_from_sleep_queue`: the node before the target.
pub find_target : ℕ → (ℕ → WaitNode) → (prev node target : ℕ) → Option (Option ℕ)
find_target zero nodes prev node target = none
find_target (suc fuel) nodes prev node target =
    let rest = find_target fuel nodes node (nodes node).next target in
    if node == 0 then some none else if node == target then some (some prev) else rest

-- `__k_proc_process_remove_from_sleep_queue`
pub remove : ℕ → Sleepers → (target : ℕ) → Option Sleepers
remove fuel q target =
    let next = (q.nodes target).next in
    if target == 0
    then some q
    else elim (find_target fuel q.nodes q.sleep_queue q.sleep_queue target) [
      | none ↦ none
      | some place ↦ elim place [
        | none ↦ some q
        | some prev ↦ some (
            if target == q.sleep_queue
            then record q { sleep_queue = next }
            else record q { nodes = set_next q.nodes prev next })
      ]
    ]

pub woken_first : ℕ → Option (List ℕ × Sleepers) → Option (List ℕ × Sleepers)
woken_first n none = none
woken_first n (some (woken, q)) = some (n ∷ woken, q)

-- `__k_proc_process_wakeup_timing`: the nodes that it takes off, and the queue; the processes of these that
-- have not finished are marked ready. `other` is the node of a timeout or of a sleep that the process of a
-- node holds besides it, which `k_proc_process_mark_ready` takes off the queue too; 0 if there is none or
-- the process has finished.
pub wakeup_timing :
    ℕ → (other : ℕ → ℕ) → Sleepers → (seconds microseconds : ℕ) → Option (List ℕ × Sleepers)
wakeup_timing zero other q s us = none
wakeup_timing (suc fuel) other q s us =
    let n = q.sleep_queue in
    let rest =
      elim (remove fuel (record q { sleep_queue = (q.nodes n).next }) (other n))
        as (λ o. Option (List ℕ × Sleepers)) [
          | none ↦ none
          | some q' ↦ woken_first n (wakeup_timing fuel other q' s us)
        ] in
    if not (n == 0) && not (is_later (q.nodes n) s us) then rest else some ([], q)
