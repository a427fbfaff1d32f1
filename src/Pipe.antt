-- ===== src/Pipe.antt =====
-- kernel/src/fs/pipe.c: a pipe, a circular buffer of its own whose readers and writers share one
-- queue. As in Ring, a sleeping caller is given a schedule of what the others do meanwhile. The
-- select queues and the node of the pipe, beyond its O_NOBLOCK flag, are not modelled.
pub mod Laws
pub mod Reads
mod Tests
use scales_os.Prelude.{
  ℕ, zero, suc, ◌+◌, Bool, true, false, ◌&&◌, Option, none, some, List, [], ◌∷◌, ◌++◌, length,
  replicate, get_or, set, add32, sub32, ltb, ◌==◌, if◌then◌else◌,
}

-- The events of select.
pub data Event : Type 0 where
  readable : Event
  writable : Event
  except : Event
  other : Event

-- `__k_fs_pipe_event2index`, `none` for -EINVAL
pub event2index : Event → Option ℕ
event2index readable = some 0
event2index writable = some 1
event2index except = some 2
event2index other = none

-- `pipe_t`; the wait queue holds the ids of processes.
pub record Pipe : Type 0 where
  pub buffer : List ℕ
  pub size : ℕ
  pub write_ptr : ℕ
  pub read_ptr : ℕ
  pub wait_queue : List ℕ

-- `k_fs_pipe_create`
pub create : ℕ → Pipe
create size = record {
  buffer = replicate size 0;
  size = size;
  write_ptr = 0;
  read_ptr = 0;
  wait_queue = [];
}

pub read_available : Pipe → ℕ
read_available p =
    if p.read_ptr == p.write_ptr
    then 0
    else if ltb p.write_ptr p.read_ptr
    then add32 (sub32 p.size p.read_ptr) p.write_ptr
    else sub32 p.write_ptr p.read_ptr

pub write_available : Pipe → ℕ
write_available p =
    if p.read_ptr == p.write_ptr
    then sub32 p.size 1
    else if ltb p.write_ptr p.read_ptr
    then sub32 (sub32 p.read_ptr p.write_ptr) 1
    else sub32 (add32 (sub32 p.size p.write_ptr) p.read_ptr) 1

abbrev bump : ℕ → ℕ → ℕ
bump size ptr = if add32 ptr 1 == size then 0 else add32 ptr 1

pub bump_write_ptr : Pipe → Pipe
bump_write_ptr p = record p { write_ptr = bump p.size p.write_ptr }

pub bump_read_ptr : Pipe → Pipe
bump_read_ptr p = record p { read_ptr = bump p.size p.read_ptr }

-- A byte stored, and the pointer moved on.
pub put : Pipe → ℕ → Pipe
unfolding bump_write_ptr
put p byte = bump_write_ptr (record p { buffer = set p.buffer p.write_ptr byte })

-- A byte taken: the byte, and the pipe after it.
pub get : Pipe → ℕ × Pipe
unfolding bump_read_ptr
get p = (get_or p.buffer p.read_ptr 0, bump_read_ptr p)

-- What happens while a caller sleeps, and whether a signal ended the sleep.
pub record Resume : Type 0 where
  pub others : Pipe → Pipe
  pub interrupted : Bool

-- How the wait before one byte ends: with the rest of the schedule, because O_NOBLOCK is set, with a
-- signal, or not yet.
pub data Wait : Type 0 where
  ready : List Resume → Pipe → Wait
  would_block : Wait
  signalled : Pipe → Wait
  sleeping : Pipe → Wait

-- How a call ends: with its result, with -EAGAIN, with -ERESTARTSYS, or not within the schedule.
pub data Outcome (A : Type 0) : Type 0 where
  returned : A → Pipe → Outcome A
  again : Pipe → Outcome A
  restarted : Pipe → Outcome A
  asleep : Pipe → Outcome A

-- `k_proc_process_sleep_on_queue`
pub sleep : ℕ → Pipe → Pipe
sleep cur p = record p { wait_queue = p.wait_queue ++ (cur ∷ []) }

-- `k_proc_process_wakeup_queue`
pub wakeup : Pipe → Pipe
wakeup p = record p { wait_queue = [] }

-- `while(!available)` around the sleep, for a count of available bytes.
pub wait_for : (Pipe → ℕ) → ℕ → List Resume → Pipe → Wait
wait_for available cur [] p = if available p == 0 then sleeping (sleep cur p) else ready [] p
wait_for available cur (e ∷ es) p =
    let woken = e.others (sleep cur p) in
    let rest = wait_for available cur es woken in
    if available p == 0 then if e.interrupted then signalled woken else rest else ready (e ∷ es) p

-- The wait of the writer before a byte.
pub wait_room : (nonblock : Bool) → ℕ → List Resume → Pipe → Wait
wait_room nonblock cur es p =
    if write_available p == 0 && nonblock then would_block else wait_for write_available cur es p

-- The loop of the writer, with `written` so far.
pub write_from : Bool → ℕ → List ℕ → List Resume → (written : ℕ) → Pipe → Outcome ℕ
write_from nonblock cur [] es written p = returned written (wakeup p)
write_from nonblock cur (x ∷ xs) es written p = elim (wait_room nonblock cur es p) [
  | ready es' p' ↦ write_from nonblock cur xs es' (written + 1) (put p' x)
  | would_block ↦ returned written (wakeup p)
  | signalled p' ↦ restarted p'
  | sleeping p' ↦ asleep p'
]

-- `__k_fs_pipe_write` by the process `cur`
pub write : Bool → ℕ → List ℕ → List Resume → Pipe → Outcome ℕ
write nonblock cur src es p = write_from nonblock cur src es 0 p

-- The loop of the reader, with the bytes that it has so far.
pub read_from : ℕ → (left : ℕ) → List Resume → (got : List ℕ) → Pipe → Outcome (List ℕ)
read_from cur zero es got p = returned got (wakeup p)
read_from cur (suc left) es got p = elim (wait_for read_available cur es p) [
  | ready es' p' ↦ read_from cur left es' (got ++ ((get p').0 ∷ [])) (get p').1
  | would_block ↦ again p
  | signalled p' ↦ restarted p'
  | sleeping p' ↦ asleep p'
]

-- `__k_fs_pipe_read` of `size` bytes
pub read : Bool → ℕ → (size : ℕ) → List Resume → Pipe → Outcome (List ℕ)
read nonblock cur size es p =
    if nonblock && ltb (read_available p) size then again p else read_from cur size es [] p

-- `__k_fs_pipe_check`
pub check : Pipe → Event → Bool
check p readable = ltb 0 (read_available p)
check p writable = ltb 0 (write_available p)
check p except = false
check p other = false
