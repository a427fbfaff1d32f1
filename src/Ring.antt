-- ===== src/Ring.antt =====
-- kernel/src/util/types/ringbuffer.c: a circular byte buffer with one cell kept empty, whose
-- readers and writers sleep while nothing can be moved. A function that updates the buffer returns
-- the new one. A sleeping caller gives the processor away: what the other processes do until it
-- runs again is an entry of the schedule that its call is given.
pub mod Bounds
pub mod Refine
pub mod Blocking
mod Tests
use scales_os.Prelude.{
  ℕ, zero, suc, ◌+◌, Bool, List, [], ◌∷◌, ◌++◌, reverse, length, get_or, set, add32, sub32, ltb,
  ◌==◌, if◌then◌else◌,
}

-- `ringbuffer_t`. A wait queue holds the ids of the processes that sleep on it.
pub record RingBuffer : Type 0 where
  pub buffer : List ℕ
  pub size : ℕ
  pub read_ptr : ℕ
  pub write_ptr : ℕ
  pub read_wait_queue : List ℕ
  pub write_wait_queue : List ℕ

-- `ringbuffer_create`; `storage` is what `k_malloc(size)` returns.
pub create : List ℕ → ℕ → RingBuffer
create storage size = record {
  buffer = storage;
  size = size;
  read_ptr = 0;
  write_ptr = 0;
  read_wait_queue = [];
  write_wait_queue = [];
}

unfoldable pub read_available : RingBuffer → ℕ
read_available rb =
    if read_ptr == write_ptr
    then 0
    else if ltb write_ptr read_ptr
    then add32 (sub32 size read_ptr) write_ptr
    else sub32 write_ptr read_ptr
  where
    open rb use {size, read_ptr, write_ptr}

unfoldable pub write_available : RingBuffer → ℕ
write_available rb =
    if read_ptr == write_ptr
    then sub32 size 1
    else if ltb write_ptr read_ptr
    then sub32 (sub32 read_ptr write_ptr) 1
    else sub32 (add32 (sub32 size write_ptr) read_ptr) 1
  where
    open rb use {size, read_ptr, write_ptr}

-- `ptr++`, back to 0 at the end of the buffer.
abbrev pub bump : ℕ → ℕ → ℕ
bump size ptr = if add32 ptr 1 == size then 0 else add32 ptr 1

unfoldable pub bump_write_ptr : RingBuffer → RingBuffer
bump_write_ptr rb = record rb { write_ptr = bump rb.size rb.write_ptr }

unfoldable pub bump_read_ptr : RingBuffer → RingBuffer
bump_read_ptr rb = record rb { read_ptr = bump rb.size rb.read_ptr }

-- The body of the writer's inner loop.
unfoldable pub put : RingBuffer → ℕ → RingBuffer
unfolding bump_write_ptr
put rb byte = bump_write_ptr (record rb { buffer = set rb.buffer rb.write_ptr byte })

-- The body of the reader's inner loop: the byte, and the buffer after it.
unfoldable pub get : RingBuffer → ℕ × RingBuffer
unfolding bump_read_ptr
get rb = (get_or rb.buffer rb.read_ptr 0, bump_read_ptr rb)

-- The writer's inner loop over the bytes that are left, with `written` so far.
unfoldable pub copy_in : RingBuffer → List ℕ → ℕ → ℕ × RingBuffer
unfolding put write_available
copy_in rb [] written = (written, rb)
copy_in rb (x ∷ xs) written =
    let rest = copy_in (put rb x) xs (written + 1) in
    if write_available rb == 0 then (written, rb) else rest

-- The reader's inner loop for `left` more bytes: those that it moves, and the buffer.
unfoldable pub copy_out : RingBuffer → ℕ → List ℕ × RingBuffer
unfolding get read_available
copy_out rb zero = ([], rb)
copy_out rb (suc left) =
    let (bytes, rb') = copy_out (get rb).1 left in
    if read_available rb == 0 then ([], rb) else ((get rb).0 ∷ bytes, rb')

-- The buffer and the scheduler's queue of processes that may run.
pub record Sys : Type 0 where
  pub ring : RingBuffer
  pub ready_queue : List ℕ

-- `k_proc_process_wakeup_queue`: the queue is emptied from its back into the ready queue.
pub wakeup_readers : Sys → Sys
wakeup_readers s = record {
  ring = record s.ring { read_wait_queue = [] };
  ready_queue = s.ready_queue ++ reverse s.ring.read_wait_queue;
}

pub wakeup_writers : Sys → Sys
wakeup_writers s = record {
  ring = record s.ring { write_wait_queue = [] };
  ready_queue = s.ready_queue ++ reverse s.ring.write_wait_queue;
}

-- What happens while a caller sleeps: the steps of others, and whether a signal ended the sleep.
pub record Resume : Type 0 where
  pub others : Sys → Sys
  pub interrupted : Bool

-- How a call ends: with its result, with -ERESTARTSYS, or not yet within the schedule.
pub data Outcome (A : Type 0) : Type 0 where
  returned : A → Sys → Outcome A
  restarted : Sys → Outcome A
  asleep : Sys → Outcome A

pub write_sleep : ℕ → Sys → Sys
write_sleep cur s = record s {
  ring = record s.ring { write_wait_queue = s.ring.write_wait_queue ++ (cur ∷ []) };
}

pub read_sleep : ℕ → Sys → Sys
read_sleep cur s = record s {
  ring = record s.ring { read_wait_queue = s.ring.read_wait_queue ++ (cur ∷ []) };
}

-- One round of `while(!written)`, up to the test for sleeping.
pub write_round : List ℕ → Sys → ℕ × Sys
unfolding copy_in wakeup_readers
write_round src s =
    let (written, rb) = copy_in s.ring src 0 in (written, wakeup_readers (record s { ring = rb }))

pub read_round : ℕ → Sys → List ℕ × Sys
unfolding copy_out wakeup_writers
read_round size s =
    let (bytes, rb) = copy_out s.ring size in (bytes, wakeup_writers (record s { ring = rb }))

-- `ringbuffer_write` by the process `cur` of the bytes `src`.
pub write : ℕ → List ℕ → List Resume → Sys → Outcome ℕ
unfolding write_round write_sleep wakeup_readers
write cur src [] s =
    let (written, s') = write_round src s in
    if written == 0 then asleep (write_sleep cur s') else returned written (wakeup_readers s')
write cur src (e ∷ es) s =
    let (written, s') = write_round src s in
    let woken = e.others (write_sleep cur s') in
    let rest = write cur src es woken in
    if written == 0
    then if e.interrupted then restarted woken else rest
    else returned written (wakeup_readers s')

-- `ringbuffer_read` by the process `cur` of at most `size` bytes.
pub read : ℕ → ℕ → List Resume → Sys → Outcome (List ℕ)
unfolding read_round read_sleep wakeup_writers
read cur size [] s =
    let (bytes, s') = read_round size s in
    if length bytes == 0 then asleep (read_sleep cur s') else returned bytes (wakeup_writers s')
read cur size (e ∷ es) s =
    let (bytes, s') = read_round size s in
    let woken = e.others (read_sleep cur s') in
    let rest = read cur size es woken in
    if length bytes == 0
    then if e.interrupted then restarted woken else rest
    else returned bytes (wakeup_writers s')
