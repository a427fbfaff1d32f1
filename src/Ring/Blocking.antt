-- ===== src/Ring/Blocking.antt =====
-- `ringbuffer_write` and `ringbuffer_read` against every schedule of the other processes.
use mathlib.Core.List.{append-nil}
use scales_os.Prelude.{
  ℕ, zero, suc, ◌+◌, ◌<◌, ◌≡◌, ◌≢◌, refl, sym, ap, ◌∙◌, ◌⊎◌, inl, inr, List, [], ◌∷◌, ◌++◌, reverse,
  arith, min, length, take, take-nil, All, ◌==◌, Bool-cases,
}
use scales_os.Ring.{
  RingBuffer, Sys, Resume, Outcome, returned, restarted, asleep, read_available, write_available,
  put, get, copy_in, copy_out, wakeup_readers, wakeup_writers, write_sleep, read_sleep, write_round,
  read_round, write, read,
}
use scales_os.Ring.Bounds.{IsValid}
use scales_os.Ring.Refine.{contents, copy_in-Filled, copy_out-Drained}

-- The other processes leave the buffer valid.
abbrev pub KeepValid : List Resume → Type 0
KeepValid = All λ e. (s : Sys) → IsValid s.ring → IsValid (e.others s).ring

take-min : (k : ℕ) (xs : List ℕ) → take (min (length xs) k) xs ≡ take k xs
take-min zero [] = refl
take-min (suc k) [] = take-nil ℕ _
take-min zero (x ∷ xs) = let e : min (suc (length xs)) 0 ≡ 0 = omega arith in rw e
take-min (suc k) (x ∷ xs) =
    let e : min (suc (length xs)) (suc k) ≡ suc (min (length xs) k) = omega arith in
    rw e (ap (◌∷◌ x) (take-min k xs))

IsValid-queues :
    (rb : RingBuffer) (rs ws : List ℕ)
    → IsValid rb
    → IsValid (record rb { read_wait_queue = rs; write_wait_queue = ws })
IsValid-queues rb rs ws v = omega arith

contents-queues :
    (rb : RingBuffer) (rs ws : List ℕ)
    → contents (record rb { read_wait_queue = rs; write_wait_queue = ws }) ≡ contents rb
unfolding read_available
contents-queues rb rs ws = refl

write_available-queues :
    (rb : RingBuffer) (rs ws : List ℕ)
    → write_available (record rb { read_wait_queue = rs; write_wait_queue = ws })
      ≡ write_available rb
unfolding write_available
write_available-queues rb rs ws = refl

read_wait_queue-copy_in :
    (src : List ℕ) (rb : RingBuffer) (k : ℕ)
    → (copy_in rb src k).1.read_wait_queue ≡ rb.read_wait_queue
unfolding copy_in put
read_wait_queue-copy_in [] rb k = refl
read_wait_queue-copy_in (x ∷ xs) rb k =
    ground (arith, read_wait_queue-copy_in xs (put rb x) (k + 1))

write_wait_queue-copy_out :
    (n : ℕ) (rb : RingBuffer) → (copy_out rb n).1.write_wait_queue ≡ rb.write_wait_queue
unfolding copy_out get
write_wait_queue-copy_out zero rb = refl
write_wait_queue-copy_out (suc n) rb = ground (arith, write_wait_queue-copy_out n (get rb).1)

-- What one round of the writer does: bytes behind the old ones, and all readers woken.
record Round (src : List ℕ) (s : Sys) (out : ℕ × Sys) : Type 0 where
  valid : IsValid out.1.ring
  count : out.0 ≡ min (length src) (write_available s.ring)
  bytes : contents out.1.ring ≡ contents s.ring ++ take out.0 src
  room : write_available out.1.ring + out.0 ≡ write_available s.ring
  woken : out.1.ring.read_wait_queue ≡ []
  ready : out.1.ready_queue ≡ s.ready_queue ++ reverse s.ring.read_wait_queue

write_round-Round : (src : List ℕ) (s : Sys) → IsValid s.ring → Round src s (write_round src s)
unfolding write_round wakeup_readers
write_round-Round src s v =
    let f = copy_in-Filled src 0 v in
    record {
      valid = IsValid-queues _ [] _ f.valid;
      count = omega (arith, f.count);
      bytes =
          contents-queues (copy_in s.ring src 0).1 [] _
          ∙ f.bytes
          ∙ ap (◌++◌ (contents s.ring))
              (sym (take-min _ src) ∙ ap (λ n. take n src) (omega (arith, f.count)));
      room = omega (
        arith,
        f.room,
        write_available-queues (copy_in s.ring src 0).1 []
            (copy_in s.ring src 0).1.write_wait_queue,
      );
      woken = refl;
      ready = rw (read_wait_queue-copy_in src s.ring 0);
    }

-- What the writer may find when it looks: the state at the start, or what the other processes make, in
-- one of the writer's sleeps, of a state whose buffer holds the bytes that the writer found before it.
pub Finds : List Resume → (s t : Sys) → Type 0
Finds [] s t = s ≡ t
Finds (e ∷ es) s t =
    (s ≡ t) ⊎ ((u : Sys) × (contents u.ring ≡ contents s.ring) × Finds es (e.others u) t)

-- How a write may end: it has returned with the bytes that fit behind those it found, or restarts, or sleeps.
abbrev pub Wrote : List ℕ → List Resume → Sys → Outcome ℕ → Type 0
Wrote src es start (returned n s) =
    IsValid s.ring
    × (0 < n)
    × ((t : Sys) × Finds es start t
        × (n ≡ min (length src) (write_available t.ring))
        × (contents s.ring ≡ contents t.ring ++ take n src))
    × (s.ring.read_wait_queue ≡ [])
Wrote src es start (restarted s) = IsValid s.ring
Wrote src es start (asleep s) = IsValid s.ring × ((src ≡ []) ⊎ (write_available s.ring ≡ 0))

begins_with : (es : List Resume) (s : Sys) → Finds es s s
unfolding Finds
begins_with [] s = refl
begins_with (e ∷ es) s = inl refl

write_lem-done :
    (src : List ℕ) (es : List Resume) (s : Sys)
    → IsValid s.ring
    → (write_round src s).0 ≢ 0
    → Wrote src es s (returned (write_round src s).0 (wakeup_readers (write_round src s).1))
unfolding wakeup_readers
write_lem-done src es s v ne =
    let r = write_round-Round src s v in
    (
      IsValid-queues _ [] _ r.valid,
      omega arith,
      (s, begins_with es s, r.count, contents-queues (write_round src s).1.ring [] _ ∙ r.bytes),
      refl,
    )

write_sleep-IsValid : (cur : ℕ) (s : Sys) → IsValid s.ring → IsValid (write_sleep cur s).ring
unfolding write_sleep
write_sleep-IsValid cur s v = IsValid-queues _ _ _ v

write-asleep :
    (cur : ℕ) (src : List ℕ) (s : Sys)
    → IsValid s.ring
    → (write_round src s).0 ≡ 0
    → (src ≡ []) ⊎ (write_available (write_sleep cur (write_round src s).1).ring ≡ 0)
unfolding write_sleep
write-asleep cur [] s v e = inl refl
write-asleep cur (x ∷ xs) s v e =
    let r = write_round-Round (x ∷ xs) s v in
    let t = (write_round (x ∷ xs) s).1.ring in
    inr (
      write_available-queues t t.read_wait_queue (t.write_wait_queue ++ (cur ∷ []))
      ∙ omega (arith, r.room, r.count))

-- A round that moves nothing leaves the bytes as they were.
idle_round :
    (cur : ℕ) (src : List ℕ) (s : Sys)
    → IsValid s.ring
    → (write_round src s).0 ≡ 0
    → contents (write_sleep cur (write_round src s).1).ring ≡ contents s.ring
unfolding write_sleep
idle_round cur src s v e =
    let r = write_round-Round src s v in
    let t = (write_round src s).1.ring in
    contents-queues t t.read_wait_queue (t.write_wait_queue ++ (cur ∷ []))
    ∙ r.bytes
    ∙ ap (λ (n : ℕ). contents s.ring ++ take n src) e
    ∙ append-nil (contents s.ring)

later_Wrote :
    (src : List ℕ) (e : Resume) (es : List Resume) (s u : Sys) (o : Outcome ℕ)
    → contents u.ring ≡ contents s.ring
    → Wrote src es (e.others u) o
    → Wrote src (e ∷ es) s o
unfolding Finds
later_Wrote src e es s u (returned n s') same (v, some_bytes, (t, found, count, bytes), woken) =
    (v, some_bytes, (t, inr (u, same, found), count, bytes), woken)
later_Wrote src e es s u (restarted s') same w = w
later_Wrote src e es s u (asleep s') same w = w

-- Whatever the other processes do while the writer sleeps, so long as they leave the buffer valid,
-- a write that returns has put as many of its bytes as fit, at least one, in order, behind the bytes that
-- were there when it last looked, and has woken every reader; it is still asleep only with nothing to
-- write or no room; and the buffer stays valid however it ends. The writer's own sleeping leaves the bytes
-- as they are.
pub write-Wrote :
    (cur : ℕ) (src : List ℕ) (es : List Resume) (s : Sys)
    → KeepValid es
    → IsValid s.ring
    → Wrote src es s (write cur src es s)
unfolding write Finds
write-Wrote cur src [] s k v = elim (Bool-cases ((write_round src s).0 == 0)) [
  | inl idle ↦ rw idle (
    write_sleep-IsValid cur (write_round src s).1 (write_round-Round src s v).valid,
    write-asleep cur src s v (ground arith),
  )
  | inr done ↦ rw done (write_lem-done src [] s v (ground arith))
]
write-Wrote cur src (e ∷ es) s k v = elim (Bool-cases ((write_round src s).0 == 0)) [
  | inl idle ↦
      let u = write_sleep cur (write_round src s).1 in
      let woken : Sys = e.others u in
      let w : IsValid woken.ring =
        k.0 _ (write_sleep-IsValid cur (write_round src s).1 (write_round-Round src s v).valid) in
      let same = idle_round cur src s v (ground (arith, idle)) in
      rw idle (elim (Bool-cases e.interrupted) [
        | inl i ↦ rw i w
        | inr i ↦ rw i (
            later_Wrote src e es s u (write cur src es woken) same
              (write-Wrote cur src es woken k.1 w))
      ])
  | inr done ↦ rw done (write_lem-done src (e ∷ es) s v (ground arith))
]

write-done :
    (cur : ℕ) (src : List ℕ) (es : List Resume) (s : Sys)
    → (write_round src s).0 ≢ 0
    → write cur src es s ≡ returned (write_round src s).0 (wakeup_readers (write_round src s).1)
unfolding write
write-done cur src [] s ne = ground arith
write-done cur src (e ∷ es) s ne = ground arith

-- With room in a valid buffer and something to write, a write never sleeps: whatever the schedule,
-- it moves at once as many bytes as fit and makes every sleeping reader ready.
pub write-returned :
    (cur : ℕ) (src : List ℕ) (es : List Resume) (s : Sys)
    → IsValid s.ring
    → src ≢ []
    → write_available s.ring ≢ 0
    → (s' : Sys) × (write cur src es s ≡ returned (min (length src) (write_available s.ring)) s')
      × (contents s'.ring ≡ contents s.ring ++ take (write_available s.ring) src)
      × (s'.ready_queue ≡ s.ready_queue ++ reverse s.ring.read_wait_queue)
unfolding wakeup_readers
write-returned cur [] es s v some_src room = absurd (some_src refl)
write-returned cur (x ∷ xs) es s v some_src room =
    let r = write_round-Round (x ∷ xs) s v in
    (
      wakeup_readers (write_round (x ∷ xs) s).1,
      write-done cur (x ∷ xs) es s (omega (arith, r.count))
          ∙ ap (λ n. returned n (wakeup_readers (write_round (x ∷ xs) s).1)) r.count,
      contents-queues (write_round (x ∷ xs) s).1.ring [] _
          ∙ r.bytes
          ∙ ap (◌++◌ (contents s.ring)) (ap (λ n. take n (x ∷ xs)) r.count ∙ take-min _ (x ∷ xs)),
      rw r.woken (append-nil _ ∙ r.ready),
    )

-- A write of no bytes never returns: it sleeps until a signal interrupts it.
pub write-nil :
    (cur : ℕ) (es : List Resume) (s s' : Sys) (n : ℕ) → write cur [] es s ≢ returned n s'
unfolding write write_round copy_in
write-nil cur [] s s' n e = cc
write-nil cur (r ∷ es) s s' n e =
    ground (arith, write-nil cur es (r.others (write_sleep cur (write_round [] s).1)) s' n)

read-done :
    (cur size : ℕ) (es : List Resume) (s : Sys)
    → length (read_round size s).0 ≢ 0
    → read cur size es s ≡ returned (read_round size s).0 (wakeup_writers (read_round size s).1)
unfolding read
read-done cur size [] s ne = ground arith
read-done cur size (e ∷ es) s ne = ground arith

-- With bytes in a valid buffer and some asked for, a read never sleeps: whatever the schedule, it
-- takes at once as many of the oldest bytes as it is asked for and there are, leaves the others in
-- order, and makes every sleeping writer ready.
pub read-returned :
    (cur size : ℕ) (es : List Resume) (s : Sys)
    → IsValid s.ring
    → size ≢ 0
    → read_available s.ring ≢ 0
    → (bytes : List ℕ) × (s' : Sys) × (read cur size es s ≡ returned bytes s')
      × (length bytes ≡ min size (read_available s.ring))
      × (contents s.ring ≡ bytes ++ contents s'.ring)
      × (s'.ready_queue ≡ s.ready_queue ++ reverse s.ring.write_wait_queue)
unfolding read_round wakeup_writers
read-returned cur size es s v ne left =
    let d = copy_out-Drained size v in
    (
      (read_round size s).0,
      wakeup_writers (read_round size s).1,
      read-done cur size es s (omega (arith, d.count)),
      d.count,
      d.bytes
          ∙ ap (◌++◌ (read_round size s).0) (
              sym (
                contents-queues (copy_out s.ring size).1 (copy_out s.ring size).1.read_wait_queue
                  [])),
      append-nil _ ∙ rw (write_wait_queue-copy_out size s.ring),
    )

-- A read of no bytes never returns: it sleeps until a signal interrupts it.
pub read-zero :
    (cur : ℕ) (es : List Resume) (s s' : Sys) (bytes : List ℕ) → read cur 0 es s ≢ returned bytes s'
unfolding read read_round copy_out
read-zero cur [] s s' bytes e = cc
read-zero cur (r ∷ es) s s' bytes e =
    ground (arith, read-zero cur es (r.others (read_sleep cur (read_round 0 s).1)) s' bytes)
