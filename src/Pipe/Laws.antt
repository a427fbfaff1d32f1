-- ===== src/Pipe/Laws.antt =====
-- A pipe moves bytes in order: kernel/src/fs/pipe.c against the buffer of Ring.
use scales_os.Prelude.{
  ℕ, ◌+◌, ◌≡◌, ◌∙◌, inl, inr, refl, sym, ap, true, false, Bool-cases, List, [], ◌∷◌, ◌==◌, subst,
}
use scales_os.Ring
use scales_os.Ring.{RingBuffer, copy_in, copy_out}
use scales_os.Ring.Bounds.{IsValid}
use scales_os.Ring.Refine.{Filled, copy_in-Filled}
use scales_os.Pipe.{
  Pipe, ready, would_block, bump_write_ptr, Resume, Outcome, returned, write_available, put, wakeup,
  write, write_from, wait_room, wait_for,
}

-- The circular buffer of a pipe.
unfoldable pub ring : Pipe → RingBuffer
ring p = record {
  buffer = p.buffer;
  size = p.size;
  read_ptr = p.read_ptr;
  write_ptr = p.write_ptr;
  read_wait_queue = [];
  write_wait_queue = [];
}

write_available-ring : (p : Pipe) → write_available p ≡ Ring.write_available (ring p)
unfolding write_available Ring.write_available ring
write_available-ring p = refl

put-ring : (p : Pipe) (x : ℕ) → ring (put p x) ≡ Ring.put (ring p) x
unfolding put Ring.put ring bump_write_ptr Ring.bump_write_ptr
put-ring p x = refl

-- How a write that does not block ends.
pub record Wrote (p : Pipe) (src : List ℕ) (out : Outcome ℕ) : Type 0 where
  pub count : ℕ
  pub after : Pipe
  pub returned_is : out ≡ returned count after
  pub nobody_waits : after.wait_queue ≡ []
  pub filled : Filled (ring p) src 0 (count, ring after)

-- A caller that finds something to do does not sleep.
pub wait_for-ready :
    (available : Pipe → ℕ) (cur : ℕ) (es : List Resume) (p : Pipe)
    → (available p == 0) ≡ false
    → wait_for available cur es p ≡ ready es p
unfolding wait_for
wait_for-ready available cur [] p room = rw room refl
wait_for-ready available cur (e ∷ es) p room = rw room refl

wait_room-full :
    (cur : ℕ) (es : List Resume) (p : Pipe)
    → (write_available p == 0) ≡ true
    → wait_room true cur es p ≡ would_block
unfolding wait_room
wait_room-full cur es p full = rw full refl

wait_room-ready :
    (cur : ℕ) (es : List Resume) (p : Pipe)
    → (write_available p == 0) ≡ false
    → wait_room true cur es p ≡ ready es p
unfolding wait_room
wait_room-ready cur es p room = rw room (wait_for-ready write_available cur es p room)

write_from-full :
    (cur x : ℕ) (xs : List ℕ) (es : List Resume) (k : ℕ) (p : Pipe)
    → (write_available p == 0) ≡ true
    → write_from true cur (x ∷ xs) es k p ≡ returned k (wakeup p)
unfolding write_from
write_from-full cur x xs es k p full = rw (wait_room-full cur es p full, write_from) refl

write_from-step :
    (cur x : ℕ) (xs : List ℕ) (es : List Resume) (k : ℕ) (p : Pipe)
    → (write_available p == 0) ≡ false
    → write_from true cur (x ∷ xs) es k p ≡ write_from true cur xs es (k + 1) (put p x)
unfolding write_from
write_from-step cur x xs es k p room = rw (wait_room-ready cur es p room, write_from) refl

copy_in-full :
    (x : ℕ) (xs : List ℕ) (k : ℕ) (p : Pipe)
    → (write_available p == 0) ≡ true
    → copy_in (ring p) (x ∷ xs) k ≡ (k, ring p)
unfolding copy_in write_available ring Ring.write_available
copy_in-full x xs k p full = rw full refl

copy_in-step :
    (x : ℕ) (xs : List ℕ) (k : ℕ) (p : Pipe)
    → (write_available p == 0) ≡ false
    → copy_in (ring p) (x ∷ xs) k ≡ copy_in (ring (put p x)) xs (k + 1)
unfolding copy_in
copy_in-step x xs k p room =
    let r = sym (ap (λ (n : ℕ). n == 0) (write_available-ring p)) ∙ room in
    rw r (ap (λ (rb : RingBuffer). copy_in rb xs (k + 1)) (sym (put-ring p x)))

-- A pipe's write that ends as the writer's inner loop of a ring buffer does.
record Copies (out : Outcome ℕ) (copy : ℕ × RingBuffer) : Type 0 where
  after : Pipe
  returned_is : out ≡ returned copy.0 after
  nobody_waits : after.wait_queue ≡ []
  ring_is : ring after ≡ copy.1

write_from-Copies :
    (src : List ℕ) (cur : ℕ) (es : List Resume) (k : ℕ) (p : Pipe)
    → Copies (write_from true cur src es k p) (copy_in (ring p) src k)
unfolding wakeup ring write_from copy_in
write_from-Copies [] cur es k p = record {
  after = wakeup p;
  returned_is = refl;
  nobody_waits = refl;
  ring_is = refl;
}
write_from-Copies (x ∷ xs) cur es k p = elim (Bool-cases (write_available p == 0)) [
  | inl full ↦ record {
    after = wakeup p;
    returned_is =
        write_from-full cur x xs es k p full
        ∙ ap (λ (c : ℕ × RingBuffer). returned c.0 (wakeup p)) (sym (copy_in-full x xs k p full));
    nobody_waits = refl;
    ring_is = ap (λ (c : ℕ × RingBuffer). c.1) (sym (copy_in-full x xs k p full));
  }
  | inr room ↦
      let ih = write_from-Copies xs cur es (k + 1) (put p x) in
      let c = sym (copy_in-step x xs k p room) in
      record {
        after = ih.after;
        returned_is =
            write_from-step cur x xs es k p room
            ∙ ih.returned_is
            ∙ ap (λ (c : ℕ × RingBuffer). returned c.0 ih.after) c;
        nobody_waits = ih.nobody_waits;
        ring_is = ih.ring_is ∙ ap (λ (c : ℕ × RingBuffer). c.1) c;
      }
]

-- A write with O_NOBLOCK to a pipe with its pointers in bounds never sleeps: it puts as many of its
-- bytes as there is room for behind those that are in the pipe, returns their number, and wakes
-- everybody who waits on the pipe.
pub write-Wrote_nonblock :
    (cur : ℕ) (src : List ℕ) (es : List Resume) (p : Pipe)
    → IsValid (ring p)
    → Wrote p src (write true cur src es p)
unfolding write
write-Wrote_nonblock cur src es p v =
    let c = write_from-Copies src cur es 0 p in
    let f = copy_in-Filled src 0 v in
    record {
      count = (copy_in (ring p) src 0).0;
      after = c.after;
      returned_is = c.returned_is;
      nobody_waits = c.nobody_waits;
      filled =
          subst (λ (rb : RingBuffer). Filled (ring p) src 0 ((copy_in (ring p) src 0).0, rb))
            (sym c.ring_is) f;
    }
