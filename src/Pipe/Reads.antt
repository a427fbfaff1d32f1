-- ===== src/Pipe/Reads.antt =====
-- Reading from a pipe, in kernel/src/fs/pipe.c.
use mathlib.Core.List.{append-nil, append_assoc}
use scales_os.Prelude.{
  ℕ, zero, suc, ◌-◌, ◌≤◌, ◌<◌, ◌≡◌, ◌≢◌, ◌∙◌, refl, sym, ap, Bool, true, false, ◌&&◌, arith, List,
  [], ◌∷◌, ◌++◌, length, ltb, ◌==◌, subst,
}
use scales_os.Ring
use scales_os.Ring.{RingBuffer}
use scales_os.Ring.Bounds.{IsValid, get-IsValid}
use scales_os.Ring.Refine.{contents, contents-get, read_available-get}
use scales_os.Pipe.{
  Pipe, Resume, Outcome, returned, again, read_available, get, bump_read_ptr, wakeup, read,
  read_from,
}
use scales_os.Pipe.Laws.{ring, wait_for-ready}

read_available-ring : (p : Pipe) → read_available p ≡ Ring.read_available (ring p)
unfolding read_available Ring.read_available ring
read_available-ring p = refl

get-ring : (p : Pipe) → Ring.get (ring p) ≡ ((get p).0, ring (get p).1)
unfolding get Ring.get ring bump_read_ptr Ring.bump_read_ptr
get-ring p = refl

-- A read that returns `bytes` behind those that it has, the oldest bytes of the pipe.
pub record Reads (p : Pipe) (got : List ℕ) (size : ℕ) (out : Outcome (List ℕ)) : Type 0 where
  pub bytes : List ℕ
  pub after : Pipe
  pub returned_is : out ≡ returned (got ++ bytes) after
  pub nobody_waits : after.wait_queue ≡ []
  pub count : length bytes ≡ size
  pub oldest : contents (ring p) ≡ bytes ++ contents (ring after)

read_from-step :
    (cur size : ℕ) (es : List Resume) (got : List ℕ) (p : Pipe)
    → read_available p ≢ 0
    → read_from cur (suc size) es got p ≡ read_from cur size es (got ++ ((get p).0 ∷ [])) (get p).1
unfolding read_from
read_from-step cur size es got p some_left =
    let e : (read_available p == 0) ≡ false = ground (arith, some_left) in
    rw (wait_for-ready read_available cur es p e, read_from) refl

contents-wakeup : (p : Pipe) → contents (ring p) ≡ contents (ring (wakeup p))
unfolding ring wakeup
contents-wakeup p = refl

wait_queue-wakeup : (p : Pipe) → (wakeup p).wait_queue ≡ []
unfolding wakeup
wait_queue-wakeup p = refl

read_from-Reads :
    (size cur : ℕ) (es : List Resume) (got : List ℕ) (p : Pipe)
    → IsValid (ring p)
    → size ≤ read_available p
    → Reads p got size (read_from cur size es got p)
unfolding read_from
read_from-Reads zero cur es got p v le = record {
  bytes = [];
  after = wakeup p;
  returned_is = ap (λ (l : List ℕ). returned l (wakeup p)) (sym (append-nil got));
  nobody_waits = wait_queue-wakeup p;
  count = refl;
  oldest = contents-wakeup p;
}
read_from-Reads (suc size) cur es got p v le =
    let b = (get p).0 in
    let p' = (get p).1 in
    let g = get-ring p in
    let ra = read_available-ring p in
    let some_left : Ring.read_available (ring p) ≢ 0 = omega (arith, ra, le) in
    let v' = subst (λ (r : ℕ × RingBuffer). IsValid r.1) g (get-IsValid v) in
    let fewer =
      subst (λ (r : ℕ × RingBuffer). Ring.read_available r.1 ≡ Ring.read_available (ring p) - 1) g
        (read_available-get v some_left) in
    let enough : size ≤ read_available p' = omega (arith, fewer, ra, read_available-ring p', le) in
    let ih = read_from-Reads size cur es (got ++ (b ∷ [])) p' v' enough in
    let first =
      subst (λ (r : ℕ × RingBuffer). contents (ring p) ≡ r.0 ∷ contents r.1) g
        (contents-get v some_left) in
    record {
      bytes = b ∷ ih.bytes;
      after = ih.after;
      returned_is =
          read_from-step cur size es got p (omega (arith, le))
          ∙ ih.returned_is
          ∙ ap (λ (l : List ℕ). returned l ih.after) (append_assoc got (b ∷ []) ih.bytes);
      nobody_waits = ih.nobody_waits;
      count = omega (arith, ih.count);
      oldest = first ∙ ap (λ (l : List ℕ). b ∷ l) ih.oldest;
    }

-- A read of no more bytes than a valid pipe holds takes the oldest ones, exactly as many as asked
-- for, without sleeping, and wakes everybody who waits on the pipe.
pub read-Reads :
    (nonblock : Bool) (cur size : ℕ) (es : List Resume) (p : Pipe)
    → IsValid (ring p)
    → size ≤ read_available p
    → Reads p [] size (read nonblock cur size es p)
unfolding read
read-Reads nonblock cur size es p v le =
    let t : (nonblock && ltb (read_available p) size) ≡ false = ground (arith, le) in
    rw t (read_from-Reads size cur es [] p v le)

-- With O_NOBLOCK a read of more bytes than there are gives -EAGAIN and takes none.
pub read-again :
    (cur size : ℕ) (es : List Resume) (p : Pipe)
    → read_available p < size
    → read true cur size es p ≡ again p
unfolding read
read-again cur size es p lt =
    let t : ltb (read_available p) size ≡ true = ground (arith, lt) in rw t refl
