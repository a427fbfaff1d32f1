-- ===== src/Ring/Refine.antt =====
-- A valid ring buffer behaves as the queue of the bytes that it holds.
use mathlib.Core.List.{append-nil, append_assoc}
use scales_os.Prelude.{
  ℕ, zero, suc, ◌+◌, ◌-◌, ◌≡◌, ◌≢◌, refl, sym, ap, ◌∙◌, inl, inr, List, [], ◌∷◌, ◌++◌, arith, min,
  length, take, get_or, take-cons, take-nil, ◌==◌, Bool-cases,
}
use scales_os.Circular.{window, window-set, window_pos, length-window, succ_index, Offset}
use scales_os.Ring.{RingBuffer, read_available, write_available, put, get, copy_in, copy_out}
use scales_os.Ring.Bounds.{IsValid, read_available-add-write_available, put-IsValid, get-IsValid}

-- The bytes that are still to be read, oldest first.
abbrev pub contents : RingBuffer → List ℕ
contents rb = window rb.buffer rb.size rb.read_ptr (read_available rb)

pub length-contents : (rb : RingBuffer) → length (contents rb) ≡ read_available rb
length-contents rb = length-window rb.buffer rb.size rb.read_ptr (read_available rb)

write_ptr-Offset :
    {rb : RingBuffer} → IsValid rb → Offset rb.size rb.read_ptr (read_available rb) rb.write_ptr
unfolding read_available
write_ptr-Offset v = ground arith

pub read_available-put :
    {rb : RingBuffer} (x : ℕ)
    → IsValid rb
    → write_available rb ≢ 0
    → read_available (put rb x) ≡ suc (read_available rb)
unfolding read_available write_available put
read_available-put x v room = ground arith

pub read_available-get :
    {rb : RingBuffer}
    → IsValid rb
    → read_available rb ≢ 0
    → read_available (get rb).1 ≡ read_available rb - 1
unfolding read_available get
read_available-get v some_left = ground arith

-- A byte put into a valid buffer that has room becomes its newest byte.
pub contents-put :
    {rb : RingBuffer} (x : ℕ)
    → IsValid rb
    → write_available rb ≢ 0
    → contents (put rb x) ≡ contents rb ++ (x ∷ [])
unfolding put
contents-put {rb} x v room = rw (read_available-put x v room) (
    window-set rb.buffer rb.size x (read_available rb) rb.read_ptr rb.write_ptr (omega arith)
      v.read_in (omega (arith, read_available-add-write_available v)) v.write_in
      (write_ptr-Offset v))

read_ptr-get : {rb : RingBuffer} → IsValid rb → (get rb).1.read_ptr ≡ succ_index rb.size rb.read_ptr
unfolding get
read_ptr-get v = ground arith

-- The byte got from a valid buffer that is not empty is its oldest byte.
pub contents-get :
    {rb : RingBuffer}
    → IsValid rb
    → read_available rb ≢ 0
    → contents rb ≡ (get rb).0 ∷ contents (get rb).1
unfolding get
contents-get {rb} v left =
    window_pos rb.buffer rb.size rb.read_ptr (read_available rb) left ∙ sym shifted
  where
    shifted :
        (get rb).0 ∷ contents (get rb).1
        ≡ get_or rb.buffer rb.read_ptr 0
          ∷ window rb.buffer rb.size (succ_index rb.size rb.read_ptr) (read_available rb - 1)
    shifted = rw (read_available-get v left, read_ptr-get v)

pub write_available-put :
    {rb : RingBuffer} (x : ℕ)
    → IsValid rb
    → write_available rb ≢ 0
    → write_available (put rb x) ≡ write_available rb - 1
unfolding write_available put
write_available-put {rb} x v room = omega (
  arith,
  read_available-put x v room,
  read_available-add-write_available v,
  read_available-add-write_available (put-IsValid x v),
)

-- The writer's inner loop moves as many bytes as fit, behind the bytes that were there.
pub record Filled (rb : RingBuffer) (src : List ℕ) (k : ℕ) (out : ℕ × RingBuffer) : Type 0 where
  pub valid : IsValid out.1
  pub count : out.0 ≡ k + min (length src) (write_available rb)
  pub bytes : contents out.1 ≡ contents rb ++ take (write_available rb) src
  pub room : write_available out.1 + out.0 ≡ write_available rb + k

pub copy_in-Filled :
    (src : List ℕ) {rb : RingBuffer} (k : ℕ) → IsValid rb → Filled rb src k (copy_in rb src k)
unfolding copy_in
copy_in-Filled [] {rb} k v = record {
  valid = v;
  count = omega arith;
  bytes = rw (take-nil, append-nil);
  room = refl;
}
copy_in-Filled (x ∷ xs) {rb} k v = elim (Bool-cases (write_available rb == 0)) [
  | inl full ↦
      let e : write_available rb ≡ 0 = ground arith in
      rw full (record { valid = v; count = omega arith; bytes = rw (e, append-nil); room = refl })
  | inr room ↦
      let ne : write_available rb ≢ 0 = ground arith in
      let rest = copy_in-Filled xs (k + 1) (put-IsValid x v) in
      rw room (record {
        valid = rest.valid;
        count = omega (arith, rest.count, write_available-put x v ne);
        bytes =
            rest.bytes
            ∙ rw (contents-put x v ne, write_available-put x v ne, take-cons _ x xs ne)
                (append_assoc (contents rb) (x ∷ []) (take (write_available rb - 1) xs));
        room = omega (arith, rest.room, write_available-put x v ne);
      })
]

-- The reader's inner loop takes as many bytes as it is asked for and there are, oldest first.
pub record Drained (rb : RingBuffer) (n : ℕ) (out : List ℕ × RingBuffer) : Type 0 where
  pub valid : IsValid out.1
  pub count : length out.0 ≡ min n (read_available rb)
  pub bytes : contents rb ≡ out.0 ++ contents out.1

pub copy_out-Drained : (n : ℕ) {rb : RingBuffer} → IsValid rb → Drained rb n (copy_out rb n)
unfolding copy_out
copy_out-Drained zero v = record { valid = v; count = omega arith; bytes = refl }
copy_out-Drained (suc n) {rb} v = elim (Bool-cases (read_available rb == 0)) [
  | inl done ↦
      let e : read_available rb ≡ 0 = ground arith in
      rw done (record { valid = v; count = omega arith; bytes = refl })
  | inr more ↦
      let ne : read_available rb ≢ 0 = ground arith in
      let rest = copy_out-Drained n (get-IsValid v) in
      rw more (record {
        valid = rest.valid;
        count = omega (arith, rest.count, read_available-get v ne);
        bytes = contents-get v ne ∙ ap (◌∷◌ (get rb).0) rest.bytes;
      })
]
