-- ===== src/Socket/Transfer.antt =====
-- Bytes through a socket, in kernel/src/fs/socket.c.
use mathlib.Core.List.{append-nil}
use scales_os.Prelude.{
  ℕ, zero, suc, ◌+◌, ◌-◌, ◌<◌, ◌≤◌, ◌^◌, ◌≡◌, ◌≢◌, ◌∙◌, min, refl, sym, ap, ap₂, inl, inr, Bool,
  true, false, Bool-cases, some, List, [], ◌∷◌, ◌++◌, length, take, drop, arith, ltb, leb, ltb→lt,
  lt→ltb, leb→le, take_past, drop_past, length-append, length-take, take-append_self,
  drop-append_self, sub32, take-length, drop-length, length-take, if◌then◌else◌,
}
use scales_os.Socket.{
  Sock, Store, returned, read_loop, read, Written, wrote, put_chunk, write_loop, write, copy_over,
  max_buffer_size, init_buffer_size, wait_room, room,
}

loop-left :
    (n size left : ℕ) (out : List ℕ) (es : List (List ℕ))
    → size < 2 ^ 32
    → read_loop (suc n) true size left [] out es ≡ returned (sub32 size left) out []
unfolding read_loop
loop-left n size zero out es h = ap (λ (k : ℕ). returned k out []) (omega arith)
loop-left n size (suc left) out es h = refl

loop-done :
    (n size : ℕ) (bytes out : List ℕ) (es : List (List ℕ))
    → read_loop (suc n) true size 0 bytes out es ≡ returned size out bytes
unfolding read_loop
loop-done n size bytes out es = refl

loop-data :
    (n size left b : ℕ) (bs out : List ℕ) (es : List (List ℕ)) (t : ℕ)
    → (if ltb size (length (b ∷ bs)) then size else length (b ∷ bs)) ≡ t
    → read_loop (suc n) true size (suc left) (b ∷ bs) out es
      ≡ read_loop n true size
          (sub32 (suc left) t)
          (drop t (b ∷ bs))
          (copy_over out (take t (b ∷ bs)))
          es
unfolding read_loop
loop-data n size left b bs out es t h = rw h refl

-- The loop for each size and buffer
first_bytes :
    (n size : ℕ) (bytes out : List ℕ) (es : List (List ℕ))
    → size < 2 ^ 32
    → read_loop (suc (suc (suc n))) true size size bytes out es
      ≡ returned (min size (length bytes)) (copy_over out (take size bytes)) (drop size bytes)
first_bytes n zero bytes out es h =
    loop-done (suc (suc n)) 0 bytes out es ∙ ap (λ (k : ℕ). returned k out bytes) (omega arith)
first_bytes n (suc m) [] out es h =
    loop-left (suc (suc n)) (suc m) (suc m) out es h
    ∙ ap (λ (k : ℕ). returned k out []) (omega arith)
first_bytes n (suc m) (b ∷ bs) out es h = elim (Bool-cases (ltb (suc m) (length (b ∷ bs)))) [
  | inl less ↦
      let l : suc m < length (b ∷ bs) = ltb→lt (suc m) (length (b ∷ bs)) less in
      let z : sub32 (suc m) (suc m) ≡ 0 = omega arith in
      loop-data (suc (suc n)) (suc m) m b bs out es (suc m) (rw less refl)
      ∙ ap
          (λ (k : ℕ).
            read_loop (suc (suc n)) true (suc m) k (drop m bs) (copy_over out (b ∷ take m bs)) es)
          z
      ∙ loop-done (suc n) (suc m) (drop m bs) (copy_over out (b ∷ take m bs)) es
      ∙ ap (λ (k : ℕ). returned k (copy_over out (b ∷ take m bs)) (drop m bs)) (omega (arith, l))
  | inr more ↦
      let len = length (b ∷ bs) in
      let l : length bs ≤ m = grind (arith, lt→ltb (suc m) len, more) in
      let below = drop-length (b ∷ bs) in
      let taken = take-length (b ∷ bs) in
      let c : sub32 (suc m) (sub32 (suc m) len) ≡ min (suc m) len = omega (arith, l, h) in
      loop-data (suc (suc n)) (suc m) m b bs out es len (rw more refl)
      ∙ ap₂
          (λ (left : List ℕ) (got : List ℕ).
            read_loop (suc (suc n)) true (suc m) (sub32 (suc m) len) left (copy_over out got) es)
          below taken
      ∙ loop-left (suc n) (suc m) (sub32 (suc m) len) (copy_over out (b ∷ bs)) es h
      ∙ ap (λ (k : ℕ). returned k (copy_over out (b ∷ bs)) []) c
      ∙ ap₂
          (λ (got : List ℕ) (rest : List ℕ).
            returned (min (suc m) len) (copy_over out (b ∷ got)) rest)
          (sym (take_past m bs l)) (sym (drop_past m bs l))
]

-- A read of `size` bytes that does not block returns the first `size` bytes of the socket's buffer, or
-- all of them when it holds fewer, at the start of the caller's buffer, and leaves the bytes behind them;
-- `size` is below 2^32, and three rounds are enough.
pub read-Sock :
    (n : ℕ) (sock : Sock) (size : ℕ) (out : List ℕ) (schedule : List (List ℕ))
    → size < 2 ^ 32
    → read (suc (suc (suc n))) sock true size out schedule
      ≡ returned
          (min size (length sock.bytes))
          (copy_over out (take size sock.bytes))
          (drop size sock.bytes)
unfolding read
read-Sock n sock size out es h = first_bytes n size sock.bytes out es h

write-done :
    (n : ℕ) (noblock : Bool) (buffer bytes : List ℕ) (size : ℕ) (es : List ℕ)
    → write_loop (suc n) noblock 0 buffer bytes size es ≡ wrote bytes size
unfolding write_loop
write-done n noblock buffer bytes size es = refl

write-direct :
    (n : ℕ) (noblock : Bool) (left : ℕ) (buffer bytes : List ℕ) (size : ℕ) (es : List ℕ)
    → length bytes < size
    → write_loop (suc n) noblock (suc left) buffer bytes size es
      ≡ put_chunk
          (suc left)
          buffer
          bytes
          size
          (λ left' bytes'. write_loop n noblock left' buffer bytes' size es)
unfolding write_loop
write-direct n noblock left buffer bytes size es h = elim (Bool-cases (leb size (length bytes))) [
  | inl full ↦ absurd (omega (arith, h, leb→le size (length bytes) full))
  | inr off ↦ rw off refl
]

-- Bytes that fit go behind those of the other end.
write-Fits :
    (n : ℕ) (noblock : Bool) (buffer bytes : List ℕ) (size : ℕ) (es : List ℕ)
    → length bytes + length buffer ≤ size
    → size < 2 ^ 32
    → write_loop (suc (suc n)) noblock (length buffer) buffer bytes size es
      ≡ wrote (bytes ++ buffer) size
write-Fits n noblock [] bytes size es fits h =
    write-done (suc n) noblock [] bytes size es
    ∙ ap (λ (xs : List ℕ). wrote xs size) (sym (append-nil bytes))
write-Fits n noblock (x ∷ xs) bytes size es fits h =
    let len = length (x ∷ xs) in
    let space = sub32 size (length bytes) in
    let off : ltb space len ≡ false = ground (arith, fits, h) in
    write-direct (suc n) noblock (length xs) (x ∷ xs) bytes size es (omega (arith, fits))
    ∙ rw off (
        rw (take-length xs) (
          ap (λ (k : ℕ). write_loop (suc n) noblock k (x ∷ xs) (bytes ++ (x ∷ xs)) size es)
            (omega arith)
          ∙ write-done n noblock (x ∷ xs) (bytes ++ (x ∷ xs)) size es))

wait_room-below :
    (noblock : Bool) (bytes es : List ℕ)
    → length bytes < max_buffer_size
    → wait_room noblock bytes es ≡ room bytes es
unfolding wait_room
wait_room-below noblock bytes [] h =
    let f : leb max_buffer_size (length bytes) ≡ false = ground (arith, h) in rw f refl
wait_room-below noblock bytes (taken ∷ es) h =
    let f : leb max_buffer_size (length bytes) ≡ false = ground (arith, h) in rw f refl

write-full :
    (n : ℕ) (noblock : Bool) (left : ℕ) (buffer bytes : List ℕ) (size : ℕ) (es : List ℕ)
    → size ≤ length bytes
    → length bytes < max_buffer_size
    → write_loop (suc n) noblock (suc left) buffer bytes size es
      ≡ put_chunk
          (suc left)
          buffer
          bytes
          (size + init_buffer_size)
          (λ left' bytes'. write_loop n noblock left' buffer bytes' (size + init_buffer_size) es)
unfolding write_loop
write-full n noblock left buffer bytes size es full h =
    let f : leb size (length bytes) ≡ true = ground (arith, full) in
    rw f (rw (wait_room-below noblock bytes es h) refl)

-- The bytes that a round copies
put_chunk-Chunk :
    (left : ℕ) (buffer bytes : List ℕ) (size chunk : ℕ)
    → (if ltb (sub32 size (length bytes)) left then sub32 size (length bytes) else left) ≡ chunk
    → (rest : (left : ℕ) → List ℕ → Written)
    → put_chunk left buffer bytes size rest ≡ rest (left - chunk) (bytes ++ take chunk buffer)
put_chunk-Chunk left buffer bytes size chunk h rest = rw h refl

-- The second round, with the buffer full
repeats :
    (n : ℕ) (noblock : Bool) (left : ℕ) (buffer bytes : List ℕ) (size : ℕ) (es : List ℕ)
    → length bytes ≡ size
    → size < max_buffer_size
    → left ≢ 0
    → left ≤ init_buffer_size
    → write_loop (suc (suc n)) noblock left buffer bytes size es
      ≡ wrote (bytes ++ take left buffer) (size + init_buffer_size)
repeats n noblock zero buffer bytes size es full small ne short = absurd (ne refl)
repeats n noblock (suc left) buffer bytes size es full small ne short =
    write-full (suc n) noblock left buffer bytes size es (omega (arith, full))
      (omega (arith, full, small))
    ∙ put_chunk-Chunk (suc left) buffer bytes (size + init_buffer_size) (suc left)
        (ground (arith, full, small, short))
        (λ left' bytes'.
          write_loop (suc n) noblock left' buffer bytes' (size + init_buffer_size) es)
    ∙ ap
        (λ (k : ℕ).
          write_loop (suc n) noblock k buffer (bytes ++ take (suc left) buffer)
            (size + init_buffer_size) es)
        (omega arith)
    ∙ write-done n noblock buffer (bytes ++ take (suc left) buffer) (size + init_buffer_size) es

connected-write :
    (n : ℕ) (s : Store) (a other : ℕ) (noblock : Bool) (buffer : List ℕ) (es : List ℕ)
    → (s.socks a).connect ≡ some other
    → write n s a noblock buffer es
      ≡ some (
          write_loop n noblock
            (length buffer)
            buffer
            (s.socks other).bytes
            (s.socks other).buffer_size
            es)
unfolding write
connected-write n s a other noblock buffer es c = rw (write, c) refl

-- A write that fits in the other end's buffer goes behind the bytes there, and reads at the other end that
-- do not block return the older bytes first and then exactly what was written, each at the start of the
-- reader's buffer, and leave nothing; the buffer's size is below 2^32.
pub read-write :
    (n : ℕ) (s : Store) (a other : ℕ) (noblock : Bool) (buffer out out' : List ℕ) (es : List ℕ)
    (later : List (List ℕ))
    → (s.socks a).connect ≡ some other
    → length (s.socks other).bytes + length buffer ≤ (s.socks other).buffer_size
    → (s.socks other).buffer_size < 2 ^ 32
    → let peer = s.socks other in
      let old = peer.bytes in
      let queued = old ++ buffer in
      (write (suc (suc n)) s a noblock buffer es ≡ some (wrote queued peer.buffer_size))
      × (read (suc (suc (suc n))) (record peer { bytes = queued }) true (length old) out later
          ≡ returned (length old) (copy_over out old) buffer)
      × (read (suc (suc (suc n))) (record peer { bytes = buffer }) true (length buffer) out' later
          ≡ returned (length buffer) (copy_over out' buffer) [])
read-write n s a other noblock buffer out out' es later c fits h =
    let peer = s.socks other in
    let old = peer.bytes in
    let queued = old ++ buffer in
    let len = length-append old buffer in
    (
      connected-write (suc (suc n)) s a other noblock buffer es c
          ∙ ap some (write-Fits n noblock buffer old peer.buffer_size es fits h),
      read-Sock n (record peer { bytes = queued }) (length old) out later (omega (arith, fits, h))
          ∙ ap
              (λ (k : ℕ).
                returned k (copy_over out (take (length old) queued)) (drop (length old) queued))
              (omega (arith, len))
          ∙ ap₂ (λ (got : List ℕ) (rest : List ℕ). returned (length old) (copy_over out got) rest)
              (take-append_self old buffer) (drop-append_self old buffer),
      read-Sock n (record peer { bytes = buffer }) (length buffer) out' later
            (omega (arith, fits, h))
          ∙ ap
              (λ (k : ℕ).
                returned k (copy_over out' (take (length buffer) buffer))
                  (drop (length buffer) buffer))
              (omega arith)
          ∙ ap₂
              (λ (got : List ℕ) (rest : List ℕ). returned (length buffer) (copy_over out' got) rest)
              (take-length buffer) (drop-length buffer),
    )

-- A write of more bytes than there is room for, and of at most 4096 more, fills the other end's buffer,
-- grows it by 4096 and appends the beginning of what is written a second time, in place of its rest; the
-- buffer has room for a byte at first, and is smaller than 65536.
pub write-Repeats :
    (n : ℕ) (s : Store) (a other space : ℕ) (noblock : Bool) (buffer es : List ℕ)
    → (s.socks a).connect ≡ some other
    → length (s.socks other).bytes + space ≡ (s.socks other).buffer_size
    → space ≢ 0
    → space < length buffer
    → length buffer ≤ space + init_buffer_size
    → (s.socks other).buffer_size < max_buffer_size
    → let peer = s.socks other in
      write (suc (suc (suc n))) s a noblock buffer es
      ≡ some (
          wrote
            (peer.bytes ++ take space buffer ++ take (length buffer - space) buffer)
            (peer.buffer_size + init_buffer_size))
write-Repeats n s a other space noblock [] es c fill some_room long short small =
    absurd (omega (arith, long))
write-Repeats n s a other space noblock (x ∷ xs) es c fill some_room long short small =
    let peer = s.socks other in
    let buffer = x ∷ xs in
    let len = length buffer in
    let size = peer.buffer_size in
    let filled = peer.bytes ++ take space buffer in
    let filled_length : length filled ≡ size =
      omega (
        arith,
        length-append peer.bytes (take space buffer),
        length-take space buffer,
        fill,
        long,
      ) in
    connected-write (suc (suc (suc n))) s a other noblock buffer es c
    ∙ ap some (
        write-direct (suc (suc n)) noblock (length xs) buffer peer.bytes size es
          (omega (arith, fill, some_room))
        ∙ put_chunk-Chunk len buffer peer.bytes size space (ground (arith, fill, small, long))
            (λ left' bytes'. write_loop (suc (suc n)) noblock left' buffer bytes' size es)
        ∙ repeats n noblock (len - space) buffer filled size es filled_length small
            (omega (arith, long)) (omega (arith, short)))
