-- ===== src/Socket.antt =====
-- Local sockets, in kernel/src/fs/socket.c. Sockets go by their numbers; the bytes of a socket's buffer stand
-- as a list, whose length is `available_data`. A sleep is an entry of a schedule: what other processes
-- have done to the buffer meanwhile. The loops run on fuel; `stuck` is a loop that needs more.
pub mod Transfer
pub mod Pairs
mod Tests
use scales_os.Prelude.{
  ℕ, zero, suc, ◌+◌, ◌-◌, ◌*◌, ◌≤◌, min, Bool, true, false, Option, none, some, List, [], ◌∷◌, ◌++◌,
  length, take, drop, leb, ltb, ◌==◌, sub32, if◌then◌else◌,
}

-- SOCKET_MAX_BUFFER_SIZE and SOCKET_INIT_BUFFER_SIZE
abbrev pub max_buffer_size : ℕ
max_buffer_size = 65536

abbrev pub init_buffer_size : ℕ
init_buffer_size = 4096

-- `socket_t`: `connect` is the other end, or NULL.
pub record Sock : Type 0 where
  pub connect : Option ℕ
  pub nonblock : Bool
  pub listening : Bool
  pub backlog : List ℕ
  pub bytes : List ℕ
  pub buffer_size : ℕ

-- All sockets, and the first number that is not in use
pub record Store : Type 0 where
  pub socks : ℕ → Sock
  pub fresh : ℕ

abbrev pub update {ℓ} : {A : Type ℓ} → (ℕ → A) → ℕ → A → ℕ → A
update f i v j = if j == i then v else f j

abbrev pub with_sock : Store → ℕ → Sock → Store
with_sock s a sock = record s { socks = update s.socks a sock }

-- `k_fs_socket_create`
abbrev pub new_sock : (nonblock : Bool) → Sock
new_sock nonblock = record {
  connect = none;
  nonblock = nonblock;
  listening = false;
  backlog = [];
  bytes = [];
  buffer_size = init_buffer_size;
}

-- `memcpy` to the start of a buffer
abbrev pub copy_over : (out chunk : List ℕ) → List ℕ
copy_over out chunk = chunk ++ drop (length chunk) out

-- The number of bytes that a read returns with the caller's buffer and the bytes left; a read that still
-- sleeps.
pub data Read : Type 0 where
  returned : (count : ℕ) → (out rest : List ℕ) → Read
  asleep : Read
  stuck : Read

-- The loop of `__k_fs_socket_read`
pub read_loop :
    (fuel : ℕ)
    → (noblock : Bool) → (size left : ℕ) → (bytes out : List ℕ) → (schedule : List (List ℕ)) → Read
read_loop zero noblock size left bytes out schedule = stuck
read_loop (suc n) noblock size zero bytes out schedule = returned size out bytes
read_loop (suc n) noblock size (suc left) [] out schedule =
    if noblock then returned (sub32 size (suc left)) out [] else elim schedule [
      | [] ↦ asleep
      | arrived ∷ later ↦ read_loop n noblock size (suc left) arrived out later
    ]
read_loop (suc n) noblock size (suc left) (b ∷ bytes) out schedule =
    let available = length (b ∷ bytes) in
    let to_read = if ltb size available then size else available in
    let more =
      read_loop n noblock size (sub32 (suc left) to_read) (drop to_read (b ∷ bytes))
        (copy_over out (take to_read (b ∷ bytes))) schedule in
    more

-- `__k_fs_socket_read`
pub read :
    (fuel : ℕ)
    → Sock
    → (noblock : Bool) → (size : ℕ) → (out : List ℕ) → (schedule : List (List ℕ)) → Read
read fuel sock noblock size out schedule = read_loop fuel noblock size size sock.bytes out schedule

-- Waiting for room below SOCKET_MAX_BUFFER_SIZE; a sleep tells how many bytes the other end took.
pub data Room : Type 0 where
  room : (bytes : List ℕ) → (schedule : List ℕ) → Room
  no_room : Room
  sleeps : Room

pub wait_room : (noblock : Bool) → (bytes : List ℕ) → (schedule : List ℕ) → Room
wait_room noblock bytes [] =
    if leb max_buffer_size (length bytes)
    then if noblock then no_room else sleeps
    else room bytes []
wait_room noblock bytes (taken ∷ schedule) =
    let later = wait_room noblock (drop taken bytes) schedule in
    if leb max_buffer_size (length bytes)
    then if noblock then no_room else later
    else room bytes (taken ∷ schedule)

-- The bytes written with the other end's buffer; -ENOBUFS, which leaves what was written before.
pub data Written : Type 0 where
  wrote : (bytes : List ℕ) → (buffer_size : ℕ) → Written
  no_buffers : (bytes : List ℕ) → Written
  write_sleeps : Written
  write_stuck : Written

-- A round of `__k_fs_socket_write` with room in the buffer, and the rounds after it
abbrev pub put_chunk :
    (to_write : ℕ)
    → (buffer bytes : List ℕ) → (buffer_size : ℕ) → (rest : (left : ℕ) → (bytes : List ℕ) → Written)
    → Written
put_chunk to_write buffer bytes buffer_size rest =
    let space = sub32 buffer_size (length bytes) in
    let sz = if ltb space to_write then space else to_write in
    rest (to_write - sz) (bytes ++ take sz buffer)

-- The loop of `__k_fs_socket_write`
pub write_loop :
    (fuel : ℕ)
    → (noblock : Bool) → (to_write : ℕ) → (buffer bytes : List ℕ) → (buffer_size : ℕ)
    → (schedule : List ℕ) → Written
write_loop zero noblock to_write buffer bytes buffer_size schedule = write_stuck
write_loop (suc n) noblock zero buffer bytes buffer_size schedule = wrote bytes buffer_size
write_loop (suc n) noblock (suc left) buffer bytes buffer_size schedule =
    let grown : Written = elim (wait_room noblock bytes schedule) [
      | no_room ↦ no_buffers bytes
      | sleeps ↦ write_sleeps
      | room bytes' schedule' ↦
          put_chunk (suc left) buffer bytes' (buffer_size + init_buffer_size) (λ left' bytes''.
            write_loop n noblock left' buffer bytes'' (buffer_size + init_buffer_size) schedule')
    ] in
    let direct : Written =
      put_chunk (suc left) buffer bytes buffer_size
        (λ left' bytes'. write_loop n noblock left' buffer bytes' buffer_size schedule) in
    if leb buffer_size (length bytes) then grown else direct

-- `__k_fs_socket_write`; `none` is -ENOTCONN.
pub write :
    (fuel : ℕ)
    → Store
    → (a : ℕ) → (noblock : Bool) → (buffer : List ℕ) → (schedule : List ℕ) → Option Written
write fuel s a noblock buffer schedule = elim (s.socks a).connect [
  | none ↦ none
  | some other ↦ some (
      write_loop fuel noblock (length buffer) buffer (s.socks other).bytes
        (s.socks other).buffer_size schedule)
]

-- What `k_fs_socket_connect` comes to before it is accepted
pub data Connected : Type 0 where
  already : Connected
  refused : Connected
  queued : Store → Connected

-- `k_fs_socket_connect` of a local socket to the one that is bound at the path, up to its first sleep
pub connect : Store → (a server : ℕ) → Connected
connect s a server = elim (s.socks a).connect [
  | some other ↦ already
  | none ↦
      let sock = s.socks server in
      if sock.listening
      then queued (with_sock s server (record sock { backlog = sock.backlog ++ (a ∷ []) }))
      else refused
]

-- `k_fs_socket_listen`
pub listen : Store → (a : ℕ) → Store
listen s a = with_sock s a (record (s.socks a) { listening = true })

-- The end that `k_fs_socket_accept` creates for the client that it takes from the backlog
abbrev pub join : Store → (server client : ℕ) → (backlog : List ℕ) → Store
join s server client backlog =
    let popped = with_sock s server (record (s.socks server) { backlog = backlog }) in
    let made =
      with_sock popped s.fresh
        (record (new_sock (s.socks server).nonblock) { connect = some client }) in
    let joined = with_sock made client (record (made.socks client) { connect = some s.fresh }) in
    record joined { fresh = s.fresh + 1 }

-- `k_fs_socket_accept`, with the new end, once the backlog is not empty; `none` is a caller that gets
-- -EAGAIN or sleeps.
pub accept : Store → (server : ℕ) → Option (ℕ × Store)
accept s server = elim (s.socks server).backlog [
  | [] ↦ none
  | client ∷ backlog ↦ some (s.fresh, join s server client backlog)
]

-- `__k_fs_socket_close`
pub close : Store → (a : ℕ) → Store
close s a = elim (s.socks a).connect [
  | none ↦ s
  | some other ↦
      let s' = with_sock s a (record (s.socks a) { connect = none }) in
      with_sock s' other (record (s'.socks other) { connect = none })
]

-- `__k_fs_socket_check` of VFS_EVENT_READ and VFS_EVENT_WRITE
pub can_read : Sock → Bool
can_read sock = if ltb 0 (length sock.bytes) then true else ltb 0 (length sock.backlog)

pub can_write : Sock → Bool
can_write sock = ltb (length sock.bytes) max_buffer_size
