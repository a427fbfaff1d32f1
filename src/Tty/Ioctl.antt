-- ===== src/Tty/Ioctl.antt =====
-- Reads from the slave side of a terminal and its `ioctl`, in kernel/src/dev/tty.c.
use mathlib.Core.List.{append-nil}
use scales_os.Prelude.{
  ℕ, ◌<◌, ◌≡◌, refl, Bool, false, not, ◌&&◌, List, ◌++◌, reverse, arith, test_bit, ltb, ◌==◌,
  if◌then◌else◌,
}
use scales_os.Termios.{Termios, icanon, vmin}
use scales_os.Tty.{Tty, lflag, cc, line_flush}

-- The size that `__k_dev_tty_pty_read_slave` asks of the ring buffer for a caller's `size`, with
-- `available` bytes in it.
pub slave_read_size : Tty → (available size : ℕ) → ℕ
slave_read_size t available size =
    if not (lflag t icanon)
    then if cc t vmin == 0
      then if ltb size available then available else size
      else if ltb size (cc t vmin)
      then cc t vmin
      else size
    else size

-- The requests of `__k_dev_tty_ioctl`; the three that set the attributes are handled alike.
pub data Request : Type 0 where
  get_attrs : Request
  set_attrs : Termios → Request
  get_group : Request
  set_group : ℕ → Request
  other : Request

-- What a request writes back for its caller, or -EINVAL.
pub data Answer : Type 0 where
  done : Answer
  attrs : Termios → Answer
  group : ℕ → Answer
  invalid : Answer

-- `valid` is IS_VALID_PTR of the argument.
unfoldable pub ioctl : Tty → Request → (valid : Bool) → Answer × Tty
ioctl t other valid = (invalid, t)
ioctl t get_attrs valid = if valid then (attrs t.ts, t) else (invalid, t)
ioctl t (set_attrs ts) valid =
    if valid
    then (
      done,
      record (if lflag t icanon && not (test_bit ts.c_lflag icanon) then line_flush t else t) {
        ts = ts;
      },
    )
    else (invalid, t)
ioctl t get_group valid = if valid then (group t.process, t) else (invalid, t)
ioctl t (set_group p) valid = if valid then (done, record t { process = p }) else (invalid, t)

-- The bytes typed and not yet read: the input and the line behind it.
pub pending : Tty → List ℕ
pending t = t.in_bytes ++ reverse t.line

-- No request loses or reorders typed bytes: the input followed by the unfinished line is the same
-- before and after, also when the line is handed on because canonical mode is turned off.
pub ioctl-pending : (t : Tty) (r : Request) (valid : Bool) → pending (ioctl t r valid).1 ≡ pending t
unfolding ioctl pending line_flush
ioctl-pending t other valid = refl
ioctl-pending t get_attrs valid = ground arith
ioctl-pending t (set_attrs ts) valid = ground (arith, append-nil (t.in_bytes ++ reverse t.line))
ioctl-pending t get_group valid = ground arith
ioctl-pending t (set_group p) valid = ground arith

-- Out of canonical mode, when VMIN is 0 and more bytes are waiting than the caller has room for, or
-- VMIN is more than that room, the read copies more bytes than its caller asked for.
pub slave_read_size-overflow :
    (t : Tty) (available size : ℕ)
    → lflag t icanon ≡ false
    → size < (if cc t vmin == 0 then available else cc t vmin)
    → size < slave_read_size t available size
unfolding slave_read_size
slave_read_size-overflow t available size raw more = ground (arith, more)
