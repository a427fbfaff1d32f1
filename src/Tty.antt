-- ===== src/Tty.antt =====
-- kernel/src/dev/tty.c: the line discipline of a terminal. A character is a byte below 128: a
-- negative `char` is not modelled. The two ring buffers stand as the sequences of the bytes that
-- are put into them in all; a put waits for room (Ring), and an interrupted wait, which loses its
-- byte, is not modelled. The callback of a virtual terminal only takes bytes out.
pub mod Output
pub mod Line
pub mod Keys
pub mod Input
pub mod Signals
pub mod Ioctl
mod Tests
use scales_os.Prelude.{
  ℕ, zero, suc, ◌+◌, ◌-◌, ◌%◌, Bool, true, false, not, ◌&&◌, ◌||◌, Option, none, some, List, [],
  ◌∷◌, ◌++◌, reverse, length, get_or, replicate, min, test_bit, ltb, leb, ◌==◌, if◌then◌else◌,
}
use scales_os.Termios.{
  Termios, istrip, inlcr, igncr, icrnl, iuclc, opost, olcuc, onlcr, ocrnl, onlret, isig, icanon,
  echo, echoe, echok, echonl, echoctl, iexten, vintr, vquit, verase, vkill, veof, veol, vsusp,
  vlnext, vwerase, sane_ts,
}
use scales_os.Ctype.{iscntrl, islower, isupper, tolower}

-- `tty_t`. `line` is the first `line_length` bytes of `line_buffer`, the last one first; `next_l`
-- is TTY_FLAG_NEXTL; `signals` are the calls of k_proc_process_send_signal, the last one first.
pub record Tty : Type 0 where
  pub ts : Termios
  pub in_bytes : List ℕ
  pub out_bytes : List ℕ
  pub line : List ℕ
  pub next_l : Bool
  pub process : ℕ
  pub signals : List (ℕ × ℕ)

abbrev pub buffer_size : ℕ
buffer_size = 4096

abbrev pub iflag : Tty → ℕ → Bool
iflag t bit = test_bit t.ts.c_iflag bit

abbrev pub oflag : Tty → ℕ → Bool
oflag t bit = test_bit t.ts.c_oflag bit

abbrev pub lflag : Tty → ℕ → Bool
lflag t bit = test_bit t.ts.c_lflag bit

abbrev pub cc : Tty → ℕ → ℕ
cc t i = get_or t.ts.c_cc i 0

-- PUTC_IN and PUTC_OUT
abbrev pub putc_in : Tty → ℕ → Tty
putc_in t c = record t { in_bytes = t.in_bytes ++ (c ∷ []) }

abbrev pub putc_out : Tty → ℕ → Tty
putc_out t c = record t { out_bytes = t.out_bytes ++ (c ∷ []) }

-- The end of the output processing: upper case, which takes `isupper(c)` for the character, and
-- the put.
pub finish_output : Tty → ℕ → Tty
finish_output t c =
    if oflag t olcuc && islower c then putc_out t (if isupper c then 1 else 0) else putc_out t c

-- From the test for '\r' on.
pub return_output : Tty → ℕ → Tty
unfolding finish_output
return_output t c = if c == b'\r' && oflag t onlret then t else finish_output t c

-- `__k_dev_tty_pty_process_output_char`
pub process_output : Tty → ℕ → Tty
unfolding return_output
process_output t c =
    if not (oflag t opost)
    then putc_out t c
    else if c == b'\n'
    then if oflag t onlcr
      then return_output (putc_out t b'\r') c
      else if oflag t ocrnl
      then return_output t b'\r'
      else return_output t c
    else return_output t c

-- The same character a number of times.
pub repeat_output : Tty → ℕ → ℕ → Tty
unfolding process_output
repeat_output t c zero = t
repeat_output t c (suc n) = repeat_output (process_output t c) c n

-- One round of the loop of `__k_dev_tty_erase`, given the line; it runs only with a character on it.
pub erase_last : Tty → (line : List ℕ) → Tty
erase_last t [] = t
erase_last t (last ∷ rest) =
    let shorter = record t { line = rest } in
    if lflag t echo
    then repeat_output shorter 0x08 (if lflag t echoctl && iscntrl last then 2 else 1)
    else shorter

pub erase_times : Tty → ℕ → Tty
erase_times t zero = t
erase_times t (suc n) = erase_times (erase_last t t.line) n

-- `__k_dev_tty_erase`
pub erase : Tty → ℕ → Tty
erase t amount = erase_times t (min amount (length t.line))

-- `__k_dev_tty_line_putc`
pub line_putc : Tty → ℕ → Tty
line_putc t c = if ltb (length t.line) buffer_size then record t { line = c ∷ t.line } else t

-- `__k_dev_tty_line_flush`
pub line_flush : Tty → Tty
line_flush t = record t { in_bytes = t.in_bytes ++ reverse t.line; line = [] }

-- The two calls that show a control character as ^X.
pub output_ctl : Tty → ℕ → Tty
output_ctl t c = process_output (process_output t b'^') ((b'@' + c) % 128)

-- How a typed character is shown.
pub echo_char : Tty → ℕ → Tty
echo_char t c =
    if lflag t echo
    then if lflag t echoctl && iscntrl c then output_ctl t c else process_output t c
    else t

-- The signal that a character stands for.
pub signal_of : Tty → ℕ → Option ℕ
signal_of t c =
    if c == cc t vintr
    then some 2
    else if c == cc t vquit
    then some 3
    else if c == cc t vsusp
    then some 20
    else none

-- What the character of a signal does; `alive` is the answer of k_proc_process_find_by_pid.
pub raise_signal : (ℕ → Bool) → Tty → ℕ → ℕ → Tty
raise_signal alive t c sig =
    let shown = if lflag t echoctl then output_ctl t c else t in
    if ltb 0 t.process && alive t.process
    then record shown { signals = (t.process, sig) ∷ shown.signals }
    else shown

-- The input mappings; `none` for a character that is dropped.
pub map_input : Tty → ℕ → Option ℕ
map_input t c =
    let c' = if iflag t istrip then c % 128 else c in
    if iflag t igncr && c' == b'\r'
    then none
    else if iflag t inlcr && c' == b'\n'
    then some b'\r'
    else if iflag t icrnl && c' == b'\r'
    then some b'\n'
    else some c'

-- No `line_length && line_buffer[line_length - 1] != ' '`.
pub word_erased : (line : List ℕ) → Bool
word_erased [] = true
word_erased (last ∷ rest) = last == b' '

-- The loop over the word, a round for each character.
pub erase_word : Tty → (rounds : ℕ) → Tty
erase_word t zero = t
erase_word t (suc n) = let more = erase_word (erase t 1) n in if word_erased t.line then t else more

-- `line_buffer[line_length - 1] = c`
pub replace_last : List ℕ → ℕ → List ℕ
replace_last [] c = []
replace_last (last ∷ rest) c = c ∷ rest

-- The character that ends a line takes the last place of the buffer, and the line is handed on.
pub end_line : Tty → ℕ → Tty
end_line t c = line_flush (record t { line = replace_last t.line c })

-- The end of the canonical mode: the character goes on the line, and may end it.
pub enter_char : Tty → ℕ → Tty
enter_char t c =
    let t' = echo_char (line_putc t c) c in
    if c == b'\n' || c == cc t veol
    then end_line (if not (lflag t echo) && lflag t echonl then process_output t' c else t') c
    else t'

-- The kill and end-of-file characters.
pub kill_or_enter : Tty → ℕ → Tty
kill_or_enter t c =
    if c == cc t vkill
    then if lflag t echok
      then erase t (length t.line)
      else if lflag t echoctl
      then output_ctl t c
      else t
    else if c == cc t veof
    then line_flush t
    else enter_char t c

-- The erasing characters.
pub erase_or_more : Tty → ℕ → Tty
erase_or_more t c =
    if lflag t echoe
    then if c == cc t verase
      then erase t 1
      else if c == cc t vwerase
      then if not (lflag t iexten) then output_ctl t c else erase_word t (length t.line)
      else kill_or_enter t c
    else if lflag t echoctl && (c == cc t verase || c == cc t vwerase)
    then output_ctl t c
    else kill_or_enter t c

-- The canonical mode.
pub canonical : Tty → ℕ → Tty
canonical t c =
    if c == cc t vlnext && lflag t iexten
    then process_output (process_output (record t { next_l = true }) b'^') 0x08
    else erase_or_more t (if iflag t iuclc && lflag t iexten && isupper c then tolower c else c)

-- Behind the signals: the mappings and the two modes.
pub edit_char : Tty → ℕ → Tty
edit_char t c = elim (map_input t c) [
  | none ↦ t
  | some c' ↦
      if lflag t icanon
      then canonical t c'
      else putc_in (if lflag t echo then process_output t c' else t) c'
]

-- A character behind VLNEXT goes on the line as it is.
pub quoted_char : Tty → ℕ → Tty
quoted_char t c = echo_char (line_putc (record t { next_l = false }) c) c

-- `__k_dev_tty_pty_process_input_char`
pub process_input : (ℕ → Bool) → Tty → ℕ → Tty
process_input alive t c =
    if t.next_l
    then quoted_char t c
    else if lflag t isig
    then elim (signal_of t c) [ some sig ↦ raise_signal alive t c sig | none ↦ edit_char t c ]
    else edit_char t c

-- `__k_dev_tty_pty_write_master`
pub write_master : (ℕ → Bool) → Tty → List ℕ → Tty
write_master alive t [] = t
write_master alive t (c ∷ cs) = write_master alive (process_input alive t c) cs

-- `__k_dev_tty_pty_write_slave`
pub write_slave : Tty → List ℕ → Tty
write_slave t [] = t
write_slave t (c ∷ cs) = write_slave (process_output t c) cs

-- A terminal as `__k_dev_tty_create_tty` leaves it.
abbrev pub sane : Tty
sane = record {
  ts = sane_ts;
  in_bytes = [];
  out_bytes = [];
  line = [];
  next_l = false;
  process = 0;
  signals = [];
}
