-- ===== src/Tty/Tests.antt =====
-- Runs of the terminal driver's model, on a terminal as it is created.
use scales_os.Prelude.{ℕ, ◌≤◌, ◌≡◌, ◌∙◌, test_bit, refl, Bool, true, List, [], ◌∷◌, arith, length}
use scales_os.Termios.{Termios, sane_ts}
use scales_os.Tty.{line_flush, Tty, sane, write_master, buffer_size}
use scales_os.Tty.Keys.{
  Key, char, quote, rub_char, rub_last_word, enter, Cooked, is_plain, is_quiet, keys_bytes,
  type_keys, type_key, ended,
}
use scales_os.Tty.Input.{type_keys-Edited, AreTypable, IsTypable}
use scales_os.Tty.Line.{Edited, push, rub, rub_word}
use scales_os.Tty.Signals.{write_master-bounded}
use scales_os.Tty.Ioctl.{ioctl, set_attrs}

abbrev anyone : ℕ → Bool
anyone p = true

-- "hi thre", a rub-out of the word, "there", a typo and its rub-out, and enter.
abbrev greeting : List Key
greeting =
    char b'h'
    ∷ char b'i'
    ∷ char b' '
    ∷ char b't'
    ∷ char b'r'
    ∷ rub_last_word
    ∷ char b'y'
    ∷ quote 0x7f
    ∷ rub_char
    ∷ char b'o'
    ∷ enter
    ∷ []

sane-Cooked : Cooked sane_ts
unfolding test_bit is_quiet
sane-Cooked = record {
  modes = refl;
  lnext_quiet = refl;
  erase_quiet = refl;
  werase_quiet = refl;
  kill_quiet = refl;
  eof_quiet = refl;
  newline_quiet = refl;
}

type_keys-Edited_example :
    Edited sane
      (write_master anyone sane (keys_bytes sane_ts greeting))
      (type_keys ([], []) greeting).0
      (type_keys ([], []) greeting).1
unfolding AreTypable IsTypable is_plain is_quiet
type_keys-Edited_example =
    type_keys-Edited anyone greeting sane refl sane-Cooked
      (refl, (refl, (refl, (refl, (refl, (tt, (refl, (tt, (tt, (refl, (tt, tt)))))))))))

typed_greeting :
    (write_master anyone sane (keys_bytes sane_ts greeting)).in_bytes
    ≡ b'h' ∷ b'i' ∷ b' ' ∷ b'y' ∷ b'o' ∷ b'\n' ∷ []
unfolding type_keys type_key ended push rub rub_word
typed_greeting = type_keys-Edited_example.in_bytes_is ∙ refl

-- A terminal with a process, and "ls" on the line.
abbrev busy : Tty
busy = record sane { process = 7; line = b's' ∷ b'l' ∷ [] }

write_master-bounded_example :
    length (write_master anyone busy (b'a' ∷ b'b' ∷ [])).line ≤ buffer_size
write_master-bounded_example = write_master-bounded anyone (b'a' ∷ b'b' ∷ []) busy (omega arith)

abbrev with_oflag : ℕ → Tty
with_oflag o = record sane {
  ts = record { c_iflag = 0x102; c_oflag = o; c_lflag = 0x803b; c_cc = sane_ts.c_cc };
}

-- The attributes of a terminal out of canonical mode, with VMIN at 1.
abbrev raw_ts : Termios
raw_ts = record { c_iflag = 0x102; c_oflag = 5; c_lflag = 0; c_cc = sane_ts.c_cc }

handed_on : (ioctl busy (set_attrs raw_ts) true).1.in_bytes ≡ b'l' ∷ b's' ∷ []
unfolding ioctl line_flush test_bit
handed_on = refl
