-- ===== src/Termios.antt =====
-- libc/include/sys/tty.h: the attributes of a terminal, of which the driver reads these.
use scales_os.Prelude.{ℕ, List, [], ◌∷◌}

-- `struct termios`, with the flag words that the driver reads.
pub record Termios : Type 0 where
  pub c_iflag : ℕ
  pub c_oflag : ℕ
  pub c_lflag : ℕ
  pub c_cc : List ℕ

-- Flags, as the numbers of their bits.
abbrev pub istrip : ℕ
istrip = 5

abbrev pub inlcr : ℕ
inlcr = 6

abbrev pub igncr : ℕ
igncr = 7

abbrev pub icrnl : ℕ
icrnl = 8

abbrev pub iuclc : ℕ
iuclc = 9

abbrev pub opost : ℕ
opost = 0

abbrev pub olcuc : ℕ
olcuc = 1

abbrev pub onlcr : ℕ
onlcr = 2

abbrev pub ocrnl : ℕ
ocrnl = 3

abbrev pub onlret : ℕ
onlret = 5

abbrev pub isig : ℕ
isig = 0

abbrev pub icanon : ℕ
icanon = 1

abbrev pub echo : ℕ
echo = 3

abbrev pub echoe : ℕ
echoe = 4

abbrev pub echok : ℕ
echok = 5

abbrev pub echonl : ℕ
echonl = 6

abbrev pub echoctl : ℕ
echoctl = 7

abbrev pub iexten : ℕ
iexten = 15

-- Indices of the control characters.
abbrev pub vintr : ℕ
vintr = 1

abbrev pub vquit : ℕ
vquit = 2

abbrev pub verase : ℕ
verase = 3

abbrev pub vkill : ℕ
vkill = 4

abbrev pub veof : ℕ
veof = 5

abbrev pub vmin : ℕ
vmin = 6

abbrev pub veol : ℕ
veol = 7

abbrev pub vsusp : ℕ
vsusp = 13

abbrev pub vlnext : ℕ
vlnext = 15

abbrev pub vwerase : ℕ
vwerase = 16

-- `__k_dev_tty_sane_ts`: ICRNL and BRKINT; ONLCR and OPOST; ECHO, ECHOE, ECHOK, ICANON, ISIG and
-- IEXTEN; and the control characters from index 0 on.
abbrev pub sane_ts : Termios
sane_ts = record {
  c_iflag = 0x102;
  c_oflag = 0x5;
  c_lflag = 0x803b;
  c_cc =
      0 ∷ 3 ∷ 28 ∷ 0x7f ∷ 21 ∷ 4 ∷ 1 ∷ 0 ∷ 0 ∷ 0 ∷ 0 ∷ 17 ∷ 19 ∷ 26 ∷ 0 ∷ 22 ∷ 23 ∷ 0 ∷ 0 ∷ 0 ∷ [];
}
