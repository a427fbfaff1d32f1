-- ===== src/Tty/Keys.antt =====
-- Typing on a terminal in canonical mode: keys, what they mean for the line and the input, and the
-- bytes that stand for them (the control characters of kernel/src/dev/tty.c).
use scales_os.Prelude.{
  ℕ, ◌≡◌, Bool, true, not, ◌&&◌, List, [], ◌∷◌, ◌++◌, reverse, length, test_bit, get_or, ltb, ◌==◌,
  if◌then◌else◌,
}
use scales_os.Termios.{
  Termios, inlcr, iuclc, icanon, iexten, echoe, echok, vintr, vquit, verase, vkill, veof, veol,
  vsusp, vlnext, vwerase,
}
use scales_os.Tty.Line.{rub, rub_word, push}

-- What a user does: types a character, quotes one, rubs out a character, a word or the line, hands
-- the line on as it is, or ends it.
pub data Key : Type 0 where
  char : ℕ → Key
  quote : ℕ → Key
  rub_char : Key
  rub_last_word : Key
  kill : Key
  end_of_file : Key
  enter : Key

-- A line with its newline, which takes the last place of a full line.
unfoldable pub ended : List ℕ → List ℕ
ended line = if ltb (length line) 4096 then b'\n' ∷ line else b'\n' ∷ rub line

-- What a key does to the line, the last character first, and to the input.
unfoldable pub type_key : List ℕ × List ℕ → Key → List ℕ × List ℕ
type_key (line, input) (char c) = (push line c, input)
type_key (line, input) (quote c) = (push line c, input)
type_key (line, input) rub_char = (rub line, input)
type_key (line, input) rub_last_word = (rub_word line, input)
type_key (line, input) kill = ([], input)
type_key (line, input) end_of_file = ([], input ++ reverse line)
type_key (line, input) enter = ([], input ++ reverse (ended line))

unfoldable pub type_keys : List ℕ × List ℕ → List Key → List ℕ × List ℕ
type_keys s [] = s
type_keys s (k ∷ ks) = type_keys (type_key s k) ks

abbrev pub control : Termios → ℕ → ℕ
control ts i = get_or ts.c_cc i 0

-- The bytes that a terminal with these settings gets for a key.
unfoldable pub key_bytes : Termios → Key → List ℕ
key_bytes ts (char c) = c ∷ []
key_bytes ts (quote c) = control ts vlnext ∷ c ∷ []
key_bytes ts rub_char = control ts verase ∷ []
key_bytes ts rub_last_word = control ts vwerase ∷ []
key_bytes ts kill = control ts vkill ∷ []
key_bytes ts end_of_file = control ts veof ∷ []
key_bytes ts enter = b'\n' ∷ []

unfoldable pub keys_bytes : Termios → List Key → List ℕ
keys_bytes ts [] = []
keys_bytes ts (k ∷ ks) = key_bytes ts k ++ keys_bytes ts ks

-- A byte that is no signal and that the mappings leave alone, unless it is a newline.
unfoldable pub is_quiet : Termios → ℕ → Bool
is_quiet ts c =
    ltb c 128
    && not (c == b'\r')
    && not (c == control ts vintr)
    && not (c == control ts vquit)
    && not (c == control ts vsusp)

-- A byte that edits nothing.
unfoldable pub is_plain : Termios → ℕ → Bool
is_plain ts c =
    is_quiet ts c
    && not (c == b'\n')
    && not (c == control ts vlnext)
    && not (c == control ts verase)
    && not (c == control ts vwerase)
    && not (c == control ts vkill)
    && not (c == control ts veof)
    && not (c == control ts veol)

-- Settings under which the keys are told apart.
pub record Cooked (ts : Termios) : Type 0 where
  pub modes :
      (test_bit ts.c_lflag icanon
        && test_bit ts.c_lflag echoe
        && test_bit ts.c_lflag echok
        && test_bit ts.c_lflag iexten
        && not (test_bit ts.c_iflag inlcr)
        && not (test_bit ts.c_iflag iuclc))
      ≡ true
  pub lnext_quiet : is_quiet ts (control ts vlnext) ≡ true
  pub erase_quiet :
      (is_quiet ts (control ts verase) && not (control ts verase == control ts vlnext)) ≡ true
  pub werase_quiet :
      (is_quiet ts (control ts vwerase)
        && not (control ts vwerase == control ts vlnext)
        && not (control ts vwerase == control ts verase))
      ≡ true
  pub kill_quiet :
      (is_quiet ts (control ts vkill)
        && not (control ts vkill == control ts vlnext)
        && not (control ts vkill == control ts verase)
        && not (control ts vkill == control ts vwerase))
      ≡ true
  pub eof_quiet :
      (is_quiet ts (control ts veof)
        && not (control ts veof == control ts vlnext)
        && not (control ts veof == control ts verase)
        && not (control ts veof == control ts vwerase)
        && not (control ts veof == control ts vkill))
      ≡ true
  pub newline_quiet :
      (is_quiet ts b'\n'
        && not (b'\n' == control ts vlnext)
        && not (b'\n' == control ts verase)
        && not (b'\n' == control ts vwerase)
        && not (b'\n' == control ts vkill)
        && not (b'\n' == control ts veof))
      ≡ true
