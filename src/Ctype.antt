-- ===== src/Ctype.antt =====
-- libc/src/ctype/ctype.c over the characters 0 to 127, the non-negative values of a `char`. A result
-- that C reads as a truth value is a `Bool`.
pub mod Classes
mod Tests
use scales_os.Prelude.{ℕ, ◌+◌, ◌-◌, Bool, true, false, not, ◌&&◌, ◌||◌, leb, ◌==◌, if◌then◌else◌}

pub isspace : ℕ → Bool
isspace c =
    if c == b'\t' || c == b'\n' || c == 11 || c == 12 || c == b'\r' || c == b' '
    then true
    else false

unfoldable pub isdigit : ℕ → Bool
isdigit c = leb b'0' c && leb c b'9'

unfoldable pub isalpha : ℕ → Bool
isalpha c = leb b'A' c && leb c b'Z' || leb b'a' c && leb c b'z'

unfoldable pub isalnum : ℕ → Bool
unfolding isalpha isdigit
isalnum c = isalpha c || isdigit c

pub isblank : ℕ → Bool
unfolding isspace
isblank c = isspace c

unfoldable pub iscntrl : ℕ → Bool
iscntrl c = c == 0x7f || leb c 0x1f

unfoldable pub isgraph : ℕ → Bool
isgraph c = leb 0x21 c && leb c 0x7e

unfoldable pub islower : ℕ → Bool
islower c = leb b'a' c && leb c b'z'

unfoldable pub isupper : ℕ → Bool
isupper c = leb b'A' c && leb c b'Z'

unfoldable pub isprint : ℕ → Bool
isprint c = leb 0x20 c && leb c 0x7e

unfoldable pub ispunct : ℕ → Bool
unfolding isalnum isprint
ispunct c = not (c == b' ') && not (isalnum c) && isprint c

unfoldable pub isxdigit : ℕ → Bool
unfolding isdigit
isxdigit c = isdigit c || leb b'A' c && leb c b'F' || leb b'a' c && leb c b'f'

unfoldable pub toupper : ℕ → ℕ
unfolding islower
toupper c = if islower c then c - b'a' + b'A' else c

unfoldable pub tolower : ℕ → ℕ
unfolding isupper
tolower c = if isupper c then c - b'A' + b'a' else c
