-- ===== src/Mem.antt =====
-- libc/src/string: copying, filling and comparing bytes, and C strings, over a memory that gives
-- each address its byte. The portable loops are modelled, not the assembly that may stand in for
-- memset and memcpy; no object reaches the end of the address space. A loop over a string runs on
-- fuel, `none` when it is not enough.
pub mod Copy
pub mod Strings
pub mod Search
mod Tests
use scales_os.Prelude.{
  ℕ, zero, suc, ◌+◌, ◌-◌, ◌%◌, Bool, true, false, not, ◌&&◌, ◌||◌, Option, none, some, ltb, leb,
  ◌==◌, if◌then◌else◌,
}

-- `*p = b`
abbrev pub store : (ℕ → ℕ) → ℕ → ℕ → ℕ → ℕ
store m p b x = if x == p then b else m x

-- `memset`; a byte is what is left of `c`.
pub memset : (ℕ → ℕ) → (dest c n : ℕ) → ℕ → ℕ
memset m dest c zero = m
memset m dest c (suc n) = memset (store m dest (c % 256)) (dest + 1) c n

-- The loop of `memcpy`
pub copy_up : (ℕ → ℕ) → (to from n : ℕ) → ℕ → ℕ
copy_up m to from zero = m
copy_up m to from (suc n) = copy_up (store m to (m from)) (to + 1) (from + 1) n

-- `memcpy`, which does nothing with a NULL pointer.
pub memcpy : (ℕ → ℕ) → (dest src n : ℕ) → ℕ → ℕ
memcpy m dest src n = if not (dest == 0) && not (src == 0) then copy_up m dest src n else m

-- The loop of `memmove` that runs downwards, from index `n - 1`.
pub copy_down : (ℕ → ℕ) → (to from n : ℕ) → ℕ → ℕ
copy_down m to from zero = m
copy_down m to from (suc n) = copy_down (store m (to + n) (m (from + n))) to from n

-- `memmove` of less than 2 ^ 31 bytes, so that `(int)n` is `n`.
pub memmove : (ℕ → ℕ) → (dest src n : ℕ) → ℕ → ℕ
memmove m to from n =
    if from == to || n == 0
    then m
    else if ltb from to && ltb (to - from) n
    then copy_down m to from n
    else if ltb to from && ltb (from - to) n
    then copy_up m to from n
    else memcpy m to from n

-- `memcmp`: `(u1, u2)` stands for the difference u1 - u2.
pub memcmp : (ℕ → ℕ) → (s1 s2 n : ℕ) → ℕ × ℕ
memcmp m s1 s2 zero = (0, 0)
memcmp m s1 s2 (suc n) =
    let rest = memcmp m (s1 + 1) (s2 + 1) n in if m s1 == m s2 then rest else (m s1, m s2)

-- One more than a length.
pub after_one : Option ℕ → Option ℕ
after_one none = none
after_one (some n) = some (n + 1)

-- `strlen`
pub strlen : (ℕ → ℕ) → (s fuel : ℕ) → Option ℕ
strlen m s zero = none
strlen m s (suc fuel) =
    let rest = after_one (strlen m (s + 1) fuel) in if m s == 0 then some 0 else rest

-- `strcmp`, with the result as for `memcmp`.
pub strcmp : (ℕ → ℕ) → (s1 s2 fuel : ℕ) → Option (ℕ × ℕ)
strcmp m s1 s2 zero = none
strcmp m s1 s2 (suc fuel) =
    let rest = strcmp m (s1 + 1) (s2 + 1) fuel in
    if not (m s1 == 0) && m s1 == m s2 then rest else some (m s1, m s2)

-- `strncmp`
pub strncmp : (ℕ → ℕ) → (s1 s2 n : ℕ) → ℕ × ℕ
strncmp m s1 s2 zero = (0, 0)
strncmp m s1 s2 (suc n) =
    let rest = strncmp m (s1 + 1) (s2 + 1) n in
    if not (m s1 == 0) && m s1 == m s2 then rest else (m s1, m s2)

-- `strchr`: an address, or NULL.
pub strchr : (ℕ → ℕ) → (s c fuel : ℕ) → Option ℕ
strchr m s c zero = none
strchr m s c (suc fuel) =
    let rest = strchr m (s + 1) c fuel in
    if m s == c % 256 then some s else if m s == 0 then some 0 else rest

-- `strchrnul` of a character below 128, which has the same number as a char.
pub strchrnul : (ℕ → ℕ) → (s c fuel : ℕ) → Option ℕ
strchrnul m s c zero = none
strchrnul m s c (suc fuel) =
    let rest = strchrnul m (s + 1) c fuel in if m s == 0 || c == m s then some s else rest

-- `strcpy` to a destination that is not NULL.
pub strcpy : (ℕ → ℕ) → (destination source fuel : ℕ) → Option (ℕ → ℕ)
strcpy m d s zero = none
strcpy m d s (suc fuel) =
    let rest = strcpy (store m d (m s)) (d + 1) (s + 1) fuel in
    if m s == 0 then some (store m d 0) else rest

-- `strncpy` to a destination that is not NULL; `num` bounds the loop.
pub strncpy : (ℕ → ℕ) → (destination source num : ℕ) → ℕ → ℕ
strncpy m d s zero = store m d 0
strncpy m d s (suc num) =
    let rest = strncpy (store m d (m s)) (d + 1) (s + 1) num in
    if m s == 0 then store m d 0 else rest

-- `strcat`
pub strcat : (ℕ → ℕ) → (destination source fuel : ℕ) → Option (ℕ → ℕ)
strcat m d s fuel = elim (strlen m d fuel) [ none ↦ none | some n ↦ strcpy m (d + n) s fuel ]

-- `strncat`
pub strncat : (ℕ → ℕ) → (destination source num fuel : ℕ) → Option (ℕ → ℕ)
strncat m d s num fuel = elim (strlen m d fuel) [
  | none ↦ none
  | some n ↦ some (strncpy m (d + n) s num)
]
