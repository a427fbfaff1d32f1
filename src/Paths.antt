-- ===== src/Paths.antt =====
-- Paths, in kernel/src/util/path.c. A C string stands as the list of its characters. The byte before
-- the copy of an empty string, which `k_util_path_strip` looks at, is taken not to be a slash.
pub mod Parts
pub mod Canonical
mod Tests
use scales_os.Prelude.{
  ltb, ℕ, zero, suc, ◌+◌, ◌-◌, ◌≤◌, Bool, true, false, not, ◌&&◌, Option, none, some, List, [], ◌∷◌,
  ◌++◌, reverse, length, take, drop, leb, ◌==◌, if◌then◌else◌,
}

abbrev pub slash : ℕ
slash = 47

abbrev pub dot : ℕ
dot = 46

-- `!strcmp`
unfoldable pub same_string : List ℕ → List ℕ → Bool
same_string [] [] = true
same_string [] (y ∷ ys) = false
same_string (x ∷ xs) [] = false
same_string (x ∷ xs) (y ∷ ys) = x == y && same_string xs ys

unfoldable pub without_first_slash : List ℕ → List ℕ
without_first_slash [] = []
without_first_slash (c ∷ cs) = if c == slash then cs else c ∷ cs

unfoldable pub without_last_slash : List ℕ → List ℕ
without_last_slash [] = []
without_last_slash (c ∷ []) = if c == slash then [] else c ∷ []
without_last_slash (c ∷ (d ∷ cs)) = c ∷ without_last_slash (d ∷ cs)

-- `k_util_path_strip`
unfoldable pub strip : List ℕ → List ℕ
unfolding same_string without_first_slash without_last_slash
strip path =
    if same_string path (slash ∷ []) then path else without_last_slash (without_first_slash path)

-- How many slashes a string has.
unfoldable pub count_slashes : List ℕ → ℕ
count_slashes [] = 0
count_slashes (c ∷ cs) = (if c == slash then 1 else 0) + count_slashes cs

-- `k_util_path_length`
unfoldable pub path_length : List ℕ → ℕ
unfolding same_string strip count_slashes
path_length path = if same_string path (slash ∷ []) then 0 else count_slashes (strip path) + 1

-- What stands before the first slash: `*strchrnul(s, '/') = '\0'`.
unfoldable pub until_slash : List ℕ → List ℕ
until_slash [] = []
until_slash (c ∷ cs) = if c == slash then [] else c ∷ until_slash cs

-- The loop of `k_util_path_segment` for the segments left to pass, on the string from `iter` on.
unfoldable pub skip : (left : ℕ) → List ℕ → Option (List ℕ)
unfolding until_slash
skip zero s = some s
skip (suc left) s =
    let l = length (until_slash s) in
    let rest = skip left (drop (suc l) s) in
    if leb (length s) (l + 1) then if left == 0 then some s else none else rest

unfoldable pub segment_of : Option (List ℕ) → Option (List ℕ)
unfolding until_slash
segment_of none = none
segment_of (some s) = some (until_slash s)

-- `k_util_path_segment`
unfoldable pub segment : List ℕ → (seg : ℕ) → Option (List ℕ)
unfolding segment_of skip strip
segment path seg = segment_of (skip seg (strip path))

pub pop : List (List ℕ) → List (List ℕ)
pop [] = []
pop (s ∷ stack) = stack

-- What a segment does to the stack, whose top comes first here.
pub push_segment : List (List ℕ) → (seg : List ℕ) → List (List ℕ)
unfolding same_string pop
push_segment stack seg =
    if same_string seg (dot ∷ [])
    then stack
    else if same_string seg (dot ∷ dot ∷ [])
    then pop stack
    else seg ∷ stack

-- A loop of `k_util_path_canonize` over the segments from `i` on; a missing one is a NULL that
-- strcmp reads.
pub push_segments :
    (path : List ℕ) → (i left : ℕ) → (stack : List (List ℕ)) → Option (List (List ℕ))
unfolding segment push_segment
push_segments path i zero stack = some stack
push_segments path i (suc left) stack = elim (segment path i) [
  | none ↦ none
  | some seg ↦ push_segments path (i + 1) left (push_segment stack seg)
]

-- The segments with slashes between them; strncat copies at most 255 characters of each.
pub join_segments : List (List ℕ) → List ℕ
join_segments [] = []
join_segments (seg ∷ []) = take 255 seg
join_segments (seg ∷ (next ∷ segs)) = take 255 seg ++ (slash ∷ join_segments (next ∷ segs))

pub starts_with_slash : List ℕ → Bool
starts_with_slash [] = false
starts_with_slash (c ∷ cs) = c == slash

-- The segments of the root, unless the other path is absolute
pub push_root : (root relative : List ℕ) → Option (List (List ℕ))
unfolding push_segments path_length starts_with_slash
push_root root relative =
    if starts_with_slash relative then some [] else push_segments root 0 (path_length root) []

-- The segments of the other path, unless it is empty
pub push_relative : (relative : List ℕ) → (stack : List (List ℕ)) → Option (List (List ℕ))
unfolding push_segments path_length
push_relative [] stack = some stack
push_relative (c ∷ cs) stack = push_segments (c ∷ cs) 0 (path_length (c ∷ cs)) stack

-- The stack of `k_util_path_canonize`
pub resolve : (root relative : List ℕ) → Option (List (List ℕ))
unfolding push_root push_relative
resolve root relative = elim (push_root root relative) [
  | none ↦ none
  | some stack ↦ push_relative relative stack
]

-- `k_util_path_canonize`; `none` is a NULL that strcmp reads, or a path that its buffer of 255 bytes does not
-- hold with its end.
pub canonize : (root relative : List ℕ) → Option (List ℕ)
unfolding resolve join_segments same_string
canonize root relative =
    if same_string root (slash ∷ []) && same_string relative []
    then some root
    else elim (resolve root relative) [
      | none ↦ none
      | some stack ↦
          let path = slash ∷ join_segments (reverse stack) in
          if ltb (length path) 255 then some path else none
    ]

-- `k_util_path_filename`
pub filename : List ℕ → Option (List ℕ)
unfolding same_string path_length segment
filename path =
    if same_string path (slash ∷ []) then some path else segment path (path_length path - 1)

-- `k_util_path_join`
pub join : (base append : List ℕ) → List ℕ
unfolding strip
join base append = strip base ++ (slash ∷ strip append)
