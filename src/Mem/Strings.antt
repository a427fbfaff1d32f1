-- ===== src/Mem/Strings.antt =====
-- The string functions of libc/src/string on a memory that holds C strings: each gives enough of
-- its fuel a result, and the result is that of the operation on lists of characters.
use scales_os.Prelude.{
  ℕ, zero, suc, ◌+◌, ◌≤◌, ◌<◌, ◌≡◌, ◌≢◌, ◌⊎◌, ◌∙◌, inl, inr, refl, sym, ap, Bool, true, false, ◌&&◌,
  Bool-cases, arith, ◌==◌, if◌then◌else◌, Option, some, List, [], ◌∷◌, ◌++◌, length, subst, take,
  length-append,
}
use scales_os.Mem.{store, after_one, strlen, strcmp, strcpy, strncpy, strcat, strncat}

-- The string `str` stands at `s`: its characters, none of them NUL, and the NUL behind them.
unfoldable pub IsString : (ℕ → ℕ) → ℕ → List ℕ → Type 0
IsString m s [] = m s ≡ 0
IsString m s (c ∷ str) = (m s ≡ c) × (c ≢ 0) × IsString m (s + 1) str

-- `strlen` is the number of characters.
pub strlen-IsString :
    (str : List ℕ) (m : ℕ → ℕ) (s fuel : ℕ)
    → IsString m s str
    → length str < fuel
    → strlen m s fuel ≡ some (length str)
unfolding IsString strlen after_one
strlen-IsString str m s zero h le = absurd (omega arith)
strlen-IsString [] m s (suc fuel) h le = ground (arith, h)
strlen-IsString (c ∷ str) m s (suc fuel) h le =
    let ih = strlen-IsString str m (s + 1) fuel h.2 (omega arith) in
    let ne : (m s == 0) ≡ false = ground (arith, h.0, h.1) in rw ne (rw ih (ap some (omega arith)))

-- How two strings compare: the first pair of characters that differ, the NULs included, or the two
-- NULs.
unfoldable pub compare : List ℕ → List ℕ → ℕ × ℕ
compare [] [] = (0, 0)
compare [] (d ∷ ds) = (0, d)
compare (c ∷ cs) [] = (c, 0)
compare (c ∷ cs) (d ∷ ds) = if c == d then compare cs ds else (c, d)

strcmp-compare :
    (a b : List ℕ) (m : ℕ → ℕ) (s1 s2 fuel : ℕ)
    → IsString m s1 a
    → IsString m s2 b
    → length a < fuel
    → strcmp m s1 s2 fuel ≡ some (compare a b)
unfolding IsString strcmp compare
strcmp-compare a b m s1 s2 zero h h' le = absurd (omega arith)
strcmp-compare [] [] m s1 s2 (suc fuel) h h' le = rw (h, h') refl
strcmp-compare [] (d ∷ ds) m s1 s2 (suc fuel) h h' le = rw (h, h'.0) refl
strcmp-compare (c ∷ cs) [] m s1 s2 (suc fuel) h h' le =
    let ne : c ≢ 0 = h.1 in rw (h.0, h') (ground (arith, ne))
strcmp-compare (c ∷ cs) (d ∷ ds) m s1 s2 (suc fuel) h h' le =
    let ih = strcmp-compare cs ds m (s1 + 1) (s2 + 1) fuel h.2 h'.2 (omega arith) in
    let ne : c ≢ 0 = h.1 in rw (h.0, h'.0, ih) (ground (arith, ne))

-- Whether two strings are the same.
unfoldable pub same_string : List ℕ → List ℕ → Bool
same_string [] [] = true
same_string [] (d ∷ ds) = false
same_string (c ∷ cs) [] = false
same_string (c ∷ cs) (d ∷ ds) = c == d && same_string cs ds

compare-same_string :
    (a b : List ℕ) (m : ℕ → ℕ) (s1 s2 : ℕ)
    → IsString m s1 a
    → IsString m s2 b
    → ((compare a b).0 == (compare a b).1) ≡ same_string a b
unfolding compare same_string IsString
compare-same_string [] [] m s1 s2 h h' = refl
compare-same_string [] (d ∷ ds) m s1 s2 h h' = let ne : d ≢ 0 = h'.1 in ground (arith, ne)
compare-same_string (c ∷ cs) [] m s1 s2 h h' = let ne : c ≢ 0 = h.1 in ground (arith, ne)
compare-same_string (c ∷ cs) (d ∷ ds) m s1 s2 h h' =
    let ih = compare-same_string cs ds m (s1 + 1) (s2 + 1) h.2 h'.2 in
    elim (Bool-cases (c == d)) [ inl e ↦ rw e ih | inr ne ↦ rw ne ne ]

-- `strcmp` of two strings, given enough fuel for the first, returns the difference of the first
-- characters that differ, and returns 0 exactly when the strings are the same.
pub strcmp-same_string :
    (a b : List ℕ) (m : ℕ → ℕ) (s1 s2 fuel : ℕ)
    → IsString m s1 a
    → IsString m s2 b
    → length a < fuel
    → (strcmp m s1 s2 fuel ≡ some (compare a b))
      × (((compare a b).0 == (compare a b).1) ≡ same_string a b)
strcmp-same_string a b m s1 s2 fuel h h' le =
    (strcmp-compare a b m s1 s2 fuel h h' le, compare-same_string a b m s1 s2 h h')

-- The memory `m'` is `m` outside the `n` bytes from `d` on.
unfoldable pub SameOutside : (ℕ → ℕ) → (ℕ → ℕ) → ℕ → ℕ → Type 0
SameOutside m m' d n = (x : ℕ) → (x < d) ⊎ (d + n ≤ x) → m' x ≡ m x

-- A string that no change reaches.
IsString-SameOutside :
    (str : List ℕ) (m m' : ℕ → ℕ) (s d n : ℕ)
    → SameOutside m m' d n
    → (s + length str < d) ⊎ (d + n ≤ s)
    → IsString m s str
    → IsString m' s str
unfolding IsString SameOutside
IsString-SameOutside [] m m' s d n same apart h = same s (ground (arith, apart)) ∙ h
IsString-SameOutside (c ∷ str) m m' s d n same apart h = (
  same s (ground (arith, apart)) ∙ h.0,
  h.1,
  IsString-SameOutside str m m' (s + 1) d n same (ground (arith, apart)) h.2,
)

-- A result that holds `str` at `d` and has changed nothing but its characters and their NUL.
pub record Copied (m : ℕ → ℕ) (d : ℕ) (str : List ℕ) (result : Option (ℕ → ℕ)) : Type 0 where
  pub after : ℕ → ℕ
  pub is_after : result ≡ some after
  pub holds : IsString after d str
  pub same : SameOutside m after d (length str + 1)

store-SameOutside : (m : ℕ → ℕ) (d b : ℕ) → SameOutside m (store m d b) d 1
unfolding SameOutside
store-SameOutside m d b x out = ground (arith, out)

-- A range of one byte and the range behind it.
SameOutside-trans :
    (m m' m'' : ℕ → ℕ) (d n k : ℕ)
    → k ≡ n + 1
    → SameOutside m m' d 1
    → SameOutside m' m'' (d + 1) n
    → SameOutside m m'' d k
unfolding SameOutside
SameOutside-trans m m' m'' d n k e p q x out =
    q x (ground (arith, out, e)) ∙ p x (ground (arith, out, e))

-- `strcpy` of a string to a place that it does not overlap leaves the string there, and nothing
-- else is changed.
pub strcpy-Copied :
    (str : List ℕ) (m : ℕ → ℕ) (d s fuel : ℕ)
    → IsString m s str
    → (d + length str < s) ⊎ (s + length str < d)
    → length str < fuel
    → Copied m d str (strcpy m d s fuel)
unfolding IsString strcpy SameOutside
strcpy-Copied str m d s zero h apart le = absurd (omega arith)
strcpy-Copied [] m d s (suc fuel) h apart le = rw h record {
  after = store m d 0;
  is_after = refl;
  holds = ground arith;
  same = store-SameOutside m d 0;
}
strcpy-Copied (c ∷ str) m d s (suc fuel) h apart le =
    let m1 = store m d (m s) in
    let moved =
      IsString-SameOutside str m m1 (s + 1) d 1 (store-SameOutside m d (m s))
        (ground (arith, apart)) h.2 in
    let ih =
      strcpy-Copied str m1 (d + 1) (s + 1) fuel moved (ground (arith, apart)) (omega arith) in
    let ne : (m s == 0) ≡ false = ground (arith, h.0, h.1) in
    rw ne record {
      after = ih.after;
      is_after = ih.is_after;
      holds = (ih.same d (ground arith) ∙ ground (arith, h.0), h.1, ih.holds);
      same =
          SameOutside-trans m m1 ih.after d (length str + 1) _ (omega arith)
            (store-SameOutside m d (m s)) ih.same;
    }

-- A string with another written at its end.
IsString-append :
    (a b : List ℕ) (m m' : ℕ → ℕ) (d n : ℕ)
    → IsString m d a
    → SameOutside m m' (d + length a) n
    → IsString m' (d + length a) b
    → IsString m' d (a ++ b)
unfolding IsString SameOutside
IsString-append [] b m m' d n h same end = subst (λ (x : ℕ). IsString m' x b) (omega arith) end
IsString-append (c ∷ a) b m m' d n h same end =
    let e : d + suc (length a) ≡ (d + 1) + length a = omega arith in
    (
      same d (ground arith) ∙ h.0,
      h.1,
      IsString-append a b m m' (d + 1) n h.2 (subst (λ (x : ℕ). SameOutside m m' x n) e same)
          (subst (λ (x : ℕ). IsString m' x b) e end),
    )

-- `strcat` of a string to one that it does not overlap, given fuel for both, leaves the two one
-- behind the other, and nothing else is changed.
pub strcat-Copied :
    (a b : List ℕ) (m : ℕ → ℕ) (d s fuel : ℕ)
    → IsString m d a
    → IsString m s b
    → (d + length a + length b < s) ⊎ (s + length b < d)
    → length a < fuel
    → length b < fuel
    → Copied m d (a ++ b) (strcat m d s fuel)
unfolding SameOutside strcat
strcat-Copied a b m d s fuel ha hb apart la lb =
    let len = length-append a b in
    let c = strcpy-Copied b m (d + length a) s fuel hb (ground (arith, apart)) lb in
    rw (strlen-IsString a m d fuel ha la, strcat)
      record {
        after = c.after;
        is_after = c.is_after;
        holds = IsString-append a b m c.after d _ ha c.same c.holds;
        same = λ x out. c.same x (ground (arith, out, len));
      }

strncpy-step :
    (m : ℕ → ℕ) (d s num : ℕ)
    → m s ≢ 0
    → strncpy m d s (suc num) ≡ strncpy (store m d (m s)) (d + 1) (s + 1) num
unfolding strncpy
strncpy-step m d s num ne = let e : (m s == 0) ≡ false = ground (arith, ne) in rw e refl

strncpy-zero : (m : ℕ → ℕ) (d s : ℕ) → strncpy m d s 0 ≡ store m d 0
unfolding strncpy
strncpy-zero m d s = refl

strncpy-end : (m : ℕ → ℕ) (d s num : ℕ) → m s ≡ 0 → strncpy m d s (suc num) ≡ store m d 0
unfolding strncpy
strncpy-end m d s num e = let t : (m s == 0) ≡ true = ground (arith, e) in rw t refl

-- The memory `m'` holds `str` at `d` and is else `m`.
abbrev pub Written : (ℕ → ℕ) → ℕ → List ℕ → (ℕ → ℕ) → Type 0
Written m d str m' = IsString m' d str × SameOutside m m' d (length str + 1)

-- `strncpy` of a string to a place that it does not overlap leaves the first `num` characters of it
-- there, always ended by a NUL, and changes nothing else.
pub strncpy-Written :
    (str : List ℕ) (num : ℕ) (m : ℕ → ℕ) (d s : ℕ)
    → IsString m s str
    → (d + length str < s) ⊎ (s + length str < d)
    → Written m d (take num str) (strncpy m d s num)
unfolding IsString SameOutside
strncpy-Written str zero m d s h apart =
    subst (Written m d []) (sym (strncpy-zero m d s)) (ground arith, store-SameOutside m d 0)
strncpy-Written [] (suc num) m d s h apart =
    subst (Written m d []) (sym (strncpy-end m d s num h)) (ground arith, store-SameOutside m d 0)
strncpy-Written (c ∷ str) (suc num) m d s h apart =
    let m1 = store m d (m s) in
    let moved =
      IsString-SameOutside str m m1 (s + 1) d 1 (store-SameOutside m d (m s))
        (ground (arith, apart)) h.2 in
    let ih = strncpy-Written str num m1 (d + 1) (s + 1) moved (ground (arith, apart)) in
    let ne : m s ≢ 0 = ground (arith, h.0, h.1) in
    subst (Written m d (c ∷ take num str)) (sym (strncpy-step m d s num ne)) (
      (ih.1 d (ground arith) ∙ ground (arith, h.0), h.1, ih.0),
      SameOutside-trans m m1 (strncpy m1 (d + 1) (s + 1) num) d (length (take num str) + 1) _
          (omega arith) (store-SameOutside m d (m s)) ih.1,
    )

-- `strncat` appends at most `num` characters of a string to one that it does not overlap.
pub strncat-Copied :
    (a b : List ℕ) (num : ℕ) (m : ℕ → ℕ) (d s fuel : ℕ)
    → IsString m d a
    → IsString m s b
    → (d + length a + length b < s) ⊎ (s + length b < d)
    → length a < fuel
    → Copied m d (a ++ take num b) (strncat m d s num fuel)
unfolding strncat SameOutside
strncat-Copied a b num m d s fuel ha hb apart la =
    let len = length-append a (take num b) in
    let w = strncpy-Written b num m (d + length a) s hb (ground (arith, apart)) in
    rw (strlen-IsString a m d fuel ha la, strncat)
      record {
        after = strncpy m (d + length a) s num;
        is_after = refl;
        holds = IsString-append a (take num b) m (strncpy m (d + length a) s num) d _ ha w.1 w.0;
        same = λ x out. w.1 x (ground (arith, out, len));
      }
