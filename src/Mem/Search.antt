-- ===== src/Mem/Search.antt =====
-- Searching and bounded comparison in libc/src/string.
use scales_os.Prelude.{
  ℕ, zero, suc, ◌+◌, ◌%◌, ◌<◌, ◌≡◌, ◌≢◌, refl, ap, arith, ◌==◌, if◌then◌else◌, some, List, [], ◌∷◌,
  length, take,
}
use scales_os.Mem.{strncmp, strchr, strchrnul}
use scales_os.Mem.Strings.{IsString, compare}

-- `strncmp` compares the first `n` characters as `strcmp` compares whole strings.
pub strncmp-compare :
    (a b : List ℕ) (n : ℕ) (m : ℕ → ℕ) (s1 s2 : ℕ)
    → IsString m s1 a
    → IsString m s2 b
    → strncmp m s1 s2 n ≡ compare (take n a) (take n b)
unfolding IsString strncmp compare
strncmp-compare [] [] zero m s1 s2 h h' = refl
strncmp-compare [] (d ∷ ds) zero m s1 s2 h h' = refl
strncmp-compare (c ∷ cs) [] zero m s1 s2 h h' = refl
strncmp-compare (c ∷ cs) (d ∷ ds) zero m s1 s2 h h' = refl
strncmp-compare [] [] (suc n) m s1 s2 h h' = rw (h, h') refl
strncmp-compare [] (d ∷ ds) (suc n) m s1 s2 h h' = rw (h, h'.0) refl
strncmp-compare (c ∷ cs) [] (suc n) m s1 s2 h h' =
    let ne : c ≢ 0 = h.1 in rw (h.0, h') (ground (arith, ne))
strncmp-compare (c ∷ cs) (d ∷ ds) (suc n) m s1 s2 h h' =
    let ih = strncmp-compare cs ds n m (s1 + 1) (s2 + 1) h.2 h'.2 in
    let ne : c ≢ 0 = h.1 in rw (h.0, h'.0, ih) (ground (arith, ne))

-- How many characters stand before the first `c`.
unfoldable pub before : ℕ → List ℕ → ℕ
before c [] = 0
before c (x ∷ xs) = let rest = before c xs in if x == c then 0 else suc rest

-- `strchrnul` is the place of the first `c`, or of the NUL.
pub strchrnul-before :
    (str : List ℕ) (c : ℕ) (m : ℕ → ℕ) (s fuel : ℕ)
    → IsString m s str
    → length str < fuel
    → strchrnul m s c fuel ≡ some (s + before c str)
unfolding IsString strchrnul before
strchrnul-before str c m s zero h le = absurd (omega arith)
strchrnul-before [] c m s (suc fuel) h le = rw h (ap some (omega arith))
strchrnul-before (x ∷ str) c m s (suc fuel) h le =
    let ih = strchrnul-before str c m (s + 1) fuel h.2 (omega arith) in
    let ne : x ≢ 0 = h.1 in
    let e : (s + 1) + before c str ≡ s + suc (before c str) = omega arith in
    rw (h.0, ih) (ground (arith, ne, e))

-- `strchr` of a character other than NUL is the place of the first one, or NULL when there is none.
pub strchr-before :
    (str : List ℕ) (c : ℕ) (m : ℕ → ℕ) (s fuel : ℕ)
    → IsString m s str
    → c ≢ 0
    → c < 256
    → length str < fuel
    → strchr m s c fuel ≡ some (if before c str == length str then 0 else s + before c str)
unfolding IsString strchr before
strchr-before str c m s zero h nz b le = absurd (omega arith)
strchr-before [] c m s (suc fuel) h nz b le = rw h (ground arith)
strchr-before (x ∷ str) c m s (suc fuel) h nz b le =
    let ih = strchr-before str c m (s + 1) fuel h.2 nz b (omega arith) in
    let ne : x ≢ 0 = h.1 in
    let e : c % 256 ≡ c = omega arith in rw (h.0, e, ih) (ground (arith, ne))
