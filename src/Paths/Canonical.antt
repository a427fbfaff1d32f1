-- ===== src/Paths/Canonical.antt =====
-- What `k_util_path_canonize` makes of two paths (kernel/src/util/path.c).
use scales_os.Prelude.{
  ℕ, zero, suc, ◌+◌, ◌≤◌, ◌<◌, ◌≡◌, refl, sym, ap, ◌∙◌, subst, true, false, ◌&&◌, Bool-cases,
  Option-cases, inl, inr, none, some, some-injective, List, [], ◌∷◌, reverse, length, get_elem?,
  drop, All, arith, lt→ltb, ltb,
}
use scales_os.Paths.{
  slash, dot, same_string, strip, path_length, segment, pop, push_segment, push_segments,
  starts_with_slash, push_root, push_relative, resolve, join_segments, canonize,
}
use scales_os.Paths.Parts.{parts, ends_plain, path_length-parts, segment-parts}

-- The segments pushed one after the other.
unfoldable pub push_all : List (List ℕ) → (segs : List (List ℕ)) → List (List ℕ)
push_all stack [] = stack
push_all stack (seg ∷ segs) = push_all (push_segment stack seg) segs

drop-at :
    (l : List (List ℕ)) (i : ℕ) (x : List ℕ)
    → get_elem? l i ≡ some x
    → drop i l ≡ x ∷ drop (suc i) l
drop-at [] i x e = absurd (grind arith)
drop-at (y ∷ l) zero x e = ap (λ (z : List ℕ). z ∷ l) (some-injective e)
drop-at (y ∷ l) (suc i) x e = drop-at l i x e

drop-end : (l : List (List ℕ)) (i : ℕ) → length l ≤ i → drop i l ≡ []
drop-end [] zero h = refl
drop-end [] (suc i) h = refl
drop-end (y ∷ l) zero h = absurd (omega (arith, h))
drop-end (y ∷ l) (suc i) h = drop-end l i (omega (arith, h))

at-cases : (l : List (List ℕ)) (i : ℕ) → i < length l → (x : List ℕ) × (get_elem? l i ≡ some x)
at-cases [] i h = absurd (omega (arith, h))
at-cases (y ∷ l) zero h = (y, refl)
at-cases (y ∷ l) (suc i) h = at-cases l i (omega (arith, h))

push_segments-some :
    (path : List ℕ) (i left : ℕ) (stack : List (List ℕ)) (seg : List ℕ)
    → segment path i ≡ some seg
    → push_segments path i (suc left) stack
      ≡ push_segments path (i + 1) left (push_segment stack seg)
unfolding push_segments
push_segments-some path i left stack seg e = rw (push_segments, e) refl

push_segments-none :
    (path : List ℕ) (i left : ℕ) (stack : List (List ℕ))
    → segment path i ≡ none
    → push_segments path i (suc left) stack ≡ none
unfolding push_segments
push_segments-none path i left stack e = rw (push_segments, e) refl

push_segments-from :
    (path : List ℕ) (i left : ℕ) (stack : List (List ℕ))
    → same_string path (slash ∷ []) ≡ false
    → ends_plain (strip path) ≡ true
    → i + left ≡ length (parts (strip path))
    → push_segments path i left stack ≡ some (push_all stack (drop i (parts (strip path))))
unfolding push_segments push_all
push_segments-from path i zero stack nr e h =
    let segs = parts (strip path) in
    ap (λ (l : List (List ℕ)). some (push_all stack l)) (sym (drop-end segs i (omega (arith, h))))
push_segments-from path i (suc left) stack nr e h =
    let segs = parts (strip path) in
    let (seg, at) = at-cases segs i (omega (arith, h)) in
    let here = segment-parts path i nr e (omega (arith, h, path_length-parts path nr)) in
    push_segments-some path i left stack seg (here.1 ∙ at)
    ∙ push_segments-from path (i + 1) left (push_segment stack seg) nr e (omega (arith, h))
    ∙ ap (λ (k : ℕ). some (push_all (push_segment stack seg) (drop k segs))) next
    ∙ ap (λ (l : List (List ℕ)). some (push_all stack l)) (sym (drop-at segs i seg at))
  where
    next : i + 1 ≡ suc i
    next = omega arith

-- No segment of a stack is "." or "..".
unfoldable pub IsPlain : List ℕ → Type 0
IsPlain seg = (same_string seg (dot ∷ []) ≡ false) × (same_string seg (dot ∷ (dot ∷ [])) ≡ false)

pop-IsPlain : (stack : List (List ℕ)) → All IsPlain stack → All IsPlain (pop stack)
unfolding pop
pop-IsPlain [] p = p
pop-IsPlain (s ∷ stack) (q, p) = p

push_segment-IsPlain :
    (stack : List (List ℕ)) (seg : List ℕ)
    → All IsPlain stack
    → All IsPlain (push_segment stack seg)
unfolding push_segment IsPlain
push_segment-IsPlain stack seg p = elim (Bool-cases (same_string seg (dot ∷ []))) [
  | inl a ↦ rw a p
  | inr a ↦ elim (Bool-cases (same_string seg (dot ∷ (dot ∷ [])))) [
    | inl b ↦ rw (a, b) (pop-IsPlain stack p)
    | inr b ↦ rw (a, b) ((a, b), p)
  ]
]

push_segments-IsPlain :
    (path : List ℕ) (i left : ℕ) (stack stack' : List (List ℕ))
    → All IsPlain stack
    → push_segments path i left stack ≡ some stack'
    → All IsPlain stack'
unfolding push_segments
push_segments-IsPlain path i zero stack stack' p e = subst (All IsPlain) (some-injective e) p
push_segments-IsPlain path i (suc left) stack stack' p e = elim (Option-cases (segment path i)) [
  | inl s ↦ absurd (grind (arith, push_segments-none path i left stack s))
  | inr (seg, s) ↦
      push_segments-IsPlain path (i + 1) left (push_segment stack seg) stack'
        (push_segment-IsPlain stack seg p) (sym (push_segments-some path i left stack seg s) ∙ e)
]

push_root-IsPlain :
    (root relative : List ℕ) (stack : List (List ℕ))
    → push_root root relative ≡ some stack
    → All IsPlain stack
unfolding push_root
push_root-IsPlain root relative stack e = elim (Bool-cases (starts_with_slash relative)) [
  | inl s ↦
      let skipped : push_root root relative ≡ some [] = rw (push_root, s) refl in
      subst (All IsPlain) (some-injective (sym skipped ∙ e)) tt
  | inr s ↦
      let pushed : push_root root relative ≡ push_segments root 0 (path_length root) [] =
        rw (push_root, s) refl in
      push_segments-IsPlain root 0 (path_length root) [] stack tt (sym pushed ∙ e)
]

push_relative-IsPlain :
    (relative : List ℕ) (stack stack' : List (List ℕ))
    → All IsPlain stack
    → push_relative relative stack ≡ some stack'
    → All IsPlain stack'
unfolding push_relative
push_relative-IsPlain [] stack stack' p e = subst (All IsPlain) (some-injective e) p
push_relative-IsPlain (c ∷ cs) stack stack' p e =
    push_segments-IsPlain (c ∷ cs) 0 (path_length (c ∷ cs)) stack stack' p e

resolve-none :
    (root relative : List ℕ) → push_root root relative ≡ none → resolve root relative ≡ none
unfolding resolve
resolve-none root relative e = rw (resolve, e) refl

resolve-some :
    (root relative : List ℕ) (stack : List (List ℕ))
    → push_root root relative ≡ some stack
    → resolve root relative ≡ push_relative relative stack
unfolding resolve
resolve-some root relative stack e = rw (resolve, e) refl

-- Whatever the root and the path, the segments that canonizing leaves are neither "." nor "..".
pub resolve-IsPlain :
    (root relative : List ℕ) (stack : List (List ℕ))
    → resolve root relative ≡ some stack
    → All IsPlain stack
resolve-IsPlain root relative stack e = elim (Option-cases (push_root root relative)) [
  | inl r ↦ absurd (grind (arith, resolve-none root relative r))
  | inr (st, r) ↦
      push_relative-IsPlain relative st stack (push_root-IsPlain root relative st r)
        (sym (resolve-some root relative st r) ∙ e)
]

push_root-parts :
    (root relative : List ℕ)
    → same_string root (slash ∷ []) ≡ false
    → ends_plain (strip root) ≡ true
    → starts_with_slash relative ≡ false
    → push_root root relative ≡ some (push_all [] (parts (strip root)))
unfolding push_root
push_root-parts root relative a b s =
    rw (push_root, s)
      (push_segments-from root 0 (path_length root) [] a b
        (omega (arith, path_length-parts root a)))

push_relative-parts :
    (relative : List ℕ) (stack : List (List ℕ))
    → same_string relative (slash ∷ []) ≡ false
    → ends_plain (strip relative) ≡ true
    → push_relative relative stack ≡ some (push_all stack (parts (strip relative)))
unfolding push_relative strip ends_plain
push_relative-parts [] stack a b = absurd (grind arith)
push_relative-parts (c ∷ cs) stack a b =
    push_segments-from (c ∷ cs) 0 (path_length (c ∷ cs)) stack a b
      (omega (arith, path_length-parts (c ∷ cs) a))

canonize-some :
    (root relative : List ℕ) (stack : List (List ℕ))
    → (same_string root (slash ∷ []) && same_string relative []) ≡ false
    → resolve root relative ≡ some stack
    → length (slash ∷ join_segments (reverse stack)) < 255
    → canonize root relative ≡ some (slash ∷ join_segments (reverse stack))
unfolding canonize
canonize-some root relative stack a e short =
    let fits : ltb (length (slash ∷ join_segments (reverse stack))) 255 ≡ true = lt→ltb _ _ short in
    rw a (rw e (rw fits refl))

-- A directory and a path that starts with no slash, neither of them "/" and both ending in no slash
-- once they are stripped: the parts of both are pushed in order, ".." taking one off, and stand in
-- the result behind "/", with slashes between them, if it is shorter than 255 characters.
pub canonize-parts :
    (root relative : List ℕ)
    → same_string root (slash ∷ []) ≡ false
    → ends_plain (strip root) ≡ true
    → same_string relative (slash ∷ []) ≡ false
    → ends_plain (strip relative) ≡ true
    → starts_with_slash relative ≡ false
    → length (
        slash
        ∷ join_segments
            (reverse (push_all (push_all [] (parts (strip root))) (parts (strip relative)))))
      < 255
    → canonize root relative
      ≡ some (
          slash
          ∷ join_segments
              (reverse (push_all (push_all [] (parts (strip root))) (parts (strip relative)))))
canonize-parts root relative a b c d s short =
    let stack = push_all [] (parts (strip root)) in
    let whole = push_all stack (parts (strip relative)) in
    let resolved : resolve root relative ≡ some whole =
      resolve-some root relative stack (push_root-parts root relative a b s)
      ∙ push_relative-parts relative stack c d in
    canonize-some root relative whole (rw a refl) resolved short
