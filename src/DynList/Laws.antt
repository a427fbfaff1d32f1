-- ===== src/DynList/Laws.antt =====
-- The list as the sequence of its elements: the array operations against those of a plain list.
use mathlib.Core.List.{append-nil, append_assoc}
use scales_os.Prelude.{
  ℕ, zero, suc, ◌+◌, ◌-◌, ◌^◌, ◌≤◌, ◌<◌, ◌≡◌, refl, sym, ap, ◌∙◌, inl, inr, Bool, true, false, List,
  [], ◌∷◌, ◌++◌, arith, length, set, take, drop, length-append, take-length, add32, sub32, ltb,
  ◌==◌, Bool-cases, if◌then◌else◌, take-append_self, set-append_self, get_or-append_self,
}
use scales_os.DynList.{
  DynList, create, resize, move, extend, push_front, push_back, pop_back, pop_front, delete_at,
  delete_from, delete_element, contains_from, contains,
}

-- The block holds exactly the elements, and their number fits the counter with one to spare.
pub record IsValid (l : DynList) : Type 0 where
  pub block : length l.cells ≡ l.size
  pub small : l.size + 1 < 2 ^ 32

-- A list with the elements `xs`.
abbrev pub holding : List ℕ → DynList
holding xs = record { size = length xs; cells = xs }

pub holding_cells : (l : DynList) → IsValid l → l ≡ holding l.cells
holding_cells l v = ground arith

take-past : (n : ℕ) (xs : List ℕ) → length xs ≤ n → take n xs ≡ xs
take-past zero [] h = refl
take-past zero (x ∷ xs) h = absurd (omega arith)
take-past (suc n) [] h = refl
take-past (suc n) (x ∷ xs) h = ap (◌∷◌ x) (take-past n xs (omega arith))

drop-past : (n : ℕ) (xs : List ℕ) → length xs ≤ n → drop n xs ≡ []
drop-past zero [] h = refl
drop-past zero (x ∷ xs) h = absurd (omega arith)
drop-past (suc n) [] h = refl
drop-past (suc n) (x ∷ xs) h = drop-past n xs (omega arith)

resize-grow : (xs : List ℕ) (n : ℕ) → n ≡ length xs + 1 → resize xs n ≡ xs ++ (0 ∷ [])
unfolding resize
resize-grow xs n e =
    let one : n - length xs ≡ 1 = omega arith in rw (take-past n xs (omega arith), one)

resize-shrink : (xs ys : List ℕ) (n : ℕ) → n ≡ length xs → resize (xs ++ ys) n ≡ xs
unfolding resize
resize-shrink xs ys n e =
    let none_new : n - length (xs ++ ys) ≡ 0 = omega (arith, length-append xs ys) in
    rw (none_new, e, take-append_self xs ys) (append-nil xs)

extend-holding :
    (xs : List ℕ)
    → length xs + 1 < 2 ^ 32
    → extend (holding xs) ≡ record { size = length xs + 1; cells = xs ++ (0 ∷ []) }
unfolding extend
extend-holding xs h =
    let e : add32 (length xs) 1 ≡ length xs + 1 = omega arith in
    rw (e, resize-grow xs (length xs + 1) refl)

-- `list_push_back` adds the element behind the others.
pub push_back-holding :
    (xs : List ℕ) (d : ℕ)
    → length xs + 1 < 2 ^ 32
    → push_back (holding xs) d ≡ holding (xs ++ (d ∷ []))
unfolding push_back
push_back-holding xs d h =
    let i : sub32 (length xs + 1) 1 ≡ length xs = omega arith in
    let n : length xs + 1 ≡ length (xs ++ (d ∷ [])) = omega (arith, length-append xs (d ∷ [])) in
    rw (extend-holding xs h, i, set-append_self xs 0 [] d, n)

move-up :
    (x : ℕ) (xs : List ℕ) (d n : ℕ)
    → n ≡ length (x ∷ xs)
    → set (move (x ∷ (xs ++ (0 ∷ []))) 1 0 n) 0 d ≡ d ∷ x ∷ xs
unfolding move
move-up x xs d n e =
    let p : drop (1 + n) (x ∷ (xs ++ (0 ∷ []))) ≡ [] =
      drop-past (1 + n) (x ∷ (xs ++ (0 ∷ []))) (omega (arith, length-append xs (0 ∷ []))) in
    rw (p, e, take-append_self xs (0 ∷ [])) (ap (λ t. d ∷ x ∷ t) (append-nil xs))

-- `list_push_front` adds the element before the others.
pub push_front-holding :
    (xs : List ℕ) (d : ℕ) → length xs + 1 < 2 ^ 32 → push_front (holding xs) d ≡ holding (d ∷ xs)
unfolding push_front
push_front-holding [] d h = rw (extend-holding [] h)
push_front-holding (x ∷ xs) d h =
    let t : ltb 1 (length (x ∷ xs) + 1) ≡ true = ground arith in
    let n : length (x ∷ xs) + 1 ≡ length (d ∷ x ∷ xs) = omega arith in
    let i : length (d ∷ x ∷ xs) - 1 ≡ length (x ∷ xs) = omega arith in
    rw (extend-holding (x ∷ xs) h, t, n, i)
      (ap (λ c. record { size = length (d ∷ x ∷ xs); cells = c })
        (move-up x xs d (length (x ∷ xs)) refl))

drop-append_cons :
    (pre : List ℕ) (d : ℕ) (post : List ℕ) → drop (length pre + 1) (pre ++ (d ∷ post)) ≡ post
drop-append_cons pre d post =
    let e : length pre + 1 ≡ suc (length pre) = omega arith in rw e (go pre)
  where
    go : (pre : List ℕ) → drop (suc (length pre)) (pre ++ (d ∷ post)) ≡ post
    go [] = refl
    go (x ∷ xs) = go xs

-- Moving the elements behind one over it, and cutting the block, takes it out.
move-down :
    (pre : List ℕ) (d : ℕ) (post : List ℕ) (n k : ℕ)
    → n ≡ length post
    → k ≡ length pre + length post
    → resize (move (pre ++ (d ∷ post)) (length pre) (length pre + 1) n) k ≡ pre ++ post
unfolding move
move-down pre d post n k e f =
    rw (take-append_self pre (d ∷ post), drop-append_cons pre d post, e, take-length post)
      (ap (λ c. resize c k) (sym (append_assoc pre post _))
        ∙ resize-shrink (pre ++ post) _ k (f ∙ sym (length-append pre post)))

-- `list_pop_front` takes the first element.
pub pop_front-holding :
    (x : ℕ) (xs : List ℕ)
    → length (x ∷ xs) < 2 ^ 32
    → pop_front (holding (x ∷ xs)) ≡ (x, holding xs)
unfolding pop_front
pop_front-holding x [] h = refl
pop_front-holding x (y ∷ xs) h =
    let n : sub32 (length (x ∷ y ∷ xs)) 1 ≡ length (y ∷ xs) = omega arith in
    let t : (length (x ∷ y ∷ xs) == 0) ≡ false = ground arith in
    let u : (length (y ∷ xs) == 0) ≡ false = ground arith in
    rw (n, t, u)
      (ap (λ (c : List ℕ). (x, record { size = length (y ∷ xs); cells = c }))
        (move-down [] x (y ∷ xs) (length (y ∷ xs)) (length (y ∷ xs)) refl (omega arith)))

-- `list_pop_back` takes the last element.
pub pop_back-holding :
    (xs : List ℕ) (x : ℕ)
    → length xs + 1 < 2 ^ 32
    → pop_back (holding (xs ++ (x ∷ []))) ≡ (x, holding xs)
unfolding pop_back
pop_back-holding [] x h = refl
pop_back-holding (y ∷ ys) x h =
    let xs = y ∷ ys in
    let l : length (xs ++ (x ∷ [])) ≡ suc (length xs) = omega (arith, length-append xs (x ∷ [])) in
    let n : sub32 (suc (length xs)) 1 ≡ length xs = omega arith in
    let t : (suc (length xs) == 0) ≡ false = ground arith in
    let u : (length xs == 0) ≡ false = ground arith in
    rw (l, n, t, u, get_or-append_self xs x [] 0, resize-shrink xs (x ∷ []) (length xs) refl) refl

pub pops_empty : (pop_front create ≡ (0, create)) × (pop_back create ≡ (0, create))
unfolding pop_front pop_back
pops_empty = (refl, refl)

-- The elements without the first one that is `d`.
pub erase : ℕ → List ℕ → List ℕ
erase d [] = []
erase d (x ∷ xs) = if x == d then xs else x ∷ erase d xs

sub_self : (a b : ℕ) → a + b - a ≡ b
sub_self a b = omega arith

delete_at-holding :
    (pre : List ℕ) (d : ℕ) (post : List ℕ)
    → length pre + length post + 1 < 2 ^ 32
    → delete_at (holding (pre ++ (d ∷ post))) (length pre) ≡ holding (pre ++ post)
unfolding delete_at
delete_at-holding pre d post h =
    let l : length (pre ++ (d ∷ post)) ≡ suc (length (pre ++ post)) =
      omega (arith, length-append pre (d ∷ post), length-append pre post) in
    let n : sub32 (suc (length (pre ++ post))) 1 ≡ length (pre ++ post) =
      omega (arith, length-append pre post) in
    rw (l, n, set-append_self pre d post 0)
      (ap (λ (c : List ℕ). record { size = length (pre ++ post); cells = c }) (cut pre post h))
  where
    cut :
        (pre post : List ℕ)
        → length pre + length post + 1 < 2 ^ 32
        → (if length (pre ++ post) == 0
            then []
            else (resize
                (if length pre == length (pre ++ post)
                  then pre ++ (0 ∷ post)
                  else move
                      (pre ++ (0 ∷ post))
                      (length pre)
                      (length pre + 1)
                      (length (pre ++ post) - length pre))
                (length (pre ++ post))))
          ≡ pre ++ post
    cut [] [] h = refl
    cut (p ∷ ps) [] h =
        let t : (length (p ∷ ps) == 0) ≡ false = ground arith in
        let u : (length (p ∷ ps) == length (p ∷ ps)) ≡ true = ground arith in
        rw (append-nil ps, t, u, resize-shrink (p ∷ ps) (0 ∷ []) (length (p ∷ ps)) refl)
    cut pre (y ∷ ys) h =
        let l : length (pre ++ (y ∷ ys)) ≡ length pre + length (y ∷ ys) =
          length-append pre (y ∷ ys) in
        let t : (length pre + length (y ∷ ys) == 0) ≡ false = ground arith in
        let u : (length pre == length pre + length (y ∷ ys)) ≡ false = ground arith in
        rw (l, t, u) (move-down pre 0 (y ∷ ys) _ _ (sub_self (length pre) _) refl)

delete_from-holding :
    (rest pre : List ℕ) (d : ℕ)
    → length pre + length rest < 2 ^ 32
    → delete_from (holding (pre ++ rest)) d (length pre) (length rest)
      ≡ holding (pre ++ erase d rest)
unfolding delete_from erase
delete_from-holding [] pre d h = refl
delete_from-holding (x ∷ xs) pre d h = elim (Bool-cases (x == d)) [
  | inl hit ↦ rw (get_or-append_self pre x xs 0, hit) (delete_at-holding pre x xs (omega arith))
  | inr miss ↦
      let n : length (pre ++ (x ∷ [])) ≡ length pre + 1 = length-append pre (x ∷ []) in
      let ih = delete_from-holding xs (pre ++ (x ∷ [])) d (omega arith) in
      rw (get_or-append_self pre x xs 0, miss)
        (rw (append_assoc pre (x ∷ []) xs, append_assoc pre (x ∷ []) (erase d xs), n) at ih)
]

-- `list_delete_element` takes out the first occurrence and nothing else.
pub delete_element-holding :
    (xs : List ℕ) (d : ℕ)
    → length xs < 2 ^ 32
    → delete_element (holding xs) d ≡ holding (erase d xs)
unfolding delete_element
delete_element-holding xs d h = delete_from-holding xs [] d (omega arith)

pub has : ℕ → List ℕ → Bool
has d [] = false
has d (x ∷ xs) = if x == d then true else has d xs

contains_from-has :
    (rest pre : List ℕ) (d : ℕ)
    → contains_from (pre ++ rest) d (length pre) (length rest) ≡ has d rest
unfolding contains_from has
contains_from-has [] pre d = refl
contains_from-has (x ∷ xs) pre d = elim (Bool-cases (x == d)) [
  | inl hit ↦ rw (get_or-append_self pre x xs 0, hit)
  | inr miss ↦
      let n : length (pre ++ (x ∷ [])) ≡ length pre + 1 = length-append pre (x ∷ []) in
      let ih = contains_from-has xs (pre ++ (x ∷ [])) d in
      rw (get_or-append_self pre x xs 0, miss) (rw (append_assoc pre (x ∷ []) xs, n) at ih)
]

-- `list_contains` finds exactly the elements.
pub contains-has : (xs : List ℕ) (d : ℕ) → contains (holding xs) d ≡ has d xs
unfolding contains
contains-has xs d = contains_from-has xs [] d

-- The array operations are those of the sequence of elements: both pushes, the deletion of the
-- first occurrence, and the search, for every list below the largest size.
pub refines :
    (xs : List ℕ) (d : ℕ)
    → length xs + 1 < 2 ^ 32
    → (push_front (holding xs) d ≡ holding (d ∷ xs))
      × (push_back (holding xs) d ≡ holding (xs ++ (d ∷ [])))
      × (delete_element (holding xs) d ≡ holding (erase d xs))
      × (contains (holding xs) d ≡ has d xs)
refines xs d h = (
  push_front-holding xs d h,
  push_back-holding xs d h,
  delete_element-holding xs d (omega arith),
  contains-has xs d,
)

-- A pop at the end of a push gives back the element and the list; the empty list gives NULL.
pub pops :
    (xs : List ℕ) (d : ℕ)
    → length xs + 1 < 2 ^ 32
    → (pop_front (push_front (holding xs) d) ≡ (d, holding xs))
      × (pop_back (push_back (holding xs) d) ≡ (d, holding xs))
      × (pop_front create ≡ (0, create))
      × (pop_back create ≡ (0, create))
pops xs d h = (
  ap pop_front (push_front-holding xs d h) ∙ pop_front-holding d xs (omega arith),
  ap pop_back (push_back-holding xs d h) ∙ pop_back-holding xs d h,
  pops_empty.0,
  pops_empty.1,
)
