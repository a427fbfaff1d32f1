-- ===== src/DynList/Sort.antt =====
-- `list_sort` is an insertion sort: its result is an ordered rearrangement.
use mathlib.Core.List.{
  append-nil, append_assoc, reverse-cons, reverse_aux, Perm, perm_middle, reverse_perm,
}
use mathlib.Core.List.Perm
use scales_os.Prelude.{
  ℕ, suc, ◌+◌, ◌-◌, ◌≡◌, refl, sym, ap, ◌∙◌, inl, inr, Bool, true, false, List, [], ◌∷◌, ◌++◌,
  reverse, arith, length, get_or, set, length-append, Bool-cases, if◌then◌else◌, get_or-append_self,
  length-reverse,
}
use scales_os.DynList.{insert_down, sort_from, sort}
use scales_os.DynList.Laws.{holding}

-- Writing the cell behind the one behind a prefix.
set_next :
    (pre : List ℕ) (a y : ℕ) (post : List ℕ) (v : ℕ)
    → set (pre ++ (a ∷ y ∷ post)) (suc (length pre)) v ≡ pre ++ (a ∷ v ∷ post)
set_next [] a y post v = refl
set_next (x ∷ pre) a y post v = ap (◌∷◌ x) (set_next pre a y post v)

perm_shift : (x : ℕ) (r xs : List ℕ) → Perm (x ∷ (r ++ xs)) (r ++ (x ∷ xs))
perm_shift x r xs = Perm.symm (perm_middle r xs)

module _ (predicate : ℕ → ℕ → Bool) where
  -- The prefix of the array, from its back, after the key is put into it.
  pub placed : List ℕ → ℕ → List ℕ
  placed [] key = key ∷ []
  placed (a ∷ r) key = if predicate a key then a ∷ placed r key else key ∷ a ∷ r

  length-placed : (r : List ℕ) (key : ℕ) → length (placed r key) ≡ length r + 1
  unfolding placed
  length-placed [] key = refl
  length-placed (a ∷ r) key = ground (arith, length-placed r key)

  placed-perm : (r : List ℕ) (key : ℕ) → Perm (placed r key) (key ∷ r)
  unfolding placed
  placed-perm [] key = Perm.refl (key ∷ [])
  placed-perm (a ∷ r) key = elim (Bool-cases (predicate a key)) [
    | inl e ↦ rw e (Perm.trans (Perm.cons a (placed-perm r key)) (Perm.swap key a r))
    | inr e ↦ rw e (Perm.refl (key ∷ a ∷ r))
  ]

  -- From the back: no element is to go behind the one that follows it.
  abbrev pub Descends : List ℕ → Type 0
  Descends [] = Unit {0}
  Descends (a ∷ []) = Unit {0}
  Descends (a ∷ b ∷ r) = (predicate b a ≡ false) × Descends (b ∷ r)

  -- From the front.
  abbrev pub Ordered : List ℕ → Type 0
  Ordered [] = Unit {0}
  Ordered (a ∷ []) = Unit {0}
  Ordered (a ∷ b ∷ r) = (predicate a b ≡ false) × Ordered (b ∷ r)

  insert_down-placed :
      (r : List ℕ) (y : ℕ) (post : List ℕ) (key : ℕ)
      → insert_down predicate (reverse r ++ (y ∷ post)) (length r) key
        ≡ reverse (placed r key) ++ post
  unfolding insert_down placed
  insert_down-placed [] y post key = refl
  insert_down-placed (a ∷ r) y post key =
      let l : length r ≡ length (reverse r) = sym (length-reverse r) in
      let n : suc (length (reverse r)) ≡ length (reverse r ++ (a ∷ [])) =
        omega (arith, length-append (reverse r) (a ∷ [])) in
      let here : get_or (reverse r ++ (a ∷ y ∷ post)) (length r) 0 ≡ a =
        ap (λ k. get_or (reverse r ++ (a ∷ y ∷ post)) k 0) l
        ∙ get_or-append_self (reverse r) a (y ∷ post) 0 in
      let put : (v : ℕ)
          → set (reverse r ++ (a ∷ y ∷ post)) (suc (length r)) v ≡ reverse r ++ (a ∷ v ∷ post) =
        λ v.
          ap (λ k. set (reverse r ++ (a ∷ y ∷ post)) (suc k) v) l
          ∙ set_next (reverse r) a y post v in
      rw (reverse-cons a r, append_assoc (reverse r) (a ∷ []) (y ∷ post), here, put a, put key)
        (elim (Bool-cases (predicate a key)) [
          | inl e ↦
              rw (e, reverse-cons a (placed r key))
                (insert_down-placed r a (a ∷ post) key
                  ∙ sym (append_assoc (reverse (placed r key)) (a ∷ []) post))
          | inr e ↦
              rw (e, reverse-cons key (a ∷ r), reverse-cons a r)
                (sym (
                  append_assoc (reverse r ++ (a ∷ [])) (key ∷ []) post
                  ∙ append_assoc (reverse r) (a ∷ []) (key ∷ post)))
        ])

  -- What the outer loop makes of the prefix, from its back, as it goes over the rest.
  pub sorted_onto : List ℕ → List ℕ → List ℕ
  sorted_onto r [] = r
  sorted_onto r (x ∷ xs) = sorted_onto (placed r x) xs

  sort_from-sorted_onto :
      (xs r : List ℕ)
      → sort_from predicate (reverse r ++ xs) (length r) (length xs) ≡ reverse (sorted_onto r xs)
  unfolding sort_from sorted_onto
  sort_from-sorted_onto [] r = append-nil (reverse r)
  sort_from-sorted_onto (x ∷ xs) r =
      let l : length r ≡ length (reverse r) = sym (length-reverse r) in
      let key : get_or (reverse r ++ (x ∷ xs)) (length r) 0 ≡ x =
        ap (λ k. get_or (reverse r ++ (x ∷ xs)) k 0) l ∙ get_or-append_self (reverse r) x xs 0 in
      let n : length r + 1 ≡ length (placed r x) = sym (length-placed r x) in
      ap
        (λ k.
          sort_from predicate (insert_down predicate (reverse r ++ (x ∷ xs)) (length r) k)
            (length r + 1) (length xs))
        key
      ∙ ap (λ c. sort_from predicate c (length r + 1) (length xs)) (insert_down-placed r x xs x)
      ∙ ap (λ m. sort_from predicate (reverse (placed r x) ++ xs) m (length xs)) n
      ∙ sort_from-sorted_onto xs (placed r x)

  sorted_onto-perm : (xs r : List ℕ) → Perm (sorted_onto r xs) (r ++ xs)
  unfolding sorted_onto
  sorted_onto-perm [] r = rw (append-nil r) (Perm.refl r)
  sorted_onto-perm (x ∷ xs) r =
      Perm.trans (sorted_onto-perm xs (placed r x))
        (Perm.trans (Perm.append (placed-perm r x) (Perm.refl xs)) (perm_shift x r xs))

  module _ (asym : (a b : ℕ) → predicate a b ≡ true → predicate b a ≡ false) where
    placed-Descends : (r : List ℕ) (key : ℕ) → Descends r → Descends (placed r key)
    unfolding placed
    placed-Descends [] key d = tt
    placed-Descends (a ∷ []) key d = ground (arith, asym a key)
    placed-Descends (a ∷ b ∷ r) key d = ground (arith, asym a key, placed-Descends (b ∷ r) key d.1)

    sorted_onto-Descends : (xs r : List ℕ) → Descends r → Descends (sorted_onto r xs)
    unfolding sorted_onto
    sorted_onto-Descends [] r d = d
    sorted_onto-Descends (x ∷ xs) r d = sorted_onto-Descends xs (placed r x) (placed-Descends r x d)

  -- The first of each may stand side by side.
  abbrev Joins : List ℕ → List ℕ → Type 0
  Joins (a ∷ _) (b ∷ _) = predicate a b ≡ false
  Joins [] _ = Unit {0}
  Joins (a ∷ _) [] = Unit {0}

  Ordered-reverse_aux :
      (r acc : List ℕ) → Descends r → Ordered acc → Joins r acc → Ordered (reverse_aux r acc)
  Ordered-reverse_aux [] acc d o j = o
  Ordered-reverse_aux (a ∷ []) [] d o j = tt
  Ordered-reverse_aux (a ∷ []) (c ∷ acc) d o j = (j, o)
  Ordered-reverse_aux (a ∷ b ∷ r) [] d o j = Ordered-reverse_aux (b ∷ r) (a ∷ []) d.1 tt d.0
  Ordered-reverse_aux (a ∷ b ∷ r) (c ∷ acc) d o j =
      Ordered-reverse_aux (b ∷ r) (a ∷ c ∷ acc) d.1 (j, o) d.0

  Joins-nil : (r : List ℕ) → Joins r []
  Joins-nil [] = tt
  Joins-nil (a ∷ r) = tt

  sort_cells : List ℕ → List ℕ
  unfolding sorted_onto
  sort_cells [] = []
  sort_cells (x ∷ xs) = reverse (sorted_onto (x ∷ []) xs)

  sort-holding : (xs : List ℕ) → (sort predicate (holding xs)).cells ≡ sort_cells xs
  unfolding sort sort_from sort_cells
  sort-holding [] = refl
  sort-holding (x ∷ xs) =
      let n : length (x ∷ xs) - 1 ≡ length xs = omega arith in
      ap (sort_from predicate (x ∷ xs) 1) n ∙ sort_from-sorted_onto xs (x ∷ [])

  -- For a predicate that never holds both ways round, `list_sort` leaves a rearrangement of the
  -- elements in which it holds of no two neighbours.
  pub sort-Ordered :
      ((a b : ℕ) → predicate a b ≡ true → predicate b a ≡ false)
      → (xs : List ℕ)
      → Ordered (sort predicate (holding xs)).cells × Perm (sort predicate (holding xs)).cells xs
  unfolding sort_cells
  sort-Ordered asym [] = rw (sort-holding []) (tt, Perm.refl [])
  sort-Ordered asym (x ∷ xs) =
      let r = sorted_onto (x ∷ []) xs in
      rw (sort-holding (x ∷ xs)) (
        Ordered-reverse_aux r [] (sorted_onto-Descends asym xs (x ∷ []) tt) tt (Joins-nil r),
        Perm.trans (reverse_perm r) (sorted_onto-perm xs (x ∷ [])),
      )
