-- ===== src/DynList/Tests.antt =====
-- Runs of list.c, and its theorems at concrete lists.
use mathlib.Core.List.{Perm}
use scales_os.Prelude.{ℕ, ◌≡◌, refl, Bool, true, false, List, [], ◌∷◌, ltb, arith}
use scales_os.DynList.{
  resize, move, extend, push_front, pop_back, delete_element, insert_down, sort,
}
use scales_os.DynList.Laws.{holding}
use scales_os.DynList.Sort.{Ordered, sort-Ordered}

abbrev three : List ℕ
three = 4 ∷ 9 ∷ 2 ∷ []

delete_middle : delete_element (holding three) 9 ≡ holding (4 ∷ 2 ∷ [])
unfolding delete_element resize move
delete_middle = refl

front_then_back : pop_back (push_front (holding three) 7) ≡ (2, holding (7 ∷ 4 ∷ 9 ∷ []))
unfolding pop_back push_front extend resize move
front_then_back = refl

abbrev after : ℕ → ℕ → Bool
after a b = ltb b a

sorts : sort after (holding three) ≡ holding (2 ∷ 4 ∷ 9 ∷ [])
unfolding sort insert_down
sorts = refl

sort-Ordered_example :
    Ordered after (sort after (holding three)).cells × Perm (sort after (holding three)).cells three
sort-Ordered_example = sort-Ordered after (λ a b h. asym a b h) three
  where
    asym : (a b : ℕ) → after a b ≡ true → after b a ≡ false
    asym a b h = ground arith
