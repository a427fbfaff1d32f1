-- ===== src/Proc/Queues/Counts.antt =====
-- The two sides of a wait queue agree: a process stands in a queue as often as the queue stands among
-- the owners of its block node (kernel/src/proc/process.c).
use scales_os.Prelude.{
  ℕ, ◌+◌, ◌-◌, ◌≡◌, refl, sym, ap, ◌∙◌, Bool-cases, inl, inr, List, [], ◌∷◌, ◌++◌, reverse, arith,
  ◌==◌, if◌then◌else◌,
}
use mathlib.Core.List.{reverse_aux}
use scales_os.Proc.Queues.{
  Process, Sched, update, delete, with_proc, own_block, leave, release_block,
}

-- How often `x` stands in a list.
unfoldable pub count : ℕ → List ℕ → ℕ
count x [] = 0
count x (y ∷ ys) = (if y == x then 1 else 0) + count x ys

pub count-append : (x : ℕ) (xs ys : List ℕ) → count x (xs ++ ys) ≡ count x xs + count x ys
unfolding count
count-append x [] ys = omega arith
count-append x (y ∷ xs) ys = omega (arith, count-append x xs ys)

count-reverse_aux : (x : ℕ) (xs ys : List ℕ) → count x (reverse_aux xs ys) ≡ count x xs + count x ys
unfolding count
count-reverse_aux x [] ys = omega arith
count-reverse_aux x (y ∷ xs) ys = omega (arith, count-reverse_aux x xs (y ∷ ys))

pub count-reverse : (x : ℕ) (xs : List ℕ) → count x (reverse xs) ≡ count x xs
unfolding count
count-reverse x xs = omega (arith, count-reverse_aux x xs [])

pub count-delete :
    (x y : ℕ) (l : List ℕ) → count x (delete y l) ≡ (if x == y then count x l - 1 else count x l)
unfolding count delete
count-delete x y [] = ground arith
count-delete x y (z ∷ l) = ground (arith, count-delete x y l)

-- The two sides agree.
unfoldable pub Linked : Sched → Type 0
Linked s = (p q : ℕ) → count p (s.queues q) ≡ count q (s.procs p).owners

pub count-update-delete :
    (p o : ℕ) (queues : ℕ → List ℕ) (p' q : ℕ)
    → count p' (update queues o (delete p (queues o)) q) ≡ (
        if q == o
        then if p' == p then count p' (queues q) - 1 else count p' (queues q)
        else count p' (queues q))
count-update-delete p o queues p' q = elim (Bool-cases (q == o)) [
  | inl e ↦
      let eq : o ≡ q = ground arith in
      rw e (
        count-delete p' p (queues o)
        ∙ ap (λ (x : ℕ). if p' == p then count p' (queues x) - 1 else count p' (queues x)) eq)
  | inr e ↦ rw e refl
]

leave_step :
    (p o q after before c p' : ℕ)
    → after ≡ (if q == o then if p' == p then before - 1 else before else before)
    → (if p' == p then after - c else after)
      ≡ (if p' == p then before - ((if o == q then 1 else 0) + c) else before)
leave_step p o q after before c p' h = ground (arith, h)

-- Leaving some queues takes a process out of each as often as the queue is named.
pub count-leave :
    (p : ℕ) (owners : List ℕ) (queues : ℕ → List ℕ) (p' q : ℕ)
    → count p' (leave p owners queues q)
      ≡ (if p' == p then count p' (queues q) - count q owners else count p' (queues q))
unfolding leave count
count-leave p [] queues p' q = ground arith
count-leave p (o ∷ owners) queues p' q =
    let queues' = update queues o (delete p (queues o)) in
    let ih = count-leave p owners queues' p' q in
    let one = count-update-delete p o queues p' q in
    ih ∙ leave_step p o q (count p' (queues' q)) (count p' (queues q)) (count q owners) p' one

released :
    (p p' before listed mine : ℕ)
    → listed ≡ mine
    → ((p' ≡ p) → before ≡ mine)
    → (if p' == p then before - listed else before) ≡ (if p' == p then 0 else before)
released p p' before listed mine h g = elim (Bool-cases (p' == p)) [
  | inl e ↦ let b : before ≡ mine = g (ground arith) in rw e (omega (arith, h, b))
  | inr e ↦ rw e refl
]

-- A process that has left all its owners stands in no queue; the others stand as they did.
pub count-release_block :
    (s : Sched) (p p' q : ℕ)
    → Linked s
    → count p' ((release_block s p).queues q) ≡ (if p' == p then 0 else count p' (s.queues q))
unfolding release_block Linked
count-release_block s p p' q l =
    let owners = (s.procs p).owners in
    count-leave p (reverse owners) s.queues p' q
    ∙ released p p' (count p' (s.queues q)) (count q (reverse owners)) (count q owners)
        (count-reverse q owners) (λ e. ap (λ (x : ℕ). count x (s.queues q)) e ∙ l p q)

pub count-update :
    (x i j : ℕ) (f : ℕ → List ℕ) (v : List ℕ)
    → count x (update f i v j) ≡ (if j == i then count x v else count x (f j))
count-update x i j f v = elim (Bool-cases (j == i)) [ inl e ↦ rw e refl | inr e ↦ rw e refl ]

-- The owners of a process are what was last written.
pub owners-with_proc :
    (s : Sched) (p p' x : ℕ) (proc : Process)
    → count x ((with_proc s p proc).procs p').owners
      ≡ (if p' == p then count x proc.owners else count x (s.procs p').owners)
owners-with_proc s p p' x proc = elim (Bool-cases (p' == p)) [
  | inl e ↦ rw e refl
  | inr e ↦ rw e refl
]

own_step :
    (p p' q q' a a' b b' : ℕ)
    → (q' ≡ q → a' ≡ a)
    → (p' ≡ p → b' ≡ b)
    → a' ≡ b'
    → (if q' == q then a + ((if p == p' then 1 else 0) + 0) else a')
      ≡ (if p' == p then b + ((if q == q' then 1 else 0) + 0) else b')
own_step p p' q q' a a' b b' f g h = elim (Bool-cases (q' == q)) [
  | inl e ↦
      let fa : a' ≡ a = f (ground arith) in
      elim (Bool-cases (p' == p)) [
        | inl e' ↦ let gb : b' ≡ b = g (ground arith) in rw (e, e') (ground arith)
        | inr e' ↦ rw (e, e') (ground arith)
      ]
  | inr e ↦ elim (Bool-cases (p' == p)) [
    | inl e' ↦ let gb : b' ≡ b = g (ground arith) in rw (e, e') (ground arith)
    | inr e' ↦ rw (e, e') h
  ]
]

pub own_block-Linked : (s : Sched) (p q : ℕ) → Linked s → Linked (own_block s p q)
unfolding own_block Linked count
own_block-Linked s p q l p' q' =
    let owners = (s.procs p).owners in
    let s1 = record s { queues = update s.queues q (s.queues q ++ (p ∷ [])) } in
    count-update p' q q' s.queues (s.queues q ++ (p ∷ []))
    ∙ ap (λ (x : ℕ). if q' == q then x else count p' (s.queues q'))
        (count-append p' (s.queues q) (p ∷ []))
    ∙ own_step p p' q q' (count p' (s.queues q)) (count p' (s.queues q')) (count q' owners)
        (count q' (s.procs p').owners) (λ e. ap (λ (x : ℕ). count p' (s.queues x)) e)
        (λ e. ap (λ (x : ℕ). count q' (s.procs x).owners) e) (l p' q')
    ∙ ap (λ (x : ℕ). if p' == p then x else count q' (s.procs p').owners)
        (sym (count-append q' owners (q ∷ [])))
    ∙ sym (owners-with_proc s1 p p' q' (record (s.procs p) { owners = owners ++ (q ∷ []) }))

pub release_block-Linked : (s : Sched) (p : ℕ) → Linked s → Linked (release_block s p)
unfolding release_block Linked count
release_block-Linked s p l p' q =
    let s1 = record s { queues = leave p (reverse (s.procs p).owners) s.queues } in
    count-release_block s p p' q l
    ∙ ap (λ (x : ℕ). if p' == p then 0 else x) (l p' q)
    ∙ sym (owners-with_proc s1 p p' q (record (s.procs p) { owners = [] }))
