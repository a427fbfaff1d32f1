-- ===== src/Proc/Queues/Wakeup.antt =====
-- Waking the processes of a wait queue (kernel/src/proc/process.c).
use scales_os.Prelude.{
  ℕ, suc, ◌+◌, ◌-◌, ◌≤◌, ◌≡◌, refl, sym, ap, ◌∙◌, true, false, Bool-cases, inl, inr, none, some,
  ◌||◌, List, [], ◌∷◌, ◌++◌, arith, ◌==◌, if◌then◌else◌, length, subst, Option-cases,
  some-injective, reverse, length-append,
}
use scales_os.Proc.Queues.{
  running, Sched, update, delete, with_proc, mark_ready, has_locks, leave, release_block,
  invalidate_locks, pop_back, unlink, wakes, wakeup_queue_single,
}
use scales_os.Proc.Queues.Counts.{
  count, count-append, count-delete, count-update, owners-with_proc, Linked,
}

pop_back-last : (x : ℕ) (l : List ℕ) → pop_back l ≡ none → pop_back (x ∷ l) ≡ some ([], x)
unfolding pop_back
pop_back-last x l e = rw e refl

pop_back-cons :
    (x y : ℕ) (l rest : List ℕ)
    → pop_back l ≡ some (rest, y)
    → pop_back (x ∷ l) ≡ some (x ∷ rest, y)
unfolding pop_back
pop_back-cons x y l rest e = rw e refl

pub pop_back-none : (l : List ℕ) → pop_back l ≡ none → l ≡ []
unfolding pop_back
pop_back-none [] e = refl
pop_back-none (x ∷ l) e = elim (Option-cases (pop_back l)) [
  | inl h ↦ grind (arith, pop_back-last x l h)
  | inr ((rest, y), h) ↦ grind (arith, pop_back-cons x y l rest h)
]

-- A list that is not empty gives up its last element.
pub pop_back-append : (l rest : List ℕ) (y : ℕ) → pop_back l ≡ some (rest, y) → l ≡ rest ++ (y ∷ [])
unfolding pop_back
pop_back-append [] rest y e = grind arith
pop_back-append (x ∷ l) rest y e = elim (Option-cases (pop_back l)) [
  | inl h ↦
      subst (λ (z : List ℕ × ℕ). x ∷ l ≡ z.0 ++ (z.1 ∷ []))
        (some-injective (sym (pop_back-last x l h) ∙ e))
        (ap (λ (m : List ℕ). x ∷ m) (pop_back-none l h))
  | inr ((ys, y'), h) ↦
      subst (λ (z : List ℕ × ℕ). x ∷ l ≡ z.0 ++ (z.1 ∷ []))
        (some-injective (sym (pop_back-cons x y' l ys h) ∙ e))
        (ap (λ (m : List ℕ). x ∷ m) (pop_back-append l ys y' h))
]

pub count-pop_back :
    (x y : ℕ) (l rest : List ℕ)
    → pop_back l ≡ some (rest, y)
    → count x l ≡ (if y == x then 1 else 0) + count x rest
unfolding count
count-pop_back x y l rest e =
    ap (λ (m : List ℕ). count x m) (pop_back-append l rest y e)
    ∙ omega (arith, count-append x rest (y ∷ []))

pub length-pop_back :
    (y : ℕ) (l rest : List ℕ) → pop_back l ≡ some (rest, y) → length l ≡ suc (length rest)
length-pop_back y l rest e =
    ap (λ (m : List ℕ). length m) (pop_back-append l rest y e)
    ∙ omega (arith, length-append rest (y ∷ []))

length-delete : (x : ℕ) (l : List ℕ) → length (delete x l) ≤ length l
unfolding delete
length-delete x [] = omega arith
length-delete x (y ∷ l) = ground (arith, length-delete x l)

length-update-delete :
    (p o : ℕ) (queues : ℕ → List ℕ) (q : ℕ)
    → length (update queues o (delete p (queues o)) q) ≤ length (queues q)
length-update-delete p o queues q = elim (Bool-cases (q == o)) [
  | inl e ↦
      let at : length (queues o) ≡ length (queues q) =
        ap (λ (x : ℕ). length (queues x)) (ground arith) in
      rw e (omega (arith, length-delete p (queues o), at))
  | inr e ↦ rw e (omega arith)
]

length-leave :
    (p : ℕ) (owners : List ℕ) (queues : ℕ → List ℕ) (q : ℕ)
    → length (leave p owners queues q) ≤ length (queues q)
unfolding leave
length-leave p [] queues q = omega arith
length-leave p (o ∷ owners) queues q =
    let queues' = update queues o (delete p (queues o)) in
    omega (arith, length-leave p owners queues' q, length-update-delete p o queues q)

-- The queue after waking a process is no longer than before.
pub length-mark_ready :
    (s : Sched) (p q : ℕ) → length ((mark_ready s p).queues q) ≤ length (s.queues q)
unfolding mark_ready invalidate_locks release_block
length-mark_ready s p q =
    let proc = s.procs p in
    let up = record proc { interrupted = proc.interrupted || has_locks proc; state = running } in
    length-leave p (reverse ((with_proc s p up).procs p).owners) s.queues q

-- What a round of waking comes to.
pub single-empty :
    (n : ℕ) (s : Sched) (q : ℕ) → s.queues q ≡ [] → wakeup_queue_single (suc n) s q ≡ s
unfolding wakeup_queue_single pop_back
single-empty n s q e = rw (wakeup_queue_single, e) refl

pub single-wakes :
    (n : ℕ) (s : Sched) (q p : ℕ) (rest : List ℕ)
    → pop_back (s.queues q) ≡ some (rest, p)
    → wakes (s.procs p) ≡ true
    → wakeup_queue_single (suc n) s q ≡ mark_ready (unlink s q p rest) p
unfolding wakeup_queue_single unlink wakes
single-wakes n s q p rest e w =
    let at : (p == p) ≡ true = ground arith in rw (wakeup_queue_single, e, at, w) refl

pub single-passes :
    (n : ℕ) (s : Sched) (q p : ℕ) (rest : List ℕ)
    → pop_back (s.queues q) ≡ some (rest, p)
    → wakes (s.procs p) ≡ false
    → wakeup_queue_single (suc n) s q ≡ wakeup_queue_single n (unlink s q p rest) q
unfolding wakeup_queue_single unlink wakes
single-passes n s q p rest e w =
    let at : (p == p) ≡ true = ground arith in rw (wakeup_queue_single, e, at, w) refl

unlink_step :
    (p p' q q' rest a a' b b' : ℕ)
    → (q' ≡ q → a' ≡ (if p == p' then 1 else 0) + rest)
    → (p' ≡ p → b' ≡ b)
    → a' ≡ b'
    → (if q' == q then rest else a') ≡ (if p' == p then (if q' == q then b - 1 else b) else b')
unlink_step p p' q q' rest a a' b b' f g h = elim (Bool-cases (q' == q)) [
  | inl e ↦
      let fa = f (ground arith) in
      elim (Bool-cases (p' == p)) [
        | inl e' ↦ let gb : b' ≡ b = g (ground arith) in rw (e, e') (ground arith)
        | inr e' ↦ rw (e, e') (ground arith)
      ]
  | inr e ↦ elim (Bool-cases (p' == p)) [
    | inl e' ↦ let gb : b' ≡ b = g (ground arith) in rw (e, e') (h ∙ gb)
    | inr e' ↦ rw (e, e') h
  ]
]

-- Taking the last process off a queue, and the queue off its owners.
pub unlink-Linked :
    (s : Sched) (q p : ℕ) (rest : List ℕ)
    → pop_back (s.queues q) ≡ some (rest, p)
    → Linked s
    → Linked (unlink s q p rest)
unfolding Linked unlink
unlink-Linked s q p rest e l p' q' =
    let owners = (s.procs p).owners in
    let s1 = record s { queues = update s.queues q rest } in
    count-update p' q q' s.queues rest
    ∙ unlink_step p p' q q' (count p' rest) (count p' (s.queues q)) (count p' (s.queues q'))
        (count q' owners) (count q' (s.procs p').owners)
        (λ i. ap (λ (x : ℕ). count p' (s.queues x)) i ∙ count-pop_back p' p (s.queues q) rest e)
        (λ i. ap (λ (x : ℕ). count q' (s.procs x).owners) i) (l p' q')
    ∙ ap (λ (x : ℕ). if p' == p then x else count q' (s.procs p').owners)
        (sym (count-delete q' q owners))
    ∙ sym (owners-with_proc s1 p p' q' (record (s.procs p) { owners = delete q owners }))
