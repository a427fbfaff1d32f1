-- ===== src/Proc/Queues/Emptying.antt =====
-- Waking a whole wait queue: it empties, and every process that slept in it runs
-- (kernel/src/proc/process.c).
use scales_os.Prelude.{
  ℕ, zero, suc, ◌≤◌, ◌<◌, ◌≡◌, ◌≢◌, ◌⊎◌, refl, sym, ap, ◌∙◌, subst, true, false, Bool-cases,
  Option-cases, inl, inr, some, List, [], ◌∷◌, length, arith, ◌==◌,
}
use scales_os.Proc.Queues.{
  running, sleeping, Process, Sched, mark_ready, pop_back, unlink, wakes, is_ready, is_finished,
  wakeup_queue_single, wakeup_queue,
}
use scales_os.Proc.Queues.Counts.{count}
use scales_os.Proc.Queues.Ready.{mark_ready-state, mark_ready-elsewhere}
use scales_os.Proc.Queues.Wakeup.{
  pop_back-none, length-pop_back, count-pop_back, length-mark_ready, single-empty, single-wakes,
  single-passes,
}

queue-unlink : (s : Sched) (q p : ℕ) (rest : List ℕ) → (unlink s q p rest).queues q ≡ rest
unfolding unlink
queue-unlink s q p rest = let e : (q == q) ≡ true = ground arith in rw e refl

pub List-cases : (l : List ℕ) → (l ≡ []) ⊎ ((x : ℕ) × (xs : List ℕ) × (l ≡ x ∷ xs))
List-cases [] = inl refl
List-cases (x ∷ xs) = inr (x, xs, refl)

-- When a round leaves the queue no longer, the round before it takes a process off the queue.
single_lt :
    (n : ℕ) (q : ℕ)
    → ((s : Sched) → length ((wakeup_queue_single n s q).queues q) ≤ length (s.queues q))
    → (s : Sched) → 0 < length (s.queues q)
    → length ((wakeup_queue_single (suc n) s q).queues q) < length (s.queues q)
single_lt n q later s h = elim (Option-cases (pop_back (s.queues q))) [
  | inl e ↦
      let none_left : length (s.queues q) ≡ 0 =
        ap (λ (l : List ℕ). length l) (pop_back-none (s.queues q) e) in
      omega (arith, h, none_left)
  | inr ((rest, p), e) ↦
      let s' = unlink s q p rest in
      let popped = length-pop_back p (s.queues q) rest e in
      let left : length (s'.queues q) ≡ length rest =
        ap (λ (l : List ℕ). length l) (queue-unlink s q p rest) in
      elim (Bool-cases (wakes (s.procs p))) [
        | inl w ↦
            subst (λ (t : Sched). length (t.queues q) < length (s.queues q))
              (sym (single-wakes n s q p rest e w))
              (omega (arith, length-mark_ready s' p q, popped, left))
        | inr w ↦
            subst (λ (t : Sched). length (t.queues q) < length (s.queues q))
              (sym (single-passes n s q p rest e w)) (omega (arith, later s', popped, left))
      ]
]

single_le :
    (n : ℕ) (q : ℕ) (s : Sched)
    → length ((wakeup_queue_single n s q).queues q) ≤ length (s.queues q)
unfolding wakeup_queue_single
single_le zero q s = omega arith
single_le (suc n) q s = elim (List-cases (s.queues q)) [
  | inl e ↦ rw (single-empty n s q e) (omega arith)
  | inr (x, xs, e) ↦
      let filled : length (s.queues q) ≡ suc (length xs) = ap (λ (l : List ℕ). length l) e in
      omega (arith, single_lt n q (single_le n q) s (omega (arith, filled)))
]

pub wakeup-nil : (n : ℕ) (s : Sched) (q : ℕ) → s.queues q ≡ [] → wakeup_queue n s q ≡ s
unfolding wakeup_queue
wakeup-nil zero s q e = refl
wakeup-nil (suc n) s q e = rw (wakeup_queue, e) refl

pub wakeup-cons :
    (n : ℕ) (s : Sched) (q x : ℕ) (xs : List ℕ)
    → s.queues q ≡ x ∷ xs
    → wakeup_queue (suc n) s q ≡ wakeup_queue n (wakeup_queue_single (length (s.queues q)) s q) q
unfolding wakeup_queue
wakeup-cons n s q x xs e =
    rw (wakeup_queue, e)
      (ap (λ (k : ℕ). wakeup_queue n (wakeup_queue_single k s q) q)
        (ap (λ (l : List ℕ). length l) e))

-- The queue is empty after as many rounds as it has processes.
pub wakeup_queue-empty :
    (n : ℕ) (s : Sched) (q : ℕ) → length (s.queues q) ≤ n → (wakeup_queue n s q).queues q ≡ []
unfolding wakeup_queue
wakeup_queue-empty zero s q h = empty (s.queues q) h
  where
    empty : (l : List ℕ) → length l ≤ 0 → l ≡ []
    empty [] none_left = refl
    empty (x ∷ xs) none_left = absurd (omega (arith, none_left))
wakeup_queue-empty (suc n) s q h = elim (List-cases (s.queues q)) [
  | inl e ↦ ap (λ (t : Sched). t.queues q) (wakeup-nil (suc n) s q e) ∙ e
  | inr (x, xs, e) ↦
      let filled : length (s.queues q) ≡ suc (length xs) = ap (λ (l : List ℕ). length l) e in
      let s' = wakeup_queue_single (length (s.queues q)) s q in
      let shorter : length (s'.queues q) < length (s.queues q) =
        subst (λ (k : ℕ). length ((wakeup_queue_single k s q).queues q) < length (s.queues q))
          (sym filled)
          (single_lt (length xs) q (single_le (length xs) q) s (omega (arith, filled))) in
      ap (λ (t : Sched). t.queues q) (wakeup-cons n s q x xs e)
      ∙ wakeup_queue-empty n s' q (omega (arith, h, shorter))
]

-- A process runs, or it sleeps in the queue.
unfoldable pub Waits : Sched → (q p : ℕ) → Type 0
Waits s q p =
    ((s.procs p).state ≡ running) ⊎ (((s.procs p).state ≡ sleeping) × (0 < count p (s.queues q)))

Waits-same :
    (s s' : Sched) (q p : ℕ)
    → (s'.procs p).state ≡ (s.procs p).state
    → count p (s'.queues q) ≡ count p (s.queues q)
    → Waits s q p
    → Waits s' q p
unfolding Waits
Waits-same s s' q p e c (inl r) = inl (e ∙ r)
Waits-same s s' q p e c (inr (r, h)) = inr (e ∙ r, omega (arith, c, h))

mark_ready-Waits : (s : Sched) (p q p' : ℕ) → (p' ≢ p → Waits s q p') → Waits (mark_ready s p) q p'
unfolding Waits
mark_ready-Waits s p q p' w = elim (Bool-cases (p' == p)) [
  | inl e ↦
      let same : p' ≡ p = ground arith in
      inl (ap (λ (x : ℕ). ((mark_ready s p).procs x).state) same ∙ mark_ready-state s p)
  | inr e ↦
      let ne : p' ≢ p = ground arith in
      let (kept, counted) = mark_ready-elsewhere s p p' ne in
      Waits-same s (mark_ready s p) q p' (ap (λ (x : Process). x.state) kept) (counted q) (w ne)
]

unlink-state :
    (s : Sched) (q p : ℕ) (rest : List ℕ) (p' : ℕ)
    → ((unlink s q p rest).procs p').state ≡ (s.procs p').state
unfolding unlink
unlink-state s q p rest p' = elim (Bool-cases (p' == p)) [
  | inl e ↦ let same : p ≡ p' = ground arith in rw e (ap (λ (x : ℕ). (s.procs x).state) same)
  | inr e ↦ rw e refl
]

unlink-Waits :
    (s : Sched) (q p : ℕ) (rest : List ℕ) (p' : ℕ)
    → pop_back (s.queues q) ≡ some (rest, p)
    → p' ≢ p
    → Waits s q p'
    → Waits (unlink s q p rest) q p'
unlink-Waits s q p rest p' e ne w =
    let s' = unlink s q p rest in
    let counted : count p' (s'.queues q) ≡ count p' (s.queues q) =
      ap (λ (l : List ℕ). count p' l) (queue-unlink s q p rest)
      ∙ ground (arith, count-pop_back p' p (s.queues q) rest e, ne) in
    Waits-same s s' q p' (unlink-state s q p rest p') counted w

wakes-sleeping :
    (s : Sched) (q p : ℕ) → wakes (s.procs p) ≡ false → Waits s q p → (s.procs p).state ≡ running
unfolding Waits wakes is_finished is_ready
wakes-sleeping s q p e (inl r) = r
wakes-sleeping s q p e (inr (r, h)) =
    let k : wakes (s.procs p) ≡ true = rw (wakes, r) refl in grind arith

passed-Waits :
    (s : Sched) (q p : ℕ) (rest : List ℕ) (p' : ℕ)
    → pop_back (s.queues q) ≡ some (rest, p)
    → wakes (s.procs p) ≡ false
    → Waits s q p'
    → Waits (unlink s q p rest) q p'
unfolding Waits
passed-Waits s q p rest p' e k w = elim (Bool-cases (p' == p)) [
  | inl i ↦
      let same : p' ≡ p = ground arith in
      let k' : wakes (s.procs p') ≡ false = ap (λ (x : ℕ). wakes (s.procs x)) same ∙ k in
      inl (unlink-state s q p rest p' ∙ wakes-sleeping s q p' k' w)
  | inr i ↦ let ne : p' ≢ p = ground arith in unlink-Waits s q p rest p' e ne w
]

pub single-Waits :
    (n : ℕ) (s : Sched) (q p : ℕ) → Waits s q p → Waits (wakeup_queue_single n s q) q p
unfolding wakeup_queue_single
single-Waits zero s q p w = w
single-Waits (suc n) s q p w = elim (Option-cases (pop_back (s.queues q))) [
  | inl e ↦ rw (single-empty n s q (pop_back-none (s.queues q) e)) w
  | inr ((rest, x), e) ↦
      let s' = unlink s q x rest in
      elim (Bool-cases (wakes (s.procs x))) [
        | inl k ↦
            rw (single-wakes n s q x rest e k)
              (mark_ready-Waits s' x q p (λ ne. unlink-Waits s q x rest p e ne w))
        | inr k ↦
            rw (single-passes n s q x rest e k)
              (single-Waits n s' q p (passed-Waits s q x rest p e k w))
      ]
]

wakeup-Waits : (n : ℕ) (s : Sched) (q p : ℕ) → Waits s q p → Waits (wakeup_queue n s q) q p
unfolding wakeup_queue
wakeup-Waits zero s q p w = w
wakeup-Waits (suc n) s q p w = elim (List-cases (s.queues q)) [
  | inl e ↦ rw (wakeup-nil (suc n) s q e) w
  | inr (x, xs, e) ↦
      let s' = wakeup_queue_single (length (s.queues q)) s q in
      rw (wakeup-cons n s q x xs e)
        (wakeup-Waits n s' q p (single-Waits (length (s.queues q)) s q p w))
]

-- Waking a queue of at most `n` processes empties it, and every process that slept in it runs.
pub wakeup_queue-Awake :
    (n : ℕ) (s : Sched) (q : ℕ)
    → length (s.queues q) ≤ n
    → ((wakeup_queue n s q).queues q ≡ [])
      × ((p : ℕ)
          → (s.procs p).state ≡ sleeping
          → 0 < count p (s.queues q)
          → ((wakeup_queue n s q).procs p).state ≡ running)
unfolding Waits count
wakeup_queue-Awake n s q h =
    let empty = wakeup_queue-empty n s q h in
    (
      empty,
      λ p asleep inside. (elim (wakeup-Waits n s q p (inr (asleep, inside))) [
        | inl r ↦ r
        | inr (still, listed) ↦
            let gone : count p ((wakeup_queue n s q).queues q) ≡ 0 =
              ap (λ (l : List ℕ). count p l) empty in
            absurd (omega (arith, gone, listed))
      ]),
    )
