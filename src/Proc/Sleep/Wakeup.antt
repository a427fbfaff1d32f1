-- ===== src/Proc/Sleep/Wakeup.antt =====
-- Waking the sleepers whose time has come, and taking one off the queue (kernel/src/proc/process.c).
use scales_os.Prelude.{
  ℕ, zero, suc, ◌<◌, ◌≡◌, ◌≢◌, refl, sym, ap, ◌∙◌, true, false, Bool-cases, inl, inr, none, some,
  List, [], ◌∷◌, arith, subst, ◌==◌, if◌then◌else◌, length,
}
use scales_os.Proc.Sleep.{
  WaitNode, Sleepers, is_later, find_target, remove, wakeup_timing, woken_first,
}
use scales_os.Proc.Sleep.Chain.{Chain, Fresh}

-- The first nodes that are not due after the time, and those behind them.
unfoldable pub due : (ℕ → WaitNode) → (s us : ℕ) → List ℕ → List ℕ
due nodes s us [] = []
due nodes s us (a ∷ l) =
    let rest = a ∷ due nodes s us l in if is_later (nodes a) s us then [] else rest

unfoldable pub not_due : (ℕ → WaitNode) → (s us : ℕ) → List ℕ → List ℕ
not_due nodes s us [] = []
not_due nodes s us (a ∷ l) =
    let rest = not_due nodes s us l in if is_later (nodes a) s us then a ∷ l else rest

-- A node that is not on the chain is not found, and nothing is taken off.
find_target-Fresh :
    (l : List ℕ) (fuel : ℕ) (nodes : ℕ → WaitNode) (prev node target : ℕ)
    → Chain nodes node l
    → Fresh target l
    → length l < fuel
    → find_target fuel nodes prev node target ≡ some none
unfolding Chain Fresh find_target
find_target-Fresh l zero nodes prev node target c f lt = absurd (omega arith)
find_target-Fresh [] (suc fuel) nodes prev node target c f lt =
    let z : (node == 0) ≡ true = ground (arith, c) in rw z refl
find_target-Fresh (a ∷ l) (suc fuel) nodes prev node target c f lt =
    let at = c.0 in
    let ne = c.1 in
    let off = f.0 in
    let z : (node == 0) ≡ false = ground (arith, at, ne) in
    let t : (node == target) ≡ false = ground (arith, at, off) in
    let rest = subst (λ (x : ℕ). Chain nodes (nodes x).next l) (sym c.0) c.2 in
    rw (z, t) (find_target-Fresh l fuel nodes node (nodes node).next target rest f.1 (omega arith))

remove-Fresh :
    (l : List ℕ) (fuel : ℕ) (q : Sleepers) (target : ℕ)
    → Chain q.nodes q.sleep_queue l
    → Fresh target l
    → length l < fuel
    → remove fuel q target ≡ some q
unfolding remove
remove-Fresh l fuel q target c f lt =
    let none_found = find_target-Fresh l fuel q.nodes q.sleep_queue q.sleep_queue target c f lt in
    elim (Bool-cases (target == 0)) [
      | inl z ↦ rw (remove, z) refl
      | inr z ↦ rw (remove, z, none_found) refl
    ]

-- A round of the loop that takes a node off.
wakeup_timing-due :
    (fuel : ℕ) (other : ℕ → ℕ) (q : Sleepers) (s us : ℕ)
    → q.sleep_queue ≢ 0
    → is_later (q.nodes q.sleep_queue) s us ≡ false
    → remove fuel (record q { sleep_queue = (q.nodes q.sleep_queue).next }) (other q.sleep_queue)
      ≡ some (record q { sleep_queue = (q.nodes q.sleep_queue).next })
    → wakeup_timing (suc fuel) other q s us
      ≡ woken_first q.sleep_queue
          (wakeup_timing fuel other (record q { sleep_queue = (q.nodes q.sleep_queue).next }) s us)
unfolding wakeup_timing
wakeup_timing-due fuel other q s us ne e alone =
    let z : (q.sleep_queue == 0) ≡ false = ground (arith, ne) in rw (z, e, alone) refl

wakeup_timing-later :
    (fuel : ℕ) (other : ℕ → ℕ) (q : Sleepers) (s us : ℕ)
    → is_later (q.nodes q.sleep_queue) s us ≡ true
    → wakeup_timing (suc fuel) other q s us ≡ some ([], q)
unfolding wakeup_timing
wakeup_timing-later fuel other q s us e = elim (Bool-cases (q.sleep_queue == 0)) [
  | inl z ↦ rw z refl
  | inr z ↦ rw (z, e) refl
]

wakeup_timing-empty :
    (fuel : ℕ) (other : ℕ → ℕ) (q : Sleepers) (s us : ℕ)
    → q.sleep_queue ≡ 0
    → wakeup_timing (suc fuel) other q s us ≡ some ([], q)
unfolding wakeup_timing
wakeup_timing-empty fuel other q s us e =
    let z : (q.sleep_queue == 0) ≡ true = ground (arith, e) in rw z refl

-- No process of these nodes has another node on the list.
unfoldable pub Alone : (other : ℕ → ℕ) → List ℕ → Type 0
Alone other [] = Unit
Alone other (a ∷ l) = Fresh (other a) l × Alone other l

-- On a chain of sleepers on which no process has two nodes, with more fuel than sleepers, the timer takes off
-- exactly the nodes at its front whose time has come, in order, stops at the first one whose time has not,
-- and leaves the rest as a chain.
pub wakeup_timing-due_prefix :
    (l : List ℕ) (fuel : ℕ) (other : ℕ → ℕ) (q : Sleepers) (s us : ℕ)
    → Chain q.nodes q.sleep_queue l
    → Alone other l
    → length l < fuel
    → (head : ℕ) × (wakeup_timing fuel other q s us
        ≡ some (due q.nodes s us l, record q { sleep_queue = head }))
      × Chain q.nodes head (not_due q.nodes s us l)
unfolding Chain Alone due not_due woken_first
wakeup_timing-due_prefix l zero other q s us c al lt = absurd (omega arith)
wakeup_timing-due_prefix [] (suc fuel) other q s us c al lt =
    (q.sleep_queue, wakeup_timing-empty fuel other q s us c, c)
wakeup_timing-due_prefix (a ∷ l) (suc fuel) other q s us c al lt =
    elim (Bool-cases (is_later (q.nodes a) s us)) [
      | inl later ↦
          let at = subst (λ (x : ℕ). is_later (q.nodes x) s us ≡ true) (sym c.0) later in
          rw later (q.sleep_queue, wakeup_timing-later fuel other q s us at, c)
      | inr now ↦
          let at = subst (λ (x : ℕ). is_later (q.nodes x) s us ≡ false) (sym c.0) now in
          let next = (q.nodes q.sleep_queue).next in
          let chain = subst (λ (x : ℕ). Chain q.nodes (q.nodes x).next l) (sym c.0) c.2 in
          let fresh = subst (λ (x : ℕ). Fresh (other x) l) (sym c.0) al.0 in
          let kept =
            remove-Fresh l fuel (record q { sleep_queue = next }) (other q.sleep_queue) chain fresh
              (omega arith) in
          let ih =
            wakeup_timing-due_prefix l fuel other (record q { sleep_queue = next }) s us chain al.1
              (omega arith) in
          rw now (
            ih.0,
            wakeup_timing-due fuel other q s us (λ h. c.1 (sym c.0 ∙ h)) at kept
                ∙ ap (woken_first q.sleep_queue) ih.1
                ∙ ap (λ (x : ℕ). some (x ∷ due q.nodes s us l, record q { sleep_queue = ih.0 }))
                    c.0,
            ih.2,
          )
    ]
