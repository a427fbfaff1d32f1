-- ===== src/Proc/Sleep/Insert.antt =====
-- Putting a node into the queue of sleepers, in kernel/src/proc/process.c.
use scales_os.Prelude.{
  ℕ, zero, suc, ◌<◌, ◌≡◌, ◌≢◌, refl, sym, ap, ◌∙◌, true, false, ◌⊎◌, Bool-cases, inl, inr, Option,
  some, List, [], ◌∷◌, arith, subst, ◌==◌, if◌then◌else◌, length,
}
use scales_os.Proc.Sleep.{WaitNode, Sleepers, set_next, is_later, find_place, insert}
use scales_os.Proc.Sleep.Chain.{Chain, Fresh, Distinct, Chain-set_next, set_next-ne, set_next_self}

-- The node `new` behind the nodes at the front that are due after the time, up to the first that is not.
unfoldable pub place : (ℕ → WaitNode) → (s us new : ℕ) → List ℕ → List ℕ
place nodes s us new [] = new ∷ []
place nodes s us new (a ∷ l) =
    if is_later (nodes a) s us then a ∷ place nodes s us new l else new ∷ a ∷ l

record Placed (nodes : ℕ → WaitNode) (prev new : ℕ) (l l' : List ℕ) (out : Option (ℕ × ℕ))
    : Type 0 where
  before : ℕ
  behind : ℕ
  found_is : out ≡ some (before, behind)
  chain :
      Chain
        (set_next (set_next nodes before new) new behind)
        (set_next (set_next nodes before new) new behind prev).next
        l'
  elsewhere : (x : ℕ) → Fresh x (prev ∷ l) → x ≢ before

-- Both writes leave other nodes alone.
two_writes :
    (nodes : ℕ → WaitNode) (b new q a : ℕ)
    → b ≢ a
    → new ≢ a
    → set_next (set_next nodes b new) new q a ≡ nodes a
two_writes nodes b new q a p p' =
    set_next-ne (set_next nodes b new) new q a p' ∙ set_next-ne nodes b new a p

-- The place is found at once: behind `prev`, before the chain `l`.
place_here :
    (nodes : ℕ → WaitNode) (prev node new : ℕ) (l : List ℕ)
    → Chain nodes node l
    → Fresh prev l
    → Fresh new l
    → new ≢ prev
    → new ≢ 0
    → Chain
        (set_next (set_next nodes prev new) new node)
        (set_next (set_next nodes prev new) new node prev).next
        (new ∷ l)
unfolding Chain
place_here nodes prev node new l c fp fn ne nz =
    let nodes' = set_next (set_next nodes prev new) new node in
    let first : nodes' prev ≡ record (nodes prev) { next = new } =
      set_next-ne (set_next nodes prev new) new node prev ne ∙ set_next_self nodes prev new in
    let second = set_next_self (set_next nodes prev new) new node in
    (
      ap (λ (n : WaitNode). n.next) first,
      nz,
      subst (λ (n : WaitNode). Chain nodes' n.next l) (sym second)
          (Chain-set_next (set_next nodes prev new) new node node l fn
            (Chain-set_next nodes prev new node l fp c)),
    )

find_place-Placed :
    (l : List ℕ) (fuel : ℕ) (nodes : ℕ → WaitNode) (prev node new s us : ℕ)
    → (nodes prev).next ≡ node
    → Chain nodes node l
    → Distinct (prev ∷ l)
    → Fresh new (prev ∷ l)
    → new ≢ 0
    → length l < fuel
    → Placed nodes prev new l (place nodes s us new l) (find_place fuel nodes prev node s us)
unfolding find_place place Chain Fresh Distinct
find_place-Placed l zero nodes prev node new s us link c d f nz lt = absurd (omega arith)
find_place-Placed [] (suc fuel) nodes prev node new s us link c d f nz lt =
    let e : (node == 0) ≡ true = ground (arith, c) in
    rw e record {
      before = prev;
      behind = node;
      found_is = refl;
      chain = place_here nodes prev node new [] c tt tt f.0 nz;
      elsewhere = λ x h. h.0;
    }
find_place-Placed (a ∷ l) (suc fuel) nodes prev node new s us link c d f nz lt =
    let e : (node == 0) ≡ false = ground (arith, c.0, c.1) in
    elim (Bool-cases (is_later (nodes a) s us)) [
      | inl later ↦
          let ih =
            find_place-Placed l fuel nodes a (nodes a).next new s us refl c.2 d.1 f.1 nz
              (omega arith) in
          let kept =
            two_writes nodes ih.before new ih.behind prev (λ h. ih.elsewhere prev d.0 (sym h))
              f.0 in
          rw (e, c.0, later)
            record {
              before = ih.before;
              behind = ih.behind;
              found_is = ih.found_is;
              chain = (ap (λ (n : WaitNode). n.next) kept ∙ link ∙ c.0, c.1, ih.chain);
              elsewhere = λ x h. ih.elsewhere x h.1;
            }
      | inr due ↦
          rw (e, c.0, due)
            record {
              before = prev;
              behind = a;
              found_is = refl;
              chain = place_here nodes prev a new (a ∷ l) (refl, c.1, c.2) d.0 f.1 f.0 nz;
              elsewhere = λ x h. h.0;
            }
    ]

find_place-later :
    (fuel : ℕ) (nodes : ℕ → WaitNode) (prev node s us : ℕ)
    → node ≢ 0
    → is_later (nodes node) s us ≡ true
    → find_place (suc fuel) nodes prev node s us ≡ find_place fuel nodes node (nodes node).next s us
unfolding find_place
find_place-later fuel nodes prev node s us ne later =
    let e : (node == 0) ≡ false = ground (arith, ne) in rw (e, later) refl

find_place-due :
    (fuel : ℕ) (nodes : ℕ → WaitNode) (prev node s us : ℕ)
    → is_later (nodes node) s us ≡ false
    → find_place (suc fuel) nodes prev node s us ≡ some (prev, node)
unfolding find_place
find_place-due fuel nodes prev node s us due = elim (Bool-cases (node == 0)) [
  | inl e ↦ rw e refl
  | inr e ↦ rw (e, due) refl
]

-- The queue with `new` put between two nodes.
abbrev pub linked : Sleepers → (new before behind : ℕ) → Sleepers
linked q new before behind = record q { nodes = set_next (set_next q.nodes before new) new behind }

insert-linked :
    (fuel : ℕ) (q : Sleepers) (new before behind : ℕ)
    → q.sleep_queue ≢ 0
    → find_place fuel q.nodes q.sleep_queue q.sleep_queue
        (q.nodes new).seconds
        (q.nodes new).microseconds
      ≡ some (before, behind)
    → insert fuel q new ≡ some (linked q new before behind)
unfolding insert
insert-linked fuel q new before behind ne found =
    let e : (q.sleep_queue == 0) ≡ false = ground (arith, ne) in rw e (rw (found, insert) refl)

-- In a chain of different nodes whose first is due after the new one, with enough fuel: the new node goes
-- behind the nodes at the front that are due after it, in front of the first that is not, and the
-- others stay as they were, in their order.
pub insert-Chain :
    (a : ℕ) (l : List ℕ) (fuel : ℕ) (q : Sleepers) (new : ℕ)
    → Chain q.nodes q.sleep_queue (a ∷ l)
    → Distinct (a ∷ l)
    → Fresh new (a ∷ l)
    → new ≢ 0
    → is_later (q.nodes a) (q.nodes new).seconds (q.nodes new).microseconds ≡ true
    → length l < fuel
    → (q' : Sleepers) × (insert (suc fuel) q new ≡ some q')
      × Chain q'.nodes q'.sleep_queue
          (place q.nodes (q.nodes new).seconds (q.nodes new).microseconds new (a ∷ l))
unfolding Chain place
insert-Chain a l fuel q new c d f nz later lt =
    let s = (q.nodes new).seconds in
    let us = (q.nodes new).microseconds in
    let p = find_place-Placed l fuel q.nodes a (q.nodes a).next new s us refl c.2 d f nz lt in
    let ne : q.sleep_queue ≢ 0 = λ h. c.1 (sym c.0 ∙ h) in
    let at = sym c.0 in
    let found =
      subst (λ (x : ℕ). find_place (suc fuel) q.nodes x x s us ≡ some (p.before, p.behind)) at
        (find_place-later fuel q.nodes a a s us c.1 later ∙ p.found_is) in
    (
      linked q new p.before p.behind,
      insert-linked (suc fuel) q new p.before p.behind ne found,
      rw later (c.0, c.1, p.chain),
    )

-- Where the pointers lead in a number of steps.
unfoldable pub walk : (ℕ → WaitNode) → (steps from : ℕ) → ℕ
walk nodes zero p = p
walk nodes (suc n) p = walk nodes n (nodes p).next

walk-cycle :
    (nodes : ℕ → WaitNode) (a b : ℕ)
    → (nodes a).next ≡ b
    → (nodes b).next ≡ a
    → (n p : ℕ) → (p ≡ a) ⊎ (p ≡ b)
    → (walk nodes n p ≡ a) ⊎ (walk nodes n p ≡ b)
unfolding walk
walk-cycle nodes a b ab ba zero p at = at
walk-cycle nodes a b ab ba (suc n) p (inl e) =
    walk-cycle nodes a b ab ba n (nodes p).next (inr (ap (λ (x : ℕ). (nodes x).next) e ∙ ab))
walk-cycle nodes a b ab ba (suc n) p (inr e) =
    walk-cycle nodes a b ab ba n (nodes p).next (inl (ap (λ (x : ℕ). (nodes x).next) e ∙ ba))

-- With the first node due no later than the new one, the first node and the new one (another one) then lead to
-- each other: no other node is met any more, in however many steps from the head of the queue.
pub insert-cycle :
    (fuel : ℕ) (q : Sleepers) (new steps : ℕ)
    → q.sleep_queue ≢ 0
    → new ≢ q.sleep_queue
    → is_later (q.nodes q.sleep_queue) (q.nodes new).seconds (q.nodes new).microseconds ≡ false
    → (q' : Sleepers) × (insert (suc fuel) q new ≡ some q')
      × ((walk q'.nodes steps q'.sleep_queue ≡ q.sleep_queue)
          ⊎ (walk q'.nodes steps q'.sleep_queue ≡ new))
insert-cycle fuel q new steps some_head ne due =
    let h = q.sleep_queue in
    let q' = linked q new h h in
    let first : (q'.nodes h).next ≡ new =
      ap (λ (n : WaitNode). n.next)
        (set_next-ne (set_next q.nodes h new) new h h ne ∙ set_next_self q.nodes h new) in
    let second : (q'.nodes new).next ≡ h =
      ap (λ (n : WaitNode). n.next) (set_next_self (set_next q.nodes h new) new h) in
    (
      q',
      insert-linked (suc fuel) q new h h some_head (find_place-due fuel q.nodes h h _ _ due),
      walk-cycle q'.nodes h new first second steps h (inl refl),
    )
