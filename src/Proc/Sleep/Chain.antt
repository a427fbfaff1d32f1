-- ===== src/Proc/Sleep/Chain.antt =====
-- Chains of wait nodes (kernel/src/proc/process.c), and what a write through one node leaves.
use scales_os.Prelude.{ℕ, ◌≡◌, ◌≢◌, sym, List, [], ◌∷◌, arith, subst}
use scales_os.Proc.Sleep.{WaitNode, set_next}

-- From `p` the nodes of `l` follow each other, then NULL.
unfoldable pub Chain : (ℕ → WaitNode) → ℕ → List ℕ → Type 0
Chain nodes p [] = p ≡ 0
Chain nodes p (a ∷ l) = (p ≡ a) × (a ≢ 0) × Chain nodes (nodes a).next l

-- `x` is none of the list.
unfoldable pub Fresh : ℕ → List ℕ → Type 0
Fresh x [] = Unit
Fresh x (a ∷ l) = (x ≢ a) × Fresh x l

-- No node stands twice.
unfoldable pub Distinct : List ℕ → Type 0
Distinct [] = Unit
Distinct (a ∷ l) = Fresh a l × Distinct l

pub set_next-ne : (nodes : ℕ → WaitNode) (p q a : ℕ) → p ≢ a → set_next nodes p q a ≡ nodes a
set_next-ne nodes p q a ne = ground (arith, ne)

pub set_next_self :
    (nodes : ℕ → WaitNode) (p q : ℕ) → set_next nodes p q p ≡ record (nodes p) { next = q }
set_next_self nodes p q = ground arith

-- A write to a node that is not on the chain.
pub Chain-set_next :
    (nodes : ℕ → WaitNode) (x q p : ℕ) (l : List ℕ)
    → Fresh x l
    → Chain nodes p l
    → Chain (set_next nodes x q) p l
unfolding Chain Fresh
Chain-set_next nodes x q p [] f c = c
Chain-set_next nodes x q p (a ∷ l) f c = (
  c.0,
  c.1,
  subst (λ (n : WaitNode). Chain (set_next nodes x q) n.next l) (sym (set_next-ne nodes x q a f.0))
      (Chain-set_next nodes x q (nodes a).next l f.1 c.2),
)
