-- ===== src/Vfs/Mounting.antt =====
-- Mounting, seen as a change of the map from paths to nodes (kernel/src/fs/vfs.c).
use scales_os.Prelude.{
  ℕ, ◌≡◌, ◌≢◌, refl, sym, ap, ap₂, subst, ◌∙◌, Bool, true, false, ◌&&◌, Bool-cases, Option-cases,
  inl, inr, Option, none, some, List, [], ◌∷◌, arith,
}
use scales_os.Paths.{same_string}
use scales_os.Vfs.{
  Node, virtual_node, Entry, entry, node_of, children_of, create_entry, find_child, find_entry,
  mount_at,
}
use scales_os.Vfs.Entries.{
  same_string_self, same_string-eq, KeepsName, or_new, find_child-change_child, find_child-other,
}

unfoldable pub node_of? : Option Entry → Option Node
node_of? none = none
node_of? (some e) = some (node_of e)

-- The map from paths, as parts, to nodes
unfoldable pub node_at : Entry → List (List ℕ) → Option Node
node_at e parts = node_of? (find_entry e parts)

-- Whether a path, as parts, is the start of another one or all of it.
unfoldable pub starts : (part whole : List (List ℕ)) → Bool
starts [] whole = true
starts (p ∷ ps) [] = false
starts (p ∷ ps) (q ∷ qs) = same_string p q && starts ps qs

-- A path on the way, where nothing was, has a virtual node.
unfoldable pub or_virtual : Bool → Option Node → Option Node
or_virtual true none = some virtual_node
or_virtual true (some node) = some node
or_virtual false node = node

pub mount_at-KeepsName : (node : Node) (parts : List (List ℕ)) → KeepsName (mount_at node parts)
unfolding KeepsName mount_at
mount_at-KeepsName node [] (entry name old children) = refl
mount_at-KeepsName node (part ∷ parts) (entry name old children) = refl

pub node_at-cons :
    (e : Entry) (part : List ℕ) (parts : List (List ℕ)) (child : Entry)
    → find_child part (children_of e) ≡ some child
    → node_at e (part ∷ parts) ≡ node_at child parts
unfolding node_at find_entry
node_at-cons e part parts child h = rw (find_entry, h) refl

pub node_at-none :
    (e : Entry) (part : List ℕ) (parts : List (List ℕ))
    → find_child part (children_of e) ≡ none
    → node_at e (part ∷ parts) ≡ none
unfolding node_at find_entry node_of?
node_at-none e part parts h = rw (find_entry, h) refl

found_same :
    (node : Node) (p : List ℕ) (ps : List (List ℕ)) (e : Entry)
    → find_child p (children_of (mount_at node (p ∷ ps) e))
      ≡ some (mount_at node ps (or_new p (find_child p (children_of e))))
unfolding mount_at
found_same node p ps (entry name old children) =
    find_child-change_child p (mount_at node ps) children (mount_at-KeepsName node ps)

found_other :
    (node : Node) (p o : List ℕ) (ps : List (List ℕ)) (e : Entry)
    → o ≢ p
    → find_child o (children_of (mount_at node (p ∷ ps) e)) ≡ find_child o (children_of e)
unfolding mount_at
found_other node p o ps (entry name old children) ne =
    find_child-other p o (mount_at node ps) children (mount_at-KeepsName node ps) ne

pub node_at-mount_at :
    (node : Node) (parts : List (List ℕ)) (e : Entry)
    → node_at (mount_at node parts e) parts ≡ some node
unfolding node_at mount_at node_of? find_entry
node_at-mount_at node [] (entry name old children) = refl
node_at-mount_at node (p ∷ ps) e =
    let child = or_new p (find_child p (children_of e)) in
    node_at-cons (mount_at node (p ∷ ps) e) p ps (mount_at node ps child) (found_same node p ps e)
    ∙ node_at-mount_at node ps child

-- What a new entry shows is not yet in the map.
new_child :
    (ps os : List (List ℕ)) (p : List ℕ)
    → or_virtual (starts os ps) (node_at (create_entry p) os) ≡ or_virtual (starts os ps) none
unfolding or_virtual starts node_at find_entry node_of? find_child
new_child ps [] p = refl
new_child ps (o ∷ os) p = refl

node_at-child :
    (node : Node) (p : List ℕ) (ps os : List (List ℕ)) (e : Entry)
    → node_at (mount_at node (p ∷ ps) e) (p ∷ os)
      ≡ node_at (mount_at node ps (or_new p (find_child p (children_of e)))) os
node_at-child node p ps os e =
    node_at-cons (mount_at node (p ∷ ps) e) p os
      (mount_at node ps (or_new p (find_child p (children_of e)))) (found_same node p ps e)

starts_same : (p : List ℕ) (ps os : List (List ℕ)) → starts (p ∷ os) (p ∷ ps) ≡ starts os ps
unfolding starts
starts_same p ps os = rw (same_string_self p) refl

pub or_new-some :
    (p : List ℕ) (found : Option Entry) (e : Entry) → found ≡ some e → or_new p found ≡ e
unfolding or_new
or_new-some p found e h = rw h refl

or_new-none : (p : List ℕ) (found : Option Entry) → found ≡ none → or_new p found ≡ create_entry p
unfolding or_new
or_new-none p found h = rw h refl

-- What a child shows is what the entry shows below it.
below :
    (p : List ℕ) (ps os : List (List ℕ)) (e : Entry)
    → or_virtual (starts os ps) (node_at (or_new p (find_child p (children_of e))) os)
      ≡ or_virtual (starts os ps) (node_at e (p ∷ os))
below p ps os e = elim (Option-cases (find_child p (children_of e))) [
  | inl gone ↦
      ap (λ (c : Entry). or_virtual (starts os ps) (node_at c os))
        (or_new-none p (find_child p (children_of e)) gone)
      ∙ new_child ps os p
      ∙ ap (or_virtual (starts os ps)) (sym (node_at-none e p os gone))
  | inr (c, here) ↦
      ap (λ (x : Entry). or_virtual (starts os ps) (node_at x os))
        (or_new-some p (find_child p (children_of e)) c here)
      ∙ ap (or_virtual (starts os ps)) (sym (node_at-cons e p os c here))
]

pub apart-of : (o p : List ℕ) → same_string o p ≡ false → o ≢ p
apart-of o p off eq =
    let same : same_string o p ≡ true =
      ap (λ (x : List ℕ). same_string x p) eq ∙ same_string_self p in
    absurd (grind arith)

pub same_find :
    (e e' : Entry) (o : List ℕ) (os : List (List ℕ))
    → find_child o (children_of e') ≡ find_child o (children_of e)
    → node_at e' (o ∷ os) ≡ node_at e (o ∷ os)
unfolding node_at find_entry
same_find e e' o os h = elim (Option-cases (find_child o (children_of e))) [
  | inl gone ↦ node_at-none e' o os (h ∙ gone) ∙ sym (node_at-none e o os gone)
  | inr (c, here) ↦ node_at-cons e' o os c (h ∙ here) ∙ sym (node_at-cons e o os c here)
]

starts_apart :
    (o p : List ℕ) (ps os : List (List ℕ))
    → same_string o p ≡ false
    → starts (o ∷ os) (p ∷ ps) ≡ false
unfolding starts
starts_apart o p ps os off = rw off refl

-- Every other path shows what it showed, but for the new ones on the way.
pub node_at-other :
    (node : Node) (ps os : List (List ℕ)) (e : Entry)
    → os ≢ ps
    → node_at (mount_at node ps e) os ≡ or_virtual (starts os ps) (node_at e os)
unfolding node_at mount_at node_of? find_entry starts or_virtual
node_at-other node [] [] e ne = absurd (ne refl)
node_at-other node [] (o ∷ os) (entry name old children) ne = refl
node_at-other node (p ∷ ps) [] (entry name old children) ne = refl
node_at-other node (p ∷ ps) (o ∷ os) e ne = elim (Bool-cases (same_string o p)) [
  | inl is ↦
      let same = same_string-eq o p is in
      subst
        (λ (x : List ℕ).
          node_at (mount_at node (p ∷ ps) e) (x ∷ os)
          ≡ or_virtual (starts (x ∷ os) (p ∷ ps)) (node_at e (x ∷ os)))
        (sym same)
        (node_at-child node p ps os e
          ∙ node_at-other node ps os (or_new p (find_child p (children_of e)))
              (λ eq. ne (ap₂ ◌∷◌ same eq))
          ∙ below p ps os e
          ∙ ap (λ (b : Bool). or_virtual b (node_at e (p ∷ os))) (sym (starts_same p ps os)))
  | inr off ↦
      same_find e (mount_at node (p ∷ ps) e) o os (found_other node p o ps e (apart-of o p off))
      ∙ ap (λ (b : Bool). or_virtual b (node_at e (o ∷ os))) (sym (starts_apart o p ps os off))
]
