-- ===== src/Tree/Links.antt =====
-- Insertion and removal in a tree (types/src/tree.c).
use scales_os.Prelude.{ℕ, ◌≡◌, ◌≢◌, refl, ap, ◌∙◌, true, false, List, [], ◌∷◌, ◌++◌, arith, ◌==◌}
use scales_os.Tree.{
  Store, delete, contains_node, add_child, insert_node, drop_child, drop_from_parent, remove_node,
}

-- `x` is not in a list.
unfoldable pub Absent : ℕ → List ℕ → Type 0
Absent x [] = Unit
Absent x (y ∷ ys) = (y ≢ x) × Absent x ys

delete-last : (x : ℕ) (l : List ℕ) → Absent x l → delete x (l ++ (x ∷ [])) ≡ l
unfolding delete Absent
delete-last x [] a = let same : (x == x) ≡ true = ground arith in rw same refl
delete-last x (y ∷ l) (ne, a) =
    let other : (y == x) ≡ false = ground (arith, ne) in
    rw other (ap (λ (m : List ℕ). y ∷ m) (delete-last x l a))

-- A node that is inserted below another one: it belongs to the tree, and is the last child of its
-- parent and the last node of the tree.
unfoldable pub Below : (before after : Store) → (tree node parent : ℕ) → Type 0
Below s s' tree node parent =
    ((s'.nodes node).tree ≡ tree)
    × ((s'.nodes node).parent ≡ parent)
    × ((s'.nodes parent).children ≡ (s.nodes parent).children ++ (node ∷ []))
    × (s'.members tree ≡ s.members tree ++ (node ∷ []))

-- Inserting a node of another tree or of none, below a node that is not itself.
pub insert_node-Below :
    (s : Store) (tree node parent : ℕ)
    → contains_node s tree node ≡ false
    → parent ≢ 0
    → parent ≢ node
    → Below s (insert_node s tree node parent) tree node parent
unfolding Below insert_node add_child
insert_node-Below s tree node parent new given ne =
    let a : (parent == 0) ≡ false = ground (arith, given) in
    let b : (node == parent) ≡ false = ground (arith, ne) in
    let c : (parent == node) ≡ false = ground (arith, ne) in
    let d : (node == node) ≡ true = ground arith in
    let e : (parent == parent) ≡ true = ground arith in
    let f : (tree == tree) ≡ true = ground arith in
    rw new (rw (a, b, c, d, e, f) (refl, refl, refl, refl))

-- Taking a node out: the lists of its tree and its parent lose it, the node still names the tree.
unfoldable pub Removed : (before after : Store) → (tree node parent : ℕ) → Type 0
Removed s s' tree node parent =
    ((s'.members tree) ≡ delete node (s.members tree))
    × ((s'.nodes parent).children ≡ delete node (s.nodes parent).children)
    × ((s'.nodes node).tree ≡ (s.nodes node).tree)

remove_node-Removed :
    (s : Store) (tree node parent : ℕ)
    → contains_node s tree node ≡ true
    → (s.nodes node).parent ≡ parent
    → parent ≢ 0
    → parent ≢ node
    → Removed s (remove_node s tree node) tree node parent
unfolding Removed remove_node drop_from_parent drop_child
remove_node-Removed s tree node parent held below given ne =
    let a : (parent == 0) ≡ false = ground (arith, given) in
    let b : (node == parent) ≡ false = ground (arith, ne) in
    let e : (parent == parent) ≡ true = ground arith in
    let f : (tree == tree) ≡ true = ground arith in
    rw held (rw (below, a, b, e, f) (refl, refl, refl))

contains-member :
    (s : Store) (tree node : ℕ) → (s.nodes node).tree ≡ tree → contains_node s tree node ≡ true
unfolding contains_node
contains-member s tree node e = ground (arith, e)

insert_node-again :
    (s : Store) (tree node parent : ℕ)
    → contains_node s tree node ≡ true
    → insert_node s tree node parent ≡ s
unfolding insert_node
insert_node-again s tree node parent e = rw e refl

-- A node of another tree or of none, which neither the tree nor the parent lists, inserted and removed
-- again: both lists are as before. But the node counts as one of the tree for ever, and inserting it
-- anywhere in the tree does nothing.
pub remove_node-insert_node :
    (s : Store) (tree node parent : ℕ)
    → contains_node s tree node ≡ false
    → parent ≢ 0
    → parent ≢ node
    → Absent node (s.members tree)
    → Absent node (s.nodes parent).children
    → ((remove_node (insert_node s tree node parent) tree node).members tree ≡ s.members tree)
      × (((remove_node (insert_node s tree node parent) tree node).nodes parent).children
          ≡ (s.nodes parent).children)
      × ((other : ℕ)
          → insert_node (remove_node (insert_node s tree node parent) tree node) tree node other
            ≡ remove_node (insert_node s tree node parent) tree node)
unfolding Below Removed
remove_node-insert_node s tree node parent new given ne am ac =
    let s1 = insert_node s tree node parent in
    let s2 = remove_node s1 tree node in
    let (of_tree, below, children, members) = insert_node-Below s tree node parent new given ne in
    let (left, kept, stale) =
      remove_node-Removed s1 tree node parent (contains-member s1 tree node of_tree) below given
        ne in
    (
      left ∙ ap (delete node) members ∙ delete-last node (s.members tree) am,
      kept ∙ ap (delete node) children ∙ delete-last node (s.nodes parent).children ac,
      λ other.
          insert_node-again s2 tree node other (contains-member s2 tree node (stale ∙ of_tree)),
    )
