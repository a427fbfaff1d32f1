-- ===== src/Tree.antt =====
-- Trees, in types/src/tree.c. Trees and nodes go by their numbers, and 0 is NULL; a tree keeps the
-- list of its nodes, a node the list of its children.
pub mod Links
mod Tests
use scales_os.Prelude.{
  ℕ, zero, suc, ◌+◌, ◌≤◌, Bool, true, false, List, [], ◌∷◌, ◌++◌, ◌==◌, if◌then◌else◌,
}

pub record Node : Type 0 where
  pub tree : ℕ
  pub parent : ℕ
  pub children : List ℕ

-- All nodes, and the nodes and the root of every tree.
pub record Store : Type 0 where
  pub nodes : ℕ → Node
  pub members : ℕ → List ℕ
  pub root : ℕ → ℕ

abbrev pub update {ℓ} : {A : Type ℓ} → (ℕ → A) → ℕ → A → ℕ → A
update f i v j = if j == i then v else f j

-- `list_delete_element`: the first occurrence (DynList).
unfoldable pub delete : ℕ → List ℕ → List ℕ
delete x [] = []
delete x (y ∷ ys) = if y == x then ys else y ∷ delete x ys

abbrev pub with_node : Store → ℕ → Node → Store
with_node s n node = record s { nodes = update s.nodes n node }

-- `tree_contains_node`
pub contains_node : Store → (tree node : ℕ) → Bool
contains_node s tree node = (s.nodes node).tree == tree

-- The new child of a parent
pub add_child : Store → (node parent : ℕ) → Store
add_child s node parent =
    let s' = with_node s node (record (s.nodes node) { parent = parent }) in
    let above = s'.nodes parent in
    with_node s' parent (record above { children = above.children ++ (node ∷ []) })

-- `tree_insert_node`
pub insert_node : Store → (tree node parent : ℕ) → Store
unfolding contains_node add_child
insert_node s tree node parent =
    if contains_node s tree node
    then s
    else let s1 = record s { members = update s.members tree (s.members tree ++ (node ∷ [])) } in
      let s2 = with_node s1 node (record (s1.nodes node) { tree = tree }) in
      if parent == 0 then s2 else add_child s2 node parent

-- `tree_set_root`
pub set_root : Store → (tree node : ℕ) → Store
unfolding insert_node
set_root s tree node =
    let s' = insert_node s tree node 0 in record s' { root = update s'.root tree node }

pub drop_child : Store → (node parent : ℕ) → Store
unfolding delete
drop_child s node parent =
    let above = s.nodes parent in
    with_node s parent (record above { children = delete node above.children })

-- What `tree_remove_node` does with the parent, or NULL.
pub drop_from_parent : Store → (node parent : ℕ) → Store
unfolding drop_child
drop_from_parent s node parent = if parent == 0 then s else drop_child s node parent

-- `tree_remove_node`
pub remove_node : Store → (tree node : ℕ) → Store
unfolding contains_node drop_from_parent
remove_node s tree node =
    let s' = drop_from_parent s node (s.nodes node).parent in
    let removed = record s' { members = update s'.members tree (delete node (s'.members tree)) } in
    if contains_node s tree node then removed else s
