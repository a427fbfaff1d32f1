-- ===== src/Tree/Tests.antt =====
-- Runs of the tree functions: tree 1 has the nodes 2 and 3, of which 3 is below 2, and 4 is in none.
use scales_os.Prelude.{ℕ, ◌≡◌, refl, [], ◌∷◌, arith, ◌==◌, if◌then◌else◌}
use scales_os.Tree.{Store, contains_node, insert_node, remove_node}
use scales_os.Tree.Links.{Absent, Below, insert_node-Below, remove_node-insert_node}

abbrev store : Store
store = record {
  nodes = λ n. record {
    tree = if n == 4 then 0 else 1;
    parent = if n == 3 then 2 else 0;
    children = if n == 2 then 3 ∷ [] else [];
  };
  members = λ t. if t == 1 then 2 ∷ 3 ∷ [] else [];
  root = λ t. if t == 1 then 2 else 0;
}

insert_node-Below_example : Below store (insert_node store 1 4 2) 1 4 2
unfolding contains_node
insert_node-Below_example = insert_node-Below store 1 4 2 refl (omega arith) (omega arith)

remove_node-insert_node_example :
    ((remove_node (insert_node store 1 4 2) 1 4).members 1 ≡ 2 ∷ 3 ∷ [])
    × (((remove_node (insert_node store 1 4 2) 1 4).nodes 2).children ≡ 3 ∷ [])
    × ((other : ℕ)
        → insert_node (remove_node (insert_node store 1 4 2) 1 4) 1 4 other
          ≡ remove_node (insert_node store 1 4 2) 1 4)
unfolding contains_node Absent
remove_node-insert_node_example =
    remove_node-insert_node store 1 4 2 refl (omega arith) (omega arith)
      (omega arith, (omega arith, tt)) (omega arith, tt)
