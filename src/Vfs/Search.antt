-- ===== src/Vfs/Search.antt =====
-- The search for the node of a path, `__k_fs_vfs_find_node` in kernel/src/fs/vfs.c: down the mount points as
-- far as they go, and from there through the file system that is mounted deepest. What the file
-- systems answer is a parameter; a virtual node has no `finddir` and is no symbolic link. Symbolic links
-- are followed by recursion, which runs on fuel: `none` is a chain of links that is longer.
use scales_os.Prelude.{
  ℕ, zero, suc, ◌≡◌, refl, sym, ap, ◌∙◌, Bool, false, not, ◌&&◌, Option-cases, inl, inr, Option,
  none, some, some-injective, List, [], ◌∷◌, ◌++◌, arith, if◌then◌else◌,
}
use scales_os.Paths.{same_string, filename, slash}
use scales_os.Vfs.{
  Node, virtual_node, mounted, Entry, name_of, node_of, children_of, find_child, find_entry,
  segments,
}

-- The operations of the mounted file systems, and the nodes' names
pub record FileSystems : Type 0 where
  pub finddir : (node : ℕ) → (name : List ℕ) → Option ℕ
  pub name : ℕ → List ℕ
  pub is_symlink : ℕ → Bool
  pub readlink : ℕ → List ℕ

module _ (fs : FileSystems) where
  -- `k_fs_vfs_finddir`
  abbrev pub finddir_of : Node → (part : List ℕ) → Option Node
  finddir_of virtual_node part = none
  finddir_of (mounted n) part = elim (fs.finddir n part) [ none ↦ none | some m ↦ some (mounted m) ]

  abbrev pub is_link : Node → Bool
  is_link virtual_node = false
  is_link (mounted n) = fs.is_symlink n

  -- The mount points, down to the last one that the path names, and the parts left
  pub descend : Entry → (parts : List (List ℕ)) → Entry × List (List ℕ)
  descend e [] = (e, [])
  descend e (part ∷ parts) = elim (find_child part (children_of e)) [
    | none ↦ (e, part ∷ parts)
    | some child ↦ descend child parts
  ]

  -- `__k_fs_vfs_follow_symlink` of a node that is a link, where links are followed
  abbrev pub followed :
      (nofollow : Bool) → (follow : Node → Option (Option Node)) → Node → Option (Option Node)
  followed nofollow follow node =
      if is_link node && not nofollow then follow node else some (some node)

  -- The loop through the file system
  pub walk :
      (nofollow : Bool)
      → (follow : Node → Option (Option Node)) → Node
      → (parts : List (List ℕ)) → Option (Option Node)
  walk nofollow follow node [] = some (some node)
  walk nofollow follow node (part ∷ parts) = elim (followed nofollow follow node) [
    | none ↦ none
    | some target ↦ elim target [
      | none ↦ some none
      | some dir ↦ elim (finddir_of dir part) [
        | none ↦ some none
        | some next ↦ walk nofollow follow next parts
      ]
    ]
  ]

  -- The node that was found must have the name that was asked for.
  pub named : (path : List ℕ) → Option Node → Option Node
  named path none = none
  named path (some virtual_node) = some virtual_node
  named path (some (mounted n)) = elim (filename path) [
    | none ↦ none
    | some last ↦ if same_string last (fs.name n) then some (mounted n) else none
  ]

  -- `result` after the last part is a mount point: its node, if the entry has the name that ends the path
  abbrev pub entry_named : (path : List ℕ) → Entry → Option Node
  entry_named path e = elim (filename path) [
    | none ↦ none
    | some last ↦ if same_string (name_of e) last then some (node_of e) else none
  ]

  -- What the mount points and the file system answer, before a link at the end is followed
  pub reach :
      (nofollow : Bool)
      → (follow : Node → Option (Option Node)) → (path : List ℕ) → Entry × List (List ℕ)
      → Option (Option Node)
  reach nofollow follow path (e, []) = some (entry_named path e)
  reach nofollow follow path (e, part ∷ parts) =
      elim (walk nofollow follow (node_of e) (part ∷ parts)) [
        | none ↦ none
        | some result ↦ some (named path result)
      ]

  abbrev pub last_link :
      (nofollow : Bool)
      → (follow : Node → Option (Option Node)) → Option (Option Node)
      → Option (Option Node)
  last_link nofollow follow none = none
  last_link nofollow follow (some none) = some none
  last_link nofollow follow (some (some node)) = followed nofollow follow node

  abbrev pub link_target : Node → List ℕ
  link_target virtual_node = []
  link_target (mounted n) = fs.readlink n

  -- `__k_fs_vfs_find_node`
  pub find_node : (fuel : ℕ) → Entry → (path : List ℕ) → (nofollow : Bool) → Option (Option Node)
  find_node zero root path nofollow = none
  find_node (suc fuel) root path nofollow =
      let follow : Node → Option (Option Node) =
        λ node. find_node fuel root (link_target node) false in
      let found =
        last_link nofollow follow (reach nofollow follow path (descend root (segments path))) in
      if same_string path (slash ∷ []) then some (some (node_of root)) else found

  -- Where the parts of a path lead, one after the other
  unfoldable pub finddir_all : Node → (parts : List (List ℕ)) → Option Node
  finddir_all node [] = some node
  finddir_all node (part ∷ parts) = elim (finddir_of node part) [
    | none ↦ none
    | some next ↦ finddir_all next parts
  ]

  descend-split :
      (e d : Entry) (ps : List (List ℕ)) (q : List ℕ) (qs : List (List ℕ))
      → find_entry e ps ≡ some d
      → find_child q (children_of d) ≡ none
      → descend e (ps ++ (q ∷ qs)) ≡ (d, q ∷ qs)
  unfolding descend find_entry
  descend-split e d [] q qs at gone =
      let same = some-injective at in
      let gone' : find_child q (children_of e) ≡ none =
        ap (λ (x : Entry). find_child q (children_of x)) same ∙ gone in
      rw (descend, gone') (ap (λ (x : Entry). (x, q ∷ qs)) same)
  descend-split e d (p ∷ ps) q qs at gone = elim (Option-cases (find_child p (children_of e))) [
    | inl nothing ↦
        let lost : find_entry e (p ∷ ps) ≡ none = rw (find_entry, nothing) refl in
        absurd (grind arith)
    | inr (c, here) ↦
        let deeper : find_entry e (p ∷ ps) ≡ find_entry c ps = rw (find_entry, here) refl in
        rw (descend, here) (descend-split c d ps q qs (sym deeper ∙ at) gone)
  ]

  walk-all :
      (follow : Node → Option (Option Node)) (node : Node) (parts : List (List ℕ))
      → ((n : Node) → is_link n ≡ false)
      → walk false follow node parts ≡ some (finddir_all node parts)
  unfolding walk finddir_all
  walk-all follow node [] plain = refl
  walk-all follow node (part ∷ parts) plain = elim (Option-cases (finddir_of node part)) [
    | inl nothing ↦ rw (walk, plain node) (rw nothing (rw (finddir_all, nothing) refl))
    | inr (next, here) ↦
        rw (walk, plain node) (rw here (rw (finddir_all, here) (walk-all follow next parts plain)))
  ]

  reach-walk :
      (follow : Node → Option (Option Node)) (path : List ℕ) (d : Entry) (q : List ℕ)
      (qs : List (List ℕ))
      → ((n : Node) → is_link n ≡ false)
      → reach false follow path (d, q ∷ qs) ≡ some (named path (finddir_all (node_of d) (q ∷ qs)))
  unfolding reach
  reach-walk follow path d q qs plain = rw (reach, walk-all follow (node_of d) (q ∷ qs) plain) refl

  no_link :
      (follow : Node → Option (Option Node)) (found : Option Node)
      → ((n : Node) → is_link n ≡ false)
      → last_link false follow (some found) ≡ some found
  no_link follow none plain = refl
  no_link follow (some node) plain = rw (plain node) refl

  -- Without symbolic links: a path other than "/" whose first parts lead through the mount points to an entry,
  -- which has no child of the name that comes next, is looked up from the node mounted there, part
  -- by part; what is found counts only if it has the name that ends the path.
  pub find_node-deepest :
      (fuel : ℕ) (root d : Entry) (path : List ℕ) (ps : List (List ℕ)) (q : List ℕ)
      (qs : List (List ℕ))
      → ((n : Node) → is_link n ≡ false)
      → same_string path (slash ∷ []) ≡ false
      → segments path ≡ ps ++ (q ∷ qs)
      → find_entry root ps ≡ some d
      → find_child q (children_of d) ≡ none
      → find_node (suc fuel) root path false ≡ some (named path (finddir_all (node_of d) (q ∷ qs)))
  unfolding find_node
  find_node-deepest fuel root d path ps q qs plain other cut at gone =
      let follow : Node → Option (Option Node) =
        λ node. find_node fuel root (link_target node) false in
      let split : descend root (segments path) ≡ (d, q ∷ qs) =
        ap (descend root) cut ∙ descend-split root d ps q qs at gone in
      let reached = reach-walk follow path d q qs plain in
      rw (find_node, other)
        (ap (λ (x : Entry × List (List ℕ)). last_link false follow (reach false follow path x))
            split
          ∙ ap (last_link false follow) reached
          ∙ no_link follow (named path (finddir_all (node_of d) (q ∷ qs))) plain)
