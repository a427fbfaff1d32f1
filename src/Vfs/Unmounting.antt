-- ===== src/Vfs/Unmounting.antt =====
-- Taking a mount point away, for a tree in which no entry has two children of one name
-- (kernel/src/fs/vfs.c); mounting keeps the trees so.
use scales_os.Prelude.{
  ℕ, ◌≡◌, ◌≢◌, refl, sym, ap, ap₂, subst, ◌∙◌, true, false, Bool-cases, Option-cases,
  some-injective, inl, inr, none, some, List, [], ◌∷◌, ◌++◌, arith, if◌then◌else◌,
}
use scales_os.Paths.{same_string}
use scales_os.Vfs.{
  Node, mounted, Entry, entry, Children, nil, cons, name_of, children_of, create_entry, find_child,
  find_entry, change_child, remove_child, mount_at, mount_node, remove_at, umount_parts, umount,
  segments,
}
use scales_os.Vfs.Entries.{
  same_string-eq, same_string-false, KeepsName, or_new, find_child-change_child, find_child-other,
}
use scales_os.Vfs.Mounting.{
  node_of?, node_at, starts, node_at-cons, node_at-none, same_find, apart-of, mount_at-KeepsName,
  or_new-some,
}

unfoldable mutual
  -- No two children of an entry, at any depth, have one name.
  pub IsUnique : Entry → Type 0
  IsUnique (entry name node children) = AllUnique children

  pub AllUnique : Children → Type 0
  AllUnique nil = Unit
  AllUnique (cons e es) = (find_child (name_of e) es ≡ none) × IsUnique e × AllUnique es

change_child-AllUnique :
    (part : List ℕ) (f : Entry → Entry) (es : Children)
    → KeepsName f
    → ((e : Entry) → IsUnique e → IsUnique (f e))
    → AllUnique es
    → AllUnique (change_child part f es)
unfolding IsUnique KeepsName change_child find_child
change_child-AllUnique part f nil k u a = (refl, u (create_entry part) tt, tt)
change_child-AllUnique part f (cons e es) k u (single, below, a) =
    elim (Bool-cases (same_string (name_of e) part)) [
      | inl is ↦ rw is (ap (λ (n : List ℕ). find_child n es) (k e) ∙ single, u e below, a)
      | inr off ↦ rw off (
        find_child-other part (name_of e) f es k (apart-of (name_of e) part off) ∙ single,
        below,
        change_child-AllUnique part f es k u a,
      )
    ]

pub mount_at-IsUnique :
    (node : Node) (parts : List (List ℕ)) (e : Entry)
    → IsUnique e
    → IsUnique (mount_at node parts e)
unfolding IsUnique mount_at
mount_at-IsUnique node [] (entry name old children) u = u
mount_at-IsUnique node (p ∷ ps) (entry name old children) u =
    change_child-AllUnique p (mount_at node ps) children (mount_at-KeepsName node ps)
      (λ e. mount_at-IsUnique node ps e) u

remove_child-find :
    (part : List ℕ) (es : Children) → AllUnique es → find_child part (remove_child part es) ≡ none
unfolding IsUnique find_child remove_child
remove_child-find part nil a = refl
remove_child-find part (cons e es) (single, below, a) =
    elim (Bool-cases (same_string (name_of e) part)) [
      | inl is ↦
          rw is (
            ap (λ (n : List ℕ). find_child n es) (sym (same_string-eq (name_of e) part is))
            ∙ single)
      | inr off ↦ rw off (rw off (remove_child-find part es a))
    ]

remove_child-other :
    (part other : List ℕ) (es : Children)
    → other ≢ part
    → find_child other (remove_child part es) ≡ find_child other es
unfolding find_child remove_child
remove_child-other part other nil ne = refl
remove_child-other part other (cons e es) ne = elim (Bool-cases (same_string (name_of e) part)) [
  | inl is ↦
      let off : same_string (name_of e) other ≡ false =
        same_string-false (name_of e) other
          (λ i. ne (sym i ∙ same_string-eq (name_of e) part is)) in
      rw is (rw off refl)
  | inr off ↦ elim (Bool-cases (same_string (name_of e) other)) [
    | inl is ↦ rw off (rw is refl)
    | inr off' ↦ rw off (rw off' (remove_child-other part other es ne))
  ]
]

remove_at-KeepsName : (part : List ℕ) (parts : List (List ℕ)) → KeepsName (remove_at part parts)
unfolding KeepsName remove_at
remove_at-KeepsName part [] (entry name node children) = refl
remove_at-KeepsName part (next ∷ parts) (entry name node children) = refl

found-IsUnique :
    (part : List ℕ) (es : Children) → AllUnique es → IsUnique (or_new part (find_child part es))
unfolding IsUnique find_child or_new
found-IsUnique part nil a = tt
found-IsUnique part (cons e es) (single, below, a) =
    elim (Bool-cases (same_string (name_of e) part)) [
      | inl is ↦ rw is below
      | inr off ↦ rw off (found-IsUnique part es a)
    ]

-- Nothing is left at the path and below it.
removed :
    (part : List ℕ) (parts os : List (List ℕ)) (e : Entry)
    → IsUnique e
    → node_at (remove_at part parts e) ((part ∷ parts) ++ os) ≡ none
unfolding IsUnique remove_at
removed part [] os (entry name node children) u =
    node_at-none (entry name node (remove_child part children)) part os
      (remove_child-find part children u)
removed part (next ∷ parts) os (entry name node children) u =
    let child = or_new part (find_child part children) in
    let f = remove_at next parts in
    node_at-cons (entry name node (change_child part f children)) part ((next ∷ parts) ++ os)
      (f child) (find_child-change_child part f children (remove_at-KeepsName next parts))
    ∙ removed next parts os child (found-IsUnique part children u)

entry-cons :
    (e : Entry) (part : List ℕ) (parts : List (List ℕ)) (c : Entry)
    → find_child part (children_of e) ≡ some c
    → find_entry e (part ∷ parts) ≡ find_entry c parts
unfolding find_entry
entry-cons e part parts c h = rw (find_entry, h) refl

entry-none :
    (e : Entry) (part : List ℕ) (parts : List (List ℕ))
    → find_child part (children_of e) ≡ none
    → find_entry e (part ∷ parts) ≡ none
unfolding find_entry
entry-none e part parts h = rw (find_entry, h) refl

starts_below :
    (part o : List ℕ) (parts os : List (List ℕ))
    → same_string part o ≡ true
    → starts (part ∷ parts) (o ∷ os) ≡ starts parts os
unfolding starts
starts_below part o parts os e = rw e refl

starts_ended :
    (p q : List ℕ) (rest : List (List ℕ))
    → same_string p q ≡ true
    → starts (p ∷ []) (q ∷ rest) ≡ true
unfolding starts
starts_ended p q rest is = rw is refl

-- What is not below the path stays.
kept :
    (part : List ℕ) (parts os : List (List ℕ)) (e x : Entry)
    → find_entry e (part ∷ parts) ≡ some x
    → starts (part ∷ parts) os ≡ false
    → node_at (remove_at part parts e) os ≡ node_at e os
unfolding remove_at node_at find_entry node_of?
kept part [] [] (entry name node children) x h s = refl
kept part (next ∷ parts) [] (entry name node children) x h s = refl
kept part [] (o ∷ os) (entry name node children) x h s = elim (Bool-cases (same_string part o)) [
  | inl is ↦ absurd (grind (arith, starts_ended part o os is))
  | inr off ↦
      same_find (entry name node children) (entry name node (remove_child part children)) o os
        (remove_child-other part o children (λ eq. apart-of part o off (sym eq)))
]
kept part (next ∷ parts) (o ∷ os) (entry name node children) x h s =
    let e = entry name node children in
    let f = remove_at next parts in
    let e' = entry name node (change_child part f children) in
    elim (Bool-cases (same_string part o)) [
      | inl is ↦ elim (Option-cases (find_child part children)) [
        | inl gone ↦ absurd (grind (arith, entry-none e part (next ∷ parts) gone))
        | inr (c, here) ↦
            let same = same_string-eq part o is in
            let child : or_new part (find_child part children) ≡ c =
              or_new-some part (find_child part children) c here in
            let found : find_child part (children_of e') ≡ some (f c) =
              find_child-change_child part f children (remove_at-KeepsName next parts)
              ∙ ap (λ (y : Entry). some (f y)) child in
            let inner : find_entry c (next ∷ parts) ≡ some x =
              sym (entry-cons e part (next ∷ parts) c here) ∙ h in
            let apart : starts (next ∷ parts) os ≡ false =
              sym (starts_below part o (next ∷ parts) os is) ∙ s in
            subst (λ (y : List ℕ). node_at e' (y ∷ os) ≡ node_at e (y ∷ os)) same
              (node_at-cons e' part os (f c) found
                ∙ kept next parts os c x inner apart
                ∙ sym (node_at-cons e part os c here))
      ]
      | inr off ↦ same_find e e' o os (
          find_child-other part o f children (remove_at-KeepsName next parts)
            (λ eq. apart-of part o off (sym eq)))
    ]

-- A path that starts with another one is that one and what is below it.
starts-rest :
    (ps os : List (List ℕ)) → starts ps os ≡ true → (rest : List (List ℕ)) × (os ≡ ps ++ rest)
unfolding starts
starts-rest [] os e = (os, refl)
starts-rest (p ∷ ps) [] e = absurd (grind arith)
starts-rest (p ∷ ps) (o ∷ os) e = elim (Bool-cases (same_string p o)) [
  | inl is ↦
      let (rest, more) = starts-rest ps os (sym (starts_below p o ps os is) ∙ e) in
      (rest, ap₂ ◌∷◌ (sym (same_string-eq p o is)) more)
  | inr off ↦ let no_start : starts (p ∷ ps) (o ∷ os) ≡ false = rw off refl in absurd (grind arith)
]

removed_below :
    (part : List ℕ) (parts os : List (List ℕ)) (e : Entry)
    → IsUnique e
    → starts (part ∷ parts) os ≡ true
    → node_at (remove_at part parts e) os ≡ none
removed_below part parts os e u s =
    let (rest, is) = starts-rest (part ∷ parts) os s in
    ap (node_at (remove_at part parts e)) is ∙ removed part parts rest e u

parts-none :
    (root : Entry) (p : List ℕ) (ps : List (List ℕ))
    → find_entry root (p ∷ ps) ≡ none
    → umount_parts root (p ∷ ps) ≡ none
unfolding umount_parts
parts-none root p ps h = rw (umount_parts, h) refl

parts-some :
    (root x : Entry) (p : List ℕ) (ps : List (List ℕ))
    → find_entry root (p ∷ ps) ≡ some x
    → umount_parts root (p ∷ ps) ≡ some (remove_at p ps root)
unfolding umount_parts
parts-some root x p ps h = rw (umount_parts, h) refl

parts-Map :
    (ps os : List (List ℕ)) (root root' : Entry)
    → IsUnique root
    → ps ≢ []
    → umount_parts root ps ≡ some root'
    → node_at root' os ≡ (if starts ps os then none else node_at root os)
unfolding umount_parts
parts-Map [] os root root' u ne e = absurd (ne refl)
parts-Map (part ∷ parts) os root root' u ne e =
    elim (Option-cases (find_entry root (part ∷ parts))) [
      | inl gone ↦ absurd (grind (arith, parts-none root part parts gone))
      | inr (x, here) ↦
          let is : root' ≡ remove_at part parts root =
            some-injective (sym e ∙ parts-some root x part parts here) in
          ap (λ (y : Entry). node_at y os) is ∙ elim (Bool-cases (starts (part ∷ parts) os)) [
            | inl s ↦ rw s (removed_below part parts os root u s)
            | inr s ↦ rw s (kept part parts os root x here s)
          ]
    ]

-- When unmounting a path other than "/" succeeds, on a tree without two children of one name, the path and
-- everything below it are gone from the map, and the rest of the map is as it was.
pub umount-Map :
    (root root' : Entry) (path : List ℕ) (os : List (List ℕ))
    → IsUnique root
    → segments path ≢ []
    → umount root path ≡ some root'
    → node_at root' os ≡ (if starts (segments path) os then none else node_at root os)
unfolding umount
umount-Map root root' path os u ne e = parts-Map (segments path) os root root' u ne e

-- Mounting gives no entry two children of one name.
pub mount_node-IsUnique :
    (root : Entry) (path : List ℕ) (fsroot : ℕ)
    → IsUnique root
    → IsUnique (mount_node root path fsroot)
unfolding mount_node
mount_node-IsUnique root path fsroot u = mount_at-IsUnique (mounted fsroot) (segments path) root u
