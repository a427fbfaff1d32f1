-- ===== src/Vfs.antt =====
-- The tree of mount points, in kernel/src/fs/vfs.c: entries by name, each with the node that is mounted
-- there, and the search of a path through them into the file systems. A path is cut by Paths. What a
-- file system answers is a parameter (Vfs.Search).
pub mod Entries
pub mod Mounting
pub mod Unmounting
pub mod Search
mod Tests
use scales_os.Prelude.{
  ℕ, zero, suc, ◌+◌, ◌-◌, Bool, true, false, not, ◌&&◌, Option, none, some, List, [], ◌∷◌, length,
  ◌==◌, if◌then◌else◌,
}
use scales_os.Paths.{same_string, path_length, segment}

-- `node` of a `vfs_entry_t`: the node that `__k_fs_vfs_create_virtual_node` gives a new entry (it has
-- the flag VFS_MAPPER), or one that was mounted.
pub data Node : Type 0 where
  virtual_node : Node
  mounted : ℕ → Node

mutual
  -- `vfs_entry_t` with its tree node
  pub data Entry : Type 0 where
    entry : (name : List ℕ) → Node → Children → Entry

  -- The children of a tree node, in order
  pub data Children : Type 0 where
    nil : Children
    cons : Entry → Children → Children

abbrev pub name_of : Entry → List ℕ
name_of (entry name node children) = name

abbrev pub node_of : Entry → Node
node_of (entry name node children) = node

abbrev pub children_of : Entry → Children
children_of (entry name node children) = children

-- `k_fs_vfs_create_entry`
abbrev pub create_entry : (name : List ℕ) → Entry
create_entry name = entry name virtual_node nil

-- The search for a child by name, as every loop over the children does it
unfoldable pub find_child : (part : List ℕ) → Children → Option Entry
find_child part nil = none
find_child part (cons e es) = if same_string (name_of e) part then some e else find_child part es

-- The segments of a path, those that are NULL left out
pub segments_from : (path : List ℕ) → (i left : ℕ) → List (List ℕ)
segments_from path i zero = []
segments_from path i (suc left) =
    let rest = segments_from path (i + 1) left in
    elim (segment path i) [ none ↦ rest | some part ↦ part ∷ rest ]

pub segments : (path : List ℕ) → List (List ℕ)
segments path = segments_from path 0 (path_length path)

-- The loop of `__k_fs_vfs_get_entry` that creates nothing
unfoldable pub find_entry : Entry → (parts : List (List ℕ)) → Option Entry
find_entry e [] = some e
find_entry e (part ∷ parts) = elim (find_child part (children_of e)) [
  | none ↦ none
  | some child ↦ find_entry child parts
]

-- A change of the child with a name; a child that is missing is created behind the others.
unfoldable pub change_child : (part : List ℕ) → (Entry → Entry) → Children → Children
change_child part f nil = cons (f (create_entry part)) nil
change_child part f (cons e es) =
    if same_string (name_of e) part then cons (f e) es else cons e (change_child part f es)

-- The loop of `__k_fs_vfs_get_entry` that creates what is missing, and what is then stored in the entry.
unfoldable pub mount_at : Node → (parts : List (List ℕ)) → Entry → Entry
mount_at node [] (entry name old children) = entry name node children
mount_at node (part ∷ parts) (entry name old children) =
    entry name old (change_child part (mount_at node parts) children)

-- `k_fs_vfs_mount_node`; the root keeps its name.
pub mount_node : Entry → (path : List ℕ) → (fsroot : ℕ) → Entry
mount_node root path fsroot = mount_at (mounted fsroot) (segments path) root

-- `tree_remove_node` of the child with a name
unfoldable pub remove_child : (part : List ℕ) → Children → Children
remove_child part nil = nil
remove_child part (cons e es) =
    if same_string (name_of e) part then es else cons e (remove_child part es)

-- The tree without the entry at a path, of one part at least
unfoldable pub remove_at : (part : List ℕ) → (parts : List (List ℕ)) → Entry → Entry
remove_at part [] (entry name node children) = entry name node (remove_child part children)
remove_at part (next ∷ parts) (entry name node children) =
    entry name node (change_child part (remove_at next parts) children)

-- `k_fs_vfs_umount`; `none` is K_STATUS_ERR_GENERIC. The root is never removed.
pub umount_parts : Entry → (parts : List (List ℕ)) → Option Entry
umount_parts root [] = some root
umount_parts root (part ∷ parts) = elim (find_entry root (part ∷ parts)) [
  | none ↦ none
  | some e ↦ some (remove_at part parts root)
]

pub umount : Entry → (path : List ℕ) → Option Entry
umount root path = umount_parts root (segments path)

-- `k_fs_vfs_get_mountpoint`, whose entry's node is asked for
pub get_mountpoint : Entry → (path : List ℕ) → Option Entry
get_mountpoint root path = find_entry root (segments path)
