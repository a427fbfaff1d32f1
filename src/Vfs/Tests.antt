-- ===== src/Vfs/Tests.antt =====
-- Runs of the mount points: "/a" has the node 5, "/a/b" the node 6, and the file system of 6 has "c" at 7.
use scales_os.Prelude.{
  ℕ, ◌≡◌, refl, false, ◌&&◌, none, some, List, [], ◌∷◌, arith, ◌==◌, if◌then◌else◌,
}
use scales_os.Paths.{
  same_string, strip, without_first_slash, without_last_slash, path_length, count_slashes, segment,
  segment_of, skip, until_slash,
}
use scales_os.Vfs.{
  Node, virtual_node, mounted, Entry, entry, nil, cons, node_of, segments, find_child, find_entry,
  mount_node, umount, umount_parts, mount_at, change_child, remove_at, remove_child, segments_from,
}
use scales_os.Vfs.Mounting.{node_at, starts}
use scales_os.Vfs.Unmounting.{IsUnique, umount-Map, mount_node-IsUnique}
use scales_os.Vfs.Search.{FileSystems, is_link, find_node, named, finddir_all, find_node-deepest}

abbrev root : Entry
root = entry (b'[' ∷ []) virtual_node nil

abbrev path_a : List ℕ
path_a = b'/' ∷ b'a' ∷ []

abbrev path_ab : List ℕ
path_ab = b'/' ∷ b'a' ∷ b'/' ∷ b'b' ∷ []

abbrev path_abc : List ℕ
path_abc = b'/' ∷ b'a' ∷ b'/' ∷ b'b' ∷ b'/' ∷ b'c' ∷ []

abbrev parts_ab : List (List ℕ)
parts_ab = (b'a' ∷ []) ∷ (b'b' ∷ []) ∷ []

parts_of_ab : segments path_ab ≡ parts_ab
unfolding segments segments_from path_length segment segment_of skip until_slash strip same_string
    without_first_slash without_last_slash count_slashes
parts_of_ab = refl

abbrev one_mount : Entry
one_mount = mount_node root path_a 5

abbrev tree : Entry
tree = mount_node one_mount path_ab 6

tree-IsUnique : IsUnique tree
unfolding IsUnique
tree-IsUnique = mount_node-IsUnique one_mount path_ab 6 (mount_node-IsUnique root path_a 5 tt)

unmounted :
    umount tree path_ab
    ≡ some (entry (b'[' ∷ []) virtual_node (cons (entry (b'a' ∷ []) (mounted 5) nil) nil))
unfolding umount umount_parts mount_node mount_at find_entry find_child change_child remove_at
    remove_child segments segments_from path_length segment segment_of skip until_slash strip
    same_string without_first_slash without_last_slash count_slashes
unmounted = refl

umount-Map_example :
    node_at (entry (b'[' ∷ []) virtual_node (cons (entry (b'a' ∷ []) (mounted 5) nil) nil)) parts_ab
    ≡ (if starts (segments path_ab) parts_ab then none else node_at tree parts_ab)
umount-Map_example =
    umount-Map tree (entry (b'[' ∷ []) virtual_node (cons (entry (b'a' ∷ []) (mounted 5) nil) nil))
      path_ab parts_ab tree-IsUnique (λ e. ground (arith, e, parts_of_ab)) unmounted

abbrev files : FileSystems
files = record {
  finddir = λ n name. if n == 6 && same_string name (b'c' ∷ []) then some 7 else none;
  name = λ n. b'c' ∷ [];
  is_symlink = λ n. false;
  readlink = λ n. [];
}

abbrev deepest : Entry
deepest = entry (b'b' ∷ []) (mounted 6) nil

plain : (n : Node) → is_link files n ≡ false
plain virtual_node = refl
plain (mounted n) = refl

find_node-deepest_example :
    find_node files 1 tree path_abc false
    ≡ some (named files path_abc (finddir_all files (node_of deepest) ((b'c' ∷ []) ∷ [])))
unfolding find_child mount_node mount_at find_entry change_child segments segments_from path_length
    segment segment_of skip until_slash strip same_string without_first_slash without_last_slash
    count_slashes
find_node-deepest_example =
    find_node-deepest files 0 tree deepest path_abc parts_ab (b'c' ∷ []) [] plain refl refl refl
      refl
