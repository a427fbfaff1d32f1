-- ===== src/Files/Tests.antt =====
-- Files in memory, and runs on one of three bytes.
use scales_os.Prelude.{
  ℕ, ◌+◌, ◌-◌, ◌^◌, ◌≡◌, refl, true, some, List, [], ◌∷◌, ◌++◌, length, take, drop, arith,
}
use scales_os.Proc.Fds.{Table, Store, update, fd2fdt}
use scales_os.Files.{Nodes, is_positive, vfs_write, sys_read, sys_write, sys_seek}
use scales_os.Files.Offsets.{sys_read-sys_read, read-seek-write}

abbrev Files : Type 0
Files = ℕ → List ℕ

abbrev files : Nodes Files
files = record {
  read =
      λ w n offset size. (length (take size (drop offset (w n))), take size (drop offset (w n)), w);
  write = λ w n offset bytes.
      (length bytes, update w n (take offset (w n) ++ bytes ++ drop (offset + length bytes) (w n)));
  readable = λ n. true;
  writable = λ n. true;
  size = λ w n. length (w n);
}

-- The descriptors 0 and 1 share a `fd_t`.
abbrev both : Table
both = record { nodes = some 0 ∷ some 0 ∷ []; amount = 2; size = 2 }

abbrev store : Store
store = record {
  fds = λ p. record { node = 5; offset = 1; links = 2 };
  fresh = 1;
  links = λ n. 1;
  released = [];
}

abbrev world : Files
world n = 10 ∷ 11 ∷ 12 ∷ 13 ∷ []

at_zero : fd2fdt both 0 ≡ some 0
unfolding fd2fdt
at_zero = refl

at_one : fd2fdt both 1 ≡ some 0
unfolding fd2fdt
at_one = refl

-- The second read, through the other descriptor, asks at the offset 2.
sys_read-sys_read_example :
    let first = sys_read files both store world 0 1 in
    let second = sys_read files both first.2 first.3 1 2 in
    (second.0 ≡ 2) × (second.1 ≡ 12 ∷ 13 ∷ []) × (second.3 ≡ world)
unfolding sys_read fd2fdt
sys_read-sys_read_example = sys_read-sys_read files both both store world 0 1 0 0 1 2 at_zero at_one

wrote : is_positive (sys_write files both store world 0 (7 ∷ 8 ∷ [])).0 ≡ true
unfolding sys_write fd2fdt
wrote = refl

read-seek-write_example :
    let written = sys_write files both store world 0 (7 ∷ 8 ∷ []) in
    let sought = sys_seek files both written.1 written.2 0 (2 ^ 32 - written.0) 1 in
    let got = sys_read files both sought.1 written.2 0 2 in
    ((written.0, written.2) ≡ vfs_write files world 5 1 (7 ∷ 8 ∷ []))
    × (sought.0 ≡ 1)
    × (got.0 ≡ 2)
    × (got.1 ≡ 7 ∷ 8 ∷ [])
unfolding sys_write fd2fdt
read-seek-write_example =
    read-seek-write files both store world 0 0 2 (7 ∷ 8 ∷ []) at_zero (omega arith) wrote
