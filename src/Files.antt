-- ===== src/Files.antt =====
-- Reading, writing and seeking through descriptors: kernel/src/int/syscall.c on the descriptors of Proc.Fds. The
-- operations of the nodes, which the file systems and devices fill in, are a parameter.
pub mod Offsets
mod Tests
use scales_os.Prelude.{
  ℕ, zero, suc, ◌+◌, ◌-◌, ◌^◌, Bool, true, false, not, ◌&&◌, ◌||◌, Option, none, some, List, [],
  ◌∷◌, add32, ltb, ◌==◌, if◌then◌else◌,
}
use scales_os.Proc.Fds.{Fd, Table, Store, update, fd2fdt}

-- -ENOENT and -EPERM as words
abbrev pub error : ℕ → ℕ
error e = 2 ^ 32 - e

abbrev pub enoent : ℕ
enoent = 2

abbrev pub eperm : ℕ
eperm = 1

-- `fs.read` and `fs.write` of the nodes, with the word they return and the bytes read; `readable` and
-- `writable` are that there is one and that the mode allows it; `size` is that of the node.
pub record Nodes (W : Type 0) : Type 0 where
  pub read : W → (node offset size : ℕ) → ℕ × List ℕ × W
  pub write : W → (node offset : ℕ) → (bytes : List ℕ) → ℕ × W
  pub readable : ℕ → Bool
  pub writable : ℕ → Bool
  pub size : W → ℕ → ℕ

-- `read > 0` of an `int32_t`
abbrev pub is_positive : ℕ → Bool
is_positive r = not (r == 0) && ltb r (2 ^ 31)

abbrev pub with_offset : Store → (p offset : ℕ) → Store
with_offset s p offset = record s { fds = update s.fds p (record (s.fds p) { offset = offset }) }

-- `fdt->offset += read`
abbrev pub advance : Store → (p r : ℕ) → Store
advance s p r = if is_positive r then with_offset s p (add32 (s.fds p).offset r) else s

module _ {W : Type 0} (ops : Nodes W) where
  -- `k_fs_vfs_read` and `k_fs_vfs_write`
  abbrev pub vfs_read : W → (node offset size : ℕ) → ℕ × List ℕ × W
  vfs_read w node offset size =
      if ops.readable node then ops.read w node offset size else (error eperm, [], w)

  abbrev pub vfs_write : W → (node offset : ℕ) → (bytes : List ℕ) → ℕ × W
  vfs_write w node offset bytes =
      if ops.writable node then ops.write w node offset bytes else (error eperm, w)

  -- `sys_read`: what it returns, the bytes, the descriptors and the nodes
  pub sys_read : Table → Store → W → (fd count : ℕ) → ℕ × List ℕ × Store × W
  sys_read t s w fd count = elim (fd2fdt t fd) [
    | none ↦ (error enoent, [], s, w)
    | some p ↦
        let (r, bytes, w') = vfs_read w (s.fds p).node (s.fds p).offset count in
        (r, bytes, advance s p r, w')
  ]

  -- `sys_write`
  pub sys_write : Table → Store → W → (fd : ℕ) → (bytes : List ℕ) → ℕ × Store × W
  sys_write t s w fd bytes = elim (fd2fdt t fd) [
    | none ↦ (error enoent, s, w)
    | some p ↦
        let (r, w') = vfs_write w (s.fds p).node (s.fds p).offset bytes in (r, advance s p r, w')
  ]

  -- SEEK_SET, SEEK_CUR, SEEK_END, and any other origin
  abbrev pub seek_to : W → Fd → (offset origin : ℕ) → ℕ
  seek_to w fd offset zero = offset
  seek_to w fd offset (suc zero) = add32 fd.offset offset
  seek_to w fd offset (suc (suc zero)) = add32 (ops.size w fd.node) offset
  seek_to w fd offset (suc (suc (suc origin))) = fd.offset

  -- `sys_seek`
  pub sys_seek : Table → Store → W → (fd offset origin : ℕ) → ℕ × Store
  sys_seek t s w fd offset origin = elim (fd2fdt t fd) [
    | none ↦ (error enoent, s)
    | some p ↦ let to = seek_to w (s.fds p) offset origin in (to, with_offset s p to)
  ]
