-- ===== src/Files/Offsets.antt =====
-- What successive reads, writes and seeks through descriptors ask the nodes for (kernel/src/int/syscall.c).
use scales_os.Prelude.{
  ℕ, ◌-◌, ◌^◌, ◌<◌, ◌≡◌, ◌∙◌, refl, sym, ap, ap₂, inl, inr, true, Bool-cases, some, List, arith,
  ◌==◌, add32, if◌then◌else◌,
}
use scales_os.Proc.Fds.{Fd, Table, Store, fd2fdt}
use scales_os.Files.{
  Nodes, is_positive, with_offset, advance, vfs_read, vfs_write, sys_read, sys_write, sys_seek,
}

-- Where a description stands after another one, or the same, was advanced
abbrev pub offset_after : Store → (p r q : ℕ) → ℕ
offset_after s p r q =
    if q == p
    then if is_positive r then add32 (s.fds p).offset r else (s.fds p).offset
    else (s.fds q).offset

same_or_not : (q p : ℕ) → (q == p) ≡ true → q ≡ p
same_or_not q p h = ground (arith, h)

fds-with_offset :
    (s : Store) (p to q : ℕ)
    → (with_offset s p to).fds q
      ≡ record (s.fds q) { offset = if q == p then to else (s.fds q).offset }
fds-with_offset s p to q = elim (Bool-cases (q == p)) [
  | inl is ↦ rw is (ap (λ (k : ℕ). record (s.fds k) { offset = to }) (sym (same_or_not q p is)))
  | inr off ↦ rw off refl
]

fds-advance :
    (s : Store) (p r q : ℕ)
    → (advance s p r).fds q ≡ record (s.fds q) { offset = offset_after s p r q }
fds-advance s p r q = elim (Bool-cases (is_positive r)) [
  | inl on ↦ rw on (fds-with_offset s p (add32 (s.fds p).offset r) q)
  | inr off ↦ rw off (elim (Bool-cases (q == p)) [
    | inl is ↦
        rw is (ap (λ (k : ℕ). record (s.fds q) { offset = (s.fds k).offset }) (same_or_not q p is))
    | inr other ↦ rw other refl
  ])
]

there_and_back :
    (off r : ℕ) → off < 2 ^ 32 → is_positive r ≡ true → add32 (add32 off r) (2 ^ 32 - r) ≡ off
there_and_back off r bound moved =
    let small : r < 2 ^ 31 = ground (arith, moved) in omega (arith, bound, small)

module _ {W : Type 0} (ops : Nodes W) where
  -- What a read gives, of a description that stands at an offset
  abbrev pub given : W → Fd → (count : ℕ) → ℕ × List ℕ × W
  given w f count = vfs_read ops w f.node f.offset count

  read-given :
      (t : Table) (s : Store) (w : W) (fd p count : ℕ)
      → fd2fdt t fd ≡ some p
      → sys_read ops t s w fd count ≡ (
        (given w (s.fds p) count).0,
        (given w (s.fds p) count).1,
        advance s p (given w (s.fds p) count).0,
        (given w (s.fds p) count).2,
      )
  unfolding sys_read
  read-given t s w fd p count at = rw (sys_read, at) refl

  -- A read through a descriptor after another read, through the same descriptor or another: if the two
  -- share a file description, the second read asks the node at the offset where the first one ended, which
  -- is where it began if the first returned 0 or an error; otherwise it asks at the offset that its own
  -- description had before both. Its result, its bytes and what becomes of the nodes are those of the node.
  pub sys_read-sys_read :
      (t t' : Table) (s : Store) (w : W) (fd fd' p q a b : ℕ)
      → fd2fdt t fd ≡ some p
      → fd2fdt t' fd' ≡ some q
      → let first = sys_read ops t s w fd a in
        let second = sys_read ops t' first.2 first.3 fd' b in
        let asked = vfs_read ops first.3 (s.fds q).node (offset_after s p first.0 q) b in
        (second.0 ≡ asked.0) × (second.1 ≡ asked.1) × (second.3 ≡ asked.2)
  sys_read-sys_read t t' s w fd fd' p q a b at at' =
      let first = given w (s.fds p) a in
      let same : given first.2 ((advance s p first.0).fds q) b
          ≡ vfs_read ops first.2 (s.fds q).node (offset_after s p first.0 q) b =
        ap (λ (f : Fd). given first.2 f b) (fds-advance s p first.0 q) in
      rw (read-given t s w fd p a at) (
        rw (read-given t' (advance s p first.0) first.2 fd' q b at') (
          ap (λ (x : ℕ × List ℕ × W). x.0) same,
          ap (λ (x : ℕ × List ℕ × W). x.1) same,
          ap (λ (x : ℕ × List ℕ × W). x.2) same,
        ))

  -- What a write gives, of a description that stands at an offset
  abbrev pub taken : W → Fd → (bytes : List ℕ) → ℕ × W
  taken w f bytes = vfs_write ops w f.node f.offset bytes

  write-taken :
      (t : Table) (s : Store) (w : W) (fd p : ℕ) (bytes : List ℕ)
      → fd2fdt t fd ≡ some p
      → sys_write ops t s w fd bytes ≡ (
        (taken w (s.fds p) bytes).0,
        advance s p (taken w (s.fds p) bytes).0,
        (taken w (s.fds p) bytes).1,
      )
  unfolding sys_write
  write-taken t s w fd p bytes at = rw (sys_write, at) refl

  seek-current :
      (t : Table) (s : Store) (w : W) (fd p by : ℕ)
      → fd2fdt t fd ≡ some p
      → sys_seek ops t s w fd by 1
        ≡ (add32 (s.fds p).offset by, with_offset s p (add32 (s.fds p).offset by))
  unfolding sys_seek
  seek-current t s w fd p by at = rw (sys_seek, at) refl

  -- Writing, seeking back by what the write returned and reading: the seek returns the offset at which the
  -- write was made, and the read asks the same node for what stands there after the write. The write
  -- returned more than 0, and the offset is a word.
  pub read-seek-write :
      (t : Table) (s : Store) (w : W) (fd p count : ℕ) (bytes : List ℕ)
      → fd2fdt t fd ≡ some p
      → (s.fds p).offset < 2 ^ 32
      → is_positive (sys_write ops t s w fd bytes).0 ≡ true
      → let off = (s.fds p).offset in
        let written = sys_write ops t s w fd bytes in
        let sought = sys_seek ops t written.1 written.2 fd (2 ^ 32 - written.0) 1 in
        let got = sys_read ops t sought.1 written.2 fd count in
        let asked = vfs_read ops written.2 (s.fds p).node off count in
        ((written.0, written.2) ≡ vfs_write ops w (s.fds p).node off bytes)
        × (sought.0 ≡ off)
        × (got.0 ≡ asked.0)
        × (got.1 ≡ asked.1)
  read-seek-write t s w fd p count bytes at bound positive =
      let off = (s.fds p).offset in
      let wrote = taken w (s.fds p) bytes in
      let r = wrote.0 in
      let s1 = advance s p r in
      let moved : is_positive r ≡ true =
        ap (λ (x : ℕ × Store × W). is_positive x.0) (sym (write-taken t s w fd p bytes at))
        ∙ positive in
      let is : (p == p) ≡ true = ground arith in
      let after : (s1.fds p).offset ≡ add32 off r =
        ap (λ (f : Fd). f.offset) (fds-advance s p r p) ∙ rw is (rw moved refl) in
      let back : add32 (s1.fds p).offset (2 ^ 32 - r) ≡ off =
        ap (λ (k : ℕ). add32 k (2 ^ 32 - r)) after ∙ there_and_back off r bound moved in
      let s2 = with_offset s1 p (add32 (s1.fds p).offset (2 ^ 32 - r)) in
      let there : (s2.fds p).offset ≡ off =
        ap (λ (f : Fd). f.offset) (fds-with_offset s1 p (add32 (s1.fds p).offset (2 ^ 32 - r)) p)
        ∙ rw is back in
      let node : (s2.fds p).node ≡ (s.fds p).node =
        ap (λ (f : Fd). f.node) (fds-with_offset s1 p (add32 (s1.fds p).offset (2 ^ 32 - r)) p)
        ∙ ap (λ (f : Fd). f.node) (fds-advance s p r p) in
      let asks : given wrote.1 (s2.fds p) count ≡ vfs_read ops wrote.1 (s.fds p).node off count =
        ap₂ (λ (n o : ℕ). vfs_read ops wrote.1 n o count) node there in
      rw (write-taken t s w fd p bytes at) (
        rw (seek-current t s1 wrote.1 fd p (2 ^ 32 - r) at) (
          rw (read-given t s2 wrote.1 fd p count at) (
            refl,
            back,
            ap (λ (x : ℕ × List ℕ × W). x.0) asks,
            ap (λ (x : ℕ × List ℕ × W). x.1) asks,
          )))
