-- ===== src/Vfs/Entries.antt =====
-- Names and the children of an entry (kernel/src/fs/vfs.c): a child that is changed is the one that is
-- found, and no other.
use scales_os.Prelude.{
  ℕ, ◌≡◌, ◌≢◌, refl, sym, ap, ap₂, ◌∙◌, true, false, Bool-cases, inl, inr, Option, none, some, List,
  [], ◌∷◌, arith,
}
use scales_os.Paths.{same_string}
use scales_os.Vfs.{Entry, Children, nil, cons, name_of, create_entry, find_child, change_child}

pub same_string_self : (a : List ℕ) → same_string a a ≡ true
unfolding same_string
same_string_self [] = refl
same_string_self (x ∷ xs) = ground (arith, same_string_self xs)

pub same_string-eq : (a b : List ℕ) → same_string a b ≡ true → a ≡ b
unfolding same_string
same_string-eq [] [] e = refl
same_string-eq [] (y ∷ ys) e = absurd (grind arith)
same_string-eq (x ∷ xs) [] e = absurd (grind arith)
same_string-eq (x ∷ xs) (y ∷ ys) e =
    let heads : x ≡ y = ground arith in
    let tails : same_string xs ys ≡ true = ground arith in
    ap₂ ◌∷◌ heads (same_string-eq xs ys tails)

pub same_string-false : (a b : List ℕ) → a ≢ b → same_string a b ≡ false
same_string-false a b ne = elim (Bool-cases (same_string a b)) [
  | inl e ↦ absurd (ne (same_string-eq a b e))
  | inr e ↦ e
]

-- A change that keeps the name of an entry.
unfoldable pub KeepsName : (Entry → Entry) → Type 0
KeepsName f = (e : Entry) → name_of (f e) ≡ name_of e

-- The child that is changed: the old one, or a new one.
unfoldable pub or_new : (part : List ℕ) → Option Entry → Entry
or_new part none = create_entry part
or_new part (some e) = e

pub find_child-change_child :
    (part : List ℕ) (f : Entry → Entry) (es : Children)
    → KeepsName f
    → find_child part (change_child part f es) ≡ some (f (or_new part (find_child part es)))
unfolding KeepsName or_new find_child change_child
find_child-change_child part f nil k =
    let same : same_string (name_of (f (create_entry part))) part ≡ true =
      ap (λ (n : List ℕ). same_string n part) (k (create_entry part)) ∙ same_string_self part in
    rw same refl
find_child-change_child part f (cons e es) k = elim (Bool-cases (same_string (name_of e) part)) [
  | inl is ↦
      let same : same_string (name_of (f e)) part ≡ true =
        ap (λ (n : List ℕ). same_string n part) (k e) ∙ is in
      rw is (rw same refl)
  | inr off ↦ rw off (rw off (find_child-change_child part f es k))
]

pub find_child-other :
    (part other : List ℕ) (f : Entry → Entry) (es : Children)
    → KeepsName f
    → other ≢ part
    → find_child other (change_child part f es) ≡ find_child other es
unfolding KeepsName find_child change_child
find_child-other part other f nil k ne =
    let off : same_string (name_of (f (create_entry part))) other ≡ false =
      ap (λ (n : List ℕ). same_string n other) (k (create_entry part))
      ∙ same_string-false part other (λ e. ne (sym e)) in
    rw off refl
find_child-other part other f (cons e es) k ne = elim (Bool-cases (same_string (name_of e) part)) [
  | inl is ↦
      let off : same_string (name_of e) other ≡ false =
        same_string-false (name_of e) other
          (λ i. ne (sym i ∙ same_string-eq (name_of e) part is)) in
      let off' : same_string (name_of (f e)) other ≡ false =
        ap (λ (n : List ℕ). same_string n other) (k e) ∙ off in
      rw is (rw (off, off') refl)
  | inr off ↦ elim (Bool-cases (same_string (name_of e) other)) [
    | inl is ↦ rw off (rw is refl)
    | inr off' ↦ rw off (rw off' (find_child-other part other f es k ne))
  ]
]
