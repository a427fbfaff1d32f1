-- ===== src/Tty/Line.antt =====
-- The line under edit of a terminal (kernel/src/dev/tty.c): what erasing, entering and delivering
-- do to it and to the input.
use scales_os.Prelude.{
  ℕ, zero, suc, ◌-◌, ◌≤◌, ◌≡◌, refl, sym, ap, ◌∙◌, true, false, List, [], ◌∷◌, ◌++◌, reverse,
  length, arith, min, ltb, ◌==◌, if◌then◌else◌, Bool-cases, inl, inr,
}
use scales_os.Termios.{echo}
use scales_os.Tty.{
  Tty, lflag, erase_last, erase_times, erase, erase_word, word_erased, replace_last, line_putc,
  line_flush, end_line,
}
use scales_os.Tty.Output.{Kept, repeat_output-Kept}

-- The settings, the quoting and the signals are as they were; the line and the input are these.
pub record Edited (t t' : Tty) (line in_bytes : List ℕ) : Type 0 where
  pub ts : t'.ts ≡ t.ts
  pub next_l : t'.next_l ≡ t.next_l
  pub process : t'.process ≡ t.process
  pub signals : t'.signals ≡ t.signals
  pub line_is : t'.line ≡ line
  pub in_bytes_is : t'.in_bytes ≡ in_bytes

pub Kept-Edited : {t t' : Tty} → Kept t t' → Edited t t' t.line t.in_bytes
Kept-Edited k = record {
  ts = k.ts;
  next_l = k.next_l;
  process = k.process;
  signals = k.signals;
  line_is = k.line;
  in_bytes_is = k.in_bytes;
}

pub Edited-refl : (t : Tty) → Edited t t t.line t.in_bytes
Edited-refl t = ground arith

pub Edited-trans :
    {t u v : Tty} {l l' i i' : List ℕ} → Edited t u l i → Edited u v l' i' → Edited t v l' i'
Edited-trans p q = record {
  ts = q.ts ∙ p.ts;
  next_l = q.next_l ∙ p.next_l;
  process = q.process ∙ p.process;
  signals = q.signals ∙ p.signals;
  line_is = q.line_is;
  in_bytes_is = q.in_bytes_is;
}

pub Edited-cast :
    {t u : Tty} {l l' i i' : List ℕ} → l ≡ l' → i ≡ i' → Edited t u l i → Edited t u l' i'
Edited-cast p q e = record {
  ts = e.ts;
  next_l = e.next_l;
  process = e.process;
  signals = e.signals;
  line_is = e.line_is ∙ p;
  in_bytes_is = e.in_bytes_is ∙ q;
}

-- A change of the output alone behind an edit.
pub Edited-Kept : {t u v : Tty} {l i : List ℕ} → Edited t u l i → Kept u v → Edited t v l i
Edited-Kept p k = record {
  ts = k.ts ∙ p.ts;
  next_l = k.next_l ∙ p.next_l;
  process = k.process ∙ p.process;
  signals = k.signals ∙ p.signals;
  line_is = k.line ∙ p.line_is;
  in_bytes_is = k.in_bytes ∙ p.in_bytes_is;
}

-- A line without its last character.
unfoldable pub rub : List ℕ → List ℕ
rub [] = []
rub (last ∷ rest) = rest

-- A line back to its last space.
unfoldable pub rub_word : List ℕ → List ℕ
rub_word [] = []
rub_word (last ∷ rest) = if last == b' ' then last ∷ rest else rub_word rest

-- A line with a character more, when there is room.
unfoldable pub push : List ℕ → ℕ → List ℕ
push line c = if ltb (length line) 4096 then c ∷ line else line

erase_last-Edited :
    (t : Tty) (l : List ℕ) → t.line ≡ l → Edited t (erase_last t l) (rub l) t.in_bytes
unfolding erase_last rub
erase_last-Edited t [] e = ground arith
erase_last-Edited t (last ∷ rest) e =
    let shorter = record t { line = rest } in
    let k = λ (n : ℕ). repeat_output-Kept shorter 0x08 n in
    let edited : Edited t shorter rest t.in_bytes = record {
      ts = refl;
      next_l = refl;
      process = refl;
      signals = refl;
      line_is = refl;
      in_bytes_is = refl;
    } in
    elim (Bool-cases (lflag t echo)) [
      | inl on ↦ rw on (Edited-Kept edited (k _))
      | inr off ↦ rw off edited
    ]

-- What erasing up to `n` characters leaves.
rub_times : ℕ → List ℕ → List ℕ
rub_times zero l = l
rub_times (suc n) l = rub_times n (rub l)

erase_times-Edited : (t : Tty) (n : ℕ) → Edited t (erase_times t n) (rub_times n t.line) t.in_bytes
unfolding erase_times rub_times
erase_times-Edited t zero = ground arith
erase_times-Edited t (suc n) =
    let one = erase_last-Edited t t.line refl in
    let more = erase_times-Edited (erase_last t t.line) n in
    Edited-cast (ap (rub_times n) one.line_is) one.in_bytes_is (Edited-trans one more)

rub_times-all : (l : List ℕ) → rub_times (length l) l ≡ []
unfolding rub_times rub
rub_times-all [] = refl
rub_times-all (c ∷ l) = rub_times-all l

rub_times-one : (l : List ℕ) → rub_times (min 1 (length l)) l ≡ rub l
unfolding rub_times rub
rub_times-one [] = refl
rub_times-one (c ∷ l) =
    let e : min 1 (suc (length l)) ≡ 1 = omega arith in ap (λ (n : ℕ). rub_times n (c ∷ l)) e

pub erase-one : (t : Tty) → Edited t (erase t 1) (rub t.line) t.in_bytes
unfolding erase
erase-one t = Edited-cast (rub_times-one t.line) refl (erase_times-Edited t _)

pub erase-all : (t : Tty) → Edited t (erase t (length t.line)) [] t.in_bytes
unfolding erase
erase-all t =
    let e : min (length t.line) (length t.line) ≡ length t.line = omega arith in
    Edited-cast (ap (λ (n : ℕ). rub_times n t.line) e ∙ rub_times-all t.line) refl
      (erase_times-Edited t _)

rub_word-nil : (l : List ℕ) → length l ≤ 0 → rub_word l ≡ l
unfolding rub_word
rub_word-nil [] le = refl
rub_word-nil (c ∷ l) le = ground arith

rub_word-erased : (l : List ℕ) → word_erased l ≡ true → rub_word l ≡ l
unfolding rub_word word_erased
rub_word-erased [] at = refl
rub_word-erased (c ∷ l) at = rw at refl

rub_word-more : (l : List ℕ) → word_erased l ≡ false → rub_word (rub l) ≡ rub_word l
unfolding rub_word word_erased rub
rub_word-more [] more = refl
rub_word-more (c ∷ l) more = rw more refl

pub length-rub : (l : List ℕ) → length (rub l) ≡ length l - 1
unfolding rub
length-rub [] = refl
length-rub (c ∷ l) = omega arith

pub erase_word-Edited :
    (t : Tty) (n : ℕ) → length t.line ≤ n → Edited t (erase_word t n) (rub_word t.line) t.in_bytes
unfolding erase_word rub_word
erase_word-Edited t zero le = Edited-cast (sym (rub_word-nil t.line le)) refl (Edited-refl t)
erase_word-Edited t (suc n) le = elim (Bool-cases (word_erased t.line)) [
  | inl at ↦ rw at (Edited-cast (sym (rub_word-erased t.line at)) refl (Edited-refl t))
  | inr more ↦
      let one = erase-one t in
      let shorter = ap length one.line_is ∙ length-rub t.line in
      let rest = erase_word-Edited (erase t 1) n (omega (arith, shorter)) in
      rw more (
        Edited-cast (ap rub_word one.line_is ∙ rub_word-more t.line more) one.in_bytes_is
          (Edited-trans one rest))
]

pub line_putc-Edited : (t : Tty) (c : ℕ) → Edited t (line_putc t c) (push t.line c) t.in_bytes
unfolding line_putc push
line_putc-Edited t c = ground arith

pub line_flush-Edited : (t : Tty) → Edited t (line_flush t) [] (t.in_bytes ++ reverse t.line)
unfolding line_flush
line_flush-Edited t = ground arith

pub end_line-Edited :
    (t : Tty) (c : ℕ) → Edited t (end_line t c) [] (t.in_bytes ++ reverse (replace_last t.line c))
unfolding end_line line_flush
end_line-Edited t c = ground arith
