-- ===== src/Tty/Input.antt =====
-- Typing on a terminal in canonical mode (kernel/src/dev/tty.c): the keys do what they mean.
use scales_os.Prelude.{
  ℕ, ◌≡◌, refl, sym, ap, ◌∙◌, Bool, true, false, not, ◌&&◌, List, [], ◌∷◌, ◌++◌, reverse, length,
  arith, test_bit, if◌then◌else◌, subst,
}
use scales_os.Termios.{Termios, echo, echonl, inlcr, icanon, verase, vkill, veof, vlnext, vwerase}
use scales_os.Tty.{
  Tty, lflag, signal_of, map_input, quoted_char, process_input, write_master, line_putc, line_flush,
  end_line, echo_char, erase, erase_word, enter_char, kill_or_enter, erase_or_more, canonical,
  edit_char, process_output, replace_last,
}
use scales_os.Tty.Output.{Kept, process_output-Kept, echo_char-Kept, Kept-trans, Kept-refl}
use scales_os.Tty.Line.{
  Edited, Edited-refl, Edited-trans, Edited-Kept, Edited-cast, rub, push, erase-one, erase-all,
  erase_word-Edited, line_putc-Edited, line_flush-Edited, end_line-Edited,
}
use scales_os.Tty.Keys.{
  Key, char, quote, rub_char, rub_last_word, kill, end_of_file, enter, ended, type_key, type_keys,
  control, key_bytes, keys_bytes, is_quiet, is_plain, Cooked,
}

-- A byte that is quiet comes to the canonical mode as it is.
process_input-is_quiet :
    (alive : ℕ → Bool) (t : Tty) (c : ℕ)
    → t.next_l ≡ false
    → is_quiet t.ts c ≡ true
    → test_bit t.ts.c_lflag icanon ≡ true
    → test_bit t.ts.c_iflag inlcr ≡ false
    → process_input alive t c ≡ canonical t c
unfolding process_input is_quiet signal_of map_input edit_char
process_input-is_quiet alive t c n q i l = ground arith

-- The bytes of the key `k`, typed one after the other, do what the key means.
pub TypedKey : (ℕ → Bool) → Tty → Key → Type 0
TypedKey alive t k =
    let after = type_key (t.line, t.in_bytes) k in
    Edited t (write_master alive t (key_bytes t.ts k)) after.0 after.1

-- The keys that are told apart: a typed character edits nothing.
unfoldable pub IsTypable : Termios → Key → Type 0
IsTypable ts (char c) = is_plain ts c ≡ true
IsTypable ts (quote c) = Unit
IsTypable ts rub_char = Unit
IsTypable ts rub_last_word = Unit
IsTypable ts kill = Unit
IsTypable ts end_of_file = Unit
IsTypable ts enter = Unit

canonical-char :
    (t : Tty) (c : ℕ)
    → Cooked t.ts
    → is_plain t.ts c ≡ true
    → canonical t c ≡ echo_char (line_putc t c) c
unfolding canonical erase_or_more kill_or_enter enter_char is_plain
canonical-char t c s p = let m = s.modes in ground arith

canonical-lnext :
    (t : Tty)
    → Cooked t.ts
    → canonical t (control t.ts vlnext)
      ≡ process_output (process_output (record t { next_l = true }) b'^') 0x08
unfolding canonical
canonical-lnext t s = let m = s.modes in ground arith

canonical-erase : (t : Tty) → Cooked t.ts → canonical t (control t.ts verase) ≡ erase t 1
unfolding canonical erase_or_more
canonical-erase t s = let m = s.modes in let q = s.erase_quiet in ground arith

canonical-werase :
    (t : Tty) → Cooked t.ts → canonical t (control t.ts vwerase) ≡ erase_word t (length t.line)
unfolding canonical erase_or_more
canonical-werase t s = let m = s.modes in let q = s.werase_quiet in ground arith

canonical-kill :
    (t : Tty) → Cooked t.ts → canonical t (control t.ts vkill) ≡ erase t (length t.line)
unfolding canonical erase_or_more kill_or_enter
canonical-kill t s = let m = s.modes in let q = s.kill_quiet in ground arith

canonical-eof : (t : Tty) → Cooked t.ts → canonical t (control t.ts veof) ≡ line_flush t
unfolding canonical erase_or_more kill_or_enter
canonical-eof t s = let m = s.modes in let q = s.eof_quiet in ground arith

-- A newline is shown, with or without ECHO, and ends the line.
canonical-enter :
    (t : Tty)
    → Cooked t.ts
    → (t' : Tty) × (Kept (echo_char (line_putc t b'\n') b'\n') t'
        × (canonical t b'\n' ≡ end_line t' b'\n'))
unfolding canonical erase_or_more kill_or_enter enter_char
canonical-enter t s =
    let m = s.modes in
    let q = s.newline_quiet in
    let t' = echo_char (line_putc t b'\n') b'\n' in
    (
      if not (lflag t echo) && lflag t echonl then process_output t' b'\n' else t',
      (ground (arith, process_output-Kept t' b'\n', Kept-refl t'), ground arith),
    )

Edited-via : {t u u' : Tty} {l i : List ℕ} → u' ≡ u → Edited t u l i → Edited t u' l i
Edited-via {t} {u} {u'} {l} {i} e = subst (λ (x : Tty). Edited t x l i) (sym e)

entered-Edited :
    (t : Tty) (c : ℕ) → Edited t (echo_char (line_putc t c) c) (push t.line c) t.in_bytes
entered-Edited t c = Edited-Kept (line_putc-Edited t c) (echo_char-Kept (line_putc t c) c)

replace_last-push : (l : List ℕ) → replace_last (push l b'\n') b'\n' ≡ ended l
unfolding replace_last push ended rub
replace_last-push [] = refl
replace_last-push (c ∷ l) = ground arith

-- One byte that is quiet, by what the canonical mode does with it.
quiet-Edited :
    (alive : ℕ → Bool) (t : Tty) (c : ℕ) {u : Tty} {l i : List ℕ}
    → t.next_l ≡ false
    → Cooked t.ts
    → is_quiet t.ts c ≡ true
    → canonical t c ≡ u
    → Edited t u l i
    → Edited t (write_master alive t (c ∷ [])) l i
unfolding write_master
quiet-Edited alive t c n s q e =
    let m = s.modes in
    Edited-via (process_input-is_quiet alive t c n q (ground arith) (ground arith) ∙ e)

enter-Edited :
    (t t' : Tty)
    → Kept (echo_char (line_putc t b'\n') b'\n') t'
    → Edited t (end_line t' b'\n') [] (t.in_bytes ++ reverse (ended t.line))
enter-Edited t t' k =
    let typed = Edited-Kept (entered-Edited t b'\n') k in
    let line = ap (λ (l : List ℕ). replace_last l b'\n') typed.line_is ∙ replace_last-push t.line in
    Edited-cast refl
      (ap (λ (l : List ℕ). t'.in_bytes ++ reverse l) line
        ∙ ap (λ (i : List ℕ). i ++ reverse (ended t.line)) typed.in_bytes_is)
      (Edited-trans typed (end_line-Edited t' b'\n'))

-- A quoted byte goes on the line.
process_input-next_l :
    (alive : ℕ → Bool) (t : Tty) (c : ℕ)
    → t.next_l ≡ true
    → process_input alive t c ≡ echo_char (line_putc (record t { next_l = false }) c) c
unfolding process_input quoted_char
process_input-next_l alive t c n = rw n refl

quote-Edited :
    (alive : ℕ → Bool) (t : Tty) (c : ℕ)
    → t.next_l ≡ false
    → Cooked t.ts
    → Edited t (write_master alive t (control t.ts vlnext ∷ c ∷ [])) (push t.line c) t.in_bytes
unfolding write_master
quote-Edited alive t c n s =
    let m = s.modes in
    let shown = process_output (process_output (record t { next_l = true }) b'^') 0x08 in
    let k =
      Kept-trans (process_output-Kept (record t { next_l = true }) b'^')
        (process_output-Kept (process_output (record t { next_l = true }) b'^') 0x08) in
    let back = record shown { next_l = false } in
    let ready : Edited t back t.line t.in_bytes = record {
      ts = k.ts;
      next_l = sym n;
      process = k.process;
      signals = k.signals;
      line_is = k.line;
      in_bytes_is = k.in_bytes;
    } in
    let lnext = process_input-is_quiet alive t _ n s.lnext_quiet (ground arith) (ground arith) in
    Edited-via
      (ap (λ (x : Tty). process_input alive x c) (lnext ∙ canonical-lnext t s)
        ∙ process_input-next_l alive shown c k.next_l)
      (Edited-cast (ap (λ (l : List ℕ). push l c) k.line) k.in_bytes
        (Edited-trans ready (entered-Edited back c)))

is_plain-is_quiet : (ts : Termios) (c : ℕ) → is_plain ts c ≡ true → is_quiet ts c ≡ true
unfolding is_plain
is_plain-is_quiet ts c p = ground (arith, p)

pub key-Edited :
    (alive : ℕ → Bool) (t : Tty) (k : Key)
    → t.next_l ≡ false
    → Cooked t.ts
    → IsTypable t.ts k
    → TypedKey alive t k
unfolding TypedKey type_key key_bytes IsTypable
key-Edited alive t (char c) n s p =
    quiet-Edited alive t _ n s (is_plain-is_quiet t.ts c p) (canonical-char t c s p)
      (entered-Edited t c)
key-Edited alive t (quote c) n s p = quote-Edited alive t c n s
key-Edited alive t rub_char n s p =
    let q = s.erase_quiet in
    quiet-Edited alive t _ n s (ground arith) (canonical-erase t s) (erase-one t)
key-Edited alive t rub_last_word n s p =
    let q = s.werase_quiet in
    quiet-Edited alive t _ n s (ground arith) (canonical-werase t s)
      (erase_word-Edited t _ (omega arith))
key-Edited alive t kill n s p =
    let q = s.kill_quiet in
    quiet-Edited alive t _ n s (ground arith) (canonical-kill t s) (erase-all t)
key-Edited alive t end_of_file n s p =
    let q = s.eof_quiet in
    quiet-Edited alive t _ n s (ground arith) (canonical-eof t s) (line_flush-Edited t)
key-Edited alive t enter n s p =
    let q = s.newline_quiet in
    let e = canonical-enter t s in
    quiet-Edited alive t _ n s (ground arith) e.1.1 (enter-Edited t e.0 e.1.0)

-- Every key of a list can be typed with these settings.
unfoldable pub AreTypable : Termios → List Key → Type 0
AreTypable ts [] = Unit
AreTypable ts (k ∷ ks) = IsTypable ts k × AreTypable ts ks

write_master-append :
    (alive : ℕ → Bool) (t : Tty) (bs cs : List ℕ)
    → write_master alive t (bs ++ cs) ≡ write_master alive (write_master alive t bs) cs
unfolding write_master
write_master-append alive t [] cs = refl
write_master-append alive t (b ∷ bs) cs = write_master-append alive (process_input alive t b) bs cs

-- On a terminal in canonical mode whose control characters are told apart, and with no quoting
-- under way, typing any keys (characters, quoted characters, erasing a character, a word or the
-- line, end of file, enter) leaves the line and the input that the keys mean: each character is
-- kept while there is room, and each finished line is handed to the reader once, in order. No
-- signal is sent and the settings stay.
pub type_keys-Edited :
    (alive : ℕ → Bool) (ks : List Key) (t : Tty)
    → t.next_l ≡ false
    → Cooked t.ts
    → AreTypable t.ts ks
    → Edited t
        (write_master alive t (keys_bytes t.ts ks))
        (type_keys (t.line, t.in_bytes) ks).0
        (type_keys (t.line, t.in_bytes) ks).1
unfolding keys_bytes type_keys AreTypable TypedKey write_master
type_keys-Edited alive [] t n s p = Edited-refl t
type_keys-Edited alive (k ∷ ks) t n s p =
    let bytes = keys_bytes t.ts ks in
    let one = key-Edited alive t k n s p.0 in
    let u = write_master alive t (key_bytes t.ts k) in
    let rest =
      type_keys-Edited alive ks u (one.next_l ∙ n) (subst Cooked (sym one.ts) s)
        (subst (λ (ts : Termios). AreTypable ts ks) (sym one.ts) p.1) in
    let state : (u.line, u.in_bytes) ≡ type_key (t.line, t.in_bytes) k =
      ap (λ (l : List ℕ). (l, u.in_bytes)) one.line_is
      ∙ ap (λ (i : List ℕ). ((type_key (t.line, t.in_bytes) k).0, i)) one.in_bytes_is in
    Edited-via
      (write_master-append alive t (key_bytes t.ts k) bytes
        ∙ ap (λ (ts : Termios). write_master alive u (keys_bytes ts ks)) (sym one.ts))
      (Edited-cast (ap (λ (x : List ℕ × List ℕ). (type_keys x ks).0) state)
        (ap (λ (x : List ℕ × List ℕ). (type_keys x ks).1) state) (Edited-trans one rest))
