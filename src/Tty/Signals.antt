-- ===== src/Tty/Signals.antt =====
-- Signal characters, and the bounds of the line buffer, in kernel/src/dev/tty.c.
use scales_os.Prelude.{
  ℕ, ◌≤◌, ◌≡◌, sym, ap, Bool, true, false, ◌&&◌, some, List, [], ◌∷◌, length, arith, ltb,
  if◌then◌else◌, Bool-cases, inl, inr, subst, Option-cases,
}
use scales_os.Termios.{isig, icanon}
use scales_os.Ctype.{tolower}
use scales_os.Tty.{
  Tty, lflag, putc_in, signal_of, map_input, quoted_char, process_input, write_master, line_putc,
  echo_char, enter_char, kill_or_enter, erase_or_more, canonical, edit_char, process_output,
  raise_signal, buffer_size, erase, erase_word,
}
use scales_os.Tty.Output.{Kept, process_output-Kept, echo_char-Kept, output_ctl-Kept, Kept-trans}
use scales_os.Tty.Line.{
  Edited, rub_word, push, length-rub, erase-one, erase-all, erase_word-Edited, line_putc-Edited,
  line_flush-Edited, end_line-Edited,
}

-- What a signal character does to a terminal.
pub record Signalled (t t' : Tty) (sent : List (ℕ × ℕ)) : Type 0 where
  pub ts : t'.ts ≡ t.ts
  pub in_bytes : t'.in_bytes ≡ t.in_bytes
  pub line : t'.line ≡ t.line
  pub next_l : t'.next_l ≡ t.next_l
  pub signals : t'.signals ≡ sent

-- With ISIG on and no quoting under way, a signal character sends its signal to the process of the
-- terminal, if there is a living one, and neither the line nor the input gets it.
pub process_input-Signalled :
    (alive : ℕ → Bool) (t : Tty) (c sig : ℕ)
    → t.next_l ≡ false
    → lflag t isig ≡ true
    → signal_of t c ≡ some sig
    → Signalled t
        (process_input alive t c)
        (if ltb 0 t.process && alive t.process then (t.process, sig) ∷ t.signals else t.signals)
unfolding process_input raise_signal signal_of
process_input-Signalled alive t c sig n i s =
    let k = output_ctl-Kept t c in rw (n, i, s) (ground (arith, k))

Bounded : Tty → Type 0
Bounded t = length t.line ≤ buffer_size

length-rub_word : (l : List ℕ) → length (rub_word l) ≤ length l
unfolding rub_word
length-rub_word [] = ground arith
length-rub_word (c ∷ l) = let h = length-rub_word l in ground arith

length-push : (l : List ℕ) (c : ℕ) → length l ≤ 4096 → length (push l c) ≤ 4096
unfolding push
length-push l c le = ground arith

Kept-Bounded : {t t' : Tty} → Kept t t' → Bounded t → Bounded t'
unfolding Bounded
Kept-Bounded k b = subst (λ (l : List ℕ). length l ≤ buffer_size) (sym k.line) b

Edited-Bounded : {t t' : Tty} {l i : List ℕ} → Edited t t' l i → length l ≤ 4096 → Bounded t'
unfolding Bounded
Edited-Bounded e b = subst (λ (l : List ℕ). length l ≤ buffer_size) (sym e.line_is) b

line_putc-Bounded : (t : Tty) (c : ℕ) → Bounded t → Bounded (line_putc t c)
unfolding Bounded
line_putc-Bounded t c b = Edited-Bounded (line_putc-Edited t c) (length-push t.line c b)

erase-Bounded : (t : Tty) → Bounded t → Bounded (erase t 1)
unfolding Bounded
erase-Bounded t b = Edited-Bounded (erase-one t) (let h = length-rub t.line in omega (arith, h, b))

erase_word-Bounded : (t : Tty) → Bounded t → Bounded (erase_word t (length t.line))
unfolding Bounded
erase_word-Bounded t b =
    let h = length-rub_word t.line in
    Edited-Bounded (erase_word-Edited t _ (omega arith)) (omega (arith, h, b))

next_l-Bounded : (t : Tty) (b : Bool) → Bounded t → Bounded (record t { next_l = b })
unfolding Bounded
next_l-Bounded t b le = le

putc_in-Bounded : (t : Tty) (c : ℕ) → Bounded t → Bounded (putc_in t c)
unfolding Bounded
putc_in-Bounded t c le = le

enter_char-Bounded : (t : Tty) (c : ℕ) → Bounded t → Bounded (enter_char t c)
unfolding enter_char
enter_char-Bounded t c b =
    let shown = Kept-Bounded (echo_char-Kept (line_putc t c) c) (line_putc-Bounded t c b) in
    let ended = λ (t' : Tty). Edited-Bounded (end_line-Edited t' c) (ground arith) in
    ground (
      arith,
      shown,
      ended (echo_char (line_putc t c) c),
      ended (process_output (echo_char (line_putc t c) c) c),
    )

kill_or_enter-Bounded : (t : Tty) (c : ℕ) → Bounded t → Bounded (kill_or_enter t c)
unfolding kill_or_enter
kill_or_enter-Bounded t c b =
    let killed = Edited-Bounded (erase-all t) (ground arith) in
    let ctl = Kept-Bounded (output_ctl-Kept t c) b in
    let flushed = Edited-Bounded (line_flush-Edited t) (ground arith) in
    let entered = enter_char-Bounded t c b in ground (arith, killed, ctl, flushed, entered, b)

erase_or_more-Bounded : (t : Tty) (c : ℕ) → Bounded t → Bounded (erase_or_more t c)
unfolding erase_or_more
erase_or_more-Bounded t c b =
    let ctl = Kept-Bounded (output_ctl-Kept t c) b in
    let more = kill_or_enter-Bounded t c b in
    let one = erase-Bounded t b in
    let word = erase_word-Bounded t b in ground (arith, ctl, more, one, word)

canonical-Bounded : (t : Tty) (c : ℕ) → Bounded t → Bounded (canonical t c)
unfolding canonical
canonical-Bounded t c b =
    let next = record t { next_l = true } in
    let k = Kept-trans (process_output-Kept next b'^') (process_output-Kept _ 0x08) in
    let shown = Kept-Bounded k (next_l-Bounded t true b) in
    ground (arith, shown, erase_or_more-Bounded t c b, erase_or_more-Bounded t (tolower c) b)

edit_char-Bounded : (t : Tty) (c : ℕ) → Bounded t → Bounded (edit_char t c)
unfolding edit_char
edit_char-Bounded t c b = elim (Option-cases (map_input t c)) [
  | inl e ↦ rw (e, edit_char) b
  | inr e ↦
      let shown = Kept-Bounded (process_output-Kept t e.0) b in
      let canon = canonical-Bounded t e.0 b in
      rw (e.1, edit_char)
        (elim (Bool-cases (lflag t icanon)) [
          | inl on ↦ rw on canon
          | inr off ↦ rw off (putc_in-Bounded _ e.0 (ground (arith, shown, b)))
        ])
]

quoted_char-Bounded : (t : Tty) (c : ℕ) → Bounded t → Bounded (quoted_char t c)
unfolding quoted_char
quoted_char-Bounded t c b =
    Kept-Bounded (echo_char-Kept _ c) (line_putc-Bounded _ c (next_l-Bounded t false b))

raise_signal-Bounded :
    (alive : ℕ → Bool) (t : Tty) (c sig : ℕ) → Bounded t → Bounded (raise_signal alive t c sig)
unfolding raise_signal Bounded
raise_signal-Bounded alive t c sig b =
    let shown = ap length (output_ctl-Kept t c).line in ground (arith, shown)

process_input-Bounded :
    (alive : ℕ → Bool) (t : Tty) (c : ℕ) → Bounded t → Bounded (process_input alive t c)
unfolding process_input
process_input-Bounded alive t c b =
    let quoted = quoted_char-Bounded t c b in
    let edited = edit_char-Bounded t c b in
    elim (Option-cases (signal_of t c)) [
      | inl e ↦ rw e (ground (arith, quoted, edited))
      | inr e ↦
          let raised = raise_signal-Bounded alive t c e.0 b in
          rw e.1 (ground (arith, quoted, edited, raised))
    ]

-- Whatever is typed and whatever the settings, the line keeps within its buffer of 4096 bytes.
pub write_master-bounded :
    (alive : ℕ → Bool) (cs : List ℕ) (t : Tty)
    → length t.line ≤ buffer_size
    → length (write_master alive t cs).line ≤ buffer_size
unfolding write_master Bounded
write_master-bounded alive [] t b = b
write_master-bounded alive (c ∷ cs) t b =
    write_master-bounded alive cs (process_input alive t c) (process_input-Bounded alive t c b)
