-- ===== src/Tty/Output.antt =====
-- The output side: what goes to the screen, and that showing a character changes nothing else.
use mathlib.Core.List.{append-nil, append_assoc}
use scales_os.Prelude.{
  ℕ, zero, suc, ◌≡◌, refl, sym, ap, ◌∙◌, true, false, List, [], ◌∷◌, ◌++◌, arith, ◌==◌,
  if◌then◌else◌,
}
use scales_os.Termios.{opost, olcuc, onlcr, onlret}
use scales_os.Ctype.{islower, isupper}
use scales_os.Tty.{
  Tty, oflag, putc_out, finish_output, return_output, process_output, repeat_output, output_ctl,
  echo_char, write_slave,
}

-- Nothing but the output has changed.
pub record Kept (t t' : Tty) : Type 0 where
  pub ts : t'.ts ≡ t.ts
  pub in_bytes : t'.in_bytes ≡ t.in_bytes
  pub line : t'.line ≡ t.line
  pub next_l : t'.next_l ≡ t.next_l
  pub process : t'.process ≡ t.process
  pub signals : t'.signals ≡ t.signals

pub Kept-refl : (t : Tty) → Kept t t
Kept-refl t = ground arith

pub Kept-trans : {t u v : Tty} → Kept t u → Kept u v → Kept t v
Kept-trans p q = record {
  ts = q.ts ∙ p.ts;
  in_bytes = q.in_bytes ∙ p.in_bytes;
  line = q.line ∙ p.line;
  next_l = q.next_l ∙ p.next_l;
  process = q.process ∙ p.process;
  signals = q.signals ∙ p.signals;
}

pub process_output-Kept : (t : Tty) (c : ℕ) → Kept t (process_output t c)
unfolding process_output return_output finish_output
process_output-Kept t c = ground arith

pub repeat_output-Kept : (t : Tty) (c n : ℕ) → Kept t (repeat_output t c n)
unfolding repeat_output
repeat_output-Kept t c zero = ground arith
repeat_output-Kept t c (suc n) =
    Kept-trans (process_output-Kept t c) (repeat_output-Kept (process_output t c) c n)

pub output_ctl-Kept : (t : Tty) (c : ℕ) → Kept t (output_ctl t c)
unfolding output_ctl
output_ctl-Kept t c = Kept-trans (process_output-Kept t _) (process_output-Kept _ _)

pub echo_char-Kept : (t : Tty) (c : ℕ) → Kept t (echo_char t c)
unfolding echo_char
echo_char-Kept t c = ground (arith, output_ctl-Kept t c, process_output-Kept t c)

-- Every line feed with a carriage return before it.
unfoldable pub with_returns : List ℕ → List ℕ
with_returns [] = []
with_returns (c ∷ cs) = if c == b'\n' then b'\r' ∷ c ∷ with_returns cs else c ∷ with_returns cs

-- The settings under which line feeds get carriage returns and nothing else is done.
abbrev pub Returns : Tty → Type 0
Returns t =
    (oflag t opost ≡ true)
    × (oflag t onlcr ≡ true)
    × (oflag t onlret ≡ false)
    × (oflag t olcuc ≡ false)

process_output-Returns :
    (t : Tty) (c : ℕ)
    → Returns t
    → (process_output t c).out_bytes
      ≡ t.out_bytes ++ (if c == b'\n' then b'\r' ∷ c ∷ [] else c ∷ [])
unfolding process_output return_output finish_output
process_output-Returns t c r = ground (arith, append_assoc t.out_bytes (b'\r' ∷ []) (c ∷ []))

-- With the settings of a fresh terminal, the bytes that a program writes come out in order, with a
-- carriage return before every line feed.
pub write_slave-with_returns :
    (cs : List ℕ) (t : Tty)
    → Returns t
    → (write_slave t cs).out_bytes ≡ t.out_bytes ++ with_returns cs
unfolding write_slave with_returns
write_slave-with_returns [] t r = sym (append-nil t.out_bytes)
write_slave-with_returns (c ∷ cs) t r =
    let k = process_output-Kept t c in
    write_slave-with_returns cs (process_output t c) (rw k.ts r)
    ∙ rw (process_output-Returns t c r)
        (append_assoc t.out_bytes _ (with_returns cs) ∙ ap (◌++◌ t.out_bytes) (ground arith))

process_output_raw : (t : Tty) (c : ℕ) → oflag t opost ≡ false → process_output t c ≡ putc_out t c
unfolding process_output
process_output_raw t c off = rw off refl

-- With OPOST off every byte comes out as it is.
pub write_slave_raw :
    (cs : List ℕ) (t : Tty)
    → oflag t opost ≡ false
    → (write_slave t cs).out_bytes ≡ t.out_bytes ++ cs
unfolding write_slave
write_slave_raw [] t off = sym (append-nil t.out_bytes)
write_slave_raw (c ∷ cs) t off =
    ap (λ t'. (write_slave t' cs).out_bytes) (process_output_raw t c off)
    ∙ write_slave_raw cs (putc_out t c) off
    ∙ append_assoc t.out_bytes (c ∷ []) cs

-- With OPOST and OLCUC on, every lower-case letter comes out as the NUL character.
pub process_output-olcuc :
    (t : Tty) (c : ℕ)
    → oflag t opost ≡ true
    → oflag t olcuc ≡ true
    → islower c ≡ true
    → (process_output t c).out_bytes ≡ t.out_bytes ++ (0 ∷ [])
unfolding process_output return_output finish_output islower isupper
process_output-olcuc t c p u l = ground arith
