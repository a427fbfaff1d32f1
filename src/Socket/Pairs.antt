-- ===== src/Socket/Pairs.antt =====
-- The two ends of a connection, in kernel/src/fs/socket.c.
use scales_os.Prelude.{
  ℕ, ◌≤◌, ◌<◌, ◌≡◌, ◌≢◌, ◌∙◌, refl, sym, ap, inl, inr, Bool, true, false, Bool-cases, Option-cases,
  Option, none, some, List, [], ◌∷◌, arith, ◌==◌, if◌then◌else◌,
}
use scales_os.Socket.{Sock, Store, update, new_sock, with_sock, join, accept, close}

-- The other end of each socket
abbrev pub peer : Store → ℕ → Option ℕ
peer s i = (s.socks i).connect

-- Each end's other end has it for its own other end.
unfoldable pub IsPaired : (ℕ → Option ℕ) → Type 0
IsPaired f = (a b : ℕ) → f a ≡ some b → f b ≡ some a

-- The ends of connections are paired, and numbers not in use have no connection.
unfoldable pub IsValid : Store → Type 0
IsValid s = IsPaired (peer s) × ((i : ℕ) → s.fresh ≤ i → peer s i ≡ none)

abbrev link : (ℕ → Option ℕ) → ℕ → ℕ → ℕ → Option ℕ
link f x y i = if i == x then some y else if i == y then some x else f i

abbrev unlink : (ℕ → Option ℕ) → ℕ → ℕ → ℕ → Option ℕ
unlink f x y i = if i == y then none else if i == x then none else f i

link-IsPaired :
    (f : ℕ → Option ℕ) (x y : ℕ) → f x ≡ none → f y ≡ none → IsPaired f → IsPaired (link f x y)
unfolding IsPaired
link-IsPaired f x y fx fy p a b h = grind (arith, h, p a b, fx, fy)

unlink-IsPaired : (f : ℕ → Option ℕ) (x y : ℕ) → f x ≡ some y → IsPaired f → IsPaired (unlink f x y)
unfolding IsPaired
unlink-IsPaired f x y fx p a b h = grind (arith, h, p a b, p x y fx, fx)

if-connect :
    (b : Bool) (k l : Sock) → (if b then k else l).connect ≡ (if b then k.connect else l.connect)
if-connect true k l = refl
if-connect false k l = refl

update_self : (f : ℕ → Sock) (i : ℕ) (v : Sock) → update f i v i ≡ v
update_self f i v = let is : (i == i) ≡ true = ground arith in rw is refl

update_ne : (f : ℕ → Sock) (i j : ℕ) (v : Sock) → i ≢ j → update f i v j ≡ f j
update_ne f i j v ne = let off : (j == i) ≡ false = ground (arith, ne) in rw off refl

-- A socket that is stored
peer-with_sock :
    (s : Store) (a : ℕ) (k : Sock) (i : ℕ)
    → peer (with_sock s a k) i ≡ (if i == a then k.connect else peer s i)
peer-with_sock s a k i = if-connect (i == a) k (s.socks i)

-- A socket that is stored with the same other end
same_peer :
    (s : Store) (a : ℕ) (k : Sock) (i : ℕ)
    → k.connect ≡ peer s a
    → peer (with_sock s a k) i ≡ peer s i
same_peer s a k i h = grind (arith, peer-with_sock s a k i, h)

peer-join :
    (s : Store) (server client : ℕ) (backlog : List ℕ) (i : ℕ)
    → peer (join s server client backlog) i ≡ link (peer s) client s.fresh i
peer-join s server client backlog i =
    let popped = with_sock s server (record (s.socks server) { backlog = backlog }) in
    let new = record (new_sock (s.socks server).nonblock) { connect = some client } in
    let made = with_sock popped s.fresh new in
    peer-with_sock made client (record (made.socks client) { connect = some s.fresh }) i
    ∙ ap (λ (o : Option ℕ). if i == client then some s.fresh else o)
        (peer-with_sock popped s.fresh new i
          ∙ ap (λ (o : Option ℕ). if i == s.fresh then some client else o)
              (same_peer s server (record (s.socks server) { backlog = backlog }) i refl))

close-connected :
    (s : Store) (a other i : ℕ)
    → peer s a ≡ some other
    → peer (close s a) i ≡ unlink (peer s) a other i
unfolding close
close-connected s a other i h =
    let s' = with_sock s a (record (s.socks a) { connect = none }) in
    rw (close, h)
      (peer-with_sock s' other (record (s'.socks other) { connect = none }) i
        ∙ ap (λ (o : Option ℕ). if i == other then none else o)
            (peer-with_sock s a (record (s.socks a) { connect = none }) i))

close-unconnected : (s : Store) (a : ℕ) → peer s a ≡ none → close s a ≡ s
unfolding close
close-unconnected s a h = rw (close, h) refl

fresh-close : (s : Store) (a : ℕ) → (close s a).fresh ≡ s.fresh
unfolding close
fresh-close s a = elim (Option-cases (peer s a)) [
  | inl e ↦ rw (close, e) refl
  | inr (o, e) ↦ rw (close, e) refl
]

-- Paired by pointwise equal functions
IsPaired-ext : (f g : ℕ → Option ℕ) → ((i : ℕ) → g i ≡ f i) → IsPaired f → IsPaired g
unfolding IsPaired
IsPaired-ext f g e p a b h = e b ∙ p a b (sym (e a) ∙ h)

accept-join :
    (s : Store) (server client : ℕ) (backlog : List ℕ)
    → (s.socks server).backlog ≡ client ∷ backlog
    → accept s server ≡ some (s.fresh, join s server client backlog)
unfolding accept
accept-join s server client backlog h = rw (accept, h) refl

join-bytes :
    (s : Store) (server client : ℕ) (backlog : List ℕ)
    → client ≢ s.fresh
    → ((join s server client backlog).socks s.fresh).bytes ≡ []
join-bytes s server client backlog ne =
    let popped = with_sock s server (record (s.socks server) { backlog = backlog }) in
    let new = record (new_sock (s.socks server).nonblock) { connect = some client } in
    let made = with_sock popped s.fresh new in
    ap (λ (k : Sock). k.bytes)
      (update_ne made.socks client s.fresh (record (made.socks client) { connect = some s.fresh })
          ne
        ∙ update_self popped.socks s.fresh new)

-- Accepting makes the first client of the backlog and a new end each other's other end, with nothing to
-- read at the new end, and keeps the ends paired, when that client has no connection yet and its number is
-- in use.
pub accept-IsValid :
    (s : Store) (server client : ℕ) (backlog : List ℕ)
    → (s.socks server).backlog ≡ client ∷ backlog
    → client < s.fresh
    → peer s client ≡ none
    → IsValid s
    → let t = join s server client backlog in
      (accept s server ≡ some (s.fresh, t))
      × IsValid t
      × (peer t client ≡ some s.fresh)
      × (peer t s.fresh ≡ some client)
      × ((t.socks s.fresh).bytes ≡ [])
unfolding IsValid
accept-IsValid s server client backlog h used free (p, unused) =
    let none_new = unused s.fresh (omega arith) in
    let e = peer-join s server client backlog in
    (
      accept-join s server client backlog h,
      (
        IsPaired-ext (link (peer s) client s.fresh) (peer (join s server client backlog)) e
            (link-IsPaired (peer s) client s.fresh free none_new p),
        λ i ge. e i ∙ grind (arith, unused i, ge, used),
      ),
      e client ∙ grind arith,
      e s.fresh ∙ grind (arith, used),
      join-bytes s server client backlog (omega (arith, used)),
    )

-- A socket without its other end
abbrev pub disconnected : Sock → Sock
disconnected k = record k { connect = none }

close-socks :
    (s : Store) (a other i : ℕ)
    → peer s a ≡ some other
    → let once = update s.socks a (disconnected (s.socks a)) in
      (close s a).socks i ≡ update once other (disconnected (once other)) i
unfolding close
close-socks s a other i h = rw (close, h) refl

once-disconnected :
    (s : Store) (a j : ℕ)
    → disconnected (update s.socks a (disconnected (s.socks a)) j) ≡ disconnected (s.socks j)
once-disconnected s a j = elim (Bool-cases (j == a)) [
  | inl is ↦
      let e : j ≡ a = ground (arith, is) in rw is (ap (λ (k : ℕ). disconnected (s.socks k)) (sym e))
  | inr off ↦ rw off refl
]

close-other :
    (s : Store) (a other : ℕ)
    → peer s a ≡ some other
    → (close s a).socks other ≡ disconnected (s.socks other)
close-other s a other h =
    let once = update s.socks a (disconnected (s.socks a)) in
    close-socks s a other other h
    ∙ update_self once other (disconnected (once other))
    ∙ once-disconnected s a other

close-end :
    (s : Store) (a other : ℕ)
    → peer s a ≡ some other
    → (close s a).socks a ≡ disconnected (s.socks a)
close-end s a other h =
    let once = update s.socks a (disconnected (s.socks a)) in
    elim (Bool-cases (other == a)) [
      | inl is ↦
          let e : other ≡ a = ground (arith, is) in
          ap (close s a).socks (sym e)
          ∙ close-other s a other h
          ∙ ap (λ (k : ℕ). disconnected (s.socks k)) e
      | inr off ↦
          let ne : other ≢ a = ground (arith, off) in
          close-socks s a other a h
          ∙ update_ne once other a (disconnected (once other)) ne
          ∙ update_self s.socks a (disconnected (s.socks a))
    ]

-- Closing an end takes the connection from it and from its other end, whose bytes, backlogs and flags stay,
-- leaves every other socket whole as it was, and keeps the ends paired.
pub close-IsValid :
    (s : Store) (a other : ℕ)
    → peer s a ≡ some other
    → IsValid s
    → IsValid (close s a)
      × ((close s a).socks a ≡ disconnected (s.socks a))
      × ((close s a).socks other ≡ disconnected (s.socks other))
      × ((i : ℕ) → i ≢ a → i ≢ other → (close s a).socks i ≡ s.socks i)
unfolding IsValid
close-IsValid s a other h (p, unused) =
    let e = λ (i : ℕ). close-connected s a other i h in
    let once = update s.socks a (disconnected (s.socks a)) in
    (
      (
        IsPaired-ext (unlink (peer s) a other) (peer (close s a)) e
            (unlink-IsPaired (peer s) a other h p),
        λ i ge. e i ∙ grind (arith, unused i, ge, fresh-close s a),
      ),
      close-end s a other h,
      close-other s a other h,
      λ i ne ne'.
          close-socks s a other i h
          ∙ update_ne once other i (disconnected (once other)) (omega (arith, ne'))
          ∙ update_ne s.socks a i (disconnected (s.socks a)) (omega (arith, ne)),
    )
