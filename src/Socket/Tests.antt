-- ===== src/Socket/Tests.antt =====
-- Runs of two sockets, of a server with a client, and of a caller that connects twice.
use scales_os.Prelude.{ℕ, zero, suc, ◌≡◌, ◌≢◌, refl, true, false, none, some, List, [], ◌∷◌, arith}
use scales_os.Socket.{
  Sock, Store, new_sock, Read, returned, read, read_loop, wrote, write, Connected, queued, connect,
  accept, join, close,
}
use scales_os.Socket.Transfer.{read-write, write-Repeats}
use scales_os.Socket.Pairs.{disconnected, peer, IsPaired, IsValid, accept-IsValid, close-IsValid}

-- Sockets 0 and 1 are connected, with 7 and 8 to read at 1.
abbrev pair_of : (size : ℕ) → List ℕ → ℕ → Sock
pair_of size bytes zero = record (new_sock true) { connect = some 1 }
pair_of size bytes (suc zero) = record (new_sock true) {
  connect = some 0;
  bytes = bytes;
  buffer_size = size;
}
pair_of size bytes (suc (suc i)) = new_sock false

abbrev two_ends : Store
two_ends = record { socks = pair_of 4096 (7 ∷ 8 ∷ []); fresh = 2 }

read-write_example :
    (write 2 two_ends 0 true (1 ∷ 2 ∷ []) [] ≡ some (wrote (7 ∷ 8 ∷ 1 ∷ 2 ∷ []) 4096))
    × (read 3 (record (pair_of 4096 [] 1) { bytes = 7 ∷ 8 ∷ 1 ∷ 2 ∷ [] }) true 2 (0 ∷ 0 ∷ 0 ∷ []) []
        ≡ returned 2 (7 ∷ 8 ∷ 0 ∷ []) (1 ∷ 2 ∷ []))
    × (read 3 (record (pair_of 4096 [] 1) { bytes = 1 ∷ 2 ∷ [] }) true 2 (0 ∷ []) []
        ≡ returned 2 (1 ∷ 2 ∷ []) [])
read-write_example =
    read-write 0 two_ends 0 1 true (1 ∷ 2 ∷ []) (0 ∷ 0 ∷ 0 ∷ []) (0 ∷ []) [] [] refl (omega arith)
      (omega arith)

abbrev small_ends : Store
small_ends = record { socks = pair_of 3 (7 ∷ []); fresh = 2 }

write-Repeats_example :
    write 3 small_ends 0 true (1 ∷ 2 ∷ 3 ∷ 4 ∷ []) [] ≡ some (wrote (7 ∷ 1 ∷ 2 ∷ 1 ∷ 2 ∷ []) 4099)
write-Repeats_example =
    write-Repeats 0 small_ends 0 1 2 true (1 ∷ 2 ∷ 3 ∷ 4 ∷ []) [] refl (omega arith) (omega arith)
      (omega arith) (omega arith) (omega arith)

-- A read that blocks takes more than is left, and the count wraps.
overrun :
    read 3
      (record (new_sock false) { bytes = 1 ∷ 2 ∷ [] })
      false
      3
      (0 ∷ 0 ∷ 0 ∷ [])
      ((3 ∷ 4 ∷ 5 ∷ []) ∷ [])
    ≡ Read.stuck
unfolding read read_loop
overrun = refl

-- Socket 0 has queued at the server 1.
abbrev waiting_of : ℕ → Sock
waiting_of zero = new_sock true
waiting_of (suc zero) = record (new_sock true) { listening = true; backlog = 0 ∷ [] }
waiting_of (suc (suc i)) = new_sock true

abbrev waiting : Store
waiting = record { socks = waiting_of; fresh = 2 }

unconnected : (i : ℕ) → peer waiting i ≡ none
unconnected zero = refl
unconnected (suc zero) = refl
unconnected (suc (suc i)) = refl

waiting-IsValid : IsValid waiting
unfolding IsValid IsPaired
waiting-IsValid = (λ a b h. grind (arith, unconnected a, h), λ i h. unconnected i)

accept-IsValid_example :
    (accept waiting 1 ≡ some (2, join waiting 1 0 []))
    × IsValid (join waiting 1 0 [])
    × (peer (join waiting 1 0 []) 0 ≡ some 2)
    × (peer (join waiting 1 0 []) 2 ≡ some 0)
    × (((join waiting 1 0 []).socks 2).bytes ≡ [])
accept-IsValid_example = accept-IsValid waiting 1 0 [] refl (omega arith) refl waiting-IsValid

close-IsValid_example :
    IsValid (close (join waiting 1 0 []) 2)
    × ((close (join waiting 1 0 []) 2).socks 2 ≡ disconnected ((join waiting 1 0 []).socks 2))
    × ((close (join waiting 1 0 []) 2).socks 0 ≡ disconnected ((join waiting 1 0 []).socks 0))
    × ((i : ℕ)
        → i ≢ 2
        → i ≢ 0
        → (close (join waiting 1 0 []) 2).socks i ≡ (join waiting 1 0 []).socks i)
close-IsValid_example =
    let (_, valid, _, _, _) =
      accept-IsValid waiting 1 0 [] refl (omega arith) refl waiting-IsValid in
    close-IsValid (join waiting 1 0 []) 2 0 refl valid

-- A caller that does not block and connects twice is in the backlog twice, and the end that the first
-- accept made for it has lost it after the second.
abbrev servers : Store
servers = record { socks = λ i. record (new_sock true) { listening = true }; fresh = 2 }

abbrev after_queued : Connected → Store → Store
after_queued (queued s) t = s
after_queued c t = t

abbrev twice : Store
twice = after_queued (connect (after_queued (connect servers 0 1) servers) 0 1) servers

twice_queued : (twice.socks 1).backlog ≡ 0 ∷ 0 ∷ []
unfolding connect
twice_queued = refl

abbrev both : Store
both = join (join twice 1 0 (0 ∷ [])) 1 0 []

left_alone : (peer both 2 ≡ some 0) × (peer both 0 ≡ some 3) × (peer both 3 ≡ some 0)
unfolding connect
left_alone = (refl, refl, refl)
