-- ===== src/Receive/Keys.antt =====
-- Where a datagram that `recv_from` returns has come in, and what is stamped.
use p2p_channel.Base.{
  ℕ, zero, suc, ◌+◌, ◌≡◌, ◌∙◌, refl, ap, ◌⊎◌, inl, inr, Bool, true, false, Option, none, some, List,
  [], ◌∷◌, arith, get_elem?, nat_beq, if◌then◌else◌, kind, is_would_block, Result, ok, err, Eq,
  drop,
}
use mathlib.Core.Path.{subst}
use p2p_channel.Net.{SocketAddr}
use p2p_channel.Route.{default_token_index, change_token_index}
use p2p_channel.RouteTable.{Store, Tables, update_time}
use p2p_channel.Os.{Os, WorldOf}
use p2p_channel.Reactor.{Reactor}
use p2p_channel.Channel.{Channel, change}
use p2p_channel.Receive.{
  Received, State, Step, on_datagram, udp_recv, or_next, recv_each, on_changed, on_socket, on_event,
  on_events, on_poll, recv_round, returned, recv_from,
}

module _ {O : Os} (R : Reactor O) {ID : Type 0} ⦃e : Eq ID⦄ (S : Store ID) (c : Channel R)
    (t : Tables S) where
  -- The socket with an index: the default one, or one of the own sockets.
  abbrev pub SocketAt : List O.Socket → ℕ → O.Socket → Type 0
  SocketAt udp_list index udp =
      ((index ≡ default_token_index) × (udp ≡ c.default_udp))
      ⊎ (get_elem? udp_list index ≡ some udp)

  -- What is returned, of tables that were `t`: a datagram that the socket with the index of its
  -- key has just received from the address of the key, and the time of the last read of that
  -- key is now; or an error, and the tables are as they were.
  abbrev pub Delivers : Received → State R S → Type 0
  Delivers (ok (len, key)) s =
      (udp : O.Socket) × (w : WorldOf O) × SocketAt s.udp_list key.index udp
      × (R.recv_from udp w ≡ (ok (len, key.addr), s.world))
      × (s.tables ≡ update_time S (R.now_ms s.world) key t)
  Delivers (err x) s = s.tables ≡ t

  abbrev Goes : (State R S → Type 0) → Step R S → Type 0
  Goes P (some got, s) = Delivers got s
  Goes P (none, s) = P s

  or_next-Goes :
      (P Q : State R S → Type 0) (o : Step R S) (next : State R S → Step R S)
      → Goes P o
      → ((s : State R S) → P s → Goes Q (next s))
      → Goes Q (or_next R S o next)
  or_next-Goes P Q (some got, s) next g h = g
  or_next-Goes P Q (none, s) next g h = h s g

  -- Nothing is stamped yet.
  abbrev Fresh : State R S → Type 0
  Fresh s = s.tables ≡ t

  abbrev FreshWith : List O.Socket → State R S → Type 0
  FreshWith list s = (s.udp_list ≡ list) × (s.tables ≡ t)

  udp_recv-Goes :
      (udp : O.Socket) (index : ℕ) (s : State R S)
      → SocketAt s.udp_list index udp
      → s.tables ≡ t
      → Goes (FreshWith s.udp_list) (udp_recv R S udp index s)
  unfolding udp_recv
  udp_recv-Goes udp index s at h = go (R.recv_from udp s.world) refl
    where
      go :
          (o : Result (List ℕ × SocketAddr) × WorldOf O)
          → R.recv_from udp s.world ≡ o
          → Goes (FreshWith s.udp_list) (on_datagram R S index s o)
      go (ok (len, addr), w) q = (udp, s.world, at, q, ap (update_time S (R.now_ms w) _) h)
      go (err x, w) q = pick (is_would_block (kind x))
        where
          pick :
              (b : Bool)
              → Goes
                  (FreshWith s.udp_list)
                  (if b then none else some (err x), record s { world = w })
          pick true = (refl, h)
          pick false = h

  drop-head :
      {A : Type 0} (i : ℕ) (list : List A) (x : A) (xs : List A)
      → drop i list ≡ x ∷ xs
      → (get_elem? list i ≡ some x) × (drop (suc i) list ≡ xs)
  drop-head zero [] x xs h = cc
  drop-head zero (y ∷ ys) x xs h = (cc, cc)
  drop-head (suc i) [] x xs h = cc
  drop-head (suc i) (y ∷ ys) x xs h = drop-head i ys x xs h

  next_index : (i : ℕ) → i + 1 ≡ suc i
  next_index i = omega arith

  recv_each-Goes :
      (list udps : List O.Socket) (i : ℕ) (s : State R S)
      → drop i list ≡ udps
      → FreshWith list s
      → Goes Fresh (recv_each R S udps i s)
  unfolding recv_each
  recv_each-Goes list [] i s d (l, h) = h
  recv_each-Goes list (udp ∷ udps) i s d (l, h) =
      let (at, rest) = drop-head i list udp udps d in
      or_next-Goes (FreshWith s.udp_list) Fresh (udp_recv R S udp i s) _
        (udp_recv-Goes udp i s (inr (ap (λ ys. get_elem? ys i) l ∙ at)) h)
        (λ s' (l', h').
          recv_each-Goes list udps (i + 1) s' (ap (λ k. drop k list) (next_index i) ∙ rest)
            (l' ∙ l, h'))

  udp_recv-Fresh :
      (udp : O.Socket) (index : ℕ) (s : State R S)
      → SocketAt s.udp_list index udp
      → Fresh s
      → Goes Fresh (udp_recv R S udp index s)
  udp_recv-Fresh udp index s at h =
      weaken (udp_recv R S udp index s) (udp_recv-Goes udp index s at h)
    where
      weaken : (o : Step R S) → Goes (FreshWith s.udp_list) o → Goes Fresh o
      weaken (some got, s') g = g
      weaken (none, s') (l, h') = h'

  on_changed-Goes :
      (s : State R S) (o : Result (Unit {0}) × List O.Socket × WorldOf O)
      → Fresh s
      → Goes Fresh (on_changed R S s o)
  on_changed-Goes s (ok done, udp_list, w) h = h
  on_changed-Goes s (err x, udp_list, w) h = h

  on_event-Goes : (token : ℕ) (s : State R S) → Fresh s → Goes Fresh (on_event R S c token s)
  unfolding on_event
  on_event-Goes token s h =
      go (nat_beq token default_token_index) (nat_beq token change_token_index)
    where
      own :
          (found : Option O.Socket)
          → get_elem? s.udp_list token ≡ found
          → Goes Fresh (on_socket R S token s found)
      own none q = h
      own (some udp) q = udp_recv-Fresh udp token s (inr q) h

      go :
          (default changed : Bool)
          → Goes Fresh (
              if default
              then udp_recv R S c.default_udp default_token_index s
              else if changed
              then on_changed R S s (change R s.udp_list c.poll c.size s.world)
              else on_socket R S token s (get_elem? s.udp_list token))
      go true changed = udp_recv-Fresh c.default_udp default_token_index s (inl (refl, refl)) h
      go false true = on_changed-Goes s (change R s.udp_list c.poll c.size s.world) h
      go false false = own (get_elem? s.udp_list token) refl

  on_events-Goes :
      (tokens : List ℕ) (s : State R S) → Fresh s → Goes Fresh (on_events R S c tokens s)
  unfolding on_events
  on_events-Goes [] s h = h
  on_events-Goes (token ∷ tokens) s h =
      or_next-Goes Fresh Fresh (on_event R S c token s) _ (on_event-Goes token s h)
        (λ s' h'. on_events-Goes tokens s' h')

  on_poll-Goes :
      (s : State R S) (o : Result (List ℕ) × WorldOf O) → Fresh s → Goes Fresh (on_poll R S c s o)
  on_poll-Goes s (err x, w) h = h
  on_poll-Goes s (ok [], w) h = h
  on_poll-Goes s (ok (token ∷ tokens), w) h =
      on_events-Goes (token ∷ tokens) (record s { world = w }) h

  recv_round-Goes :
      (timeout : Option ℕ) (s : State R S) → Fresh s → Goes Fresh (recv_round R S c timeout s)
  unfolding recv_round
  recv_round-Goes timeout s h =
      or_next-Goes Fresh Fresh (udp_recv R S c.default_udp default_token_index s) _
        (udp_recv-Fresh c.default_udp default_token_index s (inl (refl, refl)) h)
        (λ s' h'.
          or_next-Goes Fresh Fresh (recv_each R S s'.udp_list 0 s') _
            (recv_each-Goes s'.udp_list s'.udp_list 0 s' refl (refl, h'))
            (λ s'' h''. on_poll-Goes s'' (R.poll c.poll timeout s''.world) h''))

  abbrev Ends : Option (Received × State R S) → Type 0
  Ends none = Unit {0}
  Ends (some (got, s)) = Delivers got s

  returned-Ends :
      (o : Step R S) (again : State R S → Option (Received × State R S))
      → Goes Fresh o
      → ((s : State R S) → Fresh s → Ends (again s))
      → Ends (returned R S o again)
  returned-Ends (some got, s) again g h = g
  returned-Ends (none, s) again g h = h s g

  recv_from-Ends :
      (turns : ℕ) (timeout : Option ℕ) (s : State R S)
      → Fresh s
      → Ends (recv_from R S turns c timeout s)
  unfolding recv_from
  recv_from-Ends zero timeout s h = tt
  recv_from-Ends (suc turns) timeout s h =
      returned-Ends (recv_round R S c timeout s) _ (recv_round-Goes timeout s h)
        (λ s' h'. recv_from-Ends turns timeout s' h')

  -- When `recv_from` returns a datagram, the socket with the index of its key has just received
  -- it from the address of the key, and the time of the last read of that key is stamped; no other
  -- time is, in all the turns before. When it returns an error no time is stamped.
  pub recv_from-Delivers :
      (turns : ℕ) (timeout : Option ℕ) (s s' : State R S) (got : Received)
      → s.tables ≡ t
      → recv_from R S turns c timeout s ≡ some (got, s')
      → Delivers got s'
  recv_from-Delivers turns timeout s s' got h q = subst Ends q (recv_from-Ends turns timeout s h)
