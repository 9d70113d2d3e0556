-- ===== src/Channel/Sending.antt =====
-- `send_to_id` and `send_to_route` of a channel (src/channel/mod.rs, lines 398 to 421), and how
-- they agree with those of its senders.
use p2p_channel.Base.{
  ℕ, zero, suc, ◌≡◌, refl, ◌⊎◌, inl, inr, Bool, true, false, Option, none, some, List, [], ◌∷◌,
  get_elem?, nat_beq, if◌then◌else◌, Result, err, new_error, other, Eq,
}
use p2p_channel.Base.Int.{ℤ}
use p2p_channel.Route.{Route, RouteKey, route_key, default_token_index}
use p2p_channel.RouteTable.{Store, Tables, route, update_write_time}
use p2p_channel.Os.{Os, WorldOf}
use p2p_channel.Reactor.{Reactor, Laws}
use p2p_channel.Sender.{Sender, send_all}
use p2p_channel.Sender
use p2p_channel.Channel.{Channel, send_by_index}
use p2p_channel.Channel.Sockets.{Aliases}

module _ {O : Os} (R : Reactor O) {ID : Type 0} ⦃e : Eq ID⦄ (S : Store ID) where
  -- `send_to_route`, at the time `now`.
  unfoldable pub send_to_route :
      ℤ → Channel R → List ℕ → RouteKey → Tables S → WorldOf O → Result ℕ × Tables S × WorldOf O
  send_to_route now c buf key t w =
      let t' = update_write_time S now key t in
      let (sent, w') = send_by_index R c buf key w in (sent, t', w')

  -- `send_to_id`.
  unfoldable pub send_to_id :
      ℤ → Channel R → List ℕ → ID → Tables S → WorldOf O → Result ℕ × Tables S × WorldOf O
  send_to_id now c buf id t w = elim (route S id t) [
    | none ↦ (err (new_error other "not fount"), t, w)
    | some r ↦ send_to_route now c buf (route_key r) t w
  ]

module _ {O : Os} (R : Reactor O) (L : Laws R) (c : Channel R) (s : Sender O) (w : WorldOf O)
    (buf : List ℕ) where
  -- The results of a send by the sender and by the channel, with a key: both send from their
  -- default sockets, or both find no socket, or the channel sends from a copy of the socket that
  -- the sender sends from.
  abbrev pub Agree : RouteKey → Result ℕ × WorldOf O → Result ℕ × WorldOf O → Type 0
  Agree key from_sender from_channel =
      ((from_sender ≡ send_all O s.src_default_udp buf key.addr w)
        × (from_channel ≡ send_all O c.src_default_udp buf key.addr w))
      ⊎ ((from_sender ≡ (err (new_error other "not fount"), w))
          × (from_channel ≡ (err (new_error other "not fount"), w)))
      ⊎ ((shared : O.Socket) × (own : O.Socket) × L.Alias shared own
          × (from_sender ≡ send_all O shared buf key.addr w)
          × (from_channel ≡ send_all O own buf key.addr w))

  abbrev AgreeAt : Option O.Socket → Option O.Socket → Type 0
  AgreeAt none none = Unit {0}
  AgreeAt (some a) (some b) = L.Alias a b
  AgreeAt _ _ = ⊥

  Aliases-get_elem? :
      (ss cs : List O.Socket) (i : ℕ)
      → Aliases R L ss cs
      → AgreeAt (get_elem? ss i) (get_elem? cs i)
  Aliases-get_elem? [] [] i h = tt
  Aliases-get_elem? [] (y ∷ ys) i h = absurd h
  Aliases-get_elem? (x ∷ xs) [] i h = absurd h
  Aliases-get_elem? (x ∷ xs) (y ∷ ys) zero h = h.0
  Aliases-get_elem? (x ∷ xs) (y ∷ ys) (suc i) h = Aliases-get_elem? xs ys i h.1

  send_by_index-Agree :
      (key : RouteKey)
      → Aliases R L w.share_info c.udp_list
      → Agree key (Sender.send_by_index O s buf key w) (send_by_index R c buf key w)
  unfolding send_by_index Sender.send_by_index
  send_by_index-Agree key h =
      go (nat_beq key.index default_token_index) (get_elem? w.share_info key.index)
        (get_elem? c.udp_list key.index) (Aliases-get_elem? w.share_info c.udp_list key.index h)
    where
      by : O.Socket → Bool → Option O.Socket → Result ℕ × WorldOf O
      by default is_default found =
          if is_default then send_all O default buf key.addr w else elim found [
            | some udp ↦ send_all O udp buf key.addr w
            | none ↦ (err (new_error other "not fount"), w)
          ]

      go :
          (is_default : Bool) (shared own : Option O.Socket)
          → AgreeAt shared own
          → Agree key (by s.src_default_udp is_default shared) (by c.src_default_udp is_default own)
      go true shared own a = inl (refl, refl)
      go false none none a = inr (inl (refl, refl))
      go false (some x) (some y) a = inr (inr (x, y, a, refl, refl))
      go false none (some y) a = absurd a
      go false (some x) none a = absurd a

  module _ {ID : Type 0} ⦃e : Eq ID⦄ (S : Store ID) (now : ℤ) (t : Tables S) where
    -- The results and the tables of a send to a peer, by the sender and by the channel.
    pub record AgreeOn (id : ID) (from_sender from_channel : Result ℕ × Tables S × WorldOf O)
        : Type 0 where
      pub same_tables : from_sender.1 ≡ from_channel.1
      pub same_socket :
          ((route S id t ≡ none)
            × (from_sender ≡ (err (new_error other "not fount route"), t, w))
            × (from_channel ≡ (err (new_error other "not fount"), t, w)))
          ⊎ ((r : Route) × (route S id t ≡ some r)
              × Agree (route_key r) (from_sender.0, from_sender.2) (from_channel.0, from_channel.2))

    -- While the own sockets of a channel are copies of the shared ones, `send_to_id` of the
    -- channel and of a sender leave the same tables, and for a peer with a route both send from
    -- their default sockets, or both find no socket, or the channel sends from a copy of the
    -- socket that the sender sends from. For a peer with no route both fail and change nothing.
    pub send_to_id-AgreeOn :
        (id : ID)
        → Aliases R L w.share_info c.udp_list
        → AgreeOn id (Sender.send_to_id O S now s buf id t w) (send_to_id R S now c buf id t w)
    unfolding send_to_id send_to_route Sender.send_to_id Sender.send_to_route
    send_to_id-AgreeOn id h = go (route S id t) refl
      where
        go :
            (found : Option Route)
            → route S id t ≡ found
            → AgreeOn id
                (elim found [
                  | none ↦ (err (new_error other "not fount route"), t, w)
                  | some r ↦ Sender.send_to_route O S now s buf (route_key r) t w
                ])
                (elim found [
                  | none ↦ (err (new_error other "not fount"), t, w)
                  | some r ↦ send_to_route R S now c buf (route_key r) t w
                ])
        go none q = record { same_tables = refl; same_socket = inl (q, refl, refl) }
        go (some r) q = record {
          same_tables = refl;
          same_socket = inr (r, q, send_by_index-Agree (route_key r) h);
        }
