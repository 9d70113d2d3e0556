-- ===== src/Peer/Threads/Receiving.antt =====
-- The thread that receives, examples/peer.rs, lines 221 to 275, as a whole: calls of `recv_from`,
-- and what it makes of the datagrams.
use p2p_channel.Base.{ℕ, Option, none, some, List, [], ◌∷◌, ok, err, Eq}
use p2p_channel.Base.Int.{ℤ}
use p2p_channel.Route.{key_eq}
use p2p_channel.RouteTable.{Store, Tables}
use p2p_channel.Os.{Os, WorldOf}
use p2p_channel.Reactor.{Reactor}
use p2p_channel.Channel.{Channel}
use p2p_channel.Receive.{Received, State, recv_from}
use p2p_channel.Peer.{Peer, on_message}

-- What the other threads do to the tables before a call of `recv_from`, the turns that the call
-- may take, and the time of an `add_route`.
pub record ReceiveTurn ⦃e : Eq (List ℕ)⦄ (S : Store (List ℕ)) : Type 0 where
  pub meanwhile : Tables S → Tables S
  pub turns : ℕ
  pub now : ℤ

module _ {O : Os} (R : Reactor O) ⦃e : Eq (List ℕ)⦄ (S : Store (List ℕ)) (c : Channel R)
    (my_id : ℕ) where
  -- The thread, its own sockets and the world.
  abbrev pub Run : Type 0
  Run = Peer S × List O.Socket × WorldOf O

  -- The channel with the sockets that a change has left.
  abbrev pub with_sockets : List O.Socket → Channel R
  with_sockets udp_list = record c { udp_list = udp_list }

  abbrev pub handled : List O.Socket → (Run → Option Run) → Option (Peer S × WorldOf O) → Option Run
  handled udp_list rest none = none
  handled udp_list rest (some (p, w)) = rest (p, udp_list, w)

  -- A call that waits on, an error, or a datagram.
  abbrev pub on_received : ℤ → Run → (Run → Option Run) → Option (Received × State R S) → Option Run
  on_received now run rest none = some run
  on_received now (p, udps, w) rest (some (err x, s)) =
      some (record p { tables = s.tables }, s.udp_list, s.world)
  on_received now (p, udps, w) rest (some (ok (datagram, key), s)) = handled s.udp_list rest (
      on_message R S (with_sockets s.udp_list) my_id now datagram key
        (record p { tables = s.tables }) s.world)

  -- The thread that receives; `none` is a panic.
  unfoldable pub receive_task : List (ReceiveTurn S) → Run → Option Run
  receive_task [] run = some run
  receive_task (turn ∷ more) (p, udp_list, w) =
      let tables = turn.meanwhile p.tables in
      on_received turn.now (record p { tables = tables }, udp_list, w) (receive_task more)
        (recv_from R S turn.turns c none
          (record { tables = tables; udp_list = udp_list; world = w }))
