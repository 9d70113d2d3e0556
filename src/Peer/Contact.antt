-- ===== src/Peer/Contact.antt =====
-- The first message of another peer.
use p2p_channel.Base.{ℕ, List, Eq}
use p2p_channel.Base.Int.{ℤ, pos}
use p2p_channel.Route.{Route, RouteKey, from, key_eq}
use p2p_channel.RouteTable.{Store, Tables, add_route, update_write_time}
use p2p_channel.Os.{Os}
use p2p_channel.Reactor.{Reactor}
use p2p_channel.Channel.{Channel}
use p2p_channel.Peer.{Peer}

module _ {O : Os} (R : Reactor O) ⦃e : Eq (List ℕ)⦄ (S : Store (List ℕ)) (c : Channel R)
    (my_id : ℕ) where
  -- The tables after the answer to a peer that is new.
  abbrev pub met : ℤ → RouteKey → List ℕ → Tables S → Tables S
  met now key id t = update_write_time S now key (add_route S now id (from key 10 (pos 64)) t)
