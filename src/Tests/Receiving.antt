-- ===== src/Tests/Receiving.antt =====
-- Receiving: a reactor where one own socket has a datagram, and one where nothing comes in but the
-- event of the waker.
use p2p_channel.Base.{
  ℕ, ◌≡◌, refl, some, List, [], ◌∷◌, number_eq, nat_beq, if◌then◌else◌, Result, ok, err, from_kind,
  would_block,
}
use p2p_channel.Base.Int.{pos}
use p2p_channel.Net.{SocketAddr}
use p2p_channel.Route.{Route, RouteKey}
use p2p_channel.RouteTable.{Tables, add_route, update_time, empty_tables}
use p2p_channel.Os.{WorldOf}
use p2p_channel.Reactor.{Reactor}
use p2p_channel.Channel.{Channel}
use p2p_channel.Receive.{State, udp_recv, recv_each, recv_round, recv_from}
use p2p_channel.Receive.Keys.{Delivers, recv_from-Delivers}
use p2p_channel.Tests.Samples.{os, store, world, addr_a}
use p2p_channel.Tests.Channels.{reactor, closed_world}

abbrev incoming : ℕ → WorldOf os → Result (List ℕ × SocketAddr) × WorldOf os
incoming udp w = (if nat_beq udp 121 then ok (8 ∷ [], addr_a) else err (from_kind would_block), w)

abbrev listening : Reactor os
listening = record reactor { recv_from = incoming; now_ms = λ w. pos 90 }

abbrev own_channel : Channel listening
own_channel = record {
  channel_flag = 0;
  src_default_udp = 9;
  default_udp = 109;
  udp_list = 120 ∷ 121 ∷ [];
  poll = 1;
  size = 2;
}

abbrev own_route : Route
own_route = record { index = 1; addr = addr_a; metric = 1; rt = pos 3 }

abbrev own_key : RouteKey
own_key = record { index = 1; addr = addr_a }

tables : Tables store
tables = add_route store (pos 5) 1 own_route (empty_tables store 0)

before : State listening store
before = record { tables = tables; udp_list = 120 ∷ 121 ∷ []; world = world }

after : State listening store
after = record before { tables = update_time store (pos 90) own_key tables }

received :
    recv_from listening store 1 own_channel (some 500) before ≡ some (ok (8 ∷ [], own_key), after)
unfolding recv_from recv_round recv_each udp_recv before after
received = refl

recv_from-Delivers_example :
    Delivers listening store own_channel tables (ok (8 ∷ [], own_key)) after
unfolding before
recv_from-Delivers_example =
    recv_from-Delivers listening store own_channel tables 1 (some 500) before after
      (ok (8 ∷ [], own_key)) refl received

abbrev quiet : Reactor os
quiet = record reactor {
  recv_from = λ s w. (err (from_kind would_block), w);
  poll = λ p t w. (ok (100001 ∷ []), w);
}

abbrev quiet_channel : Channel quiet
quiet_channel = record {
  channel_flag = 0;
  src_default_udp = 9;
  default_udp = 109;
  udp_list = 120 ∷ [];
  poll = 1;
  size = 2;
}

closed : State quiet store
closed = record { tables = tables; udp_list = 120 ∷ []; world = closed_world }
