-- ===== src/Tests/Hearing.antt =====
-- The receiving thread of the example peer, with a socket on which another peer says hello.
use p2p_channel.Receive.{recv_from, recv_round, udp_recv}
use p2p_channel.Peer.{on_message, on_peer, answer, greet}
use p2p_channel.Wire.{to_be_bytes, bytes_to_u32, bytes_beq, decimal}
use p2p_channel.Server.{fill}
use p2p_channel.Ports.{slice}
use p2p_channel.RouteTable.{
  empty_tables, route, route_to_id, update_time, add_route, join_route, leave_old, remove_id_route,
  update_write_time,
}
use p2p_channel.Channel.Sending.{send_to_id, send_to_route}
use p2p_channel.Channel.{send_by_index}
use p2p_channel.Base.{dec_lt}
use p2p_channel.Net.{addr_beq}
use p2p_channel.Route.{key_beq}
use p2p_channel.Sender.{on_sent, send_all, send_loop, send_round}
use p2p_channel.Base.{◌≡◌, refl, Bool, true, false, Option, none, some, [], ◌∷◌, number_eq, ok}
use p2p_channel.Base.Int.{pos}
use p2p_channel.Route.{key_eq}
use p2p_channel.Reactor.{Reactor}
use p2p_channel.Channel.{Channel}
use p2p_channel.Wire.{hello_bytes, bytes_eq}
use p2p_channel.Peer.Threads.Receiving.{ReceiveTurn, receive_task}
use p2p_channel.Tests.Samples.{os, world, addr_b}
use p2p_channel.Tests.Channels.{reactor}
use p2p_channel.Tests.Servers.{peer_store, peer}

abbrev greeted : Reactor os
greeted = record reactor { recv_from = λ s w. (ok (hello_bytes 2, addr_b), w) }

abbrev greeted_channel : Channel greeted
greeted_channel = record {
  channel_flag = 0;
  src_default_udp = 9;
  default_udp = 109;
  udp_list = [];
  poll = 1;
  size = 2;
}

abbrev turn : ReceiveTurn peer_store
turn = record { meanwhile = λ t. t; turns = 1; now = pos 7 }

abbrev is_running : {A : Type 0} → Option A → Bool
is_running none = false
is_running (some a) = true

-- The second hello comes over a route that has a peer by then.
two_hellos :
    is_running
      (receive_task greeted peer_store greeted_channel 5 (turn ∷ turn ∷ []) (peer, [], world))
    ≡ true
unfolding receive_task recv_from recv_round udp_recv on_message to_be_bytes fill slice bytes_to_u32
    on_peer answer route_to_id update_time empty_tables send_to_id route add_route bytes_beq dec_lt
    send_to_route send_by_index addr_beq greet key_beq join_route leave_old remove_id_route
    update_write_time on_sent send_all send_loop send_round decimal
two_hellos = refl
