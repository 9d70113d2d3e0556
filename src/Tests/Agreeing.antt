-- ===== src/Tests/Agreeing.antt =====
-- A channel and a sender that send to the same peer.
use p2p_channel.Base.{refl, [], ◌∷◌, number_eq}
use p2p_channel.Base.Int.{pos}
use p2p_channel.RouteTable.{Tables, add_route, empty_tables}
use p2p_channel.Sender.{Sender}
use p2p_channel.Sender
use p2p_channel.Channel.{Channel}
use p2p_channel.Channel.Sending.{AgreeOn, send_to_id, send_to_id-AgreeOn}
use p2p_channel.Tests.Samples.{os, store, world, addr_a}
use p2p_channel.Tests.Channels.{reactor, laws}

abbrev own_channel : Channel reactor
own_channel = record {
  channel_flag = 0;
  src_default_udp = 9;
  default_udp = 109;
  udp_list = 120 ∷ 121 ∷ [];
  poll = 1;
  size = 2;
}

abbrev sender : Sender os
sender = record { src_default_udp = 109 }

tables : Tables store
tables =
    add_route store (pos 5) 1 (record { index = 1; addr = addr_a; metric = 1; rt = pos 3 })
      (empty_tables store 0)

send_to_id-AgreeOn_example :
    AgreeOn reactor laws own_channel sender world
      (7 ∷ [])
      store
      (pos 9)
      tables
      1
      (Sender.send_to_id os store (pos 9) sender (7 ∷ []) 1 tables world)
      (send_to_id reactor store (pos 9) own_channel (7 ∷ []) 1 tables world)
send_to_id-AgreeOn_example =
    send_to_id-AgreeOn reactor laws own_channel sender world (7 ∷ []) store (pos 9) tables 1
      (refl, (refl, tt))
