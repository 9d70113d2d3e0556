-- ===== src/Tests/Sending.antt =====
-- Senders.
use p2p_channel.Base.{◌≡◌, refl, [], ◌∷◌, number_eq, dec_lt, ok}
use p2p_channel.Route.{key_eq}
use p2p_channel.RouteTable.{Tables, empty_tables, run}
use p2p_channel.Sender.{Sender, send_round, send_loop, send_all}
use p2p_channel.Sender.Retry.{Sends, send_all-Sends}
use p2p_channel.Tests.Samples.{store, moves, os, world, addr_a}

-- The first send would block, the second succeeds.
second_send : (send_all os 20 (7 ∷ 8 ∷ []) addr_a world).0 ≡ ok 2
unfolding send_all send_loop send_round dec_lt
second_send = refl

send_all-Sends_example : Sends os 20 (7 ∷ []) addr_a 10 world (send_all os 20 (7 ∷ []) addr_a world)
send_all-Sends_example = send_all-Sends os 20 (7 ∷ []) addr_a world

abbrev sender : Sender os
sender = record { src_default_udp = 9 }

abbrev moved : Tables store
moved = run store moves (empty_tables store 0)
