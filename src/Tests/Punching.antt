-- ===== src/Tests/Punching.antt =====
-- Hole punching.
use p2p_channel.Base.{ℕ, ◌≡◌, inr, true, none, some, List, [], ◌∷◌, number_eq, arith, contains}
use p2p_channel.Net.{IpAddr, v4, addr_v4}
use p2p_channel.Sender.{Sender}
use p2p_channel.Ports.{port_range, min_port, max_port}
use p2p_channel.Ports.Predicted.{is_near, predicted_range}
use p2p_channel.Ports.Window.{windows, windows_cover}
use p2p_channel.Punch.{NatInfo, NatType, Punch, punch_all, punch}
use p2p_channel.Punch.Targets.{send_spaced, punch_all-take}
use p2p_channel.Punch.Safety.{Returns, punch-Returns}
use p2p_channel.Tests.Samples.{os, world, same, same-IsShuffle}

abbrev sender : Sender os
sender = record { src_default_udp = 9 }

abbrev ips : List IpAddr
ips = v4 1 ∷ v4 2 ∷ []

predicted_range_example : contains (port_range (min_port 5 2) (max_port 5 2)) 7 ≡ is_near 5 2 7
predicted_range_example = predicted_range 5 2 (omega arith) (omega arith) 7

windows_cover_example : windows 5 (4 ∷ 5 ∷ 6 ∷ 7 ∷ 8 ∷ []) 2 0 ≡ some (4 ∷ 5 ∷ 6 ∷ 7 ∷ 8 ∷ [])
windows_cover_example =
    windows_cover 5 (4 ∷ 5 ∷ 6 ∷ 7 ∷ 8 ∷ []) 2 0 (omega arith) (omega arith) (omega arith)

punch_all-take_example :
    punch_all os sender (7 ∷ []) ips 4 true (50 ∷ 51 ∷ 52 ∷ []) world
    ≡ send_spaced os sender (7 ∷ []) true (addr_v4 1 50 ∷ addr_v4 2 50 ∷ addr_v4 1 51 ∷ []) world
punch_all-take_example = punch_all-take os sender (7 ∷ []) true 3 ips (50 ∷ 51 ∷ 52 ∷ []) world

abbrev pub nat : NatInfo
nat = record {
  public_ips = ips;
  public_port = 4000;
  public_port_range = 3;
  local_ip = v4 0;
  local_port = 0;
  nat_type = NatType.symmetric;
}

abbrev pub punch_state : Punch os ℕ
punch_state = record { sender = sender; port_vec = 4 ∷ 5 ∷ 6 ∷ []; port_index = λ id. none }

punch-Returns_example : Returns os (punch os true same (7 ∷ []) 1 nat punch_state world)
punch-Returns_example =
    punch-Returns os (7 ∷ []) 1 nat true same punch_state world same-IsShuffle (omega arith)
      (inr (omega arith)) (λ id. omega arith)
