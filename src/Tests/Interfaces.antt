-- ===== src/Tests/Interfaces.antt =====
-- Interfaces.
use Prim.Native.String.{String}
use p2p_channel.Base.{ℕ, ◌≡◌, refl, some, List, [], ◌∷◌, ok}
use p2p_channel.Net.{IpAddr, v4, v6}
use p2p_channel.Interface.{Network, visit_addrs, visit_interfaces, get_interface}

record Shown : Type 0 where
  index : ℕ
  name : String
  addr : List IpAddr

abbrev network : Network
network = record {
  NetworkInterface = Shown;
  index = λ s. s.index;
  name = λ s. s.name;
  addr = λ s. s.addr;
}

abbrev interfaces : List Shown
interfaces =
    record { index = 1; name = "lo"; addr = v4 127 ∷ v6 1 ∷ [] }
    ∷ record { index = 2; name = "eth0"; addr = v6 2 ∷ v4 10 ∷ [] }
    ∷ record { index = 3; name = "eth1"; addr = v4 10 ∷ [] }
    ∷ []

second_chosen :
    get_interface network 10 (ok interfaces) ≡ ok (record { index = 2; name = some "eth0" })
unfolding get_interface visit_interfaces visit_addrs
second_chosen = refl
