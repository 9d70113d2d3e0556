-- ===== src/Socket.antt =====
-- The sockets that NAT detection makes: src/stun/socket/mod.rs, and the calls that confine a socket
-- to a network interface, of src/stun/socket/unix.rs and src/stun/socket/windows.rs. The packages
-- socket2 and windows-sys are a parameter. The contexts that are added to an error are left out.
pub mod Order
pub mod Default
use Prim.Native.String.{String}
use p2p_channel.Base.{
  ℕ, zero, suc, Bool, true, false, ◌&&◌, Option, none, some, List, nat_beq, if◌then◌else◌, Result,
  ok, err, new_error, other,
}
use p2p_channel.Net.{SocketAddr, is_ipv4}
use p2p_channel.Interface.{LocalInterface}
use p2p_channel.Os.{continue, ◌>>=◌}
use p2p_channel.Wire.{to_be_bytes}

-- `socket2::Domain`, `socket2::Type` and `socket2::Protocol`.
pub data Domain : Type 0 where
  domain_v4 domain_v6 : Domain

pub data SocketType : Type 0 where
  stream dgram : SocketType

pub data Protocol : Type 0 where
  tcp udp : Protocol

-- The systems that the build distinguishes.
pub data Target : Type 0 where
  linux macos windows : Target

pub record SocketApi (World : Type 0) : Type 1 where
  pub Socket : Type 0
  pub new : Domain → SocketType → Protocol → World → Result Socket × World
  pub bind_device : Socket → String → World → Result (Unit {0}) × World
  pub bind_device_by_index_v4 : Socket → ℕ → World → Result (Unit {0}) × World
  -- `setsockopt` with `IP_UNICAST_IF` and the bytes of the value: whether it succeeds.
  pub set_unicast_if : Socket → List ℕ → World → Bool × World
  pub set_nodelay : Socket → Bool → World → Result (Unit {0}) × World
  pub set_only_v6 : Socket → Bool → World → Result (Unit {0}) × World
  pub set_nonblocking : Socket → Bool → World → Result (Unit {0}) × World
  pub set_read_timeout : Socket → ℕ → World → Result (Unit {0}) × World
  pub bind : Socket → SocketAddr → World → Result (Unit {0}) × World
  pub connect : Socket → SocketAddr → World → Result (Unit {0}) × World
  -- `GetBestInterfaceEx`, for the bytes of an address: the status, and the index.
  pub get_best_interface_ex : List ℕ → World → (ℕ × ℕ) × World

module _ {World : Type 0} (A : SocketApi World) where
  abbrev pub or_failed : Bool × World → Result (Unit {0}) × World
  or_failed (true, w) = (ok tt, w)
  or_failed (false, w) = (err (new_error other "Failed to set IP_UNICAST_IF"), w)

  -- `set_ip_unicast_if` on Linux, for the name of the interface.
  abbrev pub bind_named : A.Socket → Option String → World → Result (Unit {0}) × World
  bind_named socket none w = (ok tt, w)
  bind_named socket (some name) w = A.bind_device socket name w

  -- The same on macOS, and on Windows.
  unfoldable pub bind_by_index : A.Socket → ℕ → World → Result (Unit {0}) × World
  bind_by_index socket index w =
      if nat_beq index 0 then (ok tt, w) else A.bind_device_by_index_v4 socket index w

  unfoldable pub unicast_if : A.Socket → ℕ → World → Result (Unit {0}) × World
  unicast_if socket index w =
      if nat_beq index 0
      then (ok tt, w)
      else or_failed (A.set_unicast_if socket (to_be_bytes index) w)

  -- `set_ip_unicast_if`.
  unfoldable pub set_ip_unicast_if :
      Target → A.Socket → LocalInterface → World → Result (Unit {0}) × World
  set_ip_unicast_if linux socket iface = bind_named socket iface.name
  set_ip_unicast_if macos socket iface = bind_by_index socket iface.index
  set_ip_unicast_if windows socket iface = unicast_if socket iface.index

  unfoldable pub confine :
      Target → A.Socket → Option LocalInterface → World → Result (Unit {0}) × World
  unfolding set_ip_unicast_if
  confine target socket none w = (ok tt, w)
  confine target socket (some iface) w = set_ip_unicast_if target socket iface w

  -- `create_tcp`.
  unfoldable pub create_tcp :
      Target → Bool → Option LocalInterface → World → Result A.Socket × World
  unfolding confine
  create_tcp target v4 iface = A.new (if v4 then domain_v4 else domain_v6) stream tcp >>= λ socket.
      (if v4 then confine target socket iface else λ w. (ok tt, w)) >>= λ done.
      A.set_nodelay socket true >>= λ done w. (ok socket, w)

  -- `connect_tcp`.
  unfoldable pub connect_tcp :
      Target → SocketAddr → Option LocalInterface → World → Result A.Socket × World
  unfolding create_tcp
  connect_tcp target addr iface = create_tcp target (is_ipv4 addr) iface >>= λ socket.
      A.connect socket addr >>= λ done w. (ok socket, w)

  -- The socket of `bind_udp_ops`, before it is bound.
  unfoldable pub create_udp :
      Target → Bool → Bool → Option LocalInterface → World → Result A.Socket × World
  unfolding confine
  create_udp target true only_v6 iface = A.new domain_v4 dgram udp >>= λ socket.
      confine target socket iface >>= λ done w. (ok socket, w)
  create_udp target false only_v6 iface = A.new domain_v6 dgram udp >>= λ socket.
      A.set_only_v6 socket only_v6 >>= λ done w. (ok socket, w)

  -- `bind_udp_ops`.
  unfoldable pub bind_udp_ops :
      Target → SocketAddr → Bool → Option LocalInterface → World → Result A.Socket × World
  unfolding create_udp
  bind_udp_ops target addr only_v6 iface =
      create_udp target (is_ipv4 addr) only_v6 iface >>= λ socket.
      A.set_nonblocking socket false >>= λ done. A.bind socket addr >>= λ done w. (ok socket, w)

  -- `bind_udp`.
  unfoldable pub bind_udp :
      Target → SocketAddr → Option LocalInterface → World → Result A.Socket × World
  unfolding bind_udp_ops
  bind_udp target addr = bind_udp_ops target addr true

  abbrev pub best_of : (ℕ × ℕ) × World → Result LocalInterface × World
  best_of ((status, index), w) =
      if nat_beq status 0
      then (ok (record { index = index; name = none }), w)
      else (err (new_error other "Failed to GetBestInterfaceEx"), w)

  -- `get_best_interface` on Windows.
  unfoldable pub best_interface_windows : List ℕ → World → Result LocalInterface × World
  best_interface_windows octets w = best_of (A.get_best_interface_ex octets w)
