-- ===== src/Socket/Default.antt =====
-- The interface that `get_best_interface` of src/stun/socket/unix.rs falls back to.
use p2p_channel.Base.{ℕ, ◌≡◌, ◌∙◌, refl, sym, ap, none, some, List, Result, ok, err, IoError}
use p2p_channel.Net.{SocketAddr}
use p2p_channel.Interface.{LocalInterface, Network, get_interface, get_best_interface, or_default}
use p2p_channel.Socket.{Target, linux, macos, windows, SocketApi, bind_udp, connect_tcp}
use p2p_channel.Socket.Order.{confinement, sockets_in_order}

abbrev pub default_interface : LocalInterface
default_interface = record { index = 0; name = none }

confinement-default_interface :
    (target : Target) → confinement target (some default_interface) ≡ confinement target none
confinement-default_interface linux = refl
confinement-default_interface macos = refl
confinement-default_interface windows = refl

best-default_interface :
    {x : IoError} {iface : LocalInterface} (r : Result LocalInterface)
    → r ≡ err x
    → or_default r ≡ ok iface
    → iface ≡ default_interface
best-default_interface (ok a) h best = cc
best-default_interface (err y) h best = cc

module _ {World : Type 0} (A : SocketApi World) (N : Network) where
  -- If no interface has the address, or the interfaces cannot be listed, the sockets for the
  -- interface that `get_best_interface` returns are made as if no interface were given: they are
  -- not confined at all.
  pub get_best_interface-unconfined :
      (dest : ℕ) (shown : Result (List N.NetworkInterface)) (x : IoError) (iface : LocalInterface)
      → get_interface N dest shown ≡ err x
      → get_best_interface N dest shown ≡ ok iface
      → (target : Target) (addr : SocketAddr) (w : World)
      → (bind_udp A target addr (some iface) w ≡ bind_udp A target addr none w)
        × (connect_tcp A target addr (some iface) w ≡ connect_tcp A target addr none w)
  unfolding get_best_interface
  get_best_interface-unconfined dest shown x iface h best target addr w =
      let same =
        ap (λ i. confinement target (some i))
          (best-default_interface (get_interface N dest shown) h best)
        ∙ confinement-default_interface target in
      let (a, b) = sockets_in_order A target addr (some iface) w in
      let (c, d) = sockets_in_order A target addr none w in
      (a ∙ rw same refl ∙ sym c, b ∙ rw same refl ∙ sym d)
