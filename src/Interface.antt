-- ===== src/Interface.antt =====
-- The choice of a network interface: `get_interface` of src/stun/socket/mod.rs, and
-- `get_best_interface` of src/stun/socket/unix.rs. What the package network-interface shows is an
-- argument; a network address stands for its `ip()`.
pub mod Choice
use Prim.Native.String.{String}
use p2p_channel.Base.{
  ℕ, Bool, true, false, ◌||◌, Option, none, some, List, [], ◌∷◌, nat_beq, if◌then◌else◌, Result, ok,
  err, new_error, other,
}
use p2p_channel.Net.{IpAddr, v4, v6}

pub record LocalInterface : Type 0 where
  pub index : ℕ
  pub name : Option String

-- What is read of the interfaces that the package network-interface shows.
pub record Network : Type 1 where
  pub NetworkInterface : Type 0
  pub index : NetworkInterface → ℕ
  pub name : NetworkInterface → String
  pub addr : NetworkInterface → List IpAddr

abbrev pub is_dest : ℕ → IpAddr → Bool
is_dest dest (v4 ip) = nat_beq ip dest
is_dest dest (v6 ip) = false

abbrev pub or_default : Result LocalInterface → Result LocalInterface
or_default (ok iface) = ok iface
or_default (err x) = ok (record { index = 0; name = none })

module _ (N : Network) where
  abbrev pub local_of : N.NetworkInterface → LocalInterface
  local_of iface = record { index = N.index iface; name = some (N.name iface) }

  -- The loop over the addresses of an interface: return it, or go on.
  unfoldable pub visit_addrs :
      ℕ → N.NetworkInterface → List IpAddr → Result LocalInterface → Result LocalInterface
  visit_addrs dest iface [] rest = rest
  visit_addrs dest iface (a ∷ addrs) rest =
      let next = visit_addrs dest iface addrs rest in
      if is_dest dest a then ok (local_of iface) else next

  -- The loop over the interfaces.
  unfoldable pub visit_interfaces : ℕ → List N.NetworkInterface → Result LocalInterface
  visit_interfaces dest [] = err (new_error other "No network card with IP found")
  visit_interfaces dest (iface ∷ ifaces) =
      let rest = visit_interfaces dest ifaces in visit_addrs dest iface (N.addr iface) rest

  -- `get_interface`, from what `NetworkInterface::show` returns.
  unfoldable pub get_interface : ℕ → Result (List N.NetworkInterface) → Result LocalInterface
  get_interface dest (err x) = err x
  get_interface dest (ok ifaces) = visit_interfaces dest ifaces

  -- `get_best_interface`.
  unfoldable pub get_best_interface : ℕ → Result (List N.NetworkInterface) → Result LocalInterface
  get_best_interface dest shown = or_default (get_interface dest shown)
