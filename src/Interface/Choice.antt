-- ===== src/Interface/Choice.antt =====
-- Which interface is chosen.
use p2p_channel.Base.{
  ℕ, ◌≡◌, refl, ap, ◌⊎◌, inl, inr, Bool, true, false, ◌||◌, none, List, [], ◌∷◌, ◌++◌,
  if◌then◌else◌, Result, ok, err, IoError, Bool-cases,
}
use p2p_channel.Net.{IpAddr}
use p2p_channel.Interface.{
  LocalInterface, Network, is_dest, local_of, visit_addrs, visit_interfaces, get_interface,
  or_default, get_best_interface,
}

-- An interface has an address.
abbrev pub has_addr : ℕ → List IpAddr → Bool
has_addr dest [] = false
has_addr dest (a ∷ addrs) = is_dest dest a || has_addr dest addrs

module _ (N : Network) where
  abbrev pub NoneHas : ℕ → List N.NetworkInterface → Type 0
  NoneHas dest [] = Unit {0}
  NoneHas dest (iface ∷ ifaces) = (has_addr dest (N.addr iface) ≡ false) × NoneHas dest ifaces

  visit_addrs_lem :
      (dest : ℕ) (iface : N.NetworkInterface) (addrs : List IpAddr) (rest : Result LocalInterface)
      → visit_addrs N dest iface addrs rest
        ≡ (if has_addr dest addrs then ok (local_of N iface) else rest)
  unfolding visit_addrs
  visit_addrs_lem dest iface [] rest = refl
  visit_addrs_lem dest iface (a ∷ addrs) rest =
      go (is_dest dest a) (visit_addrs_lem dest iface addrs rest)
    where
      go :
          (b : Bool)
          → visit_addrs N dest iface addrs rest
            ≡ (if has_addr dest addrs then ok (local_of N iface) else rest)
          → (if b then ok (local_of N iface) else visit_addrs N dest iface addrs rest)
            ≡ (if b || has_addr dest addrs then ok (local_of N iface) else rest)
      go true ih = refl
      go false ih = ih

  -- The first interface with the address, or none has it.
  abbrev pub FirstOf : ℕ → List N.NetworkInterface → Result LocalInterface → Type 0
  FirstOf dest ifaces out =
      ((before : List N.NetworkInterface) × (iface : N.NetworkInterface) × (after : List
          N.NetworkInterface)
        × (ifaces ≡ before ++ iface ∷ after)
        × NoneHas dest before
        × (has_addr dest (N.addr iface) ≡ true)
        × (out ≡ ok (local_of N iface)))
      ⊎ (NoneHas dest ifaces × ((x : IoError) × (out ≡ err x)))

  visit_interfaces-FirstOf :
      (dest : ℕ) (ifaces : List N.NetworkInterface)
      → FirstOf dest ifaces (visit_interfaces N dest ifaces)
  unfolding visit_interfaces
  visit_interfaces-FirstOf dest [] = inr (tt, (_, refl))
  visit_interfaces-FirstOf dest (iface ∷ ifaces) =
      let here = visit_addrs_lem dest iface (N.addr iface) (visit_interfaces N dest ifaces) in
      elim (Bool-cases (has_addr dest (N.addr iface))) [
        | inl q ↦ inl ([], iface, ifaces, refl, tt, q, rw (here, q))
        | inr q ↦ elim (visit_interfaces-FirstOf dest ifaces) [
          | inl (before, found, after, e, n, h, o) ↦
              inl (iface ∷ before, found, after, rw e, (q, n), h, rw (here, q) o)
          | inr (n, (x, o)) ↦ inr ((q, n), (x, rw (here, q) o))
        ]
      ]

  -- `get_interface` chooses the first interface that has the address, whatever other addresses it
  -- has, and fails exactly if no interface has it; `get_best_interface` chooses the same one, and
  -- the default one, with index 0 and no name, where `get_interface` fails.
  pub get_interface-FirstOf :
      (dest : ℕ) (ifaces : List N.NetworkInterface)
      → FirstOf dest ifaces (get_interface N dest (ok ifaces))
        × (((iface : LocalInterface) × (get_interface N dest (ok ifaces) ≡ ok iface)
              × (get_best_interface N dest (ok ifaces) ≡ ok iface))
            ⊎ (NoneHas dest ifaces
                × (get_best_interface N dest (ok ifaces) ≡ ok (record { index = 0; name = none }))))
  unfolding get_interface get_best_interface
  get_interface-FirstOf dest ifaces = (
    visit_interfaces-FirstOf dest ifaces,
    elim (visit_interfaces-FirstOf dest ifaces) [
      | inl (before, found, after, e, n, h, o) ↦ inl (local_of N found, o, ap or_default o)
      | inr (n, (x, o)) ↦ inr (n, ap or_default o)
    ],
  )
