-- ===== src/Punch.antt =====
-- Hole punching: src/punch/mod.rs. A slice out of range and, where the build checks it, an
-- overflow panic; `none` is a panic. `checks` says whether the build has overflow checks.
pub mod Targets
pub mod Safety
use p2p_channel.Base.{
  ℕ, zero, suc, ◌+◌, ◌-◌, ◌*◌, ◌%◌, ◌≡◌, Bool, true, false, not, ◌&&◌, ◌||◌, Option, none, some,
  List, [], ◌∷◌, ◌++◌, length, take, drop, ltb, leb, nat_beq, if◌then◌else◌, Result, ok, err,
  IoError, new_error, other, Eq, ◌==◌,
}
use p2p_channel.Ports.{limits, bind, slice, near_ports, window_end, window_next}
use p2p_channel.Net.{IpAddr, SocketAddr, socket_addr, is_unspecified}
use p2p_channel.Os.{Os, World, WorldOf, Io, ◌>>=◌}
use p2p_channel.Sender
use p2p_channel.Sender.{Sender, send_to_addr, send_to_addr_all}

pub data NatType : Type 0 where
  symmetric cone : NatType

pub record NatInfo : Type 0 where
  pub public_ips : List IpAddr
  pub public_port : ℕ
  pub public_port_range : ℕ
  pub local_ip : IpAddr
  pub local_port : ℕ
  pub nat_type : NatType

-- `NatInfo::new`.
abbrev pub new : List IpAddr → ℕ → ℕ → IpAddr → ℕ → NatType → NatInfo
new public_ips public_port public_port_range local_ip local_port nat_type = record {
  public_ips = public_ips;
  public_port = public_port;
  public_port_range = public_port_range;
  local_ip = local_ip;
  local_port = local_port;
  nat_type = nat_type;
}

module _ (O : Os) where
  -- One datagram from the default socket, or one from every socket.
  unfoldable pub punch_one : Sender O → List ℕ → Bool → SocketAddr → Io O (Unit {0})
  punch_one s buf is_cone addr =
      if is_cone
      then (send_to_addr O s buf addr >>= λ len w. (ok tt, w))
      else send_to_addr_all O s buf addr

  -- The inner loop of `punch_`, over the addresses: the count after it, or `none` where `punch_`
  -- returns.
  unfoldable pub punch_ips : Sender O → List ℕ → ℕ → Bool → ℕ → List IpAddr → ℕ → Io O (Option ℕ)
  punch_ips s buf max is_cone port [] count w = (ok (some count), w)
  punch_ips s buf max is_cone port (ip ∷ ips) count w =
      let rest = punch_ips s buf max is_cone port ips (count + 1) in
      if nat_beq (count + 1) max
      then (ok none, w)
      else (punch_one s buf is_cone (socket_addr ip port) >>= λ sent w'. rest (O.sleep_ms 2 w')) w

  -- `Ok(())` where the inner loop returned.
  abbrev pub or_return : Option ℕ → (ℕ → Io O (Unit {0})) → Io O (Unit {0})
  or_return none rest w = (ok tt, w)
  or_return (some count) rest w = rest count w

  -- The outer loop, over the ports.
  unfoldable pub punch_ports :
      Sender O → List ℕ → ℕ → Bool → List IpAddr → List ℕ → ℕ → Io O (Unit {0})
  punch_ports s buf max is_cone ips [] count w = (ok tt, w)
  punch_ports s buf max is_cone ips (port ∷ ports) count w =
      (punch_ips s buf max is_cone port ips count >>= λ next.
      or_return next (λ count'. punch_ports s buf max is_cone ips ports count'))
        w

  -- `punch_`.
  unfoldable pub punch_all : Sender O → List ℕ → List IpAddr → ℕ → Bool → List ℕ → Io O (Unit {0})
  punch_all s buf ips max is_cone ports = punch_ports s buf max is_cone ips ports 0

  -- One datagram to each public address, up to the first error.
  unfoldable pub punch_cone : Sender O → List ℕ → ℕ → List IpAddr → Io O (Unit {0})
  punch_cone s buf port [] w = (ok tt, w)
  punch_cone s buf port (ip ∷ ips) w =
      let rest = punch_cone s buf port ips in
      (send_to_addr O s buf (socket_addr ip port) >>= λ len. rest) w

-- `Punch`, without the queues: `port_index` holds the start of the next window for each peer.
pub record Punch (O : Os) (ID : Type 0) : Type 0 where
  pub sender : Sender O
  pub port_vec : List ℕ
  pub port_index : ID → Option ℕ

abbrev pub index_or_zero : Option ℕ → ℕ
index_or_zero none = 0
index_or_zero (some i) = i

abbrev pub update : {ID A : Type 0} ⦃e : Eq ID⦄ → (ID → Option A) → ID → A → ID → Option A
update f id a j = if id == j then some a else f j

module _ (O : Os) {ID : Type 0} ⦃e : Eq ID⦄ where
  -- Go on after a success; stop at an error, with the punch state as it is.
  abbrev pub or_stop :
      Punch O ID
      → Result (Unit {0}) × WorldOf O
      → (WorldOf O → Option (Result (Unit {0}) × Punch O ID × WorldOf O))
      → Option (Result (Unit {0}) × Punch O ID × WorldOf O)
  or_stop p (ok done, w) rest = rest w
  or_stop p (err e, w) rest = some (err e, p, w)

  -- The ports near the public one, tried if the range is small.
  unfoldable pub punch_near :
      Bool
      → (List ℕ → List ℕ)
      → List ℕ
      → NatInfo
      → Punch O ID
      → Bool
      → WorldOf O
      → Option (Result (Unit {0}) × WorldOf O)
  punch_near checks shuffle buf nat p is_cone w =
      let max_k1 = (limits is_cone).0 in
      if ltb nat.public_port_range (max_k1 * 4)
      then bind (near_ports checks shuffle nat.public_port nat.public_port_range max_k1)
          (λ ports. some (punch_all O p.sender buf nat.public_ips max_k1 is_cone ports w))
      else some (ok tt, w)

  -- The next window of `port_vec`.
  unfoldable pub punch_window :
      List ℕ
      → ID
      → NatInfo
      → Punch O ID
      → Bool
      → WorldOf O
      → Option (Result (Unit {0}) × Punch O ID × WorldOf O)
  unfolding slice window_end window_next
  punch_window buf id nat p is_cone w =
      let max_k2 = (limits is_cone).1 in
      let size = length p.port_vec in
      let start = index_or_zero (p.port_index id) in
      let p' : Punch O ID = record p { port_index = update p.port_index id start } in
      bind (slice p.port_vec start (window_end size max_k2 start)) (λ ports.
        or_stop p' (punch_all O p.sender buf nat.public_ips max_k2 is_cone ports w) (λ w'. some (
          ok tt,
          record p' { port_index = update p'.port_index id (window_next size max_k2 start) },
          w',
        )))

  -- A datagram to the local address, whose result is ignored.
  unfoldable pub punch_local : List ℕ → NatInfo → Punch O ID → WorldOf O → WorldOf O
  punch_local buf nat p w =
      if not (is_unspecified nat.local_ip) || not (nat_beq nat.local_port 0)
      then (send_to_addr O p.sender buf (socket_addr nat.local_ip nat.local_port) w).1
      else w

  abbrev pub punch_by_type :
      NatType
      → Bool
      → (List ℕ → List ℕ)
      → List ℕ
      → ID
      → NatInfo
      → Punch O ID
      → Bool
      → WorldOf O
      → Option (Result (Unit {0}) × Punch O ID × WorldOf O)
  punch_by_type symmetric checks shuffle buf id nat p is_cone w =
      bind (punch_near checks shuffle buf nat p is_cone w)
        (λ near. or_stop p near (punch_window buf id nat p is_cone))
  punch_by_type cone checks shuffle buf id nat p is_cone w =
      or_stop p (punch_cone O p.sender buf nat.public_port nat.public_ips w)
        (λ w'. some (ok tt, p, w'))

  -- `Punch::punch`.
  unfoldable pub punch :
      Bool
      → (List ℕ → List ℕ)
      → List ℕ
      → ID
      → NatInfo
      → Punch O ID
      → WorldOf O
      → Option (Result (Unit {0}) × Punch O ID × WorldOf O)
  punch checks shuffle buf id nat p w =
      if Sender.is_close O w
      then some (err (new_error other "close"), p, w)
      else let w' = punch_local buf nat p w in
        punch_by_type nat.nat_type checks shuffle buf id nat p (Sender.is_cone O w') w'
