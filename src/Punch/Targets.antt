-- ===== src/Punch/Targets.antt =====
-- The datagrams of `punch_`: which addresses they go to, and how many of them there are.
use p2p_channel.Base.{
  ℕ, zero, suc, ◌+◌, ◌<◌, ◌≡◌, ◌∙◌, refl, ap, Bool, true, false, none, List, [], ◌∷◌, ◌++◌, arith,
  map, take, nat_beq, ok,
}
use p2p_channel.Net.{IpAddr, SocketAddr, socket_addr}
use p2p_channel.Os.{Os, WorldOf, Io, ◌>>=◌, continue, continue_assoc, continue_ext}
use p2p_channel.Sender.{Sender}
use p2p_channel.Punch.{punch_one, or_return, punch_ips, punch_ports, punch_all}

-- The addresses that the two loops go through: for each port, each address with that port.
abbrev pub targets : List ℕ → List IpAddr → List SocketAddr
targets [] ips = []
targets (port ∷ ports) ips = map (λ ip. socket_addr ip port) ips ++ targets ports ips

module _ (O : Os) (s : Sender O) (buf : List ℕ) (is_cone : Bool) where
  -- A datagram to each address, two milliseconds apart, up to the first error.
  pub send_spaced : List SocketAddr → Io O (Unit {0})
  send_spaced [] w = (ok tt, w)
  send_spaced (addr ∷ addrs) w =
      (punch_one O s buf is_cone addr >>= λ sent w'. send_spaced addrs (O.sleep_ms 2 w')) w

  -- The inner loop, at the count that is the limit and below it.
  punch_ips_stop :
      (m port : ℕ) (ip : IpAddr) (ips : List IpAddr) (count : ℕ) (w : WorldOf O)
      → count ≡ m
      → punch_ips O s buf (suc m) is_cone port (ip ∷ ips) count w ≡ (ok none, w)
  unfolding punch_ips
  punch_ips_stop m port ip ips count w h =
      let stop : nat_beq (count + 1) (suc m) ≡ true = ground arith in rw (stop, punch_ips)

  punch_ips_go :
      (m port : ℕ) (ip : IpAddr) (ips : List IpAddr) (count : ℕ) (w : WorldOf O)
      → count < m
      → punch_ips O s buf (suc m) is_cone port (ip ∷ ips) count w
        ≡ (punch_one O s buf is_cone (socket_addr ip port) >>= λ sent w'.
              punch_ips O s buf (suc m) is_cone port ips (count + 1) (O.sleep_ms 2 w'))
            w
  unfolding punch_ips
  punch_ips_go m port ip ips count w h =
      let go : nat_beq (count + 1) (suc m) ≡ false = ground arith in rw (go, punch_ips)

  -- The inner loop followed by what the outer one does next.
  punch_ips-spaced :
      (m port : ℕ) (ips : List IpAddr) (more : List SocketAddr) (rest : ℕ → Io O (Unit {0}))
      → ((count left : ℕ)
          → count + left ≡ m
          → (w : WorldOf O) → rest count w ≡ send_spaced (take left more) w)
      → (count left : ℕ) → count + left ≡ m
      → (w : WorldOf O)
      → (punch_ips O s buf (suc m) is_cone port ips count >>= λ next. or_return O next rest) w
        ≡ send_spaced (take left (map (λ ip. socket_addr ip port) ips ++ more)) w
  unfolding send_spaced
  punch_ips-spaced m port [] more rest h count left e w = unfold punch_ips in h count left e w
  punch_ips-spaced m port (ip ∷ ips) more rest h count zero e w =
      ap (λ o. continue o (λ next. or_return O next rest))
        (punch_ips_stop m port ip ips count w (omega arith))
  punch_ips-spaced m port (ip ∷ ips) more rest h count (suc left) e w =
      ap (λ o. continue o (λ next. or_return O next rest))
        (punch_ips_go m port ip ips count w (omega arith))
      ∙ continue_assoc (punch_one O s buf is_cone (socket_addr ip port) w)
          (λ sent w'. punch_ips O s buf (suc m) is_cone port ips (count + 1) (O.sleep_ms 2 w'))
          (λ next. or_return O next rest)
      ∙ continue_ext (punch_one O s buf is_cone (socket_addr ip port) w) _ _ (λ sent w'.
        punch_ips-spaced m port ips more rest h (count + 1) left (omega arith) (O.sleep_ms 2 w'))

  punch_ports-spaced :
      (m : ℕ) (ips : List IpAddr) (ports : List ℕ) (count left : ℕ)
      → count + left ≡ m
      → (w : WorldOf O)
      → punch_ports O s buf (suc m) is_cone ips ports count w
        ≡ send_spaced (take left (targets ports ips)) w
  unfolding punch_ports send_spaced
  punch_ports-spaced m ips [] count zero e w = refl
  punch_ports-spaced m ips [] count (suc left) e w = refl
  punch_ports-spaced m ips (port ∷ ports) count left e w =
      punch_ips-spaced m port ips (targets ports ips)
        (λ count'. punch_ports O s buf (suc m) is_cone ips ports count')
        (λ count' left' e' w'. punch_ports-spaced m ips ports count' left' e' w') count left e w

  -- With a limit of `m + 1`, `punch_` sends to the first `m` of the pairs of a port and an
  -- address, in the order of its loops, up to the first error: one datagram fewer than the
  -- limit.
  pub punch_all-take :
      (m : ℕ) (ips : List IpAddr) (ports : List ℕ) (w : WorldOf O)
      → punch_all O s buf ips (suc m) is_cone ports w ≡ send_spaced (take m (targets ports ips)) w
  unfolding punch_all
  punch_all-take m ips ports w = punch_ports-spaced m ips ports 0 m (omega arith) w
