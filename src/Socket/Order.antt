-- ===== src/Socket/Order.antt =====
-- The calls that make a socket, in their order, and the first error among them.
use Prim.Native.String.{String}
use p2p_channel.Base.{
  ℕ, Bool, true, false, ◌≡◌, ◌∙◌, refl, Option, none, some, List, [], ◌∷◌, ◌++◌, nat_beq,
  if◌then◌else◌, Bool-cases, inl, inr, Result, ok, err,
}
use p2p_channel.Net.{SocketAddr, addr_v4, addr_v6, is_ipv4}
use p2p_channel.Interface.{LocalInterface}
use p2p_channel.Os.{continue, continue_assoc, continue_ext, ◌>>=◌}
use p2p_channel.Wire.{to_be_bytes}
use p2p_channel.Socket.{
  Target, linux, macos, windows, Domain, domain_v4, domain_v6, stream, dgram, tcp, udp, SocketApi,
  or_failed, bind_named, bind_by_index, unicast_if, set_ip_unicast_if, confine, create_tcp,
  connect_tcp, create_udp, bind_udp_ops, bind_udp,
}

-- A call on a socket that is there.
pub data Call : Type 0 where
  device : String → Call
  device_by_index : ℕ → Call
  by_unicast_if : List ℕ → Call
  nodelay only_v6 nonblocking : Bool → Call
  bound connected : SocketAddr → Call

abbrev pub named : Option String → List Call
named none = []
named (some name) = device name ∷ []

-- The calls that confine a socket to an interface.
abbrev pub confinement : Target → Option LocalInterface → List Call
confinement target none = []
confinement linux (some iface) = named iface.name
confinement macos (some iface) =
    if nat_beq iface.index 0 then [] else device_by_index iface.index ∷ []
confinement windows (some iface) =
    if nat_beq iface.index 0 then [] else by_unicast_if (to_be_bytes iface.index) ∷ []

abbrev pub domain_of : SocketAddr → Domain
domain_of addr = if is_ipv4 addr then domain_v4 else domain_v6

-- A UDP socket is confined before it is bound, and a TCP socket before it is connected; one for
-- IPv6 is not confined.
abbrev pub udp_calls : Target → SocketAddr → Option LocalInterface → List Call
udp_calls target addr iface =
    (if is_ipv4 addr then confinement target iface else only_v6 true ∷ [])
    ++ nonblocking false ∷ bound addr ∷ []

abbrev pub tcp_calls : Target → SocketAddr → Option LocalInterface → List Call
tcp_calls target addr iface =
    (if is_ipv4 addr then confinement target iface else []) ++ nodelay true ∷ connected addr ∷ []

module _ {World : Type 0} (A : SocketApi World) where
  abbrev pub do_call : Call → A.Socket → World → Result (Unit {0}) × World
  do_call (device name) s = A.bind_device s name
  do_call (device_by_index i) s = A.bind_device_by_index_v4 s i
  do_call (by_unicast_if bytes) s = λ w. or_failed A (A.set_unicast_if s bytes w)
  do_call (nodelay b) s = A.set_nodelay s b
  do_call (only_v6 b) s = A.set_only_v6 s b
  do_call (nonblocking b) s = A.set_nonblocking s b
  do_call (bound addr) s = A.bind s addr
  do_call (connected addr) s = A.connect s addr

  -- The calls in their order, up to the first one that fails.
  abbrev pub do_calls : List Call → A.Socket → World → Result A.Socket × World
  do_calls [] s w = (ok s, w)
  do_calls (c ∷ cs) s w = continue (do_call c s w) (λ done. do_calls cs s)

  named-first :
      (s : A.Socket) (name : Option String) (cs : List Call) (w : World)
      → continue (bind_named A s name w) (λ done. do_calls cs s) ≡ do_calls (named name ++ cs) s w
  named-first s none cs w = refl
  named-first s (some n) cs w = refl

  confine-do_calls :
      (target : Target) (iface : Option LocalInterface) (s : A.Socket) (cs : List Call) (w : World)
      → continue (confine A target s iface w) (λ done. do_calls cs s)
        ≡ do_calls (confinement target iface ++ cs) s w
  unfolding confine set_ip_unicast_if bind_by_index unicast_if
  confine-do_calls linux none s cs w = refl
  confine-do_calls macos none s cs w = refl
  confine-do_calls windows none s cs w = refl
  confine-do_calls linux (some iface) s cs w = named-first s iface.name cs w
  confine-do_calls macos (some iface) s cs w = elim (Bool-cases (nat_beq iface.index 0)) [
    | inl q ↦ rw q refl
    | inr q ↦ rw q refl
  ]
  confine-do_calls windows (some iface) s cs w = elim (Bool-cases (nat_beq iface.index 0)) [
    | inl q ↦ rw q refl
    | inr q ↦ rw q refl
  ]

  udp_v4 :
      (target : Target) (addr : SocketAddr) (iface : Option LocalInterface)
      → (o : Result A.Socket × World)
      → continue
          (continue o (λ s. confine A target s iface >>= λ done w. (ok s, w)))
          (do_calls (nonblocking false ∷ bound addr ∷ []))
        ≡ continue o (do_calls (confinement target iface ++ nonblocking false ∷ bound addr ∷ []))
  udp_v4 target addr iface (err x, w) = refl
  udp_v4 target addr iface (ok s, w) =
      continue_assoc (confine A target s iface w) (λ done w'. (ok s, w'))
        (do_calls (nonblocking false ∷ bound addr ∷ []))
      ∙ confine-do_calls target iface s (nonblocking false ∷ bound addr ∷ []) w

  bind_udp-do_calls :
      (target : Target) (addr : SocketAddr) (iface : Option LocalInterface) (w : World)
      → bind_udp A target addr iface w
        ≡ continue (A.new (domain_of addr) dgram udp w) (do_calls (udp_calls target addr iface))
  unfolding bind_udp bind_udp_ops create_udp
  bind_udp-do_calls target (addr_v4 ip port) iface w =
      udp_v4 target (addr_v4 ip port) iface (A.new domain_v4 dgram udp w)
  bind_udp-do_calls target (addr_v6 ip port f s) iface w =
      continue_assoc (A.new domain_v6 dgram udp w)
        (λ s. A.set_only_v6 s true >>= λ done w'. (ok s, w'))
        (do_calls (nonblocking false ∷ bound (addr_v6 ip port f s) ∷ []))
      ∙ continue_ext (A.new domain_v6 dgram udp w) _
          (do_calls (only_v6 true ∷ nonblocking false ∷ bound (addr_v6 ip port f s) ∷ []))
          (λ s' w'.
            continue_assoc (A.set_only_v6 s' true w') (λ done v. (ok s', v))
              (do_calls (nonblocking false ∷ bound (addr_v6 ip port f s) ∷ [])))

  -- The calls before the last one, and the last one.
  tcp_end :
      (s : A.Socket) (addr : SocketAddr) (o : Result (Unit {0}) × World)
      → continue
          (continue o (λ done. A.set_nodelay s true >>= λ done' w. (ok s, w)))
          (do_calls (connected addr ∷ []))
        ≡ continue o (λ done. do_calls (nodelay true ∷ connected addr ∷ []) s)
  tcp_end s addr (err x, w) = refl
  tcp_end s addr (ok done, w) =
      continue_assoc (A.set_nodelay s true w) (λ done' w'. (ok s, w'))
        (do_calls (connected addr ∷ []))

  tcp_v4 :
      (target : Target) (addr : SocketAddr) (iface : Option LocalInterface)
      → (o : Result A.Socket × World)
      → continue
          (continue o (λ s.
            confine A target s iface >>= λ done. A.set_nodelay s true >>= λ done' w. (ok s, w)))
          (do_calls (connected addr ∷ []))
        ≡ continue o (do_calls (confinement target iface ++ nodelay true ∷ connected addr ∷ []))
  tcp_v4 target addr iface (err x, w) = refl
  tcp_v4 target addr iface (ok s, w) =
      tcp_end s addr (confine A target s iface w)
      ∙ confine-do_calls target iface s (nodelay true ∷ connected addr ∷ []) w

  tcp_v6 :
      (addr : SocketAddr) (o : Result A.Socket × World)
      → continue
          (continue o (λ s. A.set_nodelay s true >>= λ done' w. (ok s, w)))
          (do_calls (connected addr ∷ []))
        ≡ continue o (do_calls (nodelay true ∷ connected addr ∷ []))
  tcp_v6 addr (err x, w) = refl
  tcp_v6 addr (ok s, w) = tcp_end s addr (ok tt, w)

  connect_tcp-do_calls :
      (target : Target) (addr : SocketAddr) (iface : Option LocalInterface) (w : World)
      → connect_tcp A target addr iface w
        ≡ continue (A.new (domain_of addr) stream tcp w) (do_calls (tcp_calls target addr iface))
  unfolding connect_tcp create_tcp
  connect_tcp-do_calls target (addr_v4 ip port) iface w =
      tcp_v4 target (addr_v4 ip port) iface (A.new domain_v4 stream tcp w)
  connect_tcp-do_calls target (addr_v6 ip port f s) iface w =
      tcp_v6 (addr_v6 ip port f s) (A.new domain_v6 stream tcp w)

  -- Whatever the system answers, `bind_udp` and `connect_tcp` are their calls up to the first one
  -- that fails, whose error is returned. After the socket is made for IPv4, it is confined to the
  -- interface, where one is given that has a name, or an index other than 0 on macOS and Windows,
  -- and only then bound or connected. A UDP socket for IPv6 takes IPv6 alone instead, and a TCP
  -- one is not confined.
  pub sockets_in_order :
      (target : Target) (addr : SocketAddr) (iface : Option LocalInterface) (w : World)
      → (bind_udp A target addr iface w
          ≡ continue (A.new (domain_of addr) dgram udp w) (do_calls (udp_calls target addr iface)))
        × (connect_tcp A target addr iface w
            ≡ continue
                (A.new (domain_of addr) stream tcp w)
                (do_calls (tcp_calls target addr iface)))
  sockets_in_order target addr iface w =
      (bind_udp-do_calls target addr iface w, connect_tcp-do_calls target addr iface w)
