-- ===== src/Tests/Detecting.antt =====
-- Detections as a whole, and the sockets that they make.
use Prim.Native.String.{String}
use p2p_channel.Base.{ℕ, ◌+◌, ◌≡◌, refl, true, none, some, List, [], ◌∷◌, Result, ok}
use p2p_channel.Net.{addr_v4}
use p2p_channel.Os.{continue}
use p2p_channel.Punch.{cone}
use p2p_channel.Interface.{LocalInterface}
use p2p_channel.Socket.{
  SocketApi, linux, windows, bind_udp, connect_tcp, domain_v4, dgram, udp, stream, tcp,
}
use p2p_channel.Socket.Order.{do_calls, udp_calls, tcp_calls, sockets_in_order}
use p2p_channel.Base.{number_eq}
use p2p_channel.Net.{addr_eq}
use p2p_channel.Stun.{Stun, stun_v4, Attr, mapped_address}
use p2p_channel.Stun.Detection.{detect_twice, detect_twice_one_server}

-- A call succeeds and leaves its name.
abbrev leave : String → List String → Result (Unit {0}) × List String
leave name w = (ok tt, name ∷ w)

abbrev noting : SocketApi (List String)
noting = record {
  Socket = ℕ;
  new = λ d t p w. (ok 3, "new" ∷ w);
  bind_device = λ s n. leave n;
  bind_device_by_index_v4 = λ s i. leave "bind_device_by_index_v4";
  set_unicast_if = λ s b w. (true, "setsockopt" ∷ w);
  set_nodelay = λ s b. leave "set_nodelay";
  set_only_v6 = λ s b. leave "set_only_v6";
  set_nonblocking = λ s b. leave "set_nonblocking";
  set_read_timeout = λ s n. leave "set_read_timeout";
  bind = λ s a. leave "bind";
  connect = λ s a. leave "connect";
  get_best_interface_ex = λ b w. ((0, 4), w);
}

abbrev eth0 : LocalInterface
eth0 = record { index = 2; name = some "eth0" }

udp_run :
    bind_udp noting linux (addr_v4 0 0) (some eth0) []
    ≡ (ok 3, "bind" ∷ "set_nonblocking" ∷ "eth0" ∷ "new" ∷ [])
unfolding bind_udp
udp_run = refl

sockets_in_order_example :
    (bind_udp noting windows (addr_v4 0 0) (some eth0) []
      ≡ continue
          (noting.new domain_v4 dgram udp [])
          (do_calls noting (udp_calls windows (addr_v4 0 0) (some eth0))))
    × (connect_tcp noting windows (addr_v4 0 0) (some eth0) []
        ≡ continue
            (noting.new domain_v4 stream tcp [])
            (do_calls noting (tcp_calls windows (addr_v4 0 0) (some eth0))))
sockets_in_order_example = sockets_in_order noting windows (addr_v4 0 0) (some eth0) []

-- The socket with the number three maps to the port 63 of the address 6.
abbrev attrs_of_reply : List ℕ → List Attr
attrs_of_reply [] = []
attrs_of_reply (n ∷ ns) = mapped_address (stun_v4 6 (60 + n)) ∷ []

abbrev answering : {W : Type 0} → ℕ → Stun W
answering socket = record {
  request = λ i p t. t ∷ [];
  attrs_of = attrs_of_reply;
  tid_of = λ b. none;
  connect_server = λ s w. (ok tt, w);
  connect_addr = λ a w. (ok tt, w);
  send = λ b w. (ok 28, w);
  recv = λ w. (ok (socket ∷ []), w);
  next_u64 = λ w. (4, w);
}

detect_twice_one_server_example :
    (detect_twice noting answering linux ("stun" ∷ []) (some eth0) []).0.0 ≡ cone
detect_twice_one_server_example =
    detect_twice_one_server noting answering linux "stun" (some eth0) []
