-- ===== src/Stun/Detection.antt =====
-- NAT detection as a whole: `stun_test_nat0` of src/stun/mod.rs with the socket that it makes, and
-- `stun_test_nat`, which calls it twice. `stun_of` is the codec of the messages with the calls on
-- such a socket.
use Prim.Native.String.{String}
use p2p_channel.Base.{◌≡◌, refl, false, Option, List, [], ◌∷◌, Result, ok, err}
use p2p_channel.Net.{SocketAddr, addr_v4}
use p2p_channel.Os.{continue, ◌>>=◌}
use p2p_channel.Interface.{LocalInterface}
use p2p_channel.Socket.{Target, SocketApi, bind_udp}
use p2p_channel.Punch.{symmetric, cone}
use p2p_channel.Stun.{Stun, Nat, merge_nat, stun_test_nat0, stun_test_nat}
use p2p_channel.Stun.Summary.{one_server_cone}

-- "0.0.0.0:0".
abbrev pub any_addr : SocketAddr
any_addr = addr_v4 0 0

module _ {World : Type 0} (A : SocketApi World) (stun_of : A.Socket → Stun World)
    (target : Target) where
  -- The socket of `stun_test_nat0`, which waits for a reply for half a second.
  unfoldable pub detection_socket : Option LocalInterface → World → Result A.Socket × World
  unfolding bind_udp
  detection_socket iface = bind_udp A target any_addr iface >>= λ udp.
      A.set_nonblocking udp false >>= λ done. A.set_read_timeout udp 500 >>= λ done w. (ok udp, w)

  abbrev pub asked : Nat × World → Result Nat × World
  asked (nat, w) = (ok nat, w)

  -- `stun_test_nat0`.
  unfoldable pub detect : List String → Option LocalInterface → World → Result Nat × World
  unfolding detection_socket
  detect servers iface =
      detection_socket iface >>= λ udp w. asked (stun_test_nat0 (stun_of udp) servers w)

  -- `stun_test_nat`, which never fails.
  unfoldable pub detect_twice : List String → Option LocalInterface → World → Nat × World
  unfolding detect
  detect_twice servers iface w =
      let (first, w1) = detect servers iface w in
      let (second, w2) = detect servers iface w1 in
      (stun_test_nat (first ∷ second ∷ []) (cone, [], 0), w2)

  -- A detection that fails, or finds a cone.
  abbrev NotSymmetric : Result Nat → Type 0
  NotSymmetric (err x) = Unit {0}
  NotSymmetric (ok nat) = nat.0 ≡ cone

  merge_cone :
      (r : Result Nat) (nat : Nat) → NotSymmetric r → nat.0 ≡ cone → (merge_nat r nat).0 ≡ cone
  merge_cone (err x) nat h k = k
  merge_cone (ok (symmetric, ips, range)) nat h k = cc
  merge_cone (ok (cone, ips, range)) nat h k = k

  detect-NotSymmetric :
      (server : String) (iface : Option LocalInterface) (w : World)
      → NotSymmetric (detect (server ∷ []) iface w).0
  unfolding detect
  detect-NotSymmetric server iface w = go (detection_socket iface w)
    where
      go :
          (o : Result A.Socket × World)
          → NotSymmetric
              (continue o (λ udp v. asked (stun_test_nat0 (stun_of udp) (server ∷ []) v))).0
      go (err x, v) = tt
      go (ok udp, v) = one_server_cone (stun_of udp) server v

  -- With one server `stun_test_nat` never finds a symmetric NAT, whatever the server answers in
  -- its two detections and whichever calls of the system fail: the address that the second answer
  -- maps is not used.
  pub detect_twice_one_server :
      (server : String) (iface : Option LocalInterface) (w : World)
      → (detect_twice (server ∷ []) iface w).0.0 ≡ cone
  unfolding detect_twice stun_test_nat
  detect_twice_one_server server iface w =
      let (first, w1) = detect (server ∷ []) iface w in
      merge_cone (detect (server ∷ []) iface w1).0 (merge_nat first (cone, [], 0))
        (detect-NotSymmetric server iface w1)
        (merge_cone first (cone, [], 0) (detect-NotSymmetric server iface w) refl)
