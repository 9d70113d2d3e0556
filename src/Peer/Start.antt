-- ===== src/Peer/Start.antt =====
-- The start of the example peer, examples/peer.rs, lines 52 to 67.
use Prim.Native.String.{String}
use mathlib.Core.Path.{subst}
use p2p_channel.Base.{ℕ, ◌≡◌, ◌∙◌, sym, ap, none, List, [], ◌∷◌, ok, Eq}
use p2p_channel.Base.Int.{pos}
use p2p_channel.RouteTable.{Store}
use p2p_channel.Os.{Os, WorldOf, Io, ◌>>=◌}
use p2p_channel.Reactor.{Reactor, Laws}
use p2p_channel.Ports.{IsShuffle}
use p2p_channel.Punch.{NatInfo}
use p2p_channel.Queues.{QueueApi}
use p2p_channel.Channel.{nat_type}
use p2p_channel.Channel.Sockets.{continue_ok}
use p2p_channel.Channel.Detect.{set_nat_type_with_stun, nat_type-set_nat_type_with_stun}
use p2p_channel.Boot.{Booted, boot}
use p2p_channel.Boot.Start.{IsReady, boot-IsReady}
use p2p_channel.Socket.{Target, SocketApi}
use p2p_channel.Stun.{Stun, Nat}

abbrev pub stun_servers : List String
stun_servers =
    "stun.miwifi.com:3478" ∷ "stun.chat.bilibili.com:3478" ∷ "stun.hitv.com:3478"
    ∷ "stun.cdnbye.com:3478" ∷ "stun.tel.lu:3478" ∷ "stun.smartvoip.com:3478" ∷ []

module _ {O : Os} (R : Reactor O) (A : SocketApi (WorldOf O))
    (stun_of : A.Socket → Stun (WorldOf O)) (target : Target) {ID : Type 0} ⦃e : Eq ID⦄
    (S : Store ID) (Q : QueueApi (ID × NatInfo)) where
  -- The parts, and the NAT that they are told of.
  unfoldable pub start_peer : S.Parker → (List ℕ → List ℕ) → Io O (Booted R S Q × Nat)
  start_peer parker shuffle = boot R S Q 20 (pos 9000) (pos 0) parker shuffle >>= λ b.
      set_nat_type_with_stun R A stun_of target stun_servers none b.group >>= λ nat w.
      (ok (b, nat), w)

  -- A start that succeeds leaves the parts ready, and `nat_type` is the type that was detected.
  -- A waker is taken not to write the status.
  pub start_peer-IsReady :
      (L : Laws R) (parker : S.Parker) (shuffle : List ℕ → List ℕ) (w v : WorldOf O)
      (b : Booted R S Q) (nat : Nat)
      → IsShuffle shuffle
      → start_peer parker shuffle w ≡ (ok (b, nat), v)
      → IsReady R L S Q b × (nat_type R v ≡ ok nat.0)
  unfolding start_peer
  start_peer-IsReady L parker shuffle w v b nat sh h =
      let (b', w1, made, rest) =
        continue_ok R L (boot R S Q 20 (pos 9000) (pos 0) parker shuffle w) _ h in
      let (found, w2, told, ends) =
        continue_ok R L (set_nat_type_with_stun R A stun_of target stun_servers none b'.group w1) _
          rest in
      let is_b : b' ≡ b = cc in
      let is_nat : found ≡ nat = cc in
      let is_v : w2 ≡ v = cc in
      let ready = boot-IsReady R L S Q 20 (pos 9000) (pos 0) parker shuffle w w1 b' sh made in
      let typed =
        nat_type-set_nat_type_with_stun R A stun_of target L stun_servers none b'.group w1 w2 found
          told in
      (
        subst (IsReady R L S Q) is_b ready,
        ap (nat_type R) (sym is_v) ∙ typed.0 ∙ ap (λ n. ok n.0) is_nat,
      )
