-- ===== src/Channel/Detect.antt =====
-- `set_nat_type_with_stun` of src/channel/mod.rs, lines 476 to 487. The error of `stun_test_nat` is
-- left out, since it has none.
use Prim.Native.String.{String}
use p2p_channel.Base.{◌≡◌, ◌∙◌, sym, ap, Option, List, [], ◌∷◌, Result, ok}
use mathlib.Core.Path.{subst}
use p2p_channel.Os.{Os, WorldOf, Io, ◌>>=◌}
use p2p_channel.Reactor.{Reactor, Laws}
use p2p_channel.Channel.{Group, set_nat_type, nat_type}
use p2p_channel.Channel.Nat.{nat_type-set_nat_type}
use p2p_channel.Channel.Sockets.{continue_ok}
use p2p_channel.Interface.{LocalInterface}
use p2p_channel.Socket.{Target, SocketApi}
use p2p_channel.Stun.{Stun, Nat}
use p2p_channel.Stun.Detection.{detect, detect_twice}
use p2p_channel.Stun.Merge.{Merged, stun_test_nat-Merged}

module _ {O : Os} (R : Reactor O) (A : SocketApi (WorldOf O))
    (stun_of : A.Socket → Stun (WorldOf O)) (target : Target) where
  abbrev pub set_found : Group R → Nat × WorldOf O → Result Nat × WorldOf O
  set_found g (nat, w) = (set_nat_type R nat.0 g >>= λ done v. (ok nat, v)) w

  -- The results of the two detections.
  abbrev pub both_detections : List String → Option LocalInterface → WorldOf O → List (Result Nat)
  both_detections servers iface w =
      let (first, w1) = detect A stun_of target servers iface w in
      first ∷ (detect A stun_of target servers iface w1).0 ∷ []

  -- `set_nat_type_with_stun`.
  unfoldable pub set_nat_type_with_stun : List String → Option LocalInterface → Group R → Io O Nat
  set_nat_type_with_stun servers iface g w =
      set_found g (detect_twice A stun_of target servers iface w)

module _ {O : Os} (R : Reactor O) (A : SocketApi (WorldOf O))
    (stun_of : A.Socket → Stun (WorldOf O)) (target : Target) (L : Laws R) where
  -- After a `set_nat_type_with_stun` that succeeds, `nat_type` is the type that it returns, and
  -- what it returns is merged from those of its two detections that have succeeded: a cone with
  -- no address if none has. A waker is taken not to write the status.
  pub nat_type-set_nat_type_with_stun :
      (servers : List String) (iface : Option LocalInterface) (g : Group R) (w v : WorldOf O)
      → (out : Nat) → set_nat_type_with_stun R A stun_of target servers iface g w ≡ (ok out, v)
      → (nat_type R v ≡ ok out.0) × Merged (both_detections R A stun_of target servers iface w) out
  unfolding set_nat_type_with_stun detect_twice
  nat_type-set_nat_type_with_stun servers iface g w v out h =
      let (nat, w') = detect_twice A stun_of target servers iface w in
      let (done, u, e, q) =
        continue_ok R L (set_nat_type R nat.0 g w') (λ done w''. (ok nat, w'')) h in
      let is_out : nat ≡ out = cc in
      let is_v : u ≡ v = cc in
      (
        ap (nat_type R) (sym is_v)
            ∙ nat_type-set_nat_type R L nat.0 g w' u e
            ∙ ap (λ n. ok n.0) is_out,
        subst (Merged (both_detections R A stun_of target servers iface w)) is_out
            (stun_test_nat-Merged (both_detections R A stun_of target servers iface w)),
      )
