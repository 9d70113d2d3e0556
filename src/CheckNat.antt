-- ===== src/CheckNat.antt =====
-- The example examples/check_nat.rs: it prints what `stun_test_nat` finds, which cannot fail.
use Prim.Native.String.{String}
use p2p_channel.Base.{none, List, [], ◌∷◌, Result}
use p2p_channel.Socket.{Target, SocketApi}
use p2p_channel.Stun.{Stun, Nat}
use p2p_channel.Stun.Detection.{detect, detect_twice}
use p2p_channel.Stun.Merge.{Merged, stun_test_nat-Merged}

-- The servers that are asked.
abbrev pub check_servers : List String
check_servers =
    "stun.miwifi.com:3478" ∷ "stun.chat.bilibili.com:3478" ∷ "stun.hitv.com:3478"
    ∷ "stun.cdnbye.com:3478" ∷ "stun.tel.lu:3478" ∷ "stun.smartvoip.com:3478" ∷ []

module _ {World : Type 0} (A : SocketApi World) (stun_of : A.Socket → Stun World)
    (target : Target) where
  -- `main`, with the NAT that it prints.
  unfoldable pub check_nat : World → Nat × World
  check_nat = detect_twice A stun_of target check_servers none

  -- The results of its two detections.
  abbrev pub checks : World → List (Result Nat)
  checks w =
      let (first, w1) = detect A stun_of target check_servers none w in
      first ∷ (detect A stun_of target check_servers none w1).0 ∷ []

  -- What is printed is merged from those of the two detections that have succeeded.
  pub check_nat-Merged : (w : World) → Merged (checks w) (check_nat w).0
  unfolding check_nat detect_twice
  check_nat-Merged w = stun_test_nat-Merged (checks w)
