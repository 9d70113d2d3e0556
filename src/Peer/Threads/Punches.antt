-- ===== src/Peer/Threads/Punches.antt =====
-- A thread that punches does not panic.
use p2p_channel.Base.{ℕ, ◌≤◌, ◌≡◌, Bool, Option, some, List, [], ◌∷◌, Result, ok, err, Eq}
use p2p_channel.Os.{Os, WorldOf}
use p2p_channel.Ports.{last_port, IsShuffle}
use p2p_channel.Punch.{NatInfo, Punch}
use p2p_channel.Punch.Safety.{NoOverflow, IsValid}
use p2p_channel.Peer.Threads.{PunchTurn}

module _ (O : Os) {ID : Type 0} ⦃e : Eq ID⦄ (checks : Bool) (my_id : ℕ) where
  -- The peer's port is a `u16`, and `punch` does not overflow where that is checked.
  abbrev pub IsSafe : Result (ID × NatInfo) → Type 0
  IsSafe (ok (id, nat)) = (nat.public_port ≤ last_port) × NoOverflow checks nat
  IsSafe (err x) = Unit {0}

  abbrev pub AllSafe : List (PunchTurn O ID) → Type 0
  AllSafe [] = Unit {0}
  AllSafe (turn ∷ turns) = IsShuffle turn.shuffle × IsSafe turn.next × AllSafe turns

  -- The thread has not panicked, and the windows are in range.
  abbrev pub LeavesValid : Option (Punch O ID × WorldOf O) → Type 0
  LeavesValid out = (r : Punch O ID × WorldOf O) × (out ≡ some r) × IsValid O r.0
