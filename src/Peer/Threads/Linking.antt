-- ===== src/Peer/Threads/Linking.antt =====
-- The thread that receives keeps the tables linked.
use p2p_channel.Base.{ℕ, Option, none, some, List, [], ◌∷◌, Eq}
use p2p_channel.Route.{Route, key_eq}
use p2p_channel.RouteTable.{Store, Tables}
use p2p_channel.RouteTable.Linked.{IsLinked}
use p2p_channel.Os.{Os, WorldOf}
use p2p_channel.Reactor.{Reactor}
use p2p_channel.Channel.{Channel}
use p2p_channel.Peer.{Peer}
use p2p_channel.Peer.Threads.Receiving.{ReceiveTurn, Run}

-- What holds of the value, if there is one.
abbrev pub OnSome : {A : Type 0} → (A → Type 0) → Option A → Type 0
OnSome P none = Unit {0}
OnSome P (some a) = P a

module _ {O : Os} (R : Reactor O) ⦃e : Eq (List ℕ)⦄ (S : Store (List ℕ)) (my_id : ℕ) where
  abbrev pub PeerLinked : Peer S → Type 0
  PeerLinked p = IsLinked S p.tables

  abbrev pub BothLinked : Peer S × WorldOf O → Type 0
  BothLinked r = IsLinked S r.0.tables

  module _ (c : Channel R) where
    abbrev pub RunLinked : Run R S c my_id → Type 0
    RunLinked run = IsLinked S run.0.tables

    -- What the other threads do keeps the tables linked.
    abbrev pub OthersFair : List (ReceiveTurn S) → Type 0
    OthersFair [] = Unit {0}
    OthersFair (turn ∷ turns) =
        ((t : Tables S) → IsLinked S t → IsLinked S (turn.meanwhile t)) × OthersFair turns
