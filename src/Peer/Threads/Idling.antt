-- ===== src/Peer/Threads/Idling.antt =====
-- The thread that removes idle routes does not panic.
use p2p_channel.Base.{◌≡◌, false, Option, none, some, List, [], ◌∷◌, Result, ok, err, Eq, is_empty}
use p2p_channel.Route.{RouteKey, key_eq}
use p2p_channel.RouteTable.{Entry, Store, Tables}
use p2p_channel.RouteTable.Linked.{IsLinked}
use p2p_channel.Idle.{Idle, IdleStatus, Scan, found, clear, Round}
use p2p_channel.Peer.Threads.{IdleTurn}

-- No entry is without a peer.
abbrev pub Occupied : {ID : Type 0} → List (RouteKey × Entry ID) → Type 0
Occupied [] = Unit {0}
Occupied ((key, v) ∷ entries) = (is_empty v.ids ≡ false) × Occupied entries

abbrev FoundOne : {ID : Type 0} → Scan ID → Type 0
FoundOne (found status ids key) = is_empty ids ≡ false
FoundOne (clear min) = Unit {0}

module _ {ID : Type 0} ⦃e : Eq ID⦄ (S : Store ID) (idle : Idle) where
  abbrev pub RoundsOccupied : List (Round S) → Type 0
  RoundsOccupied [] = Unit {0}
  RoundsOccupied (r ∷ rounds) = Occupied (S.times_api.entries r.times) × RoundsOccupied rounds

  -- What `next_idle` returns has a peer.
  abbrev AnswersOne : Option (Result (IdleStatus × List ID × RouteKey)) → Type 0
  AnswersOne (some (ok (status, ids, key))) = is_empty ids ≡ false
  AnswersOne (some (err x)) = Unit {0}
  AnswersOne none = Unit {0}

  -- In each turn the entries that are met have a peer, and the other threads keep the tables
  -- linked.
  abbrev pub TurnsFair : List (IdleTurn S) → Type 0
  TurnsFair [] = Unit {0}
  TurnsFair (turn ∷ turns) =
      RoundsOccupied turn.rounds
      × ((t : Tables S) → IsLinked S t → IsLinked S (turn.meanwhile t))
      × TurnsFair turns

  -- The thread has not panicked, and has left linked tables.
  abbrev pub LeavesLinked : Option (Tables S) → Type 0
  LeavesLinked out = (t : Tables S) × (out ≡ some t) × IsLinked S t
