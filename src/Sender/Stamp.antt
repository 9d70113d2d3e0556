-- ===== src/Sender/Stamp.antt =====
-- What a send to a route or to a peer leaves in the route tables.
use mathlib.Core.Option
use p2p_channel.Base.{
  ℕ, ◌≡◌, ◌⊎◌, inl, inr, none, some, List, arith, Eq, ◌==◌, if◌then◌else◌, err, new_error, other,
  Option-cases,
}
use p2p_channel.Base.Int.{ℤ}
use p2p_channel.Route.{Route, RouteKey, route_key, key_eq, key_beq_iff}
use p2p_channel.RouteTable.{Entry, Store, Tables, route, update_write_time}
use p2p_channel.Os.{Os, WorldOf}
use p2p_channel.Sender.{Sender, send_by_index, send_to_route, send_to_id}

abbrev pub stamped : {ID : Type 0} → ℤ → Entry ID → Entry ID
stamped now v = record v { last_write = now }

module _ {ID : Type 0} ⦃e : Eq ID⦄ (S : Store ID) where
  pub times-update_write_time :
      (now : ℤ) (key k : RouteKey) (t : Tables S)
      → S.times_api.get (update_write_time S now key t).times k ≡ (
          if key == k
          then Option.map (stamped now) (S.times_api.get t.times k)
          else S.times_api.get t.times k)
  unfolding update_write_time
  times-update_write_time now key k t = elim (Option-cases (S.times_api.get t.times key)) [
    | inl q ↦ ground (arith, key_beq_iff key k)
    | inr (v, q) ↦ ground (arith, S.times_api.get-modify t.times key (stamped now) k)
  ]

  module _ (O : Os) (now : ℤ) (s : Sender O) (buf : List ℕ) (t : Tables S) (w : WorldOf O) where
    -- `send_to_id` sends to the route of the peer by the socket with the route's index, and sets
    -- the time of the last write of that route and of no other, also if the send fails. For a
    -- peer with no route it fails, and neither the tables nor the world change.
    pub send_to_id_lem :
        (id : ID)
        → let (sent, t', w') = send_to_id O S now s buf id t w in
          ((route S id t ≡ none)
            × (sent ≡ err (new_error other "not fount route"))
            × (t' ≡ t)
            × (w' ≡ w))
          ⊎ ((r : Route) × (route S id t ≡ some r)
              × ((sent, w') ≡ send_by_index O s buf (route_key r) w)
              × ((k : RouteKey)
                  → S.times_api.get t'.times k ≡ (
                      if route_key r == k
                      then Option.map (stamped now) (S.times_api.get t.times k)
                      else S.times_api.get t.times k)))
    unfolding send_to_id send_to_route
    send_to_id_lem id = elim (Option-cases (route S id t)) [
      | inl q ↦ inl (q, rw (q, send_to_id), rw (q, send_to_id), rw (q, send_to_id))
      | inr (r, q) ↦ inr (
        r,
        q,
        rw (q, send_to_id),
        λ k. rw (q, send_to_id) (times-update_write_time now (route_key r) k t),
      )
    ]
