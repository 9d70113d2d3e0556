-- ===== src/RouteTable/Shape.antt =====
-- The operations on the times look at no more than the peers on each route.
use mathlib.Core.Option
use p2p_channel.Base.{
  ℕ, ◌≡◌, ◌∙◌, refl, sym, ap, inl, inr, ◌||◌, not, Option, none, some, [], ◌∷◌, ◌++◌, arith, Eq,
  ◌==◌, contains, Option-cases, if◌then◌else◌, Bool-cases,
}
use p2p_channel.Base.Int.{ℤ}
use p2p_channel.Route.{Route, RouteKey, route_key, key_eq}
use p2p_channel.RouteTable.{
  Entry, Store, Tables, remove_id_route, leave_old, leave_removed, join_route, update_route,
  update_time, update_write_time,
}
use p2p_channel.RouteTable.Members.{
  ids_of, members, is_stale, members-remove_id_route, members-join_route, stale-remove_id_route,
  stale-join_route,
}
use p2p_channel.RouteTable.Linked.{is_on, IsLinked}

module _ {ID : Type 0} ⦃e : Eq ID⦄ (S : Store ID) where
  -- The same peers on each route, and the same routes without a peer.
  pub record SameShape (a b : S.times_api.Map) : Type 0 where
    pub peers : (k : RouteKey) → members S a k ≡ members S b k
    pub stale : (k : RouteKey) → is_stale S (S.times_api.get a k) ≡ is_stale S (S.times_api.get b k)

  pub SameShape-remove_id_route :
      (id : ID) (key : RouteKey) (a b : S.times_api.Map)
      → SameShape a b
      → SameShape (remove_id_route S id key a) (remove_id_route S id key b)
  SameShape-remove_id_route id key a b h = record {
    peers = λ k. ground (
      arith,
      members-remove_id_route S id key a k,
      members-remove_id_route S id key b k,
      h.peers k,
    );
    stale = λ k.
        ground (
          arith,
          stale-remove_id_route S id key a k,
          stale-remove_id_route S id key b k,
          h.stale k,
        );
  }

  pub SameShape-join_route :
      (now now' : ℤ) (id : ID) (key : RouteKey) (a b : S.times_api.Map)
      → SameShape a b
      → SameShape (join_route S now id key a) (join_route S now' id key b)
  SameShape-join_route now now' id key a b h = record {
    peers = λ k.
        members-join_route S now id key a k
        ∙ ap (λ ids. if not (key == k) || contains ids id then ids else ids ++ id ∷ []) (h.peers k)
        ∙ sym (members-join_route S now' id key b k);
    stale = λ k.
        ground
          (arith, stale-join_route S now id key a k, stale-join_route S now' id key b k, h.stale k);
  }

  pub SameShape-leave_old :
      (id : ID) (key : RouteKey) (old : Option Route) (a b : S.times_api.Map)
      → SameShape a b
      → SameShape (leave_old S id key old a) (leave_old S id key old b)
  unfolding leave_old
  SameShape-leave_old id key none a b h = h
  SameShape-leave_old id key (some old) a b h = elim (Bool-cases (route_key old == key)) [
    | inl q ↦ rw q h
    | inr q ↦ rw q (SameShape-remove_id_route id (route_key old) a b h)
  ]

  pub SameShape-leave_removed :
      (id : ID) (old : Option Route) (a b : S.times_api.Map)
      → SameShape a b
      → SameShape (leave_removed S id old a) (leave_removed S id old b)
  unfolding leave_removed
  SameShape-leave_removed id none a b h = h
  SameShape-leave_removed id (some old) a b h = SameShape-remove_id_route id (route_key old) a b h

  -- A change of the timestamps alone.
  touch-SameShape :
      (a : S.times_api.Map) (key : RouteKey) (f : Entry ID → Entry ID)
      → ((v : Entry ID) → (f v).ids ≡ v.ids)
      → SameShape a (S.times_api.modify a key f)
  touch-SameShape a key f same = record {
    peers = λ k. ground (arith, S.times_api.get-modify a key f k, ids_of-map (S.times_api.get a k));
    stale = λ k. ground (arith, S.times_api.get-modify a key f k, stale-map (S.times_api.get a k));
  }
    where
      ids_of-map : (o : Option (Entry ID)) → ids_of (Option.map f o) ≡ ids_of o
      ids_of-map none = refl
      ids_of-map (some v) = same v

      stale-map : (o : Option (Entry ID)) → is_stale S (Option.map f o) ≡ is_stale S o
      stale-map none = refl
      stale-map (some v) = rw (same v)

  pub SameShape-refl : (a : S.times_api.Map) → SameShape a a
  SameShape-refl a = record { peers = λ k. refl; stale = λ k. refl }

  pub SameShape-update_time :
      (now : ℤ) (key : RouteKey) (t : Tables S) → SameShape t.times (update_time S now key t).times
  unfolding update_time
  SameShape-update_time now key t = elim (Option-cases (S.times_api.get t.times key)) [
    | inl q ↦ rw (q, update_time) (SameShape-refl t.times)
    | inr (v, q) ↦
        rw (q, update_time)
          (touch-SameShape t.times key (λ v'. record v' { last_read = now }) (λ v'. refl))
  ]

  pub SameShape-update_write_time :
      (now : ℤ) (key : RouteKey) (t : Tables S)
      → SameShape t.times (update_write_time S now key t).times
  unfolding update_write_time
  SameShape-update_write_time now key t = elim (Option-cases (S.times_api.get t.times key)) [
    | inl q ↦ rw (q, update_write_time) (SameShape-refl t.times)
    | inr (v, q) ↦
        rw (q, update_write_time)
          (touch-SameShape t.times key (λ v'. record v' { last_write = now }) (λ v'. refl))
  ]

  -- The peers of both have the same keys.
  abbrev pub SameKeys : S.routes_api.Map → S.routes_api.Map → Type 0
  SameKeys a b =
      (id : ID) (k : RouteKey) → is_on (S.routes_api.get a id) k ≡ is_on (S.routes_api.get b id) k

  pub SameKeys-update_route :
      (id : ID) (metric : ℕ) (rt : ℤ) (t : Tables S)
      → SameKeys t.routes (update_route S id metric rt t).routes
  unfolding update_route
  SameKeys-update_route id metric rt t j k =
      let f : Route → Route = λ v. record v { metric = metric; rt = rt } in
      ground (arith, S.routes_api.get-modify t.routes id f j)

  pub SameKeys-update_time :
      (now : ℤ) (key : RouteKey) (t : Tables S) → SameKeys t.routes (update_time S now key t).routes
  unfolding update_time
  SameKeys-update_time now key t id k = elim (Option-cases (S.times_api.get t.times key)) [
    | inl q ↦ rw (q, update_time)
    | inr (v, q) ↦ rw (q, update_time)
  ]

  pub SameKeys-update_write_time :
      (now : ℤ) (key : RouteKey) (t : Tables S)
      → SameKeys t.routes (update_write_time S now key t).routes
  unfolding update_write_time
  SameKeys-update_write_time now key t id k = elim (Option-cases (S.times_api.get t.times key)) [
    | inl q ↦ rw (q, update_write_time)
    | inr (v, q) ↦ rw (q, update_write_time)
  ]

  pub IsLinked-same :
      (t u : Tables S)
      → SameKeys t.routes u.routes
      → SameShape t.times u.times
      → IsLinked S t
      → IsLinked S u
  IsLinked-same t u keys shape h = record {
    agrees = λ id k. rw (← shape.peers k) (h.agrees id k ∙ keys id k);
    occupied = λ k. sym (shape.stale k) ∙ h.occupied k;
    once = λ k. rw (← shape.peers k) (h.once k);
  }
