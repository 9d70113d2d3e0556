-- ===== src/RouteTable/Linked.antt =====
-- The two tables agree: a peer is in the list of a route exactly when its own route is that one.
use p2p_channel.Base.{
  ◌≡◌, Bool, true, false, ◌&&◌, ◌||◌, not, Option, none, some, arith, Eq, ◌==◌, contains, distinct,
  contains-retain_ne, contains-append_one, distinct-retain_ne, distinct-append_one,
}
use p2p_channel.Base.Int.{ℤ}
use p2p_channel.Route.{Route, RouteKey, route_key, key_eq, key_beq_iff}
use p2p_channel.RouteTable.{Store, Tables, remove_id_route, leave_old, join_route, add_route}
use p2p_channel.RouteTable.Members.{
  members, is_stale, members-remove_id_route, members-join_route, stale-remove_id_route,
  stale-join_route,
}

-- The peer's route is the one of the key.
abbrev pub is_on : Option Route → RouteKey → Bool
is_on none k = false
is_on (some r) k = route_key r == k

module _ {ID : Type 0} ⦃e : Eq ID⦄ (S : Store ID) where
  -- `agrees` is the agreement of the tables, `occupied` says that no route without a peer is kept,
  -- and `once` that no peer is listed twice.
  pub record IsLinked (t : Tables S) : Type 0 where
    pub agrees :
        (id : ID) (k : RouteKey)
        → contains (members S t.times k) id ≡ is_on (S.routes_api.get t.routes id) k
    pub occupied : (k : RouteKey) → is_stale S (S.times_api.get t.times k) ≡ false
    pub once : (k : RouteKey) → distinct (members S t.times k) ≡ true

  pub contains-remove_id_route :
      (id : ID) (key : RouteKey) (times : S.times_api.Map) (k : RouteKey) (j : ID)
      → contains (members S (remove_id_route S id key times) k) j
        ≡ (contains (members S times k) j && not ((key == k) && (id == j)))
  contains-remove_id_route id key times k j =
      rw (members-remove_id_route S id key times k)
        (ground (arith, contains-retain_ne (members S times k) id j))

  pub contains-join_route :
      (now : ℤ) (id : ID) (key : RouteKey) (times : S.times_api.Map) (k : RouteKey) (j : ID)
      → contains (members S (join_route S now id key times) k) j
        ≡ (contains (members S times k) j || ((key == k) && (id == j)))
  contains-join_route now id key times k j =
      rw (members-join_route S now id key times k)
        (ground (arith, contains-append_one (members S times k) id j, e.test_iff id j))

  pub distinct-remove_id_route :
      (id : ID) (key : RouteKey) (times : S.times_api.Map) (k : RouteKey)
      → distinct (members S times k) ≡ true
      → distinct (members S (remove_id_route S id key times) k) ≡ true
  distinct-remove_id_route id key times k h =
      rw (members-remove_id_route S id key times k)
        (ground (arith, distinct-retain_ne (members S times k) id))

  pub distinct-join_route :
      (now : ℤ) (id : ID) (key : RouteKey) (times : S.times_api.Map) (k : RouteKey)
      → distinct (members S times k) ≡ true
      → distinct (members S (join_route S now id key times) k) ≡ true
  distinct-join_route now id key times k h =
      rw (members-join_route S now id key times k)
        (ground (arith, distinct-append_one (members S times k) id))

  pub contains-leave_old :
      (id : ID) (key : RouteKey) (old : Option Route) (times : S.times_api.Map) (k : RouteKey)
      (j : ID)
      → contains (members S (leave_old S id key old times) k) j
        ≡ (contains (members S times k) j && not ((is_on old k && not (k == key)) && (id == j)))
  unfolding leave_old
  contains-leave_old id key none times k j = ground arith
  contains-leave_old id key (some old) times k j = ground (
    arith,
    contains-remove_id_route id (route_key old) times k j,
    key_beq_iff (route_key old) key,
    key_beq_iff (route_key old) k,
    key_beq_iff k key,
  )

  pub stale-leave_old :
      (id : ID) (key : RouteKey) (old : Option Route) (times : S.times_api.Map) (k : RouteKey)
      → is_stale S (S.times_api.get times k) ≡ false
      → is_stale S (S.times_api.get (leave_old S id key old times) k) ≡ false
  unfolding leave_old
  stale-leave_old id key none times k h = h
  stale-leave_old id key (some old) times k h =
      ground (arith, stale-remove_id_route S id (route_key old) times k)

  pub distinct-leave_old :
      (id : ID) (key : RouteKey) (old : Option Route) (times : S.times_api.Map) (k : RouteKey)
      → distinct (members S times k) ≡ true
      → distinct (members S (leave_old S id key old times) k) ≡ true
  unfolding leave_old
  distinct-leave_old id key none times k h = h
  distinct-leave_old id key (some old) times k h =
      ground (arith, distinct-remove_id_route id (route_key old) times k h)

  -- `add_route` keeps the tables linked.
  pub add_route-IsLinked :
      (now : ℤ) (id : ID) (r : Route) (t : Tables S)
      → IsLinked t
      → IsLinked (add_route S now id r t)
  unfolding add_route
  add_route-IsLinked now id r t h = record {
    agrees = λ j k.
        let old = (S.routes_api.insert t.routes id r).0 in
        let left = leave_old S id (route_key r) old t.times in
        ground (
          arith,
          contains-join_route now id (route_key r) left k j,
          contains-leave_old id (route_key r) old t.times k j,
          S.routes_api.insert_old t.routes id r,
          S.routes_api.get-insert t.routes id r j,
          h.agrees j k,
          e.test_iff id j,
          key_beq_iff (route_key r) k,
          key_beq_iff k (route_key r),
        );
    occupied = λ k.
        let old = (S.routes_api.insert t.routes id r).0 in
        let left = leave_old S id (route_key r) old t.times in
        ground (
          arith,
          stale-join_route S now id (route_key r) left k,
          stale-leave_old id (route_key r) old t.times k (h.occupied k),
        );
    once = λ k.
        let old = (S.routes_api.insert t.routes id r).0 in
        let left = leave_old S id (route_key r) old t.times in
        distinct-join_route now id (route_key r) left k
          (distinct-leave_old id (route_key r) old t.times k (h.once k));
  }
