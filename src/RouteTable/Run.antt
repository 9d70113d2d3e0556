-- ===== src/RouteTable/Run.antt =====
-- Every operation keeps the tables linked, and so does every sequence of operations.
use p2p_channel.Base.{
  ℕ, ◌≡◌, true, false, ◌&&◌, not, Option, none, some, List, [], ◌∷◌, arith, Eq, ◌==◌, contains,
  distinct,
}
use p2p_channel.Base.Int.{ℤ}
use p2p_channel.Route.{Route, RouteKey, route_key, key_eq}
use p2p_channel.RouteTable.{
  Store, Tables, update_route, leave_removed, remove_route, update_time, update_write_time,
  empty_tables, Op, add, update, remove, read, write, apply, run,
}
use p2p_channel.RouteTable.Members.{members, is_stale, stale-remove_id_route}
use p2p_channel.RouteTable.Shape.{
  SameShape-refl, SameShape-update_time, SameShape-update_write_time, SameKeys-update_route,
  SameKeys-update_time, SameKeys-update_write_time, IsLinked-same,
}
use p2p_channel.RouteTable.Linked.{
  is_on, IsLinked, contains-remove_id_route, distinct-remove_id_route, add_route-IsLinked,
}

module _ {ID : Type 0} ⦃e : Eq ID⦄ (S : Store ID) where
  pub contains-leave_removed :
      (id : ID) (old : Option Route) (times : S.times_api.Map) (k : RouteKey) (j : ID)
      → contains (members S (leave_removed S id old times) k) j
        ≡ (contains (members S times k) j && not (is_on old k && (id == j)))
  unfolding leave_removed
  contains-leave_removed id none times k j = ground arith
  contains-leave_removed id (some old) times k j =
      contains-remove_id_route S id (route_key old) times k j

  pub stale-leave_removed :
      (id : ID) (old : Option Route) (times : S.times_api.Map) (k : RouteKey)
      → is_stale S (S.times_api.get times k) ≡ false
      → is_stale S (S.times_api.get (leave_removed S id old times) k) ≡ false
  unfolding leave_removed
  stale-leave_removed id none times k h = h
  stale-leave_removed id (some old) times k h =
      ground (arith, stale-remove_id_route S id (route_key old) times k)

  pub distinct-leave_removed :
      (id : ID) (old : Option Route) (times : S.times_api.Map) (k : RouteKey)
      → distinct (members S times k) ≡ true
      → distinct (members S (leave_removed S id old times) k) ≡ true
  unfolding leave_removed
  distinct-leave_removed id none times k h = h
  distinct-leave_removed id (some old) times k h =
      distinct-remove_id_route S id (route_key old) times k h

  pub remove_route-IsLinked :
      (id : ID) (t : Tables S) → IsLinked S t → IsLinked S (remove_route S id t)
  unfolding remove_route
  remove_route-IsLinked id t h = record {
    agrees = λ j k. ground (
      arith,
      contains-leave_removed id (S.routes_api.remove t.routes id).0 t.times k j,
      S.routes_api.remove_old t.routes id,
      S.routes_api.get-remove t.routes id j,
      h.agrees j k,
      e.test_iff id j,
    );
    occupied =
        λ k. stale-leave_removed id (S.routes_api.remove t.routes id).0 t.times k (h.occupied k);
    once = λ k. distinct-leave_removed id (S.routes_api.remove t.routes id).0 t.times k (h.once k);
  }

  pub update_route-IsLinked :
      (id : ID) (metric : ℕ) (rt : ℤ) (t : Tables S)
      → IsLinked S t
      → IsLinked S (update_route S id metric rt t)
  unfolding update_route
  update_route-IsLinked id metric rt t h =
      IsLinked-same S t (update_route S id metric rt t) (SameKeys-update_route S id metric rt t)
        (SameShape-refl S t.times) h

  pub update_time-IsLinked :
      (now : ℤ) (key : RouteKey) (t : Tables S)
      → IsLinked S t
      → IsLinked S (update_time S now key t)
  update_time-IsLinked now key t h =
      IsLinked-same S t (update_time S now key t) (SameKeys-update_time S now key t)
        (SameShape-update_time S now key t) h

  pub update_write_time-IsLinked :
      (now : ℤ) (key : RouteKey) (t : Tables S)
      → IsLinked S t
      → IsLinked S (update_write_time S now key t)
  update_write_time-IsLinked now key t h =
      IsLinked-same S t (update_write_time S now key t) (SameKeys-update_write_time S now key t)
        (SameShape-update_write_time S now key t) h

  pub empty_tables-IsLinked : (parker : S.Parker) → IsLinked S (empty_tables S parker)
  unfolding empty_tables
  empty_tables-IsLinked parker = record {
    agrees = λ id k. ground (arith, S.routes_api.get-empty id, S.times_api.get-empty k);
    occupied = λ k. ground (arith, S.times_api.get-empty k);
    once = λ k. ground (arith, S.times_api.get-empty k);
  }

  -- Each operation on linked tables, by whatever thread, leaves linked tables.
  pub apply-IsLinked : (o : Op ID) (t : Tables S) → IsLinked S t → IsLinked S (apply S o t)
  unfolding apply
  apply-IsLinked (add now id r) t h = add_route-IsLinked S now id r t h
  apply-IsLinked (update id metric rt) t h = update_route-IsLinked id metric rt t h
  apply-IsLinked (remove id) t h = remove_route-IsLinked id t h
  apply-IsLinked (read now key) t h = update_time-IsLinked now key t h
  apply-IsLinked (write now key) t h = update_write_time-IsLinked now key t h

  run_from-IsLinked : (os : List (Op ID)) (t : Tables S) → IsLinked S t → IsLinked S (run S os t)
  unfolding run
  run_from-IsLinked [] t h = h
  run_from-IsLinked (o ∷ os) t h = run_from-IsLinked os (apply S o t) (apply-IsLinked o t h)

  -- Whatever operations are made on tables that begin empty, in whatever order the threads make
  -- them: a peer is in the list of a route exactly when its own route has that key, no route is
  -- kept without a peer, and no peer is listed twice.
  pub run-IsLinked :
      (os : List (Op ID)) (parker : S.Parker) → IsLinked S (run S os (empty_tables S parker))
  run-IsLinked os parker =
      run_from-IsLinked os (empty_tables S parker) (empty_tables-IsLinked parker)
