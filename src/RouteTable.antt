-- ===== src/RouteTable.antt =====
-- The route tables: src/channel/sender.rs, lines 140 to 267, and the two stores of a timestamp in
-- src/channel/mod.rs. `direct_route_table` is `routes`, `direct_route_table_time` is `times`, and
-- the `Unparker` is `parker`. The mutex `lock` makes `add_route_` and `remove_route_` one step each.
pub mod Members
pub mod Linked
pub mod Lookup
pub mod Run
pub mod Oldest
pub mod Shape
pub mod Threads
use p2p_channel.Base.{
  ℕ, Bool, Option, none, some, List, [], ◌∷◌, ◌++◌, not, Eq, ◌==◌, contains, retain_ne, is_empty,
  head?, if◌then◌else◌,
}
use p2p_channel.Base.Int.{ℤ}
use p2p_channel.Base.MapApi.{MapApi}
use p2p_channel.Route.{Route, RouteKey, route_key, key_eq}

-- The value of `direct_route_table_time`: the peers on a route, and the times of the last read and
-- the last write, in milliseconds.
pub record Entry (ID : Type 0) : Type 0 where
  pub ids : List ID
  pub last_read : ℤ
  pub last_write : ℤ

-- The maps and the parker that the tables are built from.
pub record Store (ID : Type 0) ⦃e : Eq ID⦄ : Type 1 where
  pub routes_api : MapApi ID Route
  pub times_api : MapApi RouteKey (Entry ID)
  pub Parker : Type 0
  pub unpark : Parker → Parker

module _ {ID : Type 0} ⦃e : Eq ID⦄ (S : Store ID) where
  pub record Tables : Type 0 where
    pub routes : S.routes_api.Map
    pub times : S.times_api.Map
    pub parker : S.Parker

-- The operations on the tables, by whatever thread.
pub data Op (ID : Type 0) : Type 0 where
  add : ℤ → ID → Route → Op ID
  update : ID → ℕ → ℤ → Op ID
  remove : ID → Op ID
  read : ℤ → RouteKey → Op ID
  write : ℤ → RouteKey → Op ID

module _ {ID : Type 0} ⦃e : Eq ID⦄ (S : Store ID) where
  -- `remove_id_route_`: the peer leaves the route, and a route with no peer leaves the table.
  unfoldable pub remove_id_route : ID → RouteKey → S.times_api.Map → S.times_api.Map
  remove_id_route id key times = elim (S.times_api.get times key) [
    | none ↦ times
    | some entry ↦
        let ids = retain_ne id entry.ids in
        let retained = S.times_api.modify times key (λ v. record v { ids = ids }) in
        if is_empty ids then (S.times_api.remove retained key).1 else retained
  ]

  -- The peer leaves the route that it had, if that is another one.
  unfoldable pub leave_old : ID → RouteKey → Option Route → S.times_api.Map → S.times_api.Map
  leave_old id key none times = times
  leave_old id key (some old) times =
      if not (route_key old == key) then remove_id_route id (route_key old) times else times

  -- The peer goes to the end of the route's list, or starts the list.
  unfoldable pub join_route : ℤ → ID → RouteKey → S.times_api.Map → S.times_api.Map
  join_route now id key times = elim (S.times_api.get times key) [
    | none ↦
        (S.times_api.insert times key
          (record { ids = id ∷ []; last_read = now; last_write = now })).1
    | some entry ↦
        if not (contains entry.ids id)
        then S.times_api.modify times key (λ v. record v { ids = entry.ids ++ id ∷ [] })
        else times
  ]

  -- `add_route_`, at the time `now`.
  unfoldable pub add_route : ℤ → ID → Route → Tables S → Tables S
  add_route now id route t =
      let key = route_key route in
      let (old, routes) = S.routes_api.insert t.routes id route in
      record {
        routes = routes;
        times = join_route now id key (leave_old id key old t.times);
        parker = S.unpark t.parker;
      }

  -- `update_route_`.
  unfoldable pub update_route : ID → ℕ → ℤ → Tables S → Tables S
  update_route id metric rt t = record t {
    routes = S.routes_api.modify t.routes id (λ v. record v { metric = metric; rt = rt });
  }

  -- `route_`.
  unfoldable pub route : ID → Tables S → Option Route
  route id t = S.routes_api.get t.routes id

  unfoldable pub leave_removed : ID → Option Route → S.times_api.Map → S.times_api.Map
  leave_removed id none times = times
  leave_removed id (some old) times = remove_id_route id (route_key old) times

  -- `remove_route_`.
  unfoldable pub remove_route : ID → Tables S → Tables S
  remove_route id t =
      let (old, routes) = S.routes_api.remove t.routes id in
      record t { routes = routes; times = leave_removed id old t.times }

  -- `route_to_id_`: the first peer on the route.
  unfoldable pub route_to_id : RouteKey → Tables S → Option ID
  route_to_id key t = elim (S.times_api.get t.times key) [
    | none ↦ none
    | some entry ↦ head? entry.ids
  ]

  -- `route_table_`.
  unfoldable pub route_table : Tables S → List (ID × Route)
  route_table t = S.routes_api.entries t.routes

  -- `update_time` of a channel, at the time `now`.
  unfoldable pub update_time : ℤ → RouteKey → Tables S → Tables S
  update_time now key t = elim (S.times_api.get t.times key) [
    | none ↦ t
    | some entry ↦ record t {
      times = S.times_api.modify t.times key (λ v. record v { last_read = now });
    }
  ]

  -- The store that `send_to_route` begins with.
  unfoldable pub update_write_time : ℤ → RouteKey → Tables S → Tables S
  update_write_time now key t = elim (S.times_api.get t.times key) [
    | none ↦ t
    | some entry ↦ record t {
      times = S.times_api.modify t.times key (λ v. record v { last_write = now });
    }
  ]

  unfoldable pub empty_tables : S.Parker → Tables S
  empty_tables parker = record {
    routes = S.routes_api.empty;
    times = S.times_api.empty;
    parker = parker;
  }

  unfoldable pub apply : Op ID → Tables S → Tables S
  apply (add now id r) t = add_route now id r t
  apply (update id metric rt) t = update_route id metric rt t
  apply (remove id) t = remove_route id t
  apply (read now key) t = update_time now key t
  apply (write now key) t = update_write_time now key t

  -- The operations in the order in which they take effect.
  unfoldable pub run : List (Op ID) → Tables S → Tables S
  run [] t = t
  run (o ∷ os) t = run os (apply o t)
