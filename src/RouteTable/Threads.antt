-- ===== src/RouteTable/Threads.antt =====
-- The route tables under threads: src/channel/sender.rs, lines 140 to 243, in the steps that other
-- threads can see. `add_route_` and `remove_route_` hold the mutex `lock` from their first step to
-- `drop(lock)`; `update_route_`, the two timestamps and the loop of `next_idle` (src/idle/mod.rs,
-- lines 53 to 92) do not take it. `remove_id_route_` is one step: it holds the mutex of the list
-- while it empties the list and takes the entry out, and who reads the list waits for that mutex.
pub mod Watched
pub mod Invariant
pub mod Reachable
pub mod Atomic
pub mod Readers
use p2p_channel.Base.{
  ℕ, ◌≡◌, Bool, true, false, Option, none, some, List, [], retain_ne, Eq, ◌==◌,
}
use p2p_channel.Base.Int.{ℤ}
use p2p_channel.Route.{Route, RouteKey, route_key, key_eq}
use p2p_channel.RouteTable.{
  Entry, Store, Tables, leave_old, join_route, leave_removed, update_route, update_time,
  update_write_time, empty_tables,
}
use p2p_channel.RouteTable.Members.{members}

-- Who holds the lock, and how far it has come.
pub data Stage (ID : Type 0) : Type 0 where
  free : Stage ID
  -- `add_route_` has put the route in, in place of an old one.
  inserted : ID → RouteKey → Option Route → Stage ID
  -- The peer has left its old route.
  left : ID → RouteKey → Stage ID
  -- `remove_route_` has taken the peer's route out.
  taken : ID → Option Route → Stage ID
  -- All is done but `drop(lock)`.
  done : Stage ID

module _ {ID : Type 0} ⦃e : Eq ID⦄ (S : Store ID) where
  -- `watched` is the entry that the loop of `next_idle` holds: its key, and the peers that were
  -- left in its list when it was taken out of the table, if it has been.
  pub record System : Type 0 where
    pub tables : Tables S
    pub stage : Stage ID
    pub watched : Option (RouteKey × Option (List ID))

  abbrev pub is_out : Option (Entry ID) → Bool
  is_out none = true
  is_out (some v) = false

  -- The list of an entry that is no longer in the table.
  abbrev pub left_list : Option (Entry ID) → List ID → Option (List ID)
  left_list none ids = some ids
  left_list (some v) ids = none

  -- The peer leaves a list, and the table is another one: an entry that is in it no longer keeps
  -- what `retain` has left of its list.
  abbrev pub watch :
      ID
      → S.times_api.Map
      → S.times_api.Map
      → Option (RouteKey × Option (List ID))
      → Option (RouteKey × Option (List ID))
  watch id old times none = none
  watch id old times (some (key, some ids)) = some (key, some ids)
  watch id old times (some (key, none)) =
      some (key, left_list (S.times_api.get times key) (retain_ne id (members S old key)))

  -- What `entry.value().0.lock().clone()` returns.
  abbrev pub read_ids : System → RouteKey × Option (List ID) → List ID
  read_ids s (key, none) = members S s.tables.times key
  read_ids s (key, some ids) = ids

  abbrev pub with_times : ID → S.times_api.Map → Stage ID → System → System
  with_times id times stage s = record {
    tables = record s.tables { times = times };
    stage = stage;
    watched = watch id s.tables.times times s.watched;
  }

  abbrev pub with_routes : S.routes_api.Map → Stage ID → System → System
  with_routes routes stage s = record s {
    tables = record s.tables { routes = routes };
    stage = stage;
  }

  pub data Step (s : System) : System → Type 0 where
    add_insert :
        (id : ID) (r : Route)
        → s.stage ≡ free
        → Step s (
            with_routes
              (S.routes_api.insert s.tables.routes id r).1
              (inserted id (route_key r) (S.routes_api.insert s.tables.routes id r).0)
              s)
    add_leave :
        (id : ID) (key : RouteKey) (old : Option Route)
        → s.stage ≡ inserted id key old
        → Step s (with_times id (leave_old S id key old s.tables.times) (left id key) s)
    add_join :
        (now : ℤ) (id : ID) (key : RouteKey)
        → s.stage ≡ left id key
        → Step s (record s {
            tables = record s.tables { times = join_route S now id key s.tables.times };
            stage = done;
          })
    remove_take :
        (id : ID)
        → s.stage ≡ free
        → Step s (
            with_routes
              (S.routes_api.remove s.tables.routes id).1
              (taken id (S.routes_api.remove s.tables.routes id).0)
              s)
    remove_leave :
        (id : ID) (old : Option Route)
        → s.stage ≡ taken id old
        → Step s (with_times id (leave_removed S id old s.tables.times) done s)
    unlock : s.stage ≡ done → Step s (record s { stage = free })
    unpark : Step s (record s { tables = record s.tables { parker = S.unpark s.tables.parker } })
    update :
        (id : ID) (metric : ℕ) (rt : ℤ)
        → Step s (record s { tables = update_route S id metric rt s.tables })
    read :
        (now : ℤ) (key : RouteKey) → Step s (record s { tables = update_time S now key s.tables })
    write :
        (now : ℤ) (key : RouteKey)
        → Step s (record s { tables = update_write_time S now key s.tables })
    -- The loop of `next_idle` comes to an entry.
    meet :
        (key : RouteKey) (v : Entry ID)
        → S.times_api.get s.tables.times key ≡ some v
        → Step s (record s { watched = some (key, none) })

  abbrev pub start : S.Parker → System
  start parker = record { tables = empty_tables S parker; stage = free; watched = none }

  pub data Reach (parker : S.Parker) : System → Type 0 where
    here : Reach parker (start parker)
    next : {s t : System} → Reach parker s → Step s t → Reach parker t
