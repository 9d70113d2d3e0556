-- ===== src/RouteTable/Threads/Invariant.antt =====
-- What holds in every state that the threads can reach.
use mathlib.Core.Path.{subst}
use p2p_channel.Base.{
  ◌≡◌, ◌∙◌, refl, sym, Bool, true, false, List, ◌||◌, not, Option, none, some, arith, Eq, distinct,
}
use p2p_channel.Base.Int.{ℤ, pos}
use p2p_channel.Route.{Route, RouteKey, route_key, key_eq}
use p2p_channel.RouteTable.{
  Store, Tables, leave_old, leave_removed, join_route, add_route, remove_route,
}
use p2p_channel.RouteTable.Members.{members, is_stale, stale-join_route}
use p2p_channel.RouteTable.Linked.{
  IsLinked, stale-leave_old, distinct-leave_old, distinct-join_route, add_route-IsLinked,
}
use p2p_channel.RouteTable.Run.{stale-leave_removed, distinct-leave_removed, remove_route-IsLinked}
use p2p_channel.RouteTable.Shape.{
  SameShape, SameKeys, SameShape-refl, SameShape-join_route, SameShape-leave_old,
  SameShape-leave_removed, IsLinked-same,
}
use p2p_channel.RouteTable.Threads.Watched.{
  IsPresent, watch-IsPresent, out-leave_old, out-leave_removed, out-join_route,
}
use p2p_channel.RouteTable.Threads.{
  Stage, free, inserted, left, taken, done, System, is_out, watch, with_times, with_routes,
}

module _ {ID : Type 0} ⦃e : Eq ID⦄ (S : Store ID) where
  -- What the holder of the lock still has to do to the times.
  abbrev pub finish : Stage ID → S.times_api.Map → S.times_api.Map
  finish free times = times
  finish (inserted id key old) times = join_route S (pos 0) id key (leave_old S id key old times)
  finish (left id key) times = join_route S (pos 0) id key times
  finish (taken id old) times = leave_removed S id old times
  finish done times = times

  abbrev pub finished : Stage ID → Tables S → Tables S
  finished stage t = record t { times = finish stage t.times }

  pub record Inv (s : System S) : Type 0 where
    pub linked : IsLinked S (finished s.stage s.tables)
    pub occupied : (k : RouteKey) → is_stale S (S.times_api.get s.tables.times k) ≡ false
    pub once : (k : RouteKey) → distinct (members S s.tables.times k) ≡ true
    pub present : IsPresent S s.tables.times s.watched

  pub SameShape-finish :
      (stage : Stage ID) (a b : S.times_api.Map)
      → SameShape S a b
      → SameShape S (finish stage a) (finish stage b)
  SameShape-finish free a b h = h
  SameShape-finish (inserted id key old) a b h =
      SameShape-join_route S (pos 0) (pos 0) id key _ _ (SameShape-leave_old S id key old a b h)
  SameShape-finish (left id key) a b h = SameShape-join_route S (pos 0) (pos 0) id key a b h
  SameShape-finish (taken id old) a b h = SameShape-leave_removed S id old a b h
  SameShape-finish done a b h = h

  module _ (s : System S) (h : Inv s) where
    -- At its stage the holder will leave linked tables.
    pub at_stage : {stage : Stage ID} → s.stage ≡ stage → IsLinked S (finished stage s.tables)
    at_stage q = subst (λ stage. IsLinked S (finished stage s.tables)) q h.linked

    -- A step that leaves the routes and the peers on each route.
    pub touched :
        (t : Tables S)
        → SameKeys S s.tables.routes t.routes
        → SameShape S s.tables.times t.times
        → ((k : RouteKey)
            → is_out S (S.times_api.get t.times k) ≡ is_out S (S.times_api.get s.tables.times k))
        → Inv (record s { tables = t })
    touched t keys shape outs = record {
      linked =
          IsLinked-same S (finished s.stage s.tables) (finished s.stage t) keys
            (SameShape-finish s.stage s.tables.times t.times shape) h.linked;
      occupied = λ k. sym (shape.stale k) ∙ h.occupied k;
      once = λ k. rw (← shape.peers k) (h.once k);
      present = still s.watched h.present;
    }
      where
        still :
            (w : Option (RouteKey × Option (List ID)))
            → IsPresent S s.tables.times w
            → IsPresent S t.times w
        still none p = tt
        still (some (key, none)) p = outs key ∙ p
        still (some (key, some ids)) p = p

    pub add_leave-Inv :
        (id : ID) (key : RouteKey) (old : Option Route)
        → s.stage ≡ inserted id key old
        → Inv (with_times S id (leave_old S id key old s.tables.times) (left id key) s)
    add_leave-Inv id key old q = record {
      linked = at_stage q;
      occupied = λ k. stale-leave_old S id key old s.tables.times k (h.occupied k);
      once = λ k. distinct-leave_old S id key old s.tables.times k (h.once k);
      present =
          watch-IsPresent S id s.tables.times _ s.watched (out-leave_old S id key old s.tables.times)
            h.present;
    }

    pub add_join-Inv :
        (now : ℤ) (id : ID) (key : RouteKey)
        → s.stage ≡ left id key
        → Inv (record s {
            tables = record s.tables { times = join_route S now id key s.tables.times };
            stage = done;
          })
    add_join-Inv now id key q = record {
      linked =
          IsLinked-same S (finished (left id key) s.tables)
            (record s.tables { times = join_route S now id key s.tables.times }) (λ j k. refl)
            (SameShape-join_route S (pos 0) now id key s.tables.times s.tables.times
              (SameShape-refl S s.tables.times))
            (at_stage q);
      occupied = λ k. ground (arith, stale-join_route S now id key s.tables.times k, h.occupied k);
      once = λ k. distinct-join_route S now id key s.tables.times k (h.once k);
      present = joined s.watched h.present;
    }
      where
        joined :
            (w : Option (RouteKey × Option (List ID)))
            → IsPresent S s.tables.times w
            → IsPresent S (join_route S now id key s.tables.times) w
        joined none p = tt
        joined (some (k, none)) p = out-join_route S now id key s.tables.times k p
        joined (some (k, some ids)) p = p

    pub remove_leave-Inv :
        (id : ID) (old : Option Route)
        → s.stage ≡ taken id old
        → Inv (with_times S id (leave_removed S id old s.tables.times) done s)
    remove_leave-Inv id old q = record {
      linked = at_stage q;
      occupied = λ k. stale-leave_removed S id old s.tables.times k (h.occupied k);
      once = λ k. distinct-leave_removed S id old s.tables.times k (h.once k);
      present =
          watch-IsPresent S id s.tables.times _ s.watched
            (out-leave_removed S id old s.tables.times) h.present;
    }

    pub add_insert-Inv :
        (id : ID) (r : Route)
        → s.stage ≡ free
        → Inv (
            with_routes S
              (S.routes_api.insert s.tables.routes id r).1
              (inserted id (route_key r) (S.routes_api.insert s.tables.routes id r).0)
              s)
    unfolding add_route
    add_insert-Inv id r q = record {
      linked =
          IsLinked-same S (add_route S (pos 0) id r s.tables) _ (λ j k. refl) (SameShape-refl S _)
            (add_route-IsLinked S (pos 0) id r s.tables (at_stage q));
      occupied = h.occupied;
      once = h.once;
      present = h.present;
    }

    pub remove_take-Inv :
        (id : ID)
        → s.stage ≡ free
        → Inv (
            with_routes S
              (S.routes_api.remove s.tables.routes id).1
              (taken id (S.routes_api.remove s.tables.routes id).0)
              s)
    unfolding remove_route
    remove_take-Inv id q = record {
      linked = remove_route-IsLinked S id s.tables (at_stage q);
      occupied = h.occupied;
      once = h.once;
      present = h.present;
    }
