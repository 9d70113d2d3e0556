-- ===== src/RouteTable/Threads/Atomic.antt =====
-- What the threads make of the tables, in whatever order their steps come, is what some sequence
-- of whole operations makes.
use mathlib.Core.Path.{subst}
use mathlib.Core.Option
use p2p_channel.Base.{
  ℕ, ◌≡◌, ◌∙◌, refl, sym, ap, List, [], ◌∷◌, ◌++◌, arith, Eq, ◌==◌, if◌then◌else◌, Option-cases,
  inl, inr,
}
use p2p_channel.Base.Int.{ℤ, pos}
use p2p_channel.Route.{Route, RouteKey, route_key, key_eq}
use p2p_channel.RouteTable.{
  Store, Tables, add_route, remove_route, update_route, leave_old, leave_removed, update_time,
  update_write_time, empty_tables, Op, add, update, remove, run, apply,
}
use p2p_channel.RouteTable.Shape.{
  SameShape, SameShape-refl, SameShape-join_route, SameShape-leave_old, SameShape-leave_removed,
  SameShape-update_time, SameShape-update_write_time,
}
use p2p_channel.RouteTable.Threads.{
  Stage, free, inserted, left, taken, done, System, Step, add_insert, add_leave, add_join,
  remove_take, remove_leave, unlock, unpark, read, write, meet, start, Reach, here, next,
}
use p2p_channel.RouteTable.Threads
use p2p_channel.RouteTable.Threads.Invariant.{finished, SameShape-finish}

module _ {ID : Type 0} ⦃e : Eq ID⦄ (S : Store ID) where
  -- The same route for each peer, and the same peers on each route.
  pub record SameView (t u : Tables S) : Type 0 where
    pub routes : (id : ID) → S.routes_api.get t.routes id ≡ S.routes_api.get u.routes id
    pub shape : SameShape S t.times u.times

  SameView-trans : (t u v : Tables S) → SameView t u → SameView u v → SameView t v
  SameView-trans t u v h k = record {
    routes = λ id. h.routes id ∙ k.routes id;
    shape = record {
      peers = λ key. h.shape.peers key ∙ k.shape.peers key;
      stale = λ key. h.shape.stale key ∙ k.shape.stale key;
    };
  }

  SameView-add_route :
      (now now' : ℤ) (id : ID) (r : Route) (t u : Tables S)
      → SameView t u
      → SameView (add_route S now id r t) (add_route S now' id r u)
  unfolding add_route
  SameView-add_route now now' id r t u h = record {
    routes = λ j. ground (
      arith,
      S.routes_api.get-insert t.routes id r j,
      S.routes_api.get-insert u.routes id r j,
      h.routes j,
    );
    shape =
        let key = route_key r in
        let same =
          S.routes_api.insert_old t.routes id r
          ∙ h.routes id
          ∙ sym (S.routes_api.insert_old u.routes id r) in
        SameShape-join_route S now now' id key _ _ (
          subst
            (λ old.
              SameShape S (leave_old S id key (S.routes_api.insert t.routes id r).0 t.times)
                (leave_old S id key old u.times))
            same
            (SameShape-leave_old S id key (S.routes_api.insert t.routes id r).0 t.times u.times
              h.shape));
  }

  SameView-remove_route :
      (id : ID) (t u : Tables S)
      → SameView t u
      → SameView (remove_route S id t) (remove_route S id u)
  unfolding remove_route
  SameView-remove_route id t u h = record {
    routes = λ j. ground (
      arith,
      S.routes_api.get-remove t.routes id j,
      S.routes_api.get-remove u.routes id j,
      h.routes j,
    );
    shape =
        let same =
          S.routes_api.remove_old t.routes id
          ∙ h.routes id
          ∙ sym (S.routes_api.remove_old u.routes id) in
        subst
          (λ old.
            SameShape S (leave_removed S id (S.routes_api.remove t.routes id).0 t.times)
              (leave_removed S id old u.times))
          same
          (SameShape-leave_removed S id (S.routes_api.remove t.routes id).0 t.times u.times
            h.shape);
  }

  SameView-update_route :
      (id : ID) (metric : ℕ) (rt : ℤ) (t u : Tables S)
      → SameView t u
      → SameView (update_route S id metric rt t) (update_route S id metric rt u)
  unfolding update_route
  SameView-update_route id metric rt t u h = record {
    routes = λ j.
        let f : Route → Route = λ v. record v { metric = metric; rt = rt } in
        S.routes_api.get-modify t.routes id f j
        ∙ ap (λ o. if id == j then Option.map f o else o) (h.routes j)
        ∙ sym (S.routes_api.get-modify u.routes id f j);
    shape = h.shape;
  }

  routes-update_time :
      (now : ℤ) (key : RouteKey) (t : Tables S) → (update_time S now key t).routes ≡ t.routes
  unfolding update_time
  routes-update_time now key t = elim (Option-cases (S.times_api.get t.times key)) [
    | inl q ↦ rw (q, update_time)
    | inr (v, q) ↦ rw (q, update_time)
  ]

  routes-update_write_time :
      (now : ℤ) (key : RouteKey) (t : Tables S) → (update_write_time S now key t).routes ≡ t.routes
  unfolding update_write_time
  routes-update_write_time now key t = elim (Option-cases (S.times_api.get t.times key)) [
    | inl q ↦ rw (q, update_write_time)
    | inr (v, q) ↦ rw (q, update_write_time)
  ]

  run-append :
      (os more : List (Op ID)) (t : Tables S) → run S (os ++ more) t ≡ run S more (run S os t)
  unfolding run
  run-append [] more t = refl
  run-append (o ∷ os) more t = run-append os more (apply S o t)

  -- The operations that have begun, in the order of their first steps. An operation on a timestamp
  -- is left out, and the time of an `add_route` is not looked at.
  abbrev pub after : {s t : System S} → Step S s t → List (Op ID) → List (Op ID)
  after (add_insert id r q) os = os ++ add (pos 0) id r ∷ []
  after (remove_take id q) os = os ++ remove id ∷ []
  after (Threads.update id metric rt) os = os ++ update id metric rt ∷ []
  after (add_leave id key old q) os = os
  after (add_join now id key q) os = os
  after (remove_leave id old q) os = os
  after (unlock q) os = os
  after unpark os = os
  after (read now key) os = os
  after (write now key) os = os
  after (meet key v q) os = os

  abbrev pub history : {parker : S.Parker} {s : System S} → Reach S parker s → List (Op ID)
  history here = []
  history (next r st) = after st (history r)

  module _ (parker : S.Parker) where
    -- The whole operations, one after the other, come to such tables.
    abbrev pub AreMadeBy : List (Op ID) → Tables S → Type 0
    AreMadeBy os t = SameView (run S os (empty_tables S parker)) t

    silent : (os : List (Op ID)) (t u : Tables S) → SameView t u → AreMadeBy os t → AreMadeBy os u
    silent os t u h view = SameView-trans (run S os (empty_tables S parker)) t u view h

    -- One more operation.
    one_more :
        (o : Op ID) (os : List (Op ID)) (u : Tables S)
        → SameView (apply S o (run S os (empty_tables S parker))) u
        → AreMadeBy (os ++ o ∷ []) u
    unfolding run
    one_more o os u h =
        subst (λ t. SameView t u) (sym (run-append os (o ∷ []) (empty_tables S parker))) h

    same_times :
        (t : Tables S) (times : S.times_api.Map)
        → SameShape S t.times times
        → SameView t (record t { times = times })
    same_times t times h = record { routes = λ id. refl; shape = h }

    at_stage :
        (os : List (Op ID)) (s : System S) {stage : Stage ID}
        → s.stage ≡ stage
        → AreMadeBy os (finished S s.stage s.tables)
        → AreMadeBy os (finished S stage s.tables)
    at_stage os s q = subst (λ stage. AreMadeBy os (finished S stage s.tables)) q

    Step-AreMadeBy :
        {s t : System S} (os : List (Op ID))
        → AreMadeBy os (finished S s.stage s.tables)
        → (st : Step S s t) → AreMadeBy (after st os) (finished S t.stage t.tables)
    unfolding apply add_route remove_route update_route
    Step-AreMadeBy {s} os m (add_insert id r q) =
        let view = at_stage os s q m in
        one_more (add (pos 0) id r) os _ (
          SameView-trans _ (add_route S (pos 0) id r s.tables) _
            (SameView-add_route (pos 0) (pos 0) id r (run S os (empty_tables S parker)) s.tables
              view)
            (record { routes = λ j. refl; shape = SameShape-refl S _ }))
    Step-AreMadeBy {s} os m (add_leave id key old q) = at_stage os s q m
    Step-AreMadeBy {s} os m (add_join now id key q) =
        silent os (finished S (left id key) s.tables) _
          (same_times (finished S (left id key) s.tables) _ (
            SameShape-join_route S (pos 0) now id key s.tables.times s.tables.times
              (SameShape-refl S s.tables.times)))
          (at_stage os s q m)
    Step-AreMadeBy {s} os m (remove_take id q) =
        let view = at_stage os s q m in
        one_more (remove id) os _
          (SameView-remove_route id (run S os (empty_tables S parker)) s.tables view)
    Step-AreMadeBy {s} os m (remove_leave id old q) = at_stage os s q m
    Step-AreMadeBy {s} os m (unlock q) = at_stage os s q m
    Step-AreMadeBy {s} os m unpark =
        silent os (finished S s.stage s.tables) _
          (record { routes = λ id. refl; shape = SameShape-refl S _ }) m
    Step-AreMadeBy {s} os view (Threads.update id metric rt) = one_more (update id metric rt) os _ (
        SameView-update_route id metric rt (run S os (empty_tables S parker))
          (finished S s.stage s.tables) view)
    Step-AreMadeBy {s} os m (read now key) =
        silent os (finished S s.stage s.tables) _
          (record {
            routes = λ id.
                ap (λ routes. S.routes_api.get routes id)
                  (sym (routes-update_time now key s.tables));
            shape =
                SameShape-finish S s.stage s.tables.times _
                  (SameShape-update_time S now key s.tables);
          })
          m
    Step-AreMadeBy {s} os m (write now key) =
        silent os (finished S s.stage s.tables) _
          (record {
            routes = λ id.
                ap (λ routes. S.routes_api.get routes id)
                  (sym (routes-update_write_time now key s.tables));
            shape =
                SameShape-finish S s.stage s.tables.times _
                  (SameShape-update_write_time S now key s.tables);
          })
          m
    Step-AreMadeBy {s} os m (meet key v q) = m

    -- Let any number of threads make their steps on tables that begin empty, in any order. At each
    -- moment, the calls of add_route, update_route and remove_route that have begun, made whole and
    -- one after the other in the order of their first steps, leave each peer the same route, and
    -- each route the same peers in the same order, as the tables that are there once the holder of
    -- the lock has finished; these are the tables that are there where the lock is free.
    pub Reach-AreMadeBy :
        {s : System S} (r : Reach S parker s) → AreMadeBy (history r) (finished S s.stage s.tables)
    unfolding run
    Reach-AreMadeBy here = record { routes = λ id. refl; shape = SameShape-refl S _ }
    Reach-AreMadeBy (next r st) = Step-AreMadeBy (history r) (Reach-AreMadeBy r) st
