-- ===== src/Tests/Locking.antt =====
-- The route tables in the steps of the threads: peer 1 gets a route, the loop of `next_idle` comes
-- to its entry, and before the peers are read the peer's route is removed.
use p2p_channel.Base.{
  ℕ, ◌≡◌, refl, true, false, none, some, [], ◌∷◌, number_eq, contains, distinct, is_empty,
}
use p2p_channel.Base.Int.{pos}
use p2p_channel.Route.{key_beq, key_eq}
use p2p_channel.RouteTable.{
  Entry, add, empty_tables, remove_id_route, leave_old, join_route, leave_removed,
}
use p2p_channel.RouteTable.Members.{members, is_stale}
use p2p_channel.RouteTable.Linked.{is_on}
use p2p_channel.RouteTable.Threads.{
  System, free, left, done, add_insert, add_leave, add_join, remove_take, remove_leave, unlock,
  meet, Reach, here, next, read_ids,
}
use p2p_channel.RouteTable.Threads.Atomic.{AreMadeBy, Reach-AreMadeBy}
use p2p_channel.RouteTable.Threads.Readers.{Reach-agrees, is_empty-read_ids}
use p2p_channel.Tests.Samples.{store, route_a, key_a}

abbrev entry_a : Entry ℕ
entry_a = record { ids = 1 ∷ []; last_read = pos 5; last_write = pos 5 }

-- The route is in the table, and the lock is free.
abbrev joined : System store
joined = record {
  tables = record { routes = (1, route_a) ∷ []; times = (key_a, entry_a) ∷ []; parker = 0 };
  stage = free;
  watched = none;
}

joined-Reach : Reach store 0 joined
unfolding leave_old join_route key_beq empty_tables
joined-Reach =
    next
      (next (next (next here (add_insert 1 route_a refl)) (add_leave 1 key_a none refl))
        (add_join (pos 5) 1 key_a refl))
      (unlock refl)

-- The peer's entry is gone, and the holder of the lock has still to drop it.
abbrev removed : System store
removed = record {
  tables = record { routes = []; times = []; parker = 0 };
  stage = done;
  watched = some (key_a, some []);
}

removed-Reach : Reach store 0 removed
unfolding leave_removed remove_id_route key_beq
removed-Reach =
    next (next (next joined-Reach (meet key_a entry_a refl)) (remove_take 1 refl))
      (remove_leave 1 (some route_a) refl)

is_empty-read_ids_example : is_empty (read_ids store removed (key_a, some [])) ≡ true
is_empty-read_ids_example = is_empty-read_ids store removed-Reach key_a (some []) refl

Reach-agrees_example :
    (contains (members store joined.tables.times key_a) 1
      ≡ is_on (store.routes_api.get joined.tables.routes 1) key_a)
    × (is_stale store (store.times_api.get joined.tables.times key_a) ≡ false)
    × (distinct (members store joined.tables.times key_a) ≡ true)
Reach-agrees_example = Reach-agrees store joined-Reach 1 key_a refl

-- The peer has its route, and is in no list yet.
abbrev begun : System store
begun = record {
  tables = record { routes = (1, route_a) ∷ []; times = []; parker = 0 };
  stage = left 1 key_a;
  watched = none;
}

begun-Reach : Reach store 0 begun
unfolding leave_old empty_tables
begun-Reach = next (next here (add_insert 1 route_a refl)) (add_leave 1 key_a none refl)

Reach-AreMadeBy_example : AreMadeBy store 0 (add (pos 0) 1 route_a ∷ []) (record begun.tables {
  times = (key_a, record entry_a { last_read = pos 0; last_write = pos 0 }) ∷ [];
})
unfolding leave_old join_route key_beq empty_tables begun-Reach
Reach-AreMadeBy_example = Reach-AreMadeBy store 0 begun-Reach
