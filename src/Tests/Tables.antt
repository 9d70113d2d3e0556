-- ===== src/Tests/Tables.antt =====
-- The route tables.
use p2p_channel.Base.{◌≡◌, refl, some, number_eq}
use p2p_channel.Base.Int.{pos}
use p2p_channel.Route.{key_beq, key_eq}
use p2p_channel.RouteTable.{
  Tables, route, route_to_id, add_route, empty_tables, run, apply, remove_id_route, leave_old,
  join_route, update_route, leave_removed, remove_route, update_time, update_write_time,
}
use p2p_channel.RouteTable.Linked.{IsLinked}
use p2p_channel.RouteTable.Run.{run-IsLinked}
use p2p_channel.RouteTable.Lookup.{route-run}
use p2p_channel.Tests.Samples.{store, moves, route_b, key_a, key_b}

moved : Tables store
moved = run store moves (empty_tables store 0)

first_on_a : route_to_id store key_a moved ≡ some 2
unfolding moved run apply route_to_id add_route remove_id_route leave_old join_route update_route
    leave_removed remove_route update_time update_write_time empty_tables key_beq
first_on_a = refl

first_on_b : route_to_id store key_b moved ≡ some 1
unfolding moved run apply route_to_id add_route remove_id_route leave_old join_route update_route
    leave_removed remove_route update_time update_write_time empty_tables key_beq
first_on_b = refl

run-IsLinked_example : IsLinked store (run store moves (empty_tables store 0))
run-IsLinked_example = run-IsLinked store moves 0

route-run_example :
    route store 1 (run store moves (empty_tables store 0))
    ≡ some (record route_b { metric = 7; rt = pos 30 })
route-run_example = route-run store moves 0 1
