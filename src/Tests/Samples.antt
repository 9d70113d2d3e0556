-- ===== src/Tests/Samples.antt =====
-- The inputs of the tests: maps as lists of pairs, and an operating system with a script of the
-- results of its sends and a record of what was sent.
use p2p_channel.Base.{
  ℕ, refl, List, [], ◌∷◌, length, Result, ok, err, from_kind, would_block, number_eq,
}
use p2p_channel.Base.Int.{pos, negsuc}
use p2p_channel.Base.AssocMap.{assoc_map}
use p2p_channel.Net.{SocketAddr, addr_v4}
use p2p_channel.Route.{Route, RouteKey, cone, key_eq}
use p2p_channel.RouteTable.{Entry, Store, Op, add, update, remove, read, write}
use p2p_channel.Os.{Os, World}
use p2p_channel.Ports.{IsShuffle}

abbrev pub store : Store ℕ
store = record {
  routes_api = assoc_map ℕ Route;
  times_api = assoc_map RouteKey (Entry ℕ);
  Parker = ℕ;
  unpark = λ p. 1;
}

abbrev pub addr_a : SocketAddr
addr_a = addr_v4 10 4000

abbrev pub addr_b : SocketAddr
addr_b = addr_v4 11 5000

abbrev pub route_a : Route
route_a = record { index = 100000; addr = addr_a; metric = 10; rt = pos 64 }

abbrev pub route_b : Route
route_b = record { index = 3; addr = addr_b; metric = 1; rt = negsuc 0 }

abbrev pub key_a : RouteKey
key_a = record { index = 100000; addr = addr_a }

abbrev pub key_b : RouteKey
key_b = record { index = 3; addr = addr_b }

-- Peers 1 and 2 come by the first route; peer 1 moves to the second one, and peer 3 goes.
abbrev pub moves : List (Op ℕ)
moves =
    add (pos 5) 1 route_a
    ∷ add (pos 6) 2 route_a
    ∷ add (pos 7) 3 route_b
    ∷ read (pos 8) key_a
    ∷ add (pos 9) 1 route_b
    ∷ update 1 7 (pos 30)
    ∷ write (pos 10) key_b
    ∷ remove 3
    ∷ []

pub record Kernel : Type 0 where
  pub script : List (Result ℕ)
  pub sent : List (ℕ × SocketAddr)

abbrev scripted : List (Result ℕ) → ℕ → Result ℕ
scripted [] n = ok n
scripted (r ∷ rs) n = r

abbrev rest_of : List (Result ℕ) → List (Result ℕ)
rest_of [] = []
rest_of (r ∷ rs) = rs

abbrev pub os : Os
os = record {
  Socket = ℕ;
  Kernel = Kernel;
  send_to = λ udp buf addr w. (
    scripted w.kernel.script (length buf),
    record w {
      kernel = record { script = rest_of w.kernel.script; sent = (udp, addr) ∷ w.kernel.sent };
    },
  );
  yield_now = λ w. w;
  sleep_ms = λ n w. w;
}

abbrev pub world : World ℕ Kernel
world = record {
  status = cone;
  share_info = 20 ∷ 21 ∷ [];
  kernel = record { script = err (from_kind would_block) ∷ []; sent = [] };
}

abbrev pub same : List ℕ → List ℕ
same xs = xs

pub same-IsShuffle : IsShuffle same
same-IsShuffle = record {
  same_length = λ xs. refl;
  same_items = λ xs q. refl;
  same_distinct = λ xs. refl;
}
