-- ===== src/Tests/Idling.antt =====
-- The search for idle routes.
use p2p_channel.Base.{ℕ, ◌≡◌, refl, true, none, some, [], ◌∷◌, number_eq, arith, ok}
use p2p_channel.Base.Int.{pos, ◌+ℤ◌}
use p2p_channel.Route.{cone, key_eq}
use p2p_channel.RouteTable.{Entry}
use p2p_channel.Idle.{Idle, read, Round, next_idle, park_timeout, no_wait}
use p2p_channel.Idle.Stale.{is_stale}
use p2p_channel.Idle.First.{next_idle-answer}
use p2p_channel.Idle.Parking.{MeetsOne, next_idle-spins, next_idle_oversleeps}
use p2p_channel.Tests.Samples.{store, key_a}

abbrev pub idle : Idle
idle = record { read_idle = pos 9000; write_idle = pos 0 }

abbrev idle_off : Idle
idle_off = record { read_idle = pos 0; write_idle = pos 0 }

abbrev entry : Entry ℕ
entry = record { ids = 1 ∷ 2 ∷ []; last_read = pos 100000; last_write = pos 5 }

abbrev pub early : Round store
early = record {
  now = pos 106000;
  times = (key_a, entry) ∷ [];
  times_after = (key_a, entry) ∷ [];
  now_after = pos 106000;
  status_after = cone;
}

abbrev pub late : Round store
late = record early { now = pos 112000; now_after = pos 112000 }

next_idle-answer_example :
    (next_idle store idle (early ∷ late ∷ [])).1 ≡ some (ok (read, 1 ∷ 2 ∷ [], key_a))
unfolding is_stale ◌+ℤ◌
next_idle-answer_example =
    next_idle-answer store idle (early ∷ late ∷ []) (omega arith) (omega arith) (omega arith)

next_idle-spins_example :
    next_idle store idle_off (early ∷ late ∷ []) ≡ (no_wait ∷ no_wait ∷ [], none)
next_idle-spins_example =
    next_idle-spins store idle_off (early ∷ late ∷ []) refl refl
      ((refl, omega arith, refl), ((refl, omega arith, refl), tt))

met : MeetsOne store idle key_a entry early 100000 9000 6000
met = record {
  entries = refl;
  filled = refl;
  opened = refl;
  read_limit = refl;
  write_limit = refl;
  read_at = refl;
  asked_at = refl;
  limit_on = omega arith;
  not_idle = (106000, refl, omega arith, omega arith);
  in_time = omega arith;
  not_max = omega arith;
}

next_idle_oversleeps_example :
    (next_idle store idle (early ∷ []) ≡ (park_timeout 6000 ∷ [], none))
    × (is_stale (pos 112000) (pos 9000) (pos 100000) ≡ true)
next_idle_oversleeps_example =
    next_idle_oversleeps store idle key_a entry early 100000 9000 6000 met (omega arith)
      (omega arith)
