-- ===== src/Tests/Threading.antt =====
-- The threads of the example peer.
use mathlib.Core.Option
use p2p_channel.Channel.{close, try_clone, change, deregister_all}
use p2p_channel.Boot.Copies.{try_clone_punch}
use p2p_channel.Peer.Clones.{flags_of, main_clones}
use p2p_channel.Tests.Channels.{group}
use p2p_channel.Idle.{Round}
use p2p_channel.Route.{Status}
use p2p_channel.Tests.Channels.{reactor, channel}
use p2p_channel.Base.{ℕ, ◌≡◌, refl, none, some, [], ◌∷◌, number_eq, ok}
use p2p_channel.Route.{key_eq}
use p2p_channel.Peer.Threads.{IdleTurn, PunchTurn, confirmed}
use p2p_channel.Tests.Samples.{os, world, store, same}
use p2p_channel.Tests.Idling.{early, late}
use p2p_channel.Tests.Punching.{nat, punch_state}
use p2p_channel.Server.{fill}

abbrev turn : IdleTurn store
turn = record { rounds = early ∷ late ∷ []; meanwhile = λ t. t }

abbrev punch_turn : PunchTurn os ℕ
punch_turn = record { next = ok (1, nat); meanwhile = λ w. w; shuffle = same }

-- The answer of the server to a report, and another one.
confirmed_run : confirmed (ok (252 ∷ [])) (0 ∷ 0 ∷ []) ≡ some (252 ∷ 0 ∷ [])
unfolding confirmed fill
confirmed_run = refl

unconfirmed_run : confirmed (ok (252 ∷ 1 ∷ [])) (0 ∷ 0 ∷ []) ≡ none
unfolding confirmed fill
unconfirmed_run = refl

-- The route has been quiet for six seconds of nine.
abbrev last_round : Round store
last_round = record early { status_after = Status.close }

-- The clones have the next flags; the channel has the flag 0.
clones_run :
    Option.map
      (λ out. flags_of reactor channel out.0)
      (main_clones reactor same channel punch_state group world)
    ≡ some (5 ∷ 4 ∷ 3 ∷ 0 ∷ [])
unfolding main_clones try_clone try_clone_punch change deregister_all
clones_run = refl
