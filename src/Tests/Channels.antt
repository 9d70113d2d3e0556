-- ===== src/Tests/Channels.antt =====
-- Channels: a reactor whose copies of a socket have its number and 100.
use p2p_channel.Channel.Registry.{Act, clones, drops, acts}
use p2p_channel.Channel.Leak.{has_waker, try_clone_leaks}
use p2p_channel.Base.{ℕ, ◌+◌, ◌≡◌, refl, true, List, [], ◌∷◌, number_eq, ok, err, new_error, other}
use p2p_channel.Base.Int.{pos}
use p2p_channel.Route.{Status}
use p2p_channel.Os.{World, WorldOf}
use p2p_channel.Reactor.{Reactor, Laws}
use p2p_channel.Punch.{NatType}
use p2p_channel.Channel.{
  Channel, Group, close, change, bind_each, bind_one, clone_each, clone_one, deregister_all,
}
use p2p_channel.Channel.Sockets.{Renewed, change_symmetric}
use p2p_channel.Channel.Nat.{set_type, commands, AnswersClosed, close_final}
use p2p_channel.Sender.{Sender}
use p2p_channel.Sender
use p2p_channel.Channel.{try_clone}
use p2p_channel.Channel.Race.{late_cone}
use p2p_channel.Tests.Samples.{os, world, addr_a, Kernel}

abbrev pub reactor : Reactor os
reactor = record {
  Poll = ℕ;
  Waker = ℕ;
  bind_any = λ w. (ok 7, w);
  set_nonblocking = λ s w. (ok tt, w);
  try_clone = λ s w. (ok (s + 100), w);
  from_std = λ s. s;
  poll_new = λ w. (ok 1, w);
  waker_new = λ p n w. (ok 2, w);
  register = λ p s n w. (ok tt, w);
  deregister = λ p s w. (ok tt, w);
  wake = λ k w. (ok tt, w);
  recv_from = λ s w. (ok ([], addr_a), w);
  poll = λ p t w. (ok [], w);
  now_ms = λ w. pos 0;
}

pub copied : (s c : ℕ) (w w' : WorldOf os) → reactor.try_clone s w ≡ (ok c, w') → c ≡ s + 100
copied s c w w' h = cc

abbrev pub laws : Laws reactor
laws = record { Alias = λ s c. c ≡ s + 100; clone_alias = copied; wake_keeps = λ k w. refl }

abbrev symmetric_world : World ℕ Kernel
symmetric_world = record world { status = Status.symmetric }

abbrev empty_world : World ℕ Kernel
empty_world = record symmetric_world { share_info = [] }

-- Three sockets are made, and copied in order.
three_sockets : (change reactor [] 1 3 empty_world).1 ≡ 107 ∷ 107 ∷ 107 ∷ []
unfolding change bind_each bind_one clone_each clone_one deregister_all
three_sockets = refl

change_symmetric_example : Renewed reactor laws 3 [] (change reactor (5 ∷ []) 1 3 empty_world)
change_symmetric_example =
    change_symmetric reactor laws (5 ∷ []) 1 3 empty_world refl
      (unfold change bind_each bind_one clone_each clone_one deregister_all in refl)

abbrev pub group : Group reactor
group = record { flag_gen = 3; wakers = (0, 2) ∷ (1, 2) ∷ [] }

close_final_example :
    AnswersClosed reactor
      (commands reactor ((set_type NatType.symmetric, group) ∷ []) (close reactor group world).1)
close_final_example =
    close_final reactor laws group ((set_type NatType.symmetric, group) ∷ []) world

abbrev pub channel : Channel reactor
channel = record {
  channel_flag = 0;
  src_default_udp = 9;
  default_udp = 109;
  udp_list = [];
  poll = 1;
  size = 3;
}

abbrev pub closed_world : World ℕ Kernel
closed_world = record world { status = Status.close }

abbrev sender : Sender os
sender = record { src_default_udp = 9 }

abbrev late_world : World ℕ Kernel
late_world = late_cone reactor [] 1 3 [] 2 3 empty_world

-- The call fails, and another channel is dropped and cloned after it.
abbrev later : List (Act reactor)
later = drops channel ∷ clones channel world ∷ []

try_clone_leaks_example :
    ((try_clone reactor channel group closed_world).0 ≡ err (new_error other "channel close"))
    × (has_waker reactor 3
          (acts reactor later (0 ∷ [], (try_clone reactor channel group closed_world).1)).1
        ≡ true)
try_clone_leaks_example =
    try_clone_leaks reactor channel group closed_world closed_world _ (0 ∷ []) later refl refl refl
