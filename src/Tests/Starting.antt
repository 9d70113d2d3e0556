-- ===== src/Tests/Starting.antt =====
-- The start of the parts, and channels that come and go.
use p2p_channel.Base.{refl, List, [], ◌∷◌, arith, number_eq}
use p2p_channel.Base.Int.{pos}
use p2p_channel.Queues.{QueueApi}
use p2p_channel.Channel.{Group}
use p2p_channel.Channel.Registry.{Act, clones, drops, acts, IsRegistered, acts-IsRegistered}
use p2p_channel.Boot.{Booted, boot, new_channel, sender, new_punch}
use p2p_channel.Boot.Start.{IsReady, boot-IsReady}
use p2p_channel.Tests.Samples.{store, world, same, same-IsShuffle}
use p2p_channel.Tests.Channels.{reactor, laws, channel}
use p2p_channel.Tests.Queueing.{queue}

abbrev booted : Booted reactor store queue
booted = record {
  channel = record {
    channel_flag = 0;
    src_default_udp = 7;
    default_udp = 107;
    udp_list = [];
    poll = 1;
    size = 3;
  };
  group = record { flag_gen = 1; wakers = (0, 2) ∷ [] };
  punch = new_punch same (record { src_default_udp = 107 });
  idle = record { read_idle = pos 10; write_idle = pos 20 };
  tables = p2p_channel.RouteTable.empty_tables store 0;
  queues = p2p_channel.Queues.boot_queues queue;
}

boot-IsReady_example : IsReady reactor laws store queue booted
boot-IsReady_example =
    boot-IsReady reactor laws store queue 3 (pos 10) (pos 20) 0 same world
      (record world { share_info = [] }) booted same-IsShuffle
      (unfold boot new_channel sender in refl)

abbrev first_group : Group reactor
first_group = record { flag_gen = 1; wakers = (0, 2) ∷ [] }

first-IsRegistered : IsRegistered reactor (0 ∷ [], first_group)
first-IsRegistered = record {
  live_distinct = refl;
  wakers_distinct = refl;
  has_waker = λ f h. h;
  is_fresh = (omega arith, tt);
}

abbrev some_acts : List (Act reactor)
some_acts = clones channel world ∷ drops channel ∷ clones channel world ∷ []

acts-IsRegistered_example : IsRegistered reactor (acts reactor some_acts (0 ∷ [], first_group))
acts-IsRegistered_example =
    acts-IsRegistered reactor some_acts (0 ∷ [], first_group) (omega arith) first-IsRegistered
