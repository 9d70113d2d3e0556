-- ===== src/Tests/Ending.antt =====
-- The end of the example peer: one thread triggers punches, and a datagram still comes in.
use p2p_channel.Base.{ℕ, true, false, [], ◌∷◌}
use p2p_channel.Net.{v4}
use p2p_channel.Punch.{NatType, cone, symmetric, NatInfo}
use p2p_channel.Queues.{Queues, boot_queues}
use p2p_channel.Queues
use p2p_channel.Peer.Shutdown.{
  idle_thr, punch_cone_thr, puch_sym_thr, receive_thr, recev_punch_thr, report_and_heart_thr, waits,
  ended, Trigger, Ending,
}
use p2p_channel.Peer.Threads.{nat_info}
use p2p_channel.Tests.Queueing.{queue}

abbrev trigger : NatType → Trigger ℕ
trigger nat = record { id = 1; ip = v4 9; port = 4000; nat_type = nat }

abbrev closed : Ending queue
closed = record {
  idle = true;
  heart = true;
  receive = true;
  cone = true;
  symmetric = true;
  starter = waits;
  triggers = trigger cone ∷ [];
  queues = boot_queues queue;
  datagrams = 1;
  pending = 0;
  routes = 0;
  to_join =
      idle_thr ∷ punch_cone_thr ∷ puch_sym_thr ∷ receive_thr ∷ recev_punch_thr
      ∷ report_and_heart_thr ∷ [];
}

abbrev item : NatType → ℕ × NatInfo
item nat = (1, nat_info queue 1 (v4 9) 4000 nat)

-- Both threads that punch have ended, and the next punch finds a full queue.
abbrev busy : Ending queue
busy = record closed {
  cone = false;
  symmetric = false;
  triggers = [];
  queues = record {
    cone = record { size = 1; list = item cone ∷ [] };
    symmetric = record { size = 1; list = item symmetric ∷ [] };
  };
  datagrams = 0;
  routes = 1;
}

abbrev joined : Ending queue
joined = record busy {
  idle = false;
  heart = false;
  receive = false;
  starter = ended;
  routes = 0;
  to_join = [];
}
