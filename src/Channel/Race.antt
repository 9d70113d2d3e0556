-- ===== src/Channel/Race.antt =====
-- A change that has read the status before another one, and takes the lock after it.
use p2p_channel.Base.{ℕ, List}
use p2p_channel.Route.{Status}
use p2p_channel.Os.{Os, WorldOf}
use p2p_channel.Reactor.{Reactor}
use p2p_channel.Sender.{Sender}
use p2p_channel.Sender
use p2p_channel.Channel.{Channel, change_to}

module _ {O : Os} (R : Reactor O) where
  -- The world after a channel has changed to the symmetric NAT, with `size` sockets at most to
  -- make, and another one, which read the status when it was a cone, has then changed to that.
  abbrev pub late_cone :
      List O.Socket → R.Poll → ℕ → List O.Socket → R.Poll → ℕ → WorldOf O → WorldOf O
  late_cone udps poll size late_udps late_poll late_size w =
      (change_to R Status.cone late_udps late_poll late_size
        (change_to R Status.symmetric udps poll size w).2).2
