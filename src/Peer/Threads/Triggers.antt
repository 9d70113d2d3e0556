-- ===== src/Peer/Threads/Triggers.antt =====
-- The thread that triggers punches ends when its punches are not taken in time.
use p2p_channel.Base.{ℕ, ◌≤◌, Bool, List, ◌∷◌, length}
use p2p_channel.Net.{IpAddr}
use p2p_channel.Punch.{NatInfo}
use p2p_channel.Queues.{QueueApi, Queues}
use p2p_channel.Queues
use p2p_channel.Peer.Threads.{trigger_task}

module _ {ID : Type 0} (Q : QueueApi (ID × NatInfo)) (id : ID) (ip : IpAddr) (port : ℕ) where
  -- There is no room for one more.
  abbrev pub IsFull : Q.Queue → Type 0
  IsFull q = Q.room q ≤ length (Q.items q)

  module _ (meanwhile next : Queues Q → Queues Q) (sleeps : List (Queues Q → Queues Q)) where
    -- What follows the first round, if the sleep leaves the queue as it is.
    abbrev after : Queues Q → Bool × Queues Q
    after qs = trigger_task Q id ip port (next ∷ sleeps) (meanwhile qs)
