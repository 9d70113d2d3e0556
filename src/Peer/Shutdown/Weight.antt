-- ===== src/Peer/Shutdown/Weight.antt =====
-- The work that is left after the close, and how each step of the threads lessens it.
use p2p_channel.Base.{
  ℕ, ◌+◌, ◌*◌, ◌-◌, ◌≤◌, ◌<◌, ◌≡◌, refl, ap, Bool, true, false, [], ◌∷◌, ◌++◌, length, arith,
  length-append, Option, none, some,
}
use p2p_channel.Punch.{NatType, NatInfo}
use p2p_channel.Queues.{
  TrySent, sent, full, disconnected, sent_item, some_item, result_of, QueueApi, Queues,
}
use p2p_channel.Queues
use p2p_channel.Peer.Threads.{nat_info}
use p2p_channel.Peer.Shutdown.{
  Starter, waits, joins, ended, Trigger, go_on, Ending, trigger_next, Step, hears_peer,
  hears_server, hears, receive_ends, idle_removes, idle_ends, heart_ends, cone_ends, symmetric_ends,
  spawns, panics, stops_waiting, starter_ends, triggers_punch, joins_thread,
}

abbrev pub bit : Bool → ℕ
bit true = 1
bit false = 0

abbrev pub starter_work : Starter → ℕ
starter_work waits = 2
starter_work joins = 1
starter_work ended = 0

module _ {ID : Type 0} (Q : QueueApi (ID × NatInfo)) where
  -- The room that is left in a queue.
  abbrev pub free : Q.Queue → ℕ
  free q = Q.room q - length (Q.items q)

  -- A peer that is taken out makes room for another one.
  abbrev pub work : Ending Q → ℕ
  work s =
      s.datagrams * 3
      + s.pending * 2
      + s.routes
      + length s.triggers
      + bit s.idle
      + bit s.heart
      + bit s.receive
      + starter_work s.starter
      + bit s.cone * 2
      + bit s.symmetric * 2
      + free s.queues.cone
      + free s.queues.symmetric
      + length s.to_join

  free-recv : (q : Q.Queue) → free (Q.recv q).1 ≤ free q + 1
  free-recv q = go (Q.recv q) (Q.items-recv q) (Q.room-recv q)
    where
      go :
          (o : Option (ID × NatInfo) × Q.Queue)
          → Q.items q ≡ some_item o.0 ++ Q.items o.1
          → Q.room o.1 ≡ Q.room q
          → free o.1 ≤ free q + 1
      go (none, q') h k = rw (h, k) (omega arith)
      go (some a, q') h k = rw (h, k) (omega arith)

  -- A punch that is taken fills the queue, and after one that is not the thread breaks.
  less_free :
      (q : Q.Queue) (a : ID × NatInfo) (t : Trigger ID)
      → length (go_on t (result_of (Q.try_send q a).0)) + free (Q.try_send q a).1 < 1 + free q
  less_free q a t =
      go (Q.try_send q a) (Q.items-try_send q a) (Q.room-try_send q a) (Q.sent_room q a)
    where
      go :
          (o : TrySent × Q.Queue)
          → Q.items o.1 ≡ Q.items q ++ sent_item o.0 a
          → Q.room o.1 ≡ Q.room q
          → (o.0 ≡ sent → length (Q.items q) < Q.room q)
          → length (go_on t (result_of o.0)) + free o.1 < 1 + free q
      go (sent, q') h k room =
          rw (h, k, length-append (Q.items q) (a ∷ [])) (omega (arith, room refl))
      go (full, q') h k room = rw (h, k, length-append (Q.items q) []) (omega arith)
      go (disconnected, q') h k room = rw (h, k, length-append (Q.items q) []) (omega arith)

  trigger_less :
      (t : Trigger ID) (qs : Queues Q)
      → let (r, qs') = trigger_next Q t qs in
        length (go_on t r) + free qs'.cone + free qs'.symmetric
        < 1 + free qs.cone + free qs.symmetric
  unfolding Queues.punch
  trigger_less t qs = go t.nat_type
    where
      go :
          (ty : NatType)
          → let (r, qs') = Queues.punch Q t.id (nat_info Q t.id t.ip t.port ty) qs in
            length (go_on t r) + free qs'.cone + free qs'.symmetric
            < 1 + free qs.cone + free qs.symmetric
      go NatType.cone =
          omega (arith, less_free qs.cone (t.id, nat_info Q t.id t.ip t.port NatType.cone) t)
      go NatType.symmetric =
          omega
            (arith, less_free qs.symmetric (t.id, nat_info Q t.id t.ip t.port NatType.symmetric) t)

  -- Each step leaves less to do.
  pub Step-work : (s t : Ending Q) → Step Q s t → work t < work s
  Step-work s t (hears_peer up h) = rw h (omega arith)
  Step-work s t (hears_server up h) = rw h (omega arith)
  Step-work s t (hears up h) = rw h (omega arith)
  Step-work s t (receive_ends up) = rw up (omega arith)
  Step-work s t (idle_removes up h) = rw h (omega arith)
  Step-work s t (idle_ends up) = rw up (omega arith)
  Step-work s t (heart_ends up) = rw up (omega arith)
  Step-work s t (cone_ends up h) = rw up (omega (arith, free-recv s.queues.cone))
  Step-work s t (symmetric_ends up h) = rw up (omega (arith, free-recv s.queues.symmetric))
  Step-work s t (spawns trigger up h) =
      rw (h, length-append s.triggers (trigger ∷ [])) (omega arith)
  Step-work s t (panics up h) = rw (up, h) (omega arith)
  Step-work s t (stops_waiting up h k) = rw up (omega arith)
  Step-work s t (starter_ends up h) = rw up (omega arith)
  Step-work s t (triggers_punch before after trigger h) =
      let kept = go_on trigger (trigger_next Q trigger s.queues).0 in
      omega (
        arith,
        ap length h,
        length-append before (trigger ∷ after),
        length-append (before ++ kept) after,
        length-append before kept,
        trigger_less trigger s.queues,
      )
  Step-work s t (joins_thread thread threads h k) = rw h (omega arith)
