-- ===== src/Peer/Shutdown.antt =====
-- The end of the example peer, examples/peer.rs, lines 145 to 147, 178 to 219 and 278 to 288: the
-- steps that its threads make after `chanel3.close()` has succeeded and `chanel3` is dropped.
-- Each thread holds a clone of the channel, and so the senders of the two queues of punches, or a
-- punch, and so their receivers; `receive_thr` holds the sender `tx` of the addresses that the
-- server has told.
pub mod Weight
pub mod Ends
use p2p_channel.Base.{
  ℕ, suc, ◌+◌, ◌≡◌, ◌⊎◌, Bool, true, false, ◌||◌, not, List, [], ◌∷◌, ◌++◌, length, is_empty,
  Result, ok, err,
}
use p2p_channel.Net.{IpAddr}
use p2p_channel.Punch.{NatType, NatInfo}
use p2p_channel.Queues.{QueueApi, Queues}
use p2p_channel.Queues
use p2p_channel.Peer.Threads.{nat_info}

-- The threads that `main` joins.
pub data Thread : Type 0 where
  idle_thr punch_cone_thr puch_sym_thr receive_thr recev_punch_thr report_and_heart_thr : Thread

-- The thread that starts those that trigger punches: it waits for an address, it joins them, or
-- it has ended.
pub data Starter : Type 0 where
  waits joins ended : Starter

-- A thread that triggers the punches of one peer, and the NAT type of the next call of `punch`.
pub record Trigger (ID : Type 0) : Type 0 where
  pub id : ID
  pub ip : IpAddr
  pub port : ℕ
  pub nat_type : NatType

abbrev pub other_type : NatType → NatType
other_type NatType.cone = NatType.symmetric
other_type NatType.symmetric = NatType.cone

-- What is left of the thread after a call of `punch`: it goes on with the other type, or breaks.
abbrev pub go_on : {ID : Type 0} → Trigger ID → Result (Unit {0}) → List (Trigger ID)
go_on t (ok done) = record t { nat_type = other_type t.nat_type } ∷ []
go_on t (err x) = []

abbrev pub is_running : Starter → Bool
is_running ended = false
is_running _ = true

module _ {ID : Type 0} (Q : QueueApi (ID × NatInfo)) where
  -- Which threads run; `datagrams` is the number of those that still come in, `pending` of the
  -- addresses that wait in `rx`, and `routes` of the peers that have a route; `to_join` is what
  -- `main` has still to join.
  pub record Ending : Type 0 where
    pub idle : Bool
    pub heart : Bool
    pub receive : Bool
    pub cone : Bool
    pub symmetric : Bool
    pub starter : Starter
    pub triggers : List (Trigger ID)
    pub queues : Queues Q
    pub datagrams : ℕ
    pub pending : ℕ
    pub routes : ℕ
    pub to_join : List Thread

  abbrev pub has_ended : Thread → Ending → Bool
  has_ended idle_thr s = not s.idle
  has_ended punch_cone_thr s = not s.cone
  has_ended puch_sym_thr s = not s.symmetric
  has_ended receive_thr s = not s.receive
  has_ended recev_punch_thr s = not (is_running s.starter)
  has_ended report_and_heart_thr s = not s.heart

  -- Some thread still has a clone of the channel, and so a sender of each queue.
  abbrev pub has_channel : Ending → Bool
  has_channel s =
      s.idle || s.heart || s.receive || is_running s.starter || not (is_empty s.triggers)

  -- `recv` returns: something waits, or no sender is left.
  abbrev pub can_recv : Q.Queue → Ending → Bool
  can_recv q s = not (is_empty (Q.items q)) || not (has_channel s)

  -- The call of `Channel::punch` that the thread makes next.
  abbrev pub trigger_next : Trigger ID → Queues Q → Result (Unit {0}) × Queues Q
  trigger_next t = Queues.punch Q t.id (nat_info Q t.id t.ip t.port t.nat_type)

  pub data Step (s : Ending) : Ending → Type 0 where
    -- A datagram adds a route, tells an address, or does neither.
    hears_peer :
        {n : ℕ}
        → s.receive ≡ true
        → s.datagrams ≡ suc n
        → Step s (record s { datagrams = n; routes = s.routes + 1 })
    hears_server :
        {n : ℕ}
        → s.receive ≡ true
        → s.datagrams ≡ suc n
        → Step s (record s { datagrams = n; pending = s.pending + 1 })
    hears : {n : ℕ} → s.receive ≡ true → s.datagrams ≡ suc n → Step s (record s { datagrams = n })
    -- `recv_from` fails, as the channel is closed, or the thread panics.
    receive_ends : s.receive ≡ true → Step s (record s { receive = false })
    -- `next_idle` finds a route.
    idle_removes : {n : ℕ} → s.idle ≡ true → s.routes ≡ suc n → Step s (record s { routes = n })
    -- `next_idle` fails, as the channel is closed, or the thread panics.
    idle_ends : s.idle ≡ true → Step s (record s { idle = false })
    -- `send_to_addr` fails, as the channel is closed.
    heart_ends : s.heart ≡ true → Step s (record s { heart = false })
    -- `next_cone` fails, or it returns a peer and `punch` fails, as the channel is closed.
    cone_ends :
        s.cone ≡ true
        → can_recv s.queues.cone s ≡ true
        → Step s (record s {
          cone = false;
          queues = record s.queues { cone = (Q.recv s.queues.cone).1 };
        })
    symmetric_ends :
        s.symmetric ≡ true
        → can_recv s.queues.symmetric s ≡ true
        → Step s (record s {
          symmetric = false;
          queues = record s.queues { symmetric = (Q.recv s.queues.symmetric).1 };
        })
    -- `rx.recv()` returns an address: a thread is started, or `try_clone().unwrap()` panics.
    spawns :
        {n : ℕ} (t : Trigger ID)
        → s.starter ≡ waits
        → s.pending ≡ suc n
        → Step s (record s { pending = n; triggers = s.triggers ++ t ∷ [] })
    panics :
        {n : ℕ}
        → s.starter ≡ waits
        → s.pending ≡ suc n
        → Step s (record s { pending = n; starter = ended })
    -- `rx.recv()` fails: `tx` is dropped, and no address waits.
    stops_waiting :
        s.starter ≡ waits
        → s.pending ≡ 0
        → s.receive ≡ false
        → Step s (record s { starter = joins })
    starter_ends : s.starter ≡ joins → s.triggers ≡ [] → Step s (record s { starter = ended })
    triggers_punch :
        (before after : List (Trigger ID)) (t : Trigger ID)
        → s.triggers ≡ before ++ t ∷ after
        → Step s (record s {
          triggers = before ++ go_on t (trigger_next t s.queues).0 ++ after;
          queues = (trigger_next t s.queues).1;
        })
    -- `main` joins the next thread.
    joins_thread :
        (thread : Thread) (threads : List Thread)
        → s.to_join ≡ thread ∷ threads
        → has_ended thread s ≡ true
        → Step s (record s { to_join = threads })

  -- So many steps.
  pub data Run (s : Ending) : ℕ → Ending → Type 0 where
    here : Run s 0 s
    next : {n : ℕ} {t u : Ending} → Run s n t → Step t u → Run s (n + 1) u
