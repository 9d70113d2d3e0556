-- ===== src/Queues.antt =====
-- The two queues of punches: `Channel::punch` of src/channel/mod.rs, and `next_` of
-- src/punch/mod.rs with its two callers. The channels of crossbeam are a parameter.
pub mod Order
use p2p_channel.Base.{
  ℕ, ◌+◌, ◌≤◌, ◌<◌, ◌≡◌, Option, none, some, List, [], ◌∷◌, ◌++◌, length, Result, ok, err,
  new_error, from_kind, timed_out, other,
}
use p2p_channel.Punch.{NatType, NatInfo}

-- The outcome of `try_send`.
pub data TrySent : Type 0 where
  sent full disconnected : TrySent

-- The outcome of `recv_timeout`.
pub data Recv (A : Type 0) : Type 0 where
  received : A → Recv A
  timeout hung_up : Recv A

abbrev pub sent_item : {A : Type 0} → TrySent → A → List A
sent_item sent a = a ∷ []
sent_item _ a = []

abbrev pub received_item : {A : Type 0} → Recv A → List A
received_item (received a) = a ∷ []
received_item _ = []

abbrev pub some_item : {A : Type 0} → Option A → List A
some_item (some a) = a ∷ []
some_item none = []

-- What is relied on of the bounded channels of crossbeam, for the moments at which their calls
-- take effect: what waits leaves in the order in which it came, each item once, and no more waits
-- than the channel has room for.
pub record QueueApi (A : Type 0) : Type 1 where
  pub Queue : Type 0
  pub items : Queue → List A
  pub room : Queue → ℕ
  pub bounded : ℕ → Queue
  pub try_send : Queue → A → TrySent × Queue
  pub recv : Queue → Option A × Queue
  pub recv_timeout : ℕ → Queue → Recv A × Queue
  pub items-bounded : (n : ℕ) → items (bounded n) ≡ []
  pub room-bounded : (n : ℕ) → room (bounded n) ≡ n
  pub items-try_send :
      (q : Queue) (a : A) → items (try_send q a).1 ≡ items q ++ sent_item (try_send q a).0 a
  pub room-try_send : (q : Queue) (a : A) → room (try_send q a).1 ≡ room q
  pub sent_room : (q : Queue) (a : A) → (try_send q a).0 ≡ sent → length (items q) < room q
  pub items-recv : (q : Queue) → items q ≡ some_item (recv q).0 ++ items (recv q).1
  pub room-recv : (q : Queue) → room (recv q).1 ≡ room q
  pub items-recv_timeout :
      (t : ℕ) (q : Queue)
      → items q ≡ received_item (recv_timeout t q).0 ++ items (recv_timeout t q).1
  pub room-recv_timeout : (t : ℕ) (q : Queue) → room (recv_timeout t q).1 ≡ room q

abbrev pub result_of : TrySent → Result (Unit {0})
result_of sent = ok tt
result_of full = err (new_error other "busy")
result_of disconnected = err (new_error other "closed")

module _ {ID : Type 0} (Q : QueueApi (ID × NatInfo)) where
  pub record Queues : Type 0 where
    pub cone : Q.Queue
    pub symmetric : Q.Queue

  -- The two queues that `Boot::new` makes.
  abbrev pub boot_queues : Queues
  boot_queues = record { cone = Q.bounded 1; symmetric = Q.bounded 1 }

  -- The match on the NAT type, and the outcome of the send.
  abbrev pub send_by_type : NatType → ID × NatInfo → Queues → TrySent × Queues
  send_by_type NatType.symmetric item qs =
      let (outcome, q) = Q.try_send qs.symmetric item in (outcome, record qs { symmetric = q })
  send_by_type NatType.cone item qs =
      let (outcome, q) = Q.try_send qs.cone item in (outcome, record qs { cone = q })

  -- `Channel::punch`.
  unfoldable pub punch : ID → NatInfo → Queues → Result (Unit {0}) × Queues
  punch id nat qs =
      let (outcome, qs') = send_by_type nat.nat_type (id, nat) qs in (result_of outcome, qs')

  abbrev pub on_recv : Option (ID × NatInfo) → Result (ID × NatInfo)
  on_recv (some item) = ok item
  on_recv none = err (new_error other "close")

  abbrev pub on_recv_timeout : Recv (ID × NatInfo) → Result (ID × NatInfo)
  on_recv_timeout (received item) = ok item
  on_recv_timeout timeout = err (from_kind timed_out)
  on_recv_timeout hung_up = err (new_error other "close")

  -- `next_`.
  unfoldable pub next_item : Q.Queue → Option ℕ → Result (ID × NatInfo) × Q.Queue
  next_item q (some t) = let (got, q') = Q.recv_timeout t q in (on_recv_timeout got, q')
  next_item q none = let (got, q') = Q.recv q in (on_recv got, q')

  -- `next_symmetric`.
  unfoldable pub next_symmetric : Option ℕ → Queues → Result (ID × NatInfo) × Queues
  next_symmetric t qs =
      let (got, q) = next_item qs.symmetric t in (got, record qs { symmetric = q })

  -- `next_cone`.
  unfoldable pub next_cone : Option ℕ → Queues → Result (ID × NatInfo) × Queues
  next_cone t qs = let (got, q) = next_item qs.cone t in (got, record qs { cone = q })
