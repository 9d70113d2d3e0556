-- ===== src/Tests/Queueing.antt =====
-- The queues of punches over lists that are never hung up.
use p2p_channel.Base.{
  ℕ, ◌<◌, ◌≤◌, ◌≡◌, refl, sym, ap, ◌∙◌, ltb→lt, Bool, true, false, Option, none, some, List, [],
  ◌∷◌, ◌++◌, length, ltb, if◌then◌else◌,
}
use mathlib.Core.List.{append-nil}
use p2p_channel.Net.{v4}
use p2p_channel.Punch.{NatType, NatInfo}
use p2p_channel.Queues.{
  TrySent, sent, full, Recv, received, timeout, sent_item, received_item, some_item, QueueApi,
  boot_queues, punch, next_item, next_cone, next_symmetric,
}
use p2p_channel.Queues.Order.{Call, put, take, calls, accepted, taken, waiting, punches_in_order}

pub record ListQueue (A : Type 0) : Type 0 where
  pub size : ℕ
  pub list : List A

module _ {A : Type 0} where
  abbrev pub pushed : ListQueue A → A → Bool → TrySent × ListQueue A
  pushed q a b = if b then (sent, record q { list = q.list ++ a ∷ [] }) else (full, q)

  abbrev pub push : ListQueue A → A → TrySent × ListQueue A
  push q a = pushed q a (ltb (length q.list) q.size)

  abbrev pub popped : ListQueue A → List A → Option A × ListQueue A
  popped q [] = (none, q)
  popped q (x ∷ xs) = (some x, record q { list = xs })

  abbrev pub pop : ListQueue A → Option A × ListQueue A
  pop q = popped q q.list

  abbrev pub recv_of : Option A → Recv A
  recv_of none = timeout
  recv_of (some x) = received x

  abbrev pub pop_timed : ℕ → ListQueue A → Recv A × ListQueue A
  pop_timed t q = let (got, q') = pop q in (recv_of got, q')

  pub push_items :
      (q : ListQueue A) (a : A) → (push q a).1.list ≡ q.list ++ sent_item (push q a).0 a
  push_items q a = go (ltb (length q.list) q.size)
    where
      go : (b : Bool) → (pushed q a b).1.list ≡ q.list ++ sent_item (pushed q a b).0 a
      go true = refl
      go false = sym (append-nil q.list)

  pub push_room : (q : ListQueue A) (a : A) → (push q a).1.size ≡ q.size
  push_room q a = go (ltb (length q.list) q.size)
    where
      go : (b : Bool) → (pushed q a b).1.size ≡ q.size
      go true = refl
      go false = refl

  pub push_sent : (q : ListQueue A) (a : A) → (push q a).0 ≡ sent → length q.list < q.size
  push_sent q a h = go (ltb (length q.list) q.size) (ltb→lt (length q.list) q.size) h
    where
      go :
          (b : Bool)
          → (b ≡ true → length q.list < q.size)
          → (pushed q a b).0 ≡ sent
          → length q.list < q.size
      go true less h' = less refl
      go false less h' = cc

  pub pop_items : (q : ListQueue A) → q.list ≡ some_item (pop q).0 ++ (pop q).1.list
  pop_items q = go q.list refl
    where
      go : (xs : List A) → q.list ≡ xs → q.list ≡ some_item (popped q xs).0 ++ (popped q xs).1.list
      go [] h = refl
      go (x ∷ xs) h = h

  pub pop_room : (q : ListQueue A) → (pop q).1.size ≡ q.size
  pop_room q = go q.list
    where
      go : (xs : List A) → (popped q xs).1.size ≡ q.size
      go [] = refl
      go (x ∷ xs) = refl

  pub pop_timed_items :
      (t : ℕ) (q : ListQueue A) → q.list ≡ received_item (pop_timed t q).0 ++ (pop_timed t q).1.list
  pop_timed_items t q = pop_items q ∙ ap (λ xs. xs ++ (pop q).1.list) (go (pop q).0)
    where
      go : (o : Option A) → some_item o ≡ received_item (recv_of o)
      go none = refl
      go (some x) = refl

  abbrev pub list_queue : QueueApi A
  list_queue = record {
    Queue = ListQueue A;
    items = λ q. q.list;
    room = λ q. q.size;
    bounded = λ n. record { size = n; list = [] };
    try_send = push;
    recv = pop;
    recv_timeout = pop_timed;
    items-bounded = λ n. refl;
    room-bounded = λ n. refl;
    items-try_send = push_items;
    room-try_send = push_room;
    sent_room = push_sent;
    items-recv = pop_items;
    room-recv = pop_room;
    items-recv_timeout = pop_timed_items;
    room-recv_timeout = λ t q. pop_room q;
  }

abbrev peer : NatType → NatInfo
peer nat = record {
  public_ips = [];
  public_port = 4000;
  public_port_range = 3;
  local_ip = v4 0;
  local_port = 0;
  nat_type = nat;
}

abbrev pub queue : QueueApi (ℕ × NatInfo)
queue = list_queue

-- The second symmetric peer finds the queue full, the third comes after a receive.
abbrev some_calls : List (Call ℕ)
some_calls =
    put 1 (peer NatType.symmetric)
    ∷ put 2 (peer NatType.cone)
    ∷ put 3 (peer NatType.symmetric)
    ∷ take NatType.symmetric none
    ∷ put 4 (peer NatType.symmetric)
    ∷ take NatType.cone (some 100)
    ∷ []

punches_in_order_example :
    let (evs, qs) = calls queue some_calls (boot_queues queue) in
    (accepted NatType.symmetric evs
      ≡ taken NatType.symmetric evs ++ waiting queue NatType.symmetric qs)
    × (length (waiting queue NatType.symmetric qs) ≤ 1)
punches_in_order_example = punches_in_order queue NatType.symmetric some_calls

one_waits :
    waiting queue NatType.symmetric (calls queue some_calls (boot_queues queue)).1
    ≡ (4, peer NatType.symmetric) ∷ []
unfolding punch next_item next_cone next_symmetric
one_waits = refl
