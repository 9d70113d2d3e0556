-- ===== src/Peer/Threads.antt =====
-- The other threads of the example peer, examples/peer.rs: the one that removes idle routes, the
-- two that punch, the report and the heartbeats to the server, and the one that triggers punches.
-- What other threads do between two steps is an argument. A panic is `none`.
pub mod Idling
pub mod Punches
pub mod Triggers
pub mod Closing
pub mod Receiving
pub mod Linking
use p2p_channel.Base.{
  ℕ, ◌+◌, ◌*◌, ◌^◌, ◌≡◌, Bool, true, false, not, ◌||◌, Option, none, some, List, [], ◌∷◌, head?,
  length, take, nat_beq, if◌then◌else◌, Result, ok, err, Eq,
}
use p2p_channel.Net.{IpAddr, SocketAddr, addr_v4}
use p2p_channel.Route.{RouteKey}
use p2p_channel.RouteTable.{Store, Tables, remove_route}
use p2p_channel.Os.{Os, WorldOf, ◌>>=◌}
use p2p_channel.Reactor.{Reactor}
use p2p_channel.Channel.{Channel, send_to_addr}
use p2p_channel.Idle.{Idle, IdleStatus, Round, next_idle}
use p2p_channel.Ports.{bind}
use p2p_channel.Punch.{NatType, NatInfo, Punch}
use p2p_channel.Punch
use p2p_channel.Queues.{QueueApi, Queues}
use p2p_channel.Queues
use p2p_channel.Server.{starts, fill}
use p2p_channel.Wire.{report_bytes, hello_bytes}

-- The turns that a call of `next_idle` meets, and what the other threads do to the tables before
-- the route is removed.
pub record IdleTurn {ID : Type 0} ⦃e : Eq ID⦄ (S : Store ID) : Type 0 where
  pub rounds : List (Round S)
  pub meanwhile : Tables S → Tables S

module _ {ID : Type 0} ⦃e : Eq ID⦄ (S : Store ID) (idle : Idle) where
  -- `remove_route(&id[0])`.
  abbrev pub remove_first :
      Option ID → Tables S → (Tables S → Option (Tables S)) → Option (Tables S)
  remove_first none t rest = none
  remove_first (some id) t rest = rest (remove_route S id t)

  -- A call that waits on, an error, or an idle route.
  abbrev pub on_idle :
      Option (Result (IdleStatus × List ID × RouteKey))
      → Tables S
      → (Tables S → Option (Tables S))
      → Option (Tables S)
  on_idle none t rest = some t
  on_idle (some (err x)) t rest = some t
  on_idle (some (ok (status, ids, key))) t rest = remove_first (head? ids) t rest

  -- The thread that removes idle routes.
  unfoldable pub idle_task : List (IdleTurn S) → Tables S → Option (Tables S)
  idle_task [] t = some t
  idle_task (turn ∷ turns) t =
      on_idle (next_idle S idle turn.rounds).1 (turn.meanwhile t) (idle_task turns)

-- What `next_cone` or `next_symmetric` returns, what the other threads do until then, and how the
-- ports are shuffled.
pub record PunchTurn (O : Os) (ID : Type 0) : Type 0 where
  pub next : Result (ID × NatInfo)
  pub meanwhile : WorldOf O → WorldOf O
  pub shuffle : List ℕ → List ℕ

-- The turns of a thread that punches.
abbrev pub PunchRun : Os → Type 0 → Type 0
PunchRun O ID = Punch O ID → WorldOf O → Option (Punch O ID × WorldOf O)

module _ (O : Os) {ID : Type 0} ⦃e : Eq ID⦄ (checks : Bool) (my_id : ℕ) where
  -- The result of `punch`: go on, or end the thread.
  abbrev pub on_punch :
      PunchRun O ID → Result (Unit {0}) × Punch O ID × WorldOf O → Option (Punch O ID × WorldOf O)
  on_punch rest (ok done, p, w) = rest p w
  on_punch rest (err x, p, w) = some (p, w)

  abbrev pub on_next : (List ℕ → List ℕ) → Result (ID × NatInfo) → PunchRun O ID → PunchRun O ID
  on_next shuffle (err x) rest p w = some (p, w)
  on_next shuffle (ok (id, nat)) rest p w =
      bind (Punch.punch O checks shuffle (hello_bytes my_id) id nat p w) (on_punch rest)

  -- A thread that punches.
  unfoldable pub punch_task : List (PunchTurn O ID) → PunchRun O ID
  punch_task [] p w = some (p, w)
  punch_task (turn ∷ turns) p w =
      on_next turn.shuffle turn.next (punch_task turns) p (turn.meanwhile w)

-- What `recv_from` returns after the report: the buffer with the confirmation.
unfoldable pub confirmed : Result (List ℕ) → List ℕ → Option (List ℕ)
confirmed (err x) buf = none
confirmed (ok datagram) buf =
    if not (nat_beq (length (take 1500 datagram)) 1) || not (starts (fill datagram buf) 252)
    then none
    else some (fill datagram buf)

-- "150.158.95.11:3000".
abbrev pub heartbeat_addr : SocketAddr
heartbeat_addr = addr_v4 (150 * 2 ^ 24 + 158 * 2 ^ 16 + 95 * 2 ^ 8 + 11) 3000

module _ {O : Os} (R : Reactor O) (c : Channel R) where
  abbrev pub unwrapped : {A : Type 0} → Result A × WorldOf O → Option (WorldOf O)
  unwrapped (ok a, w) = some w
  unwrapped (err x, w) = none

  -- The report to the server.
  unfoldable pub send_report : ℕ → ℕ → SocketAddr → WorldOf O → Option (WorldOf O)
  send_report my_id peer_id server w =
      unwrapped (send_to_addr R c (report_bytes my_id peer_id) server w)

  abbrev pub or_end : Result ℕ × WorldOf O → (WorldOf O → Bool × WorldOf O) → Bool × WorldOf O
  or_end (ok len, w) rest = rest w
  or_end (err x, w) rest = (true, w)

  -- The heartbeats, and whether they have ended: so many, with what happens after each.
  unfoldable pub heartbeat_task : List (WorldOf O → WorldOf O) → WorldOf O → Bool × WorldOf O
  heartbeat_task [] w = (false, w)
  heartbeat_task (meanwhile ∷ sleeps) w =
      or_end (send_to_addr R c (255 ∷ []) heartbeat_addr w)
        (λ w'. heartbeat_task sleeps (meanwhile w'))

module _ {ID : Type 0} (Q : QueueApi (ID × NatInfo)) (id : ID) (ip : IpAddr) (port : ℕ) where
  -- `NatInfo::new`, as the thread calls it.
  abbrev pub nat_info : NatType → NatInfo
  nat_info ty = Punch.new (ip ∷ []) port 0 ip port ty

  -- The two calls of `Channel::punch`.
  abbrev pub trigger_both : Queues Q → Result (Unit {0}) × Queues Q
  trigger_both = Queues.punch Q id (nat_info NatType.cone) >>= λ done.
      Queues.punch Q id (nat_info NatType.symmetric)

  abbrev pub or_break :
      Result (Unit {0}) × Queues Q → (Queues Q → Bool × Queues Q) → Bool × Queues Q
  or_break (ok done, qs) rest = rest qs
  or_break (err x, qs) rest = (true, qs)

  -- The thread that triggers the punches of one peer, and whether it has ended: so many rounds,
  -- with what happens during each sleep.
  unfoldable pub trigger_task : List (Queues Q → Queues Q) → Queues Q → Bool × Queues Q
  trigger_task [] qs = (false, qs)
  trigger_task (meanwhile ∷ sleeps) qs =
      or_break (trigger_both qs) (λ qs'. trigger_task sleeps (meanwhile qs'))
