-- ===== src/Receive.antt =====
-- Receiving: `udp_recv_` and `recv_from` of src/channel/mod.rs, lines 224 to 308.
pub mod Keys
pub mod Closing
use p2p_channel.Base.{
  ℕ, zero, suc, ◌+◌, Option, none, some, List, [], ◌∷◌, is_empty, get_elem?, nat_beq, if◌then◌else◌,
  kind, is_would_block, Result, ok, err, new_error, would_block, Eq,
}
use p2p_channel.Net.{SocketAddr}
use p2p_channel.Route.{RouteKey, default_token_index, change_token_index}
use p2p_channel.RouteTable.{Store, Tables, update_time}
use p2p_channel.Os.{Os, WorldOf}
use p2p_channel.Reactor.{Reactor}
use p2p_channel.Channel.{Channel, change}

-- What `recv_from` returns: a datagram, as far as the buffer holds it, and its route, or an error.
-- The source returns the length alone; the bytes are in the buffer.
abbrev pub Received : Type 0
Received = Result (List ℕ × RouteKey)

module _ {O : Os} (R : Reactor O) {ID : Type 0} ⦃e : Eq ID⦄ (S : Store ID) where
  -- What the loop works on: the tables, the own sockets and the world.
  pub record State : Type 0 where
    pub tables : Tables S
    pub udp_list : List O.Socket
    pub world : WorldOf O

  -- `none` where the loop goes on.
  abbrev pub Step : Type 0
  Step = Option Received × State

  abbrev pub on_datagram : ℕ → State → Result (List ℕ × SocketAddr) × WorldOf O → Step
  on_datagram index s (ok (bytes, addr), w) =
      let key : RouteKey = record { index = index; addr = addr } in
      (
        some (ok (bytes, key)),
        record s { tables = update_time S (R.now_ms w) key s.tables; world = w },
      )
  on_datagram index s (err x, w) =
      (if is_would_block (kind x) then none else some (err x), record s { world = w })

  -- `udp_recv_`.
  unfoldable pub udp_recv : O.Socket → ℕ → State → Step
  udp_recv udp index s = on_datagram index s (R.recv_from udp s.world)

  -- Return, or go on.
  abbrev pub or_next : Step → (State → Step) → Step
  or_next (some got, s) next = (some got, s)
  or_next (none, s) next = next s

  -- The loop over the own sockets, from an index on.
  unfoldable pub recv_each : List O.Socket → ℕ → State → Step
  recv_each [] index s = (none, s)
  recv_each (udp ∷ udps) index s =
      or_next (udp_recv udp index s) (λ s'. recv_each udps (index + 1) s')

  abbrev pub on_changed : State → Result (Unit {0}) × List O.Socket × WorldOf O → Step
  on_changed s (ok done, udp_list, w) = (none, record s { udp_list = udp_list; world = w })
  on_changed s (err x, udp_list, w) = (some (err x), record s { udp_list = udp_list; world = w })

  abbrev pub on_socket : ℕ → State → Option O.Socket → Step
  on_socket index s none = (none, s)
  on_socket index s (some udp) = udp_recv udp index s

  -- The match on the token of an event.
  unfoldable pub on_event : Channel R → ℕ → State → Step
  on_event c token s =
      if nat_beq token default_token_index
      then udp_recv c.default_udp default_token_index s
      else if nat_beq token change_token_index
      then on_changed s (change R s.udp_list c.poll c.size s.world)
      else on_socket token s (get_elem? s.udp_list token)

  -- The loop over the events.
  unfoldable pub on_events : Channel R → List ℕ → State → Step
  on_events c [] s = (none, s)
  on_events c (token ∷ tokens) s = or_next (on_event c token s) (λ s'. on_events c tokens s')

  abbrev pub on_poll : Channel R → State → Result (List ℕ) × WorldOf O → Step
  on_poll c s (err x, w) = (some (err x), record s { world = w })
  on_poll c s (ok tokens, w) =
      if is_empty tokens
      then (some (err (new_error would_block "timeout")), record s { world = w })
      else on_events c tokens (record s { world = w })

  -- One turn of the loop of `recv_from`.
  unfoldable pub recv_round : Channel R → Option ℕ → State → Step
  recv_round c timeout s = or_next (udp_recv c.default_udp default_token_index s) (λ s'.
      or_next (recv_each s'.udp_list 0 s') (λ s''. on_poll c s'' (R.poll c.poll timeout s''.world)))

  abbrev pub returned :
      Option Received × State → (State → Option (Received × State)) → Option (Received × State)
  returned (some got, s) again = some (got, s)
  returned (none, s) again = again s

  -- `recv_from`, over so many turns; `none` if it waits on after them.
  unfoldable pub recv_from : ℕ → Channel R → Option ℕ → State → Option (Received × State)
  recv_from zero c timeout s = none
  recv_from (suc turns) c timeout s =
      returned (recv_round c timeout s) (λ s'. recv_from turns c timeout s')
