-- ===== src/Sender.antt =====
-- The sending half of a channel: src/channel/sender.rs, lines 17 to 138.
pub mod Retry
pub mod Stamp
use Prim.Native.Nat.{bit_and}
use p2p_channel.Base.{
  ℕ, zero, suc, ◌+◌, ◌<◌, ◌≡◌, Bool, true, false, ◌||◌, Option, none, some, List, [], ◌∷◌, arith,
  dec_lt, dite, get_elem?, nat_beq, if◌then◌else◌, Result, ok, err, IoError, new_error, other, kind,
  is_would_block, is_timed_out, Eq,
}
use p2p_channel.Base.Int.{ℤ}
use p2p_channel.Net.{SocketAddr}
use p2p_channel.Route.{
  Route, RouteKey, route_key, Status, cone, symmetric, close, default_token_index,
}
use p2p_channel.RouteTable.{Store, Tables, route, update_write_time}
use p2p_channel.Os.{Os, World, WorldOf, Io, ◌>>=◌}

abbrev pub is_status_close : Status → Bool
is_status_close close = true
is_status_close _ = false

abbrev pub is_status_cone : Status → Bool
is_status_cone cone = true
is_status_cone _ = false

-- The errors after which a datagram is sent again.
abbrev pub is_retried : IoError → Bool
is_retried e = is_would_block (kind e) || is_timed_out (kind e)

module _ (O : Os) where
  -- What a round of the loop of `send_all` does with the result of its send: `again` is the rest
  -- of the loop, `count` its counter.
  unfoldable pub on_sent : (count : ℕ) → (¬ (10 < count + 1) → Io O ℕ) → Result ℕ → Io O ℕ
  on_sent count again (ok len) w = (ok len, w)
  on_sent count again (err e) w =
      if is_retried e
      then dite (dec_lt 10 (count + 1)) (λ _. (err e, O.yield_now w))
          (λ more. again more (O.yield_now w))
      else (err e, w)

  unfoldable pub send_round :
      O.Socket → List ℕ → SocketAddr → (count : ℕ) → (¬ (10 < count + 1) → Io O ℕ) → Io O ℕ
  unfolding on_sent
  send_round udp buf addr count again w =
      let (sent, w') = O.send_to udp buf addr w in on_sent count again sent w'

  -- The loop from a count of which `left` more rounds can follow.
  unfoldable pub send_loop :
      O.Socket → List ℕ → SocketAddr → (left count : ℕ) → count + left ≡ 10 → Io O ℕ
  send_loop udp buf addr zero count h =
      send_round udp buf addr count (λ more. absurd (more (omega arith)))
  send_loop udp buf addr (suc left) count h =
      send_round udp buf addr count (λ more. send_loop udp buf addr left (count + 1) (omega arith))

  -- `SendAll::send_all`.
  unfoldable pub send_all : O.Socket → List ℕ → SocketAddr → Io O ℕ
  send_all udp buf addr = send_loop udp buf addr 10 0 (omega arith)

  -- `Sender`, without the tables and the cells that it shares with the channel.
  pub record Sender : Type 0 where
    pub src_default_udp : O.Socket

  abbrev pub is_close : WorldOf O → Bool
  is_close w = is_status_close w.status

  abbrev pub is_cone : WorldOf O → Bool
  is_cone w = is_status_cone w.status

module _ (O : Os) where
  -- `send_to_addr`.
  unfoldable pub send_to_addr : Sender O → List ℕ → SocketAddr → Io O ℕ
  send_to_addr s buf addr = send_all O s.src_default_udp buf addr

  -- The loop of `send_to_addr_all` over the shared sockets.
  unfoldable pub send_to_each : List O.Socket → ℕ → List ℕ → SocketAddr → Io O (Unit {0})
  send_to_each [] count buf addr w = (ok tt, w)
  send_to_each (udp ∷ udps) count buf addr w =
      let rest = send_to_each udps (count + 1) buf addr in
      (send_all O udp buf addr >>= λ len w'.
      rest (if nat_beq (bit_and (count + 1) 2) 2 then O.sleep_ms 1 w' else w'))
        w

  -- `send_to_addr_all`.
  unfoldable pub send_to_addr_all : Sender O → List ℕ → SocketAddr → Io O (Unit {0})
  send_to_addr_all s buf addr =
      send_all O s.src_default_udp buf addr >>= λ len w. send_to_each w.share_info 0 buf addr w

  -- The socket of a route key: the default one, or the shared one with its index.
  unfoldable pub send_by_index : Sender O → List ℕ → RouteKey → Io O ℕ
  send_by_index s buf key w =
      if nat_beq key.index default_token_index
      then send_all O s.src_default_udp buf key.addr w
      else elim (get_elem? w.share_info key.index) [
        | some udp ↦ send_all O udp buf key.addr w
        | none ↦ (err (new_error other "not fount"), w)
      ]

  module _ {ID : Type 0} ⦃e : Eq ID⦄ (S : Store ID) where
    -- `send_to_route`, at the time `now`.
    unfoldable pub send_to_route :
        ℤ → Sender O → List ℕ → RouteKey → Tables S → WorldOf O → Result ℕ × Tables S × WorldOf O
    send_to_route now s buf key t w =
        let t' = update_write_time S now key t in
        let (sent, w') = send_by_index s buf key w in (sent, t', w')

    -- `send_to_id`.
    unfoldable pub send_to_id :
        ℤ → Sender O → List ℕ → ID → Tables S → WorldOf O → Result ℕ × Tables S × WorldOf O
    send_to_id now s buf id t w = elim (route S id t) [
      | none ↦ (err (new_error other "not fount route"), t, w)
      | some r ↦ send_to_route now s buf (route_key r) t w
    ]
