-- ===== src/Server.antt =====
-- The example server, examples/server.rs: it tells two peers that ask for each other where they
-- are. A panic, of a slice or of an `unwrap`, is `none`.
pub mod Steps
pub mod Meeting
pub mod Heard
pub mod Trace
use p2p_channel.Base.{
  ℕ, zero, suc, ◌+◌, ◌<◌, Bool, true, false, ◌&&◌, Option, none, some, List, [], ◌∷◌, ◌++◌, length,
  take, drop, ltb, nat_beq, number_eq, ◌==◌, if◌then◌else◌,
}
use p2p_channel.Base.MapApi.{MapApi}
use p2p_channel.Net.{SocketAddr, addr_eq}
use p2p_channel.Ports.{slice}
use p2p_channel.Wire.{bytes_to_u32, introduction, ◌>>=◌}

-- What has been sent, the last first: the bytes and the receiver.
abbrev pub Log : Type 0
Log = List (List ℕ × SocketAddr)

abbrev pub starts : List ℕ → ℕ → Bool
starts [] c = false
starts (b ∷ bs) c = nat_beq b c

-- A datagram is cut to the buffer, and leaves what it does not cover as it was.
unfoldable pub fill : List ℕ → List ℕ → List ℕ
fill datagram buf = take 1500 datagram ++ drop (length (take 1500 datagram)) buf

-- `[0u8; n]`.
unfoldable pub zeros : ℕ → List ℕ
zeros zero = []
zeros (suc n) = 0 ∷ zeros n

abbrev pub first_with : List (ℕ × SocketAddr) → SocketAddr → Option ℕ
first_with [] addr = none
first_with ((id, a) ∷ rest) addr =
    let more = first_with rest addr in if a == addr then some id else more

-- `show_v6` is the text of an IPv6 address; `accepts` says whether the system takes a datagram
-- after those that it was given before.
module _ (M : MapApi ℕ SocketAddr) (show_v6 : SocketAddr → List ℕ)
    (accepts : Log → List ℕ → SocketAddr → Bool) where
  pub record Server : Type 0 where
    pub map : M.Map
    pub buf : List ℕ
    pub sent : Log

  -- `send_to(..).unwrap()`.
  abbrev pub send : List ℕ → SocketAddr → Server → Option Server
  send bytes to s =
      if accepts s.sent bytes to then some (record s { sent = (bytes, to) ∷ s.sent }) else none

  abbrev pub pair : ℕ → ℕ → SocketAddr → Option SocketAddr → Server → Option Server
  pair from_id peer_id from none s = some s
  pair from_id peer_id from (some v) s = send (introduction show_v6 peer_id v) from s >>= λ s1.
      send (introduction show_v6 from_id from) v s1 >>= λ s2.
      some (record s2 { map = (M.remove (M.remove s2.map peer_id).1 from_id).1 })

  -- A report, once its two numbers are read.
  unfoldable pub report : ℕ → ℕ → SocketAddr → Server → Option Server
  report from_id peer_id from s = send (252 ∷ []) from s >>= λ s1.
      let map = (M.insert s1.map from_id from).1 in
      pair from_id peer_id from (M.get map peer_id) (record s1 { map = map })

  -- `let Some(id) = .. else { continue }`.
  abbrev pub or_continue : Option ℕ → Server → (ℕ → Option Server) → Option Server
  or_continue none s next = some s
  or_continue (some id) s next = next id

  unfoldable pub on_report : SocketAddr → Server → Option Server
  on_report from s = slice s.buf 1 5 >>= λ a. or_continue (bytes_to_u32 a) s (λ from_id.
      slice s.buf 5 9 >>= λ b.
      or_continue (bytes_to_u32 b) s (λ peer_id. report from_id peer_id from s))

  abbrev pub forget : Option ℕ → Server → Server
  forget none s = s
  forget (some id) s = record s { map = (M.remove s.map id).1 }

  unfoldable pub on_heartbeat : SocketAddr → Server → Server
  on_heartbeat from s =
      if accepts s.sent (255 ∷ []) from
      then record s { sent = (255 ∷ [], from) ∷ s.sent }
      else forget (first_with (M.entries s.map) from) s

  -- The body of the loop. The buffer has 1500 bytes, so there is a first one.
  unfoldable pub on_datagram : List ℕ → SocketAddr → Server → Option Server
  unfolding fill
  on_datagram datagram from s =
      let size = length (take 1500 datagram) in
      let s' : Server = record s { buf = fill datagram s.buf } in
      if ltb 0 size && starts s'.buf 253
      then on_report from s'
      else if ltb 0 size && starts s'.buf 255
      then some (on_heartbeat from s')
      else some s'

  -- The loop over the datagrams that come in, until `recv_from` fails.
  unfoldable pub serve : List (List ℕ × SocketAddr) → Server → Option Server
  serve [] s = some s
  serve ((datagram, from) ∷ more) s = on_datagram datagram from s >>= λ s'. serve more s'

  -- The start of `main`.
  unfoldable pub start : Server
  unfolding zeros
  start = record { map = M.empty; buf = zeros 1500; sent = [] }
