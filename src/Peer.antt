-- ===== src/Peer.antt =====
-- The receiving thread of the example peer, examples/peer.rs, lines 221 to 275, and the messages
-- that it sends. A panic, of a slice, of an `unwrap` or of the `assert!`, is `none`.
pub mod Introductions
pub mod Contact
pub mod Threads
pub mod Shutdown
pub mod Clones
pub mod Start
use p2p_channel.Base.{
  ℕ, ◌+◌, ◌<◌, Bool, true, false, not, ◌&&◌, ◌||◌, Option, none, some, List, [], ◌∷◌, ◌++◌, length,
  take, ltb, if◌then◌else◌, Result, ok, err, Eq,
}
use p2p_channel.Base.Int.{ℤ, pos}
use p2p_channel.Route.{Route, RouteKey, from}
use p2p_channel.RouteTable.{Store, Tables, route_to_id, add_route}
use p2p_channel.Os.{Os, WorldOf}
use p2p_channel.Reactor.{Reactor}
use p2p_channel.Channel.{Channel}
use p2p_channel.Channel.Sending.{send_to_id}
use p2p_channel.Ports.{slice}
use p2p_channel.Server.{starts, fill}
use p2p_channel.Wire.{bytes_to_u32, parse_addr, text_bytes, id_text, ◌>>=◌}

-- `my identity is {}`.
abbrev pub identity : ℕ → List ℕ
identity id =
    b'm'
    ∷ b'y'
    ∷ b' '
    ∷ b'i'
    ∷ b'd'
    ∷ b'e'
    ∷ b'n'
    ∷ b't'
    ∷ b'i'
    ∷ b't'
    ∷ b'y'
    ∷ b' '
    ∷ b'i'
    ∷ b's'
    ∷ b' '
    ∷ id_text id

-- The peers are named by the text of their ids.
module _ ⦃e : Eq (List ℕ)⦄ (S : Store (List ℕ)) where
  -- What the thread works on: `told` is what it has passed to the thread that punches, an
  -- address, a port and an id; `listens` says whether that one is there; and `shown` are the
  -- texts that it has logged, both the last first.
  pub record Peer : Type 0 where
    pub tables : Tables S
    pub buf : List ℕ
    pub status : Bool
    pub listens : Bool
    pub told : List (ℕ × ℕ × ℕ)
    pub shown : List (List ℕ)

module _ {O : Os} (R : Reactor O) ⦃e : Eq (List ℕ)⦄ (S : Store (List ℕ)) (c : Channel R)
    (my_id : ℕ) where
  -- The message 254. The text is read as bytes: what is not UTF-8 is no address either.
  unfoldable pub on_introduction : ℕ → Peer S → Option (Peer S)
  on_introduction len p = slice p.buf 1 5 >>= bytes_to_u32 >>= λ id.
      slice p.buf 5 len >>= parse_addr >>= λ addr.
      if p.listens then some (record p { told = (addr.0, addr.1, id) ∷ p.told }) else none

  abbrev pub add_new : ℤ → RouteKey → List ℕ → Option (List ℕ) → Peer S → Peer S
  add_new now key peer none p = record p {
    tables = add_route S now peer (from key 10 (pos 64)) p.tables;
  }
  add_new now key peer (some other) p = p

  -- A route that has no peer is given to the one that the message names.
  unfoldable pub greet : ℤ → RouteKey → List ℕ → Peer S → Peer S
  greet now key peer p = add_new now key peer (route_to_id S key p.tables) p

  -- The text of a message 1.
  unfoldable pub show_text : ℕ → Peer S → Option (Peer S)
  show_text len p = slice p.buf 4 len >>= λ text. some (record p { shown = text ∷ p.shown })

  -- The messages 0 and 1.
  unfoldable pub on_peer : ℤ → ℕ → RouteKey → List ℕ → Peer S → Option (Peer S)
  unfolding greet show_text
  on_peer now len key peer p =
      if starts p.buf 0
      then some (greet now key peer p)
      else if starts p.buf 1
      then show_text len (greet now key peer p)
      else some p

  abbrev pub answered : Peer S → Result ℕ × Tables S × WorldOf O → Option (Peer S × WorldOf O)
  answered p (ok len, tables, w) = some (record p { tables = tables; status = true }, w)
  answered p (err x, tables, w) = none

  -- The first message is answered with the own id.
  unfoldable pub answer : ℤ → List ℕ → Peer S → WorldOf O → Option (Peer S × WorldOf O)
  answer now peer p w =
      if p.status
      then some (p, w)
      else answered p (send_to_id R S now c (text_bytes my_id (identity my_id)) peer p.tables w)

  -- The body of the loop, for a datagram that `recv_from` has returned.
  unfoldable pub on_message :
      ℤ → List ℕ → RouteKey → Peer S → WorldOf O → Option (Peer S × WorldOf O)
  on_message now datagram key old w =
      let len = length (take 1500 datagram) in
      let p : Peer S = record old { buf = fill datagram old.buf } in
      if ltb 0 len && (starts p.buf 255 || starts p.buf 252)
      then some (p, w)
      else if ltb 0 len && starts p.buf 254
      then (on_introduction len p >>= λ p'. some (p', w))
      else if ltb len 5
      then none
      else slice p.buf 1 5 >>= bytes_to_u32 >>= λ id.
          on_peer now len key (id_text id) p >>= λ p'. answer now (id_text id) p' w
