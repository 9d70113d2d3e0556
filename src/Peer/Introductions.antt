-- ===== src/Peer/Introductions.antt =====
-- What the peer makes of the server's introductions, and of datagrams that are too short.
use p2p_channel.Base.{
  ℕ, zero, suc, ◌-◌, ◌≤◌, ◌<◌, ◌≡◌, refl, ap, Bool, true, false, ◌&&◌, ◌||◌, Option, none, some,
  List, [], ◌∷◌, ◌++◌, arith, length, take, drop, length-append, ltb, leb, if◌then◌else◌, Eq,
  lt→ltb,
}
use p2p_channel.Base.Int.{ℤ}
use p2p_channel.Net.{SocketAddr, addr_v4, addr_eq}
use p2p_channel.Route.{RouteKey}
use p2p_channel.RouteTable.{Store}
use p2p_channel.Os.{Os, WorldOf}
use p2p_channel.Reactor.{Reactor}
use p2p_channel.Channel.{Channel}
use p2p_channel.Ports.{slice}
use p2p_channel.Server.{starts, fill}
use p2p_channel.Wire.{introduction, to_be_bytes, bytes_to_u32, show_addr, parse_addr, ◌>>=◌}
use p2p_channel.Wire.Numbers.{bytes_to_u32-to_be_bytes}
use p2p_channel.Wire.Addresses.{parse_addr-show_addr, length-show_addr}
use p2p_channel.Peer.{Peer, on_introduction, on_message}

pub take_all : {A : Type 0} (n : ℕ) (xs : List A) → length xs ≤ n → take n xs ≡ xs
take_all zero [] h = refl
take_all zero (x ∷ xs) h = absurd (omega arith)
take_all (suc n) [] h = refl
take_all (suc n) (x ∷ xs) h = ap (λ ys. x ∷ ys) (take_all n xs (omega arith))

take_front : {A : Type 0} (xs ys : List A) → take (length xs) (xs ++ ys) ≡ xs
take_front [] ys = refl
take_front (x ∷ xs) ys = ap (λ zs. x ∷ zs) (take_front xs ys)

pub slice_head :
    (x a b c d : ℕ) (rest : List ℕ)
    → slice (x ∷ a ∷ b ∷ c ∷ d ∷ rest) 1 5 ≡ some (a ∷ b ∷ c ∷ d ∷ [])
unfolding slice
slice_head x a b c d rest = ground arith

slice_tail :
    (x a b c d : ℕ) (text rest : List ℕ)
    → slice (x ∷ a ∷ b ∷ c ∷ d ∷ (text ++ rest)) 5 (length (x ∷ a ∷ b ∷ c ∷ d ∷ text)) ≡ some text
unfolding slice
slice_tail x a b c d text rest =
    let start : leb 5 (length (x ∷ a ∷ b ∷ c ∷ d ∷ text)) ≡ true = ground arith in
    let end : leb (length (x ∷ a ∷ b ∷ c ∷ d ∷ text)) (length (x ∷ a ∷ b ∷ c ∷ d ∷ (text ++ rest)))
        ≡ true =
      ground (arith, length-append text rest) in
    let size : length (x ∷ a ∷ b ∷ c ∷ d ∷ text) - 5 ≡ length text = omega arith in
    rw (start, end, size) (ap some (take_front text rest))

module _ {O : Os} (R : Reactor O) ⦃e : Eq (List ℕ)⦄ (S : Store (List ℕ)) (c : Channel R)
    (my_id : ℕ) where
  size :
      (show_v6 : SocketAddr → List ℕ) (id ip port : ℕ)
      → length (introduction show_v6 id (addr_v4 ip port)) ≤ 1500
  unfolding to_be_bytes
  size show_v6 id ip port = omega (arith, length-show_addr show_v6 ip port)

  on_introduction_lem :
      (show_v6 : SocketAddr → List ℕ) (id ip port : ℕ) (p : Peer S) (rest : List ℕ)
      → id < 4294967296
      → ip < 4294967296
      → port < 65536
      → p.listens ≡ true
      → p.buf ≡ introduction show_v6 id (addr_v4 ip port) ++ rest
      → on_introduction R S c my_id (length (introduction show_v6 id (addr_v4 ip port))) p
        ≡ some (record p { told = (ip, port, id) ∷ p.told })
  unfolding on_introduction to_be_bytes
  on_introduction_lem show_v6 id ip port p rest hid hip hport l q = rw (
    q,
    slice_head 254 _ _ _ _ _,
    bytes_to_u32-to_be_bytes id hid,
    slice_tail 254 _ _ _ _ (show_addr show_v6 (addr_v4 ip port)) rest,
    parse_addr-show_addr show_v6 ip port hip hport,
    l,
  )

  -- The introduction of a peer at an IPv4 address, as the server writes it, is read by the other
  -- peer as the id, the address and the port, and passed on, whatever was in the buffer before and
  -- whoever has sent it; nothing else changes.
  pub on_message-introduction :
      (show_v6 : SocketAddr → List ℕ) (id ip port : ℕ) (now : ℤ) (key : RouteKey) (p : Peer S)
      (w : WorldOf O)
      → id < 4294967296
      → ip < 4294967296
      → port < 65536
      → p.listens ≡ true
      → on_message R S c my_id now (introduction show_v6 id (addr_v4 ip port)) key p w
        ≡ some (
          record p {
            buf = fill (introduction show_v6 id (addr_v4 ip port)) p.buf;
            told = (ip, port, id) ∷ p.told;
          },
          w,
        )
  unfolding on_message
  on_message-introduction show_v6 id ip port now key p w hid hip hport l =
      let m = introduction show_v6 id (addr_v4 ip port) in
      let whole : take 1500 m ≡ m = take_all 1500 m (size show_v6 id ip port) in
      let read =
        on_introduction_lem show_v6 id ip port (record p { buf = fill m p.buf })
          (drop (length m) p.buf) hid hip hport l
          (unfold fill in ap (λ d. d ++ drop (length d) p.buf) whole) in
      let some_bytes : ltb 0 (length (take 1500 m)) ≡ true = ground arith in
      let is_254 : starts (fill m p.buf) 254 ≡ true = unfold fill in refl in
      let not_255 : starts (fill m p.buf) 255 ≡ false = unfold fill in refl in
      let not_252 : starts (fill m p.buf) 252 ≡ false = unfold fill in refl in
      rw (some_bytes, not_255, not_252, is_254, ap length whole, read)

  on_introduction_short :
      (len : ℕ) (p : Peer S) → len < 5 → on_introduction R S c my_id len p ≡ none
  unfolding on_introduction
  on_introduction_short len p h = rw past (go (slice p.buf 1 5 >>= bytes_to_u32))
    where
      past : slice p.buf 5 len ≡ none
      past = unfold slice in ground arith

      go :
          (o : Option ℕ)
          → (o >>= λ id. (none >>= parse_addr) >>= λ addr.
              if p.listens then some (record p { told = (addr.0, addr.1, id) ∷ p.told }) else none)
            ≡ none
      go none = refl
      go (some id) = refl

  neither :
      (datagram buf : List ℕ)
      → starts datagram 252 ≡ false
      → starts datagram 255 ≡ false
      → (ltb 0 (length (take 1500 datagram))
          && (starts (fill datagram buf) 255 || starts (fill datagram buf) 252))
        ≡ false
  unfolding fill
  neither [] buf a b = refl
  neither (d ∷ ds) buf a b = rw (a, b) (ground arith)

  -- Whatever the peer has in its buffer: a datagram of less than five bytes, of none also, that
  -- is not one of 252 or 255 stops the thread that receives.
  pub on_message_short :
      (datagram : List ℕ) (now : ℤ) (key : RouteKey) (p : Peer S) (w : WorldOf O)
      → length datagram < 5
      → starts datagram 252 ≡ false
      → starts datagram 255 ≡ false
      → on_message R S c my_id now datagram key p w ≡ none
  unfolding on_message
  on_message_short datagram now key p w h a b =
      let len = length (take 1500 datagram) in
      let p' : Peer S = record p { buf = fill datagram p.buf } in
      let size : len < 5 = omega (arith, ap length (take_all 1500 datagram (omega arith))) in
      let few : ltb len 5 ≡ true = lt→ltb len 5 size in
      rw (neither datagram p.buf a b, few, on_introduction_short len p' size)
        (either (ltb 0 len && starts (fill datagram p.buf) 254))
    where
      stopped : Option (Peer S × WorldOf O)
      stopped = none

      either : (t : Bool) → (if t then stopped else stopped) ≡ none
      either true = refl
      either false = refl
