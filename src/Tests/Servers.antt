-- ===== src/Tests/Servers.antt =====
-- The example server and peer.
use p2p_channel.Base.{ℕ, ◌≡◌, refl, Bool, true, false, some, List, [], ◌∷◌, arith, number_eq}
use p2p_channel.Base.Int.{pos}
use p2p_channel.Base.MapApi.{MapApi}
use p2p_channel.Base.AssocMap.{assoc_map}
use p2p_channel.Net.{SocketAddr}
use p2p_channel.Route.{Route, RouteKey, key_eq}
use p2p_channel.RouteTable.{Entry, Store, empty_tables}
use p2p_channel.Os.{WorldOf}
use p2p_channel.Channel.{send_by_index}
use p2p_channel.Wire.{report_bytes, introduction, bytes_eq, text_bytes}
use p2p_channel.Server.{Log, Server, serve, fill, zeros}
use p2p_channel.Server.Meeting.{Met, peers_meet, stale_report}
use p2p_channel.Peer.{Peer, on_message, identity}
use p2p_channel.Peer.Introductions.{on_message-introduction}
use p2p_channel.Tests.Samples.{os, world, addr_a, addr_b}
use p2p_channel.Tests.Channels.{reactor, channel}

abbrev peers : MapApi ℕ SocketAddr
peers = assoc_map ℕ SocketAddr

abbrev no_v6 : SocketAddr → List ℕ
no_v6 a = []

abbrev always : Log → List ℕ → SocketAddr → Bool
always l b to = true

abbrev S : Type 0
S = Server peers no_v6 always

abbrev server : S
server = record { map = []; buf = []; sent = [] }

peers_meet_example :
    (s' : S) × (serve peers no_v6 always
        ((report_bytes 1 2, addr_a) ∷ (report_bytes 2 1, addr_b) ∷ [])
        server
      ≡ some s')
    × Met peers no_v6 always (λ l b to. refl) 1 2 addr_a addr_b server s'
peers_meet_example =
    peers_meet peers no_v6 always (λ l b to. refl) 1 2 addr_a addr_b server (omega arith)
      (omega arith) (omega arith) refl

stale_report_example :
    (s' : S) × (serve peers no_v6 always
        ((report_bytes 1 2, addr_a) ∷ (253 ∷ [], addr_b) ∷ [])
        server
      ≡ some s')
    × (peers.get s'.map 1 ≡ some addr_b)
    × (s'.sent ≡ (252 ∷ [], addr_b) ∷ (252 ∷ [], addr_a) ∷ [])
stale_report_example =
    stale_report peers no_v6 always (λ l b to. refl) 1 2 addr_a addr_b server (omega arith)
      (omega arith) (omega arith) refl

abbrev datagrams : List (List ℕ × SocketAddr)
datagrams = (255 ∷ [], addr_b) ∷ (report_bytes 1 2, addr_a) ∷ []

served : S
served = record {
  map = (1, addr_a) ∷ [];
  buf = fill (report_bytes 1 2) (fill (255 ∷ []) (zeros 1500));
  sent = (252 ∷ [], addr_a) ∷ (255 ∷ [], addr_b) ∷ [];
}

abbrev pub peer_store : Store (List ℕ)
peer_store = record {
  routes_api = assoc_map (List ℕ) Route;
  times_api = assoc_map RouteKey (Entry (List ℕ));
  Parker = ℕ;
  unpark = λ p. 1;
}

abbrev pub peer : Peer peer_store
peer = record {
  tables = empty_tables peer_store 0;
  buf = [];
  status = false;
  listens = true;
  told = [];
  shown = [];
}

abbrev pub hello_key : RouteKey
hello_key = record { index = 100000; addr = addr_b }

on_message-introduction_example :
    on_message reactor peer_store channel 5
      (pos 7)
      (introduction no_v6 2 addr_b)
      hello_key
      peer
      world
    ≡ some (
      record peer { buf = fill (introduction no_v6 2 addr_b) []; told = (11, 5000, 2) ∷ [] },
      world,
    )
on_message-introduction_example =
    on_message-introduction reactor peer_store channel 5 no_v6 2 11 5000 (pos 7) hello_key peer
      world (omega arith) (omega arith) (omega arith) refl

answered_world : WorldOf os
answered_world = (send_by_index reactor channel (text_bytes 5 (identity 5)) hello_key world).1
