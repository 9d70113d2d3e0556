-- ===== src/Server/Trace.antt =====
-- What the server can have sent, after any datagrams.
use p2p_channel.Base.{ℕ, ◌≡◌, Bool, Option, none, some, List, number_eq}
use p2p_channel.Base.MapApi.{MapApi, lookup}
use p2p_channel.Net.{SocketAddr, addr_eq}
use p2p_channel.Server.{Log, Server}
use p2p_channel.Server.Heard.{Trace}

module _ (M : MapApi ℕ SocketAddr) (show_v6 : SocketAddr → List ℕ)
    (accepts : Log → List ℕ → SocketAddr → Bool) where
  abbrev T : Type 0
  T = Server M show_v6 accepts

  abbrev IfSome : (T → Type 0) → Option T → Type 0
  IfSome P none = Unit {0}
  IfSome P (some s) = P s

  -- What holds at the end, of what was heard.
  abbrev pub Explained : List (ℕ × SocketAddr) → T → Type 0
  Explained seen s =
      Trace M show_v6 accepts seen s.sent
      × ((id : ℕ) (v : SocketAddr) → M.get s.map id ≡ some v → lookup seen id ≡ some v)
