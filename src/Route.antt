-- ===== src/Route.antt =====
-- src/channel/mod.rs, lines 24 to 74: routes, their keys, and the status of a channel.
use p2p_channel.Base.{ℕ, ◌≡◌, ◌↔◌, Bool, true, ◌&&◌, arith, nat_beq, Eq, ◌==◌}
use p2p_channel.Base.Int.{ℤ}
use p2p_channel.Net.{SocketAddr, addr_eq, addr_beq, addr_beq_iff}

pub record Route : Type 0 where
  pub index : ℕ
  pub addr : SocketAddr
  pub metric : ℕ
  pub rt : ℤ

pub record RouteKey : Type 0 where
  pub index : ℕ
  pub addr : SocketAddr

abbrev pub new : ℕ → SocketAddr → ℕ → ℤ → Route
new index addr metric rt = record { index = index; addr = addr; metric = metric; rt = rt }

abbrev pub from : RouteKey → ℕ → ℤ → Route
from key metric rt = record { index = key.index; addr = key.addr; metric = metric; rt = rt }

abbrev pub route_key : Route → RouteKey
route_key r = record { index = r.index; addr = r.addr }

-- `RouteKey` derives `Eq`.
unfoldable pub key_beq : RouteKey → RouteKey → Bool
unfolding addr_beq
key_beq j k = nat_beq j.index k.index && j.addr == k.addr

pub key_beq_iff : (j k : RouteKey) → (key_beq j k ≡ true) ↔ (j ≡ k)
unfolding key_beq
key_beq_iff j k = ground (arith, addr_beq_iff j.addr k.addr)

instance abbrev pub key_eq : Eq RouteKey
key_eq = record { test = key_beq; test_iff = key_beq_iff }

pub data Status : Type 0 where
  cone symmetric close : Status

-- `DEFAULT_TOKEN_INDEX`, the index of the default socket.
abbrev pub default_token_index : ℕ
default_token_index = 100000

-- `CHANGE_TOKEN`, the token of a channel's waker.
abbrev pub change_token_index : ℕ
change_token_index = 100001
