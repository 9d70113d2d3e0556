-- ===== src/Net.antt =====
-- The addresses of `std::net` that the code uses: `IpAddr`, `SocketAddr` and their equality.
use p2p_channel.Base.{ℕ, ◌≡◌, ◌↔◌, Bool, true, false, ◌&&◌, arith, nat_beq, Eq}

pub data IpAddr : Type 0 where
  v4 : ℕ → IpAddr
  v6 : ℕ → IpAddr

-- An IPv6 address has a flow and a scope beside its port.
pub data SocketAddr : Type 0 where
  addr_v4 : ℕ → ℕ → SocketAddr
  addr_v6 : ℕ → ℕ → ℕ → ℕ → SocketAddr

-- `SocketAddr::new`.
abbrev pub socket_addr : IpAddr → ℕ → SocketAddr
socket_addr (v4 ip) port = addr_v4 ip port
socket_addr (v6 ip) port = addr_v6 ip port 0 0

abbrev pub port_of : SocketAddr → ℕ
port_of (addr_v4 ip port) = port
port_of (addr_v6 ip port flow scope) = port

abbrev pub is_ipv4 : SocketAddr → Bool
is_ipv4 (addr_v4 ip port) = true
is_ipv4 (addr_v6 ip port flow scope) = false

abbrev pub is_unspecified : IpAddr → Bool
is_unspecified (v4 ip) = nat_beq ip 0
is_unspecified (v6 ip) = nat_beq ip 0

unfoldable pub addr_beq : SocketAddr → SocketAddr → Bool
addr_beq (addr_v4 a p) (addr_v4 b q) = nat_beq a b && nat_beq p q
addr_beq (addr_v6 a p f s) (addr_v6 b q g t) =
    nat_beq a b && nat_beq p q && nat_beq f g && nat_beq s t
addr_beq _ _ = false

pub addr_beq_iff : (a b : SocketAddr) → (addr_beq a b ≡ true) ↔ (a ≡ b)
unfolding addr_beq
addr_beq_iff (addr_v4 a p) (addr_v4 b q) = ground arith
addr_beq_iff (addr_v6 a p f s) (addr_v6 b q g t) = ground arith
addr_beq_iff (addr_v4 a p) (addr_v6 b q g t) = ground arith
addr_beq_iff (addr_v6 a p f s) (addr_v4 b q) = ground arith

instance abbrev pub addr_eq : Eq SocketAddr
addr_eq = record { test = addr_beq; test_iff = addr_beq_iff }
