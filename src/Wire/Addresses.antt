-- ===== src/Wire/Addresses.antt =====
-- An IPv4 address that is written as text is read back.
use p2p_channel.Base.{
  ℕ, zero, suc, ◌/◌, ◌%◌, ◌≤◌, ◌<◌, ◌≡◌, ◌∙◌, refl, sym, ap, true, false, none, some, List, [],
  ◌++◌, arith, ltb, ltb→le, length, length-append, Bool-cases, inl, inr,
}
use mathlib.Core.List.{append-nil}
use p2p_channel.Net.{SocketAddr, addr_v4}
use p2p_channel.Wire.{from_be_bytes, decimal, read_number, octet, parse_addr, show_addr}
use p2p_channel.Wire.Numbers.{Fits, Stops, read_number-decimal}

Fits-octet : (n : ℕ) → n < 256 → Fits 3 n
Fits-octet n h a b c = absurd (omega (arith, ltb→le (n / 10 / 10) 10 c))

Fits-port : (n : ℕ) → n < 65536 → Fits 5 n
Fits-port n h a b c d e = absurd (omega (arith, ltb→le (n / 10 / 10 / 10 / 10) 10 e))

octet-decimal :
    (n : ℕ) (rest : List ℕ)
    → Stops rest
    → octet (decimal 3 (n % 256) ++ rest) ≡ some (n % 256, rest)
octet-decimal n rest s =
    read_number-decimal 255 (some 3) true 3 (n % 256) rest (Fits-octet (n % 256) (omega arith))
      (omega arith) (omega arith) s

port-decimal :
    (port : ℕ) → port < 65536 → read_number 65535 none false (decimal 5 port) ≡ some (port, [])
port-decimal port h =
    ap (read_number 65535 none false) (sym (append-nil (decimal 5 port)))
    ∙ read_number-decimal 65535 none false 5 port [] (Fits-port port h) (omega arith) tt tt

-- What `to_string` writes of an IPv4 address and a port, `parse` reads back.
pub parse_addr-show_addr :
    (show_v6 : SocketAddr → List ℕ) (ip port : ℕ)
    → ip < 4294967296
    → port < 65536
    → parse_addr (show_addr show_v6 (addr_v4 ip port)) ≡ some (ip, port)
unfolding parse_addr show_addr
parse_addr-show_addr show_v6 ip port hi hp =
    let whole : from_be_bytes (ip / 16777216 % 256) (ip / 65536 % 256) (ip / 256 % 256) (ip % 256)
        ≡ ip =
      omega arith in
    rw
      (
        octet-decimal (ip / 16777216) _ refl,
        octet-decimal (ip / 65536) _ refl,
        octet-decimal (ip / 256) _ refl,
        octet-decimal ip _ refl,
        port-decimal port hp,
      )
      (ap (λ n. some (n, port)) whole)

length-decimal : (places n : ℕ) → length (decimal places n) ≤ places
unfolding decimal
length-decimal zero n = omega arith
length-decimal (suc places) n = elim (Bool-cases (ltb n 10)) [
  | inl small ↦ rw small (omega arith)
  | inr large ↦
      rw large
        (omega (arith, length-decimal places (n / 10), length-append (decimal places (n / 10)) _))
]

-- The text of an IPv4 address and a port has 21 characters at most.
pub length-show_addr :
    (show_v6 : SocketAddr → List ℕ) (ip port : ℕ)
    → length (show_addr show_v6 (addr_v4 ip port)) ≤ 21
unfolding show_addr
length-show_addr show_v6 ip port = omega (
  arith,
  length-append (decimal 3 (ip / 16777216 % 256)) _,
  length-append (decimal 3 (ip / 65536 % 256)) _,
  length-append (decimal 3 (ip / 256 % 256)) _,
  length-append (decimal 3 (ip % 256)) _,
  length-decimal 3 (ip / 16777216 % 256),
  length-decimal 3 (ip / 65536 % 256),
  length-decimal 3 (ip / 256 % 256),
  length-decimal 3 (ip % 256),
  length-decimal 5 port,
)
