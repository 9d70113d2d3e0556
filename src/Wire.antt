-- ===== src/Wire.antt =====
-- The messages of the two example programs, examples/peer.rs and examples/server.rs: numbers as
-- bytes, and addresses as text. The text of an address is that of the standard library: what
-- `to_string` of a `SocketAddr` writes, and what `parse` to a `SocketAddrV4` reads.
pub mod Numbers
pub mod Addresses
use p2p_channel.Base.{
  ℕ, zero, suc, ◌+◌, ◌-◌, ◌*◌, ◌/◌, ◌%◌, ◌<◌, Bool, true, false, not, ◌&&◌, ◌||◌, Option, none,
  some, List, [], ◌∷◌, ◌++◌, length, ltb, leb, nat_beq, if◌then◌else◌, Eq, ◌≡◌, ◌↔◌, arith,
}
use p2p_channel.Net.{SocketAddr, addr_v4, addr_v6}

-- `to_be_bytes` and `from_be_bytes` of a `u32`.
unfoldable pub to_be_bytes : ℕ → List ℕ
to_be_bytes n = (n / 16777216 % 256) ∷ (n / 65536 % 256) ∷ (n / 256 % 256) ∷ (n % 256) ∷ []

abbrev pub from_be_bytes : ℕ → ℕ → ℕ → ℕ → ℕ
from_be_bytes a b c d = a * 16777216 + b * 65536 + c * 256 + d

-- `bytes_to_u32`.
unfoldable pub bytes_to_u32 : List ℕ → Option ℕ
bytes_to_u32 (a ∷ b ∷ c ∷ d ∷ []) = some (from_be_bytes a b c d)
bytes_to_u32 _ = none

-- The decimal digits of a number, of which there are so many at most.
unfoldable pub decimal : ℕ → ℕ → List ℕ
decimal zero n = []
decimal (suc places) n =
    let rest = decimal places (n / 10) in
    if ltb n 10 then (b'0' + n) ∷ [] else rest ++ (b'0' + n % 10) ∷ []

-- `to_string` of an address. The text of an IPv6 address is a parameter.
unfoldable pub show_addr : (SocketAddr → List ℕ) → SocketAddr → List ℕ
show_addr show_v6 (addr_v4 ip port) =
    decimal 3 (ip / 16777216 % 256)
    ++ b'.'
      ∷ (decimal 3 (ip / 65536 % 256)
          ++ b'.'
            ∷ (decimal 3 (ip / 256 % 256)
                ++ b'.' ∷ (decimal 3 (ip % 256) ++ b':' ∷ decimal 5 port)))
show_addr show_v6 (addr_v6 ip port flow scope) = show_v6 (addr_v6 ip port flow scope)

abbrev pub is_digit : ℕ → Bool
is_digit c = leb b'0' c && leb c b'9'

abbrev pub starts_with_zero : List ℕ → Bool
starts_with_zero [] = false
starts_with_zero (c ∷ cs) = nat_beq c b'0'

abbrev pub has_place : Option ℕ → ℕ → Bool
has_place none count = true
has_place (some places) count = ltb count places

-- How the standard library reads a number: a digit that takes it past `max`, or one digit more
-- than the places where these are limited, is an error.
unfoldable pub read_digits : ℕ → Option ℕ → ℕ → ℕ → List ℕ → Option (ℕ × ℕ × List ℕ)
read_digits max places acc count [] = some (acc, count, [])
read_digits max places acc count (c ∷ cs) =
    let acc' = acc * 10 + (c - b'0') in
    let rest = read_digits max places acc' (count + 1) cs in
    if is_digit c
    then if leb acc' max && has_place places count then rest else none
    else some (acc, count, c ∷ cs)

abbrev pub checked_count : Bool → Option (ℕ × ℕ × List ℕ) → Option (ℕ × List ℕ)
checked_count leads none = none
checked_count leads (some (n, count, cs)) =
    if nat_beq count 0 || (leads && ltb 1 count) then none else some (n, cs)

-- A number: `strict` refuses a leading zero.
unfoldable pub read_number : ℕ → Option ℕ → Bool → List ℕ → Option (ℕ × List ℕ)
unfolding read_digits
read_number max places strict cs =
    checked_count (strict && starts_with_zero cs) (read_digits max places 0 0 cs)

infixl 5 ◌>>=◌
abbrev pub ◌>>=◌ : {A B : Type 0} → Option A → (A → Option B) → Option B
none >>= f = none
some a >>= f = f a

abbrev pub read_char : ℕ → List ℕ → Option (List ℕ)
read_char c [] = none
read_char c (d ∷ ds) = if nat_beq d c then some ds else none

abbrev pub at_end : {A : Type 0} → A → List ℕ → Option A
at_end a [] = some a
at_end a (c ∷ cs) = none

abbrev pub octet : List ℕ → Option (ℕ × List ℕ)
octet cs = read_number 255 (some 3) true cs

abbrev pub dot_octet : List ℕ → Option (ℕ × List ℕ)
dot_octet cs = read_char b'.' cs >>= octet

-- `parse` to a `SocketAddrV4`: the address and the port.
unfoldable pub parse_addr : List ℕ → Option (ℕ × ℕ)
parse_addr cs = octet cs >>= λ a. dot_octet a.1 >>= λ b. dot_octet b.1 >>= λ c.
    dot_octet c.1 >>= λ d. read_char b':' d.1 >>= λ rest.
    read_number 65535 none false rest >>= λ port.
    at_end (from_be_bytes a.0 b.0 c.0 d.0, port.0) port.1

-- The messages that a peer sends: `253 | id | peer id` to the server, `0 | id` to punch a hole, and
-- `1 | id | text` to another peer.
abbrev pub report_bytes : ℕ → ℕ → List ℕ
report_bytes id peer_id = 253 ∷ (to_be_bytes id ++ to_be_bytes peer_id)

abbrev pub hello_bytes : ℕ → List ℕ
hello_bytes id = 0 ∷ to_be_bytes id

abbrev pub text_bytes : ℕ → List ℕ → List ℕ
text_bytes id text = 1 ∷ (to_be_bytes id ++ text)

-- `to_string` of a `u32`.
abbrev pub id_text : ℕ → List ℕ
id_text id = decimal 10 id

-- What tells a peer where another one is: `254 | id | address`.
abbrev pub introduction : (SocketAddr → List ℕ) → ℕ → SocketAddr → List ℕ
introduction show_v6 id addr = 254 ∷ (to_be_bytes id ++ show_addr show_v6 addr)

-- Equality of texts.
unfoldable pub bytes_beq : List ℕ → List ℕ → Bool
bytes_beq [] [] = true
bytes_beq (a ∷ xs) (b ∷ bs) = nat_beq a b && bytes_beq xs bs
bytes_beq _ _ = false

pub bytes_beq_iff : (a b : List ℕ) → (bytes_beq a b ≡ true) ↔ (a ≡ b)
unfolding bytes_beq
bytes_beq_iff [] [] = ground arith
bytes_beq_iff [] (b ∷ bs) = ground arith
bytes_beq_iff (a ∷ xs) [] = ground arith
bytes_beq_iff (a ∷ xs) (b ∷ bs) = ground (arith, bytes_beq_iff xs bs)

instance abbrev pub bytes_eq : Eq (List ℕ)
bytes_eq = record { test = bytes_beq; test_iff = bytes_beq_iff }
