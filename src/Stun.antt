-- ===== src/Stun.antt =====
-- NAT detection: src/stun/mod.rs. The STUN messages are of another package: a message is read by
-- `attrs_of` and `tid_of` and written by `request`. A hash set is a list without repetitions; its
-- order says nothing.
pub mod Order
pub mod Reply
pub mod Summary
pub mod Merge
pub mod Tag
pub mod Detection
use Prim.Native.Nat.{bit_and, bit_or}
use Prim.Native.String.{String}
use p2p_channel.Base.{
  ℕ, zero, suc, ◌+◌, ◌-◌, ◌*◌, ◌^◌, ◌<◌, Bool, true, false, not, ◌&&◌, Option, none, some, List, [],
  ◌∷◌, ◌++◌, is_empty, length, contains, ltb, nat_beq, number_eq, if◌then◌else◌, Result, ok, err,
  new_error, other, Eq,
}
use p2p_channel.Net.{SocketAddr, addr_v4, addr_v6, is_ipv4, addr_eq}
use p2p_channel.Os.{continue, ◌>>=◌}
use p2p_channel.Punch.{NatType, symmetric, cone}

-- `stun_format::SocketAddr` and `stun_format::Attr`.
pub data StunAddr : Type 0 where
  stun_v4 : ℕ → ℕ → StunAddr
  stun_v6 : ℕ → ℕ → StunAddr

pub data Attr : Type 0 where
  mapped_address : StunAddr → Attr
  changed_address : StunAddr → Attr
  xor_mapped_address : StunAddr → Attr
  other_attr : Attr

unfoldable pub stun_addr : StunAddr → SocketAddr
stun_addr (stun_v4 ip port) = addr_v4 ip port
stun_addr (stun_v6 ip port) = addr_v6 ip port 0 0

-- `insert` of a hash set.
unfoldable pub insert_set : {A : Type 0} ⦃e : Eq A⦄ → A → List A → List A
insert_set a xs = if contains xs a then xs else xs ++ a ∷ []

unfoldable pub extend_set : {A : Type 0} ⦃e : Eq A⦄ → List A → List A → List A
extend_set [] xs = xs
extend_set (a ∷ more) xs = extend_set more (insert_set a xs)

-- The first address is kept.
abbrev pub or_first : Option SocketAddr → SocketAddr → Option SocketAddr
or_first none a = some a
or_first (some b) a = some b

abbrev pub both_some : Option SocketAddr → Option SocketAddr → Bool
both_some (some a) (some b) = true
both_some _ _ = false

-- What an attribute does to `mapped_addr` and to `changed_addr`.
abbrev pub take_mapped : Attr → Option SocketAddr → Option SocketAddr
take_mapped (mapped_address a) m = or_first m (stun_addr a)
take_mapped (changed_address a) m = m
take_mapped (xor_mapped_address a) m = or_first m (stun_addr a)
take_mapped other_attr m = m

abbrev pub take_changed : Attr → Option SocketAddr → Option SocketAddr
take_changed (mapped_address a) c = c
take_changed (changed_address a) c = or_first c (stun_addr a)
take_changed (xor_mapped_address a) c = c
take_changed other_attr c = c

-- The loop over the attributes of a reply, which ends early once both addresses are there.
unfoldable pub read_attrs :
    List Attr → Option SocketAddr → Option SocketAddr → Option SocketAddr × Option SocketAddr
read_attrs [] m c = (m, c)
read_attrs (x ∷ xs) m c =
    let rest = read_attrs xs (take_mapped x m) (take_changed x c) in
    if both_some (take_mapped x m) (take_changed x c)
    then (take_mapped x m, take_changed x c)
    else rest

-- The messages, and the socket that is connected to a server.
pub record Stun (World : Type 0) : Type 0 where
  pub request : Bool → Bool → ℕ → List ℕ
  pub attrs_of : List ℕ → List Attr
  pub tid_of : List ℕ → Option ℕ
  pub connect_server : String → World → Result (Unit {0}) × World
  pub connect_addr : SocketAddr → World → Result (Unit {0}) × World
  pub send : List ℕ → World → Result ℕ × World
  pub recv : World → Result (List ℕ) × World
  pub next_u64 : World → ℕ × World

module _ {World : Type 0} (S : Stun World) where
  abbrev pub Reply : Type 0
  Reply = Result (SocketAddr × Option SocketAddr) × World

  -- A reply with a mapped address ends the rounds.
  abbrev pub or_again : Option SocketAddr × Option SocketAddr → World → (World → Reply) → Reply
  or_again (some m, c) w again = (ok (m, c), w)
  or_again (none, c) w again = again w

  abbrev pub on_reply : Result (List ℕ) × World → (World → Reply) → Reply
  on_reply (err x, w) again = again w
  on_reply (ok bytes, w) again = or_again (read_attrs (S.attrs_of bytes) none none) w again

  -- So many rounds of `test_nat_`.
  unfoldable pub ask : ℕ → Bool → Bool → ℕ → World → Reply
  ask zero change_ip change_port tid w = (err (new_error other "stun response err"), w)
  ask (suc n) change_ip change_port tid w =
      (S.send (S.request change_ip change_port tid) >>= λ sent w'.
      on_reply (S.recv w') (ask n change_ip change_port tid))
        w

  -- `test_nat_`.
  unfoldable pub test_nat_request : Bool → Bool → ℕ → World → Reply
  unfolding ask
  test_nat_request = ask 2

  -- The second request, to the changed address; the mapped address that is put into the set is
  -- the one of the first request.
  abbrev pub second : SocketAddr → List SocketAddr → Reply → Result (List SocketAddr) × World
  second first addrs (ok (mapped, changed), w) =
      (ok (if is_ipv4 mapped then insert_set first addrs else addrs), w)
  second first addrs (err x, w) = (ok addrs, w)

  abbrev pub on_connect :
      ℕ
      → SocketAddr
      → List SocketAddr
      → Result (Unit {0}) × World
      → Result (List SocketAddr) × World
  on_connect tid mapped addrs (ok done, w) =
      second mapped addrs (test_nat_request false false (tid + 1) w)
  on_connect tid mapped addrs (err x, w) = (ok addrs, w)

  abbrev pub first_addrs : SocketAddr → List SocketAddr
  first_addrs mapped = if is_ipv4 mapped then insert_set mapped [] else []

  abbrev pub after_first :
      ℕ → SocketAddr × Option SocketAddr → World → Result (List SocketAddr) × World
  after_first tid (mapped, none) w = (ok (first_addrs mapped), w)
  after_first tid (mapped, some changed) w =
      on_connect tid mapped (first_addrs mapped) (S.connect_addr changed w)

  -- `test_nat`.
  unfoldable pub test_nat : String → World → Result (List SocketAddr) × World
  unfolding insert_set
  test_nat server = S.connect_server server >>= λ done w.
      let (tid, w') = S.next_u64 w in continue (test_nat_request true true tid w') (after_first tid)

-- The loop over the mapped addresses: the set of the IPv4 addresses, and the lowest and the
-- highest of their ports.
unfoldable pub port_summary : List SocketAddr → List ℕ → ℕ → ℕ → List ℕ × ℕ × ℕ
unfolding insert_set
port_summary [] ips low high = (ips, low, high)
port_summary (addr_v4 ip port ∷ addrs) ips low high =
    port_summary addrs (insert_set ip ips) (if ltb port low then port else low)
      (if ltb high port then port else high)
port_summary (addr_v6 ip port flow scope ∷ addrs) ips low high = port_summary addrs ips low high

abbrev pub Nat : Type 0
Nat = NatType × List ℕ × ℕ

-- The NAT type that so many mapped addresses show.
abbrev pub nat_of_count : ℕ → NatType
nat_of_count n = if ltb 1 n then symmetric else cone

abbrev pub ended : NatType → List ℕ × ℕ × ℕ → Nat
ended nat (ips, low, high) = if is_empty ips then (nat, [], 0) else (nat, ips, high - low)

-- The end of `stun_test_nat0`, from the mapped addresses of all servers.
unfoldable pub nat_of_addrs : List SocketAddr → Nat
unfolding port_summary
nat_of_addrs addrs = ended (nat_of_count (length addrs)) (port_summary addrs [] 65535 0)

module _ {World : Type 0} (S : Stun World) where
  -- The loop of `stun_test_nat0` over the servers; a server that fails is passed over.
  abbrev pub add_addrs : Result (List SocketAddr) → List SocketAddr → List SocketAddr
  add_addrs (ok more) addrs = extend_set more addrs
  add_addrs (err x) addrs = addrs

  unfoldable pub ask_servers : List String → List SocketAddr → World → List SocketAddr × World
  ask_servers [] addrs w = (addrs, w)
  ask_servers (server ∷ servers) addrs w =
      let (found, w') = test_nat S server w in ask_servers servers (add_addrs found addrs) w'

  -- `stun_test_nat0`, with a socket that is bound.
  unfoldable pub stun_test_nat0 : List String → World → Nat × World
  stun_test_nat0 servers w = let (addrs, w') = ask_servers servers [] w in (nat_of_addrs addrs, w')

-- The loop of `stun_test_nat` over the results of its two calls.
abbrev pub merge_nat : Result Nat → Nat → Nat
merge_nat (err x) nat = nat
merge_nat (ok (symmetric, ips, range)) (nat, all, widest) =
    (symmetric, extend_set ips all, if ltb widest range then range else widest)
merge_nat (ok (cone, ips, range)) (nat, all, widest) =
    (nat, extend_set ips all, if ltb widest range then range else widest)

-- `stun_test_nat`, from the results of its calls.
unfoldable pub stun_test_nat : List (Result Nat) → Nat → Nat
stun_test_nat [] nat = nat
stun_test_nat (r ∷ rs) nat = stun_test_nat rs (merge_nat r nat)

-- `TAG`.
abbrev pub tag : ℕ
tag = 1827549368 * 2 ^ 64

-- The first mapped address.
unfoldable pub first_mapped : List Attr → Option SocketAddr
unfolding stun_addr
first_mapped [] = none
first_mapped (mapped_address a ∷ xs) = some (stun_addr a)
first_mapped (xor_mapped_address a ∷ xs) = some (stun_addr a)
first_mapped (changed_address a ∷ xs) = first_mapped xs
first_mapped (other_attr ∷ xs) = first_mapped xs

abbrev pub is_ours : Option ℕ → Bool
is_ours none = true
is_ours (some tid) = nat_beq (bit_and tid tag) tag

module _ {World : Type 0} (S : Stun World) where
  -- `recv_stun_response`.
  unfoldable pub recv_stun_response : List ℕ → Option SocketAddr
  recv_stun_response bytes =
      if is_ours (S.tid_of bytes) then first_mapped (S.attrs_of bytes) else none

  -- `send_stun_request`, with the random number `id`.
  unfoldable pub send_stun_request : ℕ → List ℕ
  send_stun_request id = S.request false false (bit_or id tag)
