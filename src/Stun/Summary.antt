-- ===== src/Stun/Summary.antt =====
-- What the mapped addresses say of the NAT.
use Prim.Native.String.{String}
use p2p_channel.Base.{
  ℕ, ◌+◌, ◌≤◌, ◌<◌, ◌≡◌, ◌∙◌, refl, ◌⊎◌, ◌↔◌, inl, inr, true, false, ◌||◌, List, [], ◌∷◌, arith, Eq,
  ◌==◌, if◌then◌else◌, Bool-cases, Result, ok, err, contains, contains-append_one, length, ltb,
  number_eq,
}
use p2p_channel.Net.{SocketAddr, addr_v4, addr_v6, addr_eq, addr_beq_iff}
use p2p_channel.Punch.{NatType, symmetric, cone}
use p2p_channel.Stun.{
  insert_set, extend_set, port_summary, Nat, nat_of_count, ended, nat_of_addrs, Stun, test_nat,
  add_addrs, ask_servers, stun_test_nat0,
}
use p2p_channel.Stun.Reply.{AtMostOne, addrs_of, test_nat-AtMostOne}

module _ {A : Type 0} ⦃e : Eq A⦄ where
  pub contains-insert_set :
      (a b : A) (xs : List A) → contains (insert_set a xs) b ≡ (contains xs b || (a == b))
  unfolding insert_set
  contains-insert_set a b xs = ground (arith, contains-append_one xs a b, e.test_iff a b)

-- The IPv4 address is in the list with the port.
abbrev pub Has : List SocketAddr → ℕ → ℕ → Type 0
Has addrs ip port = contains addrs (addr_v4 ip port) ≡ true

module _ (ip port : ℕ) where
  -- The head is the address, or the tail has it.
  Has-cons :
      (a : SocketAddr) (addrs : List SocketAddr)
      → Has (a ∷ addrs) ip port
      → (a ≡ addr_v4 ip port) ⊎ Has addrs ip port
  Has-cons a addrs h = ground (arith, addr_beq_iff a (addr_v4 ip port))

  Has-later :
      (a : SocketAddr) (addrs : List SocketAddr) → Has addrs ip port → Has (a ∷ addrs) ip port
  Has-later a addrs h = ground arith

  summary_bounds :
      (addrs : List SocketAddr) (ips : List ℕ) (low high : ℕ)
      → let (ips', low', high') = port_summary addrs ips low high in
        (low' ≤ low)
        × (high ≤ high')
        × (contains ips ip ≡ true → contains ips' ip ≡ true)
        × (Has addrs ip port → (low' ≤ port) × (port ≤ high') × (contains ips' ip ≡ true))
  unfolding port_summary
  summary_bounds [] ips low high = (omega arith, omega arith, λ h. h, λ h. cc)
  summary_bounds (addr_v6 i p f s ∷ addrs) ips low high =
      let (a, b, c, d) = summary_bounds addrs ips low high in
      (a, b, c, λ h. elim (Has-cons (addr_v6 i p f s) addrs h) [ inl q ↦ cc | inr q ↦ d q ])
  summary_bounds (addr_v4 i p ∷ addrs) ips low high =
      let (a, b, c, d) =
        summary_bounds addrs (insert_set i ips) (if ltb p low then p else low)
          (if ltb high p then p else high) in
      (
        ground arith,
        ground arith,
        λ h. c (ground (arith, contains-insert_set i ip ips)),
        λ h. elim (Has-cons (addr_v4 i p) addrs h) [
          | inl q ↦
              let same_ip : i ≡ ip = cc in
              let same_port : p ≡ port = cc in
              (ground arith, ground arith, c (ground (arith, contains-insert_set i ip ips)))
          | inr q ↦ d q
        ],
      )

-- Every address of the set stands among the mapped addresses.
summary_origin :
    (ip : ℕ) (addrs : List SocketAddr) (ips : List ℕ) (low high : ℕ)
    → contains (port_summary addrs ips low high).0 ip ≡ true
    → (contains ips ip ≡ true) ⊎ ((port : ℕ) × Has addrs ip port)
unfolding port_summary
summary_origin ip [] ips low high h = inl h
summary_origin ip (addr_v6 i p f s ∷ addrs) ips low high h =
    elim (summary_origin ip addrs ips low high h) [
      | inl q ↦ inl q
      | inr (port, q) ↦ inr (port, Has-later ip port (addr_v6 i p f s) addrs q)
    ]
summary_origin ip (addr_v4 i p ∷ addrs) ips low high h =
    elim (summary_origin ip addrs (insert_set i ips) _ _ h) [
      | inl q ↦ here q
      | inr (port, q) ↦ inr (port, Has-later ip port (addr_v4 i p) addrs q)
    ]
  where
    here :
        contains (insert_set i ips) ip ≡ true
        → (contains ips ip ≡ true) ⊎ ((port : ℕ) × Has (addr_v4 i p ∷ addrs) ip port)
    here q = elim (Bool-cases (contains ips ip)) [
      | inl old ↦ inl old
      | inr new ↦ inr (
        p,
        ground (arith, contains-insert_set i ip ips, addr_beq_iff (addr_v4 i p) (addr_v4 ip p)),
      )
    ]

-- What `stun_test_nat0` finds in the mapped addresses `addrs`.
abbrev pub Summarises : List SocketAddr → Nat → Type 0
Summarises addrs (nat, ips, range) =
    ((nat ≡ symmetric) ↔ (1 < length addrs))
    × ((ip : ℕ) → contains ips ip ≡ true → (port : ℕ) × Has addrs ip port)
    × ((ip port : ℕ) → Has addrs ip port → contains ips ip ≡ true)
    × ((i p j q : ℕ) → Has addrs i p → Has addrs j q → p ≤ q + range)

ended-Summarises :
    (addrs : List SocketAddr) (t : List ℕ × ℕ × ℕ)
    → ((ip : ℕ) → contains t.0 ip ≡ true → (port : ℕ) × Has addrs ip port)
    → ((ip port : ℕ) → Has addrs ip port → (t.1 ≤ port) × (port ≤ t.2) × (contains t.0 ip ≡ true))
    → Summarises addrs (ended (nat_of_count (length addrs)) t)
ended-Summarises addrs ([], low, high) origin bounds = (
  (λ h. ground arith, λ h. ground arith),
  origin,
  λ ip port h. (bounds ip port h).2,
  λ i p j q h k. let no_ip : false ≡ true = (bounds i p h).2 in cc,
)
ended-Summarises addrs (x ∷ ips, low, high) origin bounds = (
  (λ h. ground arith, λ h. ground arith),
  origin,
  λ ip port h. (bounds ip port h).2,
  λ i p j q h k. omega (arith, (bounds i p h).1, (bounds j q k).0),
)

-- From the mapped addresses that the servers have reported, the NAT is taken to be symmetric
-- exactly when there are several of them; the public addresses are the IPv4 addresses among
-- them, each of these and no other; and any two of their ports differ by the range at most.
pub nat_of_addrs-Summarises : (addrs : List SocketAddr) → Summarises addrs (nat_of_addrs addrs)
unfolding nat_of_addrs
nat_of_addrs-Summarises addrs =
    ended-Summarises addrs (port_summary addrs [] 65535 0) origin
      (λ ip port h. (summary_bounds ip port addrs [] 65535 0).3 h)
  where
    origin :
        (ip : ℕ)
        → contains (port_summary addrs [] 65535 0).0 ip ≡ true
        → (port : ℕ) × Has addrs ip port
    origin ip h = elim (summary_origin ip addrs [] 65535 0 h) [ inl q ↦ cc | inr q ↦ q ]

added-le-one :
    {World : Type 0} (S : Stun World) (r : Result (List SocketAddr))
    → AtMostOne (addrs_of r)
    → length (add_addrs S r []) ≤ 1
unfolding extend_set insert_set
added-le-one S (err x) h = omega arith
added-le-one S (ok more) (inl q) = rw q (omega arith)
added-le-one S (ok more) (inr (a, q)) = rw q (omega arith)

count_of : {n : ℕ} → n ≤ 1 → nat_of_count n ≡ cone
count_of h = ground arith

ended_nat : (nat : NatType) (t : List ℕ × ℕ × ℕ) → (ended nat t).0 ≡ nat
ended_nat nat ([], low, high) = refl
ended_nat nat (x ∷ ips, low, high) = refl

-- One server never shows a symmetric NAT, whatever it answers to the two requests: the address
-- that the second answer maps is not used.
pub one_server_cone :
    {World : Type 0} (S : Stun World) (server : String) (w : World)
    → (stun_test_nat0 S (server ∷ []) w).0.0 ≡ cone
unfolding stun_test_nat0 nat_of_addrs ask_servers
one_server_cone S server w =
    let addrs = add_addrs S (test_nat S server w).0 [] in
    let few : length addrs ≤ 1 =
      added-le-one S (test_nat S server w).0 (test_nat-AtMostOne S server w) in
    ended_nat (nat_of_count (length addrs)) (port_summary addrs [] 65535 0) ∙ count_of few
