-- ===== src/Stun/Reply.antt =====
-- What is read from a reply, and what `test_nat` makes of the replies of a server.
use Prim.Native.String.{String}
use p2p_channel.Base.{
  ℕ, ◌+◌, ◌≡◌, ◌∙◌, refl, ◌⊎◌, inl, inr, true, false, Option, none, some, List, [], ◌∷◌,
  if◌then◌else◌, Bool-cases, Result, ok, err, beq_refl,
}
use p2p_channel.Net.{SocketAddr, is_ipv4, addr_eq}
use p2p_channel.Os.{continue}
use p2p_channel.Stun.{
  Attr, mapped_address, changed_address, xor_mapped_address, other_attr, stun_addr, insert_set,
  both_some, take_mapped, take_changed, read_attrs, first_mapped, Stun, Reply, second, on_connect,
  first_addrs, after_first, test_nat, test_nat_request,
}

-- The first changed address.
abbrev pub first_changed : List Attr → Option SocketAddr
first_changed [] = none
first_changed (changed_address a ∷ xs) = some (stun_addr a)
first_changed (mapped_address a ∷ xs) = first_changed xs
first_changed (xor_mapped_address a ∷ xs) = first_changed xs
first_changed (other_attr ∷ xs) = first_changed xs

-- The value that is there, or else the other one.
abbrev pub or_else : Option SocketAddr → Option SocketAddr → Option SocketAddr
or_else none b = b
or_else (some a) b = some a

or_else_mapped :
    (x : Attr) (xs : List Attr) (m : Option SocketAddr)
    → or_else (take_mapped x m) (first_mapped xs) ≡ or_else m (first_mapped (x ∷ xs))
unfolding first_mapped
or_else_mapped (mapped_address a) xs none = refl
or_else_mapped (mapped_address a) xs (some b) = refl
or_else_mapped (changed_address a) xs none = refl
or_else_mapped (changed_address a) xs (some b) = refl
or_else_mapped (xor_mapped_address a) xs none = refl
or_else_mapped (xor_mapped_address a) xs (some b) = refl
or_else_mapped other_attr xs none = refl
or_else_mapped other_attr xs (some b) = refl

or_else_changed :
    (x : Attr) (xs : List Attr) (m : Option SocketAddr)
    → or_else (take_changed x m) (first_changed xs) ≡ or_else m (first_changed (x ∷ xs))
or_else_changed (mapped_address a) xs none = refl
or_else_changed (mapped_address a) xs (some b) = refl
or_else_changed (changed_address a) xs none = refl
or_else_changed (changed_address a) xs (some b) = refl
or_else_changed (xor_mapped_address a) xs none = refl
or_else_changed (xor_mapped_address a) xs (some b) = refl
or_else_changed other_attr xs none = refl
or_else_changed other_attr xs (some b) = refl

or_else-none : (m : Option SocketAddr) → or_else m none ≡ m
or_else-none none = refl
or_else-none (some a) = refl

read_attrs_from :
    (xs : List Attr) (m c : Option SocketAddr)
    → read_attrs xs m c ≡ (or_else m (first_mapped xs), or_else c (first_changed xs))
unfolding read_attrs first_mapped
read_attrs_from [] m c = rw (or_else-none m, or_else-none c)
read_attrs_from (x ∷ xs) m c =
    early (take_mapped x m) (take_changed x c)
      (read_attrs_from xs (take_mapped x m) (take_changed x c))
    ∙ (λ i. (or_else_mapped x xs m i, or_else_changed x xs c i))
  where
    early :
        (m' c' : Option SocketAddr)
        → read_attrs xs m' c' ≡ (or_else m' (first_mapped xs), or_else c' (first_changed xs))
        → (if both_some m' c' then (m', c') else read_attrs xs m' c')
          ≡ (or_else m' (first_mapped xs), or_else c' (first_changed xs))
    early none c' ih = ih
    early (some a) none ih = ih
    early (some a) (some b) ih = refl

-- The loop over the attributes of a reply, which may end early, finds the first mapped address,
-- plain or masked, and the first changed address, whatever stands between and behind them.
pub read_attrs-first :
    (xs : List Attr) → read_attrs xs none none ≡ (first_mapped xs, first_changed xs)
read_attrs-first xs = read_attrs_from xs none none

-- The addresses that one server adds: none, or one.
abbrev pub AtMostOne : List SocketAddr → Type 0
AtMostOne addrs = (addrs ≡ []) ⊎ ((a : SocketAddr) × (addrs ≡ a ∷ []))

first_addrs-one : {World : Type 0} (S : Stun World) (a : SocketAddr) → AtMostOne (first_addrs S a)
unfolding insert_set
first_addrs-one S a = elim (Bool-cases (is_ipv4 a)) [ inl q ↦ inr (a, rw q) | inr q ↦ inl (rw q) ]

-- The first mapped address, once more.
again-one :
    {World : Type 0} (S : Stun World) (a : SocketAddr) → insert_set a (first_addrs S a) ≡ a ∷ []
unfolding insert_set
again-one S a = elim (Bool-cases (is_ipv4 a)) [ inl q ↦ rw q (rw (beq_refl a)) | inr q ↦ rw q ]

-- The addresses of a result; an error adds none.
abbrev pub addrs_of : Result (List SocketAddr) → List SocketAddr
addrs_of (ok addrs) = addrs
addrs_of (err x) = []

module _ {World : Type 0} (S : Stun World) where
  second-one :
      (a : SocketAddr) (o : Reply S) → AtMostOne (addrs_of (second S a (first_addrs S a) o).0)
  second-one a (err x, w) = first_addrs-one S a
  second-one a (ok (mapped, changed), w) = elim (Bool-cases (is_ipv4 mapped)) [
    | inl q ↦ inr (a, rw q (again-one S a))
    | inr q ↦ rw q (first_addrs-one S a)
  ]

  after_first-one :
      (tid : ℕ) (o : Reply S) → AtMostOne (addrs_of (continue o (after_first S tid)).0)
  after_first-one tid (err x, w) = inl refl
  after_first-one tid (ok (a, none), w) = first_addrs-one S a
  after_first-one tid (ok (a, some changed), w) = go (S.connect_addr changed w)
    where
      go :
          (o : Result (Unit {0}) × World)
          → AtMostOne (addrs_of (on_connect S tid a (first_addrs S a) o).0)
      go (ok done, w') = second-one a (test_nat_request S false false (tid + 1) w')
      go (err x, w') = first_addrs-one S a

  pub test_nat-AtMostOne :
      (server : String) (w : World) → AtMostOne (addrs_of (test_nat S server w).0)
  unfolding test_nat
  test_nat-AtMostOne server w = go (S.connect_server server w)
    where
      go :
          (o : Result (Unit {0}) × World)
          → AtMostOne (
              addrs_of
                (continue o (λ done w'.
                  let (tid, v) = S.next_u64 w' in
                  continue (test_nat_request S true true tid v) (after_first S tid))).0)
      go (ok done, w') =
          let (tid, v) = S.next_u64 w' in after_first-one tid (test_nat_request S true true tid v)
      go (err x, w') = inl refl
