-- ===== src/Ports/Predicted.antt =====
-- The ports near the public one: the bounds of the range, and how many of it are tried.
use p2p_channel.Base.{
  ℕ, zero, suc, ◌+◌, ◌-◌, ◌≤◌, ◌<◌, ◌≡◌, ◌∙◌, refl, ap, Bool, true, false, ◌&&◌, none, some, List,
  [], ◌∷◌, arith, length, length-append, take, drop, contains, number_eq, ltb, leb, if◌then◌else◌,
  contains-append_one,
}
use p2p_channel.Ports.{
  ports_from, port_range, last_port, sub_u16, add_u16, slice, min_port, max_port, tries, near_ports,
  IsShuffle,
}

-- The port can be reached from the public one in `range` steps.
abbrev pub is_near : ℕ → ℕ → ℕ → Bool
is_near port range q = leb 1 q && leb q last_port && leb port (q + range) && leb q (port + range)

length-ports_from : (low n : ℕ) → length (ports_from low n) ≡ n
unfolding ports_from
length-ports_from low zero = refl
length-ports_from low (suc n) = ap suc (length-ports_from (low + 1) n)

pub length-port_range : (low high : ℕ) → low ≤ high → length (port_range low high) ≡ high - low + 1
unfolding port_range
length-port_range low high h = omega (
  arith,
  length-append (ports_from low (high - low)) (high ∷ []),
  length-ports_from low (high - low),
)

pub contains-ports_from :
    (low n q : ℕ) → contains (ports_from low n) q ≡ (leb low q && ltb q (low + n))
unfolding ports_from
contains-ports_from low zero q = ground arith
contains-ports_from low (suc n) q = ground (arith, contains-ports_from (low + 1) n q)

pub contains-port_range :
    (low high q : ℕ) → low ≤ high → contains (port_range low high) q ≡ (leb low q && leb q high)
unfolding port_range
contains-port_range low high q h = ground (
  arith,
  contains-append_one (ports_from low (high - low)) high q,
  contains-ports_from low (high - low) q,
)

module _ (port range : ℕ) (p : port ≤ last_port) where
  pub port_bounds :
      0 < port + range
      → (1 ≤ min_port port range)
        × (min_port port range ≤ max_port port range)
        × (max_port port range ≤ last_port)
  unfolding min_port max_port
  port_bounds h = ground arith

  -- The range that is predicted from a public port and a width, not both 0, holds exactly the
  -- ports from 1 to 65535 that differ from the public one by the width at most.
  pub predicted_range :
      0 < port + range
      → (q : ℕ)
      → contains (port_range (min_port port range) (max_port port range)) q ≡ is_near port range q
  predicted_range h q =
      contains-port_range (min_port port range) (max_port port range) q (port_bounds h).1 ∙ near
    where
      near : (leb (min_port port range) q && leb q (max_port port range)) ≡ is_near port range q
      near = unfold min_port max_port in ground arith

sub_u16_of_le : (checks : Bool) (a b : ℕ) → b ≤ a → sub_u16 checks a b ≡ some (a - b)
unfolding sub_u16
sub_u16_of_le checks a b h = ground arith

add_u16_of_lt : (checks : Bool) (a b : ℕ) → a + b < 65536 → add_u16 checks a b ≡ some (a + b)
unfolding add_u16
add_u16_of_lt checks a b h = ground arith

-- The smaller of the limit and the width of the range.
abbrev pub tried : ℕ → ℕ → ℕ → ℕ
tried port range max_k1 =
    let span = max_port port range - min_port port range + 1 in
    if ltb max_k1 span then max_k1 else span

tries_lem :
    (checks : Bool) (port range max_k1 : ℕ)
    → port ≤ last_port
    → 0 < port + range
    → tries checks port range max_k1 ≡ some (tried port range max_k1)
unfolding tries
tries_lem checks port range max_k1 p h =
    let b = port_bounds port range p h in
    let width = max_port port range - min_port port range in
    rw (sub_u16_of_le checks (max_port port range) (min_port port range) b.1)
      (rw (add_u16_of_lt checks width 1 (omega arith)))

pub slice_of_le :
    {A : Type 0} (xs : List A) (low high : ℕ)
    → low ≤ high
    → high ≤ length xs
    → slice xs low high ≡ some (take (high - low) (drop low xs))
unfolding slice
slice_of_le xs low high h k = ground arith

-- The selection of the ports near a public port never panics, in a build with overflow checks
-- or without, if the port and the width are not both 0: it is the front of the shuffled range,
-- as long as the limit, or the whole range where that is shorter.
pub near_ports_lem :
    (checks : Bool) (shuffle : List ℕ → List ℕ) (port range max_k1 : ℕ)
    → IsShuffle shuffle
    → port ≤ last_port
    → 0 < port + range
    → near_ports checks shuffle port range max_k1
      ≡ some (
          take
            (tried port range max_k1)
            (shuffle (port_range (min_port port range) (max_port port range))))
unfolding near_ports
near_ports_lem checks shuffle port range max_k1 s p h =
    let b = port_bounds port range p h in
    let all = port_range (min_port port range) (max_port port range) in
    rw (tries_lem checks port range max_k1 p h) (
      slice_of_le (shuffle all) 0 (tried port range max_k1) (omega arith) (
        ground (
          arith,
          s.same_length all,
          length-port_range (min_port port range) (max_port port range) b.1,
        ))
      ∙ ap (λ (n : ℕ). some (take n (shuffle all))) (omega arith))

-- A build with overflow checks panics on a peer whose public port and width are both 0, and one
-- without them tries no port of the range.
pub near_ports-zero :
    (checks : Bool) (shuffle : List ℕ → List ℕ) (max_k1 : ℕ)
    → near_ports checks shuffle 0 0 max_k1 ≡ (if checks then none else some [])
unfolding near_ports tries min_port max_port
near_ports-zero true shuffle max_k1 = refl
near_ports-zero false shuffle max_k1 = ground arith
