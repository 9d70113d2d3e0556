-- ===== src/Punch/Safety.antt =====
-- `punch` does not panic, and keeps the window of every peer in range.
use p2p_channel.Base.{
  ℕ, ◌+◌, ◌*◌, ◌≤◌, ◌<◌, ◌≡◌, refl, ◌⊎◌, inl, inr, Bool, false, Option, some, List, [], arith,
  length, dec_lt, ltb, Bool-cases, Result, ok, err, new_error, other, Eq,
}
use p2p_channel.Os.{Os, WorldOf}
use p2p_channel.Ports.{last_port, near_ports, window_end, window_next, limits, IsShuffle}
use p2p_channel.Ports.Predicted.{near_ports_lem, near_ports-zero, slice_of_le}
use p2p_channel.Ports.Window.{window_bounds}
use p2p_channel.Sender
use p2p_channel.Punch.{
  NatInfo, NatType, index_or_zero, update, symmetric, cone, Punch, or_stop, punch_all, punch_cone,
  punch_near, punch_window, punch_local, punch_by_type, punch,
}

-- The build does not check for overflow, or the peer's public port and its width are not both 0.
abbrev pub NoOverflow : Bool → NatInfo → Type 0
NoOverflow checks nat = (checks ≡ false) ⊎ (0 < nat.public_port + nat.public_port_range)

near_ports_total :
    (checks : Bool) (shuffle : List ℕ → List ℕ) (port range max_k1 : ℕ)
    → IsShuffle shuffle
    → port ≤ last_port
    → (checks ≡ false) ⊎ (0 < port + range)
    → (ports : List ℕ) × (near_ports checks shuffle port range max_k1 ≡ some ports)
near_ports_total checks shuffle port range max_k1 s p c = elim (dec_lt 0 (port + range)) [
  | yes h ↦ (_, near_ports_lem checks shuffle port range max_k1 s p h)
  | no h ↦
      let port0 : port ≡ 0 = omega arith in
      let range0 : range ≡ 0 = omega arith in
      let unchecked : checks ≡ false = ground arith in
      ([], rw (port0, range0, unchecked) (near_ports-zero false shuffle max_k1))
]

module _ (O : Os) {ID : Type 0} ⦃e : Eq ID⦄ where
  -- The window of each peer starts inside `port_vec`.
  abbrev pub IsValid : Punch O ID → Type 0
  IsValid p = (id : ID) → index_or_zero (p.port_index id) < length p.port_vec

  -- A result that leaves a valid state.
  abbrev pub Returns : Option (Result (Unit {0}) × Punch O ID × WorldOf O) → Type 0
  Returns out = (r : Result (Unit {0}) × Punch O ID × WorldOf O) × (out ≡ some r) × IsValid r.1

  or_stop-Returns :
      (p : Punch O ID) (o : Result (Unit {0}) × WorldOf O)
      (rest : WorldOf O → Option (Result (Unit {0}) × Punch O ID × WorldOf O))
      → IsValid p
      → ((w : WorldOf O) → Returns (rest w))
      → Returns (or_stop O p o rest)
  or_stop-Returns p (ok done, w) rest v h = h w
  or_stop-Returns p (err x, w) rest v h = ((err x, p, w), refl, v)

  update-valid :
      (f : ID → Option ℕ) (id : ID) (i n : ℕ)
      → i < n
      → ((j : ID) → index_or_zero (f j) < n)
      → (j : ID) → index_or_zero (update f id i j) < n
  update-valid f id i n h v j = ground (arith, v j)

  module _ (buf : List ℕ) (id : ID) (nat : NatInfo) where
    punch_near_total :
        (checks : Bool) (shuffle : List ℕ → List ℕ) (p : Punch O ID) (is_cone : Bool)
        (w : WorldOf O)
        → IsShuffle shuffle
        → nat.public_port ≤ last_port
        → NoOverflow checks nat
        → (o : Result (Unit {0}) × WorldOf O) × (punch_near O checks shuffle buf nat p is_cone w
            ≡ some o)
    unfolding punch_near
    punch_near_total checks shuffle p is_cone w s l c =
        let (ports, h) =
          near_ports_total checks shuffle nat.public_port nat.public_port_range (limits is_cone).0 s
            l c in
        elim (Bool-cases (ltb nat.public_port_range ((limits is_cone).0 * 4))) [
          | inl small ↦ (
            punch_all O p.sender buf nat.public_ips (limits is_cone).0 is_cone ports w,
            rw (small, h),
          )
          | inr wide ↦ ((ok tt, w), rw wide)
        ]

    punch_window-Returns :
        (p : Punch O ID) (is_cone : Bool) (w : WorldOf O)
        → IsValid p
        → Returns (punch_window O buf id nat p is_cone w)
    unfolding punch_window
    punch_window-Returns p is_cone w v =
        let size = length p.port_vec in
        let start = index_or_zero (p.port_index id) in
        let max_k2 = (limits is_cone).1 in
        let b = window_bounds size max_k2 start (v id) in
        let here = slice_of_le p.port_vec start (window_end size max_k2 start) b.0 b.1 in
        let p' : Punch O ID = record p { port_index = update p.port_index id start } in
        let v' : IsValid p' = update-valid p.port_index id start size (v id) v in
        rw here (
          or_stop-Returns p' _ _ v' (λ w'.
            (_, refl, update-valid p'.port_index id (window_next size max_k2 start) size b.2 v')))

    -- `punch` returns, with no slice out of range and no overflow that the build would check,
    -- whatever the peer's NAT and whether the datagrams are sent or not, if the windows are in
    -- range, the public port is a `u16`, and the port and its width are not both 0 or the build
    -- has no overflow checks. The windows are in range afterwards.
    pub punch-Returns :
        (checks : Bool) (shuffle : List ℕ → List ℕ) (p : Punch O ID) (w : WorldOf O)
        → IsShuffle shuffle
        → nat.public_port ≤ last_port
        → NoOverflow checks nat
        → IsValid p
        → Returns (punch O checks shuffle buf id nat p w)
    unfolding punch
    punch-Returns checks shuffle p w s l c v = elim (Bool-cases (Sender.is_close O w)) [
      | inl closed ↦ ((err (new_error other "close"), p, w), rw closed, v)
      | inr opened ↦
          let w' = punch_local O buf nat p w in
          rw opened (by_type nat.nat_type (Sender.is_cone O w') w')
    ]
      where
        by_type :
            (t : NatType) (is_cone : Bool) (w' : WorldOf O)
            → Returns (punch_by_type O t checks shuffle buf id nat p is_cone w')
        by_type symmetric is_cone w' =
            let (o, h) = punch_near_total checks shuffle p is_cone w' s l c in
            rw h (
              or_stop-Returns p o (punch_window O buf id nat p is_cone) v
                (λ w''. punch_window-Returns p is_cone w'' v))
        by_type cone is_cone w' =
            or_stop-Returns p (punch_cone O p.sender buf nat.public_port nat.public_ips w')
              (λ w''. some (ok tt, p, w'')) v (λ w''. (_, refl, v))
