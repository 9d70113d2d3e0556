-- ===== src/Idle/Parking.antt =====
-- How long `next_idle` waits between two turns.
use p2p_channel.Base.{
  ℕ, ◌+◌, ◌<◌, ◌≤◌, ◌≡◌, ◌∙◌, refl, ap, true, false, none, List, [], ◌∷◌, arith, Eq,
}
use p2p_channel.Base.Int.{
  ℤ, pos, ltb_ℤ, ◌+ℤ◌, ◌-ℤ◌, sub_i64, sub_i64_exact, -ℤ_parts, i64_max, i64_half,
}
use p2p_channel.Route.{RouteKey, key_eq}
use p2p_channel.RouteTable.{Entry, Store}
use p2p_channel.Sender.{is_status_close}
use p2p_channel.Idle.{
  Idle, is_on, visit, clear, scan, Round, scan_round, wait_round, end_round, next_idle, Wait,
  park_timeout, no_wait,
}
use p2p_channel.Idle.Stale.{IsTime, is_stale}

-- With both limits off the loop over the entries finds nothing, and the minimum stays.
scan_off :
    {ID : Type 0} (idle : Idle) (lr lw min : ℤ) (entries : List (RouteKey × Entry ID))
    → is_on idle.read_idle ≡ false
    → is_on idle.write_idle ≡ false
    → scan idle lr lw min entries ≡ clear min
unfolding scan visit
scan_off idle lr lw min [] r w = refl
scan_off idle lr lw min ((key, v) ∷ entries) r w = rw (r, w) (scan_off idle lr lw min entries r w)

module _ {ID : Type 0} ⦃e : Eq ID⦄ (S : Store ID) (idle : Idle) where
  -- The table is not empty when the turn asks, the clock is not negative, and the channel is open.
  abbrev pub IsBusy : Round S → Type 0
  IsBusy r =
      (S.times_api.has_none r.times_after ≡ false)
      × IsTime r.now_after
      × (is_status_close r.status_after ≡ false)

  abbrev pub AllBusy : List (Round S) → Type 0
  AllBusy [] = Unit {0}
  AllBusy (r ∷ rounds) = IsBusy r × AllBusy rounds

  abbrev pub spins : List (Round S) → List Wait
  spins [] = []
  spins (r ∷ rounds) = no_wait ∷ spins rounds

  wait_off : (r : Round S) → IsBusy r → wait_round S idle r i64_max ≡ no_wait
  unfolding wait_round
  wait_off r b =
      let exact : sub_i64 r.now_after i64_max ≡ r.now_after -ℤ i64_max =
        sub_i64_exact r.now_after i64_max (ground (arith, b.1, -ℤ_parts r.now_after i64_max)) in
      rw (b.0, exact) (ground (arith, b.1, -ℤ_parts r.now_after i64_max))

  -- With both limits off, as long as the table holds a route and the channel is open,
  -- `next_idle` never waits: it goes through the table again at once, and does not return.
  pub next_idle-spins :
      (rounds : List (Round S))
      → is_on idle.read_idle ≡ false
      → is_on idle.write_idle ≡ false
      → AllBusy rounds
      → next_idle S idle rounds ≡ (spins rounds, none)
  unfolding next_idle scan_round
  next_idle-spins [] r w b = refl
  next_idle-spins (t ∷ rounds) r w b =
      ap (end_round S idle t (next_idle S idle rounds)) (
        scan_off idle (sub_i64 t.now idle.read_idle) (sub_i64 t.now idle.write_idle) i64_max
          (S.times_api.entries t.times) r w)
      ∙ rw (b.0.2) (rw (wait_off t b.0, next_idle-spins rounds r w b.1))

  module _ (key : RouteKey) (v : Entry ID) (r : Round S) (last limit d : ℕ) where
    -- A turn that meets one route, which was read at `last` and is not idle, with the read limit
    -- on and the write limit off, and that asks for the time again `d` milliseconds after `last`.
    pub record MeetsOne : Type 0 where
      pub entries : S.times_api.entries r.times ≡ (key, v) ∷ []
      pub filled : S.times_api.has_none r.times_after ≡ false
      pub opened : is_status_close r.status_after ≡ false
      pub read_limit : idle.read_idle ≡ pos limit
      pub write_limit : is_on idle.write_idle ≡ false
      pub read_at : v.last_read ≡ pos last
      pub asked_at : r.now_after ≡ pos (last + d)
      pub limit_on : (0 < limit) × (limit < i64_half)
      pub not_idle : (n : ℕ) × (r.now ≡ pos n) × (n ≤ last + limit) × (n < i64_half)
      pub in_time : last + d < i64_half
      pub not_max : last < 9223372036854775807

    one_clear : MeetsOne → scan_round S idle r ≡ clear (pos last)
    unfolding scan_round scan visit
    one_clear m =
        let (n, now_is, le, lt) = m.not_idle in
        let exact : sub_i64 (pos n) (pos limit) ≡ pos n -ℤ pos limit =
          sub_i64_exact (pos n) (pos limit)
            (ground (arith, lt, m.limit_on, -ℤ_parts (pos n) (pos limit))) in
        let fresh : ltb_ℤ (pos last) (pos n -ℤ pos limit) ≡ false =
          ground (arith, le, -ℤ_parts (pos n) (pos limit)) in
        let on : is_on (pos limit) ≡ true = ground (arith, m.limit_on) in
        let less : ltb_ℤ (pos last) i64_max ≡ true = ground (arith, m.not_max) in
        rw (m.entries, now_is, m.read_limit, m.write_limit, m.read_at, exact, on, fresh, less)

    one_wait : MeetsOne → 0 < d → wait_round S idle r (pos last) ≡ park_timeout d
    unfolding wait_round
    one_wait m h =
        let exact : sub_i64 (pos (last + d)) (pos last) ≡ pos (last + d) -ℤ pos last =
          sub_i64_exact (pos (last + d)) (pos last)
            (ground (arith, m.in_time, -ℤ_parts (pos (last + d)) (pos last))) in
        let elapsed : pos (last + d) -ℤ pos last ≡ pos d = unfold ◌-ℤ◌ in ground arith in
        let positive : ltb_ℤ (pos 0) (pos d) ≡ true = ground arith in
        rw (m.filled, m.asked_at, exact) (rw elapsed (rw positive))

    -- In such a turn `next_idle` waits for as long as the route has been quiet, `d`, and not for
    -- the time that is left to it: where `d` is more than half of the limit, the route is idle
    -- before the wait is over.
    pub next_idle_oversleeps :
        MeetsOne
        → 0 < d
        → limit < d + d
        → (next_idle S idle (r ∷ []) ≡ (park_timeout d ∷ [], none))
          × (is_stale (pos (last + d + d)) (pos limit) (pos last) ≡ true)
    unfolding next_idle is_stale ◌+ℤ◌
    next_idle_oversleeps m h late = (
      ap (end_round S idle r ([], none)) (one_clear m) ∙ rw m.opened (rw (one_wait m h)),
      ground (arith, m.limit_on),
    )
