-- ===== src/Idle/First.antt =====
-- `next_idle` returns the first idle route of the first turn that has one.
use p2p_channel.Base.{
  ◌≡◌, ◌∙◌, refl, inl, inr, Option, none, some, List, [], ◌∷◌, if◌then◌else◌, Result, ok, err,
  new_error, other, Eq, Bool-cases,
}
use mathlib.Core.Path.{ap₂}
use p2p_channel.Base.Int.{ℤ, sub_i64, IsI64, i64_max}
use p2p_channel.Route.{RouteKey, key_eq}
use p2p_channel.RouteTable.{Entry, Store}
use p2p_channel.Sender.{is_status_close}
use p2p_channel.Idle.{
  Idle, IdleStatus, Visit, stop, go_on, visit, Scan, found, clear, on_visit, scan, Round,
  scan_round, end_round, next_idle,
}
use p2p_channel.Idle.Stale.{idle_status, stopped, visit-idle_status, IsTime}

-- The first entry that is idle.
abbrev pub first_idle :
    {ID : Type 0} → Idle → ℤ → List (RouteKey × Entry ID) → Option (IdleStatus × List ID × RouteKey)
first_idle idle now [] = none
first_idle idle now ((key, v) ∷ entries) =
    let rest = first_idle idle now entries in
    elim (idle_status idle now v) [ some status ↦ some (status, v.ids, key) | none ↦ rest ]

abbrev pub found_of : {ID : Type 0} → Scan ID → Option (IdleStatus × List ID × RouteKey)
found_of (found status ids key) = some (status, ids, key)
found_of (clear min) = none

module _ (idle : Idle) (now : ℤ) (t : IsTime now) (r : IsI64 idle.read_idle)
    (w : IsI64 idle.write_idle) where
  scan-first_idle :
      {ID : Type 0} (entries : List (RouteKey × Entry ID)) (min : ℤ)
      → found_of (scan idle (sub_i64 now idle.read_idle) (sub_i64 now idle.write_idle) min entries)
        ≡ first_idle idle now entries
  unfolding scan
  scan-first_idle [] min = refl
  scan-first_idle ((key, v) ∷ entries) min =
      go (visit idle (sub_i64 now idle.read_idle) (sub_i64 now idle.write_idle) min v)
        (idle_status idle now v) (visit-idle_status idle now min v t r w)
        (λ min'. scan-first_idle entries min')
    where
      go :
          (o : Visit) (s : Option IdleStatus)
          → stopped o ≡ s
          → ((min' : ℤ)
              → found_of (
                  scan idle (sub_i64 now idle.read_idle) (sub_i64 now idle.write_idle) min' entries)
                ≡ first_idle idle now entries)
          → found_of (
              on_visit key v o (λ min'.
                scan idle (sub_i64 now idle.read_idle) (sub_i64 now idle.write_idle) min' entries))
            ≡ (elim s [
              | some status ↦ some (status, v.ids, key)
              | none ↦ first_idle idle now entries
            ])
      go (stop status) s e ih = rw (← e)
      go (go_on min') s e ih = rw (← e) (ih min')

module _ {ID : Type 0} ⦃e : Eq ID⦄ (S : Store ID) (idle : Idle) where
  -- What is asked of the rounds: the clock is not negative.
  abbrev pub HaveTimes : List (Round S) → Type 0
  HaveTimes [] = Unit {0}
  HaveTimes (r ∷ rounds) = IsTime r.now × HaveTimes rounds

  abbrev pub or_later :
      Round S
      → Option (Result (IdleStatus × List ID × RouteKey))
      → Option (IdleStatus × List ID × RouteKey)
      → Option (Result (IdleStatus × List ID × RouteKey))
  or_later r rest (some x) = some (ok x)
  or_later r rest none =
      if is_status_close r.status_after then some (err (new_error other "closed")) else rest

  -- The first idle entry of the first turn that has one, unless a turn before it ends closed.
  abbrev pub answer : List (Round S) → Option (Result (IdleStatus × List ID × RouteKey))
  answer [] = none
  answer (r ∷ rounds) =
      or_later r (answer rounds) (first_idle idle r.now (S.times_api.entries r.times))

  -- `next_idle` returns the first idle route of the first turn that has one, with its peers and
  -- the way in which it is idle; it returns an error if a turn before that finds the channel
  -- closed after its wait; and it waits on if there is neither.
  pub next_idle-answer :
      (rounds : List (Round S))
      → IsI64 idle.read_idle
      → IsI64 idle.write_idle
      → HaveTimes rounds
      → (next_idle S idle rounds).1 ≡ answer rounds
  unfolding next_idle scan_round
  next_idle-answer [] i j h = refl
  next_idle-answer (r ∷ rounds) i j h =
      ends (scan_round S idle r)
      ∙ ap₂ (or_later r) (next_idle-answer rounds i j h.1)
          (scan-first_idle idle r.now h.0 i j (S.times_api.entries r.times) i64_max)
    where
      ends :
          (o : Scan ID)
          → (end_round S idle r (next_idle S idle rounds) o).1
            ≡ or_later r (next_idle S idle rounds).1 (found_of o)
      ends (found status ids key) = refl
      ends (clear min) = elim (Bool-cases (is_status_close r.status_after)) [
        | inl q ↦ rw q
        | inr q ↦ rw q
      ]
