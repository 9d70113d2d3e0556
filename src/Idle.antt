-- ===== src/Idle.antt =====
-- The search for idle routes: src/idle/mod.rs. Each turn of the loop of `next_idle` reads the
-- clock, the tables and the status anew; what it reads is a `Round`, and a call is run on the
-- rounds that it meets. An iteration reads the table as it is when the iteration starts.
pub mod Stale
pub mod First
pub mod Parking
use p2p_channel.Base.{
  ℕ, Bool, true, false, not, ◌&&◌, Option, none, some, List, [], ◌∷◌, if◌then◌else◌, Result, ok,
  err, new_error, other, Eq,
}
use p2p_channel.Base.Int.{ℤ, pos, negsuc, pos_part, ltb_ℤ, sub_i64, i64_max}
use p2p_channel.Route.{RouteKey, key_eq, Status}
use p2p_channel.RouteTable.{Entry, Store}
use p2p_channel.Sender.{is_status_close}

pub data IdleStatus : Type 0 where
  write read both : IdleStatus

-- `Idle`: the times after which a route is idle, in milliseconds; 0 or less is never.
pub record Idle : Type 0 where
  pub read_idle : ℤ
  pub write_idle : ℤ

abbrev pub is_on : ℤ → Bool
is_on limit = ltb_ℤ (pos 0) limit

-- What the body of the loop over the entries does: return a status, or go on with a new minimum.
pub data Visit : Type 0 where
  stop : IdleStatus → Visit
  go_on : ℤ → Visit

module _ (idle : Idle) (last_read_idle last_write_idle : ℤ) where
  unfoldable pub visit : {ID : Type 0} → ℤ → Entry ID → Visit
  visit min v =
      let late = ltb_ℤ v.last_read last_read_idle in
      let is_read_idle = is_on idle.read_idle && late in
      let min' =
        if is_on idle.read_idle && not late && ltb_ℤ v.last_read min then v.last_read else min in
      if is_on idle.write_idle
      then if ltb_ℤ v.last_write last_write_idle
        then if is_read_idle then stop both else stop write
        else if is_read_idle
        then stop read
        else go_on (if ltb_ℤ v.last_write min' then v.last_write else min')
      else if is_read_idle
      then stop read
      else go_on min'

pub data Scan (ID : Type 0) : Type 0 where
  found : IdleStatus → List ID → RouteKey → Scan ID
  clear : ℤ → Scan ID

abbrev pub on_visit : {ID : Type 0} → RouteKey → Entry ID → Visit → (ℤ → Scan ID) → Scan ID
on_visit key v (stop status) rest = found status v.ids key
on_visit key v (go_on min) rest = rest min

-- The loop over the entries.
unfoldable pub scan : {ID : Type 0} → Idle → ℤ → ℤ → ℤ → List (RouteKey × Entry ID) → Scan ID
scan idle last_read_idle last_write_idle min [] = clear min
scan idle last_read_idle last_write_idle min ((key, v) ∷ entries) =
    on_visit key v (visit idle last_read_idle last_write_idle min v)
      (λ min'. scan idle last_read_idle last_write_idle min' entries)

-- How the thread waits at the end of a turn.
pub data Wait : Type 0 where
  park : Wait
  park_timeout : ℕ → Wait
  no_wait : Wait

-- `times` is the table of the iteration and `times_after` that of `is_empty`, `now` and
-- `now_after` are the two readings of the clock, and `status_after` is the status after the wait.
pub record Round {ID : Type 0} ⦃e : Eq ID⦄ (S : Store ID) : Type 0 where
  pub now : ℤ
  pub times : S.times_api.Map
  pub times_after : S.times_api.Map
  pub now_after : ℤ
  pub status_after : Status

module _ {ID : Type 0} ⦃e : Eq ID⦄ (S : Store ID) (idle : Idle) where
  -- The loop over the entries, as a turn makes it.
  unfoldable pub scan_round : Round S → Scan ID
  scan_round r =
      scan idle (sub_i64 r.now idle.read_idle) (sub_i64 r.now idle.write_idle) i64_max
        (S.times_api.entries r.times)

  unfoldable pub wait_round : Round S → ℤ → Wait
  wait_round r min =
      if S.times_api.has_none r.times_after
      then park
      else let sleep_time = sub_i64 r.now_after min in
        if ltb_ℤ (pos 0) sleep_time then park_timeout (pos_part sleep_time) else no_wait

  abbrev pub Outcome : Type 0
  Outcome = List Wait × Option (Result (IdleStatus × List ID × RouteKey))

  abbrev pub waited : Wait → Outcome → Outcome
  waited wait (waits, out) = (wait ∷ waits, out)

  -- The end of a turn: `rest` is what the turns after it make.
  abbrev pub end_round : Round S → Outcome → Scan ID → Outcome
  end_round r rest (found status ids key) = ([], some (ok (status, ids, key)))
  end_round r rest (clear min) =
      if is_status_close r.status_after
      then (wait_round r min ∷ [], some (err (new_error other "closed")))
      else waited (wait_round r min) rest

  -- `next_idle`: the waits, and the result, or `none` where the rounds end first.
  unfoldable pub next_idle : List (Round S) → Outcome
  next_idle [] = ([], none)
  next_idle (r ∷ rounds) = end_round r (next_idle rounds) (scan_round r)
