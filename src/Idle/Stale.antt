-- ===== src/Idle/Stale.antt =====
-- When a route is idle, without overflow: the specification of the body of the loop.
use p2p_channel.Base.{
  ◌<◌, ◌≡◌, ◌∙◌, refl, inl, inr, Bool, true, false, not, ◌&&◌, Option, none, some, arith,
  if◌then◌else◌, Bool-cases,
}
use p2p_channel.Base.Int.{
  ℤ, pos_part, neg_part, ltb_ℤ, ◌+ℤ◌, ◌-ℤ◌, sub_i64, sub_i64_exact, +ℤ_parts, -ℤ_parts, IsI64,
  i64_half,
}
use mathlib.Core.Path.{ap₂}
use p2p_channel.RouteTable.{Entry}
use p2p_channel.Idle.{Idle, IdleStatus, write, read, both, is_on, Visit, stop, go_on, visit}

-- More than `limit` milliseconds have gone by since `last`, and the limit is on.
unfoldable pub is_stale : ℤ → ℤ → ℤ → Bool
is_stale now limit last = is_on limit && ltb_ℤ (last +ℤ limit) now

abbrev pub status_of : Bool → Bool → Option IdleStatus
status_of true true = some both
status_of true false = some read
status_of false true = some write
status_of false false = none

-- Whether an entry is idle at a time, and in what way.
abbrev pub idle_status : {ID : Type 0} → Idle → ℤ → Entry ID → Option IdleStatus
idle_status idle now v =
    status_of (is_stale now idle.read_idle v.last_read) (is_stale now idle.write_idle v.last_write)

-- A time of the clock is an `i64` that is not negative.
abbrev pub IsTime : ℤ → Type 0
IsTime now = (neg_part now ≡ 0) × (pos_part now < i64_half)

late-stale :
    (now limit last : ℤ)
    → IsTime now
    → IsI64 limit
    → (is_on limit && ltb_ℤ last (sub_i64 now limit)) ≡ is_stale now limit last
unfolding is_stale
late-stale now limit last t l = elim (Bool-cases (is_on limit)) [
  | inl on ↦
      let exact : sub_i64 now limit ≡ now -ℤ limit =
        sub_i64_exact now limit (ground (arith, -ℤ_parts now limit)) in
      rw (on, exact) (ground (arith, -ℤ_parts now limit, +ℤ_parts last limit))
  | inr off ↦ rw off
]

abbrev pub stopped : Visit → Option IdleStatus
stopped (stop status) = some status
stopped (go_on min) = none

-- The four outcomes of the body of the loop, by its two tests.
visit_by_tests :
    {ID : Type 0} (idle : Idle) (lr lw min : ℤ) (v : Entry ID)
    → stopped (visit idle lr lw min v)
      ≡ status_of
          (is_on idle.read_idle && ltb_ℤ v.last_read lr)
          (is_on idle.write_idle && ltb_ℤ v.last_write lw)
unfolding visit
visit_by_tests idle lr lw min v =
    tests (is_on idle.read_idle) (ltb_ℤ v.last_read lr) (is_on idle.write_idle)
      (ltb_ℤ v.last_write lw)
  where
    tests :
        (a b c d : Bool)
        → stopped (
            let min' = if a && not b && ltb_ℤ v.last_read min then v.last_read else min in
            if c
            then if d
              then if a && b then stop both else stop write
              else if a && b
              then stop read
              else go_on (if ltb_ℤ v.last_write min' then v.last_write else min')
            else if a && b
            then stop read
            else go_on min')
          ≡ status_of (a && b) (c && d)
    tests true true true true = refl
    tests true true true false = refl
    tests true true false d = refl
    tests true false true true = refl
    tests true false true false = refl
    tests true false false d = refl
    tests false b true true = refl
    tests false b true false = refl
    tests false b false d = refl

-- For a time of the clock and limits that are `i64`, the body of the loop returns exactly when
-- the entry is idle, with the status that says in which way.
pub visit-idle_status :
    {ID : Type 0} (idle : Idle) (now min : ℤ) (v : Entry ID)
    → IsTime now
    → IsI64 idle.read_idle
    → IsI64 idle.write_idle
    → stopped (visit idle (sub_i64 now idle.read_idle) (sub_i64 now idle.write_idle) min v)
      ≡ idle_status idle now v
visit-idle_status idle now min v t r w =
    visit_by_tests idle (sub_i64 now idle.read_idle) (sub_i64 now idle.write_idle) min v
    ∙ ap₂ status_of (late-stale now idle.read_idle v.last_read t r)
        (late-stale now idle.write_idle v.last_write t w)
