-- ===== src/Sender/Retry.antt =====
-- What comes before the result of `send_all` (src/channel/sender.rs, lines 82 to 106).
use mathlib.Core.Path.{subst}
use native.Mathlib.Bridge.{le_prop}
use mathlib.Core.Logic.{dif_pos, dif_neg}
use p2p_channel.Base.{
  ℕ, zero, suc, ◌+◌, ◌≤◌, ◌<◌, ◌≡◌, ◌∙◌, sym, refl, inl, inr, Bool, true, false, List, arith,
  dec_lt, Result, ok, err, IoError, Bool-cases, if◌then◌else◌,
}
use p2p_channel.Net.{SocketAddr}
use p2p_channel.Os.{Os, WorldOf, Io}
use p2p_channel.Sender.{is_retried, on_sent, send_round, send_loop, send_all}

-- The result is a length, or an error that is not tried again.
abbrev pub is_settled : Result ℕ → Bool
is_settled (ok len) = true
is_settled (err e) = if is_retried e then false else true

module _ (O : Os) (udp : O.Socket) (buf : List ℕ) (addr : SocketAddr) where
  -- From the first world to the second by so many sends that would block or timed out, each
  -- followed by a yield.
  pub data Retried : ℕ → WorldOf O → WorldOf O → Type 0 where
    start : {w : WorldOf O} → Retried zero w w
    again :
        {n : ℕ} {w w' v : WorldOf O} (e : IoError)
        → O.send_to udp buf addr w ≡ (err e, w')
        → is_retried e ≡ true
        → Retried n (O.yield_now w') v
        → Retried (suc n) w v

  -- How a call that may send `left + 1` times comes to its result: a settled send after at most
  -- `left` others, or `left + 1` sends that are all to be tried again.
  pub data Sends (left : ℕ) (w : WorldOf O) (out : Result ℕ × WorldOf O) : Type 0 where
    settled :
        (n : ℕ) (v : WorldOf O)
        → n ≤ left
        → Retried n w v
        → O.send_to udp buf addr v ≡ out
        → is_settled out.0 ≡ true
        → Sends left w out
    gave_up :
        (v v' : WorldOf O) (e : IoError)
        → Retried left w v
        → O.send_to udp buf addr v ≡ (err e, v')
        → is_retried e ≡ true
        → out ≡ (err e, O.yield_now v')
        → Sends left w out

  later :
      {left : ℕ} {w w' : WorldOf O} {out : Result ℕ × WorldOf O} (e : IoError)
      → O.send_to udp buf addr w ≡ (err e, w')
      → is_retried e ≡ true
      → Sends left (O.yield_now w') out
      → Sends (suc left) w out
  later e s r (settled n v le p q h) = settled (suc n) v (omega arith) (again e s r p) q h
  later e s r (gave_up v v' e' p q r' h) = gave_up v v' e' (again e s r p) q r' h

  -- One round, by the outcome of its send.
  send_round-Sends :
      (left count : ℕ) (more : ¬ (10 < count + 1) → Io O ℕ) (w : WorldOf O)
      → ((h : ¬ (10 < count + 1)) (e : IoError) (w' : WorldOf O)
          → O.send_to udp buf addr w ≡ (err e, w')
          → is_retried e ≡ true
          → Sends left w (more h (O.yield_now w')))
      → (10 < count + 1 → left ≡ 0)
      → Sends left w (send_round O udp buf addr count more w)
  unfolding send_round
  send_round-Sends left count more w rest last = go (O.send_to udp buf addr w) refl
    where
      go :
          (out : Result ℕ × WorldOf O)
          → O.send_to udp buf addr w ≡ out
          → Sends left w (on_sent O count more out.0 out.1)
      go (ok len, w') s = settled 0 w (omega arith) start s refl
      go (err e, w') s = elim (Bool-cases (is_retried e)) [
        | inl r ↦ elim (dec_lt 10 (count + 1)) [
          | yes p ↦
              gave_up w w' e (rw (last p) start) s r
                (rw (r, on_sent) (dif_pos (dec_lt 10 (count + 1)) le_prop p _ _))
          | no p ↦
              subst (Sends left w) (sym (rw (r, on_sent) (dif_neg (dec_lt 10 (count + 1)) p _ _)))
                (rest p e w' s r)
        ]
        | inr r ↦
            settled 0 w (omega arith) start (s ∙ sym (rw (r, on_sent))) (rw (r, on_sent) (rw r))
      ]

  send_loop-Sends :
      (left count : ℕ) (h : count + left ≡ 10) (w : WorldOf O)
      → Sends left w (send_loop O udp buf addr left count h w)
  unfolding send_loop
  send_loop-Sends zero count h w =
      send_round-Sends zero count (λ more. absurd (more (omega arith))) w
        (λ more e w' s r. absurd (more (omega arith))) (λ p. omega arith)
  send_loop-Sends (suc left) count h w =
      send_round-Sends (suc left) count
        (λ more. send_loop O udp buf addr left (count + 1) (omega arith)) w
        (λ more e w' s r.
          later e s r (send_loop-Sends left (count + 1) (omega arith) (O.yield_now w')))
        (λ p. absurd (omega arith))

  -- `send_all` always returns. Either the result is that of a send which came after at most ten
  -- others, all of which would block or timed out, and is a length or an error of another kind;
  -- or eleven sends would block or timed out, and the result is the error of the last.
  pub send_all-Sends : (w : WorldOf O) → Sends 10 w (send_all O udp buf addr w)
  unfolding send_all
  send_all-Sends w = send_loop-Sends 10 0 (omega arith) w
