-- ===== src/Peer/Shutdown/Ends.antt =====
-- After the close every run of the threads is finite, and one that stops has let `main` return.

use p2p_channel.Base.{
  ℕ, suc, zero, ◌≡◌, refl, ap, true, false, not, List, [], ◌∷◌, arith, inl, inr, ◌⊎◌, Bool-cases,
}
use p2p_channel.Punch.{NatInfo}
use p2p_channel.Queues.{QueueApi}
use p2p_channel.Peer.Shutdown.{
  Thread, idle_thr, punch_cone_thr, puch_sym_thr, receive_thr, recev_punch_thr,
  report_and_heart_thr, Starter, waits, joins, ended, is_running, Ending, has_ended, has_channel,
  can_recv, Step, receive_ends, idle_ends, heart_ends, cone_ends, symmetric_ends, panics,
  stops_waiting, starter_ends, triggers_punch, joins_thread,
}

module _ {ID : Type 0} (Q : QueueApi (ID × NatInfo)) (s : Ending Q) where
  -- Some thread can make a step.
  abbrev pub CanStep : Type 0
  CanStep = (t : Ending Q) × Step Q s t

  -- The cases of a field, with the equation.
  at_list : {A : Type 0} (xs : List A) → (xs ≡ []) ⊎ ((x : A) × (rest : List A) × (xs ≡ x ∷ rest))
  at_list [] = inl refl
  at_list (x ∷ xs) = inr (x, xs, refl)

  at_starter : (st : Starter) → (st ≡ waits) ⊎ ((st ≡ joins) ⊎ (st ≡ ended))
  at_starter waits = inl refl
  at_starter joins = inr (inl refl)
  at_starter ended = inr (inr refl)

  at_number : (n : ℕ) → (n ≡ 0) ⊎ ((m : ℕ) × (n ≡ suc m))
  at_number zero = inl refl
  at_number (suc m) = inr (m, refl)

  -- A fact, or else a step: with the fact go on.
  infixl 5 ◌>>=◌
  ◌>>=◌ : {A B : Type 0} → A ⊎ CanStep → (A → B ⊎ CanStep) → B ⊎ CanStep
  inl a >>= f = f a
  inr step >>= f = inr step

  -- A thread that triggers punches can always go on.
  trigger_step : (s.triggers ≡ []) ⊎ CanStep
  trigger_step = elim (at_list s.triggers) [
    | inl h ↦ inl h
    | inr (t, rest, h) ↦ inr (_, triggers_punch [] rest t h)
  ]

  receive_step : (s.receive ≡ false) ⊎ CanStep
  receive_step = elim (Bool-cases s.receive) [ inl h ↦ inr (_, receive_ends h) | inr h ↦ inl h ]

  idle_step : (s.idle ≡ false) ⊎ CanStep
  idle_step = elim (Bool-cases s.idle) [ inl h ↦ inr (_, idle_ends h) | inr h ↦ inl h ]

  heart_step : (s.heart ≡ false) ⊎ CanStep
  heart_step = elim (Bool-cases s.heart) [ inl h ↦ inr (_, heart_ends h) | inr h ↦ inl h ]

  waiting_step : s.starter ≡ waits → (is_running s.starter ≡ false) ⊎ CanStep
  waiting_step h = elim (at_number s.pending) [
    | inl k ↦ receive_step >>= λ r. inr (_, stops_waiting h k r)
    | inr (n, k) ↦ inr (_, panics h k)
  ]

  starter_step : (is_running s.starter ≡ false) ⊎ CanStep
  starter_step = elim (at_starter s.starter) [
    | inl h ↦ waiting_step h
    | inr (inl h) ↦ trigger_step >>= λ k. inr (_, starter_ends h k)
    | inr (inr h) ↦ inl (ap is_running h)
  ]

  -- All clones of the channel are dropped.
  channels_gone : (has_channel Q s ≡ false) ⊎ CanStep
  channels_gone = do
    idle ← idle_step
    heart ← heart_step
    receive ← receive_step
    starter ← starter_step
    triggers ← trigger_step
    inl (rw (idle, heart, receive, starter, triggers) refl)

  -- A thread that punches waits for a peer, and so only while there is a channel.
  recv_step : (q : Q.Queue) → (can_recv Q q s ≡ true) ⊎ CanStep
  recv_step q = channels_gone >>= λ gone. inl (ground (arith, gone))

  cone_step : (s.cone ≡ false) ⊎ CanStep
  cone_step = elim (Bool-cases s.cone) [
    | inl h ↦ recv_step s.queues.cone >>= λ k. inr (_, cone_ends h k)
    | inr h ↦ inl h
  ]

  symmetric_step : (s.symmetric ≡ false) ⊎ CanStep
  symmetric_step = elim (Bool-cases s.symmetric) [
    | inl h ↦ recv_step s.queues.symmetric >>= λ k. inr (_, symmetric_ends h k)
    | inr h ↦ inl h
  ]

  thread_step : (thread : Thread) → (has_ended Q thread s ≡ true) ⊎ CanStep
  thread_step idle_thr = idle_step >>= λ h. inl (ap not h)
  thread_step punch_cone_thr = cone_step >>= λ h. inl (ap not h)
  thread_step puch_sym_thr = symmetric_step >>= λ h. inl (ap not h)
  thread_step receive_thr = receive_step >>= λ h. inl (ap not h)
  thread_step recev_punch_thr = starter_step >>= λ h. inl (ap not h)
  thread_step report_and_heart_thr = heart_step >>= λ h. inl (ap not h)

  -- Nobody waits for ever.
  pub main_step : (s.to_join ≡ []) ⊎ CanStep
  main_step = elim (at_list s.to_join) [
    | inl h ↦ inl h
    | inr (thread, threads, h) ↦
        thread_step thread >>= λ k. inr (_, joins_thread thread threads h k)
  ]
