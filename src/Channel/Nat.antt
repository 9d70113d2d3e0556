-- ===== src/Channel/Nat.antt =====
-- The NAT type and the closing of a channel, as its clones see them.
use p2p_channel.Base.{
  ℕ, ◌≡◌, ◌∙◌, refl, sym, ap, true, List, [], ◌∷◌, Result, ok, err, new_error, other,
}
use mathlib.Core.Path.{subst}
use p2p_channel.Net.{SocketAddr}
use p2p_channel.Route.{Status}
use p2p_channel.Os.{Os, WorldOf, continue}
use p2p_channel.Reactor.{Reactor, Laws}
use p2p_channel.Sender.{is_status_close}
use p2p_channel.Punch.{NatType}
use p2p_channel.Channel.{
  Channel, Group, wake_all, set_from, set_nat_type, nat_of, nat_type, close, send_to_addr,
  change_to, change,
}

-- A call on some clone that may set the status.
pub data Command : Type 0 where
  set_type : NatType → Command
  shut : Command

module _ {O : Os} (R : Reactor O) where
  abbrev pub command : Command → Group R → WorldOf O → WorldOf O
  command (set_type nat) g w = (set_nat_type R nat g w).1
  command shut g w = (close R g w).1

  -- The commands in the order in which they take the lock of the wakers; the group may be
  -- another one at each.
  abbrev pub commands : List (Command × Group R) → WorldOf O → WorldOf O
  commands [] w = w
  commands ((c, g) ∷ cs) w = commands cs (command c g w)

  -- What a closed channel answers, whatever clone is asked.
  abbrev pub AnswersClosed : WorldOf O → Type 0
  AnswersClosed w =
      (nat_type R w ≡ err (new_error other "closed"))
      × ((nat : NatType) (g : Group R)
          → set_nat_type R nat g w ≡ (err (new_error other "closed"), w))
      × ((c : Channel R) (buf : List ℕ) (addr : SocketAddr)
          → send_to_addr R c buf addr w ≡ (err (new_error other "closed"), w))
      × ((udps : List O.Socket) (poll : R.Poll) (size : ℕ)
          → change R udps poll size w ≡ (err (new_error other "channel close"), udps, w))

module _ {O : Os} (R : Reactor O) (L : Laws R) where
  wake_all-status :
      (wakers : List (ℕ × R.Waker)) (w : WorldOf O) → ((wake_all R wakers w).1).status ≡ w.status
  unfolding wake_all
  wake_all-status [] w = refl
  wake_all-status ((flag, waker) ∷ wakers) w =
      go (R.wake waker w) (λ v. wake_all-status wakers v) ∙ L.wake_keeps waker w
    where
      go :
          (o : Result (Unit {0}) × WorldOf O)
          → ((v : WorldOf O) → ((wake_all R wakers v).1).status ≡ v.status)
          → ((continue o (λ done. wake_all R wakers)).1).status ≡ o.1.status
      go (ok done, v) ih = ih v
      go (err x, v) ih = refl

  set_from-status :
      (st : Status) (nat : NatType) (g : Group R) (w v : WorldOf O)
      → w.status ≡ st
      → set_from R st nat g.wakers w ≡ (ok tt, v)
      → nat_of R v.status ≡ ok nat
  set_from-status Status.cone NatType.symmetric g w v s h =
      ap (nat_of R) (sym (ap (λ o. o.1.status) h) ∙ wake_all-status g.wakers _)
  set_from-status Status.cone NatType.cone g w v s h =
      ap (nat_of R) (sym (ap (λ o. o.1.status) h) ∙ s)
  set_from-status Status.symmetric NatType.cone g w v s h =
      ap (nat_of R) (sym (ap (λ o. o.1.status) h) ∙ wake_all-status g.wakers _)
  set_from-status Status.symmetric NatType.symmetric g w v s h =
      ap (nat_of R) (sym (ap (λ o. o.1.status) h) ∙ s)
  set_from-status Status.close nat g w v s h = cc

  -- After a `set_nat_type` that succeeds, `nat_type` is the type that was set.
  pub nat_type-set_nat_type :
      (nat : NatType) (g : Group R) (w v : WorldOf O)
      → set_nat_type R nat g w ≡ (ok tt, v)
      → nat_type R v ≡ ok nat
  unfolding set_nat_type nat_type
  nat_type-set_nat_type nat g w v h = set_from-status w.status nat g w v refl h

  command-close :
      (c : Command) (g : Group R) (w : WorldOf O)
      → w.status ≡ Status.close
      → (command R c g w).status ≡ Status.close
  unfolding set_nat_type close
  command-close (set_type nat) g w h =
      subst (λ st. ((set_from R st nat g.wakers w).1).status ≡ Status.close) (sym h) h
  command-close shut g w h = wake_all-status g.wakers (record w { status = Status.close })

  commands-close :
      (cs : List (Command × Group R)) (w : WorldOf O)
      → w.status ≡ Status.close
      → (commands R cs w).status ≡ Status.close
  commands-close [] w h = h
  commands-close ((c, g) ∷ cs) w h = commands-close cs (command R c g w) (command-close c g w h)

  closed_answers : (w : WorldOf O) → w.status ≡ Status.close → AnswersClosed R w
  unfolding nat_type set_nat_type send_to_addr change
  closed_answers w h = (
    ap (nat_of R) h,
    λ nat g. ap (λ st. set_from R st nat g.wakers w) h,
    λ c buf addr. let closed : is_status_close w.status ≡ true = ap is_status_close h in rw closed,
    λ udps poll size. ap (λ st. change_to R st udps poll size w) h,
  )

  -- The status after a close and any commands.
  pub close-commands :
      (g : Group R) (cs : List (Command × Group R)) (w : WorldOf O)
      → (commands R cs (close R g w).1).status ≡ Status.close
  unfolding close
  close-commands g cs w =
      commands-close cs (close R g w).1
        (wake_all-status g.wakers (record w { status = Status.close }))

  -- A close is final: whatever commands follow it, from whatever clones, and whether a waker
  -- fails or not, `nat_type`, `set_nat_type` and `send_to_addr` return the error `closed` and
  -- `change` the error `channel close`, and none of them changes anything.
  pub close_final :
      (g : Group R) (cs : List (Command × Group R)) (w : WorldOf O)
      → AnswersClosed R (commands R cs (close R g w).1)
  close_final g cs w = closed_answers (commands R cs (close R g w).1) (close-commands g cs w)
