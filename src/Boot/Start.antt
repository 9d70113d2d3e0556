-- ===== src/Boot/Start.antt =====
-- The state in which `Boot::new` leaves the parts.
use p2p_channel.Base.{ℕ, ◌≡◌, refl, List, [], ◌∷◌, arith, Result, ok, err, Eq}
use mathlib.Core.Path.{subst}
use p2p_channel.Base.Int.{ℤ}
use p2p_channel.Route.{cone}
use p2p_channel.RouteTable.{Store}
use p2p_channel.RouteTable.Linked.{IsLinked}
use p2p_channel.RouteTable.Run.{empty_tables-IsLinked}
use p2p_channel.Os.{Os, WorldOf, continue}
use p2p_channel.Reactor.{Reactor, Laws}
use p2p_channel.Sender.{Sender}
use p2p_channel.Ports.{IsShuffle}
use p2p_channel.Ports.Window.{all_ports_lem}
use p2p_channel.Punch.{NatType, NatInfo}
use p2p_channel.Punch.Safety.{IsValid}
use p2p_channel.Queues.{QueueApi}
use p2p_channel.Queues.Order.{waiting, waiting-boot_queues}
use p2p_channel.Channel.{Channel, Group}
use p2p_channel.Channel.Clones.{IsFresh}
use p2p_channel.Boot.{new_punch, new_channel, sender, Booted, boot}

-- What holds of the value, if there is one.
abbrev OnOk : {A W : Type 0} → (A → Type 0) → Result A × W → Type 0
OnOk P (ok a, w) = P a
OnOk P (err x, w) = Unit {0}

OnOk-continue :
    {A B W : Type 0} (P : B → Type 0) (o : Result A × W) (f : A → W → Result B × W)
    → ((a : A) (w : W) → o ≡ (ok a, w) → OnOk P (f a w))
    → OnOk P (continue o f)
OnOk-continue P (ok a, w) f h = h a w refl
OnOk-continue P (err x, w) f h = tt

module _ {O : Os} (R : Reactor O) (L : Laws R) where
  -- A first channel: it receives on a copy of the socket that it sends from.
  abbrev pub IsFirst : Channel R × Group R → Type 0
  IsFirst (c, g) =
      L.Alias c.src_default_udp c.default_udp
      × (c.udp_list ≡ [])
      × ((k : R.Waker) × (g.wakers ≡ (c.channel_flag, k) ∷ []))
      × IsFresh R g

  new_channel-IsFirst : (size : ℕ) (w : WorldOf O) → OnOk IsFirst (new_channel R size w)
  unfolding new_channel
  new_channel-IsFirst size w = OnOk-continue IsFirst (R.bind_any w) _ (λ src w1 _.
      OnOk-continue IsFirst (R.set_nonblocking src w1) _ (λ done w2 _.
        OnOk-continue IsFirst (R.try_clone src w2) _ (λ copy w3 cloned.
          OnOk-continue IsFirst (R.poll_new (record w3 { share_info = [] })) _ (λ poll w4 _.
            OnOk-continue IsFirst (R.waker_new poll _ w4) _ (λ waker w5 _.
              OnOk-continue IsFirst (R.register poll (R.from_std copy) _ w5) _ (λ registered w6 _.
                (L.clone_alias src copy w2 w3 cloned, refl, (waker, refl), (omega arith, tt))))))))

  module _ {ID : Type 0} ⦃e : Eq ID⦄ (S : Store ID) (Q : QueueApi (ID × NatInfo)) where
    new_punch-IsValid :
        (shuffle : List ℕ → List ℕ) (s : Sender O)
        → IsShuffle shuffle
        → IsValid O (new_punch {O = O} {ID = ID} shuffle s)
    unfolding new_punch
    new_punch-IsValid shuffle s sh id = omega (arith, (all_ports_lem shuffle sh).0)

    -- The state from which the parts start.
    abbrev pub IsReady : Booted R S Q → Type 0
    IsReady b =
        IsFirst (b.channel, b.group)
        × IsValid O b.punch
        × IsLinked S b.tables
        × ((ty : NatType) → waiting Q ty b.queues ≡ [])

    boot-OnOk :
        (size : ℕ) (read_idle write_idle : ℤ) (parker : S.Parker) (shuffle : List ℕ → List ℕ)
        (w : WorldOf O)
        → IsShuffle shuffle
        → OnOk IsReady (boot R S Q size read_idle write_idle parker shuffle w)
    unfolding boot
    boot-OnOk size read_idle write_idle parker shuffle w sh =
        OnOk-continue IsReady (new_channel R size (record w { status = cone })) _ (λ made w1 q.
          let first : IsFirst made =
            subst (OnOk IsFirst) q (new_channel-IsFirst size (record w { status = cone })) in
          OnOk-continue IsReady (sender R made.0 w1) _ (λ send_half w2 _. (
            first,
            new_punch-IsValid shuffle send_half sh,
            empty_tables-IsLinked S parker,
            waiting-boot_queues Q,
          )))

    -- When `Boot::new` succeeds, the parts are in the state from which the others start: the
    -- channel has no own sockets, its waker is the only one, its flag is not the next one, and it
    -- receives on a copy of the socket that it sends from; the windows of the punch are in range,
    -- the tables are linked, and no punch waits in the queues. Shuffling is taken to permute, and
    -- a copy of a socket to be one.
    pub boot-IsReady :
        (size : ℕ) (read_idle write_idle : ℤ) (parker : S.Parker) (shuffle : List ℕ → List ℕ)
        (w w' : WorldOf O) (b : Booted R S Q)
        → IsShuffle shuffle
        → boot R S Q size read_idle write_idle parker shuffle w ≡ (ok b, w')
        → IsReady b
    boot-IsReady size read_idle write_idle parker shuffle w w' b sh q =
        subst (OnOk IsReady) q (boot-OnOk size read_idle write_idle parker shuffle w sh)
