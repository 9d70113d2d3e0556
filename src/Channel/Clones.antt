-- ===== src/Channel/Clones.antt =====
-- The wakers of the clones of a channel.
use p2p_channel.Base.{
  ℕ, ◌+◌, ◌%◌, ◌<◌, ◌≡◌, ◌∙◌, refl, ap, Bool, true, false, List, [], ◌∷◌, ◌++◌, arith, nat_beq,
  if◌then◌else◌, Result, ok, err, new_error, other,
}
use p2p_channel.Route.{Status}
use p2p_channel.Os.{Os, WorldOf}
use p2p_channel.Reactor.{Reactor}
use p2p_channel.Channel.{
  Channel, Group, change_to, change, built, with_parts, clone_parts, try_clone, retain_wakers, drop,
}

module _ {O : Os} (R : Reactor O) where
  -- Every flag in the list is smaller.
  abbrev pub AllBelow : ℕ → List (ℕ × R.Waker) → Type 0
  AllBelow n [] = Unit {0}
  AllBelow n ((flag, waker) ∷ wakers) = (flag < n) × AllBelow n wakers

  -- The next flag is not in use.
  abbrev pub IsFresh : Group R → Type 0
  IsFresh g = AllBelow g.flag_gen g.wakers

  AllBelow-mono :
      (n : ℕ) (wakers : List (ℕ × R.Waker)) → AllBelow n wakers → AllBelow (n + 1) wakers
  AllBelow-mono n [] h = tt
  AllBelow-mono n ((flag, waker) ∷ wakers) h = (omega arith, AllBelow-mono n wakers h.1)

  AllBelow-append :
      (n : ℕ) (wakers : List (ℕ × R.Waker)) (flag : ℕ) (k : R.Waker)
      → AllBelow n wakers
      → flag < n
      → AllBelow n (wakers ++ (flag, k) ∷ [])
  AllBelow-append n [] flag k h l = (l, tt)
  AllBelow-append n ((f, waker) ∷ wakers) flag k h l = (h.0, AllBelow-append n wakers flag k h.1 l)

  AllBelow-retain :
      (n flag : ℕ) (wakers : List (ℕ × R.Waker))
      → AllBelow n wakers
      → AllBelow n (retain_wakers R flag wakers)
  unfolding retain_wakers
  AllBelow-retain n flag [] h = tt
  AllBelow-retain n flag ((f, waker) ∷ wakers) h =
      go (nat_beq f flag) (AllBelow-retain n flag wakers h.1)
    where
      go :
          (b : Bool)
          → AllBelow n (retain_wakers R flag wakers)
          → AllBelow n
              (if b then retain_wakers R flag wakers else (f, waker) ∷ retain_wakers R flag wakers)
      go true ih = ih
      go false ih = (h.0, ih)

  retain_append :
      (n : ℕ) (wakers : List (ℕ × R.Waker)) (k : R.Waker)
      → AllBelow n wakers
      → retain_wakers R n (wakers ++ (n, k) ∷ []) ≡ wakers
  unfolding retain_wakers
  retain_append n [] k h = ground arith
  retain_append n ((f, waker) ∷ wakers) k h =
      let apart : nat_beq f n ≡ false = ground (arith, h.0) in
      rw (apart, retain_append n wakers k h.1)

  -- Dropping a channel keeps the next flag unused.
  pub drop-IsFresh : (c : Channel R) (g : Group R) → IsFresh g → IsFresh (drop R c g)
  unfolding drop
  drop-IsFresh c g h = AllBelow-retain g.flag_gen c.channel_flag g.wakers h

  -- A clone that succeeds, as the group sees it.
  abbrev pub Cloned : Group R → Result (Channel R) × Group R × WorldOf O → Type 0
  Cloned g (ok c, g', w) =
      (c.channel_flag ≡ g.flag_gen) × ((drop R c g').wakers ≡ g.wakers) × IsFresh g'
  Cloned g (err x, g', w) = IsFresh g'

  -- While the counter of the flags does not wrap, a clone has a flag that no waker has, and its
  -- drop takes its own waker from the list and no other: the list is that of before the clone.
  -- The next flag stays unused, also if the clone fails.
  pub try_clone-Cloned :
      (c : Channel R) (g : Group R) (w : WorldOf O)
      → IsFresh g
      → g.flag_gen + 1 < 18446744073709551616
      → Cloned g (try_clone R c g w)
  unfolding try_clone drop
  try_clone-Cloned c g w h l = go (clone_parts R c.src_default_udp w)
    where
      next_flag : (g.flag_gen + 1) % 18446744073709551616 ≡ g.flag_gen + 1
      next_flag = omega arith

      go :
          (o : Result (O.Socket × O.Socket × R.Poll × R.Waker) × WorldOf O)
          → Cloned g (
              with_parts R g.flag_gen c.size
                (record g { flag_gen = (g.flag_gen + 1) % 18446744073709551616 })
                o)
      go (err x, w') = rw next_flag (AllBelow-mono g.flag_gen g.wakers h)
      go (ok (src, default, poll, waker), w') = made (change R [] poll c.size w')
        where
          grown : IsFresh (record g {
            flag_gen = (g.flag_gen + 1) % 18446744073709551616;
            wakers = g.wakers ++ (g.flag_gen, waker) ∷ [];
          })
          grown = rw next_flag (
              AllBelow-append (g.flag_gen + 1) g.wakers g.flag_gen waker
                (AllBelow-mono g.flag_gen g.wakers h) (omega arith))

          made :
              (o : Result (Unit {0}) × List O.Socket × WorldOf O)
              → Cloned g (
                (built R g.flag_gen c.size (src, default, poll, waker) o).0,
                record g {
                  flag_gen = (g.flag_gen + 1) % 18446744073709551616;
                  wakers = g.wakers ++ (g.flag_gen, waker) ∷ [];
                },
                (built R g.flag_gen c.size (src, default, poll, waker) o).1,
              )
          made (err x, udps, v) = grown
          made (ok done, udps, v) = (refl, retain_append g.flag_gen g.wakers waker h, grown)

  -- A clone of a closed channel fails once its sockets, its poll and its waker are there, and
  -- its waker stays in the list, though no channel will take it out.
  pub try_clone_leaks :
      (c : Channel R) (g : Group R) (w v : WorldOf O) (src default : O.Socket) (poll : R.Poll)
      (waker : R.Waker)
      → clone_parts R c.src_default_udp w ≡ (ok (src, default, poll, waker), v)
      → v.status ≡ Status.close
      → ((try_clone R c g w).0 ≡ err (new_error other "channel close"))
        × ((try_clone R c g w).1.wakers ≡ g.wakers ++ (g.flag_gen, waker) ∷ [])
  unfolding try_clone
  try_clone_leaks c g w v src default poll waker h closed =
      let next : Group R = record g { flag_gen = (g.flag_gen + 1) % 18446744073709551616 } in
      let parts : O.Socket × O.Socket × R.Poll × R.Waker = (src, default, poll, waker) in
      let fails =
        ap (λ st. built R g.flag_gen c.size parts (change_to R st [] poll c.size v)) closed in
      (
        ap (λ o. (with_parts R g.flag_gen c.size next o).0) h ∙ ap (λ o. o.0) fails,
        ap (λ o. (with_parts R g.flag_gen c.size next o).1.wakers) h,
      )
