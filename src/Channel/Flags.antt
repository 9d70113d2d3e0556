-- ===== src/Channel/Flags.antt =====
-- The flags in the list of the wakers: what a clone adds and a drop takes out.
use p2p_channel.Base.{
  ℕ, ◌+◌, ◌%◌, ◌≤◌, ◌<◌, ◌≡◌, ◌∙◌, refl, ap, Bool, true, false, List, [], ◌∷◌, ◌++◌, arith, nat_beq,
  nat_beq_iff, ◌⊎◌, inl, inr, if◌then◌else◌, Result, ok, err, number_eq, contains, retain_ne,
}
use p2p_channel.Os.{Os, WorldOf}
use p2p_channel.Reactor.{Reactor}
use p2p_channel.Channel.{
  Channel, Group, change, built, with_parts, clone_parts, try_clone, retain_wakers,
}
use p2p_channel.Channel.Clones.{AllBelow}

module _ {O : Os} (R : Reactor O) where
  abbrev pub flags : List (ℕ × R.Waker) → List ℕ
  flags [] = []
  flags ((flag, k) ∷ wakers) = flag ∷ flags wakers

  flags-append :
      (wakers : List (ℕ × R.Waker)) (f : ℕ) (k : R.Waker)
      → flags (wakers ++ (f, k) ∷ []) ≡ flags wakers ++ f ∷ []
  flags-append [] f k = refl
  flags-append ((g, j) ∷ wakers) f k = ap (λ fs. g ∷ fs) (flags-append wakers f k)

  pub flags-retain_wakers :
      (f : ℕ) (wakers : List (ℕ × R.Waker))
      → flags (retain_wakers R f wakers) ≡ retain_ne f (flags wakers)
  unfolding retain_wakers
  flags-retain_wakers f [] = refl
  flags-retain_wakers f ((g, k) ∷ wakers) = go (nat_beq g f) (flags-retain_wakers f wakers)
    where
      go :
          (b : Bool)
          → flags (retain_wakers R f wakers) ≡ retain_ne f (flags wakers)
          → flags (if b then retain_wakers R f wakers else (g, k) ∷ retain_wakers R f wakers)
            ≡ (if b then retain_ne f (flags wakers) else g ∷ retain_ne f (flags wakers))
      go true ih = ih
      go false ih = ap (λ fs. g ∷ fs) ih

  pub AllBelow-contains :
      (n m : ℕ) (wakers : List (ℕ × R.Waker))
      → AllBelow R n wakers
      → n ≤ m
      → contains (flags wakers) m ≡ false
  AllBelow-contains n m [] h le = refl
  AllBelow-contains n m ((f, k) ∷ wakers) h le =
      let rest = AllBelow-contains n m wakers h.1 le in
      let less : f < n = h.0 in ground (arith, nat_beq_iff f m, rest, less, le)

  -- A clone as the list of the wakers shows it.
  abbrev pub Grown : Group R → Result (Channel R) × Group R × WorldOf O → Type 0
  Grown g (ok c, g', w) =
      (c.channel_flag ≡ g.flag_gen)
      × ((k : R.Waker) × (g'.wakers ≡ g.wakers ++ (g.flag_gen, k) ∷ []))
  Grown g (err x, g', w) =
      (g'.wakers ≡ g.wakers) ⊎ ((k : R.Waker) × (g'.wakers ≡ g.wakers ++ (g.flag_gen, k) ∷ []))

  pub try_clone-Grown : (c : Channel R) (g : Group R) (w : WorldOf O) → Grown g (try_clone R c g w)
  unfolding try_clone
  try_clone-Grown c g w = go (clone_parts R c.src_default_udp w)
    where
      next : Group R
      next = record g { flag_gen = (g.flag_gen + 1) % 18446744073709551616 }

      go :
          (o : Result (O.Socket × O.Socket × R.Poll × R.Waker) × WorldOf O)
          → Grown g (with_parts R g.flag_gen c.size next o)
      go (err x, w') = inl refl
      go (ok (src, default, poll, waker), w') = made (change R [] poll c.size w')
        where
          grown : Group R
          grown = record next { wakers = g.wakers ++ (g.flag_gen, waker) ∷ [] }

          made :
              (o : Result (Unit {0}) × List O.Socket × WorldOf O)
              → Grown g (
                (built R g.flag_gen c.size (src, default, poll, waker) o).0,
                grown,
                (built R g.flag_gen c.size (src, default, poll, waker) o).1,
              )
          made (err x, udps, v) = inr (waker, refl)
          made (ok done, udps, v) = (refl, (waker, refl))

  pub grown_flags :
      (g g' : Group R) (k : R.Waker)
      → g'.wakers ≡ g.wakers ++ (g.flag_gen, k) ∷ []
      → flags g'.wakers ≡ flags g.wakers ++ g.flag_gen ∷ []
  grown_flags g g' k h = ap flags h ∙ flags-append g.wakers g.flag_gen k

  pub try_clone-flag_gen :
      (c : Channel R) (g : Group R) (w : WorldOf O)
      → (try_clone R c g w).1.flag_gen ≡ (g.flag_gen + 1) % 18446744073709551616
  unfolding try_clone
  try_clone-flag_gen c g w = go (clone_parts R c.src_default_udp w)
    where
      go :
          (o : Result (O.Socket × O.Socket × R.Poll × R.Waker) × WorldOf O)
          → (with_parts R g.flag_gen c.size
              (record g { flag_gen = (g.flag_gen + 1) % 18446744073709551616 })
              o).1.flag_gen
            ≡ (g.flag_gen + 1) % 18446744073709551616
      go (err x, v) = refl
      go (ok parts, v) = refl
