-- ===== src/Peer/Clones.antt =====
-- The clones that `main` of examples/peer.rs makes for its threads, lines 76, 98, 146 and 147. An
-- `unwrap` that panics is `none`.
use mathlib.Core.Path.{subst}
use p2p_channel.Base.{
  ℕ, ◌+◌, ◌<◌, ◌≡◌, refl, sym, ap, Option, none, some, List, [], ◌∷◌, length, Result, ok, err, Eq,
}
use p2p_channel.Os.{Os, WorldOf}
use p2p_channel.Reactor.{Reactor}
use p2p_channel.Channel.{Channel, Group, try_clone}
use p2p_channel.Channel.Registry.{clones, after_clone, IsRegistered, acts-IsRegistered}
use p2p_channel.Ports.{IsShuffle}
use p2p_channel.Punch.{Punch}
use p2p_channel.Punch.Safety.{IsValid}
use p2p_channel.Boot.Copies.{try_clone_punch, try_clone_punch-IsValid}

-- The value, or a panic.
abbrev pub or_panic : {A G W B : Type 0} → Result A × G × W → (A → G → W → Option B) → Option B
or_panic (ok a, g, w) rest = rest a g w
or_panic (err x, g, w) rest = none

or_panic-some :
    {A G W B : Type 0} (o : Result A × G × W) (rest : A → G → W → Option B) (b : B)
    → or_panic o rest ≡ some b
    → (a : A) × (g : G) × (w : W) × (o ≡ (ok a, g, w)) × (rest a g w ≡ some b)
or_panic-some (ok a, g, w) rest b h = (a, g, w, refl, h)
or_panic-some (err x, g, w) rest b h = absurd cc

at_some : {B : Type 0} (P : B → Type 0) (a b : B) → some a ≡ some b → P a → P b
at_some P a b h = let same : a ≡ b = cc in subst P same

module _ {O : Os} (R : Reactor O) (ID : Type 0) where
  -- The clones: for the thread that removes idle routes, for the symmetric punches, for the
  -- thread that starts the triggers, and for the close.
  pub record MainClones : Type 0 where
    pub channel_route : Channel R
    pub punch2 : Punch O ID
    pub chanel2 : Channel R
    pub chanel3 : Channel R

module _ {O : Os} (R : Reactor O) where
  -- The clones that the threads make one after the other.
  three_clones :
      (c c1 c2 c3 : Channel R) (g g1 g2 g3 : Group R) (w w1 w' w2 w3 : WorldOf O)
      → g.flag_gen + 3 < 18446744073709551616
      → IsRegistered R (c.channel_flag ∷ [], g)
      → try_clone R c g w ≡ (ok c1, g1, w1)
      → try_clone R c g1 w' ≡ (ok c2, g2, w2)
      → try_clone R c g2 w2 ≡ (ok c3, g3, w3)
      → IsRegistered R
          (c3.channel_flag ∷ c2.channel_flag ∷ c1.channel_flag ∷ c.channel_flag ∷ [], g3)
  three_clones c c1 c2 c3 g g1 g2 g3 w w1 w' w2 w3 room reg q1 q2 q3 =
      let live = c.channel_flag ∷ [] in
      let all =
        acts-IsRegistered R (clones c w ∷ clones c w' ∷ clones c w2 ∷ []) (live, g) room reg in
      let step : (h : Group R) → List ℕ → WorldOf O → List ℕ × Group R =
        λ h fs v. after_clone R fs (try_clone R c h v) in
      let first =
        subst
          (λ o. IsRegistered R (
            step (step (after_clone R live o).1 (after_clone R live o).0 w').1
              (step (after_clone R live o).1 (after_clone R live o).0 w').0 w2))
          q1 all in
      let second =
        subst
          (λ o. IsRegistered R (
            step (after_clone R (c1.channel_flag ∷ live) o).1
              (after_clone R (c1.channel_flag ∷ live) o).0 w2))
          q2 first in
      subst (λ o. IsRegistered R (after_clone R (c2.channel_flag ∷ c1.channel_flag ∷ live) o)) q3
        second

module _ {O : Os} (R : Reactor O) {ID : Type 0} ⦃e : Eq ID⦄ where
  abbrev pub clone_punch :
      (List ℕ → List ℕ)
      → Punch O ID
      → Group R
      → WorldOf O
      → Result (Punch O ID) × Group R × WorldOf O
  clone_punch shuffle p g w = let (r, w') = try_clone_punch R shuffle p w in (r, g, w')

  unfoldable pub main_clones :
      (List ℕ → List ℕ)
      → Channel R
      → Punch O ID
      → Group R
      → WorldOf O
      → Option (MainClones R ID × Group R × WorldOf O)
  main_clones shuffle c p g w = or_panic (try_clone R c g w) (λ route g1 w1.
      or_panic (clone_punch shuffle p g1 w1) (λ p2 g2 w2.
        or_panic (try_clone R c g2 w2) (λ c2 g3 w3. or_panic (try_clone R c g3 w3) (λ c3 g4 w4.
          some
            (record { channel_route = route; punch2 = p2; chanel2 = c2; chanel3 = c3 }, g4, w4)))))

  abbrev pub flags_of : Channel R → MainClones R ID → List ℕ
  flags_of c m =
      m.chanel3.channel_flag ∷ m.chanel2.channel_flag ∷ m.channel_route.channel_flag
      ∷ c.channel_flag ∷ []

  -- The channel and its three clones are registered, and the second punch is in range.
  abbrev pub AreReady : Channel R → MainClones R ID × Group R × WorldOf O → Type 0
  AreReady c (m, g, w) = IsRegistered R (flags_of c m, g) × IsValid O m.punch2

  made :
      (shuffle : List ℕ → List ℕ) (c c1 c2 c3 : Channel R) (p p2 : Punch O ID)
      (g g1 g2 g3 g4 : Group R) (w w1 w2 w3 w4 : WorldOf O)
      → IsShuffle shuffle
      → 0 < length p.port_vec
      → g.flag_gen + 3 < 18446744073709551616
      → IsRegistered R (c.channel_flag ∷ [], g)
      → try_clone R c g w ≡ (ok c1, g1, w1)
      → clone_punch shuffle p g1 w1 ≡ (ok p2, g2, w2)
      → try_clone R c g2 w2 ≡ (ok c2, g3, w3)
      → try_clone R c g3 w3 ≡ (ok c3, g4, w4)
      → AreReady c (record { channel_route = c1; punch2 = p2; chanel2 = c2; chanel3 = c3 }, g4, w4)
  made shuffle c c1 c2 c3 p p2 g g1 g2 g3 g4 w w1 w2 w3 w4 sh ports room reg q1 q2 q3 q4 = (
    three_clones R c c1 c2 c3 g g1 g3 g4 w w1 w2 w3 w4 room reg q1
        (subst (λ h. try_clone R c h w2 ≡ (ok c2, g3, w3)) (sym (ap (λ o. o.1) q2)) q3) q4,
    (try_clone_punch-IsValid R shuffle p p2 w1 w2 sh ports (ap (λ o. (o.0, o.2)) q2)).1,
  )

  -- If no clone panics, the channel and its three clones have different flags, and each its own
  -- waker, if the channel was the only one; and the windows of the second punch are in range, if
  -- the first one has a port. Shuffling is taken to permute.
  pub main_clones-AreReady :
      (shuffle : List ℕ → List ℕ) (c : Channel R) (p : Punch O ID) (g : Group R) (w : WorldOf O)
      (out : MainClones R ID × Group R × WorldOf O)
      → IsShuffle shuffle
      → 0 < length p.port_vec
      → g.flag_gen + 3 < 18446744073709551616
      → IsRegistered R (c.channel_flag ∷ [], g)
      → main_clones shuffle c p g w ≡ some out
      → AreReady c out
  unfolding main_clones
  main_clones-AreReady shuffle c p g w out sh ports room reg h =
      let (c1, g1, w1, q1, h1) = or_panic-some (try_clone R c g w) _ out h in
      let (p2, g2, w2, q2, h2) = or_panic-some (clone_punch shuffle p g1 w1) _ out h1 in
      let (c2, g3, w3, q3, h3) = or_panic-some (try_clone R c g2 w2) _ out h2 in
      let (c3, g4, w4, q4, h4) = or_panic-some (try_clone R c g3 w3) _ out h3 in
      at_some (AreReady c) _ out h4
        (made shuffle c c1 c2 c3 p p2 g g1 g2 g3 g4 w w1 w2 w3 w4 sh ports room reg q1 q2 q3 q4)
