-- ===== src/Channel/Registry.antt =====
-- The flags of the channels that are there, over any clones and drops.
use p2p_channel.Base.{
  ℕ, ◌+◌, ◌≤◌, ◌<◌, ◌≡◌, ◌∙◌, sym, ap, true, false, ◌||◌, ◌&&◌, not, List, [], ◌∷◌, ◌++◌, arith,
  length, inl, inr, Result, ok, err, number_eq, ◌==◌, contains, retain_ne, distinct, beq_refl,
  beq-cases, contains-append_one, contains-retain_ne, distinct-retain_ne, distinct-append_one,
}
use mathlib.Core.Path.{subst}
use p2p_channel.Os.{Os, WorldOf}
use p2p_channel.Reactor.{Reactor}
use p2p_channel.Channel.{Channel, Group, try_clone, drop}
use p2p_channel.Channel.Clones.{IsFresh, Cloned, try_clone-Cloned, drop-IsFresh}
use p2p_channel.Channel.Flags.{
  flags, flags-retain_wakers, AllBelow-contains, Grown, try_clone-Grown, grown_flags,
  try_clone-flag_gen,
}

module _ {O : Os} (R : Reactor O) where
  -- A call that makes or drops a channel; the world may be another one at each.
  pub data Act : Type 0 where
    clones : Channel R → WorldOf O → Act
    drops : Channel R → Act

  -- The flags of the channels that are there, and the group.
  abbrev pub after_clone : List ℕ → Result (Channel R) × Group R × WorldOf O → List ℕ × Group R
  after_clone live (ok c, g, w) = (c.channel_flag ∷ live, g)
  after_clone live (err x, g, w) = (live, g)

  abbrev pub act : Act → List ℕ × Group R → List ℕ × Group R
  act (clones c w) (live, g) = after_clone live (try_clone R c g w)
  act (drops c) (live, g) = (retain_ne c.channel_flag live, drop R c g)

  abbrev pub acts : List Act → List ℕ × Group R → List ℕ × Group R
  acts [] s = s
  acts (a ∷ more) s = acts more (act a s)

  -- No two channels have the same flag, no two wakers have, each channel has a waker, and the
  -- next flag is not in use.
  pub record IsRegistered (s : List ℕ × Group R) : Type 0 where
    pub live_distinct : distinct s.0 ≡ true
    pub wakers_distinct : distinct (flags R s.1.wakers) ≡ true
    pub has_waker : (f : ℕ) → contains s.0 f ≡ true → contains (flags R s.1.wakers) f ≡ true
    pub is_fresh : IsFresh R s.1

  drops-IsRegistered :
      (c : Channel R) (s : List ℕ × Group R) → IsRegistered s → IsRegistered (act (drops c) s)
  unfolding drop
  drops-IsRegistered c (live, g) h = record {
    live_distinct = distinct-retain_ne live c.channel_flag h.live_distinct;
    wakers_distinct =
        ap distinct (flags-retain_wakers R c.channel_flag g.wakers)
        ∙ distinct-retain_ne (flags R g.wakers) c.channel_flag h.wakers_distinct;
    has_waker = λ f k.
        ap (λ fs. contains fs f) (flags-retain_wakers R c.channel_flag g.wakers)
        ∙ contains-retain_ne (flags R g.wakers) c.channel_flag f
        ∙ still f (sym (contains-retain_ne live c.channel_flag f) ∙ k) (h.has_waker f);
    is_fresh = drop-IsFresh R c g h.is_fresh;
  }
    where
      still :
          (f : ℕ)
          → (contains live f && not (c.channel_flag == f)) ≡ true
          → (contains live f ≡ true → contains (flags R g.wakers) f ≡ true)
          → (contains (flags R g.wakers) f && not (c.channel_flag == f)) ≡ true
      still f a b = ground arith

  clones-IsRegistered :
      (c : Channel R) (w : WorldOf O) (s : List ℕ × Group R)
      → s.1.flag_gen + 1 < 18446744073709551616
      → IsRegistered s
      → IsRegistered (act (clones c w) s)
  clones-IsRegistered c w (live, g) l h =
      go (try_clone R c g w) (try_clone-Grown R c g w) (try_clone-Cloned R c g w h.is_fresh l)
    where
      unused : contains (flags R g.wakers) g.flag_gen ≡ false
      unused = AllBelow-contains R g.flag_gen g.flag_gen g.wakers h.is_fresh (omega arith)

      not_live : contains live g.flag_gen ≡ false
      not_live = ground (arith, h.has_waker g.flag_gen, unused)

      leaked :
          (g' : Group R) (k : R.Waker)
          → g'.wakers ≡ g.wakers ++ (g.flag_gen, k) ∷ []
          → IsFresh R g'
          → IsRegistered (live, g')
      leaked g' k q fresh = record {
        live_distinct = h.live_distinct;
        wakers_distinct =
            ap distinct (grown_flags R g g' k q)
            ∙ distinct-append_one (flags R g.wakers) g.flag_gen h.wakers_distinct unused;
        has_waker = λ f y.
            ap (λ fs. contains fs f) (grown_flags R g g' k q)
            ∙ contains-append_one (flags R g.wakers) g.flag_gen f
            ∙ ap (λ b. b || (g.flag_gen == f)) (h.has_waker f y);
        is_fresh = fresh;
      }

      own_waker :
          (g' : Group R) (k : R.Waker)
          → g'.wakers ≡ g.wakers ++ (g.flag_gen, k) ∷ []
          → contains (flags R g'.wakers) g.flag_gen ≡ true
      own_waker g' k q =
          ap (λ fs. contains fs g.flag_gen) (grown_flags R g g' k q)
          ∙ contains-append_one (flags R g.wakers) g.flag_gen g.flag_gen
          ∙ ground (arith, beq_refl g.flag_gen)

      known :
          (f : ℕ) (fs : List ℕ)
          → ((g.flag_gen == f) || contains live f) ≡ true
          → (contains live f ≡ true → contains fs f ≡ true)
          → contains fs g.flag_gen ≡ true
          → contains fs f ≡ true
      known f fs y old own = elim (beq-cases g.flag_gen f) [
        | inl (t, q) ↦ subst (λ n. contains fs n ≡ true) q own
        | inr (t, q) ↦ old (ground arith)
      ]

      go :
          (o : Result (Channel R) × Group R × WorldOf O)
          → Grown R g o
          → Cloned R g o
          → IsRegistered (after_clone live o)
      go (ok c', g', w') (q, (k, e)) fresh =
          let r = leaked g' k e fresh.2 in
          subst (λ f. IsRegistered (f ∷ live, g')) (sym q)
            (record {
              live_distinct = ground (arith, not_live, h.live_distinct);
              wakers_distinct = r.wakers_distinct;
              has_waker = λ f y. known f (flags R g'.wakers) y (r.has_waker f) (own_waker g' k e);
              is_fresh = fresh.2;
            })
      go (err x, g', w') (inl e) fresh = record {
        live_distinct = h.live_distinct;
        wakers_distinct = ap (λ ws. distinct (flags R ws)) e ∙ h.wakers_distinct;
        has_waker = λ f y. ap (λ ws. contains (flags R ws) f) e ∙ h.has_waker f y;
        is_fresh = fresh;
      }
      go (err x, g', w') (inr (k, e)) fresh = leaked g' k e fresh

  act-flag_gen :
      (a : Act) (s : List ℕ × Group R)
      → s.1.flag_gen + 1 < 18446744073709551616
      → (act a s).1.flag_gen ≤ s.1.flag_gen + 1
  unfolding drop
  act-flag_gen (clones c w) (live, g) l =
      go (try_clone R c g w) (omega (arith, try_clone-flag_gen R c g w))
    where
      go :
          (o : Result (Channel R) × Group R × WorldOf O)
          → o.1.flag_gen ≤ g.flag_gen + 1
          → (after_clone live o).1.flag_gen ≤ g.flag_gen + 1
      go (ok c', g', v) le = le
      go (err x, g', v) le = le
  act-flag_gen (drops c) (live, g) l = omega arith

  act-IsRegistered :
      (a : Act) (s : List ℕ × Group R)
      → s.1.flag_gen + 1 < 18446744073709551616
      → IsRegistered s
      → IsRegistered (act a s)
  act-IsRegistered (clones c w) s l h = clones-IsRegistered c w s l h
  act-IsRegistered (drops c) s l h = drops-IsRegistered c s h

  -- Over any clones and drops, in whatever order and also if clones fail, fewer than are left to
  -- the counter of the flags: if no two channels have the same flag, no two wakers have, each
  -- channel has a waker and the next flag is not in use, then it stays so.
  pub acts-IsRegistered :
      (todo : List Act) (s : List ℕ × Group R)
      → s.1.flag_gen + length todo < 18446744073709551616
      → IsRegistered s
      → IsRegistered (acts todo s)
  acts-IsRegistered [] s l h = h
  acts-IsRegistered (a ∷ todo) s l h =
      acts-IsRegistered todo (act a s) (omega (arith, act-flag_gen a s (omega arith)))
        (act-IsRegistered a s (omega arith) h)
