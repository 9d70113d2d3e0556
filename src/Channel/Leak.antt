-- ===== src/Channel/Leak.antt =====
-- A clone of a closed channel: `try_clone` of src/channel/mod.rs pushes its waker before `change`
-- fails, and no channel is there that would take it out again when it is dropped.

use p2p_channel.Base.{
  ℕ, ◌+◌, ◌%◌, ◌≡◌, ◌∙◌, refl, ap, inl, inr, true, not, ◌&&◌, ◌||◌, Bool, List, [], ◌∷◌, ◌++◌,
  arith, Result, ok, err, new_error, other, number_eq, ◌==◌, contains, beq_refl,
  contains-append_one, contains-retain_ne,
}
use p2p_channel.Route.{Status}
use p2p_channel.Os.{Os, WorldOf}
use p2p_channel.Reactor.{Reactor}
use p2p_channel.Channel.{Channel, Group, try_clone, drop, clone_parts, change, with_parts}
use p2p_channel.Channel.Flags.{flags, flags-retain_wakers, grown_flags, Grown, try_clone-Grown}
use p2p_channel.Channel.Registry.{Act, clones, drops, act, acts, after_clone}

module _ {O : Os} (R : Reactor O) (f : ℕ) where
  -- No channel with the flag is dropped.
  abbrev pub drops_no : List (Act R) → Bool
  drops_no [] = true
  drops_no (clones c w ∷ todo) = drops_no todo
  drops_no (drops c ∷ todo) = not (c.channel_flag == f) && drops_no todo

  -- A waker with the flag is in the list.
  abbrev pub has_waker : Group R → Bool
  has_waker g = contains (flags R g.wakers) f

  grown_has :
      (g g' : Group R) (k : R.Waker)
      → g'.wakers ≡ g.wakers ++ (g.flag_gen, k) ∷ []
      → has_waker g ≡ true
      → has_waker g' ≡ true
  grown_has g g' k q h =
      ap (λ fs. contains fs f) (grown_flags R g g' k q)
      ∙ contains-append_one (flags R g.wakers) g.flag_gen f
      ∙ ap (λ b. b || (g.flag_gen == f)) h

  clones_keep :
      (c : Channel R) (w : WorldOf O) (live : List ℕ) (g : Group R)
      → has_waker g ≡ true
      → has_waker (act R (clones c w) (live, g)).1 ≡ true
  clones_keep c w live g h = go (try_clone R c g w) (try_clone-Grown R c g w)
    where
      go :
          (o : Result (Channel R) × Group R × WorldOf O)
          → Grown R g o
          → has_waker (after_clone R live o).1 ≡ true
      go (ok c', g', v) (q, (k, e)) = grown_has g g' k e h
      go (err x, g', v) (inl e) = ap (λ ws. contains (flags R ws) f) e ∙ h
      go (err x, g', v) (inr (k, e)) = grown_has g g' k e h

  acts_keep :
      (todo : List (Act R)) (live : List ℕ) (g : Group R)
      → drops_no todo ≡ true
      → has_waker g ≡ true
      → has_waker (acts R todo (live, g)).1 ≡ true
  unfolding drop
  acts_keep [] live g n h = h
  acts_keep (clones c w ∷ todo) live g n h =
      let (live', g') = act R (clones c w) (live, g) in
      acts_keep todo live' g' n (clones_keep c w live g h)
  acts_keep (drops c ∷ todo) live g n h =
      let (live', g') = act R (drops c) (live, g) in
      acts_keep todo live' g' (ground arith) (
        ap (λ fs. contains fs f) (flags-retain_wakers R c.channel_flag g.wakers)
        ∙ contains-retain_ne (flags R g.wakers) c.channel_flag f
        ∙ ground arith)

module _ {O : Os} (R : Reactor O) where
  -- What the call leaves.
  closed_clone :
      (c : Channel R) (g : Group R) (w w' : WorldOf O)
      (parts : O.Socket × O.Socket × R.Poll × R.Waker)
      → clone_parts R c.src_default_udp w ≡ (ok parts, w')
      → w'.status ≡ Status.close
      → try_clone R c g w ≡ (
        err (new_error other "channel close"),
        record {
          flag_gen = (g.flag_gen + 1) % 18446744073709551616;
          wakers = g.wakers ++ (g.flag_gen, parts.3) ∷ [];
        },
        w',
      )
  unfolding try_clone change
  closed_clone c g w w' parts q closed =
      ap
        (with_parts R g.flag_gen c.size
          (record g { flag_gen = (g.flag_gen + 1) % 18446744073709551616 }))
        q
      ∙ rw closed refl

  -- If the channel is closed when `try_clone` comes to `change`, it makes no channel, but its
  -- waker stays in the list over any later clones and drops, as long as no channel with its flag
  -- is dropped.
  pub try_clone_leaks :
      (c : Channel R) (g : Group R) (w w' : WorldOf O)
      (parts : O.Socket × O.Socket × R.Poll × R.Waker) (live : List ℕ) (todo : List (Act R))
      → clone_parts R c.src_default_udp w ≡ (ok parts, w')
      → w'.status ≡ Status.close
      → drops_no R g.flag_gen todo ≡ true
      → ((try_clone R c g w).0 ≡ err (new_error other "channel close"))
        × (has_waker R g.flag_gen (acts R todo (live, (try_clone R c g w).1)).1 ≡ true)
  try_clone_leaks c g w w' parts live todo q closed n =
      let left = closed_clone c g w w' parts q closed in
      (
        ap (λ o. o.0) left,
        acts_keep R g.flag_gen todo live (try_clone R c g w).1 n
            (ap (λ o. has_waker R g.flag_gen o.1) left ∙ pushed g parts.3),
      )
    where
      pushed :
          (g : Group R) (k : R.Waker)
          → contains (flags R (g.wakers ++ (g.flag_gen, k) ∷ [])) g.flag_gen ≡ true
      pushed g k =
          ap (λ fs. contains fs g.flag_gen)
            (grown_flags R g (record g { wakers = g.wakers ++ (g.flag_gen, k) ∷ [] }) k refl)
          ∙ contains-append_one (flags R g.wakers) g.flag_gen g.flag_gen
          ∙ ground (arith, beq_refl g.flag_gen)
