-- ===== src/Channel/Sockets.antt =====
-- What `change` makes of the shared sockets and of the own copies of a channel.
use p2p_channel.Base.{
  ℕ, zero, suc, ◌+◌, ◌≡◌, ◌∙◌, refl, sym, ap, Bool, true, false, List, [], ◌∷◌, ◌++◌, arith,
  is_empty, length, length-append, if◌then◌else◌, Result, ok, err,
}
use mathlib.Core.Path.{subst}
use mathlib.Core.List.{append-nil, append_assoc}
use p2p_channel.Route.{Status}
use p2p_channel.Os.{Os, WorldOf, continue}
use p2p_channel.Reactor.{Reactor, Laws}
use p2p_channel.Channel.{
  bind_one, pushed, bind_each, clone_one, clone_each, bound_then_clone, change_to, change,
  deregister_all,
}

module _ {O : Os} (R : Reactor O) (L : Laws R) where
  -- The second list holds a copy of each socket of the first, in its order.
  abbrev pub Aliases : List O.Socket → List O.Socket → Type 0
  Aliases [] [] = Unit {0}
  Aliases (s ∷ ss) (c ∷ cs) = L.Alias s c × Aliases ss cs
  Aliases (s ∷ ss) [] = ⊥
  Aliases [] (c ∷ cs) = ⊥

  -- A push that ends well had a socket, and went on with it.
  pushed_ok :
      (list : List O.Socket) (o : Result O.Socket × WorldOf O)
      (next : List O.Socket → WorldOf O → Result (Unit {0}) × List O.Socket × WorldOf O)
      → (pushed R list o next).0 ≡ ok tt
      → (udp : O.Socket) × (w : WorldOf O) × (o ≡ (ok udp, w))
        × (pushed R list o next ≡ next (list ++ udp ∷ []) w)
  pushed_ok list (ok udp, w) next h = (udp, w, refl, refl)
  pushed_ok list (err x, w) next h = cc

  pub continue_ok :
      {A B : Type 0} (o : Result A × WorldOf O) (f : A → WorldOf O → Result B × WorldOf O) {b : B}
      {v : WorldOf O}
      → continue o f ≡ (ok b, v)
      → (a : A) × (w : WorldOf O) × (o ≡ (ok a, w)) × (f a w ≡ (ok b, v))
  continue_ok (ok a, w) f h = (a, w, refl, h)
  continue_ok (err x, w) f h = cc

  bind_each-length :
      (n : ℕ) (list : List O.Socket) (w : WorldOf O)
      → (bind_each R n list w).0 ≡ ok tt
      → length (bind_each R n list w).1 ≡ length list + n
  unfolding bind_each
  bind_each-length zero list w h = omega arith
  bind_each-length (suc n) list w h =
      let (udp, w', e, next) = pushed_ok list (bind_one R w) (bind_each R n) h in
      ap (λ o. length o.1) next
      ∙ omega (
        arith,
        bind_each-length n (list ++ udp ∷ []) w' (sym (ap (λ o. o.0) next) ∙ h),
        length-append list (udp ∷ []),
      )

  clone_each-Aliases :
      (poll : R.Poll) (token : ℕ) (udps udp_list : List O.Socket) (w : WorldOf O)
      → (clone_each R poll token udps udp_list w).0 ≡ ok tt
      → (copies : List O.Socket) × ((clone_each R poll token udps udp_list w).1
          ≡ udp_list ++ copies)
        × Aliases udps copies
  unfolding clone_each clone_one
  clone_each-Aliases poll token [] udp_list w h = ([], sym (append-nil udp_list), tt)
  clone_each-Aliases poll token (udp ∷ udps) udp_list w h =
      let (c, w', e, next) =
        pushed_ok udp_list (clone_one R poll token udp w) (clone_each R poll (token + 1) udps) h in
      let (copy, v, cloned, same) = continue_ok (R.try_clone udp w) _ e in
      let (copies, q, al) =
        clone_each-Aliases poll (token + 1) udps (udp_list ++ c ∷ []) w'
          (sym (ap (λ o. o.0) next) ∙ h) in
      let copy_is : R.from_std copy ≡ c = cc in
      (
        c ∷ copies,
        ap (λ o. o.1) next ∙ q ∙ append_assoc udp_list (c ∷ []) copies,
        (subst (L.Alias udp) copy_is (L.clone_alias udp copy w v cloned), al),
      )

  empty_length : (l : List O.Socket) → is_empty l ≡ true → length l ≡ 0
  empty_length [] h = refl
  empty_length (x ∷ xs) h = cc

  -- What a change to the symmetric NAT that ends well leaves: `before` is the list of the shared
  -- sockets before it.
  abbrev pub Renewed : ℕ → List O.Socket → Result (Unit {0}) × List O.Socket × WorldOf O → Type 0
  Renewed size before (result, udp_list, w) =
      Aliases w.share_info udp_list
      × (is_empty before ≡ false → w.share_info ≡ before)
      × (is_empty before ≡ true → length w.share_info ≡ size)

  bound_then_clone-Aliases :
      (poll : R.Poll) (o : Result (Unit {0}) × List O.Socket × WorldOf O)
      → (bound_then_clone R poll o).0 ≡ ok tt
      → (o.0 ≡ ok tt)
        × Aliases o.1 (bound_then_clone R poll o).1
        × ((bound_then_clone R poll o).2.share_info ≡ o.1)
  bound_then_clone-Aliases poll (err x, list, w) h = cc
  bound_then_clone-Aliases poll (ok done, list, w) h =
      let (copies, q, al) = clone_each-Aliases poll 0 list [] w h in
      (refl, subst (Aliases list) (sym q) al, refl)

  -- After a change under the symmetric NAT that ends well, the channel's own sockets are copies
  -- of the shared ones, in their order, so a route's index means the same socket to the channel
  -- and to its senders. Shared sockets that were there are kept as they are, however few; if
  -- there were none there are now as many as the channel is asked for.
  pub change_symmetric :
      (udp_list : List O.Socket) (poll : R.Poll) (size : ℕ) (w : WorldOf O)
      → w.status ≡ Status.symmetric
      → (change R udp_list poll size w).0 ≡ ok tt
      → Renewed size w.share_info (change R udp_list poll size w)
  unfolding change
  change_symmetric udp_list poll size w s =
      subst
        (λ st.
          (change_to R st udp_list poll size w).0 ≡ ok tt
          → Renewed size w.share_info (change_to R st udp_list poll size w))
        (sym s) (go (is_empty w.share_info) refl)
    where
      v : WorldOf O
      v = deregister_all R poll udp_list w

      go :
          (b : Bool)
          → is_empty w.share_info ≡ b
          → (bound_then_clone R poll
              (if b then bind_each R size w.share_info v else (ok tt, w.share_info, v))).0
            ≡ ok tt
          → Renewed size w.share_info (
              bound_then_clone R poll
                (if b then bind_each R size w.share_info v else (ok tt, w.share_info, v)))
      go false e h =
          let (ended, al, q) = bound_then_clone-Aliases poll (ok tt, w.share_info, v) h in
          (al, λ full. q, λ empty. cc)
      go true e h =
          let (ended, al, q) = bound_then_clone-Aliases poll (bind_each R size w.share_info v) h in
          (
            subst (λ l. Aliases l (bound_then_clone R poll (bind_each R size w.share_info v)).1)
                (sym q) al,
            λ full. cc,
            λ empty.
                ap length q
                ∙ bind_each-length size w.share_info v ended
                ∙ omega (arith, empty_length w.share_info e),
          )
