-- ===== src/RouteTable/Oldest.antt =====
-- `route_to_id`: which peer it finds, and that it stays with the peer that came first.
use p2p_channel.Base.{
  ◌≡◌, ◌≢◌, ◌∙◌, sym, ap, refl, ◌⊎◌, inl, inr, Bool, true, false, ◌||◌, not, Option, none, some,
  List, [], ◌∷◌, ◌++◌, arith, Eq, ◌==◌, contains, retain_ne, head?, if◌then◌else◌, Option-cases,
  beq_refl,
}
use p2p_channel.Base.Int.{ℤ}
use p2p_channel.Route.{Route, RouteKey, route_key, key_eq, key_beq_iff}
use p2p_channel.RouteTable.{Store, Tables, route, route_to_id, leave_old, add_route}
use p2p_channel.RouteTable.Members.{members, members-remove_id_route, members-join_route}
use p2p_channel.RouteTable.Linked.{is_on, IsLinked}

module _ {ID : Type 0} ⦃e : Eq ID⦄ (S : Store ID) where
  route_to_id-members :
      (k : RouteKey) (t : Tables S) → route_to_id S k t ≡ head? (members S t.times k)
  unfolding route_to_id
  route_to_id-members k t = elim (Option-cases (S.times_api.get t.times k)) [
    | inl q ↦ rw (q, route_to_id)
    | inr (v, q) ↦ rw (q, route_to_id)
  ]

  contains_of_head? : (xs : List ID) (id : ID) → head? xs ≡ some id → contains xs id ≡ true
  contains_of_head? [] id h = cc
  contains_of_head? (x ∷ xs) id h = ground (arith, e.test_iff x id)

  head?_of_contains : (xs : List ID) (id : ID) → contains xs id ≡ true → head? xs ≢ none
  head?_of_contains [] id h = λ q. cc
  head?_of_contains (x ∷ xs) id h = λ q. cc

  is_on→key :
      (o : Option Route) (k : RouteKey)
      → is_on o k ≡ true
      → (r : Route) × (o ≡ some r) × (route_key r ≡ k)
  is_on→key none k h = cc
  is_on→key (some r) k h = (r, refl, (key_beq_iff (route_key r) k).0 h)

  -- In linked tables a peer that `route_to_id` finds has a route with that key.
  route_to_id_sound :
      (t : Tables S) (k : RouteKey) (id : ID)
      → IsLinked S t
      → route_to_id S k t ≡ some id
      → (r : Route) × (route S id t ≡ some r) × (route_key r ≡ k)
  unfolding route
  route_to_id_sound t k id l h = is_on→key (S.routes_api.get t.routes id) k on
    where
      on : is_on (S.routes_api.get t.routes id) k ≡ true
      on =
          sym (l.agrees id k)
          ∙ contains_of_head? (members S t.times k) id (sym (route_to_id-members k t) ∙ h)

  -- In linked tables `route_to_id` finds some peer for the key of each peer's route.
  route_to_id_complete :
      (t : Tables S) (id : ID) (r : Route)
      → IsLinked S t
      → route S id t ≡ some r
      → route_to_id S (route_key r) t ≢ none
  unfolding route
  route_to_id_complete t id r l h q =
      head?_of_contains (members S t.times (route_key r)) id listed
        (sym (route_to_id-members (route_key r) t) ∙ q)
    where
      listed : contains (members S t.times (route_key r)) id ≡ true
      listed = l.agrees id (route_key r) ∙ rw h (beq_refl (route_key r))

  -- In linked tables a peer that `route_to_id` finds for a key has a route with that key, and for
  -- the key of each peer's route `route_to_id` finds some peer.
  pub route_to_id_lem :
      (t : Tables S)
      → IsLinked S t
      → ((k : RouteKey) (id : ID)
          → route_to_id S k t ≡ some id
          → (r : Route) × (route S id t ≡ some r) × (route_key r ≡ k))
        × ((id : ID) (r : Route) → route S id t ≡ some r → route_to_id S (route_key r) t ≢ none)
  route_to_id_lem t l =
      (λ k id h. route_to_id_sound t k id l h, λ id r h. route_to_id_complete t id r l h)

  head?-append_one : (xs : List ID) (a b : ID) → head? xs ≡ some a → head? (xs ++ b ∷ []) ≡ some a
  head?-append_one [] a b h = cc
  head?-append_one (x ∷ xs) a b h = h

  head?-retain_ne :
      (xs : List ID) (a b : ID)
      → head? xs ≡ some a
      → (b == a) ≡ false
      → head? (retain_ne b xs) ≡ some a
  head?-retain_ne [] a b h n = cc
  head?-retain_ne (x ∷ xs) a b h n = ground (arith, e.test_iff x b, e.test_iff b a)

  head?-leave_old :
      (id : ID) (key : RouteKey) (old : Option Route) (times : S.times_api.Map) (k : RouteKey)
      (a : ID)
      → head? (members S times k) ≡ some a
      → ((id == a) ≡ false) ⊎ (key ≡ k)
      → head? (members S (leave_old S id key old times) k) ≡ some a
  unfolding leave_old
  head?-leave_old id key none times k a h c = h
  head?-leave_old id key (some old) times k a h c = ground (
    arith,
    members-remove_id_route S id (route_key old) times k,
    head?-retain_ne (members S times k) a id h,
    key_beq_iff (route_key old) k,
    key_beq_iff (route_key old) key,
  )

  head?-join :
      (xs : List ID) (id a : ID) (b : Bool)
      → head? xs ≡ some a
      → head? (if b then xs else xs ++ id ∷ []) ≡ some a
  head?-join xs id a true h = h
  head?-join xs id a false h = head?-append_one xs a id h

  -- `add_route` does not change the peer that `route_to_id` finds for a route, unless it moves
  -- that very peer to another route.
  pub route_to_id-add_route :
      (now : ℤ) (id : ID) (r : Route) (t : Tables S) (k : RouteKey) (a : ID)
      → route_to_id S k t ≡ some a
      → (id ≢ a) ⊎ (route_key r ≡ k)
      → route_to_id S k (add_route S now id r t) ≡ some a
  unfolding add_route
  route_to_id-add_route now id r t k a h c =
      let left = leave_old S id (route_key r) (S.routes_api.insert t.routes id r).0 t.times in
      route_to_id-members k (add_route S now id r t)
      ∙ ap head? (members-join_route S now id (route_key r) left k)
      ∙ head?-join (members S left k) id a
          (not (route_key r == k) || contains (members S left k) id)
          (head?-leave_old id (route_key r) (S.routes_api.insert t.routes id r).0 t.times k a
            (sym (route_to_id-members k t) ∙ h) stays)
    where
      stays : ((id == a) ≡ false) ⊎ (route_key r ≡ k)
      stays = ground (arith, e.test_iff id a)
