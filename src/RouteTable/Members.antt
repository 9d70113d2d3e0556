-- ===== src/RouteTable/Members.antt =====
-- What the operations on `direct_route_table_time` do to the list of the peers on a route.
use p2p_channel.Base.{
  ◌≡◌, refl, inl, inr, Bool, true, false, ◌&&◌, ◌||◌, not, Option, none, some, List, [], ◌∷◌, ◌++◌,
  arith, Eq, ◌==◌, contains, retain_ne, is_empty, if◌then◌else◌, Option-cases,
}
use p2p_channel.Base.Int.{ℤ}
use p2p_channel.Route.{RouteKey, key_eq, key_beq_iff}
use p2p_channel.RouteTable.{Entry, Store, remove_id_route, join_route}

abbrev pub ids_of : {ID : Type 0} → Option (Entry ID) → List ID
ids_of none = []
ids_of (some entry) = entry.ids

module _ {ID : Type 0} ⦃e : Eq ID⦄ (S : Store ID) where
  -- The peers on a route, in the order in which they came; none if the route is not in the table.
  abbrev pub members : S.times_api.Map → RouteKey → List ID
  members times key = ids_of (S.times_api.get times key)

  pub members-remove_id_route :
      (id : ID) (key : RouteKey) (times : S.times_api.Map) (k : RouteKey)
      → members (remove_id_route S id key times) k
        ≡ (if key == k then retain_ne id (members times k) else members times k)
  unfolding remove_id_route
  members-remove_id_route id key times k = elim (Option-cases (S.times_api.get times key)) [
    | inl h ↦ ground (arith, key_beq_iff key k)
    | inr (v, h) ↦
        let f : Entry ID → Entry ID = λ v'. record v' { ids = retain_ne id v.ids } in
        ground (
          arith,
          S.times_api.get-modify times key f k,
          S.times_api.get-remove (S.times_api.modify times key f) key k,
          key_beq_iff key k,
        )
  ]

  pub members-join_route :
      (now : ℤ) (id : ID) (key : RouteKey) (times : S.times_api.Map) (k : RouteKey)
      → members (join_route S now id key times) k ≡ (
          if not (key == k) || contains (members times k) id
          then members times k
          else members times k ++ id ∷ [])
  unfolding join_route
  members-join_route now id key times k = elim (Option-cases (S.times_api.get times key)) [
    | inl h ↦ ground (
      arith,
      S.times_api.get-insert times key (record { ids = id ∷ []; last_read = now; last_write = now })
          k,
      key_beq_iff key k,
    )
    | inr (v, h) ↦
        let f : Entry ID → Entry ID = λ v'. record v' { ids = v.ids ++ id ∷ [] } in
        ground (arith, S.times_api.get-modify times key f k, key_beq_iff key k)
  ]

  -- The route is in the table with no peer on it.
  abbrev pub is_stale : Option (Entry ID) → Bool
  is_stale none = false
  is_stale (some v) = is_empty v.ids

  pub stale-remove_id_route :
      (id : ID) (key : RouteKey) (times : S.times_api.Map) (k : RouteKey)
      → is_stale (S.times_api.get (remove_id_route S id key times) k)
        ≡ (not (key == k) && is_stale (S.times_api.get times k))
  unfolding remove_id_route
  stale-remove_id_route id key times k = elim (Option-cases (S.times_api.get times key)) [
    | inl h ↦ ground (arith, key_beq_iff key k)
    | inr (v, h) ↦
        let f : Entry ID → Entry ID = λ v'. record v' { ids = retain_ne id v.ids } in
        ground (
          arith,
          S.times_api.get-modify times key f k,
          S.times_api.get-remove (S.times_api.modify times key f) key k,
          key_beq_iff key k,
        )
  ]

  not_empty_of_contains : (xs : List ID) (id : ID) → contains xs id ≡ true → is_empty xs ≡ false
  not_empty_of_contains [] id h = cc
  not_empty_of_contains (x ∷ xs) id h = refl

  append_one-not_empty : (xs : List ID) (id : ID) → is_empty (xs ++ id ∷ []) ≡ false
  append_one-not_empty [] id = refl
  append_one-not_empty (x ∷ xs) id = refl

  pub stale-join_route :
      (now : ℤ) (id : ID) (key : RouteKey) (times : S.times_api.Map) (k : RouteKey)
      → is_stale (S.times_api.get (join_route S now id key times) k)
        ≡ (not (key == k) && is_stale (S.times_api.get times k))
  unfolding join_route
  stale-join_route now id key times k = elim (Option-cases (S.times_api.get times key)) [
    | inl h ↦ ground (
      arith,
      S.times_api.get-insert times key (record { ids = id ∷ []; last_read = now; last_write = now })
          k,
      key_beq_iff key k,
    )
    | inr (v, h) ↦
        let f : Entry ID → Entry ID = λ v'. record v' { ids = v.ids ++ id ∷ [] } in
        ground (
          arith,
          S.times_api.get-modify times key f k,
          key_beq_iff key k,
          not_empty_of_contains v.ids id,
          append_one-not_empty v.ids id,
        )
  ]
