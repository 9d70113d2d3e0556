-- ===== src/RouteTable/Threads/Watched.antt =====
-- The entry that the loop of `next_idle` holds: `remove_id_route_` takes an entry out of the table
-- with an empty list only.
use p2p_channel.Base.{
  ℕ, ◌≡◌, refl, inl, inr, Bool, true, false, ◌&&◌, ◌||◌, not, Option, none, some, List, [], ◌∷◌, ◌++◌, arith, Eq,
  ◌==◌, retain_ne, is_empty, Option-cases, if◌then◌else◌,
}
use p2p_channel.Base.Int.{ℤ}
use p2p_channel.Route.{Route, RouteKey, route_key, key_eq, key_beq_iff}
use p2p_channel.RouteTable.{Entry, Store, remove_id_route, leave_old, leave_removed, join_route}
use p2p_channel.RouteTable.Members.{members}
use p2p_channel.RouteTable.Threads.{is_out, left_list, watch}

module _ {ID : Type 0} ⦃e : Eq ID⦄ (S : Store ID) where
  -- An entry that is held is in the table, or its list is empty.
  abbrev pub IsPresent : S.times_api.Map → Option (RouteKey × Option (List ID)) → Type 0
  IsPresent times none = Unit {0}
  IsPresent times (some (key, none)) = is_out S (S.times_api.get times key) ≡ false
  IsPresent times (some (key, some ids)) = is_empty ids ≡ true

  -- What goes out of the table has no peer but the one that leaves.
  abbrev pub OnlyEmpty : ID → S.times_api.Map → S.times_api.Map → Type 0
  OnlyEmpty id old times =
      (k : RouteKey)
      → is_out S (S.times_api.get old k) ≡ false
      → is_out S (S.times_api.get times k) ≡ true
      → is_empty (retain_ne id (members S old k)) ≡ true

  out-remove_id_route :
      (id : ID) (key : RouteKey) (times : S.times_api.Map)
      → OnlyEmpty id times (remove_id_route S id key times)
  unfolding remove_id_route
  out-remove_id_route id key times k = elim (Option-cases (S.times_api.get times key)) [
    | inl h ↦ ground (arith, key_beq_iff key k)
    | inr (v, h) ↦
        let f : Entry ID → Entry ID = λ v'. record v' { ids = retain_ne id v.ids } in
        ground (
          arith,
          S.times_api.get-modify times key f k,
          S.times_api.get-remove (S.times_api.modify times key f) key k,
          key_beq_iff key k,
        )
  ]

  pub out-leave_old :
      (id : ID) (key : RouteKey) (old : Option Route) (times : S.times_api.Map)
      → OnlyEmpty id times (leave_old S id key old times)
  unfolding leave_old
  out-leave_old id key none times k h q = ground arith
  out-leave_old id key (some old) times k h q =
      ground (arith, out-remove_id_route id (route_key old) times k)

  pub out-leave_removed :
      (id : ID) (old : Option Route) (times : S.times_api.Map)
      → OnlyEmpty id times (leave_removed S id old times)
  unfolding leave_removed
  out-leave_removed id none times k h q = ground arith
  out-leave_removed id (some old) times k h q = out-remove_id_route id (route_key old) times k h q

  pub out-join_route :
      (now : ℤ) (id : ID) (key : RouteKey) (times : S.times_api.Map) (k : RouteKey)
      → is_out S (S.times_api.get times k) ≡ false
      → is_out S (S.times_api.get (join_route S now id key times) k) ≡ false
  unfolding join_route
  out-join_route now id key times k h = elim (Option-cases (S.times_api.get times key)) [
    | inl q ↦ ground (
      arith,
      S.times_api.get-insert times key (record { ids = id ∷ []; last_read = now; last_write = now })
          k,
    )
    | inr (v, q) ↦
        let f : Entry ID → Entry ID = λ v'. record v' { ids = v.ids ++ id ∷ [] } in
        ground (arith, S.times_api.get-modify times key f k, key_beq_iff key k)
  ]

  pub watch-IsPresent :
      (id : ID) (old times : S.times_api.Map) (w : Option (RouteKey × Option (List ID)))
      → OnlyEmpty id old times
      → IsPresent old w
      → IsPresent times (watch S id old times w)
  watch-IsPresent id old times none only p = tt
  watch-IsPresent id old times (some (key, some ids)) only p = p
  watch-IsPresent id old times (some (key, none)) only p =
      go (S.times_api.get times key) (only key p) refl
    where
      go :
          (o : Option (Entry ID))
          → (is_out S o ≡ true → is_empty (retain_ne id (members S old key)) ≡ true)
          → S.times_api.get times key ≡ o
          → IsPresent times (some (key, left_list S o (retain_ne id (members S old key))))
      go none empty q = empty refl
      go (some v) empty q = rw q refl
