-- ===== src/RouteTable/Lookup.antt =====
-- `direct_route_table` as a function from peers to routes, and the operations as its updates.
use mathlib.Core.Option
use p2p_channel.Base.{
  ℕ, ◌≡◌, ◌∙◌, refl, inl, inr, Option, none, some, List, [], ◌∷◌, Eq, ◌==◌, if◌then◌else◌,
  Option-cases,
}
use p2p_channel.Base.Int.{ℤ}
use p2p_channel.Route.{Route}
use p2p_channel.RouteTable.{
  Store, Tables, route, add_route, update_route, remove_route, update_time, update_write_time,
  empty_tables, Op, add, update, remove, read, write, apply, run,
}

-- A route with another metric and round trip.
abbrev pub remeasured : ℕ → ℤ → Route → Route
remeasured metric rt r = record r { metric = metric; rt = rt }

module _ {ID : Type 0} ⦃e : Eq ID⦄ where
  -- The last route that was given to a peer, with its metric and round trip as last updated.
  abbrev pub told : Op ID → (ID → Option Route) → ID → Option Route
  told (add now id r) f j = if id == j then some r else f j
  told (update id metric rt) f j = if id == j then Option.map (remeasured metric rt) (f j) else f j
  told (remove id) f j = if id == j then none else f j
  told (read now key) f j = f j
  told (write now key) f j = f j

  abbrev pub told_all : List (Op ID) → (ID → Option Route) → ID → Option Route
  told_all [] f = f
  told_all (o ∷ os) f = told_all os (told o f)

  told_all_ext :
      (os : List (Op ID)) (f g : ID → Option Route)
      → ((j : ID) → f j ≡ g j)
      → (j : ID) → told_all os f j ≡ told_all os g j
  told_all_ext [] f g h j = h j
  told_all_ext (o ∷ os) f g h j = told_all_ext os (told o f) (told o g) (same o) j
    where
      same : (o : Op ID) (j : ID) → told o f j ≡ told o g j
      same (add now id r) j = rw (h j)
      same (update id metric rt) j = rw (h j)
      same (remove id) j = rw (h j)
      same (read now key) j = h j
      same (write now key) j = h j

module _ {ID : Type 0} ⦃e : Eq ID⦄ (S : Store ID) where
  pub route-apply :
      (o : Op ID) (t : Tables S) (j : ID) → route S j (apply S o t) ≡ told o (λ i. route S i t) j
  unfolding apply route add_route update_route remove_route update_time update_write_time
  route-apply (add now id r) t j = S.routes_api.get-insert t.routes id r j
  route-apply (update id metric rt) t j =
      S.routes_api.get-modify t.routes id (remeasured metric rt) j
  route-apply (remove id) t j = S.routes_api.get-remove t.routes id j
  route-apply (read now key) t j = elim (Option-cases (S.times_api.get t.times key)) [
    | inl q ↦ rw (q, update_time)
    | inr (v, q) ↦ rw (q, update_time)
  ]
  route-apply (write now key) t j = elim (Option-cases (S.times_api.get t.times key)) [
    | inl q ↦ rw (q, update_write_time)
    | inr (v, q) ↦ rw (q, update_write_time)
  ]

  route-run_from :
      (os : List (Op ID)) (t : Tables S) (j : ID)
      → route S j (run S os t) ≡ told_all os (λ i. route S i t) j
  unfolding run
  route-run_from [] t j = refl
  route-run_from (o ∷ os) t j =
      route-run_from os (apply S o t) j
      ∙ told_all_ext os (λ i. route S i (apply S o t)) (told o (λ i. route S i t))
          (λ i. route-apply o t i) j

  -- After any operations on empty tables, the route of each peer is the one that it was given
  -- last: `add_route` sets it, `update_route` changes its metric and round trip alone,
  -- `remove_route` clears it, and no operation on another peer or on a timestamp touches it.
  pub route-run :
      (os : List (Op ID)) (parker : S.Parker) (j : ID)
      → route S j (run S os (empty_tables S parker)) ≡ told_all os (λ i. none) j
  unfolding route empty_tables
  route-run os parker j =
      route-run_from os (empty_tables S parker) j
      ∙ told_all_ext os (λ i. route S i (empty_tables S parker)) (λ i. none)
          (λ i. S.routes_api.get-empty i) j
