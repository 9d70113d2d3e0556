-- ===== src/RouteTable/Threads/Reachable.antt =====
-- The invariant holds in every state that the threads can reach.
use mathlib.Core.Option
use p2p_channel.Base.{◌≡◌, refl, inl, inr, Option, none, some, arith, Eq, Option-cases}
use p2p_channel.Base.Int.{ℤ}
use p2p_channel.Route.{RouteKey, key_eq}
use p2p_channel.RouteTable.{Entry, Store, Tables, update_route, update_time, update_write_time}
use p2p_channel.RouteTable.Run.{empty_tables-IsLinked}
use p2p_channel.RouteTable.Shape.{
  SameShape-refl, SameShape-update_time, SameShape-update_write_time, SameKeys-update_route,
  SameKeys-update_time, SameKeys-update_write_time,
}
use p2p_channel.RouteTable.Threads.{
  System, is_out, Step, add_insert, add_leave, add_join, remove_take, remove_leave, unlock, unpark,
  update, read, write, meet, start, Reach, here, next,
}
use p2p_channel.RouteTable.Threads.Invariant.{
  Inv, at_stage, touched, add_insert-Inv, add_leave-Inv, add_join-Inv, remove_take-Inv,
  remove_leave-Inv,
}

module _ {ID : Type 0} ⦃e : Eq ID⦄ (S : Store ID) where
  is_out-modify :
      (a : S.times_api.Map) (key k : RouteKey) (f : Entry ID → Entry ID)
      → is_out S (S.times_api.get (S.times_api.modify a key f) k) ≡ is_out S (S.times_api.get a k)
  is_out-modify a key k f =
      ground (arith, S.times_api.get-modify a key f k, is_out-map (S.times_api.get a k))
    where
      is_out-map : (o : Option (Entry ID)) → is_out S (Option.map f o) ≡ is_out S o
      is_out-map none = refl
      is_out-map (some v) = refl

  is_out-update_time :
      (now : ℤ) (key : RouteKey) (t : Tables S) (k : RouteKey)
      → is_out S (S.times_api.get (update_time S now key t).times k)
        ≡ is_out S (S.times_api.get t.times k)
  unfolding update_time
  is_out-update_time now key t k = elim (Option-cases (S.times_api.get t.times key)) [
    | inl q ↦ rw (q, update_time)
    | inr (v, q) ↦
        rw (q, update_time) (is_out-modify t.times key k (λ v'. record v' { last_read = now }))
  ]

  is_out-update_write_time :
      (now : ℤ) (key : RouteKey) (t : Tables S) (k : RouteKey)
      → is_out S (S.times_api.get (update_write_time S now key t).times k)
        ≡ is_out S (S.times_api.get t.times k)
  unfolding update_write_time
  is_out-update_write_time now key t k = elim (Option-cases (S.times_api.get t.times key)) [
    | inl q ↦ rw (q, update_write_time)
    | inr (v, q) ↦
        rw (q, update_write_time)
          (is_out-modify t.times key k (λ v'. record v' { last_write = now }))
  ]

  Step-Inv : {s t : System S} → Inv S s → Step S s t → Inv S t
  unfolding update_route
  Step-Inv {s} h (add_insert id r q) = add_insert-Inv S s h id r q
  Step-Inv {s} h (add_leave id key old q) = add_leave-Inv S s h id key old q
  Step-Inv {s} h (add_join now id key q) = add_join-Inv S s h now id key q
  Step-Inv {s} h (remove_take id q) = remove_take-Inv S s h id q
  Step-Inv {s} h (remove_leave id old q) = remove_leave-Inv S s h id old q
  Step-Inv {s} h (unlock q) = record {
    linked = at_stage S s h q;
    occupied = h.occupied;
    once = h.once;
    present = h.present;
  }
  Step-Inv {s} h unpark =
      touched S s h (record s.tables { parker = S.unpark s.tables.parker }) (λ id k. refl)
        (SameShape-refl S s.tables.times) (λ k. refl)
  Step-Inv {s} h (update id metric rt) =
      touched S s h (update_route S id metric rt s.tables)
        (SameKeys-update_route S id metric rt s.tables) (SameShape-refl S s.tables.times)
        (λ k. refl)
  Step-Inv {s} h (read now key) =
      touched S s h (update_time S now key s.tables) (SameKeys-update_time S now key s.tables)
        (SameShape-update_time S now key s.tables) (is_out-update_time now key s.tables)
  Step-Inv {s} h (write now key) =
      touched S s h (update_write_time S now key s.tables)
        (SameKeys-update_write_time S now key s.tables)
        (SameShape-update_write_time S now key s.tables) (is_out-update_write_time now key s.tables)
  Step-Inv {s} h (meet key v q) = record {
    linked = h.linked;
    occupied = h.occupied;
    once = h.once;
    present = rw q refl;
  }

  start-Inv : (parker : S.Parker) → Inv S (start S parker)
  start-Inv parker = record {
    linked = empty_tables-IsLinked S parker;
    occupied = (empty_tables-IsLinked S parker).occupied;
    once = (empty_tables-IsLinked S parker).once;
    present = tt;
  }

  pub Reach-Inv : {parker : S.Parker} {s : System S} → Reach S parker s → Inv S s
  Reach-Inv {parker} here = start-Inv parker
  Reach-Inv (next r st) = Step-Inv (Reach-Inv r) st
