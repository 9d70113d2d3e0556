-- ===== src/RouteTable/Threads/Readers.antt =====
-- What the threads see that do not take the lock.
use mathlib.Core.Path.{subst}
use p2p_channel.Base.{
  ◌≡◌, refl, Bool, true, false, ◌||◌, not, Option, none, some, List, [], ◌∷◌, [], arith, Eq, ◌==◌, contains,
  distinct, is_empty, if◌then◌else◌,
}
use p2p_channel.Base.Int.{pos}
use p2p_channel.Route.{RouteKey, key_eq}
use p2p_channel.RouteTable.{Entry, Store, Tables, leave_old}
use p2p_channel.RouteTable.Members.{ids_of, members, is_stale}
use p2p_channel.RouteTable.Linked.{is_on, IsLinked, contains-join_route, contains-leave_old}
use p2p_channel.RouteTable.Run.{contains-leave_removed}
use p2p_channel.RouteTable.Threads.{
  Stage, free, inserted, left, taken, done, System, is_out, read_ids, Reach,
}
use p2p_channel.RouteTable.Threads.Watched.{IsPresent}
use p2p_channel.RouteTable.Threads.Invariant.{Inv, finish, finished}
use p2p_channel.RouteTable.Threads.Reachable.{Reach-Inv}

module _ {ID : Type 0} ⦃e : Eq ID⦄ where
  -- The holder of the lock works on the peer, and has not finished.
  abbrev pub works_on : Stage ID → ID → Bool
  works_on free j = false
  works_on (inserted id key old) j = id == j
  works_on (left id key) j = id == j
  works_on (taken id old) j = id == j
  works_on done j = false

module _ {ID : Type 0} ⦃e : Eq ID⦄ (S : Store ID) where
  finished_agrees :
      (stage : Stage ID) (t : Tables S) (j : ID) (k : RouteKey)
      → IsLinked S (finished S stage t)
      → works_on stage j ≡ false
      → contains (members S t.times k) j ≡ is_on (S.routes_api.get t.routes j) k
  finished_agrees free t j k l h = l.agrees j k
  finished_agrees done t j k l h = l.agrees j k
  finished_agrees (left id key) t j k l h =
      ground (arith, contains-join_route S (pos 0) id key t.times k j, l.agrees j k)
  finished_agrees (inserted id key old) t j k l h = ground (
    arith,
    contains-join_route S (pos 0) id key (leave_old S id key old t.times) k j,
    contains-leave_old S id key old t.times k j,
    l.agrees j k,
  )
  finished_agrees (taken id old) t j k l h =
      ground (arith, contains-leave_removed S id old t.times k j, l.agrees j k)

  -- At each moment, whoever holds the lock: no route without a peer can be found, no peer is
  -- listed twice, and a peer that the holder of the lock does not work on is in the list of a
  -- route exactly when its own route has that key.
  pub Reach-agrees :
      {parker : S.Parker} {s : System S} (r : Reach S parker s) (j : ID) (k : RouteKey)
      → works_on s.stage j ≡ false
      → (contains (members S s.tables.times k) j ≡ is_on (S.routes_api.get s.tables.routes j) k)
        × (is_stale S (S.times_api.get s.tables.times k) ≡ false)
        × (distinct (members S s.tables.times k) ≡ true)
  Reach-agrees {s} r j k h =
      let inv = Reach-Inv S r in
      (finished_agrees s.stage s.tables j k inv.linked h, inv.occupied k, inv.once k)

  -- An entry that is held has been taken out of the table.
  abbrev pub is_taken_out : Option (List ID) → Bool
  is_taken_out none = false
  is_taken_out (some ids) = true

  -- The list of peers that `next_idle` reads from an entry which it has met is empty exactly if
  -- the entry has been taken out of the table since.
  pub is_empty-read_ids :
      {parker : S.Parker} {s : System S} (r : Reach S parker s) (key : RouteKey)
      (taken_out : Option (List ID))
      → s.watched ≡ some (key, taken_out)
      → is_empty (read_ids S s (key, taken_out)) ≡ is_taken_out taken_out
  is_empty-read_ids {s} r key taken_out q =
      let inv = Reach-Inv S r in
      go taken_out (subst (IsPresent S s.tables.times) q inv.present)
    where
      in_table :
          (o : Option (Entry ID))
          → is_out S o ≡ false
          → is_stale S o ≡ false
          → is_empty (ids_of o) ≡ false
      in_table none p stale = cc
      in_table (some v) p stale = stale

      go :
          (o : Option (List ID))
          → IsPresent S s.tables.times (some (key, o))
          → is_empty (read_ids S s (key, o)) ≡ is_taken_out o
      go none p =
          let inv = Reach-Inv S r in
          in_table (S.times_api.get s.tables.times key) p (inv.occupied key)
      go (some ids) p = p
