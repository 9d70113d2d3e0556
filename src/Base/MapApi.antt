-- ===== src/Base/MapApi.antt =====
-- What the code relies on of the maps that it takes from other packages (`DashMap` of dashmap,
-- `SkipMap` of crossbeam_skiplist): the operations that it calls, and their documented behaviour.
use mathlib.Core.Path.{◌≡◌}
use mathlib.Core.Bool.{Bool}
use mathlib.Core.Option.{Option, none, some}
use mathlib.Core.Option
use mathlib.Core.List.{List, [], ◌∷◌}
use p2p_channel.Base.Equality.{Eq, ◌==◌}
use p2p_channel.Base.Tests.{if◌then◌else◌}
use p2p_channel.Base.Lists.{is_empty}

-- The value of the first pair with the key.
abbrev pub lookup {ℓ κ} : {K : Type ℓ} {V : Type κ} ⦃e : Eq K⦄ → List (K × V) → K → Option V
lookup [] k = none
lookup ((j, v) ∷ m) k = let rest = lookup m k in if j == k then some v else rest

-- `insert` and `remove` return the value that the key had. `modify` is a change made through the
-- reference that `get` or `get_mut` returns. `entries` is what an iteration meets.
pub record MapApi (K : Type 0) (V : Type 0) ⦃e : Eq K⦄ : Type 1 where
  pub Map : Type 0
  pub empty : Map
  pub get : Map → K → Option V
  pub insert : Map → K → V → Option V × Map
  pub remove : Map → K → Option V × Map
  pub modify : Map → K → (V → V) → Map
  pub entries : Map → List (K × V)
  pub has_none : Map → Bool
  pub get-empty : (k : K) → get empty k ≡ none
  pub insert_old : (m : Map) (k : K) (v : V) → (insert m k v).0 ≡ get m k
  pub get-insert :
      (m : Map) (k : K) (v : V) (j : K)
      → get (insert m k v).1 j ≡ (if k == j then some v else get m j)
  pub remove_old : (m : Map) (k : K) → (remove m k).0 ≡ get m k
  pub get-remove : (m : Map) (k j : K) → get (remove m k).1 j ≡ (if k == j then none else get m j)
  pub get-modify :
      (m : Map) (k : K) (f : V → V) (j : K)
      → get (modify m k f) j ≡ (if k == j then Option.map f (get m j) else get m j)
  pub get-entries : (m : Map) (k : K) → get m k ≡ lookup (entries m) k
  pub has_none-entries : (m : Map) → has_none m ≡ is_empty (entries m)
