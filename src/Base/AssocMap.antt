-- ===== src/Base/AssocMap.antt =====
-- A map that behaves as `MapApi` asks: a list of pairs.
use mathlib.Core.Path.{◌≡◌, refl}
use mathlib.Core.Option.{Option, none, some}
use mathlib.Core.Option
use mathlib.Core.List.{List, [], ◌∷◌}
use native.Mathlib.Omega.{arith}
use p2p_channel.Base.Equality.{Eq, ◌==◌}
use p2p_channel.Base.Tests.{if◌then◌else◌}
use p2p_channel.Base.Lists.{is_empty}
use p2p_channel.Base.MapApi.{MapApi, lookup}

module _ {K V : Type 0} ⦃e : Eq K⦄ where
  abbrev put : List (K × V) → K → V → List (K × V)
  put [] k v = (k, v) ∷ []
  put ((j, w) ∷ m) k v = let rest = put m k v in if j == k then (k, v) ∷ m else (j, w) ∷ rest

  abbrev erase : List (K × V) → K → List (K × V)
  erase [] k = []
  erase ((j, w) ∷ m) k = let rest = erase m k in if j == k then rest else (j, w) ∷ rest

  abbrev adjust : List (K × V) → K → (V → V) → List (K × V)
  adjust [] k f = []
  adjust ((j, w) ∷ m) k f = (j, if j == k then f w else w) ∷ adjust m k f

  pub lookup-put :
      (m : List (K × V)) (k : K) (v : V) (j : K)
      → lookup (put m k v) j ≡ (if k == j then some v else lookup m j)
  lookup-put [] k v j = refl
  lookup-put ((i, w) ∷ m) k v j =
      ground (arith, lookup-put m k v j, e.test_iff i k, e.test_iff i j, e.test_iff k j)

  pub lookup-erase :
      (m : List (K × V)) (k j : K) → lookup (erase m k) j ≡ (if k == j then none else lookup m j)
  lookup-erase [] k j = ground arith
  lookup-erase ((i, w) ∷ m) k j =
      ground (arith, lookup-erase m k j, e.test_iff i k, e.test_iff i j, e.test_iff k j)

  pub lookup-adjust :
      (m : List (K × V)) (k : K) (f : V → V) (j : K)
      → lookup (adjust m k f) j ≡ (if k == j then Option.map f (lookup m j) else lookup m j)
  lookup-adjust [] k f j = ground arith
  lookup-adjust ((i, w) ∷ m) k f j =
      ground (arith, lookup-adjust m k f j, e.test_iff i k, e.test_iff i j, e.test_iff k j)

abbrev pub assoc_map : (K V : Type 0) ⦃e : Eq K⦄ → MapApi K V
assoc_map K V = record {
  Map = List (K × V);
  empty = [];
  get = lookup;
  insert = λ m k v. (lookup m k, put m k v);
  remove = λ m k. (lookup m k, erase m k);
  modify = adjust;
  entries = λ m. m;
  has_none = is_empty;
  get-empty = λ k. refl;
  insert_old = λ m k v. refl;
  get-insert = lookup-put;
  remove_old = λ m k. refl;
  get-remove = lookup-erase;
  get-modify = lookup-adjust;
  get-entries = λ m k. refl;
  has_none-entries = λ m. refl;
}
