-- ===== src/Base/Equality.antt =====
-- Rust's `Eq` as an interface, and the list operations that test with it.
use Prim.Native.Nat.{ℕ}
use mathlib.Core.Path.{◌≡◌, refl}
use mathlib.Core.Logic.{◌↔◌, ◌≢◌, ◌⊎◌, inl, inr}
use mathlib.Core.Bool.{Bool, true, false, not, ◌&&◌, ◌||◌}
use mathlib.Core.List.{List, [], ◌∷◌, ◌++◌}
use native.Mathlib.Omega.{arith}
use p2p_channel.Base.Tests.{if◌then◌else◌, nat_beq}

-- A Boolean test, and that it decides the paths of the type.
pub record Eq {ℓ} (A : Type ℓ) : Type ℓ where
  pub test : (x y : A) → Bool
  pub test_iff : (x y : A) → (test x y ≡ true) ↔ (x ≡ y)

pub nat_beq_iff : (m n : ℕ) → (nat_beq m n ≡ true) ↔ (m ≡ n)
nat_beq_iff m n = ground arith

instance abbrev pub number_eq : Eq ℕ
number_eq = record { test = nat_beq; test_iff = nat_beq_iff }

infix 50 ◌==◌
abbrev pub ◌==◌ {κ} : {B : Type κ} ⦃o : Eq B⦄ → (x y : B) → Bool
◌==◌ ⦃o⦄ x y = o.test x y

module _ {ℓ} {A : Type ℓ} ⦃e : Eq A⦄ where
  pub beq_refl : (a : A) → (a == a) ≡ true
  beq_refl a = (e.test_iff a a).1 refl

  pub beq→eq : (a b : A) → (a == b) ≡ true → a ≡ b
  beq→eq a b h = (e.test_iff a b).0 h

  -- The two outcomes of a test, each with what it says of the values.
  pub beq-cases : (a b : A) → (((a == b) ≡ true) × (a ≡ b)) ⊎ (((a == b) ≡ false) × (a ≢ b))
  beq-cases a b = go (a == b) refl
    where
      go :
          (t : Bool) → (a == b) ≡ t → (((a == b) ≡ true) × (a ≡ b)) ⊎ (((a == b) ≡ false) × (a ≢ b))
      go true h = inl (h, (e.test_iff a b).0 h)
      go false h = inr (h, λ q. cc ((e.test_iff a b).1 q))

  -- `Vec::contains`.
  abbrev pub contains : List A → A → Bool
  contains [] a = false
  contains (x ∷ xs) a = (x == a) || contains xs a

  -- `retain(|v| v != a)`.
  abbrev pub retain_ne : A → List A → List A
  retain_ne a [] = []
  retain_ne a (x ∷ xs) = let rest = retain_ne a xs in if x == a then rest else x ∷ rest

  -- No value stands twice.
  abbrev pub distinct : List A → Bool
  distinct [] = true
  distinct (x ∷ xs) = not (contains xs x) && distinct xs

  pub contains-append_one :
      (xs : List A) (a b : A) → contains (xs ++ a ∷ []) b ≡ (contains xs b || (a == b))
  contains-append_one [] a b = ground arith
  contains-append_one (x ∷ xs) a b = ground (arith, contains-append_one xs a b)

  pub contains-retain_ne :
      (xs : List A) (a b : A) → contains (retain_ne a xs) b ≡ (contains xs b && not (a == b))
  contains-retain_ne [] a b = refl
  contains-retain_ne (x ∷ xs) a b =
      ground (arith, contains-retain_ne xs a b, e.test_iff x a, e.test_iff a b, e.test_iff x b)

  pub distinct-retain_ne :
      (xs : List A) (a : A) → distinct xs ≡ true → distinct (retain_ne a xs) ≡ true
  distinct-retain_ne [] a h = refl
  distinct-retain_ne (x ∷ xs) a h =
      ground (arith, distinct-retain_ne xs a, contains-retain_ne xs a x)

  pub distinct-append_one :
      (xs : List A) (a : A)
      → distinct xs ≡ true
      → contains xs a ≡ false
      → distinct (xs ++ a ∷ []) ≡ true
  distinct-append_one [] a h n = refl
  distinct-append_one (x ∷ xs) a h n =
      ground (
        arith,
        distinct-append_one xs a,
        contains-append_one xs a x,
        e.test_iff x a,
        e.test_iff a x,
      )
