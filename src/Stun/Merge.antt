-- ===== src/Stun/Merge.antt =====
-- What `stun_test_nat` makes of the results of its two detections.
use p2p_channel.Base.{
  ℕ, ◌≤◌, ◌≡◌, ◌∙◌, refl, sym, ◌⊎◌, inl, inr, Bool, true, false, ◌||◌, List, [], ◌∷◌, arith,
  contains, ltb, number_eq, if◌then◌else◌, Result, ok, err,
}
use p2p_channel.Punch.{NatType, symmetric, cone}
use p2p_channel.Stun.Summary.{contains-insert_set}
use p2p_channel.Stun.{insert_set, extend_set, Nat, merge_nat, stun_test_nat}

-- The detections that succeeded.
abbrev pub answers : List (Result Nat) → List Nat
answers [] = []
answers (ok nat ∷ rs) = nat ∷ answers rs
answers (err x ∷ rs) = answers rs

abbrev pub is_symmetric : NatType → Bool
is_symmetric symmetric = true
is_symmetric cone = false

abbrev pub any_symmetric : List Nat → Bool
any_symmetric [] = false
any_symmetric ((nat, ips, range) ∷ more) = is_symmetric nat || any_symmetric more

abbrev pub any_has : ℕ → List Nat → Bool
any_has ip [] = false
any_has ip ((nat, ips, range) ∷ more) = contains ips ip || any_has ip more

-- No range is wider.
abbrev pub AllWithin : ℕ → List Nat → Type 0
AllWithin n [] = Unit {0}
AllWithin n ((nat, ips, range) ∷ more) = (range ≤ n) × AllWithin n more

-- A detection has this range, or it is the one to begin with.
abbrev pub Attained : ℕ → ℕ → List Nat → Type 0
Attained n start [] = n ≡ start
Attained n start ((nat, ips, range) ∷ more) = (range ≡ n) ⊎ Attained n start more

contains-extend_set :
    (more xs : List ℕ) (b : ℕ)
    → contains (extend_set more xs) b ≡ (contains xs b || contains more b)
unfolding extend_set
contains-extend_set [] xs b = ground arith
contains-extend_set (a ∷ more) xs b =
    ground (arith, contains-extend_set more (insert_set a xs) b, contains-insert_set a b xs)

AllWithin-mono : (m n : ℕ) (nats : List Nat) → m ≤ n → AllWithin m nats → AllWithin n nats
AllWithin-mono m n [] le h = tt
AllWithin-mono m n ((nat, ips, range) ∷ more) le (h, hs) =
    (omega arith, AllWithin-mono m n more le hs)

-- What is merged, from what was there before.
abbrev MergedFrom : Nat → List (Result Nat) → Nat → Type 0
MergedFrom (nat, all, widest) rs (nat', all', widest') =
    (nat' ≡ (if any_symmetric (answers rs) then symmetric else nat))
    × ((ip : ℕ) → contains all' ip ≡ (contains all ip || any_has ip (answers rs)))
    × (widest ≤ widest')
    × AllWithin widest' (answers rs)
    × Attained widest' widest (answers rs)

Attained-start :
    (n start start' : ℕ) (more : List Nat)
    → Attained n start more
    → (start ≡ n) ⊎ Attained n start' more
Attained-start n start start' [] h = inl (sym h)
Attained-start n start start' ((nat, ips, range) ∷ more) (inl e) = inr (inl e)
Attained-start n start start' ((nat, ips, range) ∷ more) (inr h) =
    elim (Attained-start n start start' more h) [ inl e ↦ inl e | inr k ↦ inr (inr k) ]

pick_wider :
    (range widest : ℕ) (more : List Nat) (n : ℕ)
    → (if ltb widest range then range else widest) ≤ n
    → Attained n (if ltb widest range then range else widest) more
    → (range ≤ n) × (widest ≤ n) × ((range ≡ n) ⊎ Attained n widest more)
pick_wider range widest more n le h =
    go (ltb widest range) (λ b. ground arith) (λ b. ground arith) le h
  where
    go :
        (b : Bool)
        → (b ≡ true → widest ≤ range)
        → (b ≡ false → range ≤ widest)
        → (if b then range else widest) ≤ n
        → Attained n (if b then range else widest) more
        → (range ≤ n) × (widest ≤ n) × ((range ≡ n) ⊎ Attained n widest more)
    go true up down le' h' = (le', omega (arith, up refl), Attained-start n range widest more h')
    go false up down le' h' = (omega (arith, down refl), le', inr h')

-- One result more, before those that are merged already.
merge_one :
    (x : NatType) (ips : List ℕ) (range : ℕ) (start : Nat) (rs : List (Result Nat)) (out : Nat)
    → MergedFrom (merge_nat (ok (x, ips, range)) start) rs out
    → MergedFrom start (ok (x, ips, range) ∷ rs) out
merge_one symmetric ips range (nat, all, widest) rs (nat', all', widest') (t, i, w, a, at) =
    let (r, w', at') = pick_wider range widest (answers rs) widest' w at in
    (
      t ∙ always (any_symmetric (answers rs)),
      λ ip. ground (arith, i ip, contains-extend_set ips all ip),
      w',
      (r, a),
      at',
    )
  where
    always : (b : Bool) → (if b then symmetric else symmetric) ≡ symmetric
    always true = refl
    always false = refl
merge_one cone ips range (nat, all, widest) rs (nat', all', widest') (t, i, w, a, at) =
    let (r, w', at') = pick_wider range widest (answers rs) widest' w at in
    (t, λ ip. ground (arith, i ip, contains-extend_set ips all ip), w', (r, a), at')

stun_test_nat-MergedFrom :
    (rs : List (Result Nat)) (start : Nat) → MergedFrom start rs (stun_test_nat rs start)
unfolding stun_test_nat
stun_test_nat-MergedFrom [] (nat, all, widest) = (refl, λ ip. ground arith, omega arith, tt, refl)
stun_test_nat-MergedFrom (ok (x, ips, range) ∷ rs) start =
    merge_one x ips range start rs (stun_test_nat rs (merge_nat (ok (x, ips, range)) start))
      (stun_test_nat-MergedFrom rs (merge_nat (ok (x, ips, range)) start))
stun_test_nat-MergedFrom (err x ∷ rs) (nat, all, widest) =
    stun_test_nat-MergedFrom rs (nat, all, widest)

-- What is made of detections: the NAT is symmetric if one of them says so, the addresses are those
-- of all of them, and the range is the widest.
abbrev pub Merged : List (Result Nat) → Nat → Type 0
Merged rs (nat, ips, range) =
    (nat ≡ (if any_symmetric (answers rs) then symmetric else cone))
    × ((ip : ℕ) → contains ips ip ≡ any_has ip (answers rs))
    × AllWithin range (answers rs)
    × Attained range 0 (answers rs)

-- `stun_test_nat` takes the NAT to be symmetric exactly if a detection that succeeded does; its
-- addresses are those of any of these, and its range is the widest of theirs, 0 if there is none.
-- Detections that fail count for nothing, so the NAT is a cone, with no address, if all fail.
pub stun_test_nat-Merged : (rs : List (Result Nat)) → Merged rs (stun_test_nat rs (cone, [], 0))
stun_test_nat-Merged rs =
    let (t, i, w, a, at) = stun_test_nat-MergedFrom rs (cone, [], 0) in (t, i, a, at)
