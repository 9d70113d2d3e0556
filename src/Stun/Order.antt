-- ===== src/Stun/Order.antt =====
-- The order in which the hash set of the mapped addresses is gone through, which the standard
-- library does not fix, does not matter: the end of `stun_test_nat0` of src/stun/mod.rs is a
-- function of the set.
use mathlib.Core.Path.{subst, fun_ext}
use mathlib.Core.Quot
use mathlib.Core.Quot.{Quot}
use mathlib.Core.List.{Permᴰ}
use native.Mathlib.Nat.{ℕ_set}
use p2p_channel.Base.{
  ℕ, ◌≡◌, ◌∙◌, refl, sym, ap, Bool, ◌||◌, List, [], ◌∷◌, arith, ◌==◌, if◌then◌else◌, contains,
  length, ltb, number_eq, beq_refl,
}
use p2p_channel.Net.{SocketAddr, addr_v4, addr_v6}
use p2p_channel.Punch.{NatType}
use p2p_channel.Stun.{insert_set, port_summary, Nat, nat_of_count, ended, nat_of_addrs}
use p2p_channel.Stun.Summary.{contains-insert_set}

-- The set of the addresses so far, and the lowest and the highest port.
abbrev Summary : Type 0
Summary = List ℕ × ℕ × ℕ

-- A round of the loop.
abbrev round : SocketAddr → Summary → Summary
round (addr_v4 ip port) (ips, low, high) =
    (insert_set ip ips, if ltb port low then port else low, if ltb high port then port else high)
round (addr_v6 ip port flow scope) t = t

abbrev summary : List SocketAddr → Summary → Summary
summary addrs (ips, low, high) = port_summary addrs ips low high

summary-cons :
    (a : SocketAddr) (addrs : List SocketAddr) (t : Summary)
    → summary (a ∷ addrs) t ≡ summary addrs (round a t)
unfolding port_summary
summary-cons (addr_v4 ip port) addrs t = refl
summary-cons (addr_v6 ip port flow scope) addrs t = refl

-- The same addresses and the same ports.
record Same (t u : Summary) : Type 0 where
  has : (ip : ℕ) → contains t.0 ip ≡ contains u.0 ip
  low : t.1 ≡ u.1
  high : t.2 ≡ u.2

Same-round : (a : SocketAddr) (t u : Summary) → Same t u → Same (round a t) (round a u)
Same-round (addr_v4 ip port) t u h = record {
  has = λ j.
      contains-insert_set ip j t.0
      ∙ ap (λ b. b || (ip == j)) (h.has j)
      ∙ sym (contains-insert_set ip j u.0);
  low = ap (λ n. if ltb port n then port else n) h.low;
  high = ap (λ n. if ltb n port then port else n) h.high;
}
Same-round (addr_v6 ip port flow scope) t u h = h

Same-refl : (t : Summary) → Same t t
Same-refl t = record { has = λ ip. refl; low = refl; high = refl }

Same-trans : (t u v : Summary) → Same t u → Same u v → Same t v
Same-trans t u v h k = record {
  has = λ ip. h.has ip ∙ k.has ip;
  low = h.low ∙ k.low;
  high = h.high ∙ k.high;
}

rounds_comm : (a b : SocketAddr) (t : Summary) → Same (round a (round b t)) (round b (round a t))
rounds_comm (addr_v4 ip port) (addr_v4 ip' port') t = record {
  has = λ j. ground (
    arith,
    contains-insert_set ip j (insert_set ip' t.0),
    contains-insert_set ip' j t.0,
    contains-insert_set ip' j (insert_set ip t.0),
    contains-insert_set ip j t.0,
  );
  low = ground arith;
  high = ground arith;
}
rounds_comm (addr_v4 ip port) (addr_v6 ip' port' flow scope) t = Same-refl _
rounds_comm (addr_v6 ip port flow scope) b t = Same-refl _

Same-summary :
    (addrs : List SocketAddr) (t u : Summary) → Same t u → Same (summary addrs t) (summary addrs u)
unfolding port_summary
Same-summary [] t u h = h
Same-summary (a ∷ addrs) t u h =
    subst (λ v. Same v (summary (a ∷ addrs) u)) (sym (summary-cons a addrs t))
      (subst (Same (summary addrs (round a t))) (sym (summary-cons a addrs u))
        (Same-summary addrs (round a t) (round a u) (Same-round a t u h)))

-- One round of each, and then the same.
Same-cons :
    (a b : SocketAddr) (xs ys : List SocketAddr) (t : Summary)
    → a ≡ b
    → Same (summary xs (round a t)) (summary ys (round a t))
    → Same (summary (a ∷ xs) t) (summary (b ∷ ys) t)
Same-cons a b xs ys t q h =
    subst (λ c. Same (summary (a ∷ xs) t) (summary (c ∷ ys) t)) q
      (subst (λ v. Same v (summary (a ∷ ys) t)) (sym (summary-cons a xs t))
        (subst (Same (summary xs (round a t))) (sym (summary-cons a ys t)) h))

Same-swap :
    (a b : SocketAddr) (xs : List SocketAddr) (t : Summary)
    → Same (summary (a ∷ b ∷ xs) t) (summary (b ∷ a ∷ xs) t)
Same-swap a b xs t =
    subst (λ v. Same v (summary (b ∷ a ∷ xs) t)) (sym (two a b))
      (subst (Same (summary xs (round b (round a t)))) (sym (two b a))
        (Same-summary xs _ _ (rounds_comm b a t)))
  where
    two : (c d : SocketAddr) → summary (c ∷ d ∷ xs) t ≡ summary xs (round d (round c t))
    two c d = summary-cons c (d ∷ xs) t ∙ summary-cons d xs (round c t)

Same-perm :
    {xs ys : List SocketAddr} → Permᴰ xs ys → (t : Summary) → Same (summary xs t) (summary ys t)
Same-perm Permᴰ.nil t = Same-refl _
Same-perm (Permᴰ.cons {a} {b} {l₁ = xs} {l₂ = ys} q p) t =
    Same-cons a b xs ys t q (Same-perm p (round a t))
Same-perm (Permᴰ.swap {a} {b} {a'} {b'} {l} q q') t =
    subst (λ c. Same (summary (a ∷ b ∷ l) t) (summary (c ∷ b' ∷ l) t)) q'
      (subst (λ c. Same (summary (a ∷ b ∷ l) t) (summary (b ∷ c ∷ l) t)) q (Same-swap a b l t))
Same-perm (Permᴰ.trans p p') t = Same-trans _ _ _ (Same-perm p t) (Same-perm p' t)

length-perm : {xs ys : List SocketAddr} → Permᴰ xs ys → length xs ≡ length ys
length-perm Permᴰ.nil = refl
length-perm (Permᴰ.cons q p) = omega (arith, length-perm p)
length-perm (Permᴰ.swap q q') = refl
length-perm (Permᴰ.trans p p') = length-perm p ∙ length-perm p'

-- What the caller can see of a NAT: its type, which addresses are public, and the range.
abbrev pub View : Type 0
View = NatType × (ℕ → Bool) × ℕ

pub View-set : IsSet View
View-set = hlevel ℕ_set

abbrev pub view : Nat → View
view (nat, ips, range) = (nat, contains ips, range)

view-ended : (nat : NatType) (t u : Summary) → Same t u → view (ended nat t) ≡ view (ended nat u)
view-ended nat ([], low, high) ([], low', high') h = refl
view-ended nat ([], low, high) (y ∷ ips', low', high') h =
    absurd (ground (arith, h.has y, beq_refl y))
view-ended nat (x ∷ ips, low, high) ([], low', high') h =
    absurd (ground (arith, h.has x, beq_refl x))
view-ended nat (x ∷ ips, low, high) (y ∷ ips', low', high') h =
    rw (fun_ext h.has, h.low, h.high) refl

pub nat_of_addrs-perm :
    (xs ys : List SocketAddr) → Permᴰ xs ys → view (nat_of_addrs xs) ≡ view (nat_of_addrs ys)
unfolding nat_of_addrs
nat_of_addrs-perm xs ys p =
    ap (λ n. view (ended (nat_of_count n) (summary xs ([], 65535, 0)))) (length-perm p)
    ∙ view-ended (nat_of_count (length ys)) _ _ (Same-perm p ([], 65535, 0))

-- A hash set of addresses: the lists that go through it in some order.
abbrev pub AddrSet : Type 0
AddrSet = Quot (Permᴰ {A = SocketAddr})

-- A function of the set that says what the code says, in whatever order it goes through the set.
abbrev pub IsNatOf : (AddrSet → View) → Type 0
IsNatOf f = (addrs : List SocketAddr) → f (Quot.mk addrs) ≡ view (nat_of_addrs addrs)

unfoldable pub nat_of_set : AddrSet → View
nat_of_set = Quot.lift View-set (λ addrs. view (nat_of_addrs addrs)) nat_of_addrs-perm

-- The NAT type, the public addresses as a set, and the range are a function of the set of the
-- mapped addresses, whatever the order in which the code goes through it, and there is one such
-- function only.
pub nat_of_set_lem : IsNatOf nat_of_set × ((f : AddrSet → View) → IsNatOf f → f ≡ nat_of_set)
unfolding nat_of_set
nat_of_set_lem = (λ addrs. refl, λ f h. fun_ext (Quot.ind (λ s. View-set _ _) h))
