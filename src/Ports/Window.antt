-- ===== src/Ports/Window.antt =====
-- The windows of `port_vec`: they stay in range, and a cycle of them holds every port.
use p2p_channel.Base.{
  ℕ, zero, suc, ◌+◌, ◌-◌, ◌≤◌, ◌<◌, ◌≡◌, ◌∙◌, refl, sym, ap, true, false, ◌&&◌, Option, none, some,
  List, [], ◌∷◌, ◌++◌, arith, length, length-drop, take, drop, take-append-drop, contains, distinct,
  number_eq, dec_lt, leb, nat_beq, if◌then◌else◌, distinct-append_one,
}
use native.Mathlib.Nat.{suc-add}
use p2p_channel.Ports.{
  ports_from, port_range, last_port, all_ports, bind, slice, window_end, window_next, IsShuffle,
}
use p2p_channel.Ports.Predicted.{
  slice_of_le, length-port_range, contains-port_range, contains-ports_from,
}

module _ (size max_k2 start : ℕ) (h : start < size) where
  -- A window that starts inside the list ends inside it, and so starts the next one.
  pub window_bounds :
      (start ≤ window_end size max_k2 start)
      × (window_end size max_k2 start ≤ size)
      × (window_next size max_k2 start < size)
  unfolding window_end window_next
  window_bounds = ground arith

-- The windows from `start` up to the one after which the index is 0 again.
abbrev pub windows : ℕ → List ℕ → ℕ → ℕ → Option (List ℕ)
windows zero xs max_k2 start = none
windows (suc fuel) xs max_k2 start =
    let rest = windows fuel xs max_k2 (window_next (length xs) max_k2 start) in
    bind (slice xs start (window_end (length xs) max_k2 start)) (λ here.
      if nat_beq (window_next (length xs) max_k2 start) 0
      then some here
      else bind rest (λ more. some (here ++ more)))

drop_nil : (n : ℕ) → drop {A = ℕ} n [] ≡ []
drop_nil zero = refl
drop_nil (suc n) = refl

drop-add : (m n : ℕ) (xs : List ℕ) → drop n (drop m xs) ≡ drop (m + n) xs
drop-add zero n xs = ap (λ (k : ℕ). drop k xs) (omega arith)
drop-add (suc m) n [] = drop_nil n ∙ sym (drop_nil (suc m + n))
drop-add (suc m) n (x ∷ xs) = rw suc-add (drop-add m n xs)

take_all : (n : ℕ) (xs : List ℕ) → length xs ≤ n → take n xs ≡ xs
take_all zero [] h = refl
take_all zero (x ∷ xs) h = absurd (omega arith)
take_all (suc n) [] h = refl
take_all (suc n) (x ∷ xs) h = ap (◌∷◌ x) (take_all n xs (omega arith))

module _ (xs : List ℕ) (max_k2 start : ℕ) (h : start < length xs) where
  last_window :
      length xs ≤ start + max_k2
      → (slice xs start (window_end (length xs) max_k2 start) ≡ some (drop start xs))
        × (window_next (length xs) max_k2 start ≡ 0)
  unfolding window_end window_next
  last_window le =
      let full =
        slice_of_le xs start (length xs) (omega arith) (omega arith)
        ∙ ap some
            (take_all (length xs - start) (drop start xs) (omega (arith, length-drop start xs))) in
      (ground (arith, full), ground arith)

  full_window :
      start + max_k2 < length xs
      → (slice xs start (window_end (length xs) max_k2 start) ≡ some (take max_k2 (drop start xs)))
        × (window_next (length xs) max_k2 start ≡ start + max_k2)
  unfolding window_end window_next
  full_window lt =
      let width : start + max_k2 - start ≡ max_k2 = omega arith in
      let full =
        slice_of_le xs start (start + max_k2) (omega arith) (omega arith)
        ∙ ap (λ (n : ℕ). some (take n (drop start xs))) width in
      (ground (arith, full), ground arith)

-- The windows that are taken one after the other, each from where the last one ended, until the
-- index is 0 again, are all in range, end after at most as many as there are ports, and
-- together they are the list of the ports from the first start on, in order.
pub windows_cover :
    (fuel : ℕ) (xs : List ℕ) (max_k2 start : ℕ)
    → 0 < max_k2
    → start < length xs
    → length xs - start ≤ fuel
    → windows fuel xs max_k2 start ≡ some (drop start xs)
windows_cover zero xs max_k2 start p h le = absurd (omega arith)
windows_cover (suc fuel) xs max_k2 start p h le = elim (dec_lt (start + max_k2) (length xs)) [
  | yes lt ↦
      let w = full_window xs max_k2 start h lt in
      let rest = windows_cover fuel xs max_k2 (start + max_k2) p lt (omega arith) in
      let nonzero : nat_beq (start + max_k2) 0 ≡ false = ground arith in
      rw (w.0, w.1)
        (rw (nonzero, rest)
          (ap some (
            ap (◌++◌ (take max_k2 (drop start xs))) (sym (drop-add start max_k2 xs))
            ∙ take-append-drop max_k2 (drop start xs))))
  | no ge ↦ let w = last_window xs max_k2 start h (omega arith) in rw (w.0, w.1)
]

distinct-ports_from : (low n : ℕ) → distinct (ports_from low n) ≡ true
unfolding ports_from
distinct-ports_from low zero = refl
distinct-ports_from low (suc n) =
    ground (arith, distinct-ports_from (low + 1) n, contains-ports_from (low + 1) n low)

distinct-port_range : (low high : ℕ) → low ≤ high → distinct (port_range low high) ≡ true
unfolding port_range
distinct-port_range low high h =
    distinct-append_one (ports_from low (high - low)) high (distinct-ports_from low (high - low))
      (ground (arith, contains-ports_from low (high - low) high))

-- The list of ports of a new `Punch` holds each port from 1 to 65535 exactly once.
pub all_ports_lem :
    (shuffle : List ℕ → List ℕ)
    → IsShuffle shuffle
    → (length (all_ports shuffle) ≡ 65535)
      × (distinct (all_ports shuffle) ≡ true)
      × ((q : ℕ) → contains (all_ports shuffle) q ≡ (leb 1 q && leb q 65535))
unfolding all_ports
all_ports_lem shuffle s = (
  s.same_length (port_range 1 last_port) ∙ length-port_range 1 last_port (omega arith),
  s.same_distinct (port_range 1 last_port) ∙ distinct-port_range 1 last_port (omega arith),
  λ q. s.same_items (port_range 1 last_port) q ∙ contains-port_range 1 last_port q (omega arith),
)
