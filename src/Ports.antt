-- ===== src/Ports.antt =====
-- The ports that are tried when a hole is punched (src/punch/mod.rs, lines 37 to 53 and 108 to
-- 144). A slice out of range and, where the build checks it, an overflow panic; `none` is a panic.
-- `checks` says whether the build has overflow checks.
pub mod Predicted
pub mod Window
use p2p_channel.Base.{
  ℕ, zero, suc, ◌+◌, ◌-◌, ◌*◌, ◌%◌, ◌≡◌, Bool, true, false, not, ◌&&◌, ◌||◌, Option, none, some,
  List, [], ◌∷◌, ◌++◌, contains, distinct, number_eq, length, take, drop, ltb, leb, nat_beq,
  if◌then◌else◌,
}

-- The ports `low .. low + n`, without the upper end.
unfoldable pub ports_from : ℕ → ℕ → List ℕ
ports_from low zero = []
ports_from low (suc n) = low ∷ ports_from (low + 1) n

-- `(low..high).collect()` with `high` pushed.
unfoldable pub port_range : ℕ → ℕ → List ℕ
port_range low high = ports_from low (high - low) ++ high ∷ []

abbrev pub last_port : ℕ
last_port = 65535

-- `a - b` and `a + b` of two `u16`.
unfoldable pub sub_u16 : Bool → ℕ → ℕ → Option ℕ
sub_u16 checks a b =
    if leb b a then some (a - b) else if checks then none else some ((a + 65536 - b) % 65536)

unfoldable pub add_u16 : Bool → ℕ → ℕ → Option ℕ
add_u16 checks a b =
    if ltb (a + b) 65536 then some (a + b) else if checks then none else some ((a + b) % 65536)

abbrev pub bind : {A B : Type 0} → Option A → (A → Option B) → Option B
bind none f = none
bind (some a) f = f a

-- `&xs[low..high]`.
unfoldable pub slice : {A : Type 0} → List A → ℕ → ℕ → Option (List A)
slice xs low high =
    if leb low high && leb high (length xs) then some (take (high - low) (drop low xs)) else none

-- The lowest and the highest port at most `range` from `port`.
unfoldable pub min_port : ℕ → ℕ → ℕ
min_port port range = if ltb range port then port - range else 1

unfoldable pub max_port : ℕ → ℕ → ℕ
max_port port range = if leb 65536 (port + range) then last_port else port + range

-- How many ports of the range are tried, `max_k1` at most.
unfoldable pub tries : Bool → ℕ → ℕ → ℕ → Option ℕ
unfolding sub_u16 add_u16
tries checks port range max_k1 =
    bind (sub_u16 checks (max_port port range) (min_port port range))
      (λ d. bind (add_u16 checks d 1) (λ span. some (if ltb max_k1 span then max_k1 else span)))

-- The ports to try near the public port, from a shuffle of the range.
unfoldable pub near_ports : Bool → (List ℕ → List ℕ) → ℕ → ℕ → ℕ → Option (List ℕ)
unfolding tries port_range slice
near_ports checks shuffle port range max_k1 =
    bind (tries checks port range max_k1)
      (λ k. slice (shuffle (port_range (min_port port range) (max_port port range))) 0 k)

-- The end of the window of `port_vec` that starts at `start`, and the start of the next one.
unfoldable pub window_end : ℕ → ℕ → ℕ → ℕ
window_end size max_k2 start = if leb size (start + max_k2) then size else start + max_k2

unfoldable pub window_next : ℕ → ℕ → ℕ → ℕ
window_next size max_k2 start = if leb size (start + max_k2) then 0 else start + max_k2

-- `(max_k1, max_k2)`.
abbrev pub limits : Bool → ℕ × ℕ
limits true = (60, 800)
limits false = (5, 10)

-- `port_vec` of `Punch::new`.
unfoldable pub all_ports : (List ℕ → List ℕ) → List ℕ
unfolding port_range
all_ports shuffle = shuffle (port_range 1 last_port)

-- What the code relies on of `SliceRandom::shuffle`: the items are those of before, in some order.
pub record IsShuffle (shuffle : List ℕ → List ℕ) : Type 0 where
  pub same_length : (xs : List ℕ) → length (shuffle xs) ≡ length xs
  pub same_items : (xs : List ℕ) (q : ℕ) → contains (shuffle xs) q ≡ contains xs q
  pub same_distinct : (xs : List ℕ) → distinct (shuffle xs) ≡ distinct xs
