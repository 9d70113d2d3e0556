-- ===== src/Wire/Numbers.antt =====
-- Numbers that are written, as bytes or in decimal, are read back.
use p2p_channel.Base.{
  ℕ, zero, suc, ◌+◌, ◌-◌, ◌*◌, ◌/◌, ◌%◌, ◌≤◌, ◌<◌, ◌≡◌, ◌∙◌, refl, ap, inl, inr, Bool, true, false,
  ◌&&◌, Option, none, some, List, [], ◌∷◌, ◌++◌, arith, ltb, leb, if◌then◌else◌, Bool-cases, ltb→lt,
  ltb→le,
}
use mathlib.Core.List.{append_assoc}
use p2p_channel.Wire.{
  to_be_bytes, bytes_to_u32, decimal, is_digit, starts_with_zero, has_place, read_digits,
  checked_count, read_number,
}

pub bytes_to_u32-to_be_bytes : (n : ℕ) → n < 4294967296 → bytes_to_u32 (to_be_bytes n) ≡ some n
unfolding bytes_to_u32 to_be_bytes
bytes_to_u32-to_be_bytes n h = ap some (omega arith)

-- How many digits are written.
abbrev width : ℕ → ℕ → ℕ
width zero n = 0
width (suc places) n = let more = width places (n / 10) in if ltb n 10 then 1 else more + 1

-- There are places enough.
abbrev pub Fits : ℕ → ℕ → Type 0
Fits zero n = ⊥
Fits (suc places) n = ltb n 10 ≡ false → Fits places (n / 10)

-- No digit follows.
abbrev pub Stops : List ℕ → Type 0
Stops [] = Unit {0}
Stops (c ∷ cs) = is_digit c ≡ false

abbrev pub Allows : Option ℕ → ℕ → Type 0
Allows none places = Unit {0}
Allows (some limit) places = places ≤ limit

width-le : (places n : ℕ) → width places n ≤ places
width-le zero n = omega arith
width-le (suc places) n = ground (arith, width-le places (n / 10))

has_place-width :
    (limit : Option ℕ) (places n : ℕ)
    → Allows limit (suc places)
    → has_place limit (width places n) ≡ true
has_place-width none places n h = refl
has_place-width (some limit) places n h = ground (arith, width-le places n)

Allows-less : (limit : Option ℕ) (places : ℕ) → Allows limit (suc places) → Allows limit places
Allows-less none places h = tt
Allows-less (some limit) places h = omega arith

read_digits-step :
    (max : ℕ) (limit : Option ℕ) (acc count d : ℕ) (rest : List ℕ)
    → d < 10
    → acc * 10 + d ≤ max
    → has_place limit count ≡ true
    → read_digits max limit acc count ((b'0' + d) ∷ rest)
      ≡ read_digits max limit (acc * 10 + d) (count + 1) rest
unfolding read_digits
read_digits-step max limit acc count d rest h le p =
    let digit : is_digit (b'0' + d) ≡ true = ground arith in
    let same : acc * 10 + (b'0' + d - b'0') ≡ acc * 10 + d = omega arith in
    let small : leb (acc * 10 + d) max ≡ true = ground arith in rw (digit, same, small, p)

read_digits-decimal :
    (max : ℕ) (limit : Option ℕ) (places n : ℕ) (rest : List ℕ)
    → Fits places n
    → n ≤ max
    → Allows limit places
    → read_digits max limit 0 0 (decimal places n ++ rest)
      ≡ read_digits max limit n (width places n) rest
unfolding decimal
read_digits-decimal max limit zero n rest f le a = absurd f
read_digits-decimal max limit (suc places) n rest f le a = elim (Bool-cases (ltb n 10)) [
  | inl small ↦
      let whole : 0 * 10 + n ≡ n = omega arith in
      rw small (
        read_digits-step max limit 0 0 n rest (ltb→lt n 10 small) (omega arith)
          (first_place limit places a)
        ∙ ap (λ m. read_digits max limit m 1 rest) whole)
  | inr large ↦
      let more : 10 ≤ n = ltb→le n 10 large in
      let whole : n / 10 * 10 + n % 10 ≡ n = omega arith in
      rw large (
        ap (read_digits max limit 0 0) (append_assoc (decimal places (n / 10)) _ rest)
        ∙ read_digits-decimal max limit places (n / 10) ((b'0' + n % 10) ∷ rest) (f large)
            (omega arith) (Allows-less limit places a)
        ∙ read_digits-step max limit (n / 10) (width places (n / 10)) (n % 10) rest (omega arith)
            (omega arith) (has_place-width limit places (n / 10) a)
        ∙ ap (λ m. read_digits max limit m (width places (n / 10) + 1) rest) whole)
]
  where
    first_place : (limit' : Option ℕ) (p : ℕ) → Allows limit' (suc p) → has_place limit' 0 ≡ true
    first_place none p h = refl
    first_place (some l) p h = ground arith

read_digits-Stops :
    (max : ℕ) (limit : Option ℕ) (acc count : ℕ) (rest : List ℕ)
    → Stops rest
    → read_digits max limit acc count rest ≡ some (acc, count, rest)
unfolding read_digits
read_digits-Stops max limit acc count [] h = refl
read_digits-Stops max limit acc count (c ∷ cs) h = rw h

decimal-nonzero :
    (places n : ℕ) (rest : List ℕ)
    → Fits places n
    → 1 ≤ n
    → starts_with_zero (decimal places n ++ rest) ≡ false
unfolding decimal
decimal-nonzero zero n rest f h = absurd f
decimal-nonzero (suc places) n rest f h = elim (Bool-cases (ltb n 10)) [
  | inl small ↦ rw small (ground arith)
  | inr large ↦
      let more : 10 ≤ n = ltb→le n 10 large in
      rw large (
        ap starts_with_zero (append_assoc (decimal places (n / 10)) _ rest)
        ∙ decimal-nonzero places (n / 10) ((b'0' + n % 10) ∷ rest) (f large) (omega arith))
]

counted :
    (strict : Bool) (places n : ℕ) (rest : List ℕ)
    → Fits places n
    → checked_count
        (strict && starts_with_zero (decimal places n ++ rest))
        (some (n, width places n, rest))
      ≡ some (n, rest)
counted strict zero n rest f = absurd f
counted strict (suc places) n rest f = elim (Bool-cases (ltb n 10)) [
  | inl small ↦ rw small (ground arith)
  | inr large ↦
      let more : 10 ≤ n = ltb→le n 10 large in
      ground (arith, decimal-nonzero (suc places) n rest f (omega arith))
]

-- A number that is written in decimal is read back, and what follows is left.
pub read_number-decimal :
    (max : ℕ) (limit : Option ℕ) (strict : Bool) (places n : ℕ) (rest : List ℕ)
    → Fits places n
    → n ≤ max
    → Allows limit places
    → Stops rest
    → read_number max limit strict (decimal places n ++ rest) ≡ some (n, rest)
unfolding read_number
read_number-decimal max limit strict places n rest f le a s =
    ap (checked_count (strict && starts_with_zero (decimal places n ++ rest))) (
      read_digits-decimal max limit places n rest f le a
      ∙ read_digits-Stops max limit n (width places n) rest s)
    ∙ counted strict places n rest f
