-- ===== src/Base/IoResult.antt =====
-- `std::io::Error` and `std::io::Result`.
use Prim.Native.Nat.{ℕ}
use Prim.Native.String.{String}
use mathlib.Core.Bool.{Bool, true, false}

-- The kinds that the code names; `unnamed` is any other one.
pub data ErrorKind : Type 0 where
  would_block timed_out other : ErrorKind
  unnamed : ℕ → ErrorKind

-- `Error::new(kind, message)` and `Error::from(kind)`.
pub data IoError : Type 0 where
  new_error : ErrorKind → String → IoError
  from_kind : ErrorKind → IoError

abbrev pub kind : IoError → ErrorKind
kind (new_error k m) = k
kind (from_kind k) = k

abbrev pub is_would_block : ErrorKind → Bool
is_would_block would_block = true
is_would_block _ = false

abbrev pub is_timed_out : ErrorKind → Bool
is_timed_out timed_out = true
is_timed_out _ = false

pub data Result {ℓ} (A : Type ℓ) : Type ℓ where
  ok : A → Result A
  err : IoError → Result A

abbrev pub is_ok {ℓ} : {A : Type ℓ} → Result A → Bool
is_ok (ok a) = true
is_ok (err e) = false
