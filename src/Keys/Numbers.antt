-- ===== src/Keys/Numbers.antt =====
-- Integers as bytes: `to_be_bytes` and `from_be_bytes`, and the two's complement with its sign bit
-- flipped, which the conversions into keys (`impl_from_unsigned`, `impl_from_signed` of
-- rart/src/keys) store. A type of `w` bytes has the values below 2 ^ (w * 8).
pub mod Laws
use Prim.Native.Nat.{bit_xor, compare, Ordering}
use rart_rs.Prelude.{ℕ, zero, suc, ◌+◌, ◌-◌, ◌*◌, ◌/◌, ◌%◌, ◌^◌, ◌<◌, [], ◌∷◌, ◌++◌}
use rart_rs.Partials.{Bytes}

unfoldable pub to_be_bytes : ℕ → ℕ → Bytes
to_be_bytes zero v = []
to_be_bytes (suc w) v = to_be_bytes w (v / 256) ++ v % 256 ∷ []

unfoldable pub be_value : ℕ → Bytes → ℕ
be_value acc [] = acc
be_value acc (b ∷ bytes) = be_value (acc * 256 + b) bytes

unfoldable pub from_be_bytes : Bytes → ℕ
from_be_bytes bytes = be_value 0 bytes

-- `negsuc n` is -(n + 1).
pub data ℤ : Type 0 where
  pos : ℕ → ℤ
  negsuc : ℕ → ℤ

-- The integers of a signed type of `w` bytes.
abbrev pub IsSigned : ℕ → ℤ → Type 0
IsSigned w (pos n) = n < 2 ^ (w * 8 - 1)
IsSigned w (negsuc n) = n < 2 ^ (w * 8 - 1)

unfoldable pub compareℤ : ℤ → ℤ → Ordering
compareℤ (pos m) (pos n) = compare m n
compareℤ (pos m) (negsuc n) = Ordering.gt
compareℤ (negsuc m) (pos n) = Ordering.lt
compareℤ (negsuc m) (negsuc n) = compare n m

-- `val as u`.
unfoldable pub as_unsigned : ℕ → ℤ → ℕ
as_unsigned w (pos n) = n
as_unsigned w (negsuc n) = 2 ^ (w * 8) - 1 - n

unfoldable pub sign_bit : ℕ → ℕ
sign_bit w = 2 ^ (w * 8 - 1)

unfoldable pub flip_sign : ℕ → ℤ → ℕ
flip_sign w val = bit_xor (as_unsigned w val) (sign_bit w)
