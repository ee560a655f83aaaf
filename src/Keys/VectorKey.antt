-- ===== src/Keys/VectorKey.antt =====
-- `VectorKey` (rart/src/keys/vector_key.rs) and `VectorPartial` (rart/src/partials/vector_partial.rs):
-- boxed slices, which are byte strings here. Their range checks are those of `Partials`.
pub mod Laws
use Prim.Native.Nat.{Ordering}
use rart_rs.Prelude.{
  ℕ, ◌+◌, ◌-◌, min, Bool, ◌&&◌, [], ◌∷◌, ◌++◌, length, take, leb, ◌==◌, done, ◌>>=◌, ◌>>◌, check,
  Run,
}
use rart_rs.Words.{prefix_length_bytes}
use rart_rs.Partials
use rart_rs.Partials.{Bytes, slice_to}
use rart_rs.Keys.Slices.{slice, write, zeros, bytes_eq, bytes_cmp}
use rart_rs.Keys.Interface.{PartialOps, KeyOps}
use rart_rs.Keys.Numbers.{ℤ, to_be_bytes, from_be_bytes, flip_sign}

abbrev pub VectorKey : Type 0
VectorKey = Bytes

abbrev pub VectorPartial : Type 0
VectorPartial = Bytes

-- `VectorPartial::key`.
unfoldable pub key : Bytes → VectorPartial
key src = src ++ 0 ∷ []

unfoldable pub partial_from : VectorPartial → ℕ → ℕ → Run VectorPartial
partial_from p start n = do check (leb (start + n) (length p)); slice p start (start + n)

unfoldable pub prefix_length_key : VectorPartial → (ℕ → Run ℕ) → Run Bytes → ℕ → Run ℕ
prefix_length_key p length_at as_ref depth = do
  remaining ← length_at depth
  let n = min (length p) remaining
  lhs ← slice_to p n
  key ← as_ref
  rhs ← slice key depth (depth + n)
  done (prefix_length_bytes lhs rhs)

abbrev pub vector_partial : PartialOps VectorPartial
vector_partial = record {
  from_slice = λ s. done s;
  to_slice = λ p. done p;
  partial_before = Partials.partial_before;
  partial_from = partial_from;
  partial_after = Partials.partial_after;
  partial_extended_with = λ p q. done (Partials.partial_extended_with p q);
  at = λ p pos. Partials.at p pos;
  len = λ p. length p;
  prefix_length_common = λ p q. done (Partials.prefix_length_slice p q);
  prefix_length_key = prefix_length_key;
  prefix_length_slice = λ p s. done (Partials.prefix_length_slice p s);
}

-- `new_from_str` and `new_from_string`.
unfoldable pub new_from_str : Bytes → VectorKey
new_from_str s = s ++ 0 ∷ []

unfoldable pub to_be_u64 : VectorKey → Run ℕ
to_be_u64 k = do
  check (leb 8 (length k))
  check (leb (length k) 8)
  arr ← write (zeros 8) (8 - length k) k
  done (from_be_bytes arr)

unfoldable pub extend_from_partial : VectorKey → VectorPartial → Run VectorKey
extend_from_partial k p = done (k ++ p)

-- `Vec::truncate` leaves a shorter vector as it is.
unfoldable pub truncate : VectorKey → ℕ → Run VectorKey
truncate k at_depth = done (take at_depth k)

unfoldable pub matches_slice : VectorKey → Bytes → Run Bool
matches_slice k s = done (length k == length s && bytes_eq k s)

unfoldable pub new_from_slice : Bytes → Run VectorKey
new_from_slice src = done src

unfoldable pub new_from_partial : VectorPartial → Run VectorKey
new_from_partial p = done p

-- `From<u8>` to `From<u128>`, by the width of the type in bytes.
unfoldable pub from_unsigned : ℕ → ℕ → Run VectorKey
from_unsigned width value = new_from_slice (to_be_bytes width value)

-- `From<i16>` to `From<i128>`.
unfoldable pub from_signed : ℕ → ℤ → Run VectorKey
from_signed width val = new_from_slice (to_be_bytes width (flip_sign width val))

unfoldable pub from_i8 : ℤ → VectorKey
from_i8 val = flip_sign 1 val ∷ []

-- The derived order is that of the slices.
abbrev pub vector_key : KeyOps VectorKey VectorPartial
vector_key = record {
  new_from_slice = new_from_slice;
  new_from_partial = new_from_partial;
  extend_from_partial = extend_from_partial;
  truncate = truncate;
  at = λ k pos. Partials.at k pos;
  length_at = Partials.length_at;
  to_partial = Partials.to_partial;
  matches_slice = matches_slice;
  as_ref = λ k. done k;
  cmp = λ k l. done (bytes_cmp k l);
}
