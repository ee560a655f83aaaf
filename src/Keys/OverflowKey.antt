-- ===== src/Keys/OverflowKey.antt =====
-- `OverflowKey<N, P>` (rart/src/keys/overflow_key.rs): a key of at most `size` bytes in an array, and
-- a longer one in a boxed slice. `part` is the array size of its prefixes.
pub mod Laws
pub mod Values
use Prim.Native.Nat.{Ordering}
use rart_rs.Prelude.{
  ℕ, ◌+◌, ◌-◌, Bool, Option, none, some, [], ◌∷◌, ◌++◌, length, get_elem?, leb, if◌then◌else◌, done,
  ◌>>=◌, ◌>>◌, check, unwrap, Run,
}
use rart_rs.Partials.{Bytes, slice_to, slice_from}
use rart_rs.Keys.Slices.{write, zeros, bytes_eq, bytes_cmp}
use rart_rs.Keys.Interface.{KeyOps}
use rart_rs.Keys.Numbers.{ℤ, to_be_bytes, from_be_bytes, flip_sign}
use rart_rs.Keys.OverflowPrefix
use rart_rs.Keys.OverflowPrefix.{OverflowPartial}

pub record OverflowKey : Type 0 where
  pub inline : Bytes
  pub len : ℕ
  pub overflow : Option Bytes

abbrev pub heap_data : OverflowKey → Run Bytes
heap_data k = unwrap k.overflow

module _ (size part : ℕ) where
  -- `data`.
  unfoldable pub stored : OverflowKey → Run Bytes
  stored k = if leb k.len size then slice_to k.inline k.len else heap_data k

  unfoldable pub new_from_slice : Bytes → Run OverflowKey
  new_from_slice src =
      if leb (length src) size
      then (do
        inline ← write (zeros size) 0 src
        done (record { inline = inline; len = length src; overflow = none }))
      else done (record { inline = zeros size; len = length src; overflow = some src })

  unfoldable pub new_from_str : Bytes → Run OverflowKey
  new_from_str s = new_from_slice (s ++ 0 ∷ [])

  abbrev pub is_inline : OverflowKey → Bool
  is_inline k = leb k.len size

  unfoldable pub to_be_u64 : OverflowKey → Run ℕ
  to_be_u64 k = do
    check (leb k.len 8)
    src ← stored k
    arr ← write (zeros 8) (8 - k.len) src
    done (from_be_bytes arr)

  unfoldable pub eq : OverflowKey → OverflowKey → Run Bool
  eq k l = do lhs ← stored k; rhs ← stored l; done (bytes_eq lhs rhs)

  unfoldable pub cmp : OverflowKey → OverflowKey → Run Ordering
  cmp k l = do lhs ← stored k; rhs ← stored l; done (bytes_cmp lhs rhs)

  unfoldable pub new_from_partial : OverflowPartial → Run OverflowKey
  new_from_partial p = do src ← OverflowPrefix.stored part p; new_from_slice src

  unfoldable pub extend_from_partial : OverflowKey → OverflowPartial → Run OverflowKey
  extend_from_partial k p = do
    own ← stored k
    other ← OverflowPrefix.stored part p
    new_from_slice (own ++ other)

  unfoldable pub truncate : OverflowKey → ℕ → Run OverflowKey
  truncate k at_depth = do
    check (leb at_depth k.len)
    bytes ← stored k
    src ← slice_to bytes at_depth
    new_from_slice src

  unfoldable pub at : OverflowKey → ℕ → Run ℕ
  at k pos = do
    bytes ← if leb k.len size then done k.inline else heap_data k
    unwrap (get_elem? bytes pos)

  abbrev pub length_at : OverflowKey → ℕ → Run ℕ
  length_at k at_depth = do check (leb at_depth k.len); done (k.len - at_depth)

  unfoldable pub to_partial : OverflowKey → ℕ → Run OverflowPartial
  to_partial k at_depth = do
    bytes ← stored k
    src ← slice_from bytes at_depth
    OverflowPrefix.from_slice part src

  unfoldable pub matches_slice : OverflowKey → Bytes → Run Bool
  matches_slice k s = do own ← stored k; done (bytes_eq own s)

  -- `From<u8>` to `From<u128>`, by the width of the type in bytes.
  unfoldable pub from_unsigned : ℕ → ℕ → Run OverflowKey
  from_unsigned width value = new_from_slice (to_be_bytes width value)

  -- `From<i16>` to `From<i128>`.
  unfoldable pub from_signed : ℕ → ℤ → Run OverflowKey
  from_signed width val = new_from_slice (to_be_bytes width (flip_sign width val))

  unfoldable pub from_i8 : ℤ → Run OverflowKey
  from_i8 val = new_from_slice (flip_sign 1 val ∷ [])

abbrev pub overflow_key : ℕ → ℕ → KeyOps OverflowKey OverflowPartial
overflow_key size part = record {
  new_from_slice = new_from_slice size part;
  new_from_partial = new_from_partial size part;
  extend_from_partial = extend_from_partial size part;
  truncate = truncate size part;
  at = at size part;
  length_at = length_at size part;
  to_partial = to_partial size part;
  matches_slice = matches_slice size part;
  as_ref = stored size part;
  cmp = cmp size part;
}
