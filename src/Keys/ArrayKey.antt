-- ===== src/Keys/ArrayKey.antt =====
-- `ArrayKey<N>` (rart/src/keys/array_key.rs): a key in an array of `size` bytes.
pub mod Laws
pub mod Values
use Prim.Native.Nat.{Ordering}
use rart_rs.Prelude.{
  ℕ, ◌+◌, ◌-◌, ◌^◌, Bool, ◌&&◌, [], ◌∷◌, ◌++◌, length, get_elem?, leb, ltb, ◌==◌, done, ◌>>=◌, ◌>>◌,
  check, unwrap, Run,
}
use rart_rs.Partials.{Bytes, slice_to}
use rart_rs.Keys.Slices.{slice, write, zeros, bytes_eq, bytes_cmp}
use rart_rs.Keys.Interface.{KeyOps}
use rart_rs.Keys.Numbers.{ℤ, to_be_bytes, from_be_bytes, flip_sign}
use rart_rs.Keys.ArrayPrefix
use rart_rs.Keys.ArrayPrefix.{ArrPartial}

pub record ArrayKey : Type 0 where
  pub bytes : Bytes
  pub len : ℕ

-- The equality that `#[derive(PartialEq)]` makes.
unfoldable pub eq : ArrayKey → ArrayKey → Bool
eq k l = bytes_eq k.bytes l.bytes && k.len == l.len

abbrev pub as_slice : ArrayKey → Run Bytes
as_slice k = slice_to k.bytes k.len

unfoldable pub cmp : ArrayKey → ArrayKey → Run Ordering
cmp k l = do lhs ← as_slice k; rhs ← as_slice l; done (bytes_cmp lhs rhs)

unfoldable pub to_be_u64 : ArrayKey → Run ℕ
to_be_u64 k = do
  check (leb k.len 8)
  src ← as_slice k
  arr ← write (zeros 8) (8 - k.len) src
  done (from_be_bytes arr)

module _ (size : ℕ) where
  -- The bytes of a `&str` or a `String`, with a zero byte behind them.
  unfoldable pub new_from_str : Bytes → Run ArrayKey
  new_from_str s = do
    check (ltb (length s + 1) size)
    arr ← write (zeros size) 0 s
    done (record { bytes = arr; len = length s + 1 })

  unfoldable pub new_from_slice : Bytes → Run ArrayKey
  new_from_slice src = do
    check (leb (length src) size)
    arr ← write (zeros size) 0 src
    done (record { bytes = arr; len = length src })

  unfoldable pub new_from_partial : ArrPartial → Run ArrayKey
  new_from_partial p = do
    src ← ArrayPrefix.to_slice size p
    part ← slice_to src p.len
    arr ← write (zeros size) 0 part
    done (record { bytes = arr; len = p.len })

  unfoldable pub extend_from_partial : ArrayKey → ArrPartial → Run ArrayKey
  extend_from_partial k p = do
    check (leb (k.len + p.len) size)
    own ← slice_to k.bytes k.len
    arr ← write (zeros size) 0 own
    src ← ArrayPrefix.to_slice size p
    part ← slice_to src p.len
    arr' ← write arr k.len part
    done (record { bytes = arr'; len = k.len + p.len })

  unfoldable pub truncate : ArrayKey → ℕ → Run ArrayKey
  truncate k at_depth = do
    check (leb at_depth k.len)
    done (record { bytes = k.bytes; len = at_depth })

  abbrev pub at : ArrayKey → ℕ → Run ℕ
  at k pos = unwrap (get_elem? k.bytes pos)

  abbrev pub length_at : ArrayKey → ℕ → Run ℕ
  length_at k at_depth = do check (leb at_depth k.len); done (k.len - at_depth)

  unfoldable pub to_partial : ArrayKey → ℕ → Run ArrPartial
  to_partial k at_depth = do src ← slice k.bytes at_depth k.len; ArrayPrefix.from_slice size src

  abbrev pub matches_slice : ArrayKey → Bytes → Run Bool
  matches_slice k s = do own ← as_slice k; done (bytes_eq own s)

  -- `From<u8>` to `From<u128>`, by the width of the type in bytes.
  unfoldable pub from_unsigned : ℕ → ℕ → Run ArrayKey
  from_unsigned width value = new_from_slice (to_be_bytes width value)

  -- `From<i16>` to `From<i128>`.
  unfoldable pub from_signed : ℕ → ℤ → Run ArrayKey
  from_signed width val = new_from_slice (to_be_bytes width (flip_sign width val))

  unfoldable pub from_i8 : ℤ → Run ArrayKey
  from_i8 val = do
    arr ← write (zeros size) 0 (flip_sign 1 val ∷ [])
    done (record { bytes = arr; len = 1 })

abbrev pub array_key : ℕ → KeyOps ArrayKey ArrPartial
array_key size = record {
  new_from_slice = new_from_slice size;
  new_from_partial = new_from_partial size;
  extend_from_partial = extend_from_partial size;
  truncate = truncate size;
  at = at size;
  length_at = length_at size;
  to_partial = to_partial size;
  matches_slice = matches_slice size;
  as_ref = as_slice;
  cmp = cmp;
}
