-- ===== src/Keys/OverflowPrefix.antt =====
-- `OverflowPartial<N>` (rart/src/partials/overflow_partial.rs): a prefix of at most `size` bytes in an
-- array, and a longer one in a boxed slice.
pub mod Laws
use rart_rs.Prelude.{
  ℕ, ◌+◌, min, Bool, Option, none, some, [], ◌∷◌, ◌++◌, length, get_elem?, leb, ltb, if◌then◌else◌,
  done, ◌>>=◌, ◌>>◌, check, unwrap, Run,
}
use rart_rs.Words.{prefix_length_bytes}
use rart_rs.Partials.{Bytes, slice_to, slice_from}
use rart_rs.Keys.Slices.{slice, write, zeros, bytes_eq}
use rart_rs.Keys.Interface.{PartialOps}

pub record OverflowPartial : Type 0 where
  pub inline : Bytes
  pub len : ℕ
  pub overflow : Option Bytes

abbrev pub heap_data : OverflowPartial → Run Bytes
heap_data p = unwrap p.overflow

module _ (size : ℕ) where
  -- `data`.
  unfoldable pub stored : OverflowPartial → Run Bytes
  stored p = if leb p.len size then slice_to p.inline p.len else heap_data p

  unfoldable pub from_slice : Bytes → Run OverflowPartial
  from_slice src =
      if leb (length src) size
      then (do
        inline ← write (zeros size) 0 src
        done (record { inline = inline; len = length src; overflow = none }))
      else done (record { inline = zeros size; len = length src; overflow = some src })

  unfoldable pub key : Bytes → Run OverflowPartial
  key src = from_slice (src ++ 0 ∷ [])

  abbrev pub is_inline : OverflowPartial → Bool
  is_inline p = leb p.len size

  unfoldable pub eq : OverflowPartial → OverflowPartial → Run Bool
  eq p q = do lhs ← stored p; rhs ← stored q; done (bytes_eq lhs rhs)

  unfoldable pub partial_before : OverflowPartial → ℕ → Run OverflowPartial
  partial_before p n = do
    check (leb n p.len)
    bytes ← stored p
    src ← slice_to bytes n
    from_slice src

  unfoldable pub partial_from : OverflowPartial → ℕ → ℕ → Run OverflowPartial
  partial_from p start n = do
    check (leb (start + n) p.len)
    bytes ← stored p
    src ← slice bytes start (start + n)
    from_slice src

  unfoldable pub partial_after : OverflowPartial → ℕ → Run OverflowPartial
  partial_after p start = do
    check (leb start p.len)
    bytes ← stored p
    src ← slice_from bytes start
    from_slice src

  unfoldable pub partial_extended_with : OverflowPartial → OverflowPartial → Run OverflowPartial
  partial_extended_with p q = do own ← stored p; other ← stored q; from_slice (own ++ other)

  unfoldable pub at : OverflowPartial → ℕ → Run ℕ
  at p pos = do
    check (ltb pos p.len)
    bytes ← if leb p.len size then done p.inline else heap_data p
    unwrap (get_elem? bytes pos)

  unfoldable pub prefix_length_slice : OverflowPartial → Bytes → Run ℕ
  prefix_length_slice p s = do
    let n = min p.len (length s)
    bytes ← stored p
    lhs ← slice_to bytes n
    rhs ← slice_to s n
    done (prefix_length_bytes lhs rhs)

  unfoldable pub prefix_length_common : OverflowPartial → OverflowPartial → Run ℕ
  prefix_length_common p q = do s ← stored q; prefix_length_slice p s

  unfoldable pub prefix_length_key : OverflowPartial → (ℕ → Run ℕ) → Run Bytes → ℕ → Run ℕ
  prefix_length_key p length_at as_ref depth = do
    remaining ← length_at depth
    let n = min p.len remaining
    bytes ← stored p
    lhs ← slice_to bytes n
    key ← as_ref
    rhs ← slice key depth (depth + n)
    done (prefix_length_bytes lhs rhs)

abbrev pub overflow_partial : ℕ → PartialOps OverflowPartial
overflow_partial size = record {
  from_slice = from_slice size;
  to_slice = stored size;
  partial_before = partial_before size;
  partial_from = partial_from size;
  partial_after = partial_after size;
  partial_extended_with = partial_extended_with size;
  at = at size;
  len = λ p. p.len;
  prefix_length_common = prefix_length_common size;
  prefix_length_key = prefix_length_key size;
  prefix_length_slice = prefix_length_slice size;
}
