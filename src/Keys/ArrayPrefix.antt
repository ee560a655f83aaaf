-- ===== src/Keys/ArrayPrefix.antt =====
-- `ArrPartial<SIZE>` (rart/src/partials/array_partial.rs): a prefix in an array of `size` bytes.
pub mod Laws
use rart_rs.Prelude.{
  ℕ, ◌+◌, ◌-◌, ◌≤◌, ◌<◌, min, ◌≡◌, refl, sym, ◌∙◌, ap, Bool, true, false, [], ◌∷◌, ◌++◌, length,
  take, drop, get_elem?, leb, ltb, done, panic, ◌>>=◌, ◌>>◌, check, unwrap, Run, run_map, arith,
  length-append, Bool-cases, inl, inr,
}
use rart_rs.Words.{prefix_length_bytes}
use rart_rs.Partials
use rart_rs.Partials.{Bytes, slice_to}
use rart_rs.Keys.Slices.{slice, write, zeros}
use rart_rs.Keys.Interface.{PartialOps}

pub record ArrPartial : Type 0 where
  pub bytes : Bytes
  pub len : ℕ

module _ (size : ℕ) where
  unfoldable pub from_slice : Bytes → Run ArrPartial
  from_slice src = do
    check (leb (length src) size)
    bytes ← write (zeros size) 0 src
    done (record { bytes = bytes; len = length src })

  unfoldable pub key : Bytes → Run ArrPartial
  key src = do
    check (ltb (length src) size)
    bytes ← write (zeros size) 0 src
    done (record { bytes = bytes; len = length src + 1 })

  abbrev pub to_slice : ArrPartial → Run Bytes
  to_slice p = slice_to p.bytes p.len

  unfoldable pub partial_before : ArrPartial → ℕ → Run ArrPartial
  partial_before p n = do check (leb n p.len); src ← slice_to p.bytes n; from_slice src

  unfoldable pub partial_from : ArrPartial → ℕ → ℕ → Run ArrPartial
  partial_from p start n = do
    check (leb (start + n) p.len)
    src ← slice p.bytes start (start + n)
    from_slice src

  unfoldable pub partial_after : ArrPartial → ℕ → Run ArrPartial
  partial_after p start = do
    check (leb start p.len)
    src ← slice p.bytes start p.len
    from_slice src

  unfoldable pub partial_extended_with : ArrPartial → ArrPartial → Run ArrPartial
  partial_extended_with p q = do
    check (ltb (p.len + q.len) size)
    own ← slice_to p.bytes p.len
    bytes ← write (zeros size) 0 own
    other ← slice_to q.bytes q.len
    bytes' ← write bytes p.len other
    done (record { bytes = bytes'; len = p.len + q.len })

  abbrev pub at : ArrPartial → ℕ → Run ℕ
  at p pos = do check (ltb pos p.len); unwrap (get_elem? p.bytes pos)

  unfoldable pub prefix_length_slice : ArrPartial → Bytes → Run ℕ
  prefix_length_slice p s = do
    let n = min (min p.len (length s)) size
    lhs ← slice_to p.bytes n
    rhs ← slice_to s n
    done (prefix_length_bytes lhs rhs)

  unfoldable pub prefix_length_common : ArrPartial → ArrPartial → Run ℕ
  prefix_length_common p q = do s ← to_slice q; prefix_length_slice p s

  unfoldable pub prefix_length_key : ArrPartial → (ℕ → Run ℕ) → Run Bytes → ℕ → Run ℕ
  prefix_length_key p length_at as_ref depth = do
    remaining ← length_at depth
    let n = min (min p.len remaining) size
    lhs ← slice_to p.bytes n
    key ← as_ref
    rhs ← slice key depth (depth + n)
    done (prefix_length_bytes lhs rhs)

abbrev pub array_partial : ℕ → PartialOps ArrPartial
array_partial size = record {
  from_slice = from_slice size;
  to_slice = to_slice size;
  partial_before = partial_before size;
  partial_from = partial_from size;
  partial_after = partial_after size;
  partial_extended_with = partial_extended_with size;
  at = at size;
  len = λ p. p.len;
  prefix_length_common = prefix_length_common size;
  prefix_length_key = prefix_length_key size;
  prefix_length_slice = prefix_length_slice size;
}
