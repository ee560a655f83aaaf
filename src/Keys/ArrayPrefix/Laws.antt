-- ===== src/Keys/ArrayPrefix/Laws.antt =====
-- The prefixes in arrays keep to the interface.
use rart_rs.Prelude.{
  ℕ, ◌+◌, ◌-◌, ◌≤◌, ◌<◌, min, ◌≡◌, refl, ap, ◌++◌, length, take, drop, leb, ltb, done, run_map,
  arith, length-append, Bool-cases, inl, inr, length-take, length-drop, ltb-lt,
}
use rart_rs.Partials
use rart_rs.Partials.{Bytes, slice_to}
use rart_rs.Keys.Slices.{
  slice, zeros, leb-le, length-zeros, take_all, get_elem?-append, slice_to-append, slice_to_lem,
  slice_to_whole, slice-append, slice_lem, drop-take, write-zeros, write_behind, slice_out,
  get_elem?_out,
}
use rart_rs.Keys.Interface.{IsPartial}
use rart_rs.Keys.ArrayPrefix.{
  ArrPartial, array_partial, from_slice, partial_before, partial_from, partial_after,
  partial_extended_with, prefix_length_slice, prefix_length_common, prefix_length_key, at,
}

-- The bytes `s` at the front of an array that goes on with `junk`.
abbrev pub arr : Bytes → Bytes → ArrPartial
arr s junk = record { bytes = s ++ junk; len = length s }

abbrev pub Stands : ℕ → ArrPartial → Bytes → Type 0
Stands size p s = (junk : Bytes) × (p ≡ arr s junk) × (length s + length junk ≡ size)

abbrev pub fresh : ℕ → Bytes → ArrPartial
fresh size s = arr s (zeros (size - length s))

pub from_slice_lem :
    (size : ℕ) (s : Bytes) → length s ≤ size → from_slice size s ≡ done (fresh size s)
unfolding from_slice
from_slice_lem size s h = rw (leb-le (length s) size h, write-zeros size s h)

module _ (size : ℕ) (s junk : Bytes) (room : length s + length junk ≡ size) where
  part_fits : (i n : ℕ) → length (take n (drop i s)) ≤ size
  part_fits i n = omega (arith, length-take {0} n (drop i s), length-drop {0} i s)

  before_lem :
      (n : ℕ)
      → partial_before size (arr s junk) n ≡ run_map (fresh size) (Partials.partial_before s n)
  unfolding partial_before
  before_lem n = elim (Bool-cases (leb n (length s))) [
    | inl h ↦
        rw (
          h,
          slice_to-append s junk n (ground arith),
          from_slice_lem size (take n s) (part_fits 0 n),
        )
    | inr h ↦ rw h
  ]

  middle_lem :
      (i n : ℕ) → partial_from size (arr s junk) i n ≡ run_map (fresh size) (slice s i (i + n))
  unfolding partial_from
  middle_lem i n = elim (Bool-cases (leb (i + n) (length s))) [
    | inl h ↦ rw (
      h,
      slice-append s junk i (i + n) (omega arith) (ground arith),
      slice_lem s i (i + n) (omega arith) (ground arith),
      drop-take i n s,
      from_slice_lem size (take n (drop i s)) (part_fits i n),
    )
    | inr h ↦ rw (h, slice_out s i (i + n) (ground arith))
  ]

  after_lem :
      (n : ℕ)
      → partial_after size (arr s junk) n ≡ run_map (fresh size) (Partials.partial_after s n)
  unfolding partial_after
  after_lem n = elim (Bool-cases (leb n (length s))) [
    | inl h ↦ rw (
      h,
      slice-append s junk n (length s) (ground arith) (omega arith),
      take_all (length s) s (omega arith),
      from_slice_lem size (drop n s) (omega (arith, length-drop {0} n s)),
    )
    | inr h ↦ rw h
  ]

  at_lem : (i : ℕ) → at size (arr s junk) i ≡ Partials.at s i
  at_lem i = elim (Bool-cases (ltb i (length s))) [
    | inl h ↦ rw (h, get_elem?-append s junk i (ground arith))
    | inr h ↦ rw (h, get_elem?_out s i (ground arith))
  ]

  common_slice_lem :
      (t : Bytes)
      → prefix_length_slice size (arr s junk) t ≡ done (Partials.prefix_length_slice s t)
  unfolding prefix_length_slice Partials.prefix_length_slice
  common_slice_lem t =
      let e : min (min (length s) (length t)) size ≡ min (length s) (length t) = omega arith in
      rw (
        e,
        slice_to-append s junk (min (length s) (length t)) (omega arith),
        slice_to_lem t (min (length s) (length t)) (omega arith),
      )

  common_key_lem :
      (key : Bytes) (depth : ℕ)
      → prefix_length_key size (arr s junk) (Partials.length_at key) (done key) depth
        ≡ Partials.prefix_length_key s key depth
  unfolding prefix_length_key Partials.prefix_length_key
  common_key_lem key depth = elim (Bool-cases (leb depth (length key))) [
    | inl h ↦
        let e : min (min (length s) (length key - depth)) size
            ≡ min (length s) (length key - depth) =
          omega arith in
        rw (
          h,
          e,
          slice_to-append s junk (min (length s) (length key - depth)) (omega arith),
          slice_lem key depth (depth + min (length s) (length key - depth)) (omega arith)
              (ground arith),
          slice_to_lem (drop depth key) (min (length s) (length key - depth))
              (omega (arith, length-drop {0} depth key)),
          drop-take depth (min (length s) (length key - depth)) key,
        )
    | inr h ↦ rw h
  ]

  module _ (t junk' : Bytes) (room' : length t + length junk' ≡ size) where
    common_lem :
        prefix_length_common size (arr s junk) (arr t junk')
        ≡ done (Partials.prefix_length_slice s t)
    unfolding prefix_length_common
    common_lem = rw (slice_to_whole t junk', common_slice_lem t)

    extended_lem :
        length s + length t < size
        → partial_extended_with size (arr s junk) (arr t junk') ≡ done (fresh size (s ++ t))
    unfolding partial_extended_with
    extended_lem h =
        let e : size - length s - length t ≡ size - (length s + length t) = omega arith in
        rw (
          length-append s t,
          ltb-lt (length s + length t) size h,
          slice_to_whole s junk,
          write-zeros size s (omega arith),
          slice_to_whole t junk',
          write_behind s t (size - length s) (omega arith),
          e,
        )

-- Construction holds up to `size` bytes, and joining two prefixes less than `size`.
pub array_partial-IsPartial :
    (size : ℕ)
    → IsPartial (array_partial size) (Stands size) (fresh size) (λ n. n ≤ size) (λ n. n < size)
array_partial-IsPartial size = record {
  stands_fresh =
      λ s h. (zeros (size - length s), refl, omega (arith, length-zeros (size - length s)));
  stands_fits = λ p s (junk, e, r). omega arith;
  fits_less = λ m n h k. omega arith;
  builds = from_slice_lem size;
  reads = λ p s (junk, e, r). rw e (slice_to_whole s junk);
  measures = λ p s (junk, e, r). ap (λ q. q.len) e;
  before = λ p s n (junk, e, r). rw e (before_lem size s junk r n);
  middle = λ p s i n (junk, e, r). rw e (middle_lem size s junk r i n);
  after = λ p s n (junk, e, r). rw e (after_lem size s junk r n);
  extended = λ p q s t (junk, e, r) (junk', e', r') h.
      rw (e, e') (extended_lem size s junk r t junk' r' h);
  byte_at = λ p s i (junk, e, r). rw e (at_lem size s junk r i);
  common = λ p q s t (junk, e, r) (junk', e', r'). rw (e, e') (common_lem size s junk r t junk' r');
  common_slice = λ p s t (junk, e, r). rw e (common_slice_lem size s junk r t);
  common_key = λ p s key depth (junk, e, r). rw e (common_key_lem size s junk r key depth);
}
