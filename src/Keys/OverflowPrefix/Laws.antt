-- ===== src/Keys/OverflowPrefix/Laws.antt =====
-- The prefixes with overflow storage keep to the interface, and hold any number of bytes.
use rart_rs.Prelude.{
  ℕ, ◌+◌, ◌-◌, ◌<◌, min, ◌≡◌, ap, Option, none, some, ◌++◌, length, take, drop, leb, ltb, done,
  run_map, arith, Bool-cases, inl, inr, length-drop, ltb-lt, if◌then◌else◌,
}
use rart_rs.Partials
use rart_rs.Partials.{Bytes, slice_to}
use rart_rs.Keys.Slices.{
  slice, zeros, slice_to_lem, slice_to_whole, slice_lem, drop-take, write-zeros, slice_out,
  get_elem?_out, get_elem?-slice_to,
}
use rart_rs.Keys.Interface.{IsPartial}
use rart_rs.Keys.OverflowPrefix.{
  OverflowPartial, overflow_partial, stored, from_slice, partial_before, partial_from,
  partial_after, partial_extended_with, at, prefix_length_slice, prefix_length_common,
  prefix_length_key,
}

-- A prefix whose length is that of `s`.
abbrev pub held : Bytes → Bytes → Option Bytes → OverflowPartial
held inline s overflow = record { inline = inline; len = length s; overflow = overflow }

-- The length of the prefix is that of `s`, and its bytes are found, wherever they are.
abbrev pub Stands : ℕ → OverflowPartial → Bytes → Type 0
Stands size p s =
    (inline : Bytes) × (overflow : Option Bytes) × (p ≡ held inline s overflow)
    × (stored size (held inline s overflow) ≡ done s)

abbrev pub fresh : ℕ → Bytes → OverflowPartial
fresh size s =
    if leb (length s) size
    then held (s ++ zeros (size - length s)) s none
    else held (zeros size) s (some s)

pub from_slice_lem : (size : ℕ) (s : Bytes) → from_slice size s ≡ done (fresh size s)
unfolding from_slice
from_slice_lem size s = elim (Bool-cases (leb (length s) size)) [
  | inl h ↦ rw (h, write-zeros size s (ground arith))
  | inr h ↦ rw h
]

pub Stands-fresh : (size : ℕ) (s : Bytes) → Stands size (fresh size s) s
unfolding stored
Stands-fresh size s = elim (Bool-cases (leb (length s) size)) [
  | inl h ↦
      (s ++ zeros (size - length s), none, rw h, rw h (slice_to_whole s (zeros (size - length s))))
  | inr h ↦ (zeros size, some s, rw h, rw h)
]

module _ (size : ℕ) (inline s : Bytes) (o : Option Bytes)
    (d : stored size (held inline s o) ≡ done s) where
  before_lem :
      (n : ℕ)
      → partial_before size (held inline s o) n ≡ run_map (fresh size) (Partials.partial_before s n)
  unfolding partial_before
  before_lem n = elim (Bool-cases (leb n (length s))) [
    | inl h ↦ rw (h, d, slice_to_lem s n (ground arith), from_slice_lem size (take n s))
    | inr h ↦ rw h
  ]

  middle_lem :
      (i n : ℕ) → partial_from size (held inline s o) i n ≡ run_map (fresh size) (slice s i (i + n))
  unfolding partial_from
  middle_lem i n = elim (Bool-cases (leb (i + n) (length s))) [
    | inl h ↦ rw (
      h,
      d,
      slice_lem s i (i + n) (omega arith) (ground arith),
      from_slice_lem size (drop i (take (i + n) s)),
    )
    | inr h ↦ rw (h, slice_out s i (i + n) (ground arith))
  ]

  after_lem :
      (n : ℕ)
      → partial_after size (held inline s o) n ≡ run_map (fresh size) (Partials.partial_after s n)
  unfolding partial_after
  after_lem n = elim (Bool-cases (leb n (length s))) [
    | inl h ↦ rw (h, d, h, from_slice_lem size (drop n s))
    | inr h ↦ rw h
  ]

  byte_in : (i : ℕ) → i < length s → at size (held inline s o) i ≡ Partials.at s i
  unfolding at stored
  byte_in i h = elim (Bool-cases (leb (length s) size)) [
    | inl e ↦ rw (ltb-lt i (length s) h, e, get_elem?-slice_to inline s (length s) i h (rw e at d))
    | inr e ↦ rw (ltb-lt i (length s) h, e, rw e at d)
  ]

  at_lem : (i : ℕ) → at size (held inline s o) i ≡ Partials.at s i
  unfolding at
  at_lem i = elim (Bool-cases (ltb i (length s))) [
    | inl h ↦ byte_in i (ground arith)
    | inr h ↦ rw (h, get_elem?_out s i (ground arith))
  ]

  common_slice_lem :
      (t : Bytes)
      → prefix_length_slice size (held inline s o) t ≡ done (Partials.prefix_length_slice s t)
  unfolding prefix_length_slice Partials.prefix_length_slice
  common_slice_lem t = rw (
    d,
    slice_to_lem s (min (length s) (length t)) (omega arith),
    slice_to_lem t (min (length s) (length t)) (omega arith),
  )

  common_key_lem :
      (key : Bytes) (depth : ℕ)
      → prefix_length_key size (held inline s o) (Partials.length_at key) (done key) depth
        ≡ Partials.prefix_length_key s key depth
  unfolding prefix_length_key Partials.prefix_length_key
  common_key_lem key depth = elim (Bool-cases (leb depth (length key))) [
    | inl h ↦ rw (
      h,
      d,
      slice_to_lem s (min (length s) (length key - depth)) (omega arith),
      slice_lem key depth (depth + min (length s) (length key - depth)) (omega arith)
          (ground arith),
      slice_to_lem (drop depth key) (min (length s) (length key - depth))
          (omega (arith, length-drop {0} depth key)),
      drop-take depth (min (length s) (length key - depth)) key,
    )
    | inr h ↦ rw h
  ]

  module _ (inline' t : Bytes) (o' : Option Bytes)
      (d' : stored size (held inline' t o') ≡ done t) where
    common_lem :
        prefix_length_common size (held inline s o) (held inline' t o')
        ≡ done (Partials.prefix_length_slice s t)
    unfolding prefix_length_common
    common_lem = rw (d', common_slice_lem t)

    extended_lem :
        partial_extended_with size (held inline s o) (held inline' t o')
        ≡ done (fresh size (s ++ t))
    unfolding partial_extended_with
    extended_lem = rw (d, d') (from_slice_lem size (s ++ t))

pub overflow_partial-IsPartial :
    (size : ℕ)
    → IsPartial (overflow_partial size) (Stands size) (fresh size) (λ n. Unit {0}) (λ n. Unit {0})
overflow_partial-IsPartial size = record {
  stands_fresh = λ s h. Stands-fresh size s;
  stands_fits = λ p s h. tt;
  fits_less = λ m n h k. tt;
  builds = λ s h. from_slice_lem size s;
  reads = λ p s (i, o, e, d). rw e d;
  measures = λ p s (i, o, e, d). ap (λ q. q.len) e;
  before = λ p s n (i, o, e, d). rw e (before_lem size i s o d n);
  middle = λ p s a n (i, o, e, d). rw e (middle_lem size i s o d a n);
  after = λ p s n (i, o, e, d). rw e (after_lem size i s o d n);
  extended =
      λ p q s t (i, o, e, d) (i', o', e', d') h. rw (e, e') (extended_lem size i s o d i' t o' d');
  byte_at = λ p s a (i, o, e, d). rw e (at_lem size i s o d a);
  common = λ p q s t (i, o, e, d) (i', o', e', d'). rw (e, e') (common_lem size i s o d i' t o' d');
  common_slice = λ p s t (i, o, e, d). rw e (common_slice_lem size i s o d t);
  common_key = λ p s key depth (i, o, e, d). rw e (common_key_lem size i s o d key depth);
}
