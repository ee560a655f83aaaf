-- ===== src/Keys/OverflowKey/Laws.antt =====
-- The keys with overflow storage keep to the interface, and hold any number of bytes.
use rart_rs.Prelude.{
  ℕ, ◌-◌, ◌≤◌, ◌<◌, ◌≡◌, Option, none, some, ◌++◌, length, take, drop, leb, done, run_map, arith,
  Bool-cases, inl, inr, if◌then◌else◌,
}
use rart_rs.Partials
use rart_rs.Partials.{Bytes, slice_to}
use rart_rs.Keys.Slices.{
  zeros, leb-le, slice_to_lem, slice_to_whole, write-zeros, get_elem?-slice_to, bytes_cmp, bytes_eq,
}
use rart_rs.Keys.Interface.{IsPartial, IsKey}
use rart_rs.Keys.OverflowPrefix
use rart_rs.Keys.OverflowPrefix.Laws
use rart_rs.Keys.OverflowPrefix.{overflow_partial}
use rart_rs.Keys.OverflowPrefix.Laws.{from_slice_lem, overflow_partial-IsPartial}
use rart_rs.Keys.OverflowKey.{
  OverflowKey, overflow_key, stored, new_from_slice, new_from_partial, extend_from_partial,
  truncate, at, to_partial, matches_slice, cmp,
}

abbrev pub held : Bytes → Bytes → Option Bytes → OverflowKey
held inline s overflow = record { inline = inline; len = length s; overflow = overflow }

-- The length of the key is that of `s`, and its bytes are found, wherever they are.
abbrev pub Stands : ℕ → ℕ → OverflowKey → Bytes → Type 0
Stands size part k s =
    (inline : Bytes) × (overflow : Option Bytes) × (k ≡ held inline s overflow)
    × (stored size part (held inline s overflow) ≡ done s)

module _ (size part : ℕ) where
  abbrev pub fresh : Bytes → OverflowKey
  fresh s =
      if leb (length s) size
      then held (s ++ zeros (size - length s)) s none
      else held (zeros size) s (some s)

  new_from_slice_done : (s : Bytes) → new_from_slice size part s ≡ done (fresh s)
  unfolding new_from_slice
  new_from_slice_done s = elim (Bool-cases (leb (length s) size)) [
    | inl h ↦ rw (h, write-zeros size s (ground arith))
    | inr h ↦ rw h
  ]

  Stands-fresh : (s : Bytes) → Stands size part (fresh s) s
  unfolding stored
  Stands-fresh s = elim (Bool-cases (leb (length s) size)) [
    | inl h ↦ (
      s ++ zeros (size - length s),
      none,
      rw h,
      rw h (slice_to_whole s (zeros (size - length s))),
    )
    | inr h ↦ (zeros size, some s, rw h, rw h)
  ]

  -- A key of any bytes is built, inline or not.
  pub new_from_slice_lem :
      (s : Bytes) → (k : OverflowKey) × (new_from_slice size part s ≡ done k) × Stands size part k s
  new_from_slice_lem s = (fresh s, new_from_slice_done s, Stands-fresh s)

  module _ (inline s : Bytes) (o : Option Bytes)
      (d : stored size part (held inline s o) ≡ done s) where
    truncate_lem :
        (n : ℕ) → n ≤ length s → truncate size part (held inline s o) n ≡ done (fresh (take n s))
    unfolding truncate
    truncate_lem n h =
        rw (leb-le n (length s) h, d, slice_to_lem s n h) (new_from_slice_done (take n s))

    at_lem : (i : ℕ) → i < length s → at size part (held inline s o) i ≡ Partials.at s i
    unfolding at stored
    at_lem i h = elim (Bool-cases (leb (length s) size)) [
      | inl e ↦ rw (e, get_elem?-slice_to inline s (length s) i h (rw e at d))
      | inr e ↦ rw (e, rw e at d)
    ]

    to_partial_lem :
        (n : ℕ)
        → to_partial size part (held inline s o) n
          ≡ run_map (OverflowPrefix.Laws.fresh part) (Partials.to_partial s n)
    unfolding to_partial
    to_partial_lem n = elim (Bool-cases (leb n (length s))) [
      | inl h ↦ rw (d, h, from_slice_lem part (drop n s))
      | inr h ↦ rw (d, h)
    ]

    matches_lem : (t : Bytes) → matches_slice size part (held inline s o) t ≡ done (bytes_eq s t)
    unfolding matches_slice
    matches_lem t = rw d

    extended_lem :
        (p : OverflowPrefix.OverflowPartial) (t : Bytes)
        → OverflowPrefix.stored part p ≡ done t
        → extend_from_partial size part (held inline s o) p ≡ done (fresh (s ++ t))
    unfolding extend_from_partial
    extended_lem p t d' = rw (d, d') (new_from_slice_done (s ++ t))

    cmp_lem :
        (inline' t : Bytes) (o' : Option Bytes)
        → stored size part (held inline' t o') ≡ done t
        → cmp size part (held inline s o) (held inline' t o') ≡ done (bytes_cmp s t)
    unfolding cmp
    cmp_lem inline' t o' d' = rw (d, d')

  new_from_partial_lem :
      (p : OverflowPrefix.OverflowPartial) (s : Bytes)
      → OverflowPrefix.stored part p ≡ done s
      → new_from_partial size part p ≡ done (fresh s)
  unfolding new_from_partial
  new_from_partial_lem p s d = rw d (new_from_slice_done s)

pub overflow_key_keeps :
    (size part : ℕ)
    → IsKey
        (overflow_key size part)
        (Stands size part)
        (OverflowPrefix.Laws.Stands part)
        (OverflowPrefix.Laws.fresh part)
        (λ n. Unit {0})
overflow_key_keeps size part = record {
  stands_fits = λ k s h. tt;
  builds = λ s h. new_from_slice_lem size part s;
  builds_partial = λ p s (i, o, e, d) h.
      (fresh size part s, new_from_partial_lem size part p s (rw e d), Stands-fresh size part s);
  extended = λ k p s t (i, o, e, d) (i', o', e', d') h. (
    fresh size part (s ++ t),
    rw (e, e') (extended_lem size part i s o d (OverflowPrefix.Laws.held i' t o') t d'),
    Stands-fresh size part (s ++ t),
  );
  cut = λ k s n (i, o, e, d) h. (
    fresh size part (take n s),
    rw e (truncate_lem size part i s o d n h),
    Stands-fresh size part (take n s),
  );
  byte_at = λ k s a (i, o, e, d) h. rw e (at_lem size part i s o d a h);
  rest_length = λ k s n (i, o, e, d). rw e;
  rest = λ k s n (i, o, e, d). rw e (to_partial_lem size part i s o d n);
  matches = λ k s t (i, o, e, d). rw e (matches_lem size part i s o d t);
  reads = λ k s (i, o, e, d). rw e d;
  orders =
      λ k l s t (i, o, e, d) (i', o', e', d'). rw (e, e') (cmp_lem size part i s o d i' t o' d');
}

-- The operations on prefixes with overflow storage compute what those on byte strings do, panics
-- included, and those on keys with overflow storage do, at a byte or a cut in range: for prefixes
-- and keys of any length, inline or not, whatever the two array sizes.
pub overflow_key-IsKey :
    (size part : ℕ)
    → IsPartial
        (overflow_partial part)
        (OverflowPrefix.Laws.Stands part)
        (OverflowPrefix.Laws.fresh part)
        (λ n. Unit {0})
        (λ n. Unit {0})
      × IsKey
          (overflow_key size part)
          (Stands size part)
          (OverflowPrefix.Laws.Stands part)
          (OverflowPrefix.Laws.fresh part)
          (λ n. Unit {0})
overflow_key-IsKey size part = (overflow_partial-IsPartial part, overflow_key_keeps size part)
