-- ===== src/Keys/ArrayKey/Laws.antt =====
-- The keys in arrays keep to the interface. Their derived equality does not keep to their order.
use rart_rs.Prelude.{
  ℕ, ◌+◌, ◌-◌, ◌≤◌, ◌<◌, ◌≡◌, refl, sym, ◌∙◌, ap, ◌++◌, length, take, drop, leb, done, run_map,
  arith, length-append, Bool-cases, inl, inr, length-take, length-drop, take-append-drop,
  append_assoc,
}
use rart_rs.Partials
use rart_rs.Partials.{Bytes, slice_to}
use rart_rs.Keys.Slices.{
  zeros, leb-le, length-zeros, take_all, get_elem?-append, slice_to_lem, slice_to_whole,
  slice-append, write-zeros, write_behind, slice_backwards, bytes_cmp,
}
use rart_rs.Keys.Interface.{IsPartial, IsKey}
use rart_rs.Keys.ArrayPrefix
use rart_rs.Keys.ArrayPrefix.Laws
use rart_rs.Keys.ArrayPrefix.{array_partial}
use rart_rs.Keys.ArrayPrefix.Laws.{from_slice_lem, array_partial-IsPartial}
use rart_rs.Keys.ArrayKey.{
  ArrayKey, array_key, new_from_slice, new_from_partial, extend_from_partial, truncate, at,
  to_partial, cmp,
}

abbrev pub arr : Bytes → Bytes → ArrayKey
arr s junk = record { bytes = s ++ junk; len = length s }

abbrev pub Stands : ℕ → ArrayKey → Bytes → Type 0
Stands size k s = (junk : Bytes) × (k ≡ arr s junk) × (length s + length junk ≡ size)

abbrev pub fresh : ℕ → Bytes → ArrayKey
fresh size s = arr s (zeros (size - length s))

pub Stands-fresh : (size : ℕ) (s : Bytes) → length s ≤ size → Stands size (fresh size s) s
Stands-fresh size s h =
    (zeros (size - length s), refl, omega (arith, length-zeros (size - length s)))

pub new_from_slice_lem :
    (size : ℕ) (s : Bytes) → length s ≤ size → new_from_slice size s ≡ done (fresh size s)
unfolding new_from_slice
new_from_slice_lem size s h = rw (leb-le (length s) size h, write-zeros size s h)

module _ (size : ℕ) (s junk : Bytes) (room : length s + length junk ≡ size) where
  new_from_partial_lem : new_from_partial size (ArrayPrefix.Laws.arr s junk) ≡ done (fresh size s)
  unfolding new_from_partial
  new_from_partial_lem = rw (
    slice_to_whole s junk,
    slice_to_lem s (length s) (omega arith),
    take_all (length s) s (omega arith),
    write-zeros size s (omega arith),
  )

  pub truncate_lem :
      (n : ℕ)
      → n ≤ length s
      → truncate size (arr s junk) n ≡ done (record { bytes = s ++ junk; len = n })
  unfolding truncate
  truncate_lem n h = rw (leb-le n (length s) h)

  pub Stands-truncate :
      (n : ℕ) → n ≤ length s → Stands size (record { bytes = s ++ junk; len = n }) (take n s)
  Stands-truncate n h =
      let e : n ≡ length (take n s) = omega (arith, length-take {0} n s) in
      let e' : s ++ junk ≡ take n s ++ (drop n s ++ junk) =
        ap (λ l. l ++ junk) (sym (take-append-drop n s))
        ∙ append_assoc (take n s) (drop n s) junk in
      (
        drop n s ++ junk,
        ap (λ b. record { bytes = b; len = n }) e'
            ∙ ap (λ m. record { bytes = take n s ++ (drop n s ++ junk); len = m }) e,
        omega (arith, length-take {0} n s, length-drop {0} n s, length-append {0} (drop n s) junk),
      )

  at_lem : (i : ℕ) → i < length s → at size (arr s junk) i ≡ Partials.at s i
  at_lem i h = rw (get_elem?-append s junk i (omega arith))

  to_partial_lem :
      (n : ℕ)
      → to_partial size (arr s junk) n
        ≡ run_map (ArrayPrefix.Laws.fresh size) (Partials.to_partial s n)
  unfolding to_partial
  to_partial_lem n = elim (Bool-cases (leb n (length s))) [
    | inl h ↦ rw (
      h,
      slice-append s junk n (length s) (ground arith) (omega arith),
      take_all (length s) s (omega arith),
      from_slice_lem size (drop n s) (omega (arith, length-drop {0} n s)),
    )
    | inr h ↦ rw (h, slice_backwards (s ++ junk) n (length s) h)
  ]

  module _ (t junk' : Bytes) (room' : length t + length junk' ≡ size) where
    pub cmp_lem : cmp (arr s junk) (arr t junk') ≡ done (bytes_cmp s t)
    unfolding cmp
    cmp_lem = rw (slice_to_whole s junk, slice_to_whole t junk')

    extended_lem :
        length s + length t ≤ size
        → extend_from_partial size (arr s junk) (ArrayPrefix.Laws.arr t junk')
          ≡ done (fresh size (s ++ t))
    unfolding extend_from_partial
    extended_lem h =
        let e : size - length s - length t ≡ size - (length s + length t) = omega arith in
        rw (
          length-append s t,
          leb-le (length s + length t) size h,
          slice_to_whole s junk,
          write-zeros size s (omega arith),
          slice_to_whole t junk',
          slice_to_lem t (length t) (omega arith),
          take_all (length t) t (omega arith),
          write_behind s t (size - length s) (omega arith),
          e,
        )

pub array_key_keeps :
    (size : ℕ)
    → IsKey
        (array_key size)
        (Stands size)
        (ArrayPrefix.Laws.Stands size)
        (ArrayPrefix.Laws.fresh size)
        (λ n. n ≤ size)
array_key_keeps size = record {
  stands_fits = λ k s (junk, e, r). omega arith;
  builds = λ s h. (fresh size s, new_from_slice_lem size s h, Stands-fresh size s h);
  builds_partial = λ p s (junk, e, r) h.
      (fresh size s, rw e (new_from_partial_lem size s junk r), Stands-fresh size s h);
  extended = λ k p s t (junk, e, r) (junk', e', r') h. (
    fresh size (s ++ t),
    rw (e, e') (extended_lem size s junk r t junk' r' h),
    Stands-fresh size (s ++ t) (omega (arith, length-append {0} s t)),
  );
  cut = λ k s n (junk, e, r) h. (
    record { bytes = s ++ junk; len = n },
    rw e (truncate_lem size s junk r n h),
    Stands-truncate size s junk r n h,
  );
  byte_at = λ k s i (junk, e, r) h. rw e (at_lem size s junk r i h);
  rest_length = λ k s n (junk, e, r). rw e;
  rest = λ k s n (junk, e, r). rw e (to_partial_lem size s junk r n);
  matches = λ k s t (junk, e, r). rw (e, slice_to_whole s junk);
  reads = λ k s (junk, e, r). rw e (slice_to_whole s junk);
  orders = λ k l s t (junk, e, r) (junk', e', r'). rw (e, e') (cmp_lem size s junk r t junk' r');
}

-- The operations on prefixes in arrays of `size` bytes compute what those on byte strings do, panics
-- included: a prefix of up to `size` bytes is built, and two are joined that have less than `size`
-- together. The operations on keys in such arrays do for keys of up to `size` bytes, at a byte or
-- a cut in range.
pub array_key-IsKey :
    (size : ℕ)
    → IsPartial
        (array_partial size)
        (ArrayPrefix.Laws.Stands size)
        (ArrayPrefix.Laws.fresh size)
        (λ n. n ≤ size)
        (λ n. n < size)
      × IsKey
          (array_key size)
          (Stands size)
          (ArrayPrefix.Laws.Stands size)
          (ArrayPrefix.Laws.fresh size)
          (λ n. n ≤ size)
array_key-IsKey size = (array_partial-IsPartial size, array_key_keeps size)
