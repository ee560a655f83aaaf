-- ===== src/Iter/Lending/Order.antt =====
-- `cmp_slice`: the segments of a key against a slice.
use Prim.Native.Nat.{compare, Ordering}
use rart_rs.Prelude.{
  ℕ, suc, ◌+◌, ◌≡◌, ◌≢◌, ◌⊎◌, inl, inr, refl, sym, ◌∙◌, ap, min, List, [], ◌∷◌, ◌++◌, append_assoc,
  append-nil, length, length-append, take, done, arith,
}
use rart_rs.Partials.{Bytes}
use rart_rs.Partials.Laws.{align, same, below, above, fork}
use rart_rs.Keys.Slices.{bytes_cmp, then_with}
use rart_rs.Tree.Search.View.{LendingKeyView, to_vec, write_segments}
use rart_rs.Iter.Find.{bytes_cmp-under}
use rart_rs.Iter.Lending.{cmp_segments_loop, cmp_slice}
use rart_rs.Iter.Lending.Segments.{
  AreSegments, IsView, GoesOn, Answers, write_segments-append, slice_from_start, round_differ,
  answers_same, answers_above, answers_below, answers_none, zero_plus,
}

then_with_ne :
    (x y : ℕ) (o o' : Ordering) → x ≢ y → then_with (compare x y) o ≡ then_with (compare x y) o'
then_with_ne x y o o' h = ground arith

then_with_ne_eq : (x y : ℕ) (o : Ordering) → x ≢ y → then_with (compare x y) o ≢ Ordering.eq
then_with_ne_eq x y o h e = ground arith

bytes_cmp-cons :
    (x y : ℕ) (s t : Bytes) → bytes_cmp (x ∷ s) (y ∷ t) ≡ then_with (compare x y) (bytes_cmp s t)
unfolding bytes_cmp
bytes_cmp-cons x y s t = refl

suc_plus : (m n : ℕ) → suc m + n ≡ suc (m + n)
suc_plus m n = omega arith

take-past :
    (c : Bytes) (x n : ℕ) (q : Bytes) → take (length c + suc n) (c ++ x ∷ q) ≡ c ++ x ∷ take n q
take-past [] x n q = rw (zero_plus (suc n)) refl
take-past (y ∷ c) x n q = rw (suc_plus (length c) (suc n)) (ap (λ l. y ∷ l) (take-past c x n q))

answers_fork :
    (c : Bytes) (x y : ℕ) (q r : Bytes) (ss : List Bytes) (rest : Bytes) (len : ℕ)
    → x ≢ y
    → cmp_segments_loop ((c ++ x ∷ q) ∷ ss) 0 len (c ++ y ∷ r)
      ≡ done (bytes_cmp ((c ++ x ∷ q) ++ rest) (c ++ y ∷ r))
answers_fork c x y q r ss rest len ne =
    let s = c ++ x ∷ q in
    let slice = c ++ y ∷ r in
    let common : min (length s) (length slice) ≡ length c + suc (min (length q) (length r)) =
      omega (arith, length-append c (x ∷ q), length-append c (y ∷ r)) in
    let n = min (length q) (length r) in
    round_differ s slice ss len 0 slice (then_with (compare x y) (bytes_cmp (take n q) (take n r)))
      (slice_from_start slice)
      (rw
        (
          common,
          take-past c x n q,
          take-past c y n r,
          bytes_cmp-under c (x ∷ take n q) (y ∷ take n r),
        )
        (bytes_cmp-cons x y (take n q) (take n r)))
      (then_with_ne_eq x y (bytes_cmp (take n q) (take n r)) ne)
    ∙ ap done (
        then_with_ne x y (bytes_cmp (take n q) (take n r)) (bytes_cmp (q ++ rest) r) ne
        ∙ sym (
            rw (append_assoc c (x ∷ q) rest, bytes_cmp-under c (x ∷ (q ++ rest)) (y ∷ r))
              (bytes_cmp-cons x y (q ++ rest) r)))

-- No list goes on behind its own end, and none behind a place where the two differ.
longer_ne : (s q : Bytes) (e : ℕ) (r : Bytes) → s ≡ (s ++ q) ++ e ∷ r → ⊥
longer_ne s q e r h = omega (arith, ap length h, length-append (s ++ q) (e ∷ r), length-append s q)

fork_ne :
    (c : Bytes) (x y : ℕ) (q r : Bytes) (e : ℕ) (u : Bytes)
    → x ≢ y
    → c ++ y ∷ r ≡ (c ++ x ∷ q) ++ e ∷ u
    → ⊥
fork_ne [] x y q r e u ne h = ne (cc)
fork_ne (b ∷ c) x y q r e u ne h = fork_ne c x y q r e u ne (cc)

answers_first :
    (s : Bytes) (ss : List Bytes) (slice : Bytes)
    → AreSegments ss
    → Answers (s ∷ ss) (s ++ write_segments ss []) slice
answers_first s ss slice h = elim (align s slice) [
  | same e ↦
      inl (
        λ (a, r, z). longer_ne s [] a r (rw (append-nil s) (sym e ∙ z)),
        rw e (answers_same s ss h),
      )
  | above e q z ↦ inl (
    λ (a, r, z'). longer_ne slice (e ∷ q) a r (z' ∙ ap (λ p. p ++ a ∷ r) z),
    rw z (answers_above slice e q ss (write_segments ss [])),
  )
  | below e r z ↦
      inr ((e, r, z), rw z (answers_below s e r ss (length (s ++ write_segments ss []))))
  | fork c x y q r ne z z' ↦ inl (
    λ (a, u, g). fork_ne c x y q r a u ne (sym z' ∙ g ∙ ap (λ p. p ++ a ∷ u) z),
    rw (z, z')
        (answers_fork c x y q r ss (write_segments ss [])
          (length ((c ++ x ∷ q) ++ write_segments ss [])) ne),
  )
]

answers :
    (ss : List Bytes) (slice : Bytes) → AreSegments ss → Answers ss (write_segments ss []) slice
unfolding write_segments
answers [] slice h = inl (λ g. g, answers_none slice)
answers ([] ∷ ss) slice h = absurd h
answers ((b ∷ s) ∷ ss) slice h =
    rw (write_segments-append ss (b ∷ s)) (answers_first (b ∷ s) ss slice h)

-- On the segments of a key, none of them empty, `cmp_slice` does not panic. When the slice is longer
-- than the first segment and begins with it, the answer is less, whatever the other segments are; in
-- every other case it is the order of the key and the slice.
pub cmp_slice_lem :
    (view : LendingKeyView) (slice : Bytes)
    → IsView view
    → (GoesOn view.segments slice → ⊥)
        × (cmp_slice view slice ≡ done (bytes_cmp (to_vec view) slice))
      ⊎ GoesOn view.segments slice × (cmp_slice view slice ≡ done Ordering.lt)
unfolding cmp_slice to_vec
cmp_slice_lem view slice w = rw (w.counted) (answers view.segments slice w.filled)
