-- ===== src/Iter/Lending/Segments.antt =====
-- The rounds of `cmp_slice`, which compares the segments of a key with a slice.
use Prim.Native.Nat.{compare, Ordering}
use rart_rs.Prelude.{
  ℕ, ◌+◌, ◌<◌, ◌≡◌, ◌≢◌, ◌⊎◌, refl, sym, ◌∙◌, min, List, [], ◌∷◌, ◌++◌, append_assoc, append-nil,
  length, length-append, true, take, Run, done, arith, ◌==◌, ==_refl, ==-ne, take-length_append,
}
use rart_rs.Partials.{Bytes, slice_from}
use rart_rs.Partials.Laws.{slice_from-append}
use rart_rs.Keys.Slices.{bytes_cmp, bytes_cmp_self}
use rart_rs.Tree.Search.View.{LendingKeyView, to_vec, write_segments}
use rart_rs.Iter.Order.{Precedes-below}
use rart_rs.Iter.Bounds.{bytes_cmp-flip}
use rart_rs.Iter.Rounds.{take-beyond}
use rart_rs.Iter.Lending.{if_equal, cmp_segments_loop}

abbrev pub AreSegments : List Bytes → Type 0
AreSegments [] = Unit
AreSegments ([] ∷ ss) = ⊥
AreSegments ((b ∷ s) ∷ ss) = AreSegments ss

-- No segment is empty, and the length is that of all segments.
pub record IsView (view : LendingKeyView) : Type 0 where
  pub filled : AreSegments view.segments
  pub counted : view.len ≡ length (to_vec view)

-- The slice is longer than the first segment and begins with it.
abbrev pub GoesOn : List Bytes → Bytes → Type 0
GoesOn [] slice = ⊥
GoesOn (s ∷ ss) slice = (e : ℕ) × (r : Bytes) × (slice ≡ s ++ e ∷ r)

pub write_segments-append :
    (ss : List Bytes) (dst : Bytes) → write_segments ss dst ≡ dst ++ write_segments ss []
unfolding write_segments
write_segments-append [] dst = sym (append-nil dst)
write_segments-append (s ∷ ss) dst =
    rw (write_segments-append ss (dst ++ s), write_segments-append ss s, append_assoc) refl

pub slice_from_start : (s : Bytes) → slice_from s 0 ≡ done s
slice_from_start s = slice_from-append [] s

slice_from_end : (s : Bytes) → slice_from s (length s) ≡ done []
slice_from_end s = rw (append-nil s) at (slice_from-append s [])

-- A round on segments that the slice agrees with as far as the shorter goes.
module _ (s slice : Bytes) (ss : List Bytes) (len offset : ℕ) (slice' : Bytes)
    (at_offset : slice_from slice' offset ≡ done slice)
    (agree : bytes_cmp
        (take (min (length s) (length slice)) s)
        (take (min (length s) (length slice)) slice)
      ≡ Ordering.eq) where
  round_longer :
      length slice < length s → cmp_segments_loop (s ∷ ss) offset len slice' ≡ done Ordering.gt
  unfolding cmp_segments_loop
  round_longer h =
      rw (at_offset, agree, ==-ne (length s) (min (length s) (length slice)) (λ z. omega arith))
        refl

  round_shorter :
      length s < length slice → cmp_segments_loop (s ∷ ss) offset len slice' ≡ done Ordering.lt
  unfolding cmp_segments_loop
  round_shorter h =
      rw
        (
          at_offset,
          agree,
          equal_test (length s) (min (length s) (length slice)) (omega arith),
          ==-ne (length slice) (min (length s) (length slice)) (λ z. omega arith),
        )
        refl
    where
      equal_test : (a b : ℕ) → a ≡ b → (a == b) ≡ true
      equal_test a b h' = ground arith

  round_same :
      length s ≡ length slice
      → cmp_segments_loop (s ∷ ss) offset len slice'
        ≡ cmp_segments_loop ss (offset + length s) len slice'
  unfolding cmp_segments_loop
  round_same h =
      let shorter : min (length s) (length slice) ≡ length s = omega arith in
      rw (at_offset, agree, shorter, ==_refl (length s), ← h, ==_refl (length s)) refl

-- A round on a segment that differs from the slice.
module _ (s slice : Bytes) (ss : List Bytes) (len offset : ℕ) (slice' : Bytes) (o : Ordering)
    (at_offset : slice_from slice' offset ≡ done slice)
    (differ : bytes_cmp
        (take (min (length s) (length slice)) s)
        (take (min (length s) (length slice)) slice)
      ≡ o)
    (ne : o ≢ Ordering.eq) where
  pub round_differ : cmp_segments_loop (s ∷ ss) offset len slice' ≡ done o
  unfolding cmp_segments_loop
  round_differ = rw (at_offset, differ) (go o ne _)
    where
      go : (o' : Ordering) → o' ≢ Ordering.eq → (next : Run Ordering) → if_equal o' next ≡ done o'
      go Ordering.lt h next = refl
      go Ordering.eq h next = absurd (h refl)
      go Ordering.gt h next = refl

-- The answer of `cmp_slice` on the segments `ss`, whose key is `key`.
abbrev pub Answers : List Bytes → Bytes → Bytes → Type 0
Answers ss key slice =
    (GoesOn ss slice → ⊥) × (cmp_segments_loop ss 0 (length key) slice ≡ done (bytes_cmp key slice))
    ⊎ GoesOn ss slice × (cmp_segments_loop ss 0 (length key) slice ≡ done Ordering.lt)

compare_self : (n : ℕ) → compare n n ≡ Ordering.eq
compare_self n = ground arith

pub answers_none : (slice : Bytes) → cmp_segments_loop [] 0 0 slice ≡ done (bytes_cmp [] slice)
unfolding cmp_segments_loop bytes_cmp
answers_none [] = refl
answers_none (y ∷ r) = ground arith

cut_self :
    (s : Bytes)
    → bytes_cmp (take (min (length s) (length s)) s) (take (min (length s) (length s)) s)
      ≡ Ordering.eq
cut_self s = bytes_cmp_self (take (min (length s) (length s)) s)

round_none :
    (offset len : ℕ) (slice : Bytes)
    → len ≡ length slice
    → cmp_segments_loop [] offset len slice ≡ done Ordering.eq
unfolding cmp_segments_loop
round_none offset len slice h = rw (h, compare_self (length slice)) refl

none_left :
    (q : Bytes) → bytes_cmp (take (min (length q) 0) q) (take (min (length q) 0) []) ≡ Ordering.eq
unfolding bytes_cmp
none_left q = rw (min_zero (length q)) refl
  where
    min_zero : (n : ℕ) → min n 0 ≡ 0
    min_zero n = omega arith

pub zero_plus : (n : ℕ) → 0 + n ≡ n
zero_plus n = omega arith

pub answers_same :
    (s : Bytes) (ss : List Bytes)
    → AreSegments ss
    → cmp_segments_loop (s ∷ ss) 0 (length (s ++ write_segments ss [])) s
      ≡ done (bytes_cmp (s ++ write_segments ss []) s)
unfolding write_segments
answers_same s [] h =
    rw
      (
        append-nil s,
        round_same s s [] (length s) 0 s (slice_from_start s) (cut_self s) refl,
        bytes_cmp_self s,
      )
      (round_none (0 + length s) (length s) s refl)
answers_same s ([] ∷ ss) h = absurd h
answers_same s ((b ∷ t) ∷ ss) h =
    round_same s s ((b ∷ t) ∷ ss) (length (s ++ write_segments ss (b ∷ t))) 0 s (slice_from_start s)
      (cut_self s) refl
    ∙ (round_longer (b ∷ t) [] ss (length (s ++ write_segments ss (b ∷ t))) (0 + length s) s
          (rw (zero_plus (length s)) (slice_from_end s)) (none_left (b ∷ t)) (omega arith)
        ∙ rw
            (
              write_segments-append ss (b ∷ t),
              bytes_cmp-flip s (s ++ b ∷ (t ++ write_segments ss []))
                  (Precedes-below s b (t ++ write_segments ss [])),
            )
            refl)

pub answers_above :
    (slice : Bytes) (e : ℕ) (q : Bytes) (ss : List Bytes) (rest : Bytes)
    → cmp_segments_loop ((slice ++ e ∷ q) ∷ ss) 0 (length ((slice ++ e ∷ q) ++ rest)) slice
      ≡ done (bytes_cmp ((slice ++ e ∷ q) ++ rest) slice)
answers_above slice e q ss rest =
    let s = slice ++ e ∷ q in
    let shorter : min (length s) (length slice) ≡ length slice =
      omega (arith, length-append slice (e ∷ q)) in
    round_longer s slice ss (length (s ++ rest)) 0 slice (slice_from_start slice)
      (rw
        (shorter, take-length_append slice (e ∷ q), take-beyond (length slice) slice (omega arith))
        (bytes_cmp_self slice))
      (omega (arith, length-append slice (e ∷ q)))
    ∙ rw
        (
          append_assoc slice (e ∷ q) rest,
          bytes_cmp-flip slice (slice ++ e ∷ (q ++ rest)) (Precedes-below slice e (q ++ rest)),
        )
        refl

pub answers_below :
    (s : Bytes) (e : ℕ) (r : Bytes) (ss : List Bytes) (len : ℕ)
    → cmp_segments_loop (s ∷ ss) 0 len (s ++ e ∷ r) ≡ done Ordering.lt
answers_below s e r ss len =
    let slice = s ++ e ∷ r in
    let shorter : min (length s) (length slice) ≡ length s =
      omega (arith, length-append s (e ∷ r)) in
    round_shorter s slice ss len 0 slice (slice_from_start slice)
      (rw (shorter, take-length_append s (e ∷ r), take-beyond (length s) s (omega arith))
        (bytes_cmp_self s))
      (omega (arith, length-append s (e ∷ r)))
