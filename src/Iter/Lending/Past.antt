-- ===== src/Iter/Lending/Past.antt =====
-- `for_each_range_view` from the beginning of a tree whose keys share a prefix: the first segment of
-- every key is that prefix, and the test of the end looks no further where the end goes on behind it.
use rart_rs.Prelude.{
  ℕ, ◌≡◌, inl, inr, refl, ap, true, false, not, Option, none, some, List, [], ◌∷◌, ◌++◌, done,
  Bool-cases,
}
use Prim.Native.Nat.{Ordering}
use rart_rs.Partials.{Bytes}
use rart_rs.Keys.Slices.{bytes_cmp}
use rart_rs.Node.{Node, node, Kids, nil, cons}
use rart_rs.Tree.Search.View.{LendingKeyView, push_segment, to_vec}
use rart_rs.Iter.{Bound, included, excluded, unbounded, at_least, is_above}
use rart_rs.Iter.Bounds.{within_end}
use rart_rs.Iter.Filters.{take_within}
use rart_rs.Iter.Lending.{end_test, within_end_bound, root_visit}
use rart_rs.Iter.Lending.Left.{keyed, node_visits, kids_visits, up_to}
use rart_rs.Iter.Lending.Segments.{IsView}
use rart_rs.Iter.Lending.Order.{cmp_slice_lem}
use rart_rs.Iter.Lending.Ends.{IsView-push}
use rart_rs.Iter.Lending.Bounded.{end_bound_vec}

-- The end of the range is longer than `p` and begins with it.
abbrev pub GoesPast : Bytes → Bound → Type 0
GoesPast p (included k) = (e : ℕ) × (r : Bytes) × (k ≡ p ++ e ∷ r)
GoesPast p (excluded k) = (e : ℕ) × (r : Bytes) × (k ≡ p ++ e ∷ r)
GoesPast p unbounded = ⊥

-- The first segment of the view is `p`.
abbrev pub IsLed : Bytes → LendingKeyView → Type 0
IsLed p view = IsView view × (ss : List Bytes) × (view.segments ≡ p ∷ ss)

end_test-true : (o : Ordering) → end_test true o ≡ not (is_above o)
end_test-true Ordering.lt = refl
end_test-true Ordering.eq = refl
end_test-true Ordering.gt = refl

end_test-false : (o : Ordering) → end_test false o ≡ not (at_least o)
end_test-false Ordering.lt = refl
end_test-false Ordering.eq = refl
end_test-false Ordering.gt = refl

pub past_passes :
    (p : Bytes) (end : Bound) (view : LendingKeyView)
    → GoesPast p end
    → IsLed p view
    → within_end_bound (end_bound_vec end) view ≡ done true
unfolding within_end_bound
past_passes p (included k) view g (w, ss, e) = elim (cmp_slice_lem view k w) [
  | inl (ne, _) ↦ absurd (rw e at ne g)
  | inr (_, h) ↦ rw h refl
]
past_passes p (excluded k) view g (w, ss, e) = elim (cmp_slice_lem view k w) [
  | inl (ne, _) ↦ absurd (rw e at ne g)
  | inr (_, h) ↦ rw h refl
]
past_passes p unbounded view g l = absurd g

pub other_tested :
    (p : Bytes) (end : Bound) (view : LendingKeyView)
    → (GoesPast p end → ⊥)
    → IsLed p view
    → within_end_bound (end_bound_vec end) view ≡ done (within_end end (to_vec view))
unfolding within_end_bound within_end
other_tested p (included k) view g (w, ss, e) = elim (cmp_slice_lem view k w) [
  | inl (_, h) ↦ rw h (ap done (end_test-true (bytes_cmp (to_vec view) k)))
  | inr (z, _) ↦ absurd (g (rw e at z))
]
other_tested p (excluded k) view g (w, ss, e) = elim (cmp_slice_lem view k w) [
  | inl (_, h) ↦ rw h (ap done (end_test-false (bytes_cmp (to_vec view) k)))
  | inr (z, _) ↦ absurd (g (rw e at z))
]
other_tested p unbounded view g l = refl

IsLed-push :
    (p : Bytes) (view : LendingKeyView) (q : Bytes) → IsLed p view → IsLed p (push_segment view q)
unfolding push_segment
IsLed-push p view [] l = l
IsLed-push p view (b ∷ q) (w, ss, e) =
    (IsView-push view (b ∷ q) w, ss ++ (b ∷ q) ∷ [], ap (λ l. l ++ (b ∷ q) ∷ []) e)

module _ {V : Type 0} where
  abbrev pub AreLed : Bytes → List (LendingKeyView × V) → Type 0
  AreLed p [] = Unit
  AreLed p ((view, v) ∷ l) = IsLed p view × AreLed p l

  AreLed-append :
      (p : Bytes) (l r : List (LendingKeyView × V)) → AreLed p l → AreLed p r → AreLed p (l ++ r)
  AreLed-append p [] r a b = b
  AreLed-append p ((view, v) ∷ l) r a b = (a.0, AreLed-append p l r a.1 b)

  AreLed-root :
      (p : Bytes) (view : LendingKeyView) (v : Option V)
      → IsLed p view
      → AreLed p (root_visit view v)
  AreLed-root p view none l = tt
  AreLed-root p view (some v) l = (l, tt)

  mutual
    unfolding node_visits

    AreLed-node :
        (p : Bytes) (view : LendingKeyView) (n : Node V)
        → IsLed p view
        → AreLed p (node_visits view n)
    AreLed-node p view (node q v kind ks) l =
        let l' = IsLed-push p view q l in
        AreLed-append p (root_visit (push_segment view q) v) (kids_visits (push_segment view q) ks)
          (AreLed-root p (push_segment view q) v l') (AreLed-kids p (push_segment view q) ks l')

    pub AreLed-kids :
        (p : Bytes) (view : LendingKeyView) (ks : Kids V)
        → IsLed p view
        → AreLed p (kids_visits view ks)
    AreLed-kids p view nil l = tt
    AreLed-kids p view (cons e n ks) l =
        AreLed-append p (node_visits view n) (kids_visits view ks) (AreLed-node p view n l)
          (AreLed-kids p view ks l)

  pub up_to-past :
      (p : Bytes) (end : Bound) (l : List (LendingKeyView × V))
      → GoesPast p end
      → AreLed p l
      → up_to (end_bound_vec end) l ≡ done l
  unfolding up_to
  up_to-past p end [] g a = refl
  up_to-past p end ((view, v) ∷ l) g a =
      rw (past_passes p end view g a.0, up_to-past p end l g a.1) refl

  pub up_to-other :
      (p : Bytes) (end : Bound) (l : List (LendingKeyView × V))
      → (GoesPast p end → ⊥)
      → AreLed p l
      → (r : List (LendingKeyView × V)) × (up_to (end_bound_vec end) l ≡ done r)
        × (keyed r ≡ take_within end (keyed l))
  unfolding up_to
  up_to-other p end [] g a = ([], refl, refl)
  up_to-other p end ((view, v) ∷ l) g a =
      let (r, e, h) = up_to-other p end l g a.1 in
      elim (Bool-cases (within_end end (to_vec view))) [
        | inl t ↦ ((view, v) ∷ r, rw (other_tested p end view g a.0, t, e) refl, rw (t, h) refl)
        | inr f ↦ ([], rw (other_tested p end view g a.0, f) refl, rw f refl)
      ]
