-- ===== src/Iter/Lending/UpTo.antt =====
-- `for_each_range_view` with an end only, on a tree whose keys share a prefix.
use rart_rs.Prelude.{
  ℕ, ◌<◌, ◌≡◌, ◌⊎◌, inl, inr, refl, sym, ◌∙◌, ap, true, false, Bool, Option, none, some, List, [],
  ◌∷◌, ◌++◌, append-nil, done, arith, Bool-cases, subst, length,
}
use rart_rs.Partials.{Bytes}
use rart_rs.Node.{Node, node, Kids, nil, Kind, is_leaf}
use rart_rs.Node.Valid.{IsValid}
use rart_rs.Tree.Get.{contents}
use rart_rs.Tree.Laws.{IsValidTree, tree_at}
use rart_rs.Tree.Remove.Total.{leaf_childless}
use rart_rs.Tree.Search.View.{LendingKeyView, push_segment, len-push}
use rart_rs.Iter.{Bound, included, excluded, unbounded, plain}
use rart_rs.Iter.Order.{Precedes-below}
use rart_rs.Iter.Bounds.{within_end, within_end-IsUpTo, within_end-Precedes}
use rart_rs.Iter.Entries.{under, entry, entries, entries_kids}
use rart_rs.Iter.State.{rounds, skip}
use rart_rs.Iter.Find.{AllAbove}
use rart_rs.Iter.Sorted.{entries-IsAscending, find-entries}
use rart_rs.Iter.Filters.{take_within}
use rart_rs.Iter.Laws.{entries_at-prefix}
use rart_rs.Iter.Ranges.{IsBetween, IsFiltered-IsBetween, IsFiltered-entries, skip-unbounded}
use rart_rs.Iter.Lending.{root_visit}
use rart_rs.Iter.Lending.Left.{
  keyed, keyed-append, keyed_root, keyed_kids, kids_visits, node_visits, rounds_frames, up_to,
}
use rart_rs.Iter.Lending.Laws.{visit_each_lem}
use rart_rs.Iter.Lending.Order.{cmp_slice_lem}
use rart_rs.Iter.Lending.Past.{GoesPast, IsLed, AreLed-kids, up_to-past, up_to-other}
use rart_rs.Iter.Lending.First.{
  no_view, root_segment-IsView, to_vec-root, within_end_bound-root, one_frame,
}
use rart_rs.Iter.Lending.Bounded.{
  end_bound_vec, for_each_bounded_root, for_each_with_bounds, for_each_range_view,
}
use rart_rs.Iter.Lending.Cover.{AllAbove-prefix}

-- Whether the end goes on behind the first segment.
past_or_not : (b : ℕ) (p : Bytes) (end : Bound) → (GoesPast (b ∷ p) end → ⊥) ⊎ GoesPast (b ∷ p) end
unfolding push_segment
past_or_not b p (included k) =
    elim (cmp_slice_lem (push_segment no_view (b ∷ p)) k (root_segment-IsView (b ∷ p))) [
      | inl (ne, _) ↦ inl ne
      | inr (g, _) ↦ inr g
    ]
past_or_not b p (excluded k) =
    elim (cmp_slice_lem (push_segment no_view (b ∷ p)) k (root_segment-IsView (b ∷ p))) [
      | inl (ne, _) ↦ inl ne
      | inr (g, _) ↦ inr g
    ]
past_or_not b p unbounded = inl (λ h. h)

past_within : (p : Bytes) (end : Bound) → GoesPast p end → within_end end p ≡ true
past_within p (included k) (e, r, h) =
    within_end-IsUpTo (included k) p (rw h (inr (Precedes-below p e r)))
past_within p (excluded k) (e, r, h) =
    within_end-IsUpTo (excluded k) p (rw h (Precedes-below p e r))
past_within p unbounded g = absurd g

root-IsLed : (b : ℕ) (p : Bytes) → IsLed (b ∷ p) (push_segment no_view (b ∷ p))
unfolding push_segment
root-IsLed b p = (root_segment-IsView (b ∷ p), [], refl)

module _ {V : Type 0} where
  nothing_below :
      (end : Option (Bytes × Bool)) (view : LendingKeyView) (r : List (LendingKeyView × V))
      → up_to end (kids_visits view nil) ≡ done r
      → [] ≡ r
  unfolding up_to node_visits
  nothing_below end view r h = cc

  take_within-unbounded : (l : List (Bytes × V)) → take_within unbounded l ≡ l
  unfolding within_end
  take_within-unbounded [] = refl
  take_within-unbounded ((k, v) ∷ l) = rw (take_within-unbounded l) refl

  -- What is behind a key that is past the end is past it.
  take_within-past :
      (end : Bound) (p : Bytes) (l : List (Bytes × V))
      → within_end end p ≡ false
      → AllAbove p l
      → take_within end l ≡ []
  take_within-past end p [] h a = refl
  take_within-past end p ((k, v) ∷ l) h a = rw (within_end-Precedes end p k h a.0) refl

  take_within-entry :
      (end : Bound) (p : Bytes) (v : Option V) (l : List (Bytes × V))
      → within_end end p ≡ true
      → take_within end (entry p v ++ l) ≡ entry p v ++ take_within end l
  take_within-entry end p none l h = refl
  take_within-entry end p (some v) l h = rw h refl

  take_within-entry_past :
      (end : Bound) (p : Bytes) (v : Option V) (l : List (Bytes × V))
      → within_end end p ≡ false
      → AllAbove p l
      → take_within end (entry p v ++ l) ≡ []
  take_within-entry_past end p none l h a = take_within-past end p l h a
  take_within-entry_past end p (some v) l h a = rw h refl

  module _ (fuel b : ℕ) (p : Bytes) (v : Option V) (kind : Kind) (ks : Kids V) (end : Bound)
      (w : IsValid (node (b ∷ p) v kind ks)) (enough : rounds (node (b ∷ p) v kind ks) < fuel) where
    abbrev view : LendingKeyView
    view = push_segment no_view (b ∷ p)

    abbrev below : List (Bytes × V)
    below = under (b ∷ p) (entries_kids ks)

    -- The run from the root, when the root is within the end.
    runs :
        (r : List (LendingKeyView × V))
        → within_end end (b ∷ p) ≡ true
        → up_to (end_bound_vec end) (kids_visits view ks) ≡ done r
        → for_each_bounded_root fuel (node (b ∷ p) v kind ks) view unbounded end
          ≡ done (root_visit view v ++ r)
    unfolding for_each_bounded_root rounds rounds_frames
    runs r h e = elim (Bool-cases (is_leaf kind)) [
      | inl leaf ↦
          let none_below : [] ≡ r = nothing_below (end_bound_vec end) view r (
            subst (λ q. up_to (end_bound_vec end) (kids_visits view q) ≡ done r)
              (leaf_childless kind ks w.0 leaf) e) in
          rw
            (
              within_end_bound-root end (b ∷ p),
              h,
              leaf,
              ← none_below,
              append-nil (root_visit view v),
            )
            refl
      | inr inner ↦
          rw
            (
              within_end_bound-root end (b ∷ p),
              h,
              inner,
              visit_each_lem fuel
                  (record {
                    node_iter_stack = (length view.segments, view.len, plain ks) ∷ [];
                    cur = view;
                    end_bound = end_bound_vec end;
                  })
                  (omega arith, w.2, tt) (omega arith),
              one_frame (b ∷ p) view.len (plain ks) (omega (arith, len-push no_view (b ∷ p))),
              e,
            )
            refl
    ]

    shown :
        (r : List (LendingKeyView × V))
        → keyed (root_visit view v ++ r) ≡ entry (b ∷ p) v ++ keyed r
    shown r =
        keyed-append (root_visit view v) r
        ∙ ap (λ l. l ++ keyed r) (keyed_root view v ∙ ap (λ q. entry q v) (to_vec-root (b ∷ p)))

    shown_kids : keyed (kids_visits view ks) ≡ below
    shown_kids = keyed_kids view ks ∙ ap (λ q. under q (entries_kids ks)) (to_vec-root (b ∷ p))

    abbrev Lent : List (Bytes × V) → Type 0
    Lent wanted =
        (l : List (LendingKeyView × V)) × (for_each_bounded_root fuel (node (b ∷ p) v kind ks) view
            unbounded end
          ≡ done l)
        × (keyed l ≡ wanted)

    lends_all : GoesPast (b ∷ p) end → Lent (entry (b ∷ p) v ++ below)
    lends_all g =
        let r = kids_visits view ks in
        (
          root_visit view v ++ r,
          runs r (past_within (b ∷ p) end g)
              (up_to-past (b ∷ p) end r g (AreLed-kids (b ∷ p) view ks (root-IsLed b p))),
          shown r ∙ ap (λ l. entry (b ∷ p) v ++ l) shown_kids,
        )

    lends_within : (GoesPast (b ∷ p) end → ⊥) → Lent (take_within end (entry (b ∷ p) v ++ below))
    unfolding for_each_bounded_root
    lends_within g =
        let (r, e, z) =
          up_to-other (b ∷ p) end (kids_visits view ks) g
            (AreLed-kids (b ∷ p) view ks (root-IsLed b p)) in
        elim (Bool-cases (within_end end (b ∷ p))) [
          | inl h ↦ (
            root_visit view v ++ r,
            runs r h e,
            shown r
                ∙ ap (λ l. entry (b ∷ p) v ++ l) (z ∙ ap (take_within end) shown_kids)
                ∙ sym (take_within-entry end (b ∷ p) v below h),
          )
          | inr h ↦ (
            [],
            rw (within_end_bound-root end (b ∷ p), h) refl,
            sym (take_within-entry_past end (b ∷ p) v below h (AllAbove-prefix (b ∷ p) ks w.2)),
          )
        ]

  taken-IsBetween :
      (n : Node V) (len : ℕ) (end : Bound)
      → IsValid n
      → IsBetween (contents (tree_at (some n) len)) unbounded end (take_within end (entries n))
  taken-IsBetween n len end w =
      subst (λ l. IsBetween (contents (tree_at (some n) len)) unbounded end (take_within end l))
        (skip-unbounded (entries n))
        (IsFiltered-IsBetween (contents (tree_at (some n) len)) unbounded end
          (take_within end (skip (some unbounded) (entries n)))
          (IsFiltered-entries (contents (tree_at (some n) len)) unbounded end (entries n)
            (entries-IsAscending n w) (λ key. find-entries n key w)))

  -- `for_each_range_view` up to an end, on a valid tree whose keys begin with the prefix of its root,
  -- which is not empty, does not panic. When the end is longer than that prefix and begins with it,
  -- the whole tree is visited, whatever the end is; in every other case the keys up to the end are.
  -- The keys are visited in strictly ascending order, each with its value.
  pub for_each_range_view-up_to :
      (b : ℕ) (p : Bytes) (v : Option V) (kind : Kind) (ks : Kids V) (len fuel : ℕ) (end : Bound)
      → IsValidTree (tree_at (some (node (b ∷ p) v kind ks)) len)
      → rounds (node (b ∷ p) v kind ks) < fuel
      → (l : List (LendingKeyView × V)) × (for_each_range_view fuel
            (tree_at (some (node (b ∷ p) v kind ks)) len)
            unbounded
            end
          ≡ done l)
        × (GoesPast (b ∷ p) end
              × IsBetween
                  (contents (tree_at (some (node (b ∷ p) v kind ks)) len))
                  unbounded
                  unbounded
                  (keyed l)
            ⊎ (GoesPast (b ∷ p) end → ⊥)
              × IsBetween
                  (contents (tree_at (some (node (b ∷ p) v kind ks)) len))
                  unbounded
                  end
                  (keyed l))
  unfolding for_each_range_view for_each_with_bounds
  for_each_range_view-up_to b p v kind ks len fuel end w h =
      let n = node (b ∷ p) v kind ks in
      let m = contents (tree_at (some n) len) in
      let valid : IsValid n = w.rooted.0 in
      elim (past_or_not b p end) [
        | inl g ↦
            let (l, e, z) = lends_within fuel b p v kind ks end valid h g in
            (
              l,
              e,
              inr (
                g,
                subst (IsBetween m unbounded end)
                    (sym (z ∙ ap (take_within end) (entries_at-prefix n)))
                    (taken-IsBetween n len end valid),
              ),
            )
        | inr g ↦
            let (l, e, z) = lends_all fuel b p v kind ks end valid h g in
            (
              l,
              e,
              inl (
                g,
                subst (IsBetween m unbounded unbounded)
                    (take_within-unbounded (entries n) ∙ sym (z ∙ entries_at-prefix n))
                    (taken-IsBetween n len unbounded valid),
              ),
            )
      ]
