-- ===== src/Iter/Lending/Laws.antt =====
-- `visit_each`, and the visits of a node below a view.
use rart_rs.Prelude.{
  ℕ, zero, suc, ◌<◌, ◌≡◌, refl, Bool, Option, none, some, List, [], ◌∷◌, ◌++◌, append-nil, length,
  take, done, arith, Bool-cases, inl, inr, length-take,
}
use rart_rs.Partials.{Bytes}
use rart_rs.Node.{Node, node, is_leaf}
use rart_rs.Tree.Remove.Total.{leaf_childless}
use rart_rs.Tree.Search.View.{LendingKeyView}
use rart_rs.Iter.{IterFrameIter, plain}
use rart_rs.Iter.State.{rounds}
use rart_rs.Iter.Lending.{
  cut_view, within_end_bound, root_visit, LendingIterInner, lend_on, visit_each,
}
use rart_rs.Iter.Lending.Left.{
  take-all, node_visits, kids_visits, stack_visits, rounds_frames, NestedFrames, up_to,
}
use rart_rs.Node.{value_of, kids_of}
use rart_rs.Node.Valid.{IsValid}
use rart_rs.Tree.Search.View.{to_vec}
use rart_rs.Iter.Laws.{entries_at}
use rart_rs.Iter.Lending.{for_each_with_prefix}
use rart_rs.Iter.Lending.Left.{keyed, keyed-append, keyed_root, keyed_kids}
use rart_rs.Iter.Lending.Visits.{
  left, SoundFrames, Advance, stops, fails, moves, lends, lend_child_lem,
}

module _ {V : Type 0} where
  lend_on_lem :
      (stack : List (ℕ × ℕ × IterFrameIter V)) (view : LendingKeyView) (end : Option (Bytes × Bool))
      → NestedFrames stack (length view.segments)
      → Advance (lend_on stack view end) (up_to end (stack_visits stack view)) (rounds_frames stack)
  unfolding lend_on stack_visits rounds_frames cut_view up_to
  lend_on_lem [] view end s = stops refl refl
  lend_on_lem ((depth, key_len, f) ∷ stack) view end s =
      let count : length (take depth view.segments) ≡ depth =
        omega (arith, length-take depth view.segments) in
      rw count at (lend_child_lem (cut_view depth key_len view) f stack end (rw count s.2) s.1)

  -- From a sound state, with fuel for its rounds, `visit_each` visits what is left up to the first that
  -- is past the end.
  pub visit_each_lem :
      (fuel : ℕ) (it : LendingIterInner V)
      → SoundFrames it
      → rounds_frames it.node_iter_stack < fuel
      → visit_each fuel it ≡ up_to it.end_bound (left it)
  unfolding visit_each
  visit_each_lem zero it s h = absurd (omega arith)
  visit_each_lem (suc fuel) it s h = elim (lend_on_lem it.node_iter_stack it.cur it.end_bound s) [
    | stops e t ↦ rw (e, t) refl
    | fails e t ↦ rw (e, t) refl
    | moves it' e t m s' ↦ rw (e, t) (visit_each_lem fuel it' s' (omega arith))
    | lends view v it' e t m s' ↦ rw (e, t, visit_each_lem fuel it' s' (omega arith)) refl
  ]

  up_to-none : (l : List (LendingKeyView × V)) → up_to none l ≡ done l
  unfolding up_to within_end_bound
  up_to-none [] = refl
  up_to-none ((view, v) ∷ l) = rw (up_to-none l) refl

  -- The visits of a node whose view, its own prefix included, is `view`.
  abbrev pub visits_at : Node V → LendingKeyView → List (LendingKeyView × V)
  visits_at n view = root_visit view (value_of n) ++ kids_visits view (kids_of n)

  pub for_each_with_prefix_lem :
      (fuel : ℕ) (n : Node V) (view : LendingKeyView)
      → IsValid n
      → rounds n < fuel
      → for_each_with_prefix fuel (some n) view ≡ done (visits_at n view)
  unfolding for_each_with_prefix rounds rounds_frames stack_visits cut_view node_visits
  for_each_with_prefix_lem fuel (node p v kind ks) view w h = elim (Bool-cases (is_leaf kind)) [
    | inl b ↦ rw (b, leaf_childless kind ks w.0 b, append-nil (root_visit view v)) refl
    | inr b ↦
        rw
          (
            b,
            visit_each_lem fuel
                (record {
                  node_iter_stack = (length view.segments, view.len, plain ks) ∷ [];
                  cur = view;
                  end_bound = none;
                })
                (omega arith, w.2, tt) (omega arith),
            take-all (length view.segments) view.segments (omega arith),
            append-nil (kids_visits view ks),
            up_to-none (kids_visits view ks),
          )
          refl
  ]

  pub keyed_visits :
      (n : Node V) (view : LendingKeyView) → keyed (visits_at n view) ≡ entries_at n (to_vec view)
  keyed_visits (node p v kind ks) view =
      rw
        (
          keyed-append (root_visit view v) (kids_visits view ks),
          keyed_root view v,
          keyed_kids view ks,
        )
        refl
