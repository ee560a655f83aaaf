-- ===== src/Iter/Lending/Bounded.antt =====
-- The visits between two bounds (`for_each_with_bounds` of rart/src/iter.rs, `for_each_range_view` of
-- rart/src/tree.rs).
use rart_rs.Prelude.{
  ℕ, Bool, true, false, Option, none, some, List, [], ◌∷◌, ◌++◌, length, if◌then◌else◌, Run, done,
  ◌>>=◌,
}
use rart_rs.Partials.{Bytes}
use rart_rs.Node.{Node, is_leaf, prefix_of, value_of, kind_of, kids_of}
use rart_rs.Tree.{Tree}
use rart_rs.Tree.Search.View.{LendingKeyView, push_segment}
use rart_rs.Iter.{
  Bound, included, excluded, unbounded, at_least, is_above, IterFrameIter, plain,
  build_positioned_stack,
}
use rart_rs.Iter.Lending.{cmp_slice, within_end_bound, root_visit, visit_each}

-- The end of the range as it is kept in the state.
abbrev pub end_bound_vec : Bound → Option (Bytes × Bool)
end_bound_vec (included key) = some (key, true)
end_bound_vec (excluded key) = some (key, false)
end_bound_vec unbounded = none

unfoldable pub root_satisfies_start : Bound → LendingKeyView → Run Bool
unfolding cmp_slice
root_satisfies_start (included start_key) view = do o ← cmp_slice view start_key; done (at_least o)
root_satisfies_start (excluded start_key) view = do o ← cmp_slice view start_key; done (is_above o)
root_satisfies_start unbounded view = done true

module _ {V : Type 0} where
  -- The frames of `build_positioned_stack` with the count of segments of the root.
  abbrev pub with_segments : ℕ → List (ℕ × IterFrameIter V) → List (ℕ × ℕ × IterFrameIter V)
  with_segments root_depth [] = []
  with_segments root_depth ((len, f) ∷ stack) =
      (root_depth, len, f) ∷ with_segments root_depth stack

  unfoldable pub first_frames :
      Node V → Bound → LendingKeyView → Run (List (ℕ × ℕ × IterFrameIter V))
  unfolding build_positioned_stack
  first_frames n (included key) view = do
    stack ← build_positioned_stack n key 0
    done (with_segments (length view.segments) stack)
  first_frames n (excluded key) view = do
    stack ← build_positioned_stack n key 0
    done (with_segments (length view.segments) stack)
  first_frames n unbounded view = done ((length view.segments, view.len, plain (kids_of n)) ∷ [])

  unfoldable pub for_each_bounded_root :
      ℕ → Node V → LendingKeyView → Bound → Bound → Run (List (LendingKeyView × V))
  unfolding visit_each within_end_bound root_satisfies_start first_frames
  for_each_bounded_root fuel n view start end = do
    satisfies_start ← root_satisfies_start start view
    satisfies_end ← within_end_bound (end_bound_vec end) view
    let here = if satisfies_start then root_visit view (value_of n) else []
    if satisfies_end
        then (if is_leaf (kind_of n) then done here else (do
          stack ← first_frames n start view
          rest ←
              visit_each fuel
                (record { node_iter_stack = stack; cur = view; end_bound = end_bound_vec end })
          done (here ++ rest)))
        else done []

  unfoldable pub for_each_with_bounds :
      ℕ → Option (Node V) → Bound → Bound → Run (List (LendingKeyView × V))
  unfolding for_each_bounded_root push_segment
  for_each_with_bounds fuel none start end = done []
  for_each_with_bounds fuel (some n) start end =
      for_each_bounded_root fuel n (push_segment (record { segments = []; len = 0 }) (prefix_of n))
        start end

  unfoldable pub for_each_range_view : ℕ → Tree V → Bound → Bound → Run (List (LendingKeyView × V))
  unfolding for_each_with_bounds
  for_each_range_view fuel t start end = for_each_with_bounds fuel t.root start end
