-- ===== src/Iter/Lending.antt =====
-- The visits with a lending view of the key (`LendingIterInner` of rart/src/iter.rs): the calls of the
-- callback, in order, as a list. A round of the loop takes one unit of fuel.
pub mod Left
pub mod Visits
pub mod Laws
pub mod Trees
pub mod Segments
pub mod Order
pub mod Bounded
pub mod Ends
pub mod Past
pub mod First
pub mod Cover
pub mod Ranges
pub mod UpTo
use Prim.Native.Nat.{compare, Ordering}
use rart_rs.Prelude.{
  ℕ, zero, suc, ◌+◌, ◌-◌, min, Bool, true, false, not, Option, none, some, List, [], ◌∷◌, ◌++◌,
  length, take, ◌==◌, if◌then◌else◌, Run, done, panic, ◌>>=◌,
}
use rart_rs.Partials.{Bytes, slice_from}
use rart_rs.Keys.Slices.{bytes_cmp}
use rart_rs.Node.{Node, node, Kids, nil, cons, is_leaf, prefix_of, value_of, kind_of, kids_of}
use rart_rs.Tree.{Tree}
use rart_rs.Tree.Search.View.{LendingKeyView, push_segment, find_prefix_subtree_view}
use rart_rs.Iter.{
  Bound, included, excluded, unbounded, at_least, is_above, IterFrameIter, plain, frame_next,
  build_positioned_stack,
}

-- The `match` on an order that goes on if it is `Equal`.
abbrev pub if_equal : Ordering → Run Ordering → Run Ordering
if_equal Ordering.lt next = done Ordering.lt
if_equal Ordering.eq next = next
if_equal Ordering.gt next = done Ordering.gt

-- `cmp_slice` and `cmp_segments_to_slice`, which are one text.
unfoldable pub cmp_segments_loop : List Bytes → ℕ → ℕ → Bytes → Run Ordering
cmp_segments_loop [] offset len slice = done (compare len (length slice))
cmp_segments_loop (segment ∷ segments) offset len slice = do
  remaining ← slice_from slice offset
  let common = min (length segment) (length remaining)
  let next = cmp_segments_loop segments (offset + common) len slice
  if_equal (bytes_cmp (take common segment) (take common remaining)) (
      if not (length segment == common)
      then done Ordering.gt
      else if not (length remaining == common)
      then done Ordering.lt
      else next)

unfoldable pub cmp_slice : LendingKeyView → Bytes → Run Ordering
unfolding cmp_segments_loop
cmp_slice view slice = cmp_segments_loop view.segments 0 view.len slice

-- `within_end_bound`: less, or equal if the end is included.
abbrev pub end_test : Bool → Ordering → Bool
end_test inclusive Ordering.lt = true
end_test inclusive Ordering.eq = inclusive
end_test inclusive Ordering.gt = false

unfoldable pub within_end_bound : Option (Bytes × Bool) → LendingKeyView → Run Bool
unfolding cmp_slice
within_end_bound none view = done true
within_end_bound (some (end_key, inclusive)) view = do
  o ← cmp_slice view end_key
  done (end_test inclusive o)

-- `cur_segments` and `cur_len` are one view here.
pub record LendingIterInner (V : Type 0) : Type 0 where
  pub node_iter_stack : List (ℕ × ℕ × IterFrameIter V)
  pub cur : LendingKeyView
  pub end_bound : Option (Bytes × Bool)

pub data LendingRound (V : Type 0) : Type 0 where
  returned : LendingRound V
  continues : LendingIterInner V → LendingRound V
  visits : LendingKeyView → V → LendingIterInner V → LendingRound V

-- The view truncated to a frame's depth and length.
unfoldable pub cut_view : ℕ → ℕ → LendingKeyView → LendingKeyView
cut_view segment_depth key_len view = record {
  segments = take segment_depth view.segments;
  len = key_len;
}

-- The segment of a leaf is popped again, unless it is empty.
unfoldable pub pop_leaf : Bool → Bytes → LendingKeyView → LendingKeyView
pop_leaf true (b ∷ p) view = record {
  segments = take (length view.segments - 1) view.segments;
  len = view.len - length (b ∷ p);
}
pop_leaf _ _ view = view

module _ {V : Type 0} where
  unfoldable pub cut_to_parent : List (ℕ × ℕ × IterFrameIter V) → LendingKeyView → LendingKeyView
  unfolding cut_view
  cut_to_parent [] view = view
  cut_to_parent ((parent_depth, parent_len, f) ∷ stack) view = cut_view parent_depth parent_len view

  unfoldable pub lend :
      Option V
      → Bool
      → Bytes
      → LendingKeyView
      → List (ℕ × ℕ × IterFrameIter V)
      → Option (Bytes × Bool)
      → Run (LendingRound V)
  unfolding within_end_bound pop_leaf
  lend none leaf p here stack end =
      done (
        continues (record { node_iter_stack = stack; cur = pop_leaf leaf p here; end_bound = end }))
  lend (some v) leaf p here stack end = do
    ok ← within_end_bound end here
    done (
        if ok
        then visits here v
            (record { node_iter_stack = stack; cur = pop_leaf leaf p here; end_bound = end })
        else returned)

  unfoldable pub lend_child :
      ℕ
      → ℕ
      → Option (ℕ × Node V) × IterFrameIter V
      → List (ℕ × ℕ × IterFrameIter V)
      → LendingKeyView
      → Option (Bytes × Bool)
      → Run (LendingRound V)
  unfolding lend cut_to_parent push_segment
  lend_child depth key_len (none, f) stack view end = done (
      continues
        (record { node_iter_stack = stack; cur = cut_to_parent stack view; end_bound = end }))
  lend_child depth key_len (some (k, node p v kind ks), f) stack view end =
      let here = push_segment view p in
      lend v (is_leaf kind) p here
        (if is_leaf kind
          then (depth, key_len, f) ∷ stack
          else (length here.segments, here.len, plain ks) ∷ (depth, key_len, f) ∷ stack)
        end

  unfoldable pub lend_on :
      List (ℕ × ℕ × IterFrameIter V) → LendingKeyView → Option (Bytes × Bool) → Run (LendingRound V)
  unfolding lend_child frame_next cut_view
  lend_on [] view end = done returned
  lend_on ((depth, key_len, f) ∷ stack) view end =
      lend_child depth key_len (frame_next f) stack (cut_view depth key_len view) end

  unfoldable pub visit_each : ℕ → LendingIterInner V → Run (List (LendingKeyView × V))
  unfolding lend_on
  visit_each zero it = panic
  visit_each (suc fuel) it = do
    r ← lend_on it.node_iter_stack it.cur it.end_bound
    elim r [
      | returned ↦ done []
      | continues it' ↦ visit_each fuel it'
      | visits view v it' ↦ (do rest ← visit_each fuel it'; done ((view, v) ∷ rest))
    ]

  abbrev pub root_visit : LendingKeyView → Option V → List (LendingKeyView × V)
  root_visit view none = []
  root_visit view (some v) = (view, v) ∷ []

  unfoldable pub for_each_with_prefix :
      ℕ → Option (Node V) → LendingKeyView → Run (List (LendingKeyView × V))
  unfolding visit_each
  for_each_with_prefix fuel none root_view = done []
  for_each_with_prefix fuel (some n) root_view =
      if is_leaf (kind_of n) then done (root_visit root_view (value_of n)) else (do
        rest ← visit_each fuel (record {
          node_iter_stack = (length root_view.segments, root_view.len, plain (kids_of n)) ∷ [];
          cur = root_view;
          end_bound = none;
        })
        done (root_visit root_view (value_of n) ++ rest))

  unfoldable pub for_each : ℕ → Option (Node V) → Run (List (LendingKeyView × V))
  unfolding for_each_with_prefix push_segment
  for_each fuel none = done []
  for_each fuel (some n) =
      for_each_with_prefix fuel (some n)
        (push_segment (record { segments = []; len = 0 }) (prefix_of n))

  unfoldable pub for_each_view : ℕ → Tree V → Run (List (LendingKeyView × V))
  unfolding for_each
  for_each_view fuel t = for_each fuel t.root

  unfoldable pub prefix_for_each_view_k : ℕ → Tree V → Bytes → Run (List (LendingKeyView × V))
  unfolding for_each_with_prefix find_prefix_subtree_view
  prefix_for_each_view_k fuel t prefix = elim t.root [
    | none ↦ done []
    | some root ↦ (do
      found ← find_prefix_subtree_view root prefix
      elim found [ none ↦ done [] | some r ↦ for_each_with_prefix fuel (some r.0) r.1 ])
  ]
