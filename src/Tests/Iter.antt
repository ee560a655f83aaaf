-- ===== src/Tests/Iter.antt =====
-- Iteration over a small tree.
use rart_rs.Prelude.{ℕ, ◌+◌, ◌<◌, ◌≡◌, List, [], ◌∷◌, length, done, arith}
use rart_rs.Words.{common_length}
use rart_rs.Partials.Laws.{prefix_length_key-append}
use rart_rs.Partials.{Bytes}
use rart_rs.Tree.Get.{contents}
use rart_rs.Iter.{included, excluded}
use rart_rs.Iter.State.{rounds}
use rart_rs.Iter.Find.{find, IsAscending}
use rart_rs.Iter.Laws.{iter, walk, iter_lem, rounds_root}
use rart_rs.Iter.Prefixes.{prefix_iter_k, prefix_iter_k_lem, IsListing}
use rart_rs.Iter.Ranges.{range, walk_range, range_lem, IsBetween}
use Prim.Native.Nat.{Ordering}
use rart_rs.Prelude.{◌⊎◌, run_map, refl, some, none}
use rart_rs.Tree.{Tree}
use rart_rs.Node.{node, cons, nil, node4}
use rart_rs.Keys.Slices.{bytes_cmp}
use rart_rs.Iter.{unbounded}
use rart_rs.Tree.Search.View.{LendingKeyView, to_vec, write_segments}
use rart_rs.Iter.Lending.{for_each_view, prefix_for_each_view_k, cmp_slice}
use rart_rs.Iter.Lending.Left.{keyed}
use rart_rs.Iter.Lending.Trees.{for_each_view_lem, prefix_for_each_view_k_lem}
use rart_rs.Iter.Lending.Segments.{IsView, GoesOn}
use rart_rs.Iter.Lending.Order.{cmp_slice_lem}
use rart_rs.Iter.Lending.Bounded.{for_each_range_view}
use rart_rs.Tests.{leaf}
use rart_rs.Iter.Lending.Past.{GoesPast}
use rart_rs.Iter.Lending.UpTo.{for_each_range_view-up_to}
use rart_rs.Tests.{pair_kids, pair_tree, pair_tree-IsValidTree}

enough : rounds_root pair_tree.root + pair_tree.len < 20
unfolding rounds
enough = omega arith

pair_rounds : rounds_root pair_tree.root < 20
unfolding rounds
pair_rounds = omega arith

iter_lem_example :
    (l : List (Bytes × ℕ)) × (walk 20 (iter pair_tree) ≡ done l)
    × IsAscending l
    × ((key : Bytes) → find key l ≡ contents pair_tree key)
    × (length l ≡ 2)
iter_lem_example = iter_lem pair_tree 20 pair_tree-IsValidTree enough

prefix_iter_k_lem_example :
    (l : List (Bytes × ℕ)) × (walk 20 (prefix_iter_k pair_tree (7 ∷ 1 ∷ [])) ≡ done l)
    × IsListing (contents pair_tree) (7 ∷ 1 ∷ []) l
prefix_iter_k_lem_example = prefix_iter_k_lem pair_tree (7 ∷ 1 ∷ []) 20 pair_tree-IsValidTree enough

range_lem_example :
    (l : List (Bytes × ℕ)) × (walk_range 20
        (range pair_tree (excluded (7 ∷ 1 ∷ 2 ∷ [])) (included (7 ∷ 3 ∷ [])))
      ≡ done l)
    × IsBetween (contents pair_tree) (excluded (7 ∷ 1 ∷ 2 ∷ [])) (included (7 ∷ 3 ∷ [])) l
range_lem_example =
    range_lem pair_tree (excluded (7 ∷ 1 ∷ 2 ∷ [])) (included (7 ∷ 3 ∷ [])) 20 pair_tree-IsValidTree
      enough

for_each_view_lem_example :
    (l : List (LendingKeyView × ℕ)) × (for_each_view 20 pair_tree ≡ done l)
    × (walk 20 (iter pair_tree) ≡ done (keyed l))
for_each_view_lem_example = for_each_view_lem pair_tree 20 pair_tree-IsValidTree enough

prefix_for_each_view_k_lem_example :
    (l : List (LendingKeyView × ℕ)) × (prefix_for_each_view_k 20 pair_tree (7 ∷ 1 ∷ []) ≡ done l)
    × (walk 20 (prefix_iter_k pair_tree (7 ∷ 1 ∷ [])) ≡ done (keyed l))
prefix_for_each_view_k_lem_example =
    prefix_for_each_view_k_lem pair_tree (7 ∷ 1 ∷ []) 20 pair_tree-IsValidTree enough

for_each_range_view-up_to_example :
    (l : List (LendingKeyView × ℕ)) × (for_each_range_view 20 pair_tree unbounded
        (included (7 ∷ 1 ∷ 2 ∷ []))
      ≡ done l)
    × (GoesPast (7 ∷ []) (included (7 ∷ 1 ∷ 2 ∷ []))
          × IsBetween (contents pair_tree) unbounded unbounded (keyed l)
        ⊎ (GoesPast (7 ∷ []) (included (7 ∷ 1 ∷ 2 ∷ [])) → ⊥)
          × IsBetween (contents pair_tree) unbounded (included (7 ∷ 1 ∷ 2 ∷ [])) (keyed l))
for_each_range_view-up_to_example =
    for_each_range_view-up_to 7 [] none node4 pair_kids 2 20 (included (7 ∷ 1 ∷ 2 ∷ []))
      pair_tree-IsValidTree pair_rounds

-- The key 7 3 in two segments.
abbrev two_segments : LendingKeyView
two_segments = record { segments = (7 ∷ []) ∷ (3 ∷ []) ∷ []; len = 2 }

two_segments-IsView : IsView two_segments
unfolding to_vec write_segments
two_segments-IsView = record { filled = tt; counted = refl }

cmp_slice_lem_example :
    (GoesOn two_segments.segments (7 ∷ 1 ∷ []) → ⊥)
      × (cmp_slice two_segments (7 ∷ 1 ∷ []) ≡ done (bytes_cmp (to_vec two_segments) (7 ∷ 1 ∷ [])))
    ⊎ GoesOn two_segments.segments (7 ∷ 1 ∷ [])
      × (cmp_slice two_segments (7 ∷ 1 ∷ []) ≡ done Ordering.lt)
cmp_slice_lem_example = cmp_slice_lem two_segments (7 ∷ 1 ∷ []) two_segments-IsView

-- It is behind the key 7 1, and compares as if it were before it.
behind_compares_less :
    (cmp_slice two_segments (7 ∷ 1 ∷ []) ≡ done Ordering.lt)
    × (bytes_cmp (to_vec two_segments) (7 ∷ 1 ∷ []) ≡ Ordering.gt)
unfolding cmp_slice to_vec write_segments bytes_cmp
behind_compares_less = (refl, refl)

-- The range up to 7 1 2 inclusive has one key. The visit goes on to 7 3.
past_end_visited :
    (run_map keyed (for_each_range_view 20 pair_tree unbounded (included (7 ∷ 1 ∷ 2 ∷ [])))
      ≡ done ((7 ∷ 1 ∷ 2 ∷ [], 10) ∷ (7 ∷ 3 ∷ [], 20) ∷ []))
    × (walk_range 20 (range pair_tree unbounded (included (7 ∷ 1 ∷ 2 ∷ [])))
        ≡ done ((7 ∷ 1 ∷ 2 ∷ [], 10) ∷ []))
unfolding for_each_range_view to_vec write_segments range walk_range bytes_cmp
past_end_visited = (refl, refl)

-- The keys 7 3 1 and 7 3 5 share a child of the root. The range from 7 3 5 on has one key. The visit
-- begins at 7 3 1.
abbrev deep_tree : Tree ℕ
deep_tree = record {
  root = some (
      node (7 ∷ []) (some 0) node4 (
        cons 3
          (node (3 ∷ []) none node4 (cons 1 (leaf (1 ∷ []) 10) (cons 5 (leaf (5 ∷ []) 20) nil)))
          nil));
  len = 3;
}

before_start_visited :
    (run_map keyed (for_each_range_view 20 deep_tree (included (7 ∷ 3 ∷ 5 ∷ [])) unbounded)
      ≡ done ((7 ∷ 3 ∷ 1 ∷ [], 10) ∷ (7 ∷ 3 ∷ 5 ∷ [], 20) ∷ []))
    × (walk_range 20 (range deep_tree (included (7 ∷ 3 ∷ 5 ∷ [])) unbounded)
        ≡ done ((7 ∷ 3 ∷ 5 ∷ [], 20) ∷ []))
unfolding for_each_range_view to_vec write_segments range walk_range bytes_cmp common_length
before_start_visited = (
  rw (prefix_length_key-append [] (7 ∷ 3 ∷ 5 ∷ []) (7 ∷ [])) refl,
  rw (prefix_length_key-append [] (7 ∷ 3 ∷ 5 ∷ []) (7 ∷ [])) refl,
)
