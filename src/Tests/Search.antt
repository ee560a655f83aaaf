-- ===== src/Tests/Search.antt =====
-- The searches on a small tree.
use rart_rs.Prelude.{ℕ, ◌≡◌, Option, [], ◌∷◌, done}
use rart_rs.Partials.{Bytes}
use rart_rs.Node.{Node, prefix_of}
use rart_rs.Node.Lookup.{lookup}
use rart_rs.Tree.Get.{contents}
use rart_rs.Tree.Search.{longest_prefix_match_k, find_prefix_subtree}
use rart_rs.Tree.Search.Deepest.{IsLongest}
use rart_rs.Tree.Search.Longest.{longest_prefix_match_k_lem}
use rart_rs.Tree.Search.Subtree.{IsSubtree, find_prefix_subtree_lem}
use rart_rs.Tree.Search.Visits.{prefix_match_for_each_k, stored}
use rart_rs.Tree.Search.Visits.Laws.{prefix_match_for_each_k_lem}
use rart_rs.Tests.{pair_tree, pair_node, pair_tree-IsValidTree}

abbrev longer_key : Bytes
longer_key = 7 ∷ 3 ∷ 9 ∷ []

longest_prefix_match_k_lem_example :
    (o : Option (Bytes × ℕ)) × (longest_prefix_match_k pair_tree longer_key ≡ done o)
    × IsLongest (contents pair_tree) longer_key o
longest_prefix_match_k_lem_example =
    longest_prefix_match_k_lem pair_tree longer_key pair_tree-IsValidTree

find_prefix_subtree_lem_example :
    (o : Option (Node ℕ × Bytes)) × (find_prefix_subtree pair_node
        (7 ∷ 1 ∷ [])
        0
        (prefix_of pair_node)
      ≡ done o)
    × IsSubtree (lookup pair_node) [] (7 ∷ 1 ∷ []) o
find_prefix_subtree_lem_example = find_prefix_subtree_lem pair_node (7 ∷ 1 ∷ [])

prefix_match_for_each_k_lem_example :
    prefix_match_for_each_k pair_tree longer_key ≡ done (stored [] (contents pair_tree) longer_key)
prefix_match_for_each_k_lem_example =
    prefix_match_for_each_k_lem pair_tree longer_key pair_tree-IsValidTree
