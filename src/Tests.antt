-- ===== src/Tests.antt =====
-- Small trees on which the operations are run, and the theorems applied to them.
mod Keys
mod Search
mod Iter
mod Update
mod Versioned
mod Mapping
mod Positions
use rart_rs.Prelude.{
  is_some, ℕ, ◌≡◌, ◌≤◌, refl, true, false, none, some, List, [], ◌∷◌, done, arith, length, ◌++◌,
  ◌==◌,
}
use rart_rs.Words.{prefix_length_bytes, prefix_length_bytes-eq_common, common_length}
use rart_rs.Partials.{Bytes, prefix_length_key, prefix_length_slice}
use rart_rs.Partials.Laws.{prefix_length_key-append, prefix_length_slice-strip, strip}
use rart_rs.Node.{
  Node, node, Kids, nil, cons, empty, node4, num_children, delete_child, delete, seek, capacity,
}
use rart_rs.Node.Valid.{IsBytes, IsValid, ValidKids}
use rart_rs.Node.Removal.{delete_child-IsWithout, IsWithout}
use rart_rs.Node.Deletion.{trimmed, trimmed-IsValid}
use rart_rs.Node.Lookup.{lookup}
use rart_rs.Node.Size.{size}
use rart_rs.Node.Change.{lookup-trimmed}
use rart_rs.Tree.{Tree, new, insert_k, try_insert_k, get_k, insert_recurse}
use rart_rs.Tree.Get.{contents, get_k-eq-contents}
use rart_rs.Tree.Laws.{IsValidTree, IsUpdate, insert_k_lem, try_insert_k_lem, refusal}
use rart_rs.Tree.Insert.Splits.{IsInsert, stored, outcome}
use rart_rs.Tree.Insert.Total.{insert_recurse_total}
use rart_rs.Tree.Remove.{remove_k, delete_k}
use rart_rs.Tree.Remove.Map.{remove_k_lem, delete_k_lem}
use rart_rs.Tree.History.{
  AllBytes, Op, insert, remove, get, perform_all, answers, change_all, history_lem,
}

abbrev pub leaf : Bytes → ℕ → Node ℕ
leaf p v = node p (some v) empty nil

-- The keys 7 1 2 and 7 3.
abbrev pub pair_kids : Kids ℕ
pair_kids = cons 1 (leaf (1 ∷ 2 ∷ []) 10) (cons 3 (leaf (3 ∷ []) 20) nil)

abbrev pub pair_node : Node ℕ
pair_node = node (7 ∷ []) none node4 pair_kids

abbrev pub pair_tree : Tree ℕ
pair_tree = record { root = some pair_node; len = 2 }

pair_kids-ValidKids : ValidKids pair_kids
unfolding num_children capacity
pair_kids-ValidKids = (
  omega arith,
  refl,
  (omega arith, tt, tt, (omega arith, (omega arith, tt))),
  (omega arith, tt),
  (omega arith, refl, (omega arith, tt, tt, (omega arith, tt)), tt, tt),
)

pair_node-IsValid : IsValid pair_node
unfolding num_children capacity
pair_node-IsValid = (omega arith, tt, pair_kids-ValidKids, (omega arith, tt))

pub pair_tree-IsValidTree : IsValidTree pair_tree
unfolding size
pair_tree-IsValidTree = record { rooted = (pair_node-IsValid, refl) }

abbrev pub new_key : Bytes
new_key = 7 ∷ 1 ∷ 5 ∷ []

new_key-IsBytes : IsBytes new_key
new_key-IsBytes = (omega arith, (omega arith, (omega arith, tt)))

abbrev new_leaf_child : Node ℕ
new_leaf_child = leaf (5 ∷ 6 ∷ []) 30

-- The only child that is left is merged into its parent.
merged : delete_child 1 pair_node ≡ done (some (leaf (1 ∷ 2 ∷ []) 10), leaf (7 ∷ 3 ∷ []) 20)
unfolding delete_child
merged = refl

abbrev nine_bytes : List ℕ
nine_bytes = 1 ∷ 2 ∷ 3 ∷ 4 ∷ 5 ∷ 6 ∷ 7 ∷ 8 ∷ 9 ∷ []

abbrev other_bytes : List ℕ
other_bytes = 1 ∷ 2 ∷ 3 ∷ 4 ∷ 5 ∷ 6 ∷ 7 ∷ 8 ∷ 200 ∷ []

abbrev history : List (Op ℕ)
history = insert (7 ∷ 3 ∷ []) 20 ∷ insert new_key 30 ∷ remove (7 ∷ 3 ∷ []) ∷ get new_key ∷ []

history-AllBytes : AllBytes history
history-AllBytes = (
  (omega arith, (omega arith, tt)),
  (new_key-IsBytes, ((omega arith, (omega arith, tt)), (new_key-IsBytes, tt))),
)

insert_k_lem_example :
    (t' : Tree ℕ) × (insert_k pair_tree new_key 30 ≡ done (t', contents pair_tree new_key))
    × IsUpdate pair_tree t' new_key (some 30)
insert_k_lem_example = insert_k_lem pair_tree new_key 30 pair_tree-IsValidTree new_key-IsBytes

try_insert_k_lem_example :
    (t' : Tree ℕ) × (try_insert_k pair_tree new_key 30
      ≡ done (t', refusal (contents pair_tree new_key) 30))
    × IsUpdate pair_tree t' new_key (stored (contents pair_tree new_key) 30 false)
try_insert_k_lem_example =
    try_insert_k_lem pair_tree new_key 30 pair_tree-IsValidTree new_key-IsBytes

remove_k_lem_example :
    (t' : Tree ℕ) × (remove_k pair_tree (7 ∷ 3 ∷ []) ≡ done (t', contents pair_tree (7 ∷ 3 ∷ [])))
    × IsUpdate pair_tree t' (7 ∷ 3 ∷ []) none
remove_k_lem_example = remove_k_lem pair_tree (7 ∷ 3 ∷ []) pair_tree-IsValidTree

get_k-eq-contents_example : get_k pair_tree (7 ∷ 3 ∷ []) ≡ done (contents pair_tree (7 ∷ 3 ∷ []))
get_k-eq-contents_example = get_k-eq-contents pair_tree (7 ∷ 3 ∷ [])

delete_child-IsWithout_example :
    (n' : Node ℕ) × (delete_child 1 pair_node ≡ done (some (leaf (1 ∷ 2 ∷ []) 10), n'))
    × IsWithout pair_node n' 1 (leaf (1 ∷ 2 ∷ []) 10)
unfolding seek
delete_child-IsWithout_example =
    delete_child-IsWithout pair_node 1 (leaf (1 ∷ 2 ∷ []) 10) pair_node-IsValid refl

history_lem_example :
    (t : Tree ℕ) × (perform_all history new ≡ done (t, answers history (λ q. none)))
    × IsValidTree t
    × ((q : Bytes) → contents t q ≡ change_all history (λ q'. none) q)
history_lem_example = history_lem history history-AllBytes

prefix_length_bytes-eq_common_example :
    prefix_length_bytes nine_bytes other_bytes ≡ common_length nine_bytes other_bytes
prefix_length_bytes-eq_common_example = prefix_length_bytes-eq_common nine_bytes other_bytes

-- They part in the second word.
nine_bytes-common_length : common_length nine_bytes other_bytes ≡ 8
unfolding common_length
nine_bytes-common_length = refl
