-- ===== src/Tests/Update.antt =====
-- Updates of a small tree.
use rart_rs.Prelude.{ℕ, ◌+◌, ◌≡◌, refl, true, some, [], ◌∷◌, done, arith, false}
use rart_rs.Partials.{Bytes}
use rart_rs.Partials.Laws.{strip}
use rart_rs.Node.Valid.{IsBytes}
use rart_rs.Node.Lookup.{lookup}
use rart_rs.Tree.{Tree}
use rart_rs.Tree.Get.{contents}
use rart_rs.Tree.Laws.{IsValidTree, IsUpdate}
use rart_rs.Tree.Update.{
  Callback, ok, err, insert, remove, try_update_k_inner, try_update_k, update_k,
}
use rart_rs.Tree.Update.Answers.{after, answer}
use rart_rs.Tree.Update.Laws.{try_update_k_inner_lem, try_update_k-err, update_k_lem, did}
use rart_rs.Tests.{pair_tree, pair_tree-IsValidTree}

abbrev short_key : Bytes
short_key = 7 ∷ 3 ∷ []

short_key-IsBytes : IsBytes short_key
short_key-IsBytes = (omega arith, (omega arith, tt))

-- Vacant slots get a 1, occupied ones are given up.
abbrev toggle : {E : Type 0} → Callback E ℕ
toggle = record { vacant = ok (insert 1); occupied = λ v. (v, ok remove) }

-- Fails after it has changed the value.
abbrev spoil : Callback ℕ ℕ
spoil = record { vacant = err 5; occupied = λ v. (v + 1, err 6) }

try_update_k_inner_lem_example :
    (t' : Tree ℕ) × (try_update_k_inner true toggle pair_tree short_key
      ≡ done (t', answer {E = ℕ} toggle (contents pair_tree short_key)))
    × IsUpdate pair_tree t' short_key (after {E = ℕ} true toggle (contents pair_tree short_key))
try_update_k_inner_lem_example =
    try_update_k_inner_lem true toggle pair_tree short_key pair_tree-IsValidTree short_key-IsBytes

there : contents pair_tree short_key ≡ some 20
unfolding lookup strip
there = refl

try_update_k-err_example :
    (t' : Tree ℕ) × (try_update_k spoil pair_tree short_key ≡ done (t', err 6))
    × IsValidTree t'
    × (t'.len ≡ 2)
    × ((q : Bytes) → contents t' q ≡ contents pair_tree q)
try_update_k-err_example =
    try_update_k-err spoil pair_tree short_key 6 pair_tree-IsValidTree short_key-IsBytes (rw there)

update_k_lem_example :
    (t' : Tree ℕ) × (update_k toggle pair_tree short_key
      ≡ done (t', did (answer toggle (contents pair_tree short_key))))
    × IsUpdate pair_tree t' short_key (after {E = ⊥} false toggle (contents pair_tree short_key))
update_k_lem_example =
    update_k_lem toggle pair_tree short_key pair_tree-IsValidTree short_key-IsBytes
