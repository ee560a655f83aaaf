-- ===== src/Tests/Versioned.antt =====
-- Insertions into a small versioned tree.
use rart_rs.Prelude.{ℕ, ◌≡◌, refl, true, some, [], ◌∷◌, done, arith, is_some, Option}
use rart_rs.Partials.{Bytes}
use rart_rs.Node.{empty, node4, capacity}
use rart_rs.Node
use rart_rs.Node.Valid.{IsBytes}
use rart_rs.Versioned.{versioned, more, end, VersionedTree, insert_k}
use rart_rs.Tree.Update.{insert, remove}
use rart_rs.Versioned.Update.{SlotCallback, update_k}
use rart_rs.Versioned.Update.Effect.{after, changes}
use rart_rs.Versioned.Update.Laws.{IsSlotUpdate, update_k-IsSlotUpdate}
use rart_rs.Versioned.Remove.{remove_k, delete_k}
use rart_rs.Versioned.Remove.Laws.{IsTaken, remove_k-IsTaken, delete_k-eq-remove_k}
use rart_rs.Versioned.Laws.{contents, IsValidTree, IsPut, insert_k-IsPut}

-- The keys 7 and 7 3, the second written at version 1.
abbrev shared_tree : VersionedTree ℕ
shared_tree = record {
  root =
      some (
        versioned (7 ∷ []) (some 5) node4 (more 3 (versioned (3 ∷ []) (some 20) empty end 1) end)
          2);
  version = 2;
}

shared_tree-IsValidTree : IsValidTree shared_tree
unfolding Node.num_children capacity
shared_tree-IsValidTree = record {
  rooted = (
    (
      omega arith,
      tt,
      (omega arith, refl, (omega arith, tt, tt, (omega arith, tt)), tt, tt),
      (omega arith, tt),
    ),
    (omega arith, ((omega arith, tt), tt)),
  );
}

abbrev child_key : Bytes
child_key = 7 ∷ 3 ∷ []

child_key-IsBytes : IsBytes child_key
child_key-IsBytes = (omega arith, (omega arith, tt))

insert_k-IsPut_example :
    (t' : VersionedTree ℕ) × (insert_k (λ n. true) shared_tree child_key 9
      ≡ done (t', is_some (contents shared_tree child_key)))
    × IsPut shared_tree t' child_key 9
insert_k-IsPut_example =
    insert_k-IsPut (λ n. true) shared_tree child_key 9 shared_tree-IsValidTree child_key-IsBytes

remove_k-IsTaken_example :
    (t' : VersionedTree ℕ) × (remove_k (λ n. true) shared_tree child_key
      ≡ done (t', contents shared_tree child_key))
    × IsTaken shared_tree t' child_key
remove_k-IsTaken_example =
    remove_k-IsTaken (λ n. true) child_key shared_tree shared_tree-IsValidTree

delete_k-eq-remove_k_example :
    (t' : VersionedTree ℕ) × (o : Option ℕ) × (remove_k (λ n. true) shared_tree child_key
      ≡ done (t', o))
    × (delete_k (λ n. true) shared_tree child_key ≡ done (t', is_some o))
delete_k-eq-remove_k_example =
    delete_k-eq-remove_k (λ n. true) child_key shared_tree shared_tree-IsValidTree

-- Vacant slots get a 1, occupied ones are given up.
abbrev toggle_slot : SlotCallback ℕ
toggle_slot = record { vacant = insert 1; occupied = λ v. (v, remove) }

update_k-IsSlotUpdate_example :
    (t' : VersionedTree ℕ) × (update_k (λ n. true) toggle_slot shared_tree child_key
      ≡ done (t', changes toggle_slot (contents shared_tree child_key)))
    × IsSlotUpdate shared_tree t' child_key
        (after toggle_slot (contents shared_tree child_key))
        (changes toggle_slot (contents shared_tree child_key))
update_k-IsSlotUpdate_example =
    update_k-IsSlotUpdate (λ n. true) toggle_slot shared_tree child_key shared_tree-IsValidTree
      child_key-IsBytes
