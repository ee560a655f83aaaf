-- ===== src/Tests/Mapping.antt =====
-- The mappings with a few children.
use rart_rs.Prelude.{
  ℕ, ◌≡◌, ◌≢◌, refl, Option, none, some, List, [], ◌∷◌, done, replicate, set, length, arith,
}
use rart_rs.Mapping.Slots.{slot, used}
use rart_rs.Mapping.Direct.{direct_of, direct_seek_lem, direct_add_lem, direct_delete_lem}
use rart_rs.Mapping.Direct
use rart_rs.Mapping.Indexed.{
  IsIndex-add, IsIndex-replicate, indexed_of, IsIndex, child_at, indexed_seek_lem, indexed_add_lem,
  indexed_delete_lem,
}
use rart_rs.Mapping.Indexed

abbrev no_slots : List (Option ℕ)
no_slots = replicate 256 none

-- A child 9 at the edge 5.
abbrev one_slot : List (Option ℕ)
one_slot = set no_slots 5 (some 9)

direct_add_lem_example :
    (ss' : List (Option ℕ)) × (Direct.add_child (direct_of one_slot) 7 11 ≡ done (direct_of ss'))
    × (length ss' ≡ 256)
    × (slot ss' 7 ≡ some 11)
    × ((k : ℕ) → k ≢ 7 → slot ss' k ≡ slot one_slot k)
unfolding slot
direct_add_lem_example = direct_add_lem one_slot 7 11 refl (omega arith) refl

-- The edge 5 points at the second slot.
abbrev one_index : List (Option ℕ)
one_index = set no_slots 5 (some 1)

abbrev children : List (Option ℕ)
children = none ∷ some 9 ∷ none ∷ []

one_index-IsIndex : IsIndex one_index children
unfolding slot
one_index-IsIndex =
    IsIndex-add no_slots (none ∷ none ∷ none ∷ []) 5 (IsIndex-replicate (none ∷ none ∷ none ∷ []))
      (omega arith) 1 9 (omega arith) refl

indexed_add_lem_example :
    (indexes' : List (Option ℕ)) × (slots' : List (Option ℕ)) × (Indexed.add_child
        (indexed_of one_index children)
        7
        11
      ≡ done (indexed_of indexes' slots'))
    × IsIndex indexes' slots'
    × (child_at indexes' slots' 7 ≡ some 11)
    × ((k : ℕ) → k ≢ 7 → child_at indexes' slots' k ≡ child_at one_index children k)
unfolding used
indexed_add_lem_example =
    indexed_add_lem one_index children 7 one_index-IsIndex (omega arith) 11 (omega arith)
      (omega arith)

indexed_delete_lem_example :
    (indexes' : List (Option ℕ)) × (slots' : List (Option ℕ)) × (Indexed.delete_child
        (indexed_of one_index children)
        5
      ≡ done (child_at one_index children 5, indexed_of indexes' slots'))
    × IsIndex indexes' slots'
    × (child_at indexes' slots' 5 ≡ none)
    × ((k : ℕ) → k ≢ 5 → child_at indexes' slots' k ≡ child_at one_index children k)
indexed_delete_lem_example = indexed_delete_lem one_index children 5 one_index-IsIndex (omega arith)
