-- ===== src/Tests/Positions.antt =====
-- The searches in a few ascending keys.
use rart_rs.Prelude.{
  ℕ, zero, suc, ◌<◌, ◌≡◌, Option, some, List, [], ◌∷◌, get_elem?, done, arith, eq_of_some,
}
use rart_rs.Mapping.Positions.{
  IsSorted, IsPosition, IsSplit, find_key_position_sorted, find_key_position_sorted_lem,
  find_insert_position_sorted, find_insert_position_sorted_lem,
}

abbrev two_keys : List ℕ
two_keys = 3 ∷ 7 ∷ []

two_keys_ascend :
    (i j a b : ℕ)
    → i < j
    → j < 2
    → get_elem? two_keys i ≡ some a
    → get_elem? two_keys j ≡ some b
    → a < b
two_keys_ascend zero zero a b l m e f = absurd (omega arith)
two_keys_ascend zero (suc zero) a b l m e f = omega (arith, eq_of_some 3 a e, eq_of_some 7 b f)
two_keys_ascend zero (suc (suc j)) a b l m e f = absurd (omega arith)
two_keys_ascend (suc i) zero a b l m e f = absurd (omega arith)
two_keys_ascend (suc i) (suc zero) a b l m e f = absurd (omega arith)
two_keys_ascend (suc i) (suc (suc j)) a b l m e f = absurd (omega arith)

two_keys-IsSorted : IsSorted two_keys 2
two_keys-IsSorted = record { fits = omega arith; ascends = two_keys_ascend }

find_key_position_sorted_lem_example :
    (o : Option ℕ) × (find_key_position_sorted 16 7 two_keys 2 ≡ done o) × IsPosition 7 two_keys 2 o
find_key_position_sorted_lem_example =
    find_key_position_sorted_lem 7 two_keys 2 two_keys-IsSorted 16

find_insert_position_sorted_lem_example :
    (at : ℕ) × (find_insert_position_sorted 5 two_keys 2 ≡ done (some at))
    × IsSplit 5 two_keys 2 two_keys-IsSorted at
find_insert_position_sorted_lem_example =
    find_insert_position_sorted_lem 5 two_keys 2 two_keys-IsSorted
