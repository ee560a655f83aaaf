-- ===== src/Tests/Keys.antt =====
-- The key types at small keys.
use Prim.Native.Nat.{Ordering}
use rart_rs.Prelude.{◌+◌, ◌≤◌, ◌<◌, ◌≡◌, [], ◌∷◌, ◌++◌, false, take, done, panic, arith}
use rart_rs.Partials.{Bytes}
use rart_rs.Keys.Slices.{bytes_cmp}
use rart_rs.Keys.Interface.{IsPartial, IsKey}
use rart_rs.Keys.ArrayPrefix
use rart_rs.Keys.ArrayKey
use rart_rs.Keys.ArrayKey.{array_key}
use rart_rs.Keys.ArrayKey.Laws.{array_key-IsKey, array_key_keeps}
use rart_rs.Keys.ArrayKey.Values.{new_from_str_lem, to_be_u64-from_unsigned, eq-truncate}
use rart_rs.Keys.OverflowPrefix
use rart_rs.Keys.OverflowKey
use rart_rs.Keys.OverflowKey.{overflow_key}
use rart_rs.Keys.OverflowKey.Laws.{overflow_key-IsKey}
use rart_rs.Keys.Builder.{byte, slice, build}
use rart_rs.Keys.Builder.Laws.{build-eq-new_from_slice}
use rart_rs.Keys.Cuts.{array_extend-truncate, overflow_extend-truncate}
use rart_rs.Keys.Text.{overflow_text_keys, array_text_keys}

array_key-IsKey_example :
    IsPartial
      (ArrayPrefix.array_partial 8)
      (ArrayPrefix.Laws.Stands 8)
      (ArrayPrefix.Laws.fresh 8)
      (λ n. n ≤ 8)
      (λ n. n < 8)
    × IsKey
        (array_key 8)
        (ArrayKey.Laws.Stands 8)
        (ArrayPrefix.Laws.Stands 8)
        (ArrayPrefix.Laws.fresh 8)
        (λ n. n ≤ 8)
array_key-IsKey_example = array_key-IsKey 8

overflow_key-IsKey_example :
    IsPartial
      (OverflowPrefix.overflow_partial 2)
      (OverflowPrefix.Laws.Stands 2)
      (OverflowPrefix.Laws.fresh 2)
      (λ n. Unit {0})
      (λ n. Unit {0})
    × IsKey
        (overflow_key 4 2)
        (OverflowKey.Laws.Stands 4 2)
        (OverflowPrefix.Laws.Stands 2)
        (OverflowPrefix.Laws.fresh 2)
        (λ n. Unit {0})
overflow_key-IsKey_example = overflow_key-IsKey 4 2

abbrev hello : Bytes
hello = 104 ∷ 101 ∷ 108 ∷ 108 ∷ 111 ∷ []

array_extend-truncate_example :
    (k cut : ArrayKey.ArrayKey) × (rest : ArrayPrefix.ArrPartial) × (whole : ArrayKey.ArrayKey)
    × (ArrayKey.new_from_slice 8 hello ≡ done k)
    × (ArrayKey.truncate 8 k 3 ≡ done cut)
    × (ArrayKey.to_partial 8 k 3 ≡ done rest)
    × (ArrayKey.extend_from_partial 8 cut rest ≡ done whole)
    × (ArrayKey.as_slice whole ≡ done hello)
array_extend-truncate_example = array_extend-truncate 8 hello 3 (omega arith) (omega arith)

-- Five bytes do not fit inline, three do.
overflow_extend-truncate_example :
    (k cut : OverflowKey.OverflowKey) × (rest : OverflowPrefix.OverflowPartial)
    × (whole : OverflowKey.OverflowKey) × (OverflowKey.new_from_slice 4 2 hello ≡ done k)
    × (OverflowKey.truncate 4 2 k 3 ≡ done cut)
    × (OverflowKey.to_partial 4 2 k 3 ≡ done rest)
    × (OverflowKey.extend_from_partial 4 2 cut rest ≡ done whole)
    × (OverflowKey.stored 4 2 whole ≡ done hello)
overflow_extend-truncate_example = overflow_extend-truncate 4 2 hello 3 (omega arith)

to_be_u64-from_unsigned_example :
    (k : ArrayKey.ArrayKey) × (ArrayKey.from_unsigned 16 8 123213 ≡ done k)
    × (ArrayKey.to_be_u64 k ≡ done 123213)
to_be_u64-from_unsigned_example =
    to_be_u64-from_unsigned 16 8 123213 (omega arith) (omega arith) (omega arith)

new_from_str_lem_example :
    (5 + 1 < 8
      → (k : ArrayKey.ArrayKey) × (ArrayKey.new_from_str 8 hello ≡ done k)
        × ArrayKey.Laws.Stands 8 k (hello ++ 0 ∷ []))
    × (8 ≤ 5 + 1 → ArrayKey.new_from_str 8 hello ≡ panic)
new_from_str_lem_example = new_from_str_lem 8 hello

eq-truncate_example :
    (k cut new : ArrayKey.ArrayKey) × (ArrayKey.new_from_slice 8 hello ≡ done k)
    × (ArrayKey.truncate 8 k 3 ≡ done cut)
    × (ArrayKey.new_from_slice 8 (take 3 hello) ≡ done new)
    × (ArrayKey.cmp cut new ≡ done Ordering.eq)
    × (ArrayKey.eq cut new ≡ false)
eq-truncate_example = eq-truncate 8 hello 3 (omega arith) (omega arith) (λ e. ground arith)

-- Two bytes fit, and the slice overflows.
build-eq-new_from_slice_example :
    (k : OverflowKey.OverflowKey) × (build 3 (byte 1 ∷ byte 2 ∷ slice (3 ∷ 4 ∷ []) ∷ byte 5 ∷ [])
      ≡ done k)
    × (OverflowKey.new_from_slice 3 2 (1 ∷ 2 ∷ 3 ∷ 4 ∷ 5 ∷ []) ≡ done k)
build-eq-new_from_slice_example =
    build-eq-new_from_slice 3 2 (byte 1 ∷ byte 2 ∷ slice (3 ∷ 4 ∷ []) ∷ byte 5 ∷ [])

abbrev short : Bytes
short = 1 ∷ []

abbrev long : Bytes
long = 1 ∷ 2 ∷ []

overflow_text_keys_example :
    (k l : OverflowKey.OverflowKey) × (OverflowKey.new_from_str 2 2 short ≡ done k)
    × (OverflowKey.new_from_str 2 2 long ≡ done l)
    × (OverflowKey.cmp 2 2 k l ≡ done (bytes_cmp short long))
    × (a b : Bytes) × (OverflowKey.stored 2 2 k ≡ done a)
    × (OverflowKey.stored 2 2 l ≡ done b)
    × ((u : Bytes) → a ++ u ≡ b → (short ≡ long) × (u ≡ []))
overflow_text_keys_example = overflow_text_keys 2 2 short long (omega arith) (omega arith)

array_text_keys_example :
    (k l : ArrayKey.ArrayKey) × (ArrayKey.new_from_str 8 short ≡ done k)
    × (ArrayKey.new_from_str 8 long ≡ done l)
    × (ArrayKey.cmp k l ≡ done (bytes_cmp short long))
    × (a b : Bytes) × (ArrayKey.as_slice k ≡ done a)
    × (ArrayKey.as_slice l ≡ done b)
    × ((u : Bytes) → a ++ u ≡ b → (short ≡ long) × (u ≡ []))
array_text_keys_example =
    array_text_keys 8 short long (omega arith) (omega arith) (omega arith) (omega arith)
