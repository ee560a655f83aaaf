-- ===== src/Keys/Cuts.antt =====
-- A key that is cut with `truncate` and joined again with `extend_from_partial`, in the array and
-- with overflow storage (rart/src/keys/array_key.rs, rart/src/keys/overflow_key.rs).
use rart_rs.Prelude.{ℕ, ◌≤◌, ◌<◌, ◌≡◌, length, done, arith, length-drop}
use rart_rs.Partials.{Bytes}
use rart_rs.Keys.Join.{extend-truncate}
use rart_rs.Keys.ArrayKey
use rart_rs.Keys.ArrayKey.{array_key}
use rart_rs.Keys.ArrayKey.Laws.{array_key_keeps}
use rart_rs.Keys.ArrayPrefix
use rart_rs.Keys.ArrayPrefix.Laws.{array_partial-IsPartial}
use rart_rs.Keys.OverflowKey
use rart_rs.Keys.OverflowKey.{overflow_key}
use rart_rs.Keys.OverflowKey.Laws.{overflow_key_keeps, new_from_slice_lem}
use rart_rs.Keys.OverflowPrefix
use rart_rs.Keys.OverflowPrefix.Laws.{overflow_partial-IsPartial}

-- An array key of any bytes that fit, cut at any depth: the part before the depth, extended with the
-- prefix from it on, has the bytes of the key. Nothing panics.
pub array_extend-truncate :
    (size : ℕ) (s : Bytes) (n : ℕ)
    → length s ≤ size
    → n ≤ length s
    → (k cut : ArrayKey.ArrayKey) × (rest : ArrayPrefix.ArrPartial) × (whole : ArrayKey.ArrayKey)
      × (ArrayKey.new_from_slice size s ≡ done k)
      × (ArrayKey.truncate size k n ≡ done cut)
      × (ArrayKey.to_partial size k n ≡ done rest)
      × (ArrayKey.extend_from_partial size cut rest ≡ done whole)
      × (ArrayKey.as_slice whole ≡ done s)
array_extend-truncate size s n h l =
    let k = ArrayKey.Laws.fresh size s in
    let (cut, rest, whole, a, b, c, d) =
      extend-truncate (array_key size) (ArrayPrefix.array_partial size) (ArrayKey.Laws.Stands size)
        (ArrayPrefix.Laws.Stands size) (ArrayPrefix.Laws.fresh size) (λ m. m ≤ size) (λ m. m ≤ size)
        (λ m. m < size) (array_key_keeps size) (array_partial-IsPartial size) k s n
        (ArrayKey.Laws.Stands-fresh size s h) l (omega (arith, length-drop {0} n s)) in
    (k, cut, rest, whole, ArrayKey.Laws.new_from_slice_lem size s h, a, b, c, d)

-- The same of a key with overflow storage, of any length and cut at any depth: the cut may bring the
-- bytes back into the inline part, and the extension may move them out again.
pub overflow_extend-truncate :
    (size part : ℕ) (s : Bytes) (n : ℕ)
    → n ≤ length s
    → (k cut : OverflowKey.OverflowKey) × (rest : OverflowPrefix.OverflowPartial)
      × (whole : OverflowKey.OverflowKey) × (OverflowKey.new_from_slice size part s ≡ done k)
      × (OverflowKey.truncate size part k n ≡ done cut)
      × (OverflowKey.to_partial size part k n ≡ done rest)
      × (OverflowKey.extend_from_partial size part cut rest ≡ done whole)
      × (OverflowKey.stored size part whole ≡ done s)
overflow_extend-truncate size part s n l =
    let (k, e, h) = new_from_slice_lem size part s in
    let (cut, rest, whole, a, b, c, d) =
      extend-truncate (overflow_key size part) (OverflowPrefix.overflow_partial part)
        (OverflowKey.Laws.Stands size part) (OverflowPrefix.Laws.Stands part)
        (OverflowPrefix.Laws.fresh part) (λ m. Unit {0}) (λ m. Unit {0}) (λ m. Unit {0})
        (overflow_key_keeps size part) (overflow_partial-IsPartial part) k s n h l tt in
    (k, cut, rest, whole, e, a, b, c, d)
