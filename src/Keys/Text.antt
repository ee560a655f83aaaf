-- ===== src/Keys/Text.antt =====
-- Keys of texts: the bytes of the text with a zero byte behind them. A text without zero bytes is
-- no proper beginning of another, and its key stands where the text does.
use Prim.Native.Nat.{compare}
use rart_rs.Prelude.{ℕ, ◌<◌, ◌≡◌, refl, ◌∙◌, ap, ◌+◌, length, [], ◌∷◌, ◌++◌, done, arith}
use rart_rs.Partials.{Bytes}
use rart_rs.Keys.Slices.{bytes_cmp, then_with}
use rart_rs.Keys.ArrayKey
use rart_rs.Keys.ArrayKey.Laws.{array_key_keeps}
use rart_rs.Keys.ArrayKey.Values.{new_from_str_lem}
use rart_rs.Keys.OverflowKey
use rart_rs.Keys.OverflowKey.Laws.{new_from_slice_lem, overflow_key_keeps}

abbrev pub HasNoZero : Bytes → Type 0
HasNoZero [] = Unit {0}
HasNoZero (x ∷ s) = (0 < x) × HasNoZero s

bytes_cmp-terminated :
    (s t : Bytes)
    → HasNoZero s
    → HasNoZero t
    → bytes_cmp (s ++ 0 ∷ []) (t ++ 0 ∷ []) ≡ bytes_cmp s t
unfolding bytes_cmp
bytes_cmp-terminated [] [] h k = refl
bytes_cmp-terminated [] (y ∷ t) h k = ground arith
bytes_cmp-terminated (x ∷ s) [] h k = ground arith
bytes_cmp-terminated (x ∷ s) (y ∷ t) h k =
    ap (then_with (compare x y)) (bytes_cmp-terminated s t h.1 k.1)

-- The key of a text begins no other text's key.
terminated_prefix :
    (s t u : Bytes)
    → HasNoZero s
    → HasNoZero t
    → (s ++ 0 ∷ []) ++ u ≡ t ++ 0 ∷ []
    → (s ≡ t) × (u ≡ [])
terminated_prefix [] [] u h k e = (refl, cc)
terminated_prefix [] (y ∷ t) u h k e = absurd (ground arith)
terminated_prefix (x ∷ s) [] u h k e = absurd (ground arith)
terminated_prefix (x ∷ s) (y ∷ t) u h k e =
    let (e', e'') = terminated_prefix s t u h.1 k.1 (cc) in (cc, e'')

-- Two texts without zero bytes: the keys that `new_from_str` makes of them compare as the texts do, and
-- the bytes of one do not begin those of the other, unless the texts are the same. Nothing panics,
-- whatever the sizes of the inline parts.
pub overflow_text_keys :
    (size part : ℕ) (s t : Bytes)
    → HasNoZero s
    → HasNoZero t
    → (k l : OverflowKey.OverflowKey) × (OverflowKey.new_from_str size part s ≡ done k)
      × (OverflowKey.new_from_str size part t ≡ done l)
      × (OverflowKey.cmp size part k l ≡ done (bytes_cmp s t))
      × (a b : Bytes) × (OverflowKey.stored size part k ≡ done a)
      × (OverflowKey.stored size part l ≡ done b)
      × ((u : Bytes) → a ++ u ≡ b → (s ≡ t) × (u ≡ []))
unfolding OverflowKey.new_from_str
overflow_text_keys size part s t p q =
    let (k, e, h) = new_from_slice_lem size part (s ++ 0 ∷ []) in
    let (l, e', h') = new_from_slice_lem size part (t ++ 0 ∷ []) in
    (
      k,
      l,
      e,
      e',
      (overflow_key_keeps size part).orders k l (s ++ 0 ∷ []) (t ++ 0 ∷ []) h h'
          ∙ ap done (bytes_cmp-terminated s t p q),
      s ++ 0 ∷ [],
      t ++ 0 ∷ [],
      (overflow_key_keeps size part).reads k (s ++ 0 ∷ []) h,
      (overflow_key_keeps size part).reads l (t ++ 0 ∷ []) h',
      λ u g. terminated_prefix s t u p q g,
    )

-- Two texts without zero bytes that are at least two bytes shorter than the array: the keys that
-- `new_from_str` makes of them compare as the texts do, and the bytes of one do not begin those of
-- the other, unless the texts are the same. Nothing panics.
pub array_text_keys :
    (size : ℕ) (s t : Bytes)
    → length s + 1 < size
    → length t + 1 < size
    → HasNoZero s
    → HasNoZero t
    → (k l : ArrayKey.ArrayKey) × (ArrayKey.new_from_str size s ≡ done k)
      × (ArrayKey.new_from_str size t ≡ done l)
      × (ArrayKey.cmp k l ≡ done (bytes_cmp s t))
      × (a b : Bytes) × (ArrayKey.as_slice k ≡ done a)
      × (ArrayKey.as_slice l ≡ done b)
      × ((u : Bytes) → a ++ u ≡ b → (s ≡ t) × (u ≡ []))
array_text_keys size s t b b' p q =
    let (k, e, h) = (new_from_str_lem size s).0 b in
    let (l, e', h') = (new_from_str_lem size t).0 b' in
    (
      k,
      l,
      e,
      e',
      (array_key_keeps size).orders k l (s ++ 0 ∷ []) (t ++ 0 ∷ []) h h'
          ∙ ap done (bytes_cmp-terminated s t p q),
      s ++ 0 ∷ [],
      t ++ 0 ∷ [],
      (array_key_keeps size).reads k (s ++ 0 ∷ []) h,
      (array_key_keeps size).reads l (t ++ 0 ∷ []) h',
      λ u g. terminated_prefix s t u p q g,
    )
