-- ===== src/Keys/Builder/Laws.antt =====
-- A builder makes the key that `new_from_slice` makes of all bytes at once.
use rart_rs.Prelude.{
  ℕ, ◌+◌, ◌-◌, ◌≤◌, ◌<◌, ◌≡◌, refl, ◌∙◌, ap, ◌⊎◌, Option, none, some, List, [], ◌∷◌, ◌++◌, length,
  leb, ltb, done, arith, length-append, append_assoc, append-nil, Bool-cases, inl, inr,
}
use rart_rs.Partials.{Bytes}
use rart_rs.Keys.Slices.{write, zeros, leb-le, leb-lt, slice_to_whole, write-zeros, write_behind}
use rart_rs.Keys.OverflowKey.{OverflowKey, new_from_slice}
use rart_rs.Keys.Builder.{
  OverflowKeyBuilder, new, push, push_inline, extend_from_slice, extend_inline, finish, Piece, byte,
  slice, contents, append_all, build,
}

abbrev inline_of : ℕ → Bytes → OverflowKeyBuilder
inline_of size s = record { inline = s ++ zeros (size - length s); len = length s; overflow = none }

abbrev boxed_of : Bytes → Bytes → OverflowKeyBuilder
boxed_of inline s = record { inline = inline; len = length s; overflow = some s }

-- The builder has taken the bytes `s`.
abbrev Holds : ℕ → OverflowKeyBuilder → Bytes → Type 0
Holds size b s =
    (b ≡ inline_of size s) × (length s ≤ size)
    ⊎ (inline : Bytes) × (b ≡ boxed_of inline s) × (size < length s)

module _ (size : ℕ) where
  inline_grown :
      (s t : Bytes)
      → length s + length t ≤ size
      → write (s ++ zeros (size - length s)) (length s) t
        ≡ done ((s ++ t) ++ zeros (size - length (s ++ t)))
  inline_grown s t h =
      let e : size - length s - length t ≡ size - length (s ++ t) =
        omega (arith, length-append {0} s t) in
      write_behind s t (size - length s) (omega arith) ∙ ap (λ n. done ((s ++ t) ++ zeros n)) e

  extend_inline_lem :
      (s t : Bytes)
      → length s ≤ size
      → (b : OverflowKeyBuilder) × (extend_inline size (inline_of size s) t ≡ done b)
        × Holds size b (s ++ t)
  unfolding extend_inline
  extend_inline_lem s t l = elim (Bool-cases (leb (length s + length t) size)) [
    | inl h ↦ (
      inline_of size (s ++ t),
      rw (h, inline_grown s t (ground arith), length-append s t),
      inl (refl, ground (arith, length-append {0} s t)),
    )
    | inr h ↦ (
      boxed_of (s ++ zeros (size - length s)) (s ++ t),
      rw (h, slice_to_whole s (zeros (size - length s)), length-append s t),
      inr (s ++ zeros (size - length s), refl, ground (arith, length-append {0} s t)),
    )
  ]

  ltb-eq-leb : (a b : ℕ) → ltb a b ≡ leb (a + 1) b
  ltb-eq-leb a b = ground arith

  -- `push` does what appending one byte does.
  push-eq-extend :
      (inline : Bytes) (len : ℕ) (o : Option Bytes) (x : ℕ)
      → push size (record { inline = inline; len = len; overflow = o }) x
        ≡ extend_from_slice size (record { inline = inline; len = len; overflow = o }) (x ∷ [])
  unfolding push extend_from_slice push_inline extend_inline
  push-eq-extend inline len none x = rw (ltb-eq-leb len size)
  push-eq-extend inline len (some s) x = refl

  extend_lem :
      (b : OverflowKeyBuilder) (s t : Bytes)
      → Holds size b s
      → (b' : OverflowKeyBuilder) × (extend_from_slice size b t ≡ done b') × Holds size b' (s ++ t)
  unfolding extend_from_slice
  extend_lem b s [] h = (b, refl, rw (append-nil s) h)
  extend_lem b s (x ∷ t) (inl (e, l)) = rw e (extend_inline_lem s (x ∷ t) l)
  extend_lem b s (x ∷ t) (inr (i, e, l)) = (
    boxed_of i (s ++ x ∷ t),
    rw (e, length-append s (x ∷ t)),
    inr (i, refl, omega (arith, length-append {0} s (x ∷ t))),
  )

  append_all_lem :
      (b : OverflowKeyBuilder) (s : Bytes) (pieces : List Piece)
      → Holds size b s
      → (b' : OverflowKeyBuilder) × (append_all size b pieces ≡ done b')
        × Holds size b' (s ++ contents pieces)
  unfolding append_all
  append_all_lem b s [] h = (b, refl, rw (append-nil s) h)
  append_all_lem b s (byte x ∷ pieces) h =
      let (b', e, h') = extend_lem b s (x ∷ []) h in
      let (b'', e', h'') = append_all_lem b' (s ++ x ∷ []) pieces h' in
      (
        b'',
        rw (push-eq-extend b.inline b.len b.overflow x, e) e',
        rw (append_assoc s (x ∷ []) (contents pieces)) at h'',
      )
  append_all_lem b s (slice t ∷ pieces) h =
      let (b', e, h') = extend_lem b s t h in
      let (b'', e', h'') = append_all_lem b' (s ++ t) pieces h' in
      (b'', rw e e', rw (append_assoc s t (contents pieces)) at h'')

  finish_lem :
      (part : ℕ) (b : OverflowKeyBuilder) (s : Bytes)
      → Holds size b s
      → new_from_slice size part s ≡ done (finish size b)
  unfolding finish new_from_slice
  finish_lem part b s (inl (e, l)) = rw (e, leb-le (length s) size l, write-zeros size s l)
  finish_lem part b s (inr (i, e, l)) = rw (e, leb-lt (length s) size l)

  Holds-new : Holds size (new size) []
  unfolding new
  Holds-new = inl (
    ap (λ n. record { inline = zeros n; len = 0; overflow = none })
        (let e : size ≡ size - 0 = omega arith in e),
    omega arith,
  )

  -- Whatever bytes and slices are appended to a new builder, in whatever order, nothing panics, and
  -- the key that `finish` gives is the one that `new_from_slice` makes of all of them in a row.
  pub build-eq-new_from_slice :
      (part : ℕ) (pieces : List Piece)
      → (k : OverflowKey) × (build size pieces ≡ done k)
        × (new_from_slice size part (contents pieces) ≡ done k)
  unfolding build
  build-eq-new_from_slice part pieces =
      let (b, e, h) = append_all_lem (new size) [] pieces Holds-new in
      (finish size b, rw e, finish_lem part b (contents pieces) h)
