-- ===== src/Keys/Builder.antt =====
-- `OverflowKeyBuilder<N, P>` (rart/src/keys/overflow_key.rs): bytes are appended in the array until
-- they no longer fit, and from then on in a vector.
pub mod Laws
use rart_rs.Prelude.{
  ℕ, zero, suc, ◌+◌, Bool, Option, none, some, List, [], ◌∷◌, ◌++◌, length, leb, ltb, ◌==◌,
  if◌then◌else◌, done, ◌>>=◌, ◌>>◌, check, Run,
}
use rart_rs.Partials.{Bytes, slice_to}
use rart_rs.Keys.Slices.{write, zeros}
use rart_rs.Keys.OverflowKey.{OverflowKey}

pub record OverflowKeyBuilder : Type 0 where
  pub inline : Bytes
  pub len : ℕ
  pub overflow : Option Bytes

module _ (size : ℕ) where
  unfoldable pub new : OverflowKeyBuilder
  new = record { inline = zeros size; len = 0; overflow = none }

  -- What `push` does while no byte has overflown.
  unfoldable pub push_inline : OverflowKeyBuilder → ℕ → Run OverflowKeyBuilder
  push_inline b byte =
      if ltb b.len size
      then (do
        inline ← write b.inline b.len (byte ∷ [])
        done (record { inline = inline; len = b.len + 1; overflow = none }))
      else (do
        own ← slice_to b.inline b.len
        done (record { inline = b.inline; len = b.len + 1; overflow = some (own ++ byte ∷ []) }))

  unfoldable pub push : OverflowKeyBuilder → ℕ → Run OverflowKeyBuilder
  push b byte = elim b.overflow [
    | some overflow ↦
        done
          (record { inline = b.inline; len = b.len + 1; overflow = some (overflow ++ byte ∷ []) })
    | none ↦ push_inline b byte
  ]

  unfoldable pub extend_inline : OverflowKeyBuilder → Bytes → Run OverflowKeyBuilder
  extend_inline b bytes =
      if leb (b.len + length bytes) size
      then (do
        inline ← write b.inline b.len bytes
        done (record { inline = inline; len = b.len + length bytes; overflow = none }))
      else (do
        own ← slice_to b.inline b.len
        done (record {
          inline = b.inline;
          len = b.len + length bytes;
          overflow = some (own ++ bytes);
        }))

  unfoldable pub extend_from_slice : OverflowKeyBuilder → Bytes → Run OverflowKeyBuilder
  extend_from_slice b [] = done b
  extend_from_slice b (x ∷ bytes) = elim b.overflow [
    | some overflow ↦ done (record {
      inline = b.inline;
      len = b.len + length (x ∷ bytes);
      overflow = some (overflow ++ x ∷ bytes);
    })
    | none ↦ extend_inline b (x ∷ bytes)
  ]

  unfoldable pub finish : OverflowKeyBuilder → OverflowKey
  finish b = elim b.overflow [
    | some overflow ↦ record {
      inline = zeros size;
      len = length overflow;
      overflow = some overflow;
    }
    | none ↦ record { inline = b.inline; len = b.len; overflow = none }
  ]

-- What a client appends.
pub data Piece : Type 0 where
  byte : ℕ → Piece
  slice : Bytes → Piece

abbrev pub contents : List Piece → Bytes
contents [] = []
contents (byte b ∷ pieces) = b ∷ contents pieces
contents (slice bytes ∷ pieces) = bytes ++ contents pieces

-- A client that appends pieces to a builder and then finishes.
unfoldable pub append_all : ℕ → OverflowKeyBuilder → List Piece → Run OverflowKeyBuilder
append_all size b [] = done b
append_all size b (byte x ∷ pieces) = do b' ← push size b x; append_all size b' pieces
append_all size b (slice bytes ∷ pieces) = do
  b' ← extend_from_slice size b bytes
  append_all size b' pieces

unfoldable pub build : ℕ → List Piece → Run OverflowKey
build size pieces = do b ← append_all size (new size) pieces; done (finish size b)
