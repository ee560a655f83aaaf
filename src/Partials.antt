-- ===== src/Partials.antt =====
-- Byte strings as keys and as compressed prefixes: `VectorKey` and `VectorPartial`, whose boxed
-- slices are lists here (rart/src/keys/vector_key.rs, rart/src/partials/vector_partial.rs).
pub mod Laws
use rart_rs.Prelude.{
  ℕ, suc, ◌+◌, ◌-◌, min, Bool, true, false, List, [], ◌∷◌, ◌++◌, length, get_elem?, take, drop, leb,
  ◌==◌, if◌then◌else◌, Run, done, panic, ◌>>=◌, ◌>>◌, check, unwrap,
}
use rart_rs.Words.{prefix_length_bytes}

abbrev pub Bytes : Type 0
Bytes = List ℕ

-- `&s[start..]` and `&s[..end]`, which panic out of range.
abbrev pub slice_from : Bytes → ℕ → Run Bytes
slice_from s start = do check (leb start (length s)); done (drop start s)

abbrev pub slice_to : Bytes → ℕ → Run Bytes
slice_to s end = do check (leb end (length s)); done (take end s)

-- `KeyTrait::at` and `Partial::at`.
abbrev pub at : Bytes → ℕ → Run ℕ
at s pos = unwrap (get_elem? s pos)

-- `KeyTrait::length_at`; the subtraction is checked.
abbrev pub length_at : Bytes → ℕ → Run ℕ
length_at key at_depth = do check (leb at_depth (length key)); done (length key - at_depth)

-- `KeyTrait::to_partial`.
abbrev pub to_partial : Bytes → ℕ → Run Bytes
to_partial key at_depth = slice_from key at_depth

abbrev pub partial_before : Bytes → ℕ → Run Bytes
partial_before p len = slice_to p len

abbrev pub partial_after : Bytes → ℕ → Run Bytes
partial_after p start = slice_from p start

abbrev pub partial_extended_with : Bytes → Bytes → Bytes
partial_extended_with p q = p ++ q

unfoldable pub prefix_length_slice : Bytes → Bytes → ℕ
prefix_length_slice p s =
    let len = min (length p) (length s) in prefix_length_bytes (take len p) (take len s)

unfoldable pub prefix_length_key : Bytes → Bytes → ℕ → Run ℕ
prefix_length_key p key at_depth = do
  remaining ← length_at key at_depth
  let len = min (length p) remaining
  rest ← slice_from key at_depth
  window ← slice_to rest len
  done (prefix_length_bytes (take len p) window)
