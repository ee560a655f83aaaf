-- ===== src/Keys/OverflowKey/Values.antt =====
-- Integers read back from keys with overflow storage.
use rart_rs.Prelude.{ℕ, ◌-◌, ◌^◌, ◌≤◌, ◌<◌, ◌≡◌, ◌∙◌, ap, Option, ◌++◌, length, done, ◌>>=◌, arith}
use rart_rs.Partials.{Bytes}
use rart_rs.Keys.Slices.{zeros, leb-le, write_end}
use rart_rs.Keys.Numbers.{to_be_bytes, from_be_bytes}
use rart_rs.Keys.Numbers.Laws.{length-to_be_bytes, from_be_bytes-to_be_bytes}
use rart_rs.Keys.OverflowKey.{OverflowKey, stored, to_be_u64, from_unsigned}
use rart_rs.Keys.OverflowKey.Laws.{held, new_from_slice_lem}

to_be_u64-held :
    (size part : ℕ) (inline s : Bytes) (o : Option Bytes)
    → stored size part (held inline s o) ≡ done s
    → length s ≤ 8
    → to_be_u64 size part (held inline s o) ≡ done (from_be_bytes (zeros (8 - length s) ++ s))
unfolding to_be_u64
to_be_u64-held size part inline s o d h =
    rw (leb-le (length s) 8 h, d) (ap (λ r. r >>= λ a. done (from_be_bytes a)) (write_end 8 s h))

-- The key may hold the integer inline or not.
pub overflow_to_be_u64-from_unsigned :
    (size part width value : ℕ)
    → width ≤ 8
    → value < 256 ^ width
    → (k : OverflowKey) × (from_unsigned size part width value ≡ done k)
      × (to_be_u64 size part k ≡ done value)
unfolding from_unsigned
overflow_to_be_u64-from_unsigned size part width value h l =
    let (k, built, (inline, o, e, d)) = new_from_slice_lem size part (to_be_bytes width value) in
    let n = length-to_be_bytes width value in
    (
      k,
      built,
      rw e (
          to_be_u64-held size part inline (to_be_bytes width value) o d (omega arith)
          ∙ ap done
              (from_be_bytes-to_be_bytes (8 - length (to_be_bytes width value)) width value l)),
    )
