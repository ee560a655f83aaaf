-- ===== src/Keys/ArrayKey/Values.antt =====
-- Keys in arrays from text and from integers, and the equality that is derived for them.
use Prim.Native.Nat.{Ordering}
use rart_rs.Prelude.{
  ℕ, suc, ◌+◌, ◌-◌, ◌^◌, ◌≤◌, ◌<◌, ◌≡◌, ◌≢◌, sym, ◌∙◌, ap, false, [], ◌∷◌, ◌++◌, length, take, drop,
  done, panic, ◌>>=◌, arith, length-append, Bool-cases, inl, inr, ltb-lt, ltb-le, append_assoc,
  take-append-drop, length-take, length-drop, drop-length_append, take-length_append,
}
use rart_rs.Partials.{Bytes}
use rart_rs.Keys.Slices.{
  zeros, leb-le, length-zeros, slice_to_whole, write-zeros, write_end, bytes_eq, bytes_eq_iff,
  bytes_cmp_self, take-zeros,
}
use rart_rs.Keys.Numbers.{ℤ, IsSigned, to_be_bytes, from_be_bytes, flip_sign}
use rart_rs.Keys.Numbers.Laws.{
  length-to_be_bytes, from_be_bytes-to_be_bytes, to_be_bytes_byte, flip_sign-lt,
}
use rart_rs.Keys.ArrayKey.{
  ArrayKey, new_from_slice, new_from_str, truncate, to_be_u64, from_unsigned, from_signed, from_i8,
  cmp, eq,
}
use rart_rs.Keys.ArrayKey.Laws.{
  arr, fresh, Stands, new_from_slice_lem, truncate_lem, Stands-truncate, Stands-fresh,
  array_key_keeps,
}

str_bytes :
    (size : ℕ) (s : Bytes)
    → length s + 1 < size
    → s ++ zeros (size - length s) ≡ (s ++ 0 ∷ []) ++ zeros (size - length s - 1)
str_bytes size s h =
    ap (λ n. s ++ zeros n) (let e : size - length s ≡ suc (size - length s - 1) = omega arith in e)
    ∙ sym (append_assoc s (0 ∷ []) (zeros (size - length s - 1)))

str-Stands :
    (size : ℕ) (s : Bytes)
    → length s + 1 < size
    → Stands size
        (record { bytes = s ++ zeros (size - length s); len = length s + 1 })
        (s ++ 0 ∷ [])
str-Stands size s h = (
  zeros (size - length s - 1),
  ap (λ b. record { bytes = b; len = length s + 1 }) (str_bytes size s h)
      ∙ ap (λ n. record { bytes = (s ++ 0 ∷ []) ++ zeros (size - length s - 1); len = n })
          (sym (length-append s (0 ∷ []))),
  omega (arith, length-append {0} s (0 ∷ []), length-zeros (size - length s - 1)),
)

-- A text of two bytes less than the array, or shorter, gives the key of its bytes with a zero byte
-- behind them. A text of one byte less panics, although the array holds it, as a longer one does.
pub new_from_str_lem :
    (size : ℕ) (s : Bytes)
    → (length s + 1 < size
        → (k : ArrayKey) × (new_from_str size s ≡ done k) × Stands size k (s ++ 0 ∷ []))
      × (size ≤ length s + 1 → new_from_str size s ≡ panic)
unfolding new_from_str
new_from_str_lem size s = (
  λ h. (
    record { bytes = s ++ zeros (size - length s); len = length s + 1 },
    rw (ltb-lt (length s + 1) size h, write-zeros size s (omega arith)),
    str-Stands size s h,
  ),
  λ h. rw (ltb-le (length s + 1) size h),
)

to_be_u64_lem :
    (s junk : Bytes)
    → length s ≤ 8
    → to_be_u64 (arr s junk) ≡ done (from_be_bytes (zeros (8 - length s) ++ s))
unfolding to_be_u64
to_be_u64_lem s junk h =
    rw (leb-le (length s) 8 h, slice_to_whole s junk)
      (ap (λ r. r >>= λ a. done (from_be_bytes a)) (write_end 8 s h))

-- An unsigned integer of a type of at most eight bytes, in a key that holds it, is read back.
pub to_be_u64-from_unsigned :
    (size width value : ℕ)
    → width ≤ 8
    → width ≤ size
    → value < 256 ^ width
    → (k : ArrayKey) × (from_unsigned size width value ≡ done k) × (to_be_u64 k ≡ done value)
unfolding from_unsigned
to_be_u64-from_unsigned size width value h k l =
    let n = length-to_be_bytes width value in
    (
      fresh size (to_be_bytes width value),
      new_from_slice_lem size (to_be_bytes width value) (omega arith),
      to_be_u64_lem (to_be_bytes width value) (zeros (size - length (to_be_bytes width value)))
            (omega arith)
          ∙ ap done
              (from_be_bytes-to_be_bytes (8 - length (to_be_bytes width value)) width value l),
    )

-- `From<i8>`, which is written out, agrees with the other signed types.
pub from_i8-eq-from_signed :
    (size : ℕ) (val : ℤ) → 0 < size → IsSigned 1 val → from_i8 size val ≡ from_signed size 1 val
unfolding from_i8 from_signed
from_i8-eq-from_signed size val h p = rw (
  to_be_bytes_byte (flip_sign 1 val) (flip_sign-lt 1 val (omega arith) p),
  write-zeros size (flip_sign 1 val ∷ []) (omega arith),
  new_from_slice_lem size (flip_sign 1 val ∷ []) (omega arith),
)

rest_zero : (a b : Bytes) (i m : ℕ) → a ++ (b ++ zeros i) ≡ a ++ zeros m → b ≡ zeros (length b)
rest_zero a b i m h =
    let e : b ++ zeros i ≡ zeros m =
      sym (drop-length_append a (b ++ zeros i))
      ∙ ap (drop (length a)) h
      ∙ drop-length_append a (zeros m) in
    let l : length b + length (zeros i) ≡ length (zeros m) =
      sym (length-append b (zeros i)) ∙ ap length e in
    sym (take-length_append b (zeros i))
    ∙ ap (take (length b)) e
    ∙ take-zeros (length b) m (omega (arith, length-zeros m))

cut_differs :
    (s : Bytes) (n i m : ℕ)
    → n ≤ length s
    → drop n s ≢ zeros (length s - n)
    → bytes_eq (s ++ zeros i) (take n s ++ zeros m) ≡ false
cut_differs s n i m l ne = elim (Bool-cases (bytes_eq (s ++ zeros i) (take n s ++ zeros m))) [
  | inl h ↦
      let e : take n s ++ (drop n s ++ zeros i) ≡ take n s ++ zeros m =
        sym (append_assoc (take n s) (drop n s) (zeros i))
        ∙ ap (λ q. q ++ zeros i) (take-append-drop n s)
        ∙ (bytes_eq_iff (s ++ zeros i) (take n s ++ zeros m)).0 h in
      absurd (ne (rest_zero (take n s) (drop n s) i m e ∙ ap zeros (length-drop n s)))
  | inr h ↦ h
]

room : (size : ℕ) (s : Bytes) → length s ≤ size → length s + length (zeros (size - length s)) ≡ size
room size s h = omega (arith, length-zeros (size - length s))

-- The derived equality tells a key that `truncate` has cut from the same key built anew, unless
-- all that was cut off is zero; `cmp` takes the two for equal.
pub eq-truncate :
    (size : ℕ) (s : Bytes) (n : ℕ)
    → length s ≤ size
    → n ≤ length s
    → drop n s ≢ zeros (length s - n)
    → (k cut new : ArrayKey) × (new_from_slice size s ≡ done k)
      × (truncate size k n ≡ done cut)
      × (new_from_slice size (take n s) ≡ done new)
      × (cmp cut new ≡ done Ordering.eq)
      × (eq cut new ≡ false)
unfolding eq
eq-truncate size s n h l ne = (
  fresh size s,
  record { bytes = s ++ zeros (size - length s); len = n },
  fresh size (take n s),
  new_from_slice_lem size s h,
  truncate_lem size s (zeros (size - length s)) (room size s h) n l,
  new_from_slice_lem size (take n s) (omega (arith, length-take {0} n s)),
  (array_key_keeps size).orders _ _ (take n s) (take n s)
        (Stands-truncate size s (zeros (size - length s)) (room size s h) n l)
        (Stands-fresh size (take n s) (omega (arith, length-take {0} n s)))
      ∙ ap done (bytes_cmp_self (take n s)),
  rw (cut_differs s n (size - length s) (size - length (take n s)) l ne),
)
