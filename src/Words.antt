-- ===== src/Words.antt =====
-- The common length of two byte strings, word by word (`prefix_length_bytes` of
-- rart/src/partials/mod.rs). A u64 is its eight bytes, in the little-endian order in which
-- `from_ne_bytes` reads them.
use Prim.Native.Nat.{bit_xor, bit_xor-bitwise, digits, differ}
use rart_rs.Prelude.{
  ℕ, zero, suc, ◌+◌, ◌*◌, ◌/◌, ◌%◌, ◌≤◌, ◌<◌, min, ◌≡◌, ◌≢◌, refl, sym, ◌∙◌, Bool, true, false,
  ◌&&◌, List, [], ◌∷◌, length, take, drop, ◌==◌, if◌then◌else◌, arith, inl, inr, eq_or_ne, ==-ne,
  ap, Bool-cases, length-take, length-drop,
}

-- The number of leading positions at which two byte strings agree.
unfoldable pub common_length : List ℕ → List ℕ → ℕ
common_length [] ys = 0
common_length (x ∷ xs) [] = 0
common_length (x ∷ xs) (y ∷ ys) = if x == y then suc (common_length xs ys) else 0

-- `lhs_word ^ rhs_word`.
xor_words : List ℕ → List ℕ → List ℕ
xor_words [] ys = []
xor_words (x ∷ xs) [] = []
xor_words (x ∷ xs) (y ∷ ys) = bit_xor x y ∷ xor_words xs ys

is_zero : List ℕ → Bool
is_zero [] = true
is_zero (b ∷ bs) = b == 0 && is_zero bs

-- The trailing zeros of a byte that is not zero, at most seven.
trailing_zeros_byte : ℕ → ℕ → ℕ
trailing_zeros_byte zero b = 0
trailing_zeros_byte (suc n) b = if b % 2 == 1 then 0 else suc (trailing_zeros_byte n (b / 2))

trailing_zeros : List ℕ → ℕ
trailing_zeros [] = 0
trailing_zeros (b ∷ bs) = if b == 0 then 8 + trailing_zeros bs else trailing_zeros_byte 7 b

-- The loop over the bytes that no word covers; both slices have the same length.
bytes_loop : List ℕ → List ℕ → ℕ
bytes_loop [] rhs = 0
bytes_loop (x ∷ lhs) [] = 0
bytes_loop (x ∷ lhs) (y ∷ rhs) = if x == y then suc (bytes_loop lhs rhs) else 0

-- `words` more words are compared.
words_loop : ℕ → List ℕ → List ℕ → ℕ
words_loop zero lhs rhs = bytes_loop lhs rhs
words_loop (suc words) lhs rhs =
    let diff = xor_words (take 8 lhs) (take 8 rhs) in
    if is_zero diff then 8 + words_loop words (drop 8 lhs) (drop 8 rhs) else trailing_zeros diff / 8

pub prefix_length_bytes : List ℕ → List ℕ → ℕ
prefix_length_bytes lhs rhs =
    let len = min (length lhs) (length rhs) in words_loop (len / 8) (take len lhs) (take len rhs)

differ-eq_zero : (x y : ℕ) → differ x y ≡ 0 → x ≡ y
differ-eq_zero zero y h = sym h
differ-eq_zero (suc x) zero h = absurd (omega arith)
differ-eq_zero (suc x) (suc y) h = ap suc (differ-eq_zero x y h)

differ_self : (x : ℕ) → differ x x ≡ 0
differ_self zero = refl
differ_self (suc x) = differ_self x

digits-eq_zero : (n a b : ℕ) → a ≤ n → digits (λ d. d) differ n a b ≡ 0 → a ≡ b
digits-eq_zero zero zero b p h = sym h
digits-eq_zero zero (suc a) b p h = absurd (omega arith)
digits-eq_zero (suc n) zero b p h = sym h
digits-eq_zero (suc n) (suc a) b p h = omega (
  arith,
  digits-eq_zero n (suc a / 2) (b / 2) (omega arith) (omega arith),
  differ-eq_zero (suc a % 2) (b % 2) (omega arith),
)

digits_self : (n a : ℕ) → a ≤ n → digits (λ d. d) differ n a a ≡ 0
digits_self zero zero p = refl
digits_self zero (suc a) p = absurd (omega arith)
digits_self (suc n) zero p = refl
digits_self (suc n) (suc a) p =
    omega (arith, digits_self n (suc a / 2) (omega arith), differ_self (suc a % 2))

-- Exclusive or is zero exactly on equal numbers.
bit_xor-eq_zero : (a b : ℕ) → bit_xor a b ≡ 0 → a ≡ b
bit_xor-eq_zero a b h = digits-eq_zero a a b (omega arith) (sym (bit_xor-bitwise a b) ∙ h)

bit_xor_self : (a : ℕ) → bit_xor a a ≡ 0
bit_xor_self a = bit_xor-bitwise a a ∙ digits_self a a (omega arith)

trailing_zeros_byte-le : (n b : ℕ) → trailing_zeros_byte n b ≤ n
unfolding trailing_zeros_byte
trailing_zeros_byte-le zero b = omega arith
trailing_zeros_byte-le (suc n) b = ground (arith, trailing_zeros_byte-le n (b / 2))

-- The bytes of the difference are zero as far as the words agree.
is_zero-xor_words :
    (xs ys : List ℕ)
    → is_zero (xor_words xs ys) ≡ true
    → common_length xs ys ≡ min (length xs) (length ys)
unfolding is_zero xor_words common_length
is_zero-xor_words [] ys h = omega arith
is_zero-xor_words (x ∷ xs) [] h = omega arith
is_zero-xor_words (x ∷ xs) (y ∷ ys) h =
    ground (arith, is_zero-xor_words xs ys, bit_xor-eq_zero x y, bit_xor_self x)

trailing_zeros_zero :
    (b : ℕ) (bs : List ℕ) → b ≡ 0 → trailing_zeros (b ∷ bs) ≡ 8 + trailing_zeros bs
unfolding trailing_zeros
trailing_zeros_zero b bs h = rw h

trailing_zeros_head : (b : ℕ) (bs : List ℕ) → b ≢ 0 → trailing_zeros (b ∷ bs) ≤ 7
unfolding trailing_zeros
trailing_zeros_head b bs h = rw (==-ne b 0 h) (trailing_zeros_byte-le 7 b)

common_length_same :
    (x y : ℕ) (xs ys : List ℕ) → x ≡ y → common_length (x ∷ xs) (y ∷ ys) ≡ suc (common_length xs ys)
unfolding common_length
common_length_same x y xs ys h = ground arith

common_length_ne : (x y : ℕ) (xs ys : List ℕ) → x ≢ y → common_length (x ∷ xs) (y ∷ ys) ≡ 0
unfolding common_length
common_length_ne x y xs ys h = ground arith

-- A word with a first byte that is zero.
is_zero_tail : (b : ℕ) (bs : List ℕ) → b ≡ 0 → is_zero (b ∷ bs) ≡ false → is_zero bs ≡ false
unfolding is_zero
is_zero_tail b bs e h = rw e at h

-- The trailing zeros of a difference lie in its first byte that is not zero.
trailing_zeros-xor_words :
    (xs ys : List ℕ)
    → is_zero (xor_words xs ys) ≡ false
    → (common_length xs ys * 8 ≤ trailing_zeros (xor_words xs ys))
      × (trailing_zeros (xor_words xs ys) < common_length xs ys * 8 + 8)
unfolding xor_words is_zero
trailing_zeros-xor_words [] ys h = cc
trailing_zeros-xor_words (x ∷ xs) [] h = cc
trailing_zeros-xor_words (x ∷ xs) (y ∷ ys) h = elim (eq_or_ne (bit_xor x y) 0) [
  | inl e ↦ omega (
    arith,
    trailing_zeros_zero (bit_xor x y) (xor_words xs ys) e,
    common_length_same x y xs ys (bit_xor-eq_zero x y e),
    trailing_zeros-xor_words xs ys (is_zero_tail (bit_xor x y) (xor_words xs ys) e h),
  )
  | inr n ↦ omega (
    arith,
    trailing_zeros_head (bit_xor x y) (xor_words xs ys) n,
    common_length_ne x y xs ys (λ e. n (rw e (bit_xor_self y))),
  )
]

common_length-lt :
    (xs ys : List ℕ) → is_zero (xor_words xs ys) ≡ false → common_length xs ys < length xs
unfolding xor_words is_zero
common_length-lt [] ys h = cc
common_length-lt (x ∷ xs) [] h = cc
common_length-lt (x ∷ xs) (y ∷ ys) h = elim (eq_or_ne (bit_xor x y) 0) [
  | inl e ↦ omega (
    arith,
    common_length_same x y xs ys (bit_xor-eq_zero x y e),
    common_length-lt xs ys (is_zero_tail (bit_xor x y) (xor_words xs ys) e h),
  )
  | inr n ↦ omega (arith, common_length_ne x y xs ys (λ e. n (rw e (bit_xor_self y))))
]

pub common_length-le :
    (p s : List ℕ) → (common_length p s ≤ length p) × (common_length p s ≤ length s)
unfolding common_length
common_length-le [] s = omega arith
common_length-le (x ∷ p) [] = omega arith
common_length-le (x ∷ p) (y ∷ s) = ground (arith, common_length-le p s)

common_length-take-drop :
    (n : ℕ) (p s : List ℕ)
    → common_length (take n p) (take n s) ≡ n
    → common_length p s ≡ n + common_length (drop n p) (drop n s)
unfolding common_length
common_length-take-drop zero p s h = omega arith
common_length-take-drop (suc n) [] s h = absurd (omega arith)
common_length-take-drop (suc n) (x ∷ p) [] h = absurd (omega arith)
common_length-take-drop (suc n) (x ∷ p) (y ∷ s) h = ground (arith, common_length-take-drop n p s)

pub common_length-take :
    (n : ℕ) (p s : List ℕ) → common_length (take n p) (take n s) ≡ min n (common_length p s)
unfolding common_length
common_length-take zero p s = omega arith
common_length-take (suc n) [] s = omega arith
common_length-take (suc n) (x ∷ p) [] = omega arith
common_length-take (suc n) (x ∷ p) (y ∷ s) = ground (arith, common_length-take n p s)

bytes_loop-eq : (lhs rhs : List ℕ) → bytes_loop lhs rhs ≡ common_length lhs rhs
unfolding bytes_loop common_length
bytes_loop-eq [] rhs = refl
bytes_loop-eq (x ∷ lhs) [] = refl
bytes_loop-eq (x ∷ lhs) (y ∷ rhs) = ground (arith, bytes_loop-eq lhs rhs)

words_loop-eq :
    (words : ℕ) (lhs rhs : List ℕ)
    → words * 8 ≤ length lhs
    → words * 8 ≤ length rhs
    → words_loop words lhs rhs ≡ common_length lhs rhs
unfolding words_loop
words_loop-eq zero lhs rhs p q = bytes_loop-eq lhs rhs
words_loop-eq (suc words) lhs rhs p q =
    elim (Bool-cases (is_zero (xor_words (take 8 lhs) (take 8 rhs)))) [
      | inl z ↦
          let whole : common_length (take 8 lhs) (take 8 rhs) ≡ 8 = omega (
            arith,
            is_zero-xor_words (take 8 lhs) (take 8 rhs) z,
            length-take 8 lhs,
            length-take 8 rhs,
          ) in
          rw z (
            omega (
              arith,
              common_length-take-drop 8 lhs rhs whole,
              words_loop-eq words (drop 8 lhs) (drop 8 rhs) (omega (arith, length-drop 8 lhs))
                  (omega (arith, length-drop 8 rhs)),
            ))
      | inr n ↦ rw n (
          omega (
            arith,
            trailing_zeros-xor_words (take 8 lhs) (take 8 rhs) n,
            common_length-take 8 lhs rhs,
            common_length-lt (take 8 lhs) (take 8 rhs) n,
            length-take 8 lhs,
          ))
    ]

-- Words are compared as far as they agree and there are eight bytes left, then bytes: the result is
-- the number of leading positions at which the two byte strings agree.
pub prefix_length_bytes-eq_common :
    (lhs rhs : List ℕ) → prefix_length_bytes lhs rhs ≡ common_length lhs rhs
unfolding prefix_length_bytes
prefix_length_bytes-eq_common lhs rhs =
    let len = min (length lhs) (length rhs) in
    omega (
      arith,
      words_loop-eq (len / 8) (take len lhs) (take len rhs) (omega (arith, length-take len lhs))
          (omega (arith, length-take len rhs)),
      common_length-take len lhs rhs,
      common_length-le lhs rhs,
    )
