-- ===== src/Keys/Numbers/Laws.antt =====
-- Integers as bytes: the round trip, and the order.
use Prim.Native.Nat.{bit_xor, bit_xor-bitwise, digits, differ, compare, Ordering}
use native.Mathlib.Nat.{pow-suc}
use native.Mathlib.Numerals.{towards_suc}
use rart_rs.Prelude.{
  ℕ, zero, suc, ◌+◌, ◌-◌, ◌*◌, ◌/◌, ◌%◌, ◌^◌, ◌<◌, ◌≤◌, ◌≡◌, refl, sym, ◌∙◌, ap, [], ◌∷◌, ◌++◌,
  length, arith, length-append,
}
use rart_rs.Partials.{Bytes}
use rart_rs.Keys.Slices.{bytes_cmp, then_with, zeros}
use rart_rs.Keys.Numbers.{
  to_be_bytes, be_value, from_be_bytes, ℤ, pos, negsuc, IsSigned, compareℤ, as_unsigned, sign_bit,
  flip_sign,
}

pub length-to_be_bytes : (w v : ℕ) → length (to_be_bytes w v) ≡ w
unfolding to_be_bytes
length-to_be_bytes zero v = refl
length-to_be_bytes (suc w) v = omega (
  arith,
  length-append {0} (to_be_bytes w (v / 256)) (v % 256 ∷ []),
  length-to_be_bytes w (v / 256),
)

be_value-append :
    (acc : ℕ) (s : Bytes) (b : ℕ) → be_value acc (s ++ b ∷ []) ≡ be_value acc s * 256 + b
unfolding be_value
be_value-append acc [] b = refl
be_value-append acc (x ∷ s) b = be_value-append (acc * 256 + x) s b

be_value-zeros : (n : ℕ) (s : Bytes) → be_value 0 (zeros n ++ s) ≡ be_value 0 s
unfolding be_value
be_value-zeros zero s = refl
be_value-zeros (suc n) s = be_value-zeros n s

-- What a type of `w` bytes can hold is read back, also behind zero bytes.
be_value-to_be_bytes : (w v : ℕ) → v < 256 ^ w → be_value 0 (to_be_bytes w v) ≡ v
unfolding be_value to_be_bytes
be_value-to_be_bytes zero v h = omega arith
be_value-to_be_bytes (suc w) v h =
    be_value-append 0 (to_be_bytes w (v / 256)) (v % 256)
    ∙ omega (arith, be_value-to_be_bytes w (v / 256) (omega (arith, pow-suc 256 w)))

pub from_be_bytes-to_be_bytes :
    (n w v : ℕ) → v < 256 ^ w → from_be_bytes (zeros n ++ to_be_bytes w v) ≡ v
unfolding from_be_bytes
from_be_bytes-to_be_bytes n w v h = be_value-zeros n (to_be_bytes w v) ∙ be_value-to_be_bytes w v h

compare-eq : (a b : ℕ) → a ≡ b → compare a b ≡ Ordering.eq
compare-eq a b h = ground arith

bytes_cmp_nil : bytes_cmp [] [] ≡ Ordering.eq
unfolding bytes_cmp
bytes_cmp_nil = refl

then_with_assoc : (o p q : Ordering) → then_with (then_with o p) q ≡ then_with o (then_with p q)
then_with_assoc Ordering.lt p q = refl
then_with_assoc Ordering.eq p q = refl
then_with_assoc Ordering.gt p q = refl

bytes_cmp-append :
    (s t s' t' : Bytes)
    → length s ≡ length t
    → bytes_cmp (s ++ s') (t ++ t') ≡ then_with (bytes_cmp s t) (bytes_cmp s' t')
unfolding bytes_cmp
bytes_cmp-append [] [] s' t' h = refl
bytes_cmp-append [] (y ∷ t) s' t' h = absurd (omega arith)
bytes_cmp-append (x ∷ s) [] s' t' h = absurd (omega arith)
bytes_cmp-append (x ∷ s) (y ∷ t) s' t' h =
    ap (then_with (compare x y)) (bytes_cmp-append s t s' t' (omega arith))
    ∙ sym (then_with_assoc (compare x y) (bytes_cmp s t) (bytes_cmp s' t'))

compare_digits :
    (a b : ℕ) → compare a b ≡ then_with (compare (a / 256) (b / 256)) (compare (a % 256) (b % 256))
compare_digits a b = ground arith

bytes_cmp_last : (a b : ℕ) → bytes_cmp (a ∷ []) (b ∷ []) ≡ compare a b
unfolding bytes_cmp
bytes_cmp_last a b = ground arith

-- Big-endian bytes are ordered as the numbers are.
pub bytes_cmp-to_be_bytes :
    (w a b : ℕ)
    → a < 256 ^ w
    → b < 256 ^ w
    → bytes_cmp (to_be_bytes w a) (to_be_bytes w b) ≡ compare a b
unfolding to_be_bytes
bytes_cmp-to_be_bytes zero a b h k = bytes_cmp_nil ∙ sym (compare-eq a b (omega arith))
bytes_cmp-to_be_bytes (suc w) a b h k =
    bytes_cmp-append (to_be_bytes w (a / 256)) (to_be_bytes w (b / 256)) (a % 256 ∷ [])
      (b % 256 ∷ []) (length-to_be_bytes w (a / 256) ∙ sym (length-to_be_bytes w (b / 256)))
    ∙ rw (
      bytes_cmp-to_be_bytes w (a / 256) (b / 256) (omega (arith, pow-suc 256 w))
          (omega (arith, pow-suc 256 w)),
      bytes_cmp_last (a % 256) (b % 256),
      compare_digits a b,
    )

abbrev xor_digits : ℕ → ℕ → ℕ → ℕ
xor_digits n a b = digits (λ d. d) differ n a b

xor_digits_fuel : (n m a b : ℕ) → a ≤ n → a ≤ m → xor_digits n a b ≡ xor_digits m a b
xor_digits_fuel zero zero a b p q = refl
xor_digits_fuel zero (suc m) zero b p q = refl
xor_digits_fuel zero (suc m) (suc a) b p q = absurd (omega arith)
xor_digits_fuel (suc n) zero zero b p q = refl
xor_digits_fuel (suc n) zero (suc a) b p q = absurd (omega arith)
xor_digits_fuel (suc n) (suc m) zero b p q = refl
xor_digits_fuel (suc n) (suc m) (suc a) b p q =
    omega (arith, xor_digits_fuel n m (suc a / 2) (b / 2) (omega arith) (omega arith))

zero-bit_xor : (b : ℕ) → bit_xor 0 b ≡ b
zero-bit_xor b = bit_xor-bitwise 0 b

bit_xor_step : (a b : ℕ) → bit_xor a b ≡ bit_xor (a / 2) (b / 2) * 2 + differ (a % 2) (b % 2)
bit_xor_step zero b = omega (arith, zero-bit_xor b, zero-bit_xor (b / 2))
bit_xor_step (suc a) b = omega (
  arith,
  bit_xor-bitwise (suc a) b,
  bit_xor-bitwise (suc a / 2) (b / 2),
  xor_digits_fuel a (suc a / 2) (suc a / 2) (b / 2) (omega arith) (omega arith),
)

differ-zero : (d : ℕ) → differ d 0 ≡ d
differ-zero zero = refl
differ-zero (suc d) = refl

bit_xor-double : (a p q : ℕ) → p ≡ q * 2 → bit_xor a p ≡ bit_xor (a / 2) q * 2 + a % 2
bit_xor-double a p q h =
    let half : p / 2 ≡ q = omega arith in
    let even : p % 2 ≡ 0 = omega arith in rw (bit_xor_step a p, half, even, differ-zero (a % 2))

-- Flipping the highest of k + 1 bits.
bit_xor_low : (k v : ℕ) → v < 2 ^ k → bit_xor v (2 ^ k) ≡ v + 2 ^ k
bit_xor_low zero v h = rw (let e : v ≡ 0 = omega arith in e)
bit_xor_low (suc k) v h = omega (
  arith,
  bit_xor-double v (2 ^ suc k) (2 ^ k) (pow-suc 2 k),
  pow-suc 2 k,
  bit_xor_low k (v / 2) (omega (arith, pow-suc 2 k)),
)

bit_xor_high : (k v : ℕ) → v < 2 ^ k → bit_xor (v + 2 ^ k) (2 ^ k) ≡ v
bit_xor_high zero v h = rw (let e : v ≡ 0 = omega arith in e)
bit_xor_high (suc k) v h =
    let half : (v + 2 ^ suc k) / 2 ≡ v / 2 + 2 ^ k = omega (arith, pow-suc 2 k) in
    omega (
      arith,
      bit_xor-double (v + 2 ^ suc k) (2 ^ suc k) (2 ^ k) (pow-suc 2 k),
      pow-suc 2 k,
      ap (λ m. bit_xor m (2 ^ k)) half,
      bit_xor_high k (v / 2) (omega (arith, pow-suc 2 k)),
    )

-- The bytes of a signed number, as a number: the least is 0.
flip_sign-pos : (w n : ℕ) → n < 2 ^ (w * 8 - 1) → flip_sign w (pos n) ≡ n + 2 ^ (w * 8 - 1)
unfolding flip_sign as_unsigned sign_bit
flip_sign-pos w n h = bit_xor_low (w * 8 - 1) n h

two_halves : (w : ℕ) → 0 < w → 2 ^ (w * 8) ≡ 2 ^ (w * 8 - 1) * 2
two_halves w h =
    ap (λ m. 2 ^ m) (let e : w * 8 ≡ suc (w * 8 - 1) = omega arith in e) ∙ pow-suc 2 (w * 8 - 1)

flip_sign-negsuc :
    (w n : ℕ) → 0 < w → n < 2 ^ (w * 8 - 1) → flip_sign w (negsuc n) ≡ 2 ^ (w * 8 - 1) - 1 - n
unfolding flip_sign as_unsigned sign_bit
flip_sign-negsuc w n h k =
    ap (λ m. bit_xor m (2 ^ (w * 8 - 1)))
      (let e : 2 ^ (w * 8) - 1 - n ≡ 2 ^ (w * 8 - 1) - 1 - n + 2 ^ (w * 8 - 1) =
          omega (arith, two_halves w h) in
        e)
    ∙ bit_xor_high (w * 8 - 1) (2 ^ (w * 8 - 1) - 1 - n) (omega arith)

pow-add_eight : (n : ℕ) → 2 ^ (n + 8) ≡ 2 ^ n * 256
pow-add_eight n = simp towards_suc (omega arith)

pow_bytes : (w : ℕ) → 2 ^ (w * 8) ≡ 256 ^ w
pow_bytes zero = refl
pow_bytes (suc w) =
    ap (λ m. 2 ^ m) (let e : suc w * 8 ≡ w * 8 + 8 = omega arith in e)
    ∙ pow-add_eight (w * 8)
    ∙ omega (arith, pow_bytes w, pow-suc 256 w)

pub flip_sign-lt : (w : ℕ) (z : ℤ) → 0 < w → IsSigned w z → flip_sign w z < 256 ^ w
flip_sign-lt w (pos n) h k = omega (arith, flip_sign-pos w n k, two_halves w h, pow_bytes w)
flip_sign-lt w (negsuc n) h k = omega (arith, flip_sign-negsuc w n h k, two_halves w h, pow_bytes w)

compare-flip_sign :
    (w : ℕ) (y z : ℤ)
    → 0 < w
    → IsSigned w y
    → IsSigned w z
    → compare (flip_sign w y) (flip_sign w z) ≡ compareℤ y z
unfolding compareℤ
compare-flip_sign w (pos m) (pos n) h p q =
    rw (flip_sign-pos w m p, flip_sign-pos w n q) (ground arith)
compare-flip_sign w (pos m) (negsuc n) h p q =
    rw (flip_sign-pos w m p, flip_sign-negsuc w n h q) (ground arith)
compare-flip_sign w (negsuc m) (pos n) h p q =
    rw (flip_sign-negsuc w m h p, flip_sign-pos w n q) (ground arith)
compare-flip_sign w (negsuc m) (negsuc n) h p q =
    rw (flip_sign-negsuc w m h p, flip_sign-negsuc w n h q) (ground arith)

pub to_be_bytes_byte : (v : ℕ) → v < 256 → to_be_bytes 1 v ≡ v ∷ []
unfolding to_be_bytes
to_be_bytes_byte v h = ap (λ b. b ∷ []) (let e : v % 256 ≡ v = omega arith in e)

-- With the sign bit flipped, the big-endian bytes of signed integers are ordered as the integers are.
pub bytes_cmp-flip_sign :
    (w : ℕ) (y z : ℤ)
    → 0 < w
    → IsSigned w y
    → IsSigned w z
    → bytes_cmp (to_be_bytes w (flip_sign w y)) (to_be_bytes w (flip_sign w z)) ≡ compareℤ y z
bytes_cmp-flip_sign w y z h p q =
    bytes_cmp-to_be_bytes w (flip_sign w y) (flip_sign w z) (flip_sign-lt w y h p)
      (flip_sign-lt w z h q)
    ∙ compare-flip_sign w y z h p q
