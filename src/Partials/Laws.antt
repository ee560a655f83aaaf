-- ===== src/Partials/Laws.antt =====
-- How a prefix and the rest of a key can lie to one another, and what the byte string operations
-- compute in each case. A key is written `pre ++ rest` with the depth `length pre`.
use rart_rs.Prelude.{
  ◌∙◌, append-nil, ℕ, suc, ◌+◌, ◌≤◌, min, ◌≡◌, ◌≢◌, refl, ap, true, false, Option, none, some, [],
  ◌∷◌, ◌++◌, length, take, drop, leb, ◌==◌, ==_refl, ==-ne, if◌then◌else◌, done, arith,
  length-append, drop-length_append, drop-drop, get_elem?-drop, inl, inr, eq_or_ne,
}
use rart_rs.Words.{
  prefix_length_bytes, prefix_length_bytes-eq_common, common_length, common_length-take,
  common_length-le,
}
use rart_rs.Partials.{
  Bytes, prefix_length_slice, prefix_length_key, slice_from, at, length_at, to_partial,
}

pub data Align (p rest : Bytes) : Type 0 where
  same : rest ≡ p → Align p rest
  below : (e : ℕ) (s : Bytes) → rest ≡ p ++ e ∷ s → Align p rest
  above : (e : ℕ) (q : Bytes) → p ≡ rest ++ e ∷ q → Align p rest
  fork :
      (c : Bytes) (a b : ℕ) (q s : Bytes)
      → a ≢ b
      → p ≡ c ++ a ∷ q
      → rest ≡ c ++ b ∷ s
      → Align p rest

Align-cons : (x : ℕ) (p rest : Bytes) → Align p rest → Align (x ∷ p) (x ∷ rest)
Align-cons x p rest (same h) = same (ap (λ l. x ∷ l) h)
Align-cons x p rest (below e s h) = below e s (ap (λ l. x ∷ l) h)
Align-cons x p rest (above e q h) = above e q (ap (λ l. x ∷ l) h)
Align-cons x p rest (fork c a b q s n h k) =
    fork (x ∷ c) a b q s n (ap (λ l. x ∷ l) h) (ap (λ l. x ∷ l) k)

pub align : (p rest : Bytes) → Align p rest
align [] [] = same refl
align [] (y ∷ ys) = below y ys refl
align (x ∷ xs) [] = above x xs refl
align (x ∷ xs) (y ∷ ys) = elim (eq_or_ne x y) [
  | inl e ↦ rw (← e) (Align-cons x xs ys (align xs ys))
  | inr n ↦ fork [] x y xs ys n refl refl
]

-- The reference: the first string is a prefix of the second, and what follows it.
unfoldable pub strip : Bytes → Bytes → Option Bytes
strip [] s = some s
strip (x ∷ p) [] = none
strip (x ∷ p) (y ∷ s) = if x == y then strip p s else none

module _ where
  pub common_length-append :
      (c p s : Bytes) → common_length (c ++ p) (c ++ s) ≡ length c + common_length p s
  unfolding common_length
  common_length-append [] p s = omega arith
  common_length-append (x ∷ c) p s = rw (==_refl x) (omega (arith, common_length-append c p s))

  common_length-nil : (p : Bytes) → common_length p [] ≡ 0
  unfolding common_length
  common_length-nil [] = refl
  common_length-nil (x ∷ p) = refl

-- Clipping both sides to the shorter length changes nothing.
pub prefix_length_slice-eq_common : (p s : Bytes) → prefix_length_slice p s ≡ common_length p s
unfolding prefix_length_slice
prefix_length_slice-eq_common p s =
    let len = min (length p) (length s) in
    omega (
      arith,
      prefix_length_bytes-eq_common (take len p) (take len s),
      common_length-take len p s,
      common_length-le p s,
    )

-- At the depth at which `rest` begins, each operation on the key is one on `rest`.
module _ (pre rest : Bytes) where
  depth_le : leb (length pre) (length (pre ++ rest)) ≡ true
  depth_le = ground (arith, length-append pre rest)

  pub slice_from-append : slice_from (pre ++ rest) (length pre) ≡ done rest
  slice_from-append = rw (depth_le, drop-length_append)

  pub length_at-append : length_at (pre ++ rest) (length pre) ≡ done (length rest)
  length_at-append = rw depth_le (ap done (omega (arith, length-append pre rest)))

  pub at-append : (n : ℕ) → at (pre ++ rest) (length pre + n) ≡ at rest n
  at-append n = rw (← get_elem?-drop (length pre) n (pre ++ rest), drop-length_append)

  add_le_leb : (n : ℕ) → n ≤ length rest → leb (length pre + n) (length (pre ++ rest)) ≡ true
  add_le_leb n h = ground (arith, length-append pre rest)

  pub to_partial-append :
      (n : ℕ) → n ≤ length rest → to_partial (pre ++ rest) (length pre + n) ≡ done (drop n rest)
  to_partial-append n h =
      rw (add_le_leb n h, ← drop-drop (length pre) n (pre ++ rest), drop-length_append)

  clip : (p : Bytes) → leb (min (length p) (length rest)) (length rest) ≡ true
  clip p = ground arith

  clipped :
      (p : Bytes)
      → prefix_length_bytes
          (take (min (length p) (length rest)) p)
          (take (min (length p) (length rest)) rest)
        ≡ common_length p rest
  unfolding prefix_length_slice
  clipped p = prefix_length_slice-eq_common p rest

  pub prefix_length_key-append :
      (p : Bytes) → prefix_length_key p (pre ++ rest) (length pre) ≡ done (common_length p rest)
  unfolding prefix_length_key
  prefix_length_key-append p = rw (length_at-append, slice_from-append, clip p, clipped p)

-- What the common length is, and what `take`, `drop` and `strip` give, in terms of a split.
pub common_length_self : (p : Bytes) → common_length p p ≡ length p
unfolding common_length
common_length_self [] = refl
common_length_self (x ∷ p) = rw (==_refl x) (ap suc (common_length_self p))

pub common_length-below : (p s : Bytes) → common_length p (p ++ s) ≡ length p
unfolding common_length
common_length-below [] s = refl
common_length-below (x ∷ p) s = rw (==_refl x) (ap suc (common_length-below p s))

pub common_length-above : (p s : Bytes) → common_length (p ++ s) p ≡ length p
unfolding common_length
common_length-above [] s = common_length-nil s
common_length-above (x ∷ p) s = rw (==_refl x) (ap suc (common_length-above p s))

pub common_length-fork :
    (c : Bytes) (a b : ℕ) (q s : Bytes) → a ≢ b → common_length (c ++ a ∷ q) (c ++ b ∷ s) ≡ length c
unfolding common_length
common_length-fork c a b q s n =
    rw (common_length-append c (a ∷ q) (b ∷ s), ==-ne a b n) (omega arith)

pub strip-append :
    (p q s : Bytes) → strip (p ++ q) s ≡ (elim (strip p s) [ none ↦ none | some r ↦ strip q r ])
unfolding strip
strip-append [] q s = refl
strip-append (x ∷ p) q [] = refl
strip-append (x ∷ p) q (y ∷ s) = ground (arith, strip-append p q s)

pub strip-below : (p s : Bytes) → strip p (p ++ s) ≡ some s
unfolding strip
strip-below [] s = refl
strip-below (x ∷ p) s = rw (==_refl x) (strip-below p s)

-- `strip` finds exactly the decompositions.
pub strip-eq_some : (p s r : Bytes) → strip p s ≡ some r → s ≡ p ++ r
unfolding strip
strip-eq_some [] s r h = cc
strip-eq_some (x ∷ p) [] r h = cc
strip-eq_some (x ∷ p) (y ∷ s) r h = ground (arith, strip-eq_some p s r)

pub strip_self : (p : Bytes) → strip p p ≡ some []
unfolding strip
strip_self [] = refl
strip_self (x ∷ p) = rw (==_refl x) (strip_self p)

pub strip-above : (p : Bytes) (e : ℕ) (q : Bytes) → strip (p ++ e ∷ q) p ≡ none
unfolding strip
strip-above [] e q = refl
strip-above (x ∷ p) e q = rw (==_refl x) (strip-above p e q)

pub strip-fork :
    (c : Bytes) (a b : ℕ) (q s : Bytes) → a ≢ b → strip (c ++ a ∷ q) (c ++ b ∷ s) ≡ none
unfolding strip
strip-fork [] a b q s n = rw (==-ne a b n)
strip-fork (x ∷ c) a b q s n = rw (==_refl x) (strip-fork c a b q s n)

-- The common length decides whether the prefix can be taken off.
pub prefix_length_slice-strip :
    (p s : Bytes)
    → (prefix_length_slice p s == length p) ≡ (elim (strip p s) [ none ↦ false | some r ↦ true ])
unfolding strip common_length
prefix_length_slice-strip p s = rw (prefix_length_slice-eq_common p s) (strip_test p s)
  where
    strip_test :
        (q t : Bytes)
        → (common_length q t == length q) ≡ (elim (strip q t) [ none ↦ false | some r ↦ true ])
    strip_test [] t = refl
    strip_test (x ∷ q) [] = ground arith
    strip_test (x ∷ q) (y ∷ t) = ground (arith, strip_test q t)

pub at_end : (p : Bytes) (e : ℕ) (s : Bytes) → at (p ++ e ∷ s) (length p) ≡ done e
at_end [] e s = refl
at_end (x ∷ p) e s = at_end p e s

-- The byte behind a prefix that the rest of the key has.
pub at_edge :
    (pre p : Bytes) (e : ℕ) (s : Bytes) → at (pre ++ (p ++ e ∷ s)) (length pre + length p) ≡ done e
at_edge pre p e s = at-append pre (p ++ e ∷ s) (length p) ∙ at_end p e s

-- Whether the rest of a key has a prefix, and whether it ends with it.
pub data Stripped (p rest : Bytes) : Type 0 where
  missing : strip p rest ≡ none → Stripped p rest
  ends : rest ≡ p → Stripped p rest
  goes_on : (e : ℕ) (s : Bytes) → rest ≡ p ++ e ∷ s → Stripped p rest

pub stripped : (p rest : Bytes) → Stripped p rest
stripped p rest = go (strip p rest) refl
  where
    go : (o : Option Bytes) → strip p rest ≡ o → Stripped p rest
    go none h = missing h
    go (some []) h = ends (strip-eq_some p rest [] h ∙ append-nil p)
    go (some (e ∷ s)) h = goes_on e s (strip-eq_some p rest (e ∷ s) h)

pub length-ne_below : (p : Bytes) (e : ℕ) (s : Bytes) → (length p == length (p ++ e ∷ s)) ≡ false
length-ne_below p e s = ground (arith, length-append p (e ∷ s))
