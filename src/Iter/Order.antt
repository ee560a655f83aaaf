-- ===== src/Iter/Order.antt =====
-- `key_order` of rart/src/iter.rs, which reads two keys byte by byte, is the order of byte strings, and
-- that order is total and transitive.
use Prim.Native.Nat.{compare, Ordering}
use rart_rs.Prelude.{
  ℕ, zero, suc, ◌-◌, ◌<◌, ◌≡◌, min, refl, ◌∙◌, ap, Bool, true, [], ◌∷◌, ◌++◌, append_assoc, length,
  length-append, done, arith, leb,
}
use rart_rs.Partials.{Bytes, at}
use rart_rs.Partials.Laws.{at_end}
use rart_rs.Keys.Slices.{bytes_cmp, then_with}
use rart_rs.Iter.{
  Bound, included, excluded, unbounded, key_order_loop, key_order, satisfies_start, at_least,
  is_above,
}

loop_lem :
    (pre pre' s t : Bytes) (n i : ℕ) (o : Ordering)
    → i ≡ length pre
    → i ≡ length pre'
    → n ≡ min (length s) (length t)
    → o ≡ compare (length s) (length t)
    → key_order_loop n (pre ++ s) (pre' ++ t) i o ≡ done (bytes_cmp s t)
unfolding key_order_loop bytes_cmp
loop_lem pre pre' [] [] zero i o a b h c = ap done c
loop_lem pre pre' [] (y ∷ t) zero i o a b h c = ap done (c ∙ ground arith)
loop_lem pre pre' (x ∷ s) [] zero i o a b h c = ap done (c ∙ ground arith)
loop_lem pre pre' (x ∷ s) (y ∷ t) zero i o a b h c = absurd (omega arith)
loop_lem pre pre' [] t (suc n) i o a b h c = absurd (omega arith)
loop_lem pre pre' (x ∷ s) [] (suc n) i o a b h c = absurd (omega arith)
loop_lem pre pre' (x ∷ s) (y ∷ t) (suc n) i o a b h c =
    let at_x : at (pre ++ x ∷ s) i ≡ done x = rw a (at_end pre x s) in
    let at_y : at (pre' ++ y ∷ t) i ≡ done y = rw b (at_end pre' y t) in
    let rest : key_order_loop n (pre ++ x ∷ s) (pre' ++ y ∷ t) (suc i) o ≡ done (bytes_cmp s t) =
      rw (append_assoc pre (x ∷ []) s, append_assoc pre' (y ∷ []) t) at
        (loop_lem (pre ++ x ∷ []) (pre' ++ y ∷ []) s t n (suc i) o
          (omega (arith, length-append pre (x ∷ []))) (omega (arith, length-append pre' (y ∷ [])))
          (omega arith) (ground arith)) in
    rw (at_x, at_y) (branch (compare x y) rest)
  where
    branch :
        (o' : Ordering)
        → key_order_loop n (pre ++ x ∷ s) (pre' ++ y ∷ t) (suc i) o ≡ done (bytes_cmp s t)
        → (elim o' [
          | Ordering.eq ↦ key_order_loop n (pre ++ x ∷ s) (pre' ++ y ∷ t) (suc i) o
          | ord ↦ done ord
        ])
          ≡ done (then_with o' (bytes_cmp s t))
    branch Ordering.lt e = refl
    branch Ordering.eq e = e
    branch Ordering.gt e = refl

pub key_order_lem : (lhs rhs : Bytes) → key_order lhs rhs ≡ done (bytes_cmp lhs rhs)
unfolding key_order
key_order_lem lhs rhs =
    rw (zero_leb (length lhs), zero_leb (length rhs), sub_zero (length lhs), sub_zero (length rhs))
      (loop_lem [] [] lhs rhs (min (length lhs) (length rhs)) 0 (compare (length lhs) (length rhs))
        refl refl refl refl)
  where
    zero_leb : (n : ℕ) → leb 0 n ≡ true
    zero_leb n = ground arith

    sub_zero : (n : ℕ) → n - 0 ≡ n
    sub_zero n = omega arith

-- Whether a key is at the bound or behind it, as a test.
unfoldable pub meets : Bound → Bytes → Bool
meets (included b) key = at_least (bytes_cmp key b)
meets (excluded b) key = is_above (bytes_cmp key b)
meets unbounded key = true

pub satisfies_start-eq_meets :
    (b : Bound) (key : Bytes) → satisfies_start b key ≡ done (meets b key)
unfolding satisfies_start meets
satisfies_start-eq_meets (included b) key = rw (key_order_lem key b)
satisfies_start-eq_meets (excluded b) key = rw (key_order_lem key b)
satisfies_start-eq_meets unbounded key = refl

-- `s` is before `t`.
abbrev pub Precedes : Bytes → Bytes → Type 0
Precedes s t = bytes_cmp s t ≡ Ordering.lt

pub Precedes-under : (p s t : Bytes) → Precedes s t → Precedes (p ++ s) (p ++ t)
unfolding bytes_cmp
Precedes-under [] s t h = h
Precedes-under (x ∷ p) s t h = ground (arith, Precedes-under p s t h)

pub Precedes-below : (p : Bytes) (e : ℕ) (s : Bytes) → Precedes p (p ++ e ∷ s)
unfolding bytes_cmp
Precedes-below [] e s = refl
Precedes-below (x ∷ p) e s = ground (arith, Precedes-below p e s)

pub Precedes-fork : (x y : ℕ) (s t : Bytes) → x < y → Precedes (x ∷ s) (y ∷ t)
unfolding bytes_cmp
Precedes-fork x y s t h = ground arith

-- A key behind one that meets a start bound meets it.
pub Precedes-trans : (s t u : Bytes) → Precedes s t → Precedes t u → Precedes s u
unfolding bytes_cmp
Precedes-trans [] [] u h k = cc
Precedes-trans [] (y ∷ t) [] h k = cc
Precedes-trans [] (y ∷ t) (z ∷ u) h k = refl
Precedes-trans (x ∷ s) [] u h k = cc
Precedes-trans (x ∷ s) (y ∷ t) [] h k = cc
Precedes-trans (x ∷ s) (y ∷ t) (z ∷ u) h k = ground (arith, Precedes-trans s t u)

pub bytes_cmp-eq : (s t : Bytes) → bytes_cmp s t ≡ Ordering.eq → s ≡ t
unfolding bytes_cmp
bytes_cmp-eq [] [] h = refl
bytes_cmp-eq [] (y ∷ t) h = cc
bytes_cmp-eq (x ∷ s) [] h = cc
bytes_cmp-eq (x ∷ s) (y ∷ t) h = ground (arith, bytes_cmp-eq s t)

pub bytes_cmp-gt : (s t : Bytes) → bytes_cmp s t ≡ Ordering.gt → Precedes t s
unfolding bytes_cmp
bytes_cmp-gt [] [] h = cc
bytes_cmp-gt [] (y ∷ t) h = cc
bytes_cmp-gt (x ∷ s) [] h = refl
bytes_cmp-gt (x ∷ s) (y ∷ t) h = ground (arith, bytes_cmp-gt s t)
