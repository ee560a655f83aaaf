-- ===== src/Iter/Bounds.antt =====
-- The bounds of a range (rart/src/range.rs): a key behind one that meets the start meets it, and none
-- behind one that is past the end is within it.
use Prim.Native.Nat.{Ordering}
use rart_rs.Prelude.{◌≡◌, refl, sym, Bool, true, false, not, [], ◌∷◌, arith, inl, inr, ◌⊎◌}
use rart_rs.Partials.{Bytes}
use rart_rs.Keys.Slices.{bytes_cmp, bytes_cmp_self}
use rart_rs.Iter.{Bound, included, excluded, unbounded, at_least, is_above}
use rart_rs.Iter.Order.{meets, Precedes, Precedes-trans, bytes_cmp-eq, bytes_cmp-gt}

pub false_ne_true : false ≡ true → ⊥
false_ne_true h = cc

pub bytes_cmp-flip : (s t : Bytes) → Precedes s t → bytes_cmp t s ≡ Ordering.gt
unfolding bytes_cmp
bytes_cmp-flip [] [] h = cc
bytes_cmp-flip [] (y ∷ t) h = refl
bytes_cmp-flip (x ∷ s) [] h = cc
bytes_cmp-flip (x ∷ s) (y ∷ t) h = ground (arith, bytes_cmp-flip s t)

Order-cases : (s t : Bytes) → Precedes s t ⊎ ((s ≡ t) ⊎ Precedes t s)
Order-cases s t = go (bytes_cmp s t) refl
  where
    go : (o : Ordering) → bytes_cmp s t ≡ o → Precedes s t ⊎ ((s ≡ t) ⊎ Precedes t s)
    go Ordering.lt h = inl h
    go Ordering.eq h = inr (inl (bytes_cmp-eq s t h))
    go Ordering.gt h = inr (inr (bytes_cmp-gt s t h))

pub meets-Precedes : (b : Bound) (k q : Bytes) → meets b k ≡ true → Precedes k q → meets b q ≡ true
unfolding meets
meets-Precedes (included s) k q h l = elim (Order-cases k s) [
  | inl c ↦ absurd (false_ne_true (rw c at h))
  | inr (inl c) ↦ rw (bytes_cmp-flip s q (rw c at l)) refl
  | inr (inr c) ↦ rw (bytes_cmp-flip s q (Precedes-trans s k q c l)) refl
]
meets-Precedes (excluded s) k q h l = elim (Order-cases k s) [
  | inl c ↦ absurd (false_ne_true (rw c at h))
  | inr (inl c) ↦ rw (bytes_cmp-flip s q (rw c at l)) refl
  | inr (inr c) ↦ rw (bytes_cmp-flip s q (Precedes-trans s k q c l)) refl
]
meets-Precedes unbounded k q h l = refl

-- The match of `RangeInner::next` on the end of the range.
unfoldable pub within_end : Bound → Bytes → Bool
within_end (included e) key = not (is_above (bytes_cmp key e))
within_end (excluded e) key = not (at_least (bytes_cmp key e))
within_end unbounded key = true

pub within_end-Precedes :
    (b : Bound) (k q : Bytes) → within_end b k ≡ false → Precedes k q → within_end b q ≡ false
unfolding within_end
within_end-Precedes (included s) k q h l = elim (Order-cases k s) [
  | inl c ↦ absurd (false_ne_true (sym (rw c at h)))
  | inr (inl c) ↦ rw (bytes_cmp-flip s q (rw c at l)) refl
  | inr (inr c) ↦ rw (bytes_cmp-flip s q (Precedes-trans s k q c l)) refl
]
within_end-Precedes (excluded s) k q h l = elim (Order-cases k s) [
  | inl c ↦ absurd (false_ne_true (sym (rw c at h)))
  | inr (inl c) ↦ rw (bytes_cmp-flip s q (rw c at l)) refl
  | inr (inr c) ↦ rw (bytes_cmp-flip s q (Precedes-trans s k q c l)) refl
]
within_end-Precedes unbounded k q h l = absurd (false_ne_true (sym h))

-- What the two bounds mean: a key is the bound, where it is included, or on its inner side.
abbrev pub IsFrom : Bound → Bytes → Type 0
IsFrom (included s) key = (s ≡ key) ⊎ Precedes s key
IsFrom (excluded s) key = Precedes s key
IsFrom unbounded key = Unit {0}

abbrev pub IsUpTo : Bound → Bytes → Type 0
IsUpTo (included e) key = (key ≡ e) ⊎ Precedes key e
IsUpTo (excluded e) key = Precedes key e
IsUpTo unbounded key = Unit {0}

pub meets-IsFrom : (b : Bound) (key : Bytes) → IsFrom b key → meets b key ≡ true
unfolding meets
meets-IsFrom (included s) key (inl e) = rw (e, bytes_cmp_self key) refl
meets-IsFrom (included s) key (inr h) = rw (bytes_cmp-flip s key h) refl
meets-IsFrom (excluded s) key h = rw (bytes_cmp-flip s key h) refl
meets-IsFrom unbounded key h = refl

pub IsFrom-meets : (b : Bound) (key : Bytes) → meets b key ≡ true → IsFrom b key
unfolding meets
IsFrom-meets (included s) key h = elim (Order-cases key s) [
  | inl c ↦ absurd (false_ne_true (rw c at h))
  | inr (inl c) ↦ inl (sym c)
  | inr (inr c) ↦ inr c
]
IsFrom-meets (excluded s) key h = elim (Order-cases key s) [
  | inl c ↦ absurd (false_ne_true (rw c at h))
  | inr (inl c) ↦ absurd (false_ne_true (rw (c, bytes_cmp_self s) at h))
  | inr (inr c) ↦ c
]
IsFrom-meets unbounded key h = tt

pub within_end-IsUpTo : (b : Bound) (key : Bytes) → IsUpTo b key → within_end b key ≡ true
unfolding within_end
within_end-IsUpTo (included e) key (inl h) = rw (h, bytes_cmp_self e) refl
within_end-IsUpTo (included e) key (inr h) = rw h refl
within_end-IsUpTo (excluded e) key h = rw h refl
within_end-IsUpTo unbounded key h = refl

pub IsUpTo-within_end : (b : Bound) (key : Bytes) → within_end b key ≡ true → IsUpTo b key
unfolding within_end
IsUpTo-within_end (included e) key h = elim (Order-cases key e) [
  | inl c ↦ inr c
  | inr (inl c) ↦ inl c
  | inr (inr c) ↦ absurd (false_ne_true (rw (bytes_cmp-flip e key c) at h))
]
IsUpTo-within_end (excluded e) key h = elim (Order-cases key e) [
  | inl c ↦ c
  | inr (inl c) ↦ absurd (false_ne_true (rw (c, bytes_cmp_self e) at h))
  | inr (inr c) ↦ absurd (false_ne_true (rw (bytes_cmp-flip e key c) at h))
]
IsUpTo-within_end unbounded key h = tt
