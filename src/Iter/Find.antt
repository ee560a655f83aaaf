-- ===== src/Iter/Find.antt =====
-- Lists of entries: the value of a key, the order of the keys, and their first bytes.
use Prim.Native.Nat.{Ordering}
use rart_rs.Prelude.{
  ℕ, ◌≡◌, ◌≢◌, refl, sym, ◌∙◌, Option, none, some, List, [], ◌∷◌, ◌++◌, arith, subst,
}
use rart_rs.Partials.{Bytes}
use rart_rs.Partials.Laws.{strip, strip-below}
use rart_rs.Keys.Slices.{bytes_cmp}
use rart_rs.Iter.Order.{Precedes, bytes_cmp-eq}
use rart_rs.Iter.Entries.{under}

pub bytes_cmp-under : (p s t : Bytes) → bytes_cmp (p ++ s) (p ++ t) ≡ bytes_cmp s t
unfolding bytes_cmp
bytes_cmp-under [] s t = refl
bytes_cmp-under (x ∷ p) s t = ground (arith, bytes_cmp-under p s t)

module _ {V : Type 0} where
  abbrev pub found_at : Ordering → V → Option V → Option V
  found_at Ordering.eq v later = some v
  found_at _ v later = later

  -- The value of the first entry at a key.
  unfoldable pub find : Bytes → List (Bytes × V) → Option V
  find key [] = none
  find key ((k, v) ∷ l) = found_at (bytes_cmp key k) v (find key l)

  abbrev pub AllAbove : Bytes → List (Bytes × V) → Type 0
  AllAbove key [] = Unit
  AllAbove key ((k, v) ∷ l) = Precedes key k × AllAbove key l

  -- Each key is before all the later ones.
  abbrev pub IsAscending : List (Bytes × V) → Type 0
  IsAscending [] = Unit
  IsAscending ((k, v) ∷ l) = AllAbove k l × IsAscending l

  -- Every key has a first byte, of which `P` holds.
  abbrev pub Starts : (ℕ → Type 0) → List (Bytes × V) → Type 0
  Starts P [] = Unit
  Starts P (([], v) ∷ l) = ⊥
  Starts P ((x ∷ k, v) ∷ l) = P x × Starts P l

  abbrev pub or_later : Option V → Option V → Option V
  or_later (some v) later = some v
  or_later none later = later

  found_at-or_later :
      (o : Ordering) (v : V) (l r : Option V)
      → found_at o v (or_later l r) ≡ or_later (found_at o v l) r
  found_at-or_later Ordering.lt v l r = refl
  found_at-or_later Ordering.eq v l r = refl
  found_at-or_later Ordering.gt v l r = refl

  pub find-append :
      (key : Bytes) (l r : List (Bytes × V))
      → find key (l ++ r) ≡ or_later (find key l) (find key r)
  unfolding find
  find-append key [] r = refl
  find-append key ((k, v) ∷ l) r =
      rw (find-append key l r) (found_at-or_later (bytes_cmp key k) v (find key l) (find key r))

  pub found_at-ne :
      (o : Ordering) (v : V) (later : Option V) → o ≢ Ordering.eq → found_at o v later ≡ later
  found_at-ne Ordering.lt v later h = refl
  found_at-ne Ordering.eq v later h = absurd (h refl)
  found_at-ne Ordering.gt v later h = refl

  pub find_missing :
      (p key : Bytes) (l : List (Bytes × V)) → strip p key ≡ none → find key (under p l) ≡ none
  unfolding find
  find_missing p key [] h = refl
  find_missing p key ((k, v) ∷ l) h =
      found_at-ne (bytes_cmp key (p ++ k)) v (find key (under p l))
        (λ e. some_none (sym (strip-below p k) ∙ rw (bytes_cmp-eq key (p ++ k) e) at h))
      ∙ find_missing p key l h
    where
      some_none : {A : Type 0} {a : A} → some a ≡ none → ⊥
      some_none z = cc

  pub find-under : (p s : Bytes) (l : List (Bytes × V)) → find (p ++ s) (under p l) ≡ find s l
  unfolding find
  find-under p s [] = refl
  find-under p s ((k, v) ∷ l) = rw (bytes_cmp-under p s k, find-under p s l)

  pub find-Starts_ne :
      (P : ℕ → Type 0) (x : ℕ) (r : Bytes) (l : List (Bytes × V))
      → Starts P l
      → (P x → ⊥)
      → find (x ∷ r) l ≡ none
  unfolding find bytes_cmp
  find-Starts_ne P x r [] s h = refl
  find-Starts_ne P x r (([], v) ∷ l) s h = absurd s
  find-Starts_ne P x r ((y ∷ k, v) ∷ l) s h =
      found_at-ne (bytes_cmp (x ∷ r) (y ∷ k)) v (find (x ∷ r) l)
        (λ e. h (subst P (sym (first_eq x y r k (bytes_cmp-eq (x ∷ r) (y ∷ k) e))) s.0))
      ∙ find-Starts_ne P x r l s.1 h
    where
      first_eq : (a b : ℕ) (u w : Bytes) → a ∷ u ≡ b ∷ w → a ≡ b
      first_eq a b u w z = cc

  pub find-Starts_nil : (P : ℕ → Type 0) (l : List (Bytes × V)) → Starts P l → find [] l ≡ none
  unfolding find bytes_cmp
  find-Starts_nil P [] s = refl
  find-Starts_nil P (([], v) ∷ l) s = absurd s
  find-Starts_nil P ((y ∷ k, v) ∷ l) s = find-Starts_nil P l s.1

  pub Starts-append :
      (P : ℕ → Type 0) (l r : List (Bytes × V)) → Starts P l → Starts P r → Starts P (l ++ r)
  Starts-append P [] r s t = t
  Starts-append P (([], v) ∷ l) r s t = absurd s
  Starts-append P ((x ∷ k, v) ∷ l) r s t = (s.0, Starts-append P l r s.1 t)

  pub Starts-weaken :
      (P Q : ℕ → Type 0) (l : List (Bytes × V)) → ((x : ℕ) → P x → Q x) → Starts P l → Starts Q l
  Starts-weaken P Q [] h s = tt
  Starts-weaken P Q (([], v) ∷ l) h s = absurd s
  Starts-weaken P Q ((x ∷ k, v) ∷ l) h s = (h x s.0, Starts-weaken P Q l h s.1)

  pub Starts-under :
      (P : ℕ → Type 0) (x : ℕ) (p : Bytes) (l : List (Bytes × V)) → P x → Starts P (under (x ∷ p) l)
  Starts-under P x p [] h = tt
  Starts-under P x p ((k, v) ∷ l) h = (h, Starts-under P x p l h)
