-- ===== src/Mapping/Slots.antt =====
-- Slots: what an array with bits stands for, the list of what each position holds.
use rart_rs.Prelude.{
  replicate, ap, ℕ, zero, suc, ◌<◌, ◌≡◌, ◌≢◌, refl, Option, none, some, List, [], ◌∷◌, map, length,
  set, get_elem?, arith, is_some,
}

pub length-set : {A : Type 0} (ss : List A) (pos : ℕ) (a : A) → length (set ss pos a) ≡ length ss
length-set [] pos a = refl
length-set (s ∷ ss) zero a = refl
length-set (s ∷ ss) (suc pos) a = omega (arith, length-set ss pos a)

module _ {X : Type 0} where
  unfoldable pub slot : List (Option X) → ℕ → Option X
  slot [] pos = none
  slot (s ∷ ss) zero = s
  slot (s ∷ ss) (suc pos) = slot ss pos

  -- How many slots are in use.
  unfoldable pub used : List (Option X) → ℕ
  used [] = 0
  used (none ∷ ss) = used ss
  used (some x ∷ ss) = suc (used ss)

  pub slot-set :
      (ss : List (Option X)) (pos : ℕ) (o : Option X)
      → pos < length ss
      → slot (set ss pos o) pos ≡ o
  unfolding slot
  slot-set [] pos o h = absurd (omega arith)
  slot-set (s ∷ ss) zero o h = refl
  slot-set (s ∷ ss) (suc pos) o h = slot-set ss pos o (omega arith)

  pub slot-set_ne :
      (ss : List (Option X)) (pos : ℕ) (o : Option X) (q : ℕ)
      → q ≢ pos
      → slot (set ss pos o) q ≡ slot ss q
  unfolding slot
  slot-set_ne [] pos o q h = refl
  slot-set_ne (s ∷ ss) zero o zero h = absurd (h refl)
  slot-set_ne (s ∷ ss) zero o (suc q) h = refl
  slot-set_ne (s ∷ ss) (suc pos) o zero h = refl
  slot-set_ne (s ∷ ss) (suc pos) o (suc q) h = slot-set_ne ss pos o q (λ e. h (ap suc e))

  pub get_elem?-slot :
      (ss : List (Option X)) (pos : ℕ) → pos < length ss → get_elem? ss pos ≡ some (slot ss pos)
  unfolding slot
  get_elem?-slot [] pos h = absurd (omega arith)
  get_elem?-slot (s ∷ ss) zero h = refl
  get_elem?-slot (s ∷ ss) (suc pos) h = get_elem?-slot ss pos (omega arith)

  pub get_elem?-map :
      (ss : List (Option X)) (pos : ℕ)
      → pos < length ss
      → get_elem? (map is_some ss) pos ≡ some (is_some (slot ss pos))
  unfolding slot
  get_elem?-map [] pos h = absurd (omega arith)
  get_elem?-map (s ∷ ss) zero h = refl
  get_elem?-map (s ∷ ss) (suc pos) h = get_elem?-map ss pos (omega arith)

  pub map-set :
      (ss : List (Option X)) (pos : ℕ) (o : Option X)
      → set (map is_some ss) pos (is_some o) ≡ map is_some (set ss pos o)
  map-set [] pos o = refl
  map-set (s ∷ ss) zero o = refl
  map-set (s ∷ ss) (suc pos) o = ap (λ l. is_some s ∷ l) (map-set ss pos o)

  pub used-set-some :
      (ss : List (Option X)) (pos : ℕ) (x : X)
      → pos < length ss
      → slot ss pos ≡ none
      → used (set ss pos (some x)) ≡ suc (used ss)
  unfolding slot used
  used-set-some [] pos x h e = absurd (omega arith)
  used-set-some (none ∷ ss) zero x h e = refl
  used-set-some (some y ∷ ss) zero x h e = cc
  used-set-some (none ∷ ss) (suc pos) x h e = used-set-some ss pos x (omega arith) e
  used-set-some (some y ∷ ss) (suc pos) x h e = ap suc (used-set-some ss pos x (omega arith) e)

  pub used-set-none :
      (ss : List (Option X)) (pos : ℕ) (x : X)
      → slot ss pos ≡ some x
      → suc (used (set ss pos none)) ≡ used ss
  unfolding slot used
  used-set-none [] pos x e = cc
  used-set-none (none ∷ ss) zero x e = cc
  used-set-none (some y ∷ ss) zero x e = refl
  used-set-none (none ∷ ss) (suc pos) x e = used-set-none ss pos x e
  used-set-none (some y ∷ ss) (suc pos) x e = ap suc (used-set-none ss pos x e)

  pub slot-length :
      (ss : List (Option X)) (pos : ℕ) (x : X) → slot ss pos ≡ some x → pos < length ss
  unfolding slot
  slot-length [] pos x e = cc
  slot-length (s ∷ ss) zero x e = omega arith
  slot-length (s ∷ ss) (suc pos) x e = omega (arith, slot-length ss pos x e)

  pub slot-replicate : (n pos : ℕ) → slot (replicate n none) pos ≡ none
  unfolding slot
  slot-replicate zero pos = refl
  slot-replicate (suc n) zero = refl
  slot-replicate (suc n) (suc pos) = slot-replicate n pos
