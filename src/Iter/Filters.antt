-- ===== src/Iter/Filters.antt =====
-- The bounds of a range as filters of an ascending list of entries.
use rart_rs.Prelude.{
  ◌≤◌, ◌≡◌, ◌≢◌, refl, sym, ◌∙◌, ap, Bool, true, false, Option, none, some, List, [], ◌∷◌, ◌++◌,
  length, arith, if◌then◌else◌, Bool-cases, inl, inr,
}
use rart_rs.Partials.{Bytes}
use rart_rs.Keys.Slices.{bytes_cmp}
use rart_rs.Iter.{Bound}
use rart_rs.Iter.Order.{meets, Precedes, bytes_cmp-eq}
use rart_rs.Iter.State.{skip}
use rart_rs.Iter.Find.{find, found_at-ne, AllAbove, IsAscending}
use rart_rs.Iter.Bounds.{within_end, within_end-Precedes, meets-Precedes, false_ne_true}

module _ {V : Type 0} where
  -- The answer `b` of the test on each key.
  abbrev pub AllTests : (Bytes → Bool) → Bool → List (Bytes × V) → Type 0
  AllTests T b [] = Unit
  AllTests T b ((k, v) ∷ l) = (T k ≡ b) × AllTests T b l

  pub AllTests-AllAbove :
      (T : Bytes → Bool) (b : Bool) (k : Bytes) (l : List (Bytes × V))
      → ((q : Bytes) → Precedes k q → T q ≡ b)
      → AllAbove k l
      → AllTests T b l
  AllTests-AllAbove T b k [] h a = tt
  AllTests-AllAbove T b k ((q, v) ∷ l) h a = (h q a.0, AllTests-AllAbove T b k l h a.1)

  pub find-AllTests :
      (T : Bytes → Bool) (b : Bool) (key : Bytes) (l : List (Bytes × V))
      → AllTests T b l
      → T key ≢ b
      → find key l ≡ none
  unfolding find
  find-AllTests T b key [] a h = refl
  find-AllTests T b key ((k, v) ∷ l) a h =
      found_at-ne (bytes_cmp key k) v (find key l) (λ e. h (ap T (bytes_cmp-eq key k e) ∙ a.0))
      ∙ find-AllTests T b key l a.1 h

  pub if_none : (c : Bool) → ◌≡◌ {A = Option V} (if c then none else none) none
  if_none true = refl
  if_none false = refl

  pub find_nil : (key : Bytes) → find {V = V} key [] ≡ none
  unfolding find
  find_nil key = refl

  find_other :
      (key k : Bytes) (v : V) (l : List (Bytes × V)) → key ≢ k → find key ((k, v) ∷ l) ≡ find key l
  unfolding find
  find_other key k v l h =
      found_at-ne (bytes_cmp key k) v (find key l) (λ e. h (bytes_cmp-eq key k e))

  pub found_at_cong :
      (key k : Bytes) (v : V) (l r : List (Bytes × V))
      → find key l ≡ find key r
      → find key ((k, v) ∷ l) ≡ find key ((k, v) ∷ r)
  unfolding find
  found_at_cong key k v l r h = rw h

  -- An ascending list from a start bound on has the values of the keys that meet it.
  pub find-skip :
      (b : Bound) (key : Bytes) (l : List (Bytes × V))
      → IsAscending l
      → find key (skip (some b) l) ≡ (if meets b key then find key l else none)
  find-skip b key [] a = rw (find_nil key) (sym (if_none (meets b key)))
  find-skip b key ((k, v) ∷ l) a = elim (Bool-cases (meets b k)) [
    | inl h ↦ elim (Bool-cases (meets b key)) [
      | inl h' ↦ rw (h, h') refl
      | inr h' ↦
          rw (h, h')
            (find-AllTests (meets b) true key ((k, v) ∷ l)
              (h, AllTests-AllAbove (meets b) true k l (λ q p. meets-Precedes b k q h p) a.0)
              (λ e. false_ne_true (sym h' ∙ e)))
    ]
    | inr h ↦ elim (Bool-cases (meets b key)) [
      | inl h' ↦
          rw
            (h, h', find_other key k v l (λ e. false_ne_true (sym h ∙ (sym (ap (meets b) e) ∙ h'))))
            (rw h' at (find-skip b key l a.1))
      | inr h' ↦ rw (h, h') (rw h' at (find-skip b key l a.1))
    ]
  ]

  pub skip-IsAscending :
      (b : Bound) (l : List (Bytes × V)) → IsAscending l → IsAscending (skip (some b) l)
  skip-IsAscending b [] a = tt
  skip-IsAscending b ((k, v) ∷ l) a = elim (Bool-cases (meets b k)) [
    | inl h ↦ rw h a
    | inr h ↦ rw h (skip-IsAscending b l a.1)
  ]

  -- The entries up to the first that is behind the end.
  abbrev pub take_within : Bound → List (Bytes × V) → List (Bytes × V)
  take_within e [] = []
  take_within e ((k, v) ∷ l) = if within_end e k then (k, v) ∷ take_within e l else []

  pub find-take_within :
      (e : Bound) (key : Bytes) (l : List (Bytes × V))
      → IsAscending l
      → find key (take_within e l) ≡ (if within_end e key then find key l else none)
  find-take_within e key [] a = rw (find_nil key) (sym (if_none (within_end e key)))
  find-take_within e key ((k, v) ∷ l) a = elim (Bool-cases (within_end e k)) [
    | inl h ↦ elim (Bool-cases (within_end e key)) [
      | inl h' ↦
          rw (h, h')
            (found_at_cong key k v (take_within e l) l (rw h' at (find-take_within e key l a.1)))
      | inr h' ↦
          rw
            (
              h,
              h',
              find_other key k v (take_within e l)
                  (λ z. false_ne_true (sym h' ∙ (ap (within_end e) z ∙ h))),
            )
            (rw h' at (find-take_within e key l a.1))
    ]
    | inr h ↦ elim (Bool-cases (within_end e key)) [
      | inl h' ↦
          rw (h, h', find_nil key)
            (sym (
              find-AllTests (within_end e) false key ((k, v) ∷ l)
                (
                  h,
                  AllTests-AllAbove (within_end e) false k l (λ q p. within_end-Precedes e k q h p)
                      a.0,
                )
                (λ z. false_ne_true (sym z ∙ h'))))
      | inr h' ↦ rw (h, h') (find_nil key)
    ]
  ]

  take_within-AllAbove :
      (e : Bound) (k : Bytes) (l : List (Bytes × V)) → AllAbove k l → AllAbove k (take_within e l)
  take_within-AllAbove e k [] a = tt
  take_within-AllAbove e k ((q, v) ∷ l) a = elim (Bool-cases (within_end e q)) [
    | inl h ↦ rw h (a.0, take_within-AllAbove e k l a.1)
    | inr h ↦ rw h tt
  ]

  pub take_within-IsAscending :
      (e : Bound) (l : List (Bytes × V)) → IsAscending l → IsAscending (take_within e l)
  take_within-IsAscending e [] a = tt
  take_within-IsAscending e ((k, v) ∷ l) a = elim (Bool-cases (within_end e k)) [
    | inl h ↦ rw h (take_within-AllAbove e k l a.0, take_within-IsAscending e l a.1)
    | inr h ↦ rw h tt
  ]

  -- Entries that do not meet the start bound are left out.
  pub skip-AllTests :
      (b : Bound) (l r : List (Bytes × V))
      → AllTests (meets b) false l
      → skip (some b) (l ++ r) ≡ skip (some b) r
  skip-AllTests b [] r a = refl
  skip-AllTests b ((k, v) ∷ l) r a = rw (a.0) (skip-AllTests b l r a.1)

  -- Behind a key that meets the start bound nothing is left out.
  pub skip-AllAbove :
      (b : Bound) (k : Bytes) (l : List (Bytes × V))
      → meets b k ≡ true
      → AllAbove k l
      → skip (some b) l ≡ l
  skip-AllAbove b k [] h a = refl
  skip-AllAbove b k ((q, v) ∷ l) h a = rw (meets-Precedes b k q h a.0)

  pub length-skip : (b : Bound) (l : List (Bytes × V)) → length (skip (some b) l) ≤ length l
  length-skip b [] = omega arith
  length-skip b ((k, v) ∷ l) = elim (Bool-cases (meets b k)) [
    | inl h ↦ rw h (omega arith)
    | inr h ↦ rw h (omega (arith, length-skip b l))
  ]

  pub length-take_within : (e : Bound) (l : List (Bytes × V)) → length (take_within e l) ≤ length l
  length-take_within e [] = omega arith
  length-take_within e ((k, v) ∷ l) = elim (Bool-cases (within_end e k)) [
    | inl h ↦ rw h (omega (arith, length-take_within e l))
    | inr h ↦ rw h (omega arith)
  ]
