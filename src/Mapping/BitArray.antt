-- ===== src/Mapping/BitArray.antt =====
-- `BitArray` (rart/src/utils/bitarray.rs): storage and, apart from it, the bits that tell which
-- slots are initialized. Reading a slot that is not initialized is a panic here.
use rart_rs.Prelude.{
  ℕ, zero, suc, ◌<◌, ◌≤◌, ◌≡◌, refl, Bool, true, false, not, Option, none, some, List, [], ◌∷◌, map,
  replicate, length, set, get_elem?, ltb, if◌then◌else◌, arith, is_some, Run, done, panic, ◌>>=◌,
  ◌>>◌, unwrap, ltb-lt, ap, Option-cases, inl, inr,
}
use rart_rs.Prelude
use rart_rs.Mapping.Slots.{used, slot, get_elem?-slot, get_elem?-map, map-set}

pub record BitArray (X : Type 0) : Type 0 where
  pub bitset : List Bool
  pub storage : List (Option X)

-- `Bitset::first_empty`.
pub first_unset : List Bool → Option ℕ
first_unset [] = none
first_unset (false ∷ bits) = some 0
first_unset (true ∷ bits) = elim (first_unset bits) [ none ↦ none | some n ↦ some (suc n) ]

module _ {X : Type 0} where
  unfoldable pub check_slot : BitArray X → ℕ → Bool
  check_slot a pos = elim (get_elem? a.bitset pos) [ none ↦ false | some bit ↦ bit ]

  -- `get_known_present`.
  unfoldable pub get_known_present : BitArray X → ℕ → Run X
  get_known_present a pos = do
    rart_rs.Prelude.check (ltb pos (length a.storage))
    rart_rs.Prelude.check (check_slot a pos)
    s ← unwrap (get_elem? a.storage pos)
    unwrap s

  unfoldable pub get : BitArray X → ℕ → Run (Option X)
  get a pos = do
    rart_rs.Prelude.check (ltb pos (length a.storage))
    if check_slot a pos then (do x ← get_known_present a pos; done (some x)) else done none

  unfoldable pub set_slot : BitArray X → ℕ → X → Run (BitArray X)
  set_slot a pos x = do
    rart_rs.Prelude.check (ltb pos (length a.storage))
    done (record { bitset = set a.bitset pos true; storage = set a.storage pos (some x) })

  -- `erase_known_present`: the value, and the array without it.
  unfoldable pub erase_known_present : BitArray X → ℕ → Run (X × BitArray X)
  erase_known_present a pos = do
    old ← get_known_present a pos
    done (old, record { bitset = set a.bitset pos false; storage = set a.storage pos none })

  unfoldable pub erase : BitArray X → ℕ → Run (Option X × BitArray X)
  erase a pos = do
    rart_rs.Prelude.check (ltb pos (length a.storage))
    if check_slot a pos
        then (do r ← erase_known_present a pos; done (some r.0, r.1))
        else done (none, a)

  unfoldable pub first_empty : BitArray X → Option ℕ
  first_empty a = elim (first_unset a.bitset) [
    | none ↦ none
    | some pos ↦ if ltb pos (length a.storage) then some pos else none
  ]

  -- An array whose bits tell which slots are initialized.
  abbrev pub of_slots : List (Option X) → BitArray X
  of_slots ss = record { bitset = map is_some ss; storage = ss }

  module _ (ss : List (Option X)) (pos : ℕ) (h : pos < length ss) where
    pub check_slot-of_slots : check_slot (of_slots ss) pos ≡ is_some (slot ss pos)
    unfolding check_slot
    check_slot-of_slots = rw (check_slot, get_elem?-map ss pos h)

    pub get_known_present-of_slots : get_known_present (of_slots ss) pos ≡ unwrap (slot ss pos)
    unfolding get_known_present
    get_known_present-of_slots =
        rw (ltb-lt pos (length ss) h, check_slot-of_slots, get_elem?-slot ss pos h)
          (unwrap_checked (slot ss pos))
      where
        unwrap_checked :
            (o : Option X) → (do rart_rs.Prelude.check (is_some o); unwrap o) ≡ unwrap o
        unwrap_checked none = refl
        unwrap_checked (some x) = refl

    pub set_slot-of_slots :
        (x : X) → set_slot (of_slots ss) pos x ≡ done (of_slots (set ss pos (some x)))
    unfolding set_slot
    set_slot-of_slots x = rw (ltb-lt pos (length ss) h, ← map-set ss pos (some x))

    pub get-of_slots : get (of_slots ss) pos ≡ done (slot ss pos)
    unfolding get
    get-of_slots =
        rw (ltb-lt pos (length ss) h, check_slot-of_slots, get_known_present-of_slots)
          (get_checked (slot ss pos))
      where
        get_checked :
            (o : Option X)
            → (if is_some o then (do x ← unwrap o; done (some x)) else done none) ≡ done o
        get_checked none = refl
        get_checked (some x) = refl

    pub erase_known_present-of_slots :
        (x : X)
        → slot ss pos ≡ some x
        → erase_known_present (of_slots ss) pos ≡ done (x, of_slots (set ss pos none))
    unfolding erase_known_present
    erase_known_present-of_slots x e = rw (get_known_present-of_slots, e, ← map-set ss pos none)

    pub erase-of_slots :
        erase (of_slots ss) pos
        ≡ done (slot ss pos, of_slots (if is_some (slot ss pos) then set ss pos none else ss))
    unfolding erase
    erase-of_slots = elim (Option-cases (slot ss pos)) [
      | inl e ↦ rw (ltb-lt pos (length ss) h, check_slot-of_slots, e)
      | inr (x, e) ↦
          rw (ltb-lt pos (length ss) h, check_slot-of_slots, e, erase_known_present-of_slots x e)
    ]

  first_unset-used :
      (ss : List (Option X))
      → used ss < length ss
      → (pos : ℕ) × (first_unset (map is_some ss) ≡ some pos)
        × (pos < length ss)
        × (slot ss pos ≡ none)
  unfolding first_unset used slot
  first_unset-used [] h = absurd (omega arith)
  first_unset-used (none ∷ ss) h = (0, refl, omega arith, refl)
  first_unset-used (some x ∷ ss) h =
      let (pos, e, l, z) = first_unset-used ss (omega arith) in (suc pos, rw e, omega arith, z)

  -- An array that is not full has an empty slot.
  pub first_empty-used :
      (ss : List (Option X))
      → used ss < length ss
      → (pos : ℕ) × (first_empty (of_slots ss) ≡ some pos)
        × (pos < length ss)
        × (slot ss pos ≡ none)
  unfolding first_empty
  first_empty-used ss h =
      let (pos, e, l, z) = first_unset-used ss h in
      (pos, rw (first_empty, e, ltb-lt pos (length ss) l), l, z)
