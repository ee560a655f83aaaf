-- ===== src/Mapping/Indexed.antt =====
-- `IndexedMapping` (rart/src/mapping/indexed_mapping.rs): 256 edges, each with the position of its
-- child in a smaller array.
use rart_rs.Prelude.{
  replicate, ℕ, ◌+◌, ◌-◌, ◌<◌, ◌≡◌, ◌≢◌, refl, sym, ◌∙◌, Option, none, some, List, length, set,
  arith, Run, done, panic, ◌≤◌, ◌%◌, ltb, ltb-lt, if◌then◌else◌, ◌>>=◌, unwrap, Option-cases, inl,
  inr, ◌⊎◌, ap, eq_of_some, eq_or_ne,
}
use native.Mathlib.Nat.{mod-eq_of_lt}
use rart_rs.Mapping.Slots.{
  slot-replicate, slot, used, slot-set, slot-set_ne, length-set, used-set-some, used-set-none,
  slot-length,
}
use rart_rs.Mapping.BitArray.{
  BitArray, of_slots, get, get_known_present, set_slot, erase, erase_known_present, first_empty,
  get-of_slots, get_known_present-of_slots, set_slot-of_slots, erase-of_slots,
  erase_known_present-of_slots, first_empty-used,
}

pub record IndexedMapping (N : Type 0) : Type 0 where
  pub child_ptr_indexes : BitArray ℕ
  pub children : BitArray N
  pub num_children : ℕ

some-ne_none : {A : Type 0} (a : A) → some a ≢ none
some-ne_none a z = cc

-- A sum of bytes in a build that checks for overflow.
unfoldable pub add_u8 : ℕ → ℕ → Run ℕ
add_u8 a b = if ltb (a + b) 256 then done (a + b) else panic

module _ {N : Type 0} where
  -- The position is cast to a u8, which wraps, and the count is a u8, whose sum is checked. On a
  -- mapping of 256 slots or more both can be reached; the nodes have 48.
  unfoldable pub add_child : IndexedMapping N → ℕ → N → Run (IndexedMapping N)
  unfolding add_u8
  add_child m key n = do
    pos ← unwrap (first_empty m.children)
    indexes ← set_slot m.child_ptr_indexes key (pos % 256)
    children ← set_slot m.children pos n
    num_children ← add_u8 m.num_children 1
    done (record { child_ptr_indexes = indexes; children = children; num_children = num_children })

  unfoldable pub seek_child : IndexedMapping N → ℕ → Run (Option N)
  seek_child m key = do
    found ← get m.child_ptr_indexes key
    elim found [
      | none ↦ done none
      | some pos ↦ do n ← get_known_present m.children pos; done (some n)
    ]

  unfoldable pub delete_child : IndexedMapping N → ℕ → Run (Option N × IndexedMapping N)
  delete_child m key = do
    (found, indexes) ← erase m.child_ptr_indexes key
    elim found [
      | none ↦ done (none, m)
      | some pos ↦ do
        (old, children) ← erase_known_present m.children pos
        done (
          some old,
          record {
            child_ptr_indexes = indexes;
            children = children;
            num_children = m.num_children - 1;
          },
        )
    ]

  -- Every index that is in use points at a child, and no two at the same.
  pub record IsIndex (indexes : List (Option ℕ)) (slots : List (Option N)) : Type 0 where
    pub width : length indexes ≡ 256
    pub live : (k pos : ℕ) → slot indexes k ≡ some pos → (n : N) × (slot slots pos ≡ some n)
    pub apart : (k j pos : ℕ) → slot indexes k ≡ some pos → slot indexes j ≡ some pos → k ≡ j

  abbrev pub pointed : Option ℕ → List (Option N) → Option N
  pointed none slots = none
  pointed (some pos) slots = slot slots pos

  -- The child at an edge.
  abbrev pub child_at : List (Option ℕ) → List (Option N) → ℕ → Option N
  child_at indexes slots k = pointed (slot indexes k) slots

  abbrev pub indexed_of : List (Option ℕ) → List (Option N) → IndexedMapping N
  indexed_of indexes slots = record {
    child_ptr_indexes = of_slots indexes;
    children = of_slots slots;
    num_children = used slots;
  }

  -- A mapping with no child is consistent.
  pub IsIndex-replicate : (slots : List (Option N)) → IsIndex (replicate 256 none) slots
  IsIndex-replicate slots = record {
    width = refl;
    live = λ k pos e. absurd (some-ne_none pos (sym e ∙ slot-replicate 256 k));
    apart = λ k j pos e f. absurd (some-ne_none pos (sym e ∙ slot-replicate 256 k));
  }

  -- On a consistent mapping `seek_child` at an edge below 256 does not panic, and returns the child
  -- at the edge.
  pub indexed_seek_lem :
      (indexes : List (Option ℕ)) (slots : List (Option N)) (key : ℕ)
      → IsIndex indexes slots
      → key < 256
      → seek_child (indexed_of indexes slots) key ≡ done (child_at indexes slots key)
  unfolding seek_child
  indexed_seek_lem indexes slots key i h = elim (Option-cases (slot indexes key)) [
    | inl e ↦ rw (get-of_slots indexes key (omega (arith, i.width)), e)
    | inr (pos, e) ↦
        let (n, there) = i.live key pos e in
        rw (
          get-of_slots indexes key (omega (arith, i.width)),
          e,
          get_known_present-of_slots slots pos (slot-length slots pos n there),
          there,
        )
  ]

  module _ (indexes : List (Option ℕ)) (slots : List (Option N)) (key : ℕ)
      (i : IsIndex indexes slots) (h : key < 256) where
    -- Another edge is read as before, when a slot is written that it does not point at.
    child_at_ne :
        (o : Option ℕ) (pos : ℕ) (c : Option N) (k : ℕ)
        → k ≢ key
        → ((q : ℕ) → slot indexes k ≡ some q → q ≢ pos)
        → child_at (set indexes key o) (set slots pos c) k ≡ child_at indexes slots k
    child_at_ne o pos c k ne other = elim (Option-cases (slot indexes k)) [
      | inl e ↦ rw (slot-set_ne indexes key o k ne, e)
      | inr (q, e) ↦ rw (slot-set_ne indexes key o k ne, e, slot-set_ne slots pos c q (other q e))
    ]

    -- A slot that is empty is not pointed at.
    vacant_ne : (pos : ℕ) → slot slots pos ≡ none → (k q : ℕ) → slot indexes k ≡ some q → q ≢ pos
    vacant_ne pos z k q e same =
        let (n, there) = i.live k q e in some-ne_none n (sym there ∙ (ap (slot slots) same ∙ z))

    set_index :
        (o : Option ℕ) (k q : ℕ)
        → slot (set indexes key o) k ≡ some q
        → ((k ≡ key) × (o ≡ some q)) ⊎ ((k ≢ key) × (slot indexes k ≡ some q))
    set_index o k q e = elim (eq_or_ne k key) [
      | inl same ↦ inl (
        same,
        sym (slot-set indexes key o (omega (arith, i.width)))
            ∙ (ap (slot (set indexes key o)) (sym same) ∙ e),
      )
      | inr ne ↦ inr (ne, sym (slot-set_ne indexes key o k ne) ∙ e)
    ]

    module _ (pos : ℕ) (n : N) (l : pos < length slots) (z : slot slots pos ≡ none) where
      live_added :
          (k q : ℕ)
          → slot (set indexes key (some pos)) k ≡ some q
          → (c : N) × (slot (set slots pos (some n)) q ≡ some c)
      live_added k q e = elim (set_index (some pos) k q e) [
        | inl (_, e') ↦ (
          n,
          ap (slot (set slots pos (some n))) (sym (eq_of_some pos q e'))
              ∙ slot-set slots pos (some n) l,
        )
        | inr (_, e') ↦
            let (c, there) = i.live k q e' in
            (c, slot-set_ne slots pos (some n) q (vacant_ne pos z k q e') ∙ there)
      ]

      apart_added :
          (k j q : ℕ)
          → slot (set indexes key (some pos)) k ≡ some q
          → slot (set indexes key (some pos)) j ≡ some q
          → k ≡ j
      apart_added k j q e f = elim (set_index (some pos) k q e) [
        | inl (same, e') ↦ elim (set_index (some pos) j q f) [
          | inl (same', _) ↦ same ∙ sym same'
          | inr (_, f') ↦ absurd (vacant_ne pos z j q f' (sym (eq_of_some pos q e')))
        ]
        | inr (_, e') ↦ elim (set_index (some pos) j q f) [
          | inl (_, f') ↦ absurd (vacant_ne pos z k q e' (sym (eq_of_some pos q f')))
          | inr (_, f') ↦ i.apart k j q e' f'
        ]
      ]

      pub IsIndex-add : IsIndex (set indexes key (some pos)) (set slots pos (some n))
      IsIndex-add = record {
        width = omega (arith, length-set indexes key (some pos), i.width);
        live = live_added;
        apart = apart_added;
      }

    module _ (pos : ℕ) (at_key : slot indexes key ≡ some pos) where
      moved : (k q : ℕ) → k ≢ key → slot indexes k ≡ some q → q ≢ pos
      moved k q ne e same = ne (i.apart k key pos (e ∙ ap some same) at_key)

      IsIndex-delete : IsIndex (set indexes key none) (set slots pos none)
      IsIndex-delete = record {
        width = omega (arith, length-set indexes key none, i.width);
        live = λ k q e. elim (set_index none k q e) [
          | inl (_, e') ↦ absurd (some-ne_none q (sym e'))
          | inr (ne, e') ↦
              let (c, there) = i.live k q e' in
              (c, slot-set_ne slots pos none q (moved k q ne e') ∙ there)
        ];
        apart = λ k j q e f. elim (set_index none k q e) [
          | inl (_, e') ↦ absurd (some-ne_none q (sym e'))
          | inr (_, e') ↦ elim (set_index none j q f) [
            | inl (_, f') ↦ absurd (some-ne_none q (sym f'))
            | inr (_, f') ↦ i.apart k j q e' f'
          ]
        ];
      }

    -- `add_child` at an edge below 256 of a consistent mapping of at most 255 slots that is not full
    -- does not panic: the mapping stays consistent, has the child at the edge, and is as before at
    -- every other edge.
    pub indexed_add_lem :
        (n : N)
        → length slots ≤ 255
        → used slots < length slots
        → (indexes' : List (Option ℕ)) × (slots' : List (Option N)) × (add_child
              (indexed_of indexes slots)
              key
              n
            ≡ done (indexed_of indexes' slots'))
          × IsIndex indexes' slots'
          × (child_at indexes' slots' key ≡ some n)
          × ((k : ℕ) → k ≢ key → child_at indexes' slots' k ≡ child_at indexes slots k)
    unfolding add_child add_u8
    indexed_add_lem n narrow room =
        let (pos, e, l, z) = first_empty-used slots room in
        let one_more : used slots + 1 ≡ used (set slots pos (some n)) =
          omega (arith, used-set-some slots pos n l z) in
        let key_in : key < length indexes = omega (arith, i.width) in
        let small : pos % 256 ≡ pos = mod-eq_of_lt (omega arith) in
        (
          set indexes key (some pos),
          set slots pos (some n),
          rw
              (
                e,
                small,
                set_slot-of_slots indexes key key_in pos,
                set_slot-of_slots slots pos l n,
                ltb-lt (used slots + 1) 256 (omega arith),
              )
              (ap
                (λ c. done (record {
                  child_ptr_indexes = of_slots (set indexes key (some pos));
                  children = of_slots (set slots pos (some n));
                  num_children = c;
                }))
                one_more),
          IsIndex-add pos n l z,
          rw (slot-set indexes key (some pos) key_in) (slot-set slots pos (some n) l),
          λ k ne. child_at_ne (some pos) pos (some n) k ne (vacant_ne pos z k),
        )

    -- `delete_child` at an edge below 256 of a consistent mapping does not panic. It returns the child
    -- at the edge; the mapping stays consistent, has no child at the edge, and is as before at every
    -- other edge.
    pub indexed_delete_lem :
        (indexes' : List (Option ℕ)) × (slots' : List (Option N)) × (delete_child
            (indexed_of indexes slots)
            key
          ≡ done (child_at indexes slots key, indexed_of indexes' slots'))
        × IsIndex indexes' slots'
        × (child_at indexes' slots' key ≡ none)
        × ((k : ℕ) → k ≢ key → child_at indexes' slots' k ≡ child_at indexes slots k)
    unfolding delete_child
    indexed_delete_lem = elim (Option-cases (slot indexes key)) [
      | inl e ↦ (
        indexes,
        slots,
        rw (erase-of_slots indexes key (omega (arith, i.width)), e),
        i,
        rw e,
        λ k ne. refl,
      )
      | inr (pos, e) ↦
          let (n, there) = i.live key pos e in
          let l : pos < length slots = slot-length slots pos n there in
          let one_less : used slots - 1 ≡ used (set slots pos none) =
            omega (arith, used-set-none slots pos n there) in
          let key_in : key < length indexes = omega (arith, i.width) in
          (
            set indexes key none,
            set slots pos none,
            rw
                (
                  erase-of_slots indexes key key_in,
                  e,
                  erase_known_present-of_slots slots pos l n there,
                  there,
                )
                (ap
                  (λ c. done (
                    some n,
                    record {
                      child_ptr_indexes = of_slots (set indexes key none);
                      children = of_slots (set slots pos none);
                      num_children = c;
                    },
                  ))
                  one_less),
            IsIndex-delete pos e,
            rw (slot-set indexes key none key_in),
            λ k ne. child_at_ne none pos none k ne (λ q f. moved pos e k q ne f),
          )
    ]
