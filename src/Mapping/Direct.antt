-- ===== src/Mapping/Direct.antt =====
-- `DirectMapping` (rart/src/mapping/direct_mapping.rs): a slot for each of the 256 edges.
use rart_rs.Prelude.{
  ℕ, suc, ◌+◌, ◌-◌, ◌<◌, ◌≡◌, ◌≢◌, refl, Option, none, some, List, length, set, if◌then◌else◌,
  arith, Run, done, ◌>>=◌, Option-cases, inl, inr, ap,
}
use rart_rs.Mapping.Slots.{
  slot, used, slot-set, slot-set_ne, length-set, used-set-some, used-set-none,
}
use rart_rs.Mapping.BitArray.{
  BitArray, of_slots, check_slot, get_known_present, set_slot, erase_known_present,
  check_slot-of_slots, get_known_present-of_slots, set_slot-of_slots, erase_known_present-of_slots,
}

pub record DirectMapping (N : Type 0) : Type 0 where
  pub children : BitArray N
  pub num_children : ℕ

module _ {N : Type 0} where
  unfoldable pub add_child : DirectMapping N → ℕ → N → Run (DirectMapping N)
  add_child m key n = do
    children ← set_slot m.children key n
    done (record { children = children; num_children = m.num_children + 1 })

  unfoldable pub seek_child : DirectMapping N → ℕ → Run (Option N)
  seek_child m key =
      if check_slot m.children key
      then (do n ← get_known_present m.children key; done (some n))
      else done none

  unfoldable pub delete_child : DirectMapping N → ℕ → Run (Option N × DirectMapping N)
  delete_child m key =
      if check_slot m.children key
      then (do
        r ← erase_known_present m.children key
        done (some r.0, record { children = r.1; num_children = m.num_children - 1 }))
      else done (none, m)

  -- The mapping whose slots are `ss`.
  abbrev pub direct_of : List (Option N) → DirectMapping N
  direct_of ss = record { children = of_slots ss; num_children = used ss }

  -- On a mapping of 256 slots `seek_child` at an edge below 256 does not panic, and returns what the
  -- slot of the edge holds.
  pub direct_seek_lem :
      (ss : List (Option N)) (key : ℕ)
      → length ss ≡ 256
      → key < 256
      → seek_child (direct_of ss) key ≡ done (slot ss key)
  unfolding seek_child
  direct_seek_lem ss key l h = elim (Option-cases (slot ss key)) [
    | inl e ↦ rw (check_slot-of_slots ss key (omega arith), e)
    | inr (n, e) ↦ rw (
      check_slot-of_slots ss key (omega arith),
      get_known_present-of_slots ss key (omega arith),
      e,
    )
  ]

  -- On a mapping of 256 slots whose count is that of the slots in use, `add_child` at a vacant edge
  -- below 256 does not panic: the slot of the edge holds the child, every other slot is as before, and
  -- the mapping still has 256 slots and the count of those in use.
  pub direct_add_lem :
      (ss : List (Option N)) (key : ℕ) (n : N)
      → length ss ≡ 256
      → key < 256
      → slot ss key ≡ none
      → (ss' : List (Option N)) × (add_child (direct_of ss) key n ≡ done (direct_of ss'))
        × (length ss' ≡ 256)
        × (slot ss' key ≡ some n)
        × ((k : ℕ) → k ≢ key → slot ss' k ≡ slot ss k)
  unfolding add_child
  direct_add_lem ss key n l h e =
      let one_more : used ss + 1 ≡ suc (used ss) = omega arith in
      (
        set ss key (some n),
        rw (set_slot-of_slots ss key (omega arith) n, used-set-some ss key n (omega arith) e)
            (ap (λ c. done (record { children = of_slots (set ss key (some n)); num_children = c }))
              one_more),
        omega (arith, length-set ss key (some n)),
        slot-set ss key (some n) (omega arith),
        λ k ne. slot-set_ne ss key (some n) k ne,
      )

  -- On a mapping of 256 slots whose count is that of the slots in use, `delete_child` at an edge
  -- below 256 does not panic. It returns what the slot of the edge held and empties the slot; every
  -- other slot is as before, and the mapping still has 256 slots and the count of those in use.
  pub direct_delete_lem :
      (ss : List (Option N)) (key : ℕ)
      → length ss ≡ 256
      → key < 256
      → (ss' : List (Option N)) × (delete_child (direct_of ss) key
          ≡ done (slot ss key, direct_of ss'))
        × (length ss' ≡ 256)
        × (slot ss' key ≡ none)
        × ((k : ℕ) → k ≢ key → slot ss' k ≡ slot ss k)
  unfolding delete_child
  direct_delete_lem ss key l h = elim (Option-cases (slot ss key)) [
    | inl e ↦ (ss, rw (check_slot-of_slots ss key (omega arith), e), l, e, λ k ne. refl)
    | inr (n, e) ↦
        let one_less : used ss - 1 ≡ used (set ss key none) =
          omega (arith, used-set-none ss key n e) in
        (
          set ss key none,
          rw
              (
                check_slot-of_slots ss key (omega arith),
                e,
                erase_known_present-of_slots ss key (omega arith) n e,
              )
              (ap
                (λ c.
                  done (some n, record { children = of_slots (set ss key none); num_children = c }))
                one_less),
          omega (arith, length-set ss key none),
          slot-set ss key none (omega arith),
          λ k ne. slot-set_ne ss key none k ne,
        )
  ]
