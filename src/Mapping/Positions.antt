-- ===== src/Mapping/Positions.antt =====
-- The search for an edge in the ascending keys of a sorted mapping (rart/src/utils/u8_keys.rs,
-- without the `simd_keys` feature). The loop takes fuel; `num_children + 1` rounds are enough.
use Prim.Native.Nat.{compare, Ordering}
use rart_rs.Prelude.{
  ℕ, zero, suc, ◌+◌, ◌-◌, ◌/◌, ◌<◌, ◌≤◌, ◌≡◌, ◌≢◌, refl, sym, ◌∙◌, true, false, Option, none, some,
  List, [], ◌∷◌, length, get_elem?, ltb, leb, ◌==◌, if◌then◌else◌, arith, Run, done, panic, ◌>>=◌,
  unwrap, inl, inr, ◌⊎◌, Bool-cases, lt-ltb, le-ltb, eq_of_some, eq_or_ne, ap, ==_refl, ==-ne,
}

-- `match a.cmp(&b)`.
abbrev pub by_order {ℓ} : {A : Type ℓ} → Ordering → A → A → A → A
by_order Ordering.lt less equal greater = less
by_order Ordering.eq less equal greater = equal
by_order Ordering.gt less equal greater = greater

-- The loop of `binary_find_key`.
unfoldable pub binary_find_loop : ℕ → ℕ → List ℕ → ℕ → ℕ → Run (Option ℕ)
binary_find_loop zero key keys left right = panic
binary_find_loop (suc fuel) key keys left right =
    if ltb left right
    then (do
      let mid = (left + right) / 2
      k ← unwrap (get_elem? keys mid)
      let above = binary_find_loop fuel key keys (mid + 1) right
      let below = binary_find_loop fuel key keys left mid
      by_order (compare k key) above (done (some mid)) below)
    else done none

unfoldable pub binary_find_key : ℕ → List ℕ → ℕ → Run (Option ℕ)
unfolding binary_find_loop
binary_find_key key keys num_children = binary_find_loop (suc num_children) key keys 0 num_children

-- `(0..num_children).find(|&i| keys[i] == key)`, from `i` on.
unfoldable pub linear_find_loop : ℕ → ℕ → List ℕ → ℕ → Run (Option ℕ)
linear_find_loop zero key keys i = done none
linear_find_loop (suc rest) key keys i = do
  k ← unwrap (get_elem? keys i)
  let next = linear_find_loop rest key keys (suc i)
  if k == key then done (some i) else next

unfoldable pub find_key_position_sorted : ℕ → ℕ → List ℕ → ℕ → Run (Option ℕ)
unfolding binary_find_key linear_find_loop
find_key_position_sorted width key keys num_children =
    if leb width 4
    then linear_find_loop num_children key keys 0
    else binary_find_key key keys num_children

-- Where `key` stands among the first `num` keys.
abbrev pub IsPosition : ℕ → List ℕ → ℕ → Option ℕ → Type 0
IsPosition key keys num none = (i : ℕ) → i < num → get_elem? keys i ≢ some key
IsPosition key keys num (some i) = (i < num) × (get_elem? keys i ≡ some key)

-- The first `num` keys are there, and ascend.
pub record IsSorted (keys : List ℕ) (num : ℕ) : Type 0 where
  pub fits : num ≤ length keys
  pub ascends :
      (i j a b : ℕ)
      → i < j
      → j < num
      → get_elem? keys i ≡ some a
      → get_elem? keys j ≡ some b
      → a < b

get_elem?-lt : (keys : List ℕ) (i : ℕ) → i < length keys → (a : ℕ) × (get_elem? keys i ≡ some a)
get_elem?-lt [] i h = absurd (omega arith)
get_elem?-lt (k ∷ keys) zero h = (k, refl)
get_elem?-lt (k ∷ keys) (suc i) h = get_elem?-lt keys i (omega arith)

three_way :
    (a b : ℕ)
    → (compare a b ≡ Ordering.lt) × (a < b)
      ⊎ ((compare a b ≡ Ordering.eq) × (a ≡ b) ⊎ (compare a b ≡ Ordering.gt) × (b < a))
three_way a b = ground arith

module _ (key : ℕ) (keys : List ℕ) (fuel left right : ℕ) where
  round_stop : ltb left right ≡ false → binary_find_loop (suc fuel) key keys left right ≡ done none
  unfolding binary_find_loop
  round_stop h = rw h

  module _ (k : ℕ) (go : ltb left right ≡ true)
      (at_mid : get_elem? keys ((left + right) / 2) ≡ some k) where
    round_less :
        compare k key ≡ Ordering.lt
        → binary_find_loop (suc fuel) key keys left right
          ≡ binary_find_loop fuel key keys ((left + right) / 2 + 1) right
    unfolding binary_find_loop
    round_less c = rw (go, at_mid, c)

    round_equal :
        compare k key ≡ Ordering.eq
        → binary_find_loop (suc fuel) key keys left right ≡ done (some ((left + right) / 2))
    unfolding binary_find_loop
    round_equal c = rw (go, at_mid, c)

    round_greater :
        compare k key ≡ Ordering.gt
        → binary_find_loop (suc fuel) key keys left right
          ≡ binary_find_loop fuel key keys left ((left + right) / 2)
    unfolding binary_find_loop
    round_greater c = rw (go, at_mid, c)

linear_stop : (key : ℕ) (keys : List ℕ) (i : ℕ) → linear_find_loop 0 key keys i ≡ done none
unfolding linear_find_loop
linear_stop key keys i = refl

linear_step :
    (key : ℕ) (keys : List ℕ) (rest i k : ℕ)
    → get_elem? keys i ≡ some k
    → linear_find_loop (suc rest) key keys i
      ≡ (if k == key then done (some i) else linear_find_loop rest key keys (suc i))
unfolding linear_find_loop
linear_step key keys rest i k h = rw h

module _ (key : ℕ) (keys : List ℕ) (num : ℕ) (sorted : IsSorted keys num) where
  -- Behind a greater key, and before a smaller one, `key` is not found.
  absent_from :
      (mid k : ℕ)
      → mid < num
      → get_elem? keys mid ≡ some k
      → key < k
      → (i : ℕ) → mid ≤ i
      → i < num
      → get_elem? keys i ≢ some key
  absent_from mid k m at_mid lt i le l e = elim (eq_or_ne mid i) [
    | inl same ↦ omega (arith, eq_of_some k key (sym at_mid ∙ ap (get_elem? keys) same ∙ e))
    | inr ne ↦ omega (arith, sorted.ascends mid i k key (omega arith) l at_mid e)
  ]

  absent_to :
      (mid k : ℕ)
      → mid < num
      → get_elem? keys mid ≡ some k
      → k < key
      → (i : ℕ) → i ≤ mid
      → get_elem? keys i ≢ some key
  absent_to mid k m at_mid lt i le e = elim (eq_or_ne mid i) [
    | inl same ↦ omega (arith, eq_of_some k key (sym at_mid ∙ ap (get_elem? keys) same ∙ e))
    | inr ne ↦ omega (arith, sorted.ascends i mid key k (omega arith) m e at_mid)
  ]

  abbrev Found : Run (Option ℕ) → Type 0
  Found run = (o : Option ℕ) × (run ≡ done o) × IsPosition key keys num o

  find_loop_lem :
      (fuel left right : ℕ)
      → right - left < fuel
      → right ≤ num
      → ((i : ℕ) → i < left → get_elem? keys i ≢ some key)
      → ((i : ℕ) → right ≤ i → i < num → get_elem? keys i ≢ some key)
      → Found (binary_find_loop fuel key keys left right)
  find_loop_lem zero left right f r lo hi = absurd (omega arith)
  find_loop_lem (suc fuel) left right f r lo hi = elim (Bool-cases (ltb left right)) [
    | inr stop ↦ (
      none,
      round_stop key keys fuel left right stop,
      λ i l. elim (Bool-cases (ltb i left)) [
        | inl before ↦ lo i (lt-ltb i left before)
        | inr behind ↦ hi i (omega (arith, le-ltb i left behind, le-ltb left right stop)) l
      ],
    )
    | inl go ↦
        let lt : left < right = lt-ltb left right go in
        let (k, at_mid) = get_elem?-lt keys ((left + right) / 2) (omega (arith, sorted.fits)) in
        elim (three_way k key) [
          | inl (c, smaller) ↦
              let (o, eq, position) =
                find_loop_lem fuel ((left + right) / 2 + 1) right (omega arith) r
                  (λ i l.
                    absent_to ((left + right) / 2) k (omega arith) at_mid smaller i (omega arith))
                  hi in
              (o, round_less key keys fuel left right k go at_mid c ∙ eq, position)
          | inr (inl (c, same)) ↦ (
            some ((left + right) / 2),
            round_equal key keys fuel left right k go at_mid c,
            (omega arith, at_mid ∙ ap some same),
          )
          | inr (inr (c, greater)) ↦
              let (o, eq, position) =
                find_loop_lem fuel left ((left + right) / 2) (omega arith) (omega arith) lo
                  (λ i l m.
                    absent_from ((left + right) / 2) k (omega arith) at_mid greater i l m) in
              (o, round_greater key keys fuel left right k go at_mid c ∙ eq, position)
        ]
  ]

  linear_loop_lem :
      (rest i : ℕ)
      → i + rest ≡ num
      → ((j : ℕ) → j < i → get_elem? keys j ≢ some key)
      → Found (linear_find_loop rest key keys i)
  linear_loop_lem zero i e lo = (none, linear_stop key keys i, λ j l. lo j (omega arith))
  linear_loop_lem (suc rest) i e lo =
      let (k, at_i) = get_elem?-lt keys i (omega (arith, sorted.fits)) in
      elim (eq_or_ne k key) [
        | inl same ↦ (
          some i,
          linear_step key keys rest i k at_i ∙ rw (same, ==_refl key),
          (omega arith, at_i ∙ ap some same),
        )
        | inr ne ↦
            let (o, eq, position) = linear_loop_lem rest (suc i) (omega arith) (λ j l.
              elim (eq_or_ne j i) [
                | inl here ↦
                    λ z. ne (eq_of_some k key (sym at_i ∙ ap (get_elem? keys) (sym here) ∙ z))
                | inr before ↦ lo j (omega arith)
              ]) in
            (o, linear_step key keys rest i k at_i ∙ rw (==-ne k key ne) eq, position)
      ]

  -- On ascending keys, few or many, `u8_keys_find_key_position_sorted` ends within its fuel, reads no
  -- key out of range, and finds the position of the key; if it finds none, the key is not there.
  pub find_key_position_sorted_lem :
      (width : ℕ)
      → (o : Option ℕ) × (find_key_position_sorted width key keys num ≡ done o)
        × IsPosition key keys num o
  unfolding find_key_position_sorted binary_find_key
  find_key_position_sorted_lem width = elim (Bool-cases (leb width 4)) [
    | inl few ↦
        let (o, eq, position) = linear_loop_lem num 0 (omega arith) (λ j l. absurd (omega arith)) in
        (o, rw few eq, position)
    | inr many ↦
        let (o, eq, position) =
          find_loop_lem (suc num) 0 num (omega arith) (omega arith) (λ i l. absurd (omega arith))
            (λ i l m. absurd (omega arith)) in
        (o, rw many eq, position)
  ]

-- `(0..num_children).find(|&i| key < keys[i]).or(Some(num_children))`, from `i` on.
unfoldable pub find_insert_loop : ℕ → ℕ → List ℕ → ℕ → Run ℕ
find_insert_loop zero key keys i = done i
find_insert_loop (suc rest) key keys i = do
  k ← unwrap (get_elem? keys i)
  let next = find_insert_loop rest key keys (suc i)
  if ltb key k then done i else next

unfoldable pub find_insert_position_sorted : ℕ → List ℕ → ℕ → Run (Option ℕ)
unfolding find_insert_loop
find_insert_position_sorted key keys num_children = do
  i ← find_insert_loop num_children key keys 0
  done (some i)

insert_step :
    (key : ℕ) (keys : List ℕ) (rest i k : ℕ)
    → get_elem? keys i ≡ some k
    → find_insert_loop (suc rest) key keys i
      ≡ (if ltb key k then done i else find_insert_loop rest key keys (suc i))
unfolding find_insert_loop
insert_step key keys rest i k h = rw h

insert_stop : (key : ℕ) (keys : List ℕ) (i : ℕ) → find_insert_loop 0 key keys i ≡ done i
unfolding find_insert_loop
insert_stop key keys i = refl

module _ (key : ℕ) (keys : List ℕ) (num : ℕ) (sorted : IsSorted keys num) where
  -- `at` splits the keys into those that are not greater and those that are.
  abbrev pub IsSplit : ℕ → Type 0
  IsSplit at =
      (at ≤ num)
      × ((i k : ℕ) → i < at → get_elem? keys i ≡ some k → k ≤ key)
      × ((i k : ℕ) → at ≤ i → i < num → get_elem? keys i ≡ some k → key < k)

  insert_loop_lem :
      (rest i : ℕ)
      → i + rest ≡ num
      → ((j k : ℕ) → j < i → get_elem? keys j ≡ some k → k ≤ key)
      → (at : ℕ) × (find_insert_loop rest key keys i ≡ done at) × IsSplit at
  insert_loop_lem zero i e lo =
      (i, insert_stop key keys i, (omega arith, lo, λ j k l m. absurd (omega arith)))
  insert_loop_lem (suc rest) i e lo =
      let (k, at_i) = get_elem?-lt keys i (omega (arith, sorted.fits)) in
      elim (Bool-cases (ltb key k)) [
        | inl less ↦ (
          i,
          insert_step key keys rest i k at_i ∙ rw less,
          (
            omega arith,
            lo,
            λ j c l m e'. elim (eq_or_ne i j) [
              | inl same ↦ omega (
                arith,
                lt-ltb key k less,
                eq_of_some k c (sym at_i ∙ ap (get_elem? keys) same ∙ e'),
              )
              | inr ne ↦
                  omega (arith, lt-ltb key k less, sorted.ascends i j k c (omega arith) m at_i e')
            ],
          ),
        )
        | inr more ↦
            let (at, eq, split) = insert_loop_lem rest (suc i) (omega arith) (λ j c l e'.
              elim (eq_or_ne j i) [
                | inl same ↦ omega (
                  arith,
                  le-ltb key k more,
                  eq_of_some k c (sym at_i ∙ ap (get_elem? keys) (sym same) ∙ e'),
                )
                | inr ne ↦ lo j c (omega arith) e'
              ]) in
            (at, insert_step key keys rest i k at_i ∙ rw more eq, split)
      ]

  -- On ascending keys `u8_keys_find_insert_position_sorted` reads no key out of range, and returns the
  -- position before which no key is greater, and from which on every key is.
  pub find_insert_position_sorted_lem :
      (at : ℕ) × (find_insert_position_sorted key keys num ≡ done (some at)) × IsSplit at
  unfolding find_insert_position_sorted
  find_insert_position_sorted_lem =
      let (at, eq, split) = insert_loop_lem num 0 (omega arith) (λ j k l. absurd (omega arith)) in
      (at, rw eq, split)
