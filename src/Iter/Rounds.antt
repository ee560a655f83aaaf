-- ===== src/Iter/Rounds.antt =====
-- One round of the loop of `IterInner::next` does not panic, and goes on as the state says.
use rart_rs.Prelude.{
  ℕ, zero, suc, ◌+◌, ◌<◌, ◌≤◌, ◌≡◌, refl, sym, ◌∙◌, ap, Bool, true, false, Option, none, some, List,
  [], ◌∷◌, ◌++◌, ◌⊎◌, append_assoc, length, length-append, take, take-length_append, done, arith,
  if◌then◌else◌, Bool-cases, inl, inr, length-take,
}
use rart_rs.Partials.{Bytes}
use rart_rs.Node.{Node, node, Kids, nil, cons, is_leaf, Kind}
use rart_rs.Node.Valid.{ValidKids}
use rart_rs.Tree.Remove.Total.{leaf_childless}
use rart_rs.Iter.{
  Bound, IterFrameIter, plain, leading, IterInner, frame_next, kids_next, truncate_to_parent,
  passes, offer, round_child, round_on, round,
}
use rart_rs.Iter.Order.{meets, satisfies_start-eq_meets}
use rart_rs.Iter.Entries.{
  under, entry, entries, entries_kids, under-append, under-under, under-entry,
}
use rart_rs.Iter.State.{
  frame_kids, stack_entries, skip, remaining, rounds, rounds_kids, rounds_stack, Nested, Sound,
  Progress, ends, goes, yields,
}

pub take-beyond : (n : ℕ) (p : Bytes) → length p ≤ n → take n p ≡ p
take-beyond zero [] h = refl
take-beyond zero (x ∷ p) h = absurd (omega arith)
take-beyond (suc n) [] h = refl
take-beyond (suc n) (x ∷ p) h = rw (take-beyond n p (omega arith))

pub take-take : (n : ℕ) (p : Bytes) → take n (take n p) ≡ take n p
take-take zero p = refl
take-take (suc n) [] = refl
take-take (suc n) (x ∷ p) = rw (take-take n p)

pub take-append : (n : ℕ) (p q : Bytes) → n ≡ length p → take n (p ++ q) ≡ p
take-append n p q h = rw h (take-length_append p q)

module _ {V : Type 0} where
  pub frame_nil :
      (f : IterFrameIter V)
      → frame_kids f ≡ nil
      → (f' : IterFrameIter V) × (frame_next f ≡ (none, f'))
  unfolding frame_next kids_next
  frame_nil (plain nil) h = (plain nil, refl)
  frame_nil (plain (cons e n ks)) h = cc
  frame_nil (leading none nil) h = (leading none nil, refl)
  frame_nil (leading none (cons e n ks)) h = cc
  frame_nil (leading (some (e, n)) rest) h = cc

  pub frame_cons :
      (f : IterFrameIter V) (e : ℕ) (n : Node V) (ks : Kids V)
      → frame_kids f ≡ cons e n ks
      → (f' : IterFrameIter V) × (frame_next f ≡ (some (e, n), f')) × (frame_kids f' ≡ ks)
  unfolding frame_next kids_next
  frame_cons (plain nil) e n ks h = cc
  frame_cons (plain (cons e' n' ks')) e n ks h = (plain ks', cc, cc)
  frame_cons (leading none nil) e n ks h = cc
  frame_cons (leading none (cons e' n' ks')) e n ks h = (leading none ks', cc, cc)
  frame_cons (leading (some (e', n')) rest) e n ks h = (leading none rest, cc, cc)

  passes-eq :
      (b : Option Bound) (k : Bytes) (v : V) (l : List (Bytes × V))
      → (passes b k ≡ done true) × (skip b ((k, v) ∷ l) ≡ (k, v) ∷ l)
        ⊎ (passes b k ≡ done false) × (skip b ((k, v) ∷ l) ≡ skip b l)
  unfolding passes
  passes-eq none k v l = inl (refl, refl)
  passes-eq (some b) k v l = elim (Bool-cases (meets b k)) [
    | inl h ↦ inl (rw h at (satisfies_start-eq_meets b k), rw h)
    | inr h ↦ inr (rw h at (satisfies_start-eq_meets b k), rw h)
  ]

  -- A round that comes to a child, whose entries below its own value are `l`.
  offer_lem :
      (v : Option V) (leaf : Bool) (depth : ℕ) (key : Bytes) (stack : List (ℕ × IterFrameIter V))
      (bound : Option Bound) (l : List (Bytes × V)) (n : ℕ)
      → stack_entries stack key ≡ l
      → stack_entries stack (if leaf then take depth key else key) ≡ l
      → Nested stack (length key)
      → Nested stack (length (if leaf then take depth key else key))
      → rounds_stack stack < n
      → Progress (offer v leaf depth key stack bound) (skip bound (entry key v ++ l)) n
  unfolding offer
  offer_lem none leaf depth key stack bound l n e e' s s' m =
      goes _ refl (ap (skip bound) (sym e')) m s'
  offer_lem (some v) leaf depth key stack bound l n e e' s s' m = elim (passes-eq bound key v l) [
    | inl h ↦
        yields key v (record { node_iter_stack = stack; cur_key = key; start_bound = none })
          (rw (h.0)) (h.1 ∙ ap (λ r. (key, v) ∷ r) (sym e)) m s
    | inr h ↦
        goes (record { node_iter_stack = stack; cur_key = key; start_bound = bound }) (rw (h.0))
          (h.1 ∙ ap (skip bound) (sym e)) m s
  ]

  -- What a child of a frame leaves on the stack.
  abbrev pushed :
      Kind
      → ℕ
      → Bytes
      → Kids V
      → IterFrameIter V
      → List (ℕ × IterFrameIter V)
      → List (ℕ × IterFrameIter V)
  pushed kind depth p ks f stack =
      if is_leaf kind then (depth, f) ∷ stack else (depth + length p, plain ks) ∷ (depth, f) ∷ stack

  module _ (kind : Kind) (depth : ℕ) (c p : Bytes) (ks : Kids V) (f : IterFrameIter V)
      (stack : List (ℕ × IterFrameIter V)) (at_depth : depth ≡ length c)
      (leaf_nil : is_leaf kind ≡ true → ks ≡ nil) (below : Nested stack depth)
      (valid : ValidKids (frame_kids f)) (valid_ks : ValidKids ks) where
    abbrev rest_entries : List (Bytes × V)
    rest_entries = under c (entries_kids (frame_kids f)) ++ stack_entries stack c

    top_entries : stack_entries ((depth, f) ∷ stack) (c ++ p) ≡ rest_entries
    unfolding stack_entries
    top_entries = rw (take-append depth c p at_depth)

    pushed_entries :
        stack_entries (pushed kind depth p ks f stack) (c ++ p)
        ≡ under (c ++ p) (entries_kids ks) ++ rest_entries
    unfolding stack_entries entries
    pushed_entries = elim (Bool-cases (is_leaf kind)) [
      | inl h ↦ rw (h, leaf_nil h) top_entries
      | inr h ↦ rw (
        h,
        take-beyond (depth + length p) (c ++ p) (omega (arith, length-append c p)),
        take-append depth c p at_depth,
      )
    ]

    truncated_entries :
        stack_entries
          (pushed kind depth p ks f stack)
          (if is_leaf kind then take depth (c ++ p) else (c ++ p))
        ≡ under (c ++ p) (entries_kids ks) ++ rest_entries
    unfolding stack_entries entries
    truncated_entries = elim (Bool-cases (is_leaf kind)) [
      | inl h ↦
          rw (h, leaf_nil h, take-append depth c p at_depth, take-beyond depth c (omega arith))
      | inr h ↦ rw h (rw h at pushed_entries)
    ]

    Nested-pushed :
        (n : ℕ)
        → depth ≤ n
        → (is_leaf kind ≡ false → depth + length p ≤ n)
        → Nested (pushed kind depth p ks f stack) n
    Nested-pushed n h k = elim (Bool-cases (is_leaf kind)) [
      | inl b ↦ rw b (h, valid, below)
      | inr b ↦ rw b (k b, valid_ks, (omega arith, valid, below))
    ]

    rounds-pushed :
        rounds_stack (pushed kind depth p ks f stack)
        ≤ rounds_kids ks + (rounds_kids (frame_kids f) + rounds_stack stack)
    unfolding rounds_stack
    rounds-pushed = elim (Bool-cases (is_leaf kind)) [
      | inl b ↦ rw b (omega arith)
      | inr b ↦ rw b (omega arith)
    ]

    Nested-truncated :
        Nested
          (pushed kind depth p ks f stack)
          (length (if is_leaf kind then take depth (c ++ p) else (c ++ p)))
    Nested-truncated = elim (Bool-cases (is_leaf kind)) [
      | inl b ↦ rw (b, take-append depth c p at_depth) (omega arith, valid, below)
      | inr b ↦ rw b (omega (arith, length-append c p), valid_ks, (omega arith, valid, below))
    ]

    Nested-key : Nested (pushed kind depth p ks f stack) (length (c ++ p))
    Nested-key =
        Nested-pushed (length (c ++ p)) (omega (arith, length-append c p))
          (λ b. omega (arith, length-append c p))

  parent_entries :
      (stack : List (ℕ × IterFrameIter V)) (c : Bytes)
      → stack_entries stack c ≡ stack_entries stack (truncate_to_parent stack c)
  unfolding stack_entries truncate_to_parent
  parent_entries [] c = refl
  parent_entries ((depth, f) ∷ stack) c = rw (take-take depth c)

  Nested-parent :
      (stack : List (ℕ × IterFrameIter V)) (c : Bytes)
      → Nested stack (length c)
      → Nested stack (length (truncate_to_parent stack c))
  unfolding truncate_to_parent
  Nested-parent [] c s = tt
  Nested-parent ((depth, f) ∷ stack) c s = (omega (arith, length-take depth c), s.1, s.2)

  child_entries :
      (c p : Bytes) (v : Option V) (e r s : List (Bytes × V))
      → under c (under p (entry [] v ++ e) ++ r) ++ s
        ≡ entry (c ++ p) v ++ (under (c ++ p) e ++ (under c r ++ s))
  child_entries c p v e r s = rw (
    under-append c (under p (entry [] v ++ e)) r,
    under-under c p (entry [] v ++ e),
    under-append (c ++ p) (entry [] v) e,
    under-entry (c ++ p) v,
    append_assoc,
    append_assoc,
  )

  round_child_lem :
      (depth : ℕ) (f : IterFrameIter V) (stack : List (ℕ × IterFrameIter V)) (c : Bytes)
      (bound : Option Bound)
      → depth ≡ length c
      → Nested stack depth
      → ValidKids (frame_kids f)
      → Progress
          (round_child depth (frame_next f) stack c bound)
          (skip bound (under c (entries_kids (frame_kids f)) ++ stack_entries stack c))
          (rounds_kids (frame_kids f) + rounds_stack stack)
  unfolding round_child entries rounds
  round_child_lem depth f stack c bound d s w = go (frame_kids f) refl w
    where
      go :
          (ks : Kids V)
          → frame_kids f ≡ ks
          → ValidKids ks
          → Progress
              (round_child depth (frame_next f) stack c bound)
              (skip bound (under c (entries_kids ks) ++ stack_entries stack c))
              (rounds_kids ks + rounds_stack stack)
      go nil e w' =
          let (f', eq) = frame_nil f e in
          goes
            (record {
              node_iter_stack = stack;
              cur_key = truncate_to_parent stack c;
              start_bound = bound;
            })
            (rw eq) (ap (skip bound) (parent_entries stack c)) (omega arith)
            (Nested-parent stack c (rw (← d) s))
      go (cons k (node p v kind ks) rest) e w' =
          let (f', eq, kids) = frame_cons f k (node p v kind ks) rest e in
          let childless = leaf_childless kind ks w'.2.0 in
          let valid : ValidKids (frame_kids f') = rw kids w'.4 in
          rw
            (
              eq,
              child_entries c p v (entries_kids ks) (entries_kids rest) (stack_entries stack c),
              ← kids,
            )
            (offer_lem v (is_leaf kind) depth (c ++ p) (pushed kind depth p ks f' stack) bound
              (under (c ++ p) (entries_kids ks)
                ++ rest_entries kind depth c p ks f' stack d childless s valid w'.2.2)
              (rounds_kids (cons k (node p v kind ks) (frame_kids f')) + rounds_stack stack)
              (pushed_entries kind depth c p ks f' stack d childless s valid w'.2.2)
              (truncated_entries kind depth c p ks f' stack d childless s valid w'.2.2)
              (Nested-key kind depth c p ks f' stack d childless s valid w'.2.2)
              (Nested-truncated kind depth c p ks f' stack d childless s valid w'.2.2)
              (omega (arith, rounds-pushed kind depth c p ks f' stack d childless s valid w'.2.2)))

  -- A round on a sound state does not panic, leaves a sound state with fewer rounds to go, and yields
  -- what is to be yielded first, or nothing.
  pub round_lem :
      (it : IterInner V)
      → Sound it
      → Progress (round it) (remaining it) (rounds_stack it.node_iter_stack)
  unfolding round round_on stack_entries rounds_stack
  round_lem it s = go it.node_iter_stack it.cur_key it.start_bound s
    where
      go :
          (stack : List (ℕ × IterFrameIter V)) (cur : Bytes) (bound : Option Bound)
          → Nested stack (length cur)
          → Progress
              (round_on stack cur bound)
              (skip bound (stack_entries stack cur))
              (rounds_stack stack)
      go [] cur none s' = ends refl refl
      go [] cur (some b) s' = ends refl refl
      go ((depth, f) ∷ stack) cur bound s' =
          round_child_lem depth f stack (take depth cur) bound
            (omega (arith, length-take depth cur)) s'.2 s'.1
