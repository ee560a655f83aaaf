-- ===== src/Iter/Yields.antt =====
-- What a loop over an iterator gets, and that `IterInner` yields what its state has left.
use rart_rs.Prelude.{
  ℕ, zero, suc, ◌<◌, ◌≡◌, refl, sym, ◌∙◌, ap, Option, none, some, List, [], ◌∷◌, length, Run, done,
  arith,
}
use rart_rs.Partials.{Bytes}
use rart_rs.Iter.{IterInner, next, empty, once, chain, iter_next, collect}
use rart_rs.Iter.State.{remaining, rounds_stack, Sound, ends, goes, yields}
use rart_rs.Iter.Rounds.{round_lem}

-- The iterator gives the items of the list, one by one, and then `None`.
abbrev pub Yields {ℓ} : {S A : Type ℓ} → (S → Run (Option A × S)) → S → List A → Type ℓ
Yields {S} step s [] = (s' : S) × (step s ≡ done (none, s'))
Yields {S} step s (a ∷ l) = (s' : S) × (step s ≡ done (some a, s')) × Yields step s' l

-- A loop over it gets the list.
pub collect-Yields {ℓ} :
    {S A : Type ℓ} (step : S → Run (Option A × S)) (s : S) (l : List A) (fuel : ℕ)
    → Yields step s l
    → length l < fuel
    → collect step fuel s ≡ done l
unfolding collect
collect-Yields step s l zero y h = absurd (omega arith)
collect-Yields step s [] (suc fuel) (s', e) h = rw e
collect-Yields step s (a ∷ l) (suc fuel) (s', e, y) h =
    rw (e, collect-Yields step s' l fuel y (omega arith))

cons_ne_nil : {A : Type 0} (a : A) (l : List A) → a ∷ l ≡ [] → ⊥
cons_ne_nil a l h = cc

module _ {V : Type 0} where
  data Stepped (fuel : ℕ) (it : IterInner V) : Type 0 where
    over :
        (it' : IterInner V) → next fuel it ≡ done (none, it') → remaining it ≡ [] → Stepped fuel it
    item :
        (k : Bytes) (v : V) (it' : IterInner V)
        → next fuel it ≡ done (some (k, v), it')
        → remaining it ≡ (k, v) ∷ remaining it'
        → rounds_stack it'.node_iter_stack < rounds_stack it.node_iter_stack
        → Sound it'
        → Stepped fuel it

  next_lem :
      (fuel : ℕ) (it : IterInner V)
      → Sound it
      → rounds_stack it.node_iter_stack < fuel
      → Stepped fuel it
  unfolding next
  next_lem zero it s h = absurd (omega arith)
  next_lem (suc fuel) it s h = elim (round_lem it s) [
    | ends e l ↦ over it (rw e) l
    | goes it' e l m s' ↦ elim (next_lem fuel it' s' (omega arith)) [
      | over it'' e' l' ↦ over it'' (rw e e') (l ∙ l')
      | item k v it'' e' l' m' s'' ↦ item k v it'' (rw e e') (l ∙ l') (omega arith) s''
    ]
    | yields k v it' e l m s' ↦ item k v it' (rw e) l m s'
  ]

  Yields-next :
      (fuel : ℕ) (it : IterInner V) (l : List (Bytes × V))
      → Sound it
      → rounds_stack it.node_iter_stack < fuel
      → remaining it ≡ l
      → Yields (next fuel) it l
  Yields-next fuel it [] s h e = elim (next_lem fuel it s h) [
    | over it' e' l' ↦ (it', e')
    | item k v it' e' l' m s' ↦ absurd (cons_ne_nil (k, v) (remaining it') (sym l' ∙ e))
  ]
  Yields-next fuel it (x ∷ l) s h e = elim (next_lem fuel it s h) [
    | over it' e' l' ↦ absurd (cons_ne_nil x l (sym e ∙ l'))
    | item k v it' e' l' m s' ↦
        let same : (k, v) ∷ remaining it' ≡ x ∷ l = sym l' ∙ e in
        (
          it',
          e' ∙ ap (λ y. done (some y, it')) (head_eq same),
          Yields-next fuel it' l s' (omega arith) (tail_eq same),
        )
  ]
    where
      head_eq : {A : Type 0} {a b : A} {l r : List A} → a ∷ l ≡ b ∷ r → a ≡ b
      head_eq h' = cc

      tail_eq : {A : Type 0} {a b : A} {l r : List A} → a ∷ l ≡ b ∷ r → l ≡ r
      tail_eq h' = cc

  Yields-children :
      (fuel : ℕ) (it : IterInner V) (l : List (Bytes × V))
      → Yields (next fuel) it l
      → Yields (iter_next fuel) (chain none it) l
  unfolding iter_next
  Yields-children fuel it [] (it', e) = (chain none it', rw e)
  Yields-children fuel it (x ∷ l) (it', e, y) = (chain none it', rw e, Yields-children fuel it' l y)

  -- The root's entry, if there is one, comes before the children's.
  abbrev pub first : Option (Bytes × V) → List (Bytes × V) → List (Bytes × V)
  first none l = l
  first (some x) l = x ∷ l

  pub Yields-chain :
      (fuel : ℕ) (x : Option (Bytes × V)) (it : IterInner V)
      → Sound it
      → rounds_stack it.node_iter_stack < fuel
      → Yields (iter_next fuel) (chain x it) (first x (remaining it))
  unfolding iter_next
  Yields-chain fuel none it s h =
      Yields-children fuel it (remaining it) (Yields-next fuel it (remaining it) s h refl)
  Yields-chain fuel (some x) it s h = (
    chain none it,
    refl,
    Yields-children fuel it (remaining it) (Yields-next fuel it (remaining it) s h refl),
  )

  pub Yields-once : (fuel : ℕ) (x : Bytes × V) → Yields (iter_next fuel) (once x) (x ∷ [])
  unfolding iter_next
  Yields-once fuel x = (empty, refl, (empty, refl))

  pub Yields-empty : (fuel : ℕ) → Yields (iter_next {V = V} fuel) empty []
  unfolding iter_next
  Yields-empty fuel = (empty, refl)
