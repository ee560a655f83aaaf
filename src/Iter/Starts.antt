-- ===== src/Iter/Starts.antt =====
-- `Iter::new_with_start_bound` of rart/src/iter.rs yields the entries from its bound on.
use rart_rs.Prelude.{
  ℕ, ◌<◌, ◌≡◌, refl, sym, ◌∙◌, ap, true, false, Option, none, some, List, [], ◌∷◌, ◌++◌, done,
  arith, if◌then◌else◌, Bool-cases, inl, inr, subst,
}
use rart_rs.Partials.{Bytes}
use rart_rs.Node.{Node, node, Kids, nil, Kind, is_leaf, prefix_of}
use rart_rs.Node.Valid.{IsValid}
use rart_rs.Iter.{
  Bound, Iter, empty, once, chain, IterInner, IterFrameIter, iter_next, build_positioned_stack,
  inner_with_start_bound, new_with_start_bound, with_key,
}
use rart_rs.Iter.Order.{meets, satisfies_start-eq_meets}
use rart_rs.Iter.Entries.{under, entry, entries, entries_kids}
use rart_rs.Iter.State.{rounds, rounds_kids, skip}
use rart_rs.Iter.Find.{IsAscending}
use rart_rs.Iter.Sorted.{entries-IsAscending}
use rart_rs.Iter.Yields.{Yields, first, Yields-chain, Yields-once, Yields-empty}
use rart_rs.Iter.Filters.{skip-AllAbove}
use rart_rs.Iter.Laws.{entries_at-prefix, leaf-Yields}
use rart_rs.Iter.Position.{Seeks, seeks_included, seeks_excluded, build_positioned_stack_lem}
use rart_rs.Tree.Remove.Total.{leaf_childless}

module _ {V : Type 0} where
  -- The root's entry before what the bound leaves of the children.
  first-skip :
      (b : Bound) (p : Bytes) (v : Option V) (l : List (Bytes × V))
      → IsAscending (entry p v ++ l)
      → first (if meets b p then with_key p v else none) (skip (some b) l)
        ≡ skip (some b) (entry p v ++ l)
  first-skip b p none l a = elim (Bool-cases (meets b p)) [ inl h ↦ rw h refl | inr h ↦ rw h refl ]
  first-skip b p (some v) l a = elim (Bool-cases (meets b p)) [
    | inl h ↦ rw (h, skip-AllAbove b p l h a.0) refl
    | inr h ↦ rw h refl
  ]

  abbrev bounded : List (ℕ × IterFrameIter V) → Bytes → Bound → IterInner V
  bounded stack p b = record { node_iter_stack = stack; cur_key = p; start_bound = some b }

  inner_bounded :
      (b : Bound) (seek : Bytes) (n : Node V) (stack : List (ℕ × IterFrameIter V))
      → Seeks seek b
      → build_positioned_stack n seek 0 ≡ done stack
      → inner_with_start_bound n b ≡ done (bounded stack (prefix_of n) b)
  unfolding inner_with_start_bound
  inner_bounded b seek n stack seeks_included e = rw e refl
  inner_bounded b seek n stack seeks_excluded e = rw e refl

  abbrev pub StartsAt : Bound → Node V → ℕ → Type 0
  StartsAt b n fuel =
      (it : Iter V) × (new_with_start_bound (some n) b ≡ done it)
      × Yields (iter_next fuel) it (skip (some b) (entries n))

  IsAscending-at :
      (p : Bytes) (v : Option V) (kind : Kind) (ks : Kids V)
      → IsValid (node p v kind ks)
      → IsAscending (entry p v ++ under p (entries_kids ks))
  IsAscending-at p v kind ks w =
      subst IsAscending (sym (entries_at-prefix (node p v kind ks)))
        (entries-IsAscending (node p v kind ks) w)

  inner_starts :
      (b : Bound) (seek p : Bytes) (v : Option V) (kind : Kind) (ks : Kids V) (fuel : ℕ)
      → Seeks seek b
      → IsValid (node p v kind ks)
      → rounds_kids ks < fuel
      → is_leaf kind ≡ false
      → StartsAt b (node p v kind ks) fuel
  unfolding new_with_start_bound
  inner_starts b seek p v kind ks fuel s w h leaf =
      let (stack, e, i) = build_positioned_stack_lem b (node p v kind ks) seek s w in
      let root = if meets b p then with_key p v else none in
      (
        chain root (bounded stack p b),
        rw (satisfies_start-eq_meets b p, leaf, inner_bounded b seek (node p v kind ks) stack s e)
            refl,
        subst (Yields (iter_next fuel) (chain root (bounded stack p b)))
            (ap (first root) i.left
              ∙ first-skip b p v (under p (entries_kids ks)) (IsAscending-at p v kind ks w)
              ∙ ap (skip (some b)) (entries_at-prefix (node p v kind ks)))
            (Yields-chain fuel root (bounded stack p b) i.nested (omega (arith, i.shorter))),
      )

  leaf_entries :
      (p : Bytes) (v : Option V) (kind : Kind) (ks : Kids V) (x : V)
      → IsValid (node p v kind ks)
      → is_leaf kind ≡ true
      → v ≡ some x
      → entries (node p v kind ks) ≡ (p, x) ∷ []
  unfolding entries
  leaf_entries p v kind ks x w leaf e =
      sym (entries_at-prefix (node p v kind ks))
      ∙ rw (leaf_childless kind ks w.0 leaf, e) no_children
    where
      no_children : (p, x) ∷ under p (entries_kids nil) ≡ (p, x) ∷ []
      no_children = refl

  leaf_starts :
      (b : Bound) (p : Bytes) (v : Option V) (kind : Kind) (ks : Kids V) (fuel : ℕ)
      → IsValid (node p v kind ks)
      → is_leaf kind ≡ true
      → StartsAt b (node p v kind ks) fuel
  unfolding new_with_start_bound
  leaf_starts b p v kind ks fuel w leaf =
      let (x, e, y) = leaf-Yields v kind ks p p fuel w leaf in
      elim (Bool-cases (meets b p)) [
        | inl h ↦ (
          once (p, x),
          rw (satisfies_start-eq_meets b p, leaf, h, e) refl,
          rw (leaf_entries p v kind ks x w leaf e, h) (Yields-once fuel (p, x)),
        )
        | inr h ↦ (
          empty,
          rw (satisfies_start-eq_meets b p, leaf, h) refl,
          rw (leaf_entries p v kind ks x w leaf e, h) (Yields-empty fuel),
        )
      ]

  pub new_with_start_bound_lem :
      (b : Bound) (seek : Bytes) (n : Node V) (fuel : ℕ)
      → Seeks seek b
      → IsValid n
      → rounds n < fuel
      → StartsAt b n fuel
  unfolding rounds
  new_with_start_bound_lem b seek (node p v kind ks) fuel s w h = elim (Bool-cases (is_leaf kind)) [
    | inl leaf ↦ leaf_starts b p v kind ks fuel w leaf
    | inr leaf ↦ inner_starts b seek p v kind ks fuel s w (omega arith) leaf
  ]
