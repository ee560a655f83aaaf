-- ===== src/Iter/Lending/Ranges.antt =====
-- `for_each_range_view`: what it visits of a tree.
use rart_rs.Prelude.{
  ℕ, ◌<◌, ◌≡◌, inl, inr, refl, sym, ◌∙◌, ap, true, false, Option, none, some, List, [], ◌++◌,
  append-nil, done, arith, if◌then◌else◌, Bool-cases, subst,
}
use rart_rs.Partials.{Bytes}
use rart_rs.Node.{Node, node, Kids, nil, Kind, is_leaf}
use rart_rs.Node.Valid.{IsValid}
use rart_rs.Tree.{Tree}
use rart_rs.Tree.Get.{contents}
use rart_rs.Tree.Laws.{IsValidTree, ValidRoot, tree_at}
use rart_rs.Tree.Remove.Total.{leaf_childless}
use rart_rs.Tree.Search.View.{LendingKeyView, push_segment}
use rart_rs.Iter.{Bound}
use rart_rs.Iter.Order.{meets}
use rart_rs.Iter.Bounds.{within_end}
use rart_rs.Iter.Entries.{under, entry, entries, entries_kids}
use rart_rs.Iter.State.{rounds}
use rart_rs.Iter.Find.{find, IsAscending}
use rart_rs.Iter.Sorted.{kids-IsAscending, IsAscending-under, find-entries}
use rart_rs.Iter.Filters.{find_nil}
use rart_rs.Iter.Laws.{entries_at-prefix, rounds_root}
use rart_rs.Iter.Lending.{root_visit}
use rart_rs.Iter.Lending.Left.{keyed, keyed-append, keyed_kids, kids_visits}
use rart_rs.Iter.Lending.Laws.{visit_each_lem}
use rart_rs.Iter.Lending.Ends.{IsKept, up_to_lem, AreViews-kids}
use rart_rs.Iter.Lending.First.{
  no_view, root_segment-IsView, to_vec-root, root_satisfies_start-eq_meets, within_end_bound-root,
  first_frames_lem,
}
use rart_rs.Iter.Lending.Bounded.{
  end_bound_vec, for_each_bounded_root, for_each_with_bounds, for_each_range_view,
}
use rart_rs.Iter.Lending.Cover.{
  IsCover, IsCover-root, IsCover-nothing, keyed_part, root_part, none_ne_some,
}

module _ {V : Type 0} where
  abbrev Covers : ℕ → Node V → Bound → Bound → Type 0
  Covers fuel (node p v kind ks) start end =
      (l : List (LendingKeyView × V)) × (for_each_bounded_root fuel (node p v kind ks)
          (push_segment no_view p) start end
        ≡ done l)
      × IsCover (λ key. find key (entry p v ++ under p (entries_kids ks))) start end (keyed l)

  module _ (fuel : ℕ) (p : Bytes) (v : Option V) (kind : Kind) (ks : Kids V) (start end : Bound)
      (w : IsValid (node p v kind ks)) where
    abbrev view : LendingKeyView
    view = push_segment no_view p

    abbrev here : List (LendingKeyView × V)
    here = if meets start p then root_visit view v else []

    Covers-past : within_end end p ≡ false → Covers fuel (node p v kind ks) start end
    unfolding for_each_bounded_root
    Covers-past h = (
      [],
      rw (root_satisfies_start-eq_meets start p, within_end_bound-root end p, h) refl,
      IsCover-nothing start end p v ks w.2 h,
    )

    shown_keys : (kids : Kids V) → keyed (kids_visits view kids) ≡ under p (entries_kids kids)
    shown_keys kids = keyed_kids view kids ∙ ap (λ q. under q (entries_kids kids)) (to_vec-root p)

    here_keys : keyed here ≡ root_part (meets start p) p v
    here_keys = keyed_part (meets start p) view p v (to_vec-root p)

    leaf-IsCover :
        ks ≡ nil
        → IsCover (λ key. find key (entry p v ++ under p (entries_kids ks))) start end (keyed here)
    unfolding entries
    leaf-IsCover e =
        subst (IsCover (λ key. find key (entry p v ++ under p (entries_kids ks))) start end)
          (append-nil (root_part (meets start p) p v) ∙ sym here_keys)
          (rw e (
            IsCover-root start end p v nil nil [] [] tt tt refl (λ key m. refl)
              (record {
                within = λ key z. refl;
                only = λ key x z. z;
                above = λ key z. z;
                ascending = λ z. z;
              })))

    Covers-leaf :
        within_end end p ≡ true → is_leaf kind ≡ true → Covers fuel (node p v kind ks) start end
    unfolding for_each_bounded_root
    Covers-leaf h leaf = (
      here,
      rw (root_satisfies_start-eq_meets start p, within_end_bound-root end p, h, leaf) refl,
      leaf-IsCover (leaf_childless kind ks w.0 leaf),
    )

    Covers-inner :
        within_end end p ≡ true
        → is_leaf kind ≡ false
        → rounds (node p v kind ks) < fuel
        → Covers fuel (node p v kind ks) start end
    unfolding for_each_bounded_root rounds
    Covers-inner h inner enough =
        let (frames, e, first) = first_frames_lem start p v kind ks w in
        let shown = shown_keys first.kids in
        let ascending : IsAscending (keyed (kids_visits view first.kids)) =
          subst IsAscending (sym shown) (
            IsAscending-under p (entries_kids first.kids)
              (kids-IsAscending first.kids first.valid)) in
        let (r, e', kept) =
          up_to_lem end (kids_visits view first.kids)
            (AreViews-kids view first.kids (root_segment-IsView p)) ascending in
        (
          here ++ r,
          rw
              (
                root_satisfies_start-eq_meets start p,
                within_end_bound-root end p,
                h,
                inner,
                e,
                visit_each_lem fuel
                    (record { node_iter_stack = frames; cur = view; end_bound = end_bound_vec end })
                    first.nested (omega (arith, first.shorter)),
                first.shown,
                e',
              )
              refl,
          subst (IsCover (λ key. find key (entry p v ++ under p (entries_kids ks))) start end)
              (sym (keyed-append here r ∙ ap (λ l. l ++ keyed r) here_keys))
              (IsCover-root start end p v ks first.kids (keyed r) first.dropped.0 w.2 first.valid
                first.dropped.1 first.keeps (subst (λ l. IsKept end l (keyed r)) shown kept)),
        )

    Covers-root : rounds (node p v kind ks) < fuel → Covers fuel (node p v kind ks) start end
    Covers-root enough = elim (Bool-cases (within_end end p)) [
      | inl h ↦ elim (Bool-cases (is_leaf kind)) [
        | inl leaf ↦ Covers-leaf h leaf
        | inr inner ↦ Covers-inner h inner enough
      ]
      | inr h ↦ Covers-past h
    ]

  IsCover-cong :
      (m m' : Bytes → Option V) (start end : Bound) (l : List (Bytes × V))
      → ((key : Bytes) → m key ≡ m' key)
      → IsCover m start end l
      → IsCover m' start end l
  IsCover-cong m m' start end l h c = record {
    ascending = c.ascending;
    covered = λ key a b. c.covered key a b ∙ h key;
    only = λ key v z. sym (h key) ∙ c.only key v z;
  }

  covers_tree :
      (root : Option (Node V)) (len : ℕ) (start end : Bound) (fuel : ℕ)
      → ValidRoot root len
      → rounds_root root < fuel
      → (l : List (LendingKeyView × V)) × (for_each_with_bounds fuel root start end ≡ done l)
        × IsCover (contents (tree_at root len)) start end (keyed l)
  unfolding for_each_with_bounds
  covers_tree none len start end fuel w h = (
    [],
    refl,
    record {
      ascending = tt;
      covered = λ key a b. find_nil key;
      only = λ key v z. absurd (none_ne_some v (sym (find_nil key) ∙ z));
    },
  )
  covers_tree (some (node p v kind ks)) len start end fuel w h =
      let (l, e, c) = Covers-root fuel p v kind ks start end w.0 h in
      (
        l,
        e,
        IsCover-cong _ _ start end (keyed l)
            (λ key.
              ap (find key) (entries_at-prefix (node p v kind ks))
              ∙ find-entries (node p v kind ks) key w.0)
            c,
      )

  -- `for_each_range_view` on a valid tree, with any two bounds and fuel for the rounds of the whole
  -- tree, does not panic. It visits in strictly ascending order keys of the tree, each with its value,
  -- and of those within both bounds all. It may visit others.
  pub for_each_range_view_lem :
      (t : Tree V) (start end : Bound) (fuel : ℕ)
      → IsValidTree t
      → rounds_root t.root < fuel
      → (l : List (LendingKeyView × V)) × (for_each_range_view fuel t start end ≡ done l)
        × IsCover (contents t) start end (keyed l)
  unfolding for_each_range_view
  for_each_range_view_lem t start end fuel w h = covers_tree t.root t.len start end fuel w.rooted h
