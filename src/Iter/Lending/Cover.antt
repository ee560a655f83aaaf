-- ===== src/Iter/Lending/Cover.antt =====
-- What covers the part of a map that is between two bounds.
use rart_rs.Prelude.{
  ◌≡◌, inl, inr, refl, sym, ◌∙◌, ap, Bool, true, false, Option, none, some, List, [], ◌∷◌, ◌++◌,
  append-nil, if◌then◌else◌, Bool-cases, subst,
}
use rart_rs.Partials.{Bytes}
use rart_rs.Keys.Slices.{bytes_cmp}
use rart_rs.Node.{Kids}
use rart_rs.Node.Valid.{ValidKids}
use rart_rs.Tree.Search.View.{LendingKeyView, to_vec}
use rart_rs.Iter.{Bound}
use rart_rs.Iter.Order.{meets, bytes_cmp-eq}
use rart_rs.Iter.Bounds.{within_end, within_end-Precedes, false_ne_true}
use rart_rs.Iter.Entries.{under, entry, entries_kids}
use rart_rs.Iter.Find.{find, found_at-ne, AllAbove, IsAscending, find-append, or_later}
use rart_rs.Iter.Sorted.{
  kids-IsAscending, IsAscending-under, any_Starts, AllAbove-nil, AllAbove-under,
}
use rart_rs.Iter.Filters.{find-AllTests, AllTests, AllTests-AllAbove, find_nil}
use rart_rs.Iter.Lending.{root_visit}
use rart_rs.Iter.Lending.Left.{keyed, keyed_root}
use rart_rs.Iter.Lending.Ends.{IsKept}

module _ {V : Type 0} where
  -- The keys ascend, those within both bounds are all there, and none is there that `m` has not.
  pub record IsCover (m : Bytes → Option V) (start end : Bound) (l : List (Bytes × V))
      : Type 0 where
    pub ascending : IsAscending l
    pub covered :
        (key : Bytes) → meets start key ≡ true → within_end end key ≡ true → find key l ≡ m key
    pub only : (key : Bytes) (v : V) → find key l ≡ some v → m key ≡ some v

  find_above : (k : Bytes) (l : List (Bytes × V)) → AllAbove k l → find k l ≡ none
  unfolding find
  find_above k [] a = refl
  find_above k ((q, v) ∷ l) a = rw (a.0) (find_above k l a.1)

  pub none_ne_some : (v : V) → none ≡ some v → ⊥
  none_ne_some v h = cc

  find_later :
      (key k : Bytes) (v w : V) (l : List (Bytes × V))
      → AllAbove k l
      → find key l ≡ some w
      → find key ((k, v) ∷ l) ≡ some w
  unfolding find
  find_later key k v w l a h =
      found_at-ne (bytes_cmp key k) v (find key l) (λ e.
        none_ne_some w
          (sym (find_above k l a) ∙ (ap (λ q. find q l) (sym (bytes_cmp-eq key k e)) ∙ h)))
      ∙ h

  -- What is found in the last part of an ascending list is found in the list.
  find_last :
      (key : Bytes) (w : V) (l r : List (Bytes × V))
      → IsAscending (l ++ r)
      → find key r ≡ some w
      → find key (l ++ r) ≡ some w
  find_last key w [] r a h = h
  find_last key w ((k, v) ∷ l) r a h = find_later key k v w (l ++ r) a.0 (find_last key w l r a.1 h)

  pub AllAbove-prefix :
      (p : Bytes) (ks : Kids V) → ValidKids ks → AllAbove p (under p (entries_kids ks))
  AllAbove-prefix p ks w = rw (append-nil p) at (
      AllAbove-under p [] (entries_kids ks)
        (AllAbove-nil (λ y. Unit) (entries_kids ks) (any_Starts ks w)))

  IsAscending-entry :
      (p : Bytes) (v : Option V) (l : List (Bytes × V))
      → AllAbove p l
      → IsAscending l
      → IsAscending (entry p v ++ l)
  IsAscending-entry p none l a b = b
  IsAscending-entry p (some v) l a b = (a, b)

  or_only :
      (o l r : Option V) (x : V)
      → (l ≡ some x → r ≡ some x)
      → or_later o l ≡ some x
      → or_later o r ≡ some x
  or_only none l r x h z = h z
  or_only (some y) l r x h z = z

  abbrev pub root_part : Bool → Bytes → Option V → List (Bytes × V)
  root_part b p v = if b then entry p v else []

  root_left_out :
      (T : Bytes → Bool) (b : Bool) (key p : Bytes) (v : Option V)
      → T p ≡ b
      → (T key ≡ b → ⊥)
      → find key (entry p v) ≡ none
  root_left_out T b key p none h k = find_nil key
  root_left_out T b key p (some v) h k = find-AllTests T b key ((p, v) ∷ []) (h, tt) k

  module _ (start end : Bound) (p : Bytes) (v : Option V) (ks kids : Kids V)
      (r dropped : List (Bytes × V)) (w : ValidKids ks) (w' : ValidKids kids)
      (split : under p (entries_kids ks) ≡ dropped ++ under p (entries_kids kids))
      (kept : (key : Bytes)
        → meets start key ≡ true
        → find key (under p (entries_kids kids)) ≡ find key (under p (entries_kids ks)))
      (i : IsKept end (under p (entries_kids kids)) r) where
    abbrev all : List (Bytes × V)
    all = entry p v ++ under p (entries_kids ks)

    all-IsAscending : IsAscending all
    all-IsAscending =
        IsAscending-entry p v (under p (entries_kids ks)) (AllAbove-prefix p ks w)
          (IsAscending-under p (entries_kids ks) (kids-IsAscending ks w))

    r-IsAscending : IsAscending r
    r-IsAscending = i.ascending (IsAscending-under p (entries_kids kids) (kids-IsAscending kids w'))

    r-AllAbove : AllAbove p r
    r-AllAbove = i.above p (AllAbove-prefix p kids w')

    found_in_all :
        (key : Bytes) (x : V) → find key r ≡ some x → find key (under p (entries_kids ks)) ≡ some x
    found_in_all key x h =
        let a : IsAscending (under p (entries_kids ks)) =
          IsAscending-under p (entries_kids ks) (kids-IsAscending ks w) in
        ap (find key) split
        ∙ find_last key x dropped (under p (entries_kids kids)) (subst IsAscending split a)
            (i.only key x h)

    r-within :
        (key : Bytes)
        → meets start key ≡ true
        → within_end end key ≡ true
        → find key r ≡ find key (under p (entries_kids ks))
    r-within key h k = i.within key k ∙ kept key h

    pub IsCover-root : IsCover (λ key. find key all) start end (root_part (meets start p) p v ++ r)
    IsCover-root = elim (Bool-cases (meets start p)) [
      | inl h ↦ rw h (record {
        ascending = IsAscending-entry p v r r-AllAbove r-IsAscending;
        covered = λ key m e.
            find-append key (entry p v) r
            ∙ ap (or_later (find key (entry p v))) (r-within key m e)
            ∙ sym (find-append key (entry p v) (under p (entries_kids ks)));
        only = λ key x z.
            find-append key (entry p v) (under p (entries_kids ks))
            ∙ or_only (find key (entry p v)) (find key r) (find key (under p (entries_kids ks))) x
                (found_in_all key x) (sym (find-append key (entry p v) r) ∙ z);
      })
      | inr h ↦ rw h (record {
        ascending = r-IsAscending;
        covered = λ key m e.
            r-within key m e
            ∙ ap (λ o. or_later o (find key (under p (entries_kids ks))))
                (sym (root_left_out (meets start) false key p v h (λ z. false_ne_true (sym z ∙ m))))
            ∙ sym (find-append key (entry p v) (under p (entries_kids ks)));
        only = λ key x z.
            find_last key x (entry p v) (under p (entries_kids ks)) all-IsAscending
              (found_in_all key x z);
      })
    ]

  -- Past the end at its own prefix, a node has nothing within it.
  pub IsCover-nothing :
      (start end : Bound) (p : Bytes) (v : Option V) (ks : Kids V)
      → ValidKids ks
      → within_end end p ≡ false
      → IsCover (λ key. find key (entry p v ++ under p (entries_kids ks))) start end []
  IsCover-nothing start end p v ks w h = record {
    ascending = tt;
    covered = λ key m e.
        find_nil key
        ∙ sym (
            find-AllTests (within_end end) false key (entry p v ++ under p (entries_kids ks))
              (past v) (λ z. false_ne_true (sym z ∙ e)));
    only = λ key x z. absurd (none_ne_some x (sym (find_nil key) ∙ z));
  }
    where
      below : AllTests (within_end end) false (under p (entries_kids ks))
      below =
          AllTests-AllAbove (within_end end) false p (under p (entries_kids ks))
            (λ q z. within_end-Precedes end p q h z) (AllAbove-prefix p ks w)

      past :
          (o : Option V) → AllTests (within_end end) false (entry p o ++ under p (entries_kids ks))
      past none = below
      past (some x) = (h, below)

  pub keyed_part :
      (b : Bool) (view : LendingKeyView) (p : Bytes) (v : Option V)
      → to_vec view ≡ p
      → keyed (if b then root_visit view v else []) ≡ root_part b p v
  keyed_part true view p v h = keyed_root view v ∙ ap (λ q. entry q v) h
  keyed_part false view p v h = refl
