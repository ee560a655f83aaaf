-- ===== src/Iter/Ranges.antt =====
-- `range`: the entries between two bounds (rart/src/range.rs, and `range` of rart/src/tree.rs).
use rart_rs.Prelude.{
  ℕ, ◌+◌, ◌<◌, ◌≡◌, refl, sym, ◌∙◌, Bool, true, false, ◌&&◌, Option, none, some, List, [], ◌∷◌, Run,
  done, ◌>>=◌, arith, if◌then◌else◌, Bool-cases, inl, inr, subst,
}
use rart_rs.Partials.{Bytes}
use rart_rs.Node.{Node}
use rart_rs.Node.Size.{size}
use rart_rs.Node.Valid.{IsValid}
use rart_rs.Tree.{Tree}
use rart_rs.Tree.Get.{contents}
use rart_rs.Tree.Laws.{IsValidTree, ValidRoot, tree_at}
use rart_rs.Iter.{
  Bound, included, excluded, unbounded, Iter, iter_next, iter_new, new_with_start_bound, collect,
}
use rart_rs.Iter.Order.{meets}
use rart_rs.Iter.Entries.{entries}
use rart_rs.Iter.State.{rounds, skip}
use rart_rs.Iter.Find.{find, IsAscending}
use rart_rs.Iter.Sorted.{entries-IsAscending, find-entries, length-entries}
use rart_rs.Iter.Yields.{Yields, collect-Yields}
use rart_rs.Iter.Bounds.{
  within_end, IsFrom, IsUpTo, meets-IsFrom, IsFrom-meets, within_end-IsUpTo, IsUpTo-within_end,
}
use rart_rs.Iter.Filters.{
  find_nil, take_within, find-skip, find-take_within, skip-IsAscending, take_within-IsAscending,
  length-skip, length-take_within,
}
use rart_rs.Iter.Laws.{rounds_root, iter_root-Yields}
use rart_rs.Iter.Position.{seeks_included, seeks_excluded}
use rart_rs.Iter.Starts.{new_with_start_bound_lem}

-- `Range`: nothing, or an iterator with the end of the range.
pub data Range (V : Type 0) : Type 0 where
  no_range : Range V
  for_iter : Iter V → Bound → Range V

module _ {V : Type 0} where
  abbrev pub kept : Bound → Option (Bytes × V) → Option (Bytes × V)
  kept end none = none
  kept end (some (key, v)) = if within_end end key then some (key, v) else none

  unfoldable pub range_next : ℕ → Range V → Run (Option (Bytes × V) × Range V)
  unfolding iter_next within_end
  range_next fuel no_range = done (none, no_range)
  range_next fuel (for_iter it end) = do
    r ← iter_next fuel it
    done (kept end r.0, for_iter r.1 end)

  unfoldable pub range_root : Option (Node V) → Bound → Bound → Run (Range V)
  unfolding iter_new new_with_start_bound
  range_root none start end = done no_range
  range_root (some n) unbounded end = do it ← iter_new (some n); done (for_iter it end)
  range_root (some n) start end = do
    it ← new_with_start_bound (some n) start
    done (for_iter it end)

  unfoldable pub range : Tree V → Bound → Bound → Run (Range V)
  unfolding range_root
  range t start end = range_root t.root start end

  unfoldable pub walk_range : ℕ → Run (Range V) → Run (List (Bytes × V))
  unfolding collect range_next
  walk_range fuel make = do r ← make; collect (range_next fuel) fuel r

  Yields-range :
      (fuel : ℕ) (it : Iter V) (end : Bound) (l : List (Bytes × V))
      → Yields (iter_next fuel) it l
      → Yields (range_next fuel) (for_iter it end) (take_within end l)
  unfolding range_next
  Yields-range fuel it end [] (it', e) = (for_iter it' end, rw e refl)
  Yields-range fuel it end ((k, v) ∷ l) (it', e, y) = elim (Bool-cases (within_end end k)) [
    | inl h ↦ rw h (for_iter it' end, rw (e, h) refl, Yields-range fuel it' end l y)
    | inr h ↦ rw h (for_iter it' end, rw (e, h) refl)
  ]

  -- The keys ascend, and each that passes the tests of the two bounds has its value.
  pub record IsFiltered (m : Bytes → Option V) (start end : Bound) (l : List (Bytes × V))
      : Type 0 where
    pub ascending : IsAscending l
    pub exact :
        (key : Bytes) → find key l ≡ (if meets start key && within_end end key then m key else none)

  -- The entries of a map between two bounds: the keys ascend, each key that is between the bounds in
  -- the order of byte strings has its value, and there is no other key.
  pub record IsBetween (m : Bytes → Option V) (start end : Bound) (l : List (Bytes × V))
      : Type 0 where
    pub ascending : IsAscending l
    pub complete : (key : Bytes) → IsFrom start key → IsUpTo end key → find key l ≡ m key
    pub sound :
        (key : Bytes) (v : V)
        → find key l ≡ some v
        → IsFrom start key × IsUpTo end key × (m key ≡ some v)

  kept_inside :
      (a b : Bool) (o : Option V) (v : V)
      → (if a && b then o else none) ≡ some v
      → (a ≡ true) × (b ≡ true) × (o ≡ some v)
  kept_inside true true o v h = (refl, refl, h)
  kept_inside true false o v h = cc
  kept_inside false b o v h = cc

  pub IsFiltered-IsBetween :
      (m : Bytes → Option V) (start end : Bound) (l : List (Bytes × V))
      → IsFiltered m start end l
      → IsBetween m start end l
  IsFiltered-IsBetween m start end l f = record {
    ascending = f.ascending;
    complete = λ key a b.
        let e = meets-IsFrom start key a in
        let e' = within_end-IsUpTo end key b in f.exact key ∙ rw (e, e') refl;
    sound = λ key v h.
        let (a, b, e) =
          kept_inside (meets start key) (within_end end key) (m key) v (sym (f.exact key) ∙ h) in
        (IsFrom-meets start key a, IsUpTo-within_end end key b, e);
  }

  both :
      (b c : Bool) (o : Option V)
      → (if c then (if b then o else none) else none) ≡ (if b && c then o else none)
  both true true o = refl
  both true false o = refl
  both false true o = refl
  both false false o = refl

  pub IsFiltered-entries :
      (m : Bytes → Option V) (start end : Bound) (l : List (Bytes × V))
      → IsAscending l
      → ((key : Bytes) → find key l ≡ m key)
      → IsFiltered m start end (take_within end (skip (some start) l))
  IsFiltered-entries m start end l a h = record {
    ascending = take_within-IsAscending end (skip (some start) l) (skip-IsAscending start l a);
    exact = λ key.
        rw
          (
            find-take_within end key (skip (some start) l) (skip-IsAscending start l a),
            find-skip start key l a,
            h key,
          )
          (both (meets start key) (within_end end key) (m key));
  }

  pub skip-unbounded : (l : List (Bytes × V)) → skip (some unbounded) l ≡ l
  unfolding meets
  skip-unbounded [] = refl
  skip-unbounded ((k, v) ∷ l) = refl

  abbrev Walks : Node V → Bound → Bound → ℕ → Type 0
  Walks n start end fuel =
      walk_range fuel (range_root (some n) start end)
      ≡ done (take_within end (skip (some start) (entries n)))

  walks :
      (n : Node V) (start end : Bound) (fuel : ℕ) (it : Iter V)
      → size n < fuel
      → range_root (some n) start end ≡ done (for_iter it end)
      → Yields (iter_next fuel) it (skip (some start) (entries n))
      → Walks n start end fuel
  unfolding walk_range
  walks n start end fuel it h e y =
      let l = skip (some start) (entries n) in
      rw e (
        collect-Yields (range_next fuel) (for_iter it end) (take_within end l) fuel
          (Yields-range fuel it end l y)
          (omega
            (arith, length-take_within end l, length-skip start (entries n), length-entries n)))

  root-Walks :
      (n : Node V) (start end : Bound) (fuel : ℕ)
      → IsValid n
      → rounds n + size n < fuel
      → Walks n start end fuel
  unfolding range_root
  root-Walks n unbounded end fuel w h =
      let (it, e, y) = iter_root-Yields n fuel w (omega arith) in
      walks n unbounded end fuel it (omega arith) (rw e refl)
        (subst (Yields (iter_next fuel) it) (sym (skip-unbounded (entries n))) y)
  root-Walks n (included k) end fuel w h =
      let (it, e, y) =
        new_with_start_bound_lem (included k) k n fuel seeks_included w (omega arith) in
      walks n (included k) end fuel it (omega arith) (rw e refl) y
  root-Walks n (excluded k) end fuel w h =
      let (it, e, y) =
        new_with_start_bound_lem (excluded k) k n fuel seeks_excluded w (omega arith) in
      walks n (excluded k) end fuel it (omega arith) (rw e refl) y

  nothing_walked :
      (fuel : ℕ) (start end : Bound)
      → 0 < fuel
      → walk_range fuel (range_root none start end) ≡ done []
  unfolding walk_range range_root range_next
  nothing_walked fuel start end h =
      collect-Yields (range_next fuel) no_range [] fuel (no_range, refl) h

  nothing_found : (v : V) → none ≡ some v → ⊥
  nothing_found v h = cc

  range_root_lem :
      (root : Option (Node V)) (len : ℕ) (start end : Bound) (fuel : ℕ)
      → ValidRoot root len
      → rounds_root root + len < fuel
      → (l : List (Bytes × V)) × (walk_range fuel (range_root root start end) ≡ done l)
        × IsBetween (contents (tree_at root len)) start end l
  range_root_lem none len start end fuel w h = (
    [],
    nothing_walked fuel start end (omega arith),
    record {
      ascending = tt;
      complete = λ key _ _. find_nil key;
      sound = λ key v h. absurd (nothing_found v (sym (find_nil key) ∙ h));
    },
  )
  range_root_lem (some n) len start end fuel w h = (
    take_within end (skip (some start) (entries n)),
    root-Walks n start end fuel w.0 (omega arith),
    IsFiltered-IsBetween (contents (tree_at (some n) len)) start end
        (take_within end (skip (some start) (entries n)))
        (IsFiltered-entries (λ q. contents (tree_at (some n) len) q) start end (entries n)
          (entries-IsAscending n w.0) (λ key. find-entries n key w.0)),
  )

  -- `range` on a valid tree, with any two bounds, walked to its end, does not panic. It yields in
  -- strictly ascending order the keys of the tree that are between the bounds, all of them, each with
  -- its value. An included bound is itself between the bounds, and an excluded one is not.
  pub range_lem :
      (t : Tree V) (start end : Bound) (fuel : ℕ)
      → IsValidTree t
      → rounds_root t.root + t.len < fuel
      → (l : List (Bytes × V)) × (walk_range fuel (range t start end) ≡ done l)
        × IsBetween (contents t) start end l
  unfolding range
  range_lem t start end fuel w h = range_root_lem t.root t.len start end fuel w.rooted h
