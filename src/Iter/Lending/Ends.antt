-- ===== src/Iter/Lending/Ends.antt =====
-- The end of a range: what `up_to` keeps of the visits.
use Prim.Native.Nat.{Ordering}
use rart_rs.Prelude.{
  ℕ, ◌≡◌, inl, inr, refl, sym, ◌∙◌, ap, Bool, true, false, Option, none, some, List, [], ◌∷◌, ◌++◌,
  length, length-append, done, arith, Bool-cases, not,
}
use rart_rs.Partials.{Bytes}
use rart_rs.Keys.Slices.{bytes_cmp}
use rart_rs.Node.{Node, node, Kids, nil, cons}
use rart_rs.Tree.Search.View.{LendingKeyView, push_segment, to_vec, to_vec-push}
use rart_rs.Iter.{Bound, included, excluded, unbounded, is_above, at_least}
use rart_rs.Iter.Bounds.{within_end, within_end-Precedes, false_ne_true}
use rart_rs.Iter.Find.{find, found_at, AllAbove, IsAscending}
use rart_rs.Iter.Filters.{find-AllTests, AllTests-AllAbove, found_at_cong, find_nil}
use rart_rs.Iter.Lending.{end_test, within_end_bound, root_visit}
use rart_rs.Iter.Lending.Left.{keyed, node_visits, kids_visits, up_to}
use rart_rs.Iter.Lending.Segments.{IsView, AreSegments}
use rart_rs.Iter.Lending.Order.{cmp_slice_lem}
use rart_rs.Iter.Lending.Bounded.{end_bound_vec}

-- A key that fails the test of the end is past the end.
abbrev EndTested : Bound → LendingKeyView → Type 0
EndTested end view =
    (b : Bool) × (within_end_bound (end_bound_vec end) view ≡ done b)
    × (b ≡ false → within_end end (to_vec view) ≡ false)

end_tested : (end : Bound) (view : LendingKeyView) → IsView view → EndTested end view
unfolding within_end_bound within_end
end_tested unbounded view w = (true, refl, λ h. h)
end_tested (included k) view w = elim (cmp_slice_lem view k w) [
  | inl (_, h) ↦
      (end_test true (bytes_cmp (to_vec view) k), rw h refl, go (bytes_cmp (to_vec view) k))
  | inr h ↦ (true, rw (h.1) refl, λ z. absurd (false_ne_true (sym z)))
]
  where
    go : (o : Ordering) → end_test true o ≡ false → not (is_above o) ≡ false
    go Ordering.lt z = z
    go Ordering.eq z = z
    go Ordering.gt z = refl
end_tested (excluded k) view w = elim (cmp_slice_lem view k w) [
  | inl (_, h) ↦
      (end_test false (bytes_cmp (to_vec view) k), rw h refl, go (bytes_cmp (to_vec view) k))
  | inr h ↦ (true, rw (h.1) refl, λ z. absurd (false_ne_true (sym z)))
]
  where
    go : (o : Ordering) → end_test false o ≡ false → not (at_least o) ≡ false
    go Ordering.lt z = z
    go Ordering.eq z = refl
    go Ordering.gt z = refl

AreSegments-append :
    (ss : List Bytes) (b : ℕ) (s : Bytes) → AreSegments ss → AreSegments (ss ++ (b ∷ s) ∷ [])
AreSegments-append [] b s h = tt
AreSegments-append ([] ∷ ss) b s h = absurd h
AreSegments-append ((c ∷ t) ∷ ss) b s h = AreSegments-append ss b s h

pub IsView-push : (view : LendingKeyView) (p : Bytes) → IsView view → IsView (push_segment view p)
unfolding push_segment
IsView-push view [] w = w
IsView-push view (b ∷ p) w = record {
  filled = AreSegments-append view.segments b p w.filled;
  counted =
      let e = ap length (to_vec-push view (b ∷ p)) in
      omega (arith, w.counted, e, length-append (to_vec view) (b ∷ p));
}

module _ {V : Type 0} where
  abbrev pub AreViews : List (LendingKeyView × V) → Type 0
  AreViews [] = Unit
  AreViews ((view, v) ∷ l) = IsView view × AreViews l

  AreViews-append : (l r : List (LendingKeyView × V)) → AreViews l → AreViews r → AreViews (l ++ r)
  AreViews-append [] r a b = b
  AreViews-append ((view, v) ∷ l) r a b = (a.0, AreViews-append l r a.1 b)

  AreViews-root :
      (view : LendingKeyView) (v : Option V) → IsView view → AreViews (root_visit view v)
  AreViews-root view none w = tt
  AreViews-root view (some v) w = (w, tt)

  mutual
    unfolding node_visits

    AreViews-node :
        (view : LendingKeyView) (n : Node V) → IsView view → AreViews (node_visits view n)
    AreViews-node view (node p v kind ks) w =
        let w' = IsView-push view p w in
        AreViews-append (root_visit (push_segment view p) v) (kids_visits (push_segment view p) ks)
          (AreViews-root (push_segment view p) v w') (AreViews-kids (push_segment view p) ks w')

    pub AreViews-kids :
        (view : LendingKeyView) (ks : Kids V) → IsView view → AreViews (kids_visits view ks)
    AreViews-kids view nil w = tt
    AreViews-kids view (cons e n ks) w =
        AreViews-append (node_visits view n) (kids_visits view ks) (AreViews-node view n w)
          (AreViews-kids view ks w)

  -- What is kept of a list of entries: those within the end, and no others than there were.
  pub record IsKept (end : Bound) (l r : List (Bytes × V)) : Type 0 where
    pub within : (key : Bytes) → within_end end key ≡ true → find key r ≡ find key l
    pub only : (key : Bytes) (v : V) → find key r ≡ some v → find key l ≡ some v
    pub above : (key : Bytes) → AllAbove key l → AllAbove key r
    pub ascending : IsAscending l → IsAscending r

  none_ne_some : (v : V) → none ≡ some v → ⊥
  none_ne_some v h = cc

  IsKept-nil :
      (end : Bound) (k : Bytes) (v : V) (l : List (Bytes × V))
      → within_end end k ≡ false
      → AllAbove k l
      → IsKept end ((k, v) ∷ l) []
  IsKept-nil end k v l h a = record {
    within = λ key z.
        find_nil key
        ∙ sym (
            find-AllTests (within_end end) false key ((k, v) ∷ l)
              (
                h,
                AllTests-AllAbove (within_end end) false k l
                    (λ q p. within_end-Precedes end k q h p) a,
              )
              (λ e. false_ne_true (sym e ∙ z)));
    only = λ key w z. absurd (none_ne_some w (sym (find_nil key) ∙ z));
    above = λ key z. tt;
    ascending = λ z. tt;
  }

  found_only :
      (key k : Bytes) (v : V) (l r : List (Bytes × V)) (w : V)
      → (find key r ≡ some w → find key l ≡ some w)
      → find key ((k, v) ∷ r) ≡ some w
      → find key ((k, v) ∷ l) ≡ some w
  unfolding find
  found_only key k v l r w h z = go (bytes_cmp key k) z
    where
      go : (o : Ordering) → found_at o v (find key r) ≡ some w → found_at o v (find key l) ≡ some w
      go Ordering.lt z' = h z'
      go Ordering.eq z' = z'
      go Ordering.gt z' = h z'

  IsKept-cons :
      (end : Bound) (k : Bytes) (v : V) (l r : List (Bytes × V))
      → IsKept end l r
      → IsKept end ((k, v) ∷ l) ((k, v) ∷ r)
  IsKept-cons end k v l r i = record {
    within = λ key z. found_at_cong key k v r l (i.within key z);
    only = λ key w z. found_only key k v l r w (i.only key w) z;
    above = λ key a. (a.0, i.above key a.1);
    ascending = λ a. (i.above k a.0, i.ascending a.1);
  }

  -- `up_to` does not panic on the segments of ascending keys, and keeps all that is within the end.
  pub up_to_lem :
      (end : Bound) (l : List (LendingKeyView × V))
      → AreViews l
      → IsAscending (keyed l)
      → (r : List (LendingKeyView × V)) × (up_to (end_bound_vec end) l ≡ done r)
        × IsKept end (keyed l) (keyed r)
  unfolding up_to
  up_to_lem end [] w a = (
    [],
    refl,
    record { within = λ key z. refl; only = λ key v z. z; above = λ key z. z; ascending = λ z. z },
  )
  up_to_lem end ((view, v) ∷ l) w a =
      let (b, e, past) = end_tested end view w.0 in
      elim (Bool-cases b) [
        | inl h ↦
            let (r, e', i) = up_to_lem end l w.1 a.1 in
            (
              (view, v) ∷ r,
              rw (e, h, e') refl,
              IsKept-cons end (to_vec view) v (keyed l) (keyed r) i,
            )
        | inr h ↦ ([], rw (e, h) refl, IsKept-nil end (to_vec view) v (keyed l) (past h) a.0)
      ]
