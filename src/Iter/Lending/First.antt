-- ===== src/Iter/Lending/First.antt =====
-- Where the visits between two bounds begin.
use Prim.Native.Nat.{Ordering}
use rart_rs.Prelude.{
  ℕ, ◌≤◌, ◌≡◌, inl, inr, refl, sym, ◌∙◌, ap, true, false, not, Option, none, some, List, [], ◌∷◌,
  ◌++◌, append-nil, length, done, arith, subst,
}
use rart_rs.Partials.{Bytes}
use rart_rs.Keys.Slices.{bytes_cmp}
use rart_rs.Node.{Node, node, Kids, nil, Kind}
use rart_rs.Node.Valid.{IsValid, ValidKids}
use rart_rs.Tree.Search.View.{
  LendingKeyView, push_segment, to_vec, to_vec-push, len-push, write_segments,
}
use rart_rs.Iter.{
  Bound, included, excluded, unbounded, IterFrameIter, plain, framed, is_above, at_least,
  build_positioned_stack,
}
use rart_rs.Iter.Order.{meets, Precedes-below}
use rart_rs.Iter.Bounds.{within_end}
use rart_rs.Iter.Entries.{under, entries, entries_kids}
use rart_rs.Iter.State.{frame_kids, stack_entries, rounds_kids, rounds_stack, skip}
use rart_rs.Iter.Rounds.{take-beyond}
use rart_rs.Iter.Find.{find, IsAscending}
use rart_rs.Iter.Sorted.{kids-IsAscending, IsAscending-under}
use rart_rs.Iter.Filters.{find-skip}
use rart_rs.Iter.Position.{
  Seeks, seeks_included, seeks_excluded, IsPositioned, build_positioned_stack_lem,
}
use rart_rs.Iter.Lending.{cmp_slice, end_test, within_end_bound, cut_view}
use rart_rs.Iter.Lending.Left.{
  take-all, kids_visits, stack_visits, rounds_frames, NestedFrames, node_visits,
}
use rart_rs.Iter.Lending.Segments.{IsView, GoesOn}
use rart_rs.Iter.Lending.Order.{cmp_slice_lem}
use rart_rs.Iter.Lending.Ends.{IsView-push}
use rart_rs.Iter.Lending.Bounded.{end_bound_vec, root_satisfies_start, with_segments, first_frames}

abbrev pub no_view : LendingKeyView
no_view = record { segments = []; len = 0 }

pub root_segment-IsView : (p : Bytes) → IsView (push_segment no_view p)
unfolding to_vec write_segments
root_segment-IsView p = IsView-push no_view p (record { filled = tt; counted = refl })

pub to_vec-root : (p : Bytes) → to_vec (push_segment no_view p) ≡ p
unfolding to_vec write_segments
to_vec-root p = to_vec-push no_view p

root-GoesOn :
    (p slice : Bytes)
    → GoesOn (push_segment no_view p).segments slice
    → bytes_cmp p slice ≡ Ordering.lt
unfolding push_segment
root-GoesOn [] slice h = absurd h
root-GoesOn (b ∷ p) slice (e, r, h) = rw h (Precedes-below (b ∷ p) e r)

-- The prefix of the root is one segment at most, and compares as it is.
cmp_slice-root :
    (p slice : Bytes) → cmp_slice (push_segment no_view p) slice ≡ done (bytes_cmp p slice)
cmp_slice-root p slice =
    elim (cmp_slice_lem (push_segment no_view p) slice (root_segment-IsView p)) [
      | inl (_, h) ↦ h ∙ ap (λ q. done (bytes_cmp q slice)) (to_vec-root p)
      | inr (g, h) ↦ h ∙ sym (ap done (root-GoesOn p slice g))
    ]

pub root_satisfies_start-eq_meets :
    (b : Bound) (p : Bytes) → root_satisfies_start b (push_segment no_view p) ≡ done (meets b p)
unfolding root_satisfies_start meets
root_satisfies_start-eq_meets (included k) p = rw (cmp_slice-root p k) refl
root_satisfies_start-eq_meets (excluded k) p = rw (cmp_slice-root p k) refl
root_satisfies_start-eq_meets unbounded p = refl

pub within_end_bound-root :
    (end : Bound) (p : Bytes)
    → within_end_bound (end_bound_vec end) (push_segment no_view p) ≡ done (within_end end p)
unfolding within_end_bound within_end
within_end_bound-root (included k) p = rw (cmp_slice-root p k) (ap done (go (bytes_cmp p k)))
  where
    go : (o : Ordering) → end_test true o ≡ not (is_above o)
    go Ordering.lt = refl
    go Ordering.eq = refl
    go Ordering.gt = refl
within_end_bound-root (excluded k) p = rw (cmp_slice-root p k) (ap done (go (bytes_cmp p k)))
  where
    go : (o : Ordering) → end_test false o ≡ not (at_least o)
    go Ordering.lt = refl
    go Ordering.eq = refl
    go Ordering.gt = refl
within_end_bound-root unbounded p = refl

module _ {V : Type 0} where
  -- The children that the frames leave of `ks`: all that meet the start, and only the last ones.
  pub record IsFirst (b : Bound) (p : Bytes) (ks : Kids V) (frames : List (ℕ × ℕ × IterFrameIter V))
      : Type 0 where
    pub kids : Kids V
    pub valid : ValidKids kids
    pub shown :
        stack_visits frames (push_segment no_view p) ≡ kids_visits (push_segment no_view p) kids
    pub nested : NestedFrames frames (length (push_segment no_view p).segments)
    pub shorter : rounds_frames frames ≤ rounds_kids ks
    pub dropped :
        (l : List (Bytes × V)) × (under p (entries_kids ks) ≡ l ++ under p (entries_kids kids))
    pub keeps :
        (key : Bytes)
        → meets b key ≡ true
        → find key (under p (entries_kids kids)) ≡ find key (under p (entries_kids ks))

  pub one_frame :
      (p : Bytes) (len : ℕ) (f : IterFrameIter V)
      → len ≡ length p
      → stack_visits
          ((length (push_segment no_view p).segments, len, f) ∷ [])
          (push_segment no_view p)
        ≡ kids_visits (push_segment no_view p) (frame_kids f)
  unfolding stack_visits cut_view
  one_frame p len f h =
      let view = push_segment no_view p in
      let e : len ≡ view.len = omega (arith, len-push no_view p) in
      rw
        (
          e,
          take-all (length view.segments) view.segments (omega arith),
          append-nil (kids_visits view (frame_kids f)),
        )
        refl

  stack_entries-one :
      (p : Bytes) (f : IterFrameIter V)
      → stack_entries ((length p, f) ∷ []) p ≡ under p (entries_kids (frame_kids f))
  unfolding stack_entries
  stack_entries-one p f =
      rw
        (take-beyond (length p) p (omega arith), append-nil (under p (entries_kids (frame_kids f))))
        refl

  no_frame : (view : LendingKeyView) → stack_visits [] view ≡ kids_visits {V = V} view nil
  unfolding stack_visits node_visits
  no_frame view = refl

  stack_entries-none : (p : Bytes) → stack_entries {V = V} [] p ≡ under p (entries_kids nil)
  unfolding stack_entries entries
  stack_entries-none p = refl

  kept_by_skip :
      (b : Bound) (l r : List (Bytes × V))
      → IsAscending l
      → IsAscending r
      → skip (some b) l ≡ skip (some b) r
      → (key : Bytes) → meets b key ≡ true
      → find key l ≡ find key r
  kept_by_skip b l r a a' e key h =
      sym (rw h at (find-skip b key l a)) ∙ ap (find key) e ∙ rw h at (find-skip b key r a')

  IsFirst-framed :
      (b : Bound) (p : Bytes) (ks : Kids V) (o : Option (IterFrameIter V))
      → ValidKids ks
      → IsPositioned b p ks (framed (length p) o)
      → IsFirst b p ks
          (with_segments (length (push_segment no_view p).segments) (framed (length p) o))
  unfolding rounds_stack rounds_frames
  IsFirst-framed b p ks none w i = record {
    kids = nil;
    valid = tt;
    shown = no_frame (push_segment no_view p);
    nested = tt;
    shorter = omega arith;
    dropped = (i.dropped.0, i.dropped.1 ∙ ap (λ l. i.dropped.0 ++ l) (stack_entries-none p));
    keeps =
        kept_by_skip b (under p (entries_kids nil)) (under p (entries_kids ks))
          (IsAscending-under p (entries_kids nil) (kids-IsAscending nil tt))
          (IsAscending-under p (entries_kids ks) (kids-IsAscending ks w))
          (ap (skip (some b)) (sym (stack_entries-none p)) ∙ i.left);
  }
  IsFirst-framed b p ks (some f) w i = record {
    kids = frame_kids f;
    valid = i.nested.1;
    shown = one_frame p (length p) f refl;
    nested = (omega arith, i.nested.1, tt);
    shorter = i.shorter;
    dropped = (i.dropped.0, i.dropped.1 ∙ ap (λ l. i.dropped.0 ++ l) (stack_entries-one p f));
    keeps =
        kept_by_skip b (under p (entries_kids (frame_kids f))) (under p (entries_kids ks))
          (IsAscending-under p (entries_kids (frame_kids f))
            (kids-IsAscending (frame_kids f) i.nested.1))
          (IsAscending-under p (entries_kids ks) (kids-IsAscending ks w))
          (ap (skip (some b)) (sym (stack_entries-one p f)) ∙ i.left);
  }

  framed_at :
      (b : Bound) (seek : Bytes) (n : Node V) (view : LendingKeyView)
      (stack : List (ℕ × IterFrameIter V))
      → Seeks seek b
      → build_positioned_stack n seek 0 ≡ done stack
      → first_frames n b view ≡ done (with_segments (length view.segments) stack)
  unfolding first_frames
  framed_at b seek n view stack seeks_included e = rw e refl
  framed_at b seek n view stack seeks_excluded e = rw e refl

  begins_at :
      (b : Bound) (seek p : Bytes) (v : Option V) (kind : Kind) (ks : Kids V)
      → Seeks seek b
      → IsValid (node p v kind ks)
      → (frames : List (ℕ × ℕ × IterFrameIter V)) × (first_frames
            (node p v kind ks)
            b
            (push_segment no_view p)
          ≡ done frames)
        × IsFirst b p ks frames
  begins_at b seek p v kind ks s w =
      let (stack, e, i) = build_positioned_stack_lem b (node p v kind ks) seek s w in
      let (o, shape) = i.shape in
      (
        with_segments (length (push_segment no_view p).segments) (framed (length p) o),
        framed_at b seek (node p v kind ks) (push_segment no_view p) stack s e
            ∙ ap (λ st. done (with_segments (length (push_segment no_view p).segments) st)) shape,
        IsFirst-framed b p ks o w.2 (subst (IsPositioned b p ks) shape i),
      )

  -- `first_frames` does not panic on a valid node.
  pub first_frames_lem :
      (b : Bound) (p : Bytes) (v : Option V) (kind : Kind) (ks : Kids V)
      → IsValid (node p v kind ks)
      → (frames : List (ℕ × ℕ × IterFrameIter V)) × (first_frames
            (node p v kind ks)
            b
            (push_segment no_view p)
          ≡ done frames)
        × IsFirst b p ks frames
  unfolding first_frames rounds_frames
  first_frames_lem (included k) p v kind ks w =
      begins_at (included k) k p v kind ks seeks_included w
  first_frames_lem (excluded k) p v kind ks w =
      begins_at (excluded k) k p v kind ks seeks_excluded w
  first_frames_lem unbounded p v kind ks w = (
    (length (push_segment no_view p).segments, (push_segment no_view p).len, plain ks) ∷ [],
    refl,
    record {
      kids = ks;
      valid = w.2;
      shown =
          one_frame p (push_segment no_view p).len (plain ks) (omega (arith, len-push no_view p));
      nested = (omega arith, w.2, tt);
      shorter = omega arith;
      dropped = ([], refl);
      keeps = λ key h. refl;
    },
  )
