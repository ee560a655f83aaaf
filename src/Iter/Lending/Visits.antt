-- ===== src/Iter/Lending/Visits.antt =====
-- One round of the loop of `visit_each`.
use rart_rs.Prelude.{
  ℕ, zero, suc, ◌+◌, ◌<◌, ◌≤◌, ◌≡◌, refl, sym, ap, Bool, true, false, Option, none, some, List, [],
  ◌∷◌, ◌++◌, append_assoc, length, take, if◌then◌else◌, Run, done, panic, ◌>>=◌, arith, Bool-cases,
  inl, inr, length-take,
}
use rart_rs.Partials.{Bytes}
use rart_rs.Node.{node, Kids, nil, cons, Kind, is_leaf}
use rart_rs.Node.Valid.{ValidKids}
use rart_rs.Tree.Remove.Total.{leaf_childless}
use rart_rs.Tree.Search.View.{LendingKeyView, push_segment}
use rart_rs.Iter.{IterFrameIter, plain, frame_next}
use rart_rs.Iter.State.{frame_kids, rounds_kids, rounds}
use rart_rs.Iter.Rounds.{frame_nil, frame_cons}
use rart_rs.Iter.Lending.{
  cut_view, cut_to_parent, pop_leaf, within_end_bound, root_visit, LendingIterInner, LendingRound,
  returned, continues, visits, lend, lend_child,
}
use rart_rs.Iter.Lending.Left.{
  cut_view-push, pop_leaf-push, take-all, node_visits, kids_visits, stack_visits, rounds_frames,
  NestedFrames, up_to,
}

module _ {V : Type 0} where
  abbrev pub left : LendingIterInner V → List (LendingKeyView × V)
  left it = stack_visits it.node_iter_stack it.cur

  abbrev pub SoundFrames : LendingIterInner V → Type 0
  SoundFrames it = NestedFrames it.node_iter_stack (length it.cur.segments)

  -- How a round ends from which `target` is to be visited, with `n` rounds left.
  pub data Advance (r : Run (LendingRound V)) (target : Run (List (LendingKeyView × V))) (n : ℕ)
      : Type 0 where
    stops : r ≡ done returned → target ≡ done [] → Advance r target n
    fails : r ≡ panic → target ≡ panic → Advance r target n
    moves :
        (it' : LendingIterInner V)
        → r ≡ done (continues it')
        → target ≡ up_to it'.end_bound (left it')
        → rounds_frames it'.node_iter_stack < n
        → SoundFrames it'
        → Advance r target n
    lends :
        (view : LendingKeyView) (v : V) (it' : LendingIterInner V)
        → r ≡ done (visits view v it')
        → target ≡ (up_to it'.end_bound (left it') >>= λ rest. done ((view, v) ∷ rest))
        → rounds_frames it'.node_iter_stack < n
        → SoundFrames it'
        → Advance r target n

  lend_lem :
      (v : Option V) (leaf : Bool) (p : Bytes) (here : LendingKeyView)
      (stack : List (ℕ × ℕ × IterFrameIter V)) (end : Option (Bytes × Bool))
      (l : List (LendingKeyView × V)) (n : ℕ)
      → stack_visits stack (pop_leaf leaf p here) ≡ l
      → NestedFrames stack (length (pop_leaf leaf p here).segments)
      → rounds_frames stack < n
      → Advance (lend v leaf p here stack end) (up_to end (root_visit here v ++ l)) n
  unfolding lend up_to
  lend_lem none leaf p here stack end l n e s m = moves _ refl (ap (up_to end) (sym e)) m s
  lend_lem (some v) leaf p here stack end l n e s m = go (within_end_bound end here) refl
    where
      go :
          (r : Run Bool)
          → within_end_bound end here ≡ r
          → Advance (lend (some v) leaf p here stack end) (up_to end ((here, v) ∷ l)) n
      go panic h = fails (rw h refl) (rw h refl)
      go (done false) h = stops (rw h refl) (rw h refl)
      go (done true) h =
          lends here v
            (record { node_iter_stack = stack; cur = pop_leaf leaf p here; end_bound = end })
            (rw h refl) (rw (h, e) refl) m s

  abbrev pushed :
      Kind
      → ℕ
      → ℕ
      → LendingKeyView
      → Kids V
      → IterFrameIter V
      → List (ℕ × ℕ × IterFrameIter V)
      → List (ℕ × ℕ × IterFrameIter V)
  pushed kind depth key_len here ks f stack =
      if is_leaf kind
      then (depth, key_len, f) ∷ stack
      else (length here.segments, here.len, plain ks) ∷ (depth, key_len, f) ∷ stack

  module _ (kind : Kind) (view : LendingKeyView) (p : Bytes) (ks : Kids V) (f : IterFrameIter V)
      (stack : List (ℕ × ℕ × IterFrameIter V)) (childless : is_leaf kind ≡ true → ks ≡ nil)
      (below : NestedFrames stack (length view.segments)) (valid : ValidKids (frame_kids f))
      (valid_ks : ValidKids ks) where
    abbrev depth : ℕ
    depth = length view.segments

    abbrev here : LendingKeyView
    here = push_segment view p

    abbrev later : List (LendingKeyView × V)
    later = kids_visits view (frame_kids f) ++ stack_visits stack view

    cut_self : cut_view depth view.len view ≡ view
    unfolding cut_view
    cut_self = rw (take-all depth view.segments (omega arith)) refl

    take_here : take (length here.segments) here.segments ≡ here.segments
    take_here = take-all (length here.segments) here.segments (omega arith)

    take_back : take depth here.segments ≡ view.segments
    unfolding cut_view
    take_back = ap (λ w. w.segments) (cut_view-push view p)

    popped : pop_leaf true p here ≡ view
    popped = pop_leaf-push view p

    not_popped : pop_leaf false p here ≡ here
    unfolding pop_leaf
    not_popped = refl

    pushed_visits :
        stack_visits (pushed kind depth view.len here ks f stack) (pop_leaf (is_leaf kind) p here)
        ≡ kids_visits here ks ++ later
    unfolding stack_visits node_visits
    pushed_visits = elim (Bool-cases (is_leaf kind)) [
      | inl h ↦ rw (h, childless h, popped, cut_self) refl
      | inr h ↦ rw (h, not_popped, take_here, take_back) refl
    ]

    count_here : depth ≤ length here.segments
    count_here = omega (arith, ap length take_back, length-take depth here.segments)

    NestedFrames-pushed :
        NestedFrames
          (pushed kind depth view.len here ks f stack)
          (length (pop_leaf (is_leaf kind) p here).segments)
    NestedFrames-pushed = elim (Bool-cases (is_leaf kind)) [
      | inl h ↦ rw (h, popped) (omega arith, valid, below)
      | inr h ↦ rw (h, not_popped) (omega arith, valid_ks, (count_here, valid, below))
    ]

    rounds_frames-pushed :
        rounds_frames (pushed kind depth view.len here ks f stack)
        ≤ rounds_kids ks + (rounds_kids (frame_kids f) + rounds_frames stack)
    unfolding rounds_frames
    rounds_frames-pushed = elim (Bool-cases (is_leaf kind)) [
      | inl h ↦ rw h (omega arith)
      | inr h ↦ rw h (omega arith)
    ]

    lend-pushed :
        (v : Option V) (end : Option (Bytes × Bool))
        → Advance
            (lend v (is_leaf kind) p here (pushed kind depth view.len here ks f stack) end)
            (up_to end (root_visit here v ++ (kids_visits here ks ++ later)))
            (suc (rounds_kids ks) + rounds_kids (frame_kids f) + rounds_frames stack)
    lend-pushed v end =
        lend_lem v (is_leaf kind) p here (pushed kind depth view.len here ks f stack) end
          (kids_visits here ks ++ later) _ pushed_visits NestedFrames-pushed
          (omega (arith, rounds_frames-pushed))

  parent_visits :
      (stack : List (ℕ × ℕ × IterFrameIter V)) (view : LendingKeyView)
      → stack_visits stack view ≡ stack_visits stack (cut_to_parent stack view)
  unfolding stack_visits cut_view cut_to_parent
  parent_visits [] view = refl
  parent_visits ((depth, key_len, f) ∷ stack) view = rw (take_twice depth view.segments) refl
    where
      take_twice : (n : ℕ) (l : List Bytes) → take n (take n l) ≡ take n l
      take_twice zero l = refl
      take_twice (suc n) [] = refl
      take_twice (suc n) (x ∷ l) = rw (take_twice n l)

  NestedFrames-parent :
      (stack : List (ℕ × ℕ × IterFrameIter V)) (view : LendingKeyView)
      → NestedFrames stack (length view.segments)
      → NestedFrames stack (length (cut_to_parent stack view).segments)
  unfolding cut_view cut_to_parent
  NestedFrames-parent [] view s = tt
  NestedFrames-parent ((depth, key_len, f) ∷ stack) view s =
      (omega (arith, length-take depth view.segments), s.1, s.2)

  pub lend_child_lem :
      (view : LendingKeyView) (f : IterFrameIter V) (stack : List (ℕ × ℕ × IterFrameIter V))
      (end : Option (Bytes × Bool))
      → NestedFrames stack (length view.segments)
      → ValidKids (frame_kids f)
      → Advance
          (lend_child (length view.segments) view.len (frame_next f) stack view end)
          (up_to end (kids_visits view (frame_kids f) ++ stack_visits stack view))
          (rounds_kids (frame_kids f) + rounds_frames stack)
  unfolding lend_child node_visits rounds
  lend_child_lem view f stack end s w = go (frame_kids f) refl w
    where
      go :
          (ks : Kids V)
          → frame_kids f ≡ ks
          → ValidKids ks
          → Advance
              (lend_child (length view.segments) view.len (frame_next f) stack view end)
              (up_to end (kids_visits view ks ++ stack_visits stack view))
              (rounds_kids ks + rounds_frames stack)
      go nil e w' =
          let (f', eq) = frame_nil f e in
          moves _ (rw eq refl) (ap (up_to end) (parent_visits stack view)) (omega arith)
            (NestedFrames-parent stack view s)
      go (cons k (node p v kind ks) rest) e w' =
          let (f', eq, kids) = frame_cons f k (node p v kind ks) rest e in
          let valid : ValidKids (frame_kids f') = rw kids w'.4 in
          rw (eq, append_assoc, append_assoc, ← kids)
            (lend-pushed kind view p ks f' stack (leaf_childless kind ks w'.2.0) s valid w'.2.2 v
              end)
