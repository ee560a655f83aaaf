-- ===== src/Iter/Lending/Left.antt =====
-- What a state of `LendingIterInner` has left to visit.
use rart_rs.Prelude.{
  ℕ, zero, suc, ◌+◌, ◌-◌, ◌≤◌, ◌≡◌, refl, Bool, true, Option, none, some, List, [], ◌∷◌, ◌++◌,
  length, length-append, take, if◌then◌else◌, Run, done, ◌>>=◌, arith,
}
use rart_rs.Partials.{Bytes}
use rart_rs.Node.{Node, node, Kids, nil, cons}
use rart_rs.Node.Valid.{ValidKids}
use rart_rs.Tree.Search.View.{LendingKeyView, push_segment, to_vec, to_vec-push}
use rart_rs.Iter.{IterFrameIter}
use rart_rs.Iter.Entries.{
  under, under-append, under-under, under-entry, entry, entries, entries_kids,
}
use rart_rs.Iter.State.{frame_kids, rounds_kids, rounds}
use rart_rs.Iter.Lending.{cut_view, pop_leaf, within_end_bound, root_visit}

module _ {A : Type 0} where
  pub take-all : (n : ℕ) (l : List A) → length l ≤ n → take n l ≡ l
  take-all zero [] h = refl
  take-all zero (x ∷ l) h = absurd (omega arith)
  take-all (suc n) [] h = refl
  take-all (suc n) (x ∷ l) h = rw (take-all n l (omega arith))

  pub take-before : (n : ℕ) (l r : List A) → n ≤ length l → take n (l ++ r) ≡ take n l
  take-before zero l r h = refl
  take-before (suc n) [] r h = absurd (omega arith)
  take-before (suc n) (x ∷ l) r h = rw (take-before n l r (omega arith))

-- A cut view goes on with a segment, and is cut again where it was.
pub cut_view-push :
    (view : LendingKeyView) (p : Bytes)
    → cut_view (length view.segments) view.len (push_segment view p) ≡ view
unfolding cut_view push_segment
cut_view-push view [] = rw (take-all (length view.segments) view.segments (omega arith)) refl
cut_view-push view (b ∷ p) =
    rw
      (
        take-before (length view.segments) view.segments ((b ∷ p) ∷ []) (omega arith),
        take-all (length view.segments) view.segments (omega arith),
      )
      refl

pub pop_leaf-push :
    (view : LendingKeyView) (p : Bytes) → pop_leaf true p (push_segment view p) ≡ view
unfolding pop_leaf push_segment
pop_leaf-push view [] = refl
pop_leaf-push view (b ∷ p) =
    let one_less : length (view.segments ++ (b ∷ p) ∷ []) - 1 ≡ length view.segments =
      omega (arith, length-append view.segments ((b ∷ p) ∷ [])) in
    let back : view.len + length (b ∷ p) - length (b ∷ p) ≡ view.len = omega arith in
    rw
      (
        one_less,
        back,
        take-before (length view.segments) view.segments ((b ∷ p) ∷ []) (omega arith),
        take-all (length view.segments) view.segments (omega arith),
      )
      refl

module _ {V : Type 0} where
  unfoldable mutual
    pub node_visits : LendingKeyView → Node V → List (LendingKeyView × V)
    node_visits view (node p v kind ks) =
        root_visit (push_segment view p) v ++ kids_visits (push_segment view p) ks

    pub kids_visits : LendingKeyView → Kids V → List (LendingKeyView × V)
    kids_visits view nil = []
    kids_visits view (cons e n ks) = node_visits view n ++ kids_visits view ks

  unfoldable pub stack_visits :
      List (ℕ × ℕ × IterFrameIter V) → LendingKeyView → List (LendingKeyView × V)
  unfolding cut_view
  stack_visits [] view = []
  stack_visits ((depth, key_len, f) ∷ stack) view =
      kids_visits (cut_view depth key_len view) (frame_kids f)
      ++ stack_visits stack (cut_view depth key_len view)

  unfoldable pub rounds_frames : List (ℕ × ℕ × IterFrameIter V) → ℕ
  unfolding rounds
  rounds_frames [] = 0
  rounds_frames ((depth, key_len, f) ∷ stack) = rounds_kids (frame_kids f) + rounds_frames stack

  abbrev pub NestedFrames : List (ℕ × ℕ × IterFrameIter V) → ℕ → Type 0
  NestedFrames [] count = Unit
  NestedFrames ((depth, key_len, f) ∷ stack) count =
      (depth ≤ count) × ValidKids (frame_kids f) × NestedFrames stack depth

  -- The visits up to the first that is past the end.
  unfoldable pub up_to :
      Option (Bytes × Bool) → List (LendingKeyView × V) → Run (List (LendingKeyView × V))
  unfolding within_end_bound
  up_to end [] = done []
  up_to end ((view, v) ∷ l) = do
    ok ← within_end_bound end view
    if ok then (do rest ← up_to end l; done ((view, v) ∷ rest)) else done []

  -- The visits with their keys in place of the views.
  abbrev pub keyed : List (LendingKeyView × V) → List (Bytes × V)
  keyed [] = []
  keyed ((view, v) ∷ l) = (to_vec view, v) ∷ keyed l

  pub keyed-append : (l r : List (LendingKeyView × V)) → keyed (l ++ r) ≡ keyed l ++ keyed r
  keyed-append [] r = refl
  keyed-append ((view, v) ∷ l) r = rw (keyed-append l r)

  pub keyed_root :
      (view : LendingKeyView) (v : Option V) → keyed (root_visit view v) ≡ entry (to_vec view) v
  keyed_root view none = refl
  keyed_root view (some v) = refl

  mutual
    unfolding node_visits entries

    pub keyed_node :
        (view : LendingKeyView) (n : Node V)
        → keyed (node_visits view n) ≡ under (to_vec view) (entries n)
    keyed_node view (node p v kind ks) =
        rw
          (
            keyed-append (root_visit (push_segment view p) v)
                (kids_visits (push_segment view p) ks),
            keyed_root (push_segment view p) v,
            keyed_kids (push_segment view p) ks,
            to_vec-push view p,
            under-under (to_vec view) p (entry [] v ++ entries_kids ks),
            under-append (to_vec view ++ p) (entry [] v) (entries_kids ks),
            under-entry (to_vec view ++ p) v,
          )
          refl

    pub keyed_kids :
        (view : LendingKeyView) (ks : Kids V)
        → keyed (kids_visits view ks) ≡ under (to_vec view) (entries_kids ks)
    keyed_kids view nil = refl
    keyed_kids view (cons e n ks) =
        rw
          (
            keyed-append (node_visits view n) (kids_visits view ks),
            keyed_node view n,
            keyed_kids view ks,
            under-append (to_vec view) (entries n) (entries_kids ks),
          )
          refl
