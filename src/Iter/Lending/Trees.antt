-- ===== src/Iter/Lending/Trees.antt =====
-- The visits of whole trees lend what the iterators yield.
use rart_rs.Prelude.{
  ℕ, ◌+◌, ◌<◌, ◌≡◌, refl, sym, ◌∙◌, ap, Option, none, some, List, [], length, Run, done, panic,
  ◌>>=◌, arith,
}
use rart_rs.Partials.{Bytes}
use rart_rs.Node.{Node, node}
use rart_rs.Tree.Search.View.{LendingKeyView, push_segment}
use rart_rs.Iter.State.{rounds}
use mathlib.Core.Option
use rart_rs.Prelude.{run_map}
use rart_rs.Node.{prefix_of}
use rart_rs.Node.Valid.{IsValid}
use rart_rs.Node.Size.{size}
use rart_rs.Tree.{Tree}
use rart_rs.Tree.Laws.{IsValidTree, ValidRoot, tree_at}
use rart_rs.Tree.Search.View.{
  to_vec, write_segments, find_prefix_subtree_view, find_prefix_subtree_view_lem, of_view, of_key,
}
use rart_rs.Tree.Search.Subtree.{find_prefix_subtree_lem}
use rart_rs.Iter.{iter_new, new_with_prefix, empty}
use rart_rs.Iter.Yields.{Yields-empty}
use rart_rs.Iter.Sorted.{length-entries}
use rart_rs.Tree.Search.View.{to_vec-push}
use rart_rs.Iter.Laws.{
  entries_at-prefix, iter, walk, walk_lem, entries_at, new_with_prefix_lem, rounds_root,
}
use rart_rs.Iter.Parts.{IsPart, subtree-IsPart}
use rart_rs.Iter.Prefixes.{prefix_iter_k}
use rart_rs.Iter.Lending.{for_each_with_prefix, for_each, for_each_view, prefix_for_each_view_k}
use rart_rs.Iter.Lending.Left.{keyed}
use rart_rs.Iter.Lending.Laws.{visits_at, for_each_with_prefix_lem, keyed_visits}

root_segment : (p : Bytes) → to_vec (push_segment (record { segments = []; len = 0 }) p) ≡ p
unfolding write_segments to_vec
root_segment p = to_vec-push (record { segments = []; len = 0 }) p

panic_ne_done : {A : Type 0} (a : A) → panic ≡ done a → ⊥
panic_ne_done a h = cc

module _ {V : Type 0} where
  length-entries_at : (n : Node V) (key : Bytes) → length (entries_at n key) ≡ size n
  unfolding size
  length-entries_at (node p v kind ks) key =
      ap length (entries_at-prefix (node key v kind ks)) ∙ length-entries (node key v kind ks)

  walk_at :
      (fuel : ℕ) (n : Node V) (key : Bytes)
      → IsValid n
      → rounds n + size n < fuel
      → walk fuel (new_with_prefix (some n) key) ≡ done (entries_at n key)
  walk_at fuel n key w h =
      let (it, e, y) = new_with_prefix_lem n key fuel w (omega arith) in
      walk_lem (new_with_prefix (some n) key) it (entries_at n key) fuel e y
        (omega (arith, length-entries_at n key))

  -- What the visits lend is what the walk of an iterator yields.
  abbrev LendsWhat : Run (List (LendingKeyView × V)) → Run (List (Bytes × V)) → Type 0
  LendsWhat visited walked =
      (l : List (LendingKeyView × V)) × (visited ≡ done l) × (walked ≡ done (keyed l))

  LendsWhat-at :
      (fuel : ℕ) (n : Node V) (view : LendingKeyView) (key : Bytes)
      → to_vec view ≡ key
      → IsValid n
      → rounds n + size n < fuel
      → LendsWhat
          (for_each_with_prefix fuel (some n) view)
          (walk fuel (new_with_prefix (some n) key))
  LendsWhat-at fuel n view key e w h = (
    visits_at n view,
    for_each_with_prefix_lem fuel n view w (omega arith),
    walk_at fuel n key w h ∙ ap done (sym (keyed_visits n view ∙ ap (entries_at n) e)),
  )

  LendsWhat-nothing :
      (fuel : ℕ) → 0 < fuel → LendsWhat (done []) (walk fuel (new_with_prefix none []))
  unfolding new_with_prefix
  LendsWhat-nothing fuel h =
      ([], refl, walk_lem (done empty) empty [] fuel refl (Yields-empty fuel) h)

  view_root :
      (root : Option (Node V)) (len fuel : ℕ)
      → ValidRoot root len
      → rounds_root root + len < fuel
      → LendsWhat (for_each fuel root) (walk fuel (iter_new root))
  unfolding for_each iter_new new_with_prefix
  view_root none len fuel w h = LendsWhat-nothing fuel (omega arith)
  view_root (some n) len fuel w h =
      LendsWhat-at fuel n (push_segment (record { segments = []; len = 0 }) (prefix_of n))
        (prefix_of n) (root_segment (prefix_of n)) w.0 (omega arith)

  -- `for_each_view` on a valid tree does not panic. It calls back for what `iter` yields, in that
  -- order: the segments that it lends spell the keys. The fuel is that of the walk.
  pub for_each_view_lem :
      (t : Tree V) (fuel : ℕ)
      → IsValidTree t
      → rounds_root t.root + t.len < fuel
      → (l : List (LendingKeyView × V)) × (for_each_view fuel t ≡ done l)
        × (walk fuel (iter t) ≡ done (keyed l))
  unfolding for_each_view iter
  for_each_view_lem t fuel w h = view_root t.root t.len fuel w.rooted h

  -- What the search that lends segments finds, where the other search finds `o`.
  data SameFound (r : Run (Option (Node V × LendingKeyView))) (o : Option (Node V × Bytes))
      : Type 0 where
    neither : r ≡ done none → o ≡ none → SameFound r o
    both :
        (n : Node V) (view : LendingKeyView)
        → r ≡ done (some (n, view))
        → o ≡ some (n, to_vec view)
        → SameFound r o

  abbrev without_len : Run (Option (Node V × Bytes × ℕ)) → Option (Node V × Bytes)
  without_len (done (some (n, key, len))) = some (n, key)
  without_len _ = none

  same_found :
      (r : Run (Option (Node V × LendingKeyView))) (o : Option (Node V × Bytes))
      → run_map (Option.map of_view) r ≡ done (Option.map of_key o)
      → SameFound r o
  same_found panic o h = absurd (panic_ne_done (Option.map of_key o) h)
  same_found (done none) none h = neither refl refl
  same_found (done none) (some (n, key)) h = neither refl (sym (ap without_len h))
  same_found (done (some (n, view))) none h = both n view refl (sym (ap without_len h))
  same_found (done (some (n, view))) (some (n', key)) h = both n view refl (sym (ap without_len h))

  prefix_found :
      (fuel : ℕ) (root : Node V) (r : Run (Option (Node V × LendingKeyView)))
      (o : Option (Node V × Bytes))
      → SameFound r o
      → IsPart (rounds root) (size root) (done o)
      → rounds root + size root < fuel
      → LendsWhat
          (r >>= λ found. elim found [
            | none ↦ done []
            | some x ↦ for_each_with_prefix fuel (some x.0) x.1
          ])
          (walk fuel
            (elim o [ none ↦ new_with_prefix none [] | some x ↦ new_with_prefix (some x.0) x.1 ]))
  prefix_found fuel root r o (neither e e') part h =
      rw (e, e') (LendsWhat-nothing fuel (omega arith))
  prefix_found fuel root r o (both n view e e') part h =
      let part' : IsPart (rounds root) (size root) (done (some (n, to_vec view))) = rw e' at part in
      rw (e, e') (LendsWhat-at fuel n view (to_vec view) refl part'.0 (omega arith))

  prefix_root :
      (root : Option (Node V)) (len : ℕ) (prefix : Bytes) (fuel : ℕ)
      → ValidRoot root len
      → rounds_root root + len < fuel
      → LendsWhat
          (prefix_for_each_view_k fuel (tree_at root len) prefix)
          (walk fuel (prefix_iter_k (tree_at root len) prefix))
  unfolding prefix_for_each_view_k prefix_iter_k
  prefix_root none len prefix fuel w h = LendsWhat-nothing fuel (omega arith)
  prefix_root (some n) len prefix fuel w h =
      let (o, e, i) = find_prefix_subtree_lem n prefix in
      let found =
        same_found (find_prefix_subtree_view n prefix) o
          (find_prefix_subtree_view_lem n prefix ∙ ap (run_map (Option.map of_key)) e) in
      let part = rw e at (subtree-IsPart n prefix 0 (prefix_of n) w.0) in
      rw e (prefix_found fuel n (find_prefix_subtree_view n prefix) o found part (omega arith))

  -- `prefix_for_each_view_k` on a valid tree does not panic. It calls back for what `prefix_iter_k`
  -- yields, in that order: the segments that it lends spell the keys. The fuel is that of the walk.
  pub prefix_for_each_view_k_lem :
      (t : Tree V) (prefix : Bytes) (fuel : ℕ)
      → IsValidTree t
      → rounds_root t.root + t.len < fuel
      → (l : List (LendingKeyView × V)) × (prefix_for_each_view_k fuel t prefix ≡ done l)
        × (walk fuel (prefix_iter_k t prefix) ≡ done (keyed l))
  prefix_for_each_view_k_lem t prefix fuel w h = prefix_root t.root t.len prefix fuel w.rooted h
