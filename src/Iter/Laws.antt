-- ===== src/Iter/Laws.antt =====
-- `iter`, `prefix_iter_k` and the iterators below them, on whole trees (rart/src/tree.rs).
use rart_rs.Prelude.{
  ℕ, ◌+◌, ◌<◌, ◌≡◌, refl, sym, ◌∙◌, ap, true, Option, none, some, List, [], ◌∷◌, ◌++◌, append-nil,
  length, Run, done, ◌>>=◌, arith, inl, inr, Bool-cases, subst,
}
use rart_rs.Partials.{Bytes}
use rart_rs.Partials.Laws.{length_at-append}
use rart_rs.Node.{Node, node, Kids, Kind, is_leaf, prefix_of, kids_of, value_of}
use rart_rs.Node.Valid.{IsValid, ValidKids, Alive}
use rart_rs.Tree.{Tree}
use rart_rs.Tree.Get.{contents}
use rart_rs.Tree.Laws.{IsValidTree, ValidRoot, tree_at}
use rart_rs.Tree.Remove.Total.{leaf_childless}
use rart_rs.Iter.{
  Iter, empty, once, chain, IterInner, plain, iter_next, iter_new, new_with_prefix, with_key,
  from_node_and_key, collect,
}
use rart_rs.Iter.Entries.{under, under-append, under-entry, entry, entries, entries_kids}
use rart_rs.Iter.State.{remaining, rounds, rounds_kids, rounds_stack, stack_entries}
use rart_rs.Iter.Rounds.{take-beyond}
use rart_rs.Iter.Find.{find, IsAscending}
use rart_rs.Iter.Sorted.{entries-IsAscending, find-entries, length-entries}
use rart_rs.Iter.Yields.{Yields, collect-Yields, first, Yields-chain, Yields-once, Yields-empty}

module _ {V : Type 0} where
  unfoldable pub iter : Tree V → Run (Iter V)
  unfolding iter_new
  iter t = iter_new t.root

  -- All the items of an iterator that is made by `make`.
  unfoldable pub walk : ℕ → Run (Iter V) → Run (List (Bytes × V))
  unfolding collect iter_next
  walk fuel make = do it ← make; collect (iter_next fuel) fuel it

  -- The entries of a node below a key that leads to it.
  abbrev pub entries_at : Node V → Bytes → List (Bytes × V)
  entries_at n key = entry key (value_of n) ++ under key (entries_kids (kids_of n))

  pub entries_at-prefix : (n : Node V) → entries_at n (prefix_of n) ≡ entries n
  unfolding entries
  entries_at-prefix (node p v kind ks) =
      rw (under-append p (entry [] v) (entries_kids ks), under-entry p v) refl

  first-with_key :
      (key : Bytes) (v : Option V) (l : List (Bytes × V))
      → first (with_key key v) l ≡ entry key v ++ l
  first-with_key key none l = refl
  first-with_key key (some v) l = refl

  pub leaf-Yields :
      (v : Option V) (kind : Kind) (ks : Kids V) (p key : Bytes) (fuel : ℕ)
      → IsValid (node p v kind ks)
      → is_leaf kind ≡ true
      → (x : V) × (v ≡ some x)
        × Yields (iter_next fuel) (once (key, x)) (entries_at (node p v kind ks) key)
  unfolding entries
  leaf-Yields none kind ks p key fuel w b =
      absurd (subst (λ js. Alive {V = V} none js) (leaf_childless kind ks w.0 b) w.1)
  leaf-Yields (some x) kind ks p key fuel w b =
      (x, refl, rw (leaf_childless kind ks w.0 b) (Yields-once fuel (key, x)))

  abbrev children_of : Kids V → Bytes → IterInner V
  children_of ks key = record {
    node_iter_stack = (length key, plain ks) ∷ [];
    cur_key = key;
    start_bound = none;
  }

  from_node_and_key_lem :
      (n : Node V) (key : Bytes) → from_node_and_key n key ≡ done (children_of (kids_of n) key)
  unfolding from_node_and_key
  from_node_and_key_lem n key = rw (length_at-append [] key) refl

  children_left :
      (ks : Kids V) (key : Bytes) → remaining (children_of ks key) ≡ under key (entries_kids ks)
  unfolding stack_entries
  children_left ks key =
      rw (take-beyond (length key) key (omega arith), append-nil (under key (entries_kids ks)))

  chain-Yields :
      (x : Option V) (ks : Kids V) (key : Bytes) (fuel : ℕ)
      → ValidKids ks
      → rounds_kids ks < fuel
      → Yields
          (iter_next fuel)
          (chain (with_key key x) (children_of ks key))
          (entry key x ++ under key (entries_kids ks))
  unfolding rounds_stack
  chain-Yields x ks key fuel w h =
      subst (Yields (iter_next fuel) (chain (with_key key x) (children_of ks key)))
        (ap (first (with_key key x)) (children_left ks key)
          ∙ first-with_key key x (under key (entries_kids ks)))
        (Yields-chain fuel (with_key key x) (children_of ks key) (omega arith, w, tt) (omega arith))

  -- The iterator below a key that leads to a node.
  pub new_with_prefix_lem :
      (n : Node V) (key : Bytes) (fuel : ℕ)
      → IsValid n
      → rounds n < fuel
      → (it : Iter V) × (new_with_prefix (some n) key ≡ done it)
        × Yields (iter_next fuel) it (entries_at n key)
  unfolding new_with_prefix rounds
  new_with_prefix_lem (node p v kind ks) key fuel w h = elim (Bool-cases (is_leaf kind)) [
    | inl b ↦ let (x, e, y) = leaf-Yields v kind ks p key fuel w b in (once (key, x), rw (b, e), y)
    | inr b ↦ (
      chain (with_key key v) (children_of ks key),
      rw (b, from_node_and_key_lem (node p v kind ks) key),
      chain-Yields v ks key fuel w.2 (omega arith),
    )
  ]

  abbrev pub rounds_root : Option (Node V) → ℕ
  rounds_root none = 0
  rounds_root (some n) = rounds n

  pub walk_lem :
      (make : Run (Iter V)) (it : Iter V) (l : List (Bytes × V)) (fuel : ℕ)
      → make ≡ done it
      → Yields (iter_next fuel) it l
      → length l < fuel
      → walk fuel make ≡ done l
  unfolding walk
  walk_lem make it l fuel e y h = rw e (collect-Yields (iter_next fuel) it l fuel y h)

  pub iter_root-Yields :
      (n : Node V) (fuel : ℕ)
      → IsValid n
      → rounds n < fuel
      → (it : Iter V) × (iter_new (some n) ≡ done it) × Yields (iter_next fuel) it (entries n)
  unfolding iter_new
  iter_root-Yields n fuel w h =
      let (it, e, y) = new_with_prefix_lem n (prefix_of n) fuel w h in
      (it, e, subst (Yields (iter_next fuel) it) (entries_at-prefix n) y)

  iter_root :
      (root : Option (Node V)) (len fuel : ℕ)
      → ValidRoot root len
      → rounds_root root + len < fuel
      → (l : List (Bytes × V)) × (walk fuel (iter_new root) ≡ done l)
        × IsAscending l
        × ((key : Bytes) → find key l ≡ contents (tree_at root len) key)
        × (length l ≡ len)
  unfolding iter_new find
  iter_root none len fuel w h = (
    [],
    walk_lem (done empty) empty [] fuel refl (Yields-empty fuel) (omega arith),
    tt,
    λ key. refl,
    sym w,
  )
  iter_root (some n) len fuel w h =
      let (it, e, y) = iter_root-Yields n fuel w.0 (omega arith) in
      (
        entries n,
        walk_lem (iter_new (some n)) it (entries n) fuel e y (omega (arith, length-entries n)),
        entries-IsAscending n w.0,
        λ key. find-entries n key w.0,
        omega (arith, length-entries n),
      )

  -- `iter` on a valid tree, walked to its end, does not panic: it yields the keys of the tree in
  -- strictly ascending order, each with its value, and as many as the tree counts. The rounds of its
  -- loop are bounded by the count of nodes and values.
  pub iter_lem :
      (t : Tree V) (fuel : ℕ)
      → IsValidTree t
      → rounds_root t.root + t.len < fuel
      → (l : List (Bytes × V)) × (walk fuel (iter t) ≡ done l)
        × IsAscending l
        × ((key : Bytes) → find key l ≡ contents t key)
        × (length l ≡ t.len)
  unfolding iter
  iter_lem t fuel w h = iter_root t.root t.len fuel w.rooted h
