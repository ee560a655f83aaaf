-- ===== src/Iter/Prefixes.antt =====
-- `prefix_iter_k`: the entries whose keys begin with a prefix (rart/src/tree.rs).
use rart_rs.Prelude.{
  ℕ, ◌+◌, ◌<◌, ◌≡◌, refl, sym, ◌∙◌, ap, Option, none, some, List, [], ◌++◌, length, Run, done,
  ◌>>=◌, arith, subst,
}
use rart_rs.Partials.{Bytes}
use rart_rs.Partials.Laws.{strip}
use rart_rs.Node.{Node, node, prefix_of}
use rart_rs.Node.Valid.{IsValid, IsBytes-right}
use rart_rs.Node.Lookup.{lookup, lookup_cut}
use rart_rs.Node.Size.{size}
use rart_rs.Tree.{Tree}
use rart_rs.Tree.Get.{contents}
use rart_rs.Tree.Laws.{IsValidTree, ValidRoot, tree_at}
use rart_rs.Tree.Search.{find_prefix_subtree}
use rart_rs.Tree.Search.Subtree.{IsSubtree, find_prefix_subtree_lem}
use rart_rs.Iter.{Iter, empty, iter_next, new_with_prefix}
use rart_rs.Iter.Entries.{
  under, under-append, under-under, under-entry, entry, entries, entries_kids, length-under,
}
use rart_rs.Iter.State.{rounds}
use rart_rs.Iter.Find.{find, IsAscending, find-under, find_missing}
use rart_rs.Iter.Sorted.{entries-IsAscending, find-entries, length-entries, IsAscending-under}
use rart_rs.Iter.Yields.{Yields, Yields-empty}
use rart_rs.Iter.Laws.{walk, walk_lem, entries_at, new_with_prefix_lem, rounds_root}
use rart_rs.Iter.Parts.{IsPart, subtree-IsPart}

module _ {V : Type 0} where
  unfoldable pub prefix_iter_k : Tree V → Bytes → Run (Iter V)
  unfolding new_with_prefix find_prefix_subtree
  prefix_iter_k t prefix = elim t.root [
    | none ↦ new_with_prefix none []
    | some root ↦ (do
      found ← find_prefix_subtree root prefix 0 (prefix_of root)
      elim found [ none ↦ new_with_prefix none [] | some r ↦ new_with_prefix (some r.0) r.1 ])
  ]

  -- The entries below `prefix` of a node that is found at `prefix ++ z`.
  abbrev part_entries : Node V → Bytes → Bytes → List (Bytes × V)
  part_entries (node p v kind ks) prefix z = under prefix (entries (node z v kind ks))

  entries_at-under :
      (n : Node V) (prefix z : Bytes) → entries_at n (prefix ++ z) ≡ part_entries n prefix z
  unfolding entries
  entries_at-under (node p v kind ks) prefix z =
      rw
        (
          under-under prefix z (entry [] v ++ entries_kids ks),
          under-append (prefix ++ z) (entry [] v) (entries_kids ks),
          under-entry (prefix ++ z) v,
        )
        refl

  -- The entries of a tree below `prefix`: the keys ascend, begin with `prefix`, and have the values of
  -- the tree.
  pub record IsListing (m : Bytes → Option V) (prefix : Bytes) (l : List (Bytes × V)) : Type 0 where
    pub ascending : IsAscending l
    pub below : (key : Bytes) → find (prefix ++ key) l ≡ m (prefix ++ key)
    pub elsewhere : (key : Bytes) → strip prefix key ≡ none → find key l ≡ none

  IsListing-part :
      (m : Bytes → Option V) (n : Node V) (prefix d z : Bytes)
      → IsValid n
      → prefix_of n ≡ d ++ z
      → ((s : Bytes) → m (prefix ++ s) ≡ lookup n (d ++ s))
      → IsListing m prefix (part_entries n prefix z)
  IsListing-part m (node p v kind ks) prefix d z w e h =
      let w' : IsValid (node z v kind ks) = (w.0, w.1, w.2, IsBytes-right d z (rw e at w.3)) in
      record {
        ascending =
            IsAscending-under prefix (entries (node z v kind ks))
              (entries-IsAscending (node z v kind ks) w');
        below = λ s.
            find-under prefix s (entries (node z v kind ks))
            ∙ find-entries (node z v kind ks) s w'
            ∙ sym (lookup_cut v kind ks d z s)
            ∙ ap (λ q. lookup (node q v kind ks) (d ++ s)) (sym e)
            ∙ sym (h s);
        elsewhere = λ key k. find_missing prefix key (entries (node z v kind ks)) k;
      }

  length-part : (n : Node V) (prefix z : Bytes) → length (part_entries n prefix z) ≡ size n
  unfolding size
  length-part (node p v kind ks) prefix z =
      omega
        (arith, length-under prefix (entries (node z v kind ks)), length-entries (node z v kind ks))

  IsListing-nothing :
      (m : Bytes → Option V) (prefix : Bytes)
      → ((s : Bytes) → m (prefix ++ s) ≡ none)
      → IsListing m prefix []
  unfolding find
  IsListing-nothing m prefix h = record {
    ascending = tt;
    below = λ s. sym (h s);
    elsewhere = λ key k. refl;
  }

  nothing_walked : (fuel : ℕ) → 0 < fuel → walk {V = V} fuel (new_with_prefix none []) ≡ done []
  unfolding new_with_prefix
  nothing_walked fuel h = walk_lem (done empty) empty [] fuel refl (Yields-empty fuel) h

  abbrev Lists : Tree V → Bytes → ℕ → Type 0
  Lists t prefix fuel =
      (l : List (Bytes × V)) × (walk fuel (prefix_iter_k t prefix) ≡ done l)
      × IsListing (contents t) prefix l

  found_lists :
      (root : Node V) (prefix : Bytes) (fuel : ℕ) (o : Option (Node V × Bytes))
      → IsSubtree (lookup root) [] prefix o
      → IsPart (rounds root) (size root) (done o)
      → rounds root + size root < fuel
      → (l : List (Bytes × V)) × (walk fuel
            (elim o [ none ↦ new_with_prefix none [] | some r ↦ new_with_prefix (some r.0) r.1 ])
          ≡ done l)
        × IsListing (lookup root) prefix l
  found_lists root prefix fuel none i part h =
      ([], nothing_walked fuel (omega arith), IsListing-nothing (lookup root) prefix i)
  found_lists root prefix fuel (some (n, key)) (d, z, e, k, m) part h =
      let (it, made, y) = new_with_prefix_lem n key fuel part.0 (omega arith) in
      (
        part_entries n prefix z,
        walk_lem (new_with_prefix (some n) key) it (part_entries n prefix z) fuel made
            (subst (Yields (iter_next fuel) it) (ap (entries_at n) k ∙ entries_at-under n prefix z)
              y)
            (omega (arith, length-part n prefix z)),
        IsListing-part (lookup root) n prefix d z part.0 e m,
      )

  root-Lists :
      (root : Option (Node V)) (len : ℕ) (prefix : Bytes) (fuel : ℕ)
      → ValidRoot root len
      → rounds_root root + len < fuel
      → Lists (tree_at root len) prefix fuel
  unfolding prefix_iter_k
  root-Lists none len prefix fuel w h =
      ([], nothing_walked fuel (omega arith), IsListing-nothing (λ q. none) prefix (λ s. refl))
  root-Lists (some n) len prefix fuel w h =
      let (o, e, i) = find_prefix_subtree_lem n prefix in
      rw e (
        found_lists n prefix fuel o i (rw e at (subtree-IsPart n prefix 0 (prefix_of n) w.0))
          (omega arith))

  -- `prefix_iter_k` on a valid tree, walked to its end, does not panic. It yields keys that begin with
  -- the prefix, in strictly ascending order: all that the tree has, each with its value.
  pub prefix_iter_k_lem :
      (t : Tree V) (prefix : Bytes) (fuel : ℕ)
      → IsValidTree t
      → rounds_root t.root + t.len < fuel
      → (l : List (Bytes × V)) × (walk fuel (prefix_iter_k t prefix) ≡ done l)
        × IsListing (contents t) prefix l
  prefix_iter_k_lem t prefix fuel w h = root-Lists t.root t.len prefix fuel w.rooted h
