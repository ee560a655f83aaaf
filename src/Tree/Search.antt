-- ===== src/Tree/Search.antt =====
-- The searches for the stored prefixes of a key and for the subtree below a prefix
-- (`longest_prefix_match_iterate` to `find_prefix_subtree_view` of rart/src/tree.rs). The key that
-- is matched so far is passed along, and so is the best match.
pub mod Deepest
pub mod Longest
pub mod Value
pub mod Subtree
pub mod Unkeyed
pub mod View
pub mod Visits
use rart_rs.Prelude.{
  ℕ, ◌+◌, Bool, true, false, not, Option, none, some, List, [], ◌∷◌, ◌++◌, length, take, ◌==◌,
  if◌then◌else◌, Run, done, panic, ◌>>=◌,
}
use rart_rs.Partials.{Bytes, at, length_at, slice_from, prefix_length_key, prefix_length_slice}
use rart_rs.Node.{Node, node, Kids, nil, cons, prefix_of}
use rart_rs.Tree.{Tree}

module _ {V : Type 0} where
  -- The value of the node, if it has one, is a better match.
  abbrev pub better {ℓ} : {A : Type ℓ} → Option V → (V → A) → Option A → Option A
  better none f best = best
  better (some v) f best = some (f v)

  unfoldable mutual
    pub longest_prefix_match_iterate :
        Node V → Bytes → ℕ → Bytes → Option (Bytes × V) → Run (Option (Bytes × V))
    longest_prefix_match_iterate (node p v kind ks) key depth cur_key best_match = do
      common ← prefix_length_key p key depth
      remaining ← length_at key depth
      let best_here = better v (λ x. (cur_key, x)) best_match
      if not (common == length p)
          then done best_match
          else if length p == remaining
          then done best_here
          else do
            k ← at key (depth + length p)
            longest_prefix_match_child ks k key (depth + length p) cur_key best_here

    pub longest_prefix_match_child :
        Kids V → ℕ → Bytes → ℕ → Bytes → Option (Bytes × V) → Run (Option (Bytes × V))
    longest_prefix_match_child nil k key depth cur_key best_match = done best_match
    longest_prefix_match_child (cons e n ks) k key depth cur_key best_match = elim (e == k) [
      | true ↦ longest_prefix_match_iterate n key depth (cur_key ++ prefix_of n) best_match
      | false ↦ longest_prefix_match_child ks k key depth cur_key best_match
    ]

  unfoldable mutual
    pub longest_prefix_value_bytes_iterate : Node V → Bytes → ℕ → Option V → Run (Option V)
    longest_prefix_value_bytes_iterate (node p v kind ks) key depth best_match = do
      rest ← slice_from key depth
      let best_here = better v (λ x. x) best_match
      if not (prefix_length_slice p rest == length p)
          then done best_match
          else if length p == length rest
          then done best_here
          else do
            k ← at key (depth + length p)
            longest_prefix_value_bytes_child ks k key (depth + length p) best_here

    pub longest_prefix_value_bytes_child : Kids V → ℕ → Bytes → ℕ → Option V → Run (Option V)
    longest_prefix_value_bytes_child nil k key depth best_match = done best_match
    longest_prefix_value_bytes_child (cons e n ks) k key depth best_match = elim (e == k) [
      | true ↦ longest_prefix_value_bytes_iterate n key depth best_match
      | false ↦ longest_prefix_value_bytes_child ks k key depth best_match
    ]

  unfoldable pub longest_prefix_match_k : Tree V → Bytes → Run (Option (Bytes × V))
  unfolding longest_prefix_match_iterate
  longest_prefix_match_k t key = elim t.root [
    | none ↦ done none
    | some root ↦ longest_prefix_match_iterate root key 0 (prefix_of root) none
  ]

  unfoldable pub longest_prefix_value_k : Tree V → Bytes → Run (Option V)
  unfolding longest_prefix_value_bytes_iterate
  longest_prefix_value_k t key = elim t.root [
    | none ↦ done none
    | some root ↦ longest_prefix_value_bytes_iterate root key 0 none
  ]

  -- The node below which every key begins with `prefix`, with the key that leads to it.
  unfoldable mutual
    pub find_prefix_subtree : Node V → Bytes → ℕ → Bytes → Run (Option (Node V × Bytes))
    find_prefix_subtree (node p v kind ks) prefix depth cur_key = do
      let found = some (node p v kind ks, cur_key)
      common ← prefix_length_key p prefix depth
      remaining ← length_at prefix depth
      if not (common == length p)
          then done (if common == remaining then found else none)
          else if length p == remaining
          then done found
          else do
            k ← at prefix (depth + length p)
            find_prefix_subtree_child ks k prefix (depth + length p) cur_key

    pub find_prefix_subtree_child : Kids V → ℕ → Bytes → ℕ → Bytes → Run (Option (Node V × Bytes))
    find_prefix_subtree_child nil k prefix depth cur_key = done none
    find_prefix_subtree_child (cons e n ks) k prefix depth cur_key = elim (e == k) [
      | true ↦ find_prefix_subtree n prefix depth (cur_key ++ prefix_of n)
      | false ↦ find_prefix_subtree_child ks k prefix depth cur_key
    ]
