-- ===== src/Tree/Search/Unkeyed.antt =====
-- The search for the subtree below a prefix that builds no key (`find_prefix_subtree_node` of
-- rart/src/tree.rs).
use rart_rs.Prelude.{
  ℕ, ◌+◌, ◌≡◌, refl, Bool, true, false, not, Option, none, some, ◌++◌, length, ◌==◌, if◌then◌else◌,
  Run, done, panic, ◌>>=◌, run_map,
}
use mathlib.Core.Option
use rart_rs.Partials.{Bytes, at, length_at, prefix_length_key}
use rart_rs.Node.{Node, node, Kids, nil, cons, prefix_of}
use rart_rs.Tree.Search.{find_prefix_subtree, find_prefix_subtree_child}

module _ {V : Type 0} where
  unfoldable mutual
    pub find_prefix_subtree_node : Node V → Bytes → ℕ → Run (Option (Node V))
    find_prefix_subtree_node (node p v kind ks) prefix depth = do
      common ← prefix_length_key p prefix depth
      remaining ← length_at prefix depth
      if not (common == length p)
          then done (if common == remaining then some (node p v kind ks) else none)
          else if length p == remaining
          then done (some (node p v kind ks))
          else do
            k ← at prefix (depth + length p)
            find_prefix_subtree_node_child ks k prefix (depth + length p)

    pub find_prefix_subtree_node_child : Kids V → ℕ → Bytes → ℕ → Run (Option (Node V))
    find_prefix_subtree_node_child nil k prefix depth = done none
    find_prefix_subtree_node_child (cons e n ks) k prefix depth = elim (e == k) [
      | true ↦ find_prefix_subtree_node n prefix depth
      | false ↦ find_prefix_subtree_node_child ks k prefix depth
    ]

  -- What is found, without the key that leads to it.
  abbrev without_key : Run (Option (Node V × Bytes)) → Run (Option (Node V))
  without_key = run_map (Option.map (λ r. r.0))

  module _ (n : Node V) (cur : Bytes) where
    without_key-if :
        (b : Bool)
        → done (if b then some n else none) ≡ without_key (done (if b then some (n, cur) else none))
    without_key-if true = refl
    without_key-if false = refl

    without_key-tests :
        (b c d : Bool) (next : Run (Option (Node V))) (next' : Run (Option (Node V × Bytes)))
        → next ≡ without_key next'
        → (if not b then done (if c then some n else none) else if d then done (some n) else next)
          ≡ without_key (
              if not b
              then done (if c then some (n, cur) else none)
              else if d
              then done (some (n, cur))
              else next')
    without_key-tests false c d next next' h = without_key-if c
    without_key-tests true c true next next' h = refl
    without_key-tests true c false next next' h = h

  without_key-bind :
      {A : Type 0}
      → (r : Run A) (f : A → Run (Option (Node V))) (g : A → Run (Option (Node V × Bytes)))
      → ((a : A) → f a ≡ without_key (g a))
      → (r >>= f) ≡ without_key (r >>= g)
  without_key-bind (done a) f g h = h a
  without_key-bind panic f g h = refl

  without_key-edge :
      (b : Bool) (x y : Run (Option (Node V))) (x' y' : Run (Option (Node V × Bytes)))
      → x ≡ without_key x'
      → y ≡ without_key y'
      → elim b [ true ↦ x | false ↦ y ] ≡ without_key (elim b [ true ↦ x' | false ↦ y' ])
  without_key-edge true x y x' y' h k = h
  without_key-edge false x y x' y' h k = k

  mutual
    unfolding find_prefix_subtree_node find_prefix_subtree

    node_lem :
        (n : Node V) (prefix : Bytes) (depth : ℕ) (cur : Bytes)
        → find_prefix_subtree_node n prefix depth
          ≡ without_key (find_prefix_subtree n prefix depth cur)
    node_lem (node p v kind ks) prefix depth cur =
        without_key-bind (prefix_length_key p prefix depth) _ _ (λ common.
          without_key-bind (length_at prefix depth) _ _ (λ remaining.
            without_key-tests (node p v kind ks) cur (common == length p) (common == remaining)
              (length p == remaining) _ _
              (without_key-bind (at prefix (depth + length p)) _ _
                (λ k. child_lem ks k prefix (depth + length p) cur))))

    child_lem :
        (ks : Kids V) (k : ℕ) (prefix : Bytes) (depth : ℕ) (cur : Bytes)
        → find_prefix_subtree_node_child ks k prefix depth
          ≡ without_key (find_prefix_subtree_child ks k prefix depth cur)
    child_lem nil k prefix depth cur = refl
    child_lem (cons e n ks) k prefix depth cur =
        without_key-edge (e == k) _ _ _ _ (node_lem n prefix depth (cur ++ prefix_of n))
          (child_lem ks k prefix depth cur)

  -- At every depth `find_prefix_subtree_node` finds the node that `find_prefix_subtree` finds, with
  -- whatever key that one builds, and panics where it does.
  pub find_prefix_subtree_node_lem :
      (n : Node V) (prefix : Bytes) (depth : ℕ) (cur_key : Bytes)
      → find_prefix_subtree_node n prefix depth
        ≡ run_map (Option.map (λ r. r.0)) (find_prefix_subtree n prefix depth cur_key)
  find_prefix_subtree_node_lem n prefix depth cur_key = node_lem n prefix depth cur_key
