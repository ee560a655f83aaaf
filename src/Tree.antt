-- ===== src/Tree.antt =====
-- The point operations of `AdaptiveRadixTree` (rart/src/tree.rs). A key is a byte string with the
-- depth that is consumed; a function that changes a node in place returns the new node.
pub mod Get
pub mod Insert
pub mod Laws
pub mod History
pub mod Search
pub mod Remove
pub mod Update
use rart_rs.Prelude.{
  ℕ, zero, suc, ◌+◌, ◌-◌, ◌<◌, ◌≤◌, min, Bool, true, false, not, ◌&&◌, Option, none, some, List, [],
  ◌∷◌, ◌++◌, leb, ltb, ◌==◌, if◌then◌else◌, Run, done, panic, ◌>>=◌, ◌>>◌, check, unwrap, length,
  is_some,
}
use mathlib.Core.Option
use rart_rs.Partials.{
  Bytes, at, length_at, to_partial, slice_from, partial_before, partial_after, prefix_length_slice,
  prefix_length_key,
}
use rart_rs.Node.{
  Node, node, Kids, nil, cons, Kind, empty, node4, is_leaf, new_leaf, new_inner, with_value,
  with_prefix, set_child, add_child, delete_child, num_children, prefix_of, value_of, kind_of,
  kids_of,
}

pub record Tree (V : Type 0) : Type 0 where
  pub root : Option (Node V)
  pub len : ℕ

-- `InsertRecurseResult`.
pub data Inserting (V : Type 0) : Type 0 where
  inserted : Inserting V
  replaced : V → Inserting V
  occupied : V → V → Inserting V

module _ {V : Type 0} where
  unfoldable pub new : Tree V
  new = record { root = none; len = 0 }

  -- `seek_child` reads nothing from a node that has no children.
  unfoldable mutual
    pub get_bytes_iterate : Node V → Bytes → ℕ → Run (Option V)
    get_bytes_iterate (node p v kind ks) key depth = do
      rest ← slice_from key depth
      if prefix_length_slice p rest == length p
          then (if length p == length rest
              then done v
              else (do k ← at key (depth + length p); get_bytes_child ks k key (depth + length p)))
          else done none

    pub get_bytes_child : Kids V → ℕ → Bytes → ℕ → Run (Option V)
    get_bytes_child nil k key depth = done none
    get_bytes_child (cons e n ks) k key depth = elim (e == k) [
      | true ↦ get_bytes_iterate n key depth
      | false ↦ get_bytes_child ks k key depth
    ]

  unfoldable pub get_k : Tree V → Bytes → Run (Option V)
  get_k t key = elim t.root [ none ↦ done none | some root ↦ get_bytes_iterate root key 0 ]

  -- A node whose prefix goes on where the key ends gets a parent with the value.
  unfoldable pub split_above : Node V → V → ℕ → Run (Node V)
  unfolding new_inner add_child
  split_above (node p old kind ks) value lcp = do
    new_prefix ← partial_after p lcp
    before ← partial_before p lcp
    edge ← at p lcp
    add_child edge (node new_prefix old kind ks) (with_value value (new_inner before))

  -- A node whose prefix departs from the key gets a parent, and the new leaf for a sibling.
  unfoldable pub split_fork : Node V → Bytes → V → ℕ → ℕ → Run (Node V)
  unfolding new_inner new_leaf add_child
  split_fork (node p old kind ks) key value depth lcp = do
    new_prefix ← partial_after p lcp
    before ← partial_before p lcp
    k1 ← at p lcp
    k2 ← at key (depth + lcp)
    partial ← to_partial key (depth + lcp)
    parent ← add_child k1 (node new_prefix old kind ks) (new_inner before)
    add_child k2 (new_leaf partial value) parent

  unfoldable pub append_leaf : Node V → Bytes → V → ℕ → Run (Node V)
  unfolding new_leaf add_child
  append_leaf n key value depth = do
    edge ← at key depth
    partial ← to_partial key depth
    add_child edge (new_leaf partial value) n

  -- The prefix of the node is the rest of the key.
  unfoldable pub put_value : Node V → V → Bool → Node V × Inserting V
  put_value (node p (some old) kind ks) value true = (node p (some value) kind ks, replaced old)
  put_value (node p (some old) kind ks) value false =
      (node p (some old) kind ks, occupied value old)
  put_value (node p none kind ks) value replace = (node p (some value) kind ks, inserted)

  -- A child took the key, or a new leaf does.
  unfoldable pub settle :
      Bytes
      → Option V
      → Kind
      → Run (Node V)
      → Option (Kids V × Inserting V)
      → Run (Node V × Inserting V)
  settle p old kind with_leaf (some (ks', result)) = done (node p old kind ks', result)
  settle p old kind with_leaf none = do n ← with_leaf; done (n, inserted)

  unfoldable mutual
    pub insert_recurse : Node V → Bytes → V → ℕ → Bool → Run (Node V × Inserting V)
    insert_recurse (node p old kind ks) key value depth replace = do
      let cur = node p old kind ks
      lcp ← prefix_length_key p key depth
      remaining ← length_at key depth
      let is_prefix_match = min (length p) remaining == lcp
      if is_prefix_match && length p == remaining
          then done (put_value cur value replace)
          else if is_prefix_match && ltb remaining (length p)
          then (do n ← split_above cur value lcp; done (n, inserted))
          else if not is_prefix_match
          then (do n ← split_fork cur key value depth lcp; done (n, inserted))
          else if is_leaf kind
          then (do n ← append_leaf cur key value (depth + lcp); done (n, inserted))
          else do
            k ← at key (depth + lcp)
            grown ← insert_child ks k key value (depth + lcp) replace
            settle p old kind (append_leaf cur key value (depth + lcp)) grown

    -- `seek_child_mut` and the recursive call on the child that it finds.
    pub insert_child : Kids V → ℕ → Bytes → V → ℕ → Bool → Run (Option (Kids V × Inserting V))
    insert_child nil k key value depth replace = done none
    insert_child (cons e n ks) k key value depth replace = elim (e == k) [
      | true ↦ do r ← insert_recurse n key value depth replace; done (some (cons e r.0 ks, r.1))
      | false ↦ do
        grown ← insert_child ks k key value depth replace
        done (Option.map (λ r. (cons e n r.0, r.1)) grown)
    ]

  -- `insert_k`; the value that was replaced.
  unfoldable pub insert_k : Tree V → Bytes → V → Run (Tree V × Option V)
  unfolding new_leaf insert_recurse
  insert_k t key value = elim t.root [
    | none ↦ do
      partial ← to_partial key 0
      done (record { root = some (new_leaf partial value); len = 1 }, none)
    | some root ↦ do
      (root', result) ← insert_recurse root key value 0 true
      elim result [
        | inserted ↦ done (record { root = some root'; len = t.len + 1 }, none)
        | replaced old ↦ done (record { root = some root'; len = t.len }, some old)
        | occupied _ _ ↦ panic
      ]
  ]

  -- `try_insert_k`: `none` for `Ok(())`, and the proposed and the present value for `Err`.
  unfoldable pub try_insert_k : Tree V → Bytes → V → Run (Tree V × Option (V × V))
  unfolding new_leaf insert_recurse
  try_insert_k t key value = elim t.root [
    | none ↦ do
      partial ← to_partial key 0
      done (record { root = some (new_leaf partial value); len = 1 }, none)
    | some root ↦ do
      (root', result) ← insert_recurse root key value 0 false
      elim result [
        | inserted ↦ done (record { root = some root'; len = t.len + 1 }, none)
        | occupied proposed current ↦
            done (record { root = some root'; len = t.len }, some (proposed, current))
        | replaced _ ↦ panic
      ]
  ]
