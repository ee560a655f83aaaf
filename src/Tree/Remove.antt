-- ===== src/Tree/Remove.antt =====
-- Removal (`remove_recurse`, `remove_k` and `delete_k` of rart/src/tree.rs).
pub mod Effect
pub mod Steps
pub mod Total
pub mod Map
use rart_rs.Prelude.{
  ℕ, zero, suc, ◌+◌, ◌-◌, Bool, true, false, not, ◌&&◌, Option, none, some, ◌==◌, if◌then◌else◌,
  Run, done, panic, ◌>>=◌, ◌>>◌, check, unwrap, length, is_some, leb,
}
use rart_rs.Partials.{Bytes, at, length_at, prefix_length_key}
use rart_rs.Node.{
  Node, node, Kids, nil, cons, Kind, empty, is_leaf, set_child, delete_child, num_children,
  prefix_of,
}
use rart_rs.Tree.{Tree}

-- What a child reports to its parent: itself as it is changed in place, the value that was removed,
-- and whether the parent deletes it.
abbrev pub Removing : Type 0 → Type 0
Removing V = Node V × Option V × Bool

module _ {V : Type 0} where
  -- An inner node that is left with neither value nor child.
  unfoldable pub is_dead : Node V → Bool
  unfolding num_children
  is_dead (node p v kind ks) = not (is_leaf kind) && (num_children ks == 0 && not (is_some v))

  -- Of `remove_recurse`: the parent with the changed child, which it deletes if it has to.
  unfoldable pub take_child : ℕ → Node V → Option (Removing V) → Run (Node V × Option V)
  unfolding set_child delete_child
  take_child c parent none = done (parent, none)
  take_child c (node p v kind ks) (some (child, removed, gone)) =
      let parent = node p v kind (set_child c child ks) in
      if gone
      then (do
        (deleted, smaller) ← delete_child c parent
        _ ← unwrap deleted
        done (smaller, removed))
      else done (parent, removed)

  -- Of `remove_recurse`: the child whose prefix is the rest of the key gives its value away.
  unfoldable pub take_value : Node V → Run (Removing V)
  unfolding num_children
  take_value (node p v empty ks) = do value ← unwrap v; done (node p v empty ks, some value, true)
  take_value (node p v kind ks) = done (node p none kind ks, v, is_some v && num_children ks == 0)

  unfoldable mutual
    -- `remove_recurse` from where the child is found.
    pub remove_from : Node V → Bytes → ℕ → Run (Removing V)
    remove_from (node p v kind ks) key depth = do
      let cur = node p v kind ks
      common ← prefix_length_key p key depth
      remaining ← length_at key depth
      if not (common == length p)
          then done (cur, none, false)
          else if length p == remaining
          then take_value cur
          else if is_leaf kind
          then done (cur, none, false)
          else do
            c ← at key (depth + length p)
            visited ← remove_child ks c key (depth + length p)
            r ← take_child c cur visited
            done (r.0, r.1, is_some r.1 && is_dead r.0)

    -- `seek_child_mut` and what is done at the child.
    pub remove_child : Kids V → ℕ → Bytes → ℕ → Run (Option (Removing V))
    remove_child nil c key depth = done none
    remove_child (cons e n ks) c key depth = elim (e == c) [
      | true ↦ do r ← remove_from n key depth; done (some r)
      | false ↦ remove_child ks c key depth
    ]

  unfoldable pub remove_recurse : Node V → Bytes → ℕ → Run (Node V × Option V)
  remove_recurse (node p v kind ks) key depth = do
    c ← at key depth
    visited ← remove_child ks c key depth
    take_child c (node p v kind ks) visited

  -- `remove_k` at a root whose prefix is the whole key.
  unfoldable pub remove_root : Node V → ℕ → Run (Tree V × Option V)
  unfolding num_children
  remove_root (node p v empty ks) len = do
    value ← unwrap v
    done (record { root = none; len = len - 1 }, some value)
  remove_root (node p v kind ks) len =
      let len' = if is_some v then len - 1 else len in
      done (
        record {
          root = if num_children ks == 0 then none else some (node p none kind ks);
          len = len';
        },
        v,
      )

  unfoldable pub remove_k : Tree V → Bytes → Run (Tree V × Option V)
  unfolding remove_root
  remove_k t key = elim t.root [
    | none ↦ done (t, none)
    | some root ↦ do
      common ← prefix_length_key (prefix_of root) key 0
      remaining ← length_at key 0
      if not (common == length (prefix_of root))
          then done (t, none)
          else if length (prefix_of root) == remaining
          then remove_root root t.len
          else do
            r ← remove_recurse root key common
            done (
              record {
                root = if is_dead r.0 then none else some r.0;
                len = if is_some r.1 then t.len - 1 else t.len;
              },
              r.1,
            )
  ]

  unfoldable pub delete_k : Tree V → Bytes → Run (Tree V × Bool)
  unfolding remove_k
  delete_k t key = do r ← remove_k t key; done (r.0, is_some r.1)
