-- ===== src/Versioned/Remove.antt =====
-- Removal from the versioned tree (`remove_k`, `remove_recurse`, `delete_k` and `delete_recurse` of
-- rart/src/versioned_tree.rs).
pub mod Effect
pub mod Total
pub mod Delete
pub mod Laws
use rart_rs.Prelude.{
  ℕ, suc, ◌+◌, Bool, true, false, not, ◌&&◌, Option, none, some, ◌==◌, if◌then◌else◌, Run, done,
  panic, ◌>>=◌, length, is_some, unwrap,
}
use rart_rs.Partials.{Bytes, at, length_at, prefix_length_key}
use rart_rs.Node.{Kind, is_leaf}
use rart_rs.Versioned.{
  VersionedNode, versioned, Children, end, more, VersionedTree, num_children, add_child,
  delete_child, owned, get_k,
}

-- `RemoveResult` and `DeleteResult`: what is left of the node, if anything is, with the value.
abbrev pub RemoveResult : Type 0 → Type 0
RemoveResult V = Option (VersionedNode V) × V

abbrev pub DeleteResult : Type 0 → Type 0
DeleteResult V = Option (VersionedNode V)

module _ {V : Type 0} where
  -- A node that holds nothing is dropped.
  unfoldable pub keep_node : VersionedNode V → Option (VersionedNode V)
  keep_node (versioned p v kind ks version) =
      if num_children ks == 0 && not (is_some v) then none else some (versioned p v kind ks version)

  -- The child was taken out of its parent, and what is left of it is put back.
  unfoldable pub put_back : ℕ → VersionedNode V → Option (VersionedNode V) → Run (VersionedNode V)
  put_back k parent none = done (delete_child k parent).1
  put_back k parent (some child) = add_child k child (delete_child k parent).1

  unfoldable pub settle_remove :
      ℕ → VersionedNode V → Option (RemoveResult V) → Run (Option (RemoveResult V))
  settle_remove k parent none = done none
  settle_remove k parent (some (child, removed)) = do
    n ← put_back k parent child
    done (some (keep_node n, removed))

  unfoldable pub settle_delete :
      ℕ → VersionedNode V → Option (DeleteResult V) → Run (Option (DeleteResult V))
  settle_delete k parent none = done none
  settle_delete k parent (some child) = do n ← put_back k parent child; done (some (keep_node n))

  -- The node that `owned` gave, without its value.
  unfoldable pub take_value : VersionedNode V → Option (RemoveResult V)
  take_value (versioned p none kind ks version) = none
  take_value (versioned p (some v) kind ks version) =
      some (keep_node (versioned p none kind ks version), v)

  unfoldable pub drop_value : VersionedNode V → Option (DeleteResult V)
  drop_value (versioned p none kind ks version) = none
  drop_value (versioned p (some v) kind ks version) =
      some (if num_children ks == 0 then none else some (versioned p none kind ks version))

  abbrev pub leaf_remove : Option V → Option (RemoveResult V)
  leaf_remove none = none
  leaf_remove (some v) = some (none, v)

  abbrev pub leaf_delete : Option V → Option (DeleteResult V)
  leaf_delete none = none
  leaf_delete (some v) = some none

  module _ (shared : VersionedNode V → Bool) (version : ℕ) where
    unfoldable mutual
      pub remove_recurse : VersionedNode V → Bytes → ℕ → Run (Option (RemoveResult V))
      remove_recurse (versioned p v kind ks created) key depth = do
        let cur = versioned p v kind ks created
        common ← prefix_length_key p key depth
        if not (common == length p) then done none else do
          remaining ← length_at key depth
          if length p == remaining
              then (if is_leaf kind
                  then done (leaf_remove v)
                  else (do n ← owned shared cur version; done (take_value n)))
              else if is_leaf kind
              then done none
              else do
                k ← at key (depth + length p)
                n ← owned shared cur version
                visited ← remove_child ks k key (depth + length p)
                settle_remove k n visited

      -- The recursive call on the child at the edge, which is expected to have the key.
      pub remove_child : Children V → ℕ → Bytes → ℕ → Run (Option (RemoveResult V))
      remove_child end k key depth = done none
      remove_child (more e n ks) k key depth = elim (e == k) [
        | true ↦ do r ← remove_recurse n key depth; x ← unwrap r; done (some x)
        | false ↦ remove_child ks k key depth
      ]

    unfoldable mutual
      pub delete_recurse : VersionedNode V → Bytes → ℕ → Run (Option (DeleteResult V))
      delete_recurse (versioned p v kind ks created) key depth = do
        let cur = versioned p v kind ks created
        common ← prefix_length_key p key depth
        if not (common == length p) then done none else do
          remaining ← length_at key depth
          if length p == remaining
              then (if is_leaf kind
                  then done (leaf_delete v)
                  else (do n ← owned shared cur version; done (drop_value n)))
              else if is_leaf kind
              then done none
              else do
                k ← at key (depth + length p)
                n ← owned shared cur version
                visited ← delete_below ks k key (depth + length p)
                settle_delete k n visited

      pub delete_below : Children V → ℕ → Bytes → ℕ → Run (Option (DeleteResult V))
      delete_below end k key depth = done none
      delete_below (more e n ks) k key depth = elim (e == k) [
        | true ↦ do r ← delete_recurse n key depth; x ← unwrap r; done (some x)
        | false ↦ delete_below ks k key depth
      ]

  -- The root that is left after the value of the root itself was taken.
  unfoldable pub bare_root : VersionedNode V → Option (VersionedNode V)
  bare_root (versioned p v kind ks version) = keep_node (versioned p none kind ks version)

  -- The root is dropped if it is an inner node that holds nothing.
  unfoldable pub filter_root : Option (VersionedNode V) → Option (VersionedNode V)
  filter_root none = none
  filter_root (some (versioned p v kind ks version)) =
      if not (is_leaf kind) && (num_children ks == 0 && not (is_some v))
      then none
      else some (versioned p v kind ks version)

  unfoldable pub value : VersionedNode V → Option V
  value (versioned p v kind ks version) = v

  module _ (shared : VersionedNode V → Bool) where
    -- Behind the check that the key is there.
    unfoldable pub remove_root : VersionedNode V → ℕ → Bytes → Run (VersionedTree V × Option V)
    remove_root (versioned p v kind ks created) version key = do
      let root = versioned p v kind ks created
      remaining ← length_at key 0
      if is_leaf kind
          then (if not (length p == remaining)
              then done (record { root = some root; version = version }, none)
              else done (record { root = none; version = version }, v))
          else if length p == remaining
          then (do
            n ← owned shared root version
            done (record { root = bare_root n; version = version }, value n))
          else do
            r ← remove_recurse shared version root key 0
            x ← unwrap r
            done (record { root = filter_root x.0; version = version }, some x.1)

    unfoldable pub remove_k : VersionedTree V → Bytes → Run (VersionedTree V × Option V)
    remove_k t key = do
      there ← get_k t key
      elim there [
        | none ↦ done (t, none)
        | some _ ↦ do root ← unwrap t.root; remove_root root (t.version + 1) key
      ]

    unfoldable pub delete_root : VersionedNode V → ℕ → Bytes → Run (VersionedTree V)
    delete_root (versioned p v kind ks created) version key = do
      let root = versioned p v kind ks created
      if is_leaf kind then done (record { root = none; version = version }) else do
        remaining ← length_at key 0
        if length p == remaining
            then (do
              n ← owned shared root version
              done (record { root = bare_root n; version = version }))
            else do
              r ← delete_recurse shared version root key 0
              x ← unwrap r
              done (record { root = filter_root x; version = version })

    unfoldable pub delete_k : VersionedTree V → Bytes → Run (VersionedTree V × Bool)
    delete_k t key = do
      there ← get_k t key
      elim there [
        | none ↦ done (t, false)
        | some _ ↦ do
          root ← unwrap t.root
          t' ← delete_root root (t.version + 1) key
          done (t', true)
      ]
