-- ===== src/Versioned/Update.antt =====
-- Updates of a slot of the versioned tree by a callback (`update_k` and `update_recurse` of
-- rart/src/versioned_tree.rs).
pub mod Effect
pub mod Steps
pub mod Total
pub mod Laws
use rart_rs.Prelude.{
  ℕ, ◌+◌, min, Bool, true, false, not, ◌&&◌, Option, none, some, ltb, ◌==◌, if◌then◌else◌, Run,
  done, ◌>>=◌, length,
}
use rart_rs.Partials.{Bytes, at, length_at, to_partial, prefix_length_key}
use rart_rs.Node.{Kind, is_leaf}
use rart_rs.Tree.Update.{SlotUpdate, keep, insert, remove}
use rart_rs.Versioned.{
  VersionedNode, versioned, Children, end, more, VersionedTree, num_children, add_child, owned,
  new_leaf, split_above, split_fork,
}
use rart_rs.Versioned.Remove.{keep_node, put_back}

-- A callback that does not fail, which is called once: its answer for a vacant slot; and what it
-- makes of the value of an occupied one in place, with its answer.
pub record SlotCallback (V : Type 0) : Type 0 where
  pub vacant : SlotUpdate V
  pub occupied : V → V × SlotUpdate V

-- `UpdateResult`: the node, if anything is left of it, and whether it changed.
abbrev pub UpdateResult : Type 0 → Type 0
UpdateResult V = Option (VersionedNode V) × Bool

module _ {V : Type 0} where
  unfoldable pub versioned_vacant_update : SlotUpdate V → Option V
  versioned_vacant_update (insert v) = some v
  versioned_vacant_update keep = none
  versioned_vacant_update remove = none

  -- The branches with a vacant slot.
  unfoldable pub fill :
      Option V → VersionedNode V → (V → Run (VersionedNode V)) → Run (UpdateResult V)
  fill none cur place = done (some cur, false)
  fill (some v) cur place = do n ← place v; done (some n, true)

  -- The node that `owned` gave, after the callback was called on its value.
  unfoldable pub apply_action : VersionedNode V → V × SlotUpdate V → UpdateResult V
  apply_action (versioned p _ kind ks version) (w, keep) =
      (some (versioned p (some w) kind ks version), true)
  apply_action (versioned p _ kind ks version) (w, insert x) =
      (some (versioned p (some x) kind ks version), true)
  apply_action (versioned p _ kind ks version) (w, remove) =
      (if num_children ks == 0 then none else some (versioned p none kind ks version), true)

  unfoldable pub set_value : VersionedNode V → V → VersionedNode V
  set_value (versioned p _ kind ks version) v = versioned p (some v) kind ks version

  -- The root was empty.
  unfoldable pub update_empty :
      ℕ → VersionedTree V → Bytes → SlotUpdate V → Run (VersionedTree V × Bool)
  update_empty version t key (insert v) = do
    partial ← to_partial key 0
    done (record { root = some (new_leaf partial v version); version = version }, true)
  update_empty version t key keep = done (t, false)
  update_empty version t key remove = done (t, false)

  module _ (shared : VersionedNode V → Bool) (u : SlotCallback V) (version : ℕ) where
    -- The prefix of the node is the rest of the key.
    unfoldable pub update_here : VersionedNode V → Run (UpdateResult V)
    update_here (versioned p none kind ks created) =
        fill (versioned_vacant_update u.vacant) (versioned p none kind ks created) (λ value. do
          n ← owned shared (versioned p none kind ks created) version
          done (set_value n value))
    update_here (versioned p (some old) kind ks created) = do
      n ← owned shared (versioned p (some old) kind ks created) version
      done (apply_action n (u.occupied old))

    -- A leaf with the value and what follows `depth` of the key, at the edge `k`.
    unfoldable pub append_leaf : VersionedNode V → ℕ → Bytes → V → ℕ → Run (VersionedNode V)
    append_leaf cur k key value depth = do
      partial ← to_partial key depth
      n ← owned shared cur version
      add_child k (new_leaf partial value version) n

    -- A child was updated, or there is none.
    unfoldable pub settle_update :
        VersionedNode V
        → ℕ
        → (V → Run (VersionedNode V))
        → Option (UpdateResult V)
        → Run (UpdateResult V)
    settle_update cur k place none = fill (versioned_vacant_update u.vacant) cur place
    settle_update cur k place (some (child, false)) = done (some cur, false)
    settle_update cur k place (some (child, true)) = do
      n ← owned shared cur version
      n' ← put_back k n child
      done (keep_node n', true)

    unfoldable mutual
      pub update_recurse : VersionedNode V → Bytes → ℕ → Run (UpdateResult V)
      update_recurse (versioned p v kind ks created) key depth = do
        let cur = versioned p v kind ks created
        lcp ← prefix_length_key p key depth
        remaining ← length_at key depth
        let is_prefix_match = min (length p) remaining == lcp
        if is_prefix_match && length p == remaining
            then update_here cur
            else if is_prefix_match && ltb remaining (length p)
            then fill (versioned_vacant_update u.vacant) cur
                (λ value. split_above cur value lcp version)
            else if not is_prefix_match
            then fill (versioned_vacant_update u.vacant) cur
                (λ value. split_fork cur key value depth lcp version)
            else if is_leaf kind
            then fill (versioned_vacant_update u.vacant) cur (λ value. do
              edge ← at key (depth + lcp)
              append_leaf cur edge key value (depth + lcp))
            else do
              k ← at key (depth + length p)
              visited ← update_child ks k key (depth + length p)
              settle_update cur k (λ value. append_leaf cur k key value (depth + length p)) visited

      -- `seek_child` and the recursive call on the child that it finds.
      pub update_child : Children V → ℕ → Bytes → ℕ → Run (Option (UpdateResult V))
      update_child end k key depth = done none
      update_child (more e n ks) k key depth = elim (e == k) [
        | true ↦ do r ← update_recurse n key depth; done (some r)
        | false ↦ update_child ks k key depth
      ]

  unfoldable pub update_k :
      (VersionedNode V → Bool)
      → SlotCallback V
      → VersionedTree V
      → Bytes
      → Run (VersionedTree V × Bool)
  update_k shared u t key = elim t.root [
    | none ↦ update_empty (t.version + 1) t key u.vacant
    | some root ↦ do
      (root', changed) ← update_recurse shared u (t.version + 1) root key 0
      done
          (record { root = root'; version = if changed then t.version + 1 else t.version }, changed)
  ]
