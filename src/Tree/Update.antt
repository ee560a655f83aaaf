-- ===== src/Tree/Update.antt =====
-- Updates of a slot by a callback (`update_k`, `try_update_k`, `try_update_recurse_with` and
-- `try_update_recurse_with_rollback` of rart/src/tree.rs, which differ in what an error leaves
-- behind).
pub mod Steps
pub mod Answers
pub mod Effect
pub mod Total
pub mod Laws
use rart_rs.Prelude.{
  ℕ, ◌+◌, ◌-◌, min, Bool, true, false, not, ◌&&◌, Option, none, some, ltb, ◌==◌, if◌then◌else◌, Run,
  done, ◌>>=◌, length, is_some,
}
use rart_rs.Partials.{Bytes, at, length_at, to_partial, prefix_length_key}
use rart_rs.Node.{
  Node, node, Kids, nil, cons, Kind, is_leaf, new_leaf, set_child, delete_child, num_children,
  value_of, kids_of,
}
use rart_rs.Tree.{Tree, split_above, split_fork, append_leaf}

pub data Result (E A : Type 0) : Type 0 where
  ok : A → Result E A
  err : E → Result E A

-- `SlotUpdate`.
pub data SlotUpdate (V : Type 0) : Type 0 where
  keep : SlotUpdate V
  insert : V → SlotUpdate V
  remove : SlotUpdate V

-- A callback, which is called once: what it answers for a vacant slot; and what it makes of the
-- value of an occupied one in place, with its answer.
pub record Callback (E V : Type 0) : Type 0 where
  pub vacant : Result E (SlotUpdate V)
  pub occupied : V → V × Result E (SlotUpdate V)

-- `UpdateRecurseResult`.
pub data Change : Type 0 where
  unchanged : Change
  changed : Change
  inserted : Change
  removed : Change
  remove_current : Change

module _ {E V : Type 0} where
  -- What `vacant_update` gives: the value to insert, if there is one.
  unfoldable pub vacant_update : Result E (SlotUpdate V) → Result E (Option V)
  vacant_update (err e) = err e
  vacant_update (ok keep) = ok none
  vacant_update (ok (insert v)) = ok (some v)
  vacant_update (ok remove) = ok none

  -- The branches with a vacant slot: `place` puts the value where it belongs.
  unfoldable pub fill :
      Result E (Option V) → Node V → (V → Run (Node V)) → Run (Node V × Result E Change)
  fill (err e) cur place = done (cur, err e)
  fill (ok none) cur place = done (cur, ok unchanged)
  fill (ok (some v)) cur place = do n ← place v; done (n, ok inserted)

  -- `apply_occupied_update`, or with `rollback` `apply_occupied_update_rollback`, on the node whose
  -- value was `old`.
  unfoldable pub apply_occupied_update :
      Bool → Node V → V → V × Result E (SlotUpdate V) → Node V × Result E Change
  apply_occupied_update rollback (node p _ kind ks) old (v, err e) =
      (node p (some (if rollback then old else v)) kind ks, err e)
  apply_occupied_update rollback (node p _ kind ks) old (v, ok keep) =
      (node p (some v) kind ks, ok changed)
  apply_occupied_update rollback (node p _ kind ks) old (v, ok (insert w)) =
      (node p (some w) kind ks, ok changed)
  apply_occupied_update rollback (node p _ kind ks) old (v, ok remove) =
      (node p none kind ks, ok (if num_children ks == 0 then remove_current else removed))

  -- What the parent does after its child was updated.
  unfoldable pub prune : ℕ → Node V → Result E Change → Run (Node V × Result E Change)
  prune k cur (err e) = done (cur, err e)
  prune k cur (ok unchanged) = done (cur, ok unchanged)
  prune k cur (ok changed) = done (cur, ok changed)
  prune k cur (ok inserted) = done (cur, ok inserted)
  prune k cur (ok removed) = done (cur, ok removed)
  prune k cur (ok remove_current) = do
    (deleted, smaller) ← delete_child k cur
    let dead = num_children (kids_of smaller) == 0 && not (is_some (value_of smaller))
    done (smaller, ok (if dead then remove_current else removed))

  -- The root was empty.
  unfoldable pub update_empty :
      Tree V → Bytes → Result E (SlotUpdate V) → Run (Tree V × Result E Bool)
  update_empty t key (err e) = done (t, err e)
  update_empty t key (ok (insert v)) = do
    partial ← to_partial key 0
    done (record { root = some (new_leaf partial v); len = 1 }, ok true)
  update_empty t key (ok keep) = done (t, ok false)
  update_empty t key (ok remove) = done (t, ok false)

  -- The count, and the root, after the change.
  unfoldable pub count_update : ℕ → Node V → Result E Change → Tree V × Result E Bool
  count_update len root (err e) = (record { root = some root; len = len }, err e)
  count_update len root (ok unchanged) = (record { root = some root; len = len }, ok false)
  count_update len root (ok changed) = (record { root = some root; len = len }, ok true)
  count_update len root (ok inserted) = (record { root = some root; len = len + 1 }, ok true)
  count_update len root (ok removed) = (record { root = some root; len = len - 1 }, ok true)
  count_update len root (ok remove_current) = (record { root = none; len = len - 1 }, ok true)

  module _ (rollback : Bool) (u : Callback E V) where
    -- The prefix of the node is the rest of the key.
    unfoldable pub update_here : Node V → Run (Node V × Result E Change)
    update_here (node p (some old) kind ks) =
        done (apply_occupied_update rollback (node p (some old) kind ks) old (u.occupied old))
    update_here (node p none kind ks) =
        fill (vacant_update u.vacant) (node p none kind ks) (λ v. done (node p (some v) kind ks))

    -- A child was updated, or there is none.
    unfoldable pub settle_update :
        Node V
        → ℕ
        → (V → Run (Node V))
        → Option (Node V × Result E Change)
        → Run (Node V × Result E Change)
    settle_update cur k place none = fill (vacant_update u.vacant) cur place
    settle_update (node p v kind ks) k place (some (child, result)) =
        prune k (node p v kind (set_child k child ks)) result

    unfoldable mutual
      pub try_update_recurse : Node V → Bytes → ℕ → Run (Node V × Result E Change)
      try_update_recurse (node p v kind ks) key depth = do
        let cur = node p v kind ks
        lcp ← prefix_length_key p key depth
        remaining ← length_at key depth
        let is_prefix_match = min (length p) remaining == lcp
        if is_prefix_match && length p == remaining
            then update_here cur
            else if is_prefix_match && ltb remaining (length p)
            then fill (vacant_update u.vacant) cur (λ value. split_above cur value lcp)
            else if not is_prefix_match
            then fill (vacant_update u.vacant) cur (λ value. split_fork cur key value depth lcp)
            else if is_leaf kind
            then fill (vacant_update u.vacant) cur
                (λ value. append_leaf cur key value (depth + lcp))
            else do
              k ← at key (depth + lcp)
              visited ← try_update_child ks k key (depth + lcp)
              settle_update cur k (λ value. append_leaf cur key value (depth + lcp)) visited

      -- `seek_child_mut` and the recursive call on the child that it finds.
      pub try_update_child : Kids V → ℕ → Bytes → ℕ → Run (Option (Node V × Result E Change))
      try_update_child nil k key depth = done none
      try_update_child (cons e n ks) k key depth = elim (e == k) [
        | true ↦ do r ← try_update_recurse n key depth; done (some r)
        | false ↦ try_update_child ks k key depth
      ]

    -- `try_update_k_inner`, and with `rollback` `try_update_k_rollback`.
    unfoldable pub try_update_k_inner : Tree V → Bytes → Run (Tree V × Result E Bool)
    try_update_k_inner t key = elim t.root [
      | none ↦ update_empty t key u.vacant
      | some root ↦ do r ← try_update_recurse root key 0; done (count_update t.len r.0 r.1)
    ]

  -- `try_update_k`.
  unfoldable pub try_update_k : Callback E V → Tree V → Bytes → Run (Tree V × Result E Bool)
  try_update_k u t key = try_update_k_inner true u t key

-- What `update_k` makes of the outcome: the callback has no error to give.
unfoldable pub settled : {V : Type 0} → Tree V × Result ⊥ Bool → Run (Tree V × Bool)
settled (t, ok b) = done (t, b)
settled (t, err e) = absurd e

-- `update_k`.
unfoldable pub update_k : {V : Type 0} → Callback ⊥ V → Tree V → Bytes → Run (Tree V × Bool)
update_k u t key = do r ← try_update_k_inner false u t key; settled r
