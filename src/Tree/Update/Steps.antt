-- ===== src/Tree/Update/Steps.antt =====
-- The branches of `try_update_recurse`, one equation for each way in which the prefix of the node
-- and the rest of the key can lie.
use rart_rs.Prelude.{
  ℕ, ◌+◌, ◌≡◌, ◌≢◌, Bool, Option, none, some, ◌∷◌, ◌++◌, if◌then◌else◌, done, ◌>>=◌, arith, length,
  ==_refl, refl,
}
use rart_rs.Partials.{Bytes}
use rart_rs.Partials.Laws.{
  prefix_length_key-append, length_at-append, common_length_self, common_length-below,
  common_length-above, common_length-fork, at_edge,
}
use rart_rs.Node.{node, Kids, nil, cons, Kind, is_leaf, seek}
use rart_rs.Tree.{split_above, split_fork, append_leaf}
use rart_rs.Tree.Insert.Steps.{min_self, below_tests, above_tests, fork_test}
use rart_rs.Tree.Update.{
  Callback, try_update_recurse, try_update_child, update_here, fill, vacant_update, settle_update,
}

module _ {E V : Type 0} (rollback : Bool) (u : Callback E V) where
  module _ (old : Option V) (kind : Kind) (ks : Kids V) (pre : Bytes) where
    pub update_here_lem :
        (p : Bytes)
        → try_update_recurse rollback u (node p old kind ks) (pre ++ p) (length pre)
          ≡ update_here rollback u (node p old kind ks)
    unfolding try_update_recurse
    update_here_lem p = rw (
      prefix_length_key-append pre p p,
      length_at-append pre p,
      common_length_self p,
      ==_refl (length p),
      min_self (length p),
    )

    pub update_above :
        (rest : Bytes) (e : ℕ) (q : Bytes)
        → try_update_recurse rollback u
            (node (rest ++ e ∷ q) old kind ks)
            (pre ++ rest)
            (length pre)
          ≡ fill
              (vacant_update u.vacant)
              (node (rest ++ e ∷ q) old kind ks)
              (λ value. split_above (node (rest ++ e ∷ q) old kind ks) value (length rest))
    unfolding try_update_recurse
    update_above rest e q =
        let (t, s, v) = above_tests rest e q in
        rw (
          prefix_length_key-append pre rest (rest ++ e ∷ q),
          length_at-append pre rest,
          common_length-above rest (e ∷ q),
          t,
          s,
          v,
        )

    pub update_fork :
        (c : Bytes) (a b : ℕ) (q s : Bytes)
        → a ≢ b
        → try_update_recurse rollback u
            (node (c ++ a ∷ q) old kind ks)
            (pre ++ (c ++ b ∷ s))
            (length pre)
          ≡ fill (vacant_update u.vacant) (node (c ++ a ∷ q) old kind ks) (λ value.
            split_fork
              (node (c ++ a ∷ q) old kind ks)
              (pre ++ (c ++ b ∷ s))
              value
              (length pre)
              (length c))
    unfolding try_update_recurse
    update_fork c a b q s h = rw (
      prefix_length_key-append pre (c ++ b ∷ s) (c ++ a ∷ q),
      length_at-append pre (c ++ b ∷ s),
      common_length-fork c a b q s h,
      fork_test c a b q s,
    )

    -- The key goes on behind the prefix: a child is looked for, if the node has any.
    pub update_below :
        (p : Bytes) (e : ℕ) (s : Bytes)
        → try_update_recurse rollback u (node p old kind ks) (pre ++ (p ++ e ∷ s)) (length pre) ≡ (
            if is_leaf kind
            then fill (vacant_update u.vacant) (node p old kind ks) (λ value.
              append_leaf (node p old kind ks) (pre ++ (p ++ e ∷ s)) value (length pre + length p))
            else (do
              visited ←
                  try_update_child rollback u ks e (pre ++ (p ++ e ∷ s)) (length pre + length p)
              settle_update rollback u
                  (node p old kind ks)
                  e
                  (λ value.
                    append_leaf
                      (node p old kind ks)
                      (pre ++ (p ++ e ∷ s))
                      value
                      (length pre + length p))
                  visited))
    unfolding try_update_recurse
    update_below p e s =
        let (t, z, v) = below_tests p e s in
        rw (
          prefix_length_key-append pre (p ++ e ∷ s) p,
          length_at-append pre (p ++ e ∷ s),
          common_length-below p (e ∷ s),
          t,
          z,
          v,
          at_edge pre p e s,
        )

  -- The child is found as `seek_child` finds it.
  pub try_update_child-seek :
      (ks : Kids V) (k : ℕ) (key : Bytes) (depth : ℕ)
      → try_update_child rollback u ks k key depth ≡ (elim (seek k ks) [
        | none ↦ done none
        | some c ↦ try_update_recurse rollback u c key depth >>= λ r. done (some r)
      ])
  unfolding try_update_recurse seek
  try_update_child-seek nil k key depth = refl
  try_update_child-seek (cons f n ks) k key depth =
      ground (arith, try_update_child-seek ks k key depth)
