-- ===== src/Versioned/Steps.antt =====
-- The branches of `insert_recurse` of the versioned tree, one equation for each way in which the
-- prefix of the node and the rest of the key can lie.
use rart_rs.Prelude.{
  ℕ, ◌+◌, ◌<◌, ◌≤◌, ◌≡◌, ◌≢◌, refl, Bool, true, false, Option, none, some, ◌∷◌, ◌++◌, if◌then◌else◌,
  done, ◌>>=◌, arith, length, ==_refl, is_some, take-length_append, drop-length_append,
}
use rart_rs.Partials.{Bytes}
use rart_rs.Partials.Laws.{
  prefix_length_key-append, length_at-append, common_length_self, common_length-below,
  common_length-above, common_length-fork, at_edge, at_end, to_partial-append,
}
use rart_rs.Node.{Kind, empty, node4, is_leaf, grow, capacity}
use rart_rs.Node.Children.{kind_for}
use rart_rs.Tree.Insert.Steps.{min_self, below_tests, above_tests, fork_test, leb-length, length-le}
use rart_rs.Versioned.{
  VersionedNode, versioned, Children, end, more, insert_recurse, insert_child, split_above,
  split_fork, replace_value, add_child, new_leaf, new_inner, settle, seek_child, add, num_children,
  room_for, is_full,
}
use rart_rs.Versioned.Plain.{owned_lem, room_for_lem}

module _ {V : Type 0} where
  pub add_child_first :
      (e : ℕ) (c : VersionedNode V) (p : Bytes) (v : Option V) (version : ℕ)
      → add_child e c (versioned p v node4 end version)
        ≡ done (versioned p v node4 (more e c end) version)
  unfolding add_child room_for is_full grow num_children add
  add_child_first e c p v version = ground arith

  pub add_child_second :
      (b : ℕ) (c : VersionedNode V) (a : ℕ) (n : VersionedNode V) (p : Bytes) (v : Option V)
      (version : ℕ)
      → add_child b c (versioned p v node4 (more a n end) version)
        ≡ done (versioned p v node4 (add b c (more a n end)) version)
  unfolding add_child room_for is_full grow num_children
  add_child_second b c a n p v version = ground arith

  -- A leaf at a new edge.
  pub add_child_leaf :
      (k : ℕ) (c : VersionedNode V) (p : Bytes) (v : Option V) (kind : Kind) (ks : Children V)
      (version : ℕ)
      → num_children ks ≤ capacity kind
      → num_children ks < 256
      → add_child k c (versioned p v kind ks version)
        ≡ done (versioned p v (kind_for kind (num_children ks)) (add k c ks) version)
  unfolding add_child
  add_child_leaf k c p v kind ks version h l = rw (room_for_lem kind (num_children ks) h l)

module _ {V : Type 0} (shared : VersionedNode V → Bool) (value : V) (target : ℕ)
    (wanted : Bool) where
  module _ (old : Option V) (kind : Kind) (ks : Children V) (created : ℕ) (pre : Bytes) where
    pub versioned_here :
        (p : Bytes)
        → created < target
        → insert_recurse shared value target wanted
            (versioned p old kind ks created)
            (pre ++ p)
            (length pre)
          ≡ done
              (versioned p (some value) kind ks target, is_some old, if wanted then old else none)
    unfolding insert_recurse replace_value
    versioned_here p h = rw (
      prefix_length_key-append pre p p,
      length_at-append pre p,
      common_length_self p,
      ==_refl (length p),
      min_self (length p),
      owned_lem shared p old kind ks created target h,
    )

    pub versioned_above :
        (rest : Bytes) (e : ℕ) (q : Bytes)
        → insert_recurse shared value target wanted
            (versioned (rest ++ e ∷ q) old kind ks created)
            (pre ++ rest)
            (length pre)
          ≡ done (
            versioned rest
                (some value)
                node4
                (more e (versioned (e ∷ q) old kind ks target) end)
                target,
            false,
            none,
          )
    unfolding insert_recurse split_above
    versioned_above rest e q =
        let (t, s, v) = above_tests rest e q in
        rw (
          prefix_length_key-append pre rest (rest ++ e ∷ q),
          length_at-append pre rest,
          common_length-above rest (e ∷ q),
          t,
          s,
          v,
          leb-length rest (e ∷ q),
          drop-length_append,
          take-length_append,
          at_end rest e q,
          add_child_first e (versioned (e ∷ q) old kind ks target) rest (some value) target,
        )

    pub versioned_fork :
        (c : Bytes) (a b : ℕ) (q s : Bytes)
        → a ≢ b
        → insert_recurse shared value target wanted
            (versioned (c ++ a ∷ q) old kind ks created)
            (pre ++ (c ++ b ∷ s))
            (length pre)
          ≡ done (
            versioned c none node4
                (add b
                  (versioned (b ∷ s) (some value) empty end target)
                  (more a (versioned (a ∷ q) old kind ks target) end))
                target,
            false,
            none,
          )
    unfolding insert_recurse split_fork new_inner new_leaf
    versioned_fork c a b q s h = rw (
      prefix_length_key-append pre (c ++ b ∷ s) (c ++ a ∷ q),
      length_at-append pre (c ++ b ∷ s),
      common_length-fork c a b q s h,
      fork_test c a b q s,
      leb-length c (a ∷ q),
      drop-length_append,
      take-length_append,
      at_end c a q,
      at_edge pre c b s,
      to_partial-append pre (c ++ b ∷ s) (length c) (length-le c (b ∷ s)),
      drop-length_append,
      add_child_first a (versioned (a ∷ q) old kind ks target) c none target,
      add_child_second b (versioned (b ∷ s) (some value) empty end target) a
          (versioned (a ∷ q) old kind ks target) c none target,
    )

    -- The key goes on behind the prefix.
    pub versioned_leaf :
        (p : Bytes) (e : ℕ) (s : Bytes)
        → created < target
        → is_leaf kind ≡ true
        → insert_recurse shared value target wanted
            (versioned p old kind ks created)
            (pre ++ (p ++ e ∷ s))
            (length pre)
          ≡ (add_child e
                (versioned (e ∷ s) (some value) empty end target)
                (versioned p old kind ks target)
              >>= λ n. done (n, false, none))
    unfolding insert_recurse new_leaf
    versioned_leaf p e s h leaf =
        let (t, z, v) = below_tests p e s in
        rw (
          prefix_length_key-append pre (p ++ e ∷ s) p,
          length_at-append pre (p ++ e ∷ s),
          common_length-below p (e ∷ s),
          t,
          z,
          v,
          leaf,
          at_edge pre p e s,
          to_partial-append pre (p ++ e ∷ s) (length p) (length-le p (e ∷ s)),
          drop-length_append,
          owned_lem shared p old kind ks created target h,
        )

    pub versioned_below :
        (p : Bytes) (e : ℕ) (s : Bytes)
        → created < target
        → is_leaf kind ≡ false
        → insert_recurse shared value target wanted
            (versioned p old kind ks created)
            (pre ++ (p ++ e ∷ s))
            (length pre)
          ≡ (insert_child shared value target wanted ks e
                (pre ++ (p ++ e ∷ s))
                (length pre + length p)
              >>= λ visited.
                  settle
                    (versioned p old kind ks target)
                    e
                    (done (versioned (e ∷ s) (some value) empty end target))
                    visited)
    unfolding insert_recurse new_leaf
    versioned_below p e s h inner =
        let (t, z, v) = below_tests p e s in
        rw (
          prefix_length_key-append pre (p ++ e ∷ s) p,
          length_at-append pre (p ++ e ∷ s),
          common_length-below p (e ∷ s),
          t,
          z,
          v,
          inner,
          at_edge pre p e s,
          to_partial-append pre (p ++ e ∷ s) (length p) (length-le p (e ∷ s)),
          drop-length_append,
          owned_lem shared p old kind ks created target h,
        )

  -- The child is found as `seek_child` finds it.
  pub insert_child-seek_child :
      (ks : Children V) (k : ℕ) (key : Bytes) (depth : ℕ)
      → insert_child shared value target wanted ks k key depth ≡ (elim (seek_child k ks) [
        | none ↦ done none
        | some c ↦ insert_recurse shared value target wanted c key depth >>= λ r. done (some r)
      ])
  unfolding insert_recurse seek_child
  insert_child-seek_child end k key depth = refl
  insert_child-seek_child (more f n ks) k key depth =
      ground (arith, insert_child-seek_child ks k key depth)
