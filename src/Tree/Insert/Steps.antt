-- ===== src/Tree/Insert/Steps.antt =====
-- The branches of `insert_recurse`, one equation for each way in which the prefix of the node and
-- the rest of the key can lie.
use rart_rs.Prelude.{
  ℕ, ◌+◌, ◌≡◌, ◌≢◌, Bool, true, false, Option, none, some, ◌∷◌, ◌++◌, min, ltb, ◌==◌, if◌then◌else◌,
  done, ◌>>=◌, arith, length, length-append, ==_refl, take-length_append, drop-length_append, leb,
  ◌≤◌,
}
use mathlib.Core.Option
use rart_rs.Partials.{Bytes}
use rart_rs.Partials.Laws.{
  prefix_length_key-append, length_at-append, common_length_self, common_length-below,
  common_length-above, common_length-fork, at_edge, at_end, to_partial-append,
}
use rart_rs.Node.{Node, node, Kids, nil, cons, Kind, node4, is_leaf, add_child}
use rart_rs.Tree.{
  inserted, insert_recurse, insert_child, split_above, split_fork, append_leaf, put_value, settle,
}

pub length-le : (p s : Bytes) → length p ≤ length (p ++ s)
length-le p s = omega (arith, length-append {0} p s)

pub leb-length : (p s : Bytes) → leb (length p) (length (p ++ s)) ≡ true
leb-length p s = ground (arith, length-append p s)

-- The tests of the two lengths.
pub min_self : (a : ℕ) → (min a a == a) ≡ true
min_self a = ground arith

module _ (p : Bytes) (e : ℕ) (s : Bytes) where
  pub below_tests :
      ((min (length p) (length (p ++ e ∷ s)) == length p) ≡ true)
      × ((length p == length (p ++ e ∷ s)) ≡ false)
      × (ltb (length (p ++ e ∷ s)) (length p) ≡ false)
  below_tests = ground (arith, length-append p (e ∷ s))

  pub above_tests :
      ((min (length (p ++ e ∷ s)) (length p) == length p) ≡ true)
      × ((length (p ++ e ∷ s) == length p) ≡ false)
      × (ltb (length p) (length (p ++ e ∷ s)) ≡ true)
  above_tests = ground (arith, length-append p (e ∷ s))

pub fork_test :
    (c : Bytes) (a b : ℕ) (q s : Bytes)
    → (min (length (c ++ a ∷ q)) (length (c ++ b ∷ s)) == length c) ≡ false
fork_test c a b q s = ground (arith, length-append c (a ∷ q), length-append c (b ∷ s))

module _ {V : Type 0} (old : Option V) (kind : Kind) (ks : Kids V) (pre : Bytes) (value : V)
    (replace : Bool) where
  pub insert_here :
      (p : Bytes)
      → insert_recurse (node p old kind ks) (pre ++ p) value (length pre) replace
        ≡ done (put_value (node p old kind ks) value replace)
  unfolding insert_recurse
  insert_here p = rw (
    prefix_length_key-append pre p p,
    length_at-append pre p,
    common_length_self p,
    ==_refl (length p),
    min_self (length p),
  )

  pub insert_above :
      (rest : Bytes) (e : ℕ) (q : Bytes)
      → insert_recurse (node (rest ++ e ∷ q) old kind ks) (pre ++ rest) value (length pre) replace
        ≡ (do
          n ← split_above (node (rest ++ e ∷ q) old kind ks) value (length rest)
          done (n, inserted))
  unfolding insert_recurse
  insert_above rest e q =
      let (t, u, v) = above_tests rest e q in
      rw (
        prefix_length_key-append pre rest (rest ++ e ∷ q),
        length_at-append pre rest,
        common_length-above rest (e ∷ q),
        t,
        u,
        v,
      )

  pub insert_fork :
      (c : Bytes) (a b : ℕ) (q s : Bytes)
      → a ≢ b
      → insert_recurse
          (node (c ++ a ∷ q) old kind ks)
          (pre ++ (c ++ b ∷ s))
          value
          (length pre)
          replace
        ≡ (do
          n ←
              split_fork
                (node (c ++ a ∷ q) old kind ks)
                (pre ++ (c ++ b ∷ s))
                value
                (length pre)
                (length c)
          done (n, inserted))
  unfolding insert_recurse
  insert_fork c a b q s h = rw (
    prefix_length_key-append pre (c ++ b ∷ s) (c ++ a ∷ q),
    length_at-append pre (c ++ b ∷ s),
    common_length-fork c a b q s h,
    fork_test c a b q s,
  )

  -- The key goes on behind the prefix: a child is looked for, if the node has any.
  pub insert_below :
      (p : Bytes) (e : ℕ) (s : Bytes)
      → insert_recurse (node p old kind ks) (pre ++ (p ++ e ∷ s)) value (length pre) replace ≡ (
          if is_leaf kind
          then (do
            n ← append_leaf (node p old kind ks) (pre ++ (p ++ e ∷ s)) value (length pre + length p)
            done (n, inserted))
          else (do
            grown ← insert_child ks e (pre ++ (p ++ e ∷ s)) value (length pre + length p) replace
            settle p old kind
                (append_leaf
                  (node p old kind ks)
                  (pre ++ (p ++ e ∷ s))
                  value
                  (length pre + length p))
                grown))
  unfolding insert_recurse
  insert_below p e s =
      let (t, u, v) = below_tests p e s in
      rw (
        prefix_length_key-append pre (p ++ e ∷ s) p,
        length_at-append pre (p ++ e ∷ s),
        common_length-below p (e ∷ s),
        t,
        u,
        v,
        at_edge pre p e s,
      )

  pub append_leaf_below :
      (p : Bytes) (e : ℕ) (s : Bytes)
      → append_leaf (node p old kind ks) (pre ++ (p ++ e ∷ s)) value (length pre + length p)
        ≡ add_child e (node (e ∷ s) (some value) Kind.empty nil) (node p old kind ks)
  unfolding append_leaf
  append_leaf_below p e s = rw (
    at_edge pre p e s,
    to_partial-append pre (p ++ e ∷ s) (length p) (length-le p (e ∷ s)),
    drop-length_append,
  )

  pub split_above_lem :
      (rest : Bytes) (e : ℕ) (q : Bytes)
      → split_above (node (rest ++ e ∷ q) old kind ks) value (length rest)
        ≡ add_child e (node (e ∷ q) old kind ks) (node rest (some value) node4 nil)
  unfolding split_above
  split_above_lem rest e q =
      rw (leb-length rest (e ∷ q), drop-length_append, take-length_append, at_end rest e q)

  pub split_fork_lem :
      (c : Bytes) (a b : ℕ) (q s : Bytes)
      → split_fork
          (node (c ++ a ∷ q) old kind ks)
          (pre ++ (c ++ b ∷ s))
          value
          (length pre)
          (length c)
        ≡ (do
          parent ← add_child a (node (a ∷ q) old kind ks) (node c none node4 nil)
          add_child b (node (b ∷ s) (some value) Kind.empty nil) parent)
  unfolding split_fork
  split_fork_lem c a b q s = rw (
    leb-length c (a ∷ q),
    drop-length_append,
    take-length_append,
    at_end c a q,
    at_edge pre c b s,
    to_partial-append pre (c ++ b ∷ s) (length c) (length-le c (b ∷ s)),
    drop-length_append,
  )

module _ {V : Type 0} (value : V) (key : Bytes) (depth : ℕ) (replace : Bool) where
  pub insert_child_here :
      (e : ℕ) (n : Node V) (ks : Kids V)
      → insert_child (cons e n ks) e key value depth replace
        ≡ (insert_recurse n key value depth replace >>= λ r. done (some (cons e r.0 ks, r.1)))
  unfolding insert_recurse
  insert_child_here e n ks = ground arith

  -- The children behind another edge.
  pub insert_child_there :
      (f : ℕ) (n : Node V) (ks : Kids V) (e : ℕ)
      → f ≢ e
      → insert_child (cons f n ks) e key value depth replace ≡ (
          insert_child ks e key value depth replace >>= λ grown.
          done (Option.map (λ r. (cons f n r.0, r.1)) grown))
  unfolding insert_recurse
  insert_child_there f n ks e h = ground arith
