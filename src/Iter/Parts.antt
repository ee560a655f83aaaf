-- ===== src/Iter/Parts.antt =====
-- The subtree that `find_prefix_subtree` finds is a part of the node it is searched in.
use rart_rs.Prelude.{
  ℕ, ◌+◌, ◌≤◌, Bool, true, false, not, Option, none, some, ◌++◌, length, Run, done, panic, ◌>>=◌,
  arith, if◌then◌else◌, ◌==◌,
}
use rart_rs.Partials.{Bytes, at, length_at, prefix_length_key}
use rart_rs.Node.{Node, node, Kids, nil, cons, prefix_of}
use rart_rs.Node.Valid.{IsValid, ValidKids}
use rart_rs.Node.Size.{size, size_kids}
use rart_rs.Tree.Search.{find_prefix_subtree, find_prefix_subtree_child}
use rart_rs.Iter.State.{rounds, rounds_kids}

module _ {V : Type 0} where
  -- A node that is found is part of `n`: valid, and with no more rounds or values.
  abbrev pub IsPart : ℕ → ℕ → Run (Option (Node V × Bytes)) → Type 0
  IsPart most values panic = Unit
  IsPart most values (done none) = Unit
  IsPart most values (done (some (n, key))) = IsValid n × (rounds n ≤ most) × (size n ≤ values)

  IsPart-bind :
      {A : Type 0} (most values : ℕ) (r : Run A) (f : A → Run (Option (Node V × Bytes)))
      → ((a : A) → IsPart most values (f a))
      → IsPart most values (r >>= f)
  IsPart-bind most values (done a) f h = h a
  IsPart-bind most values panic f h = tt

  IsPart-if :
      (most values : ℕ) (b : Bool) (x y : Run (Option (Node V × Bytes)))
      → IsPart most values x
      → IsPart most values y
      → IsPart most values (if b then x else y)
  IsPart-if most values true x y h k = h
  IsPart-if most values false x y h k = k

  IsPart-found :
      (most values : ℕ) (b : Bool) (r : Node V × Bytes)
      → IsPart most values (done (some r))
      → IsPart most values (done (if b then some r else none))
  IsPart-found most values true r h = h
  IsPart-found most values false r h = tt

  IsPart-edge :
      (most values : ℕ) (b : Bool) (x y : Run (Option (Node V × Bytes)))
      → IsPart most values x
      → IsPart most values y
      → IsPart most values (elim b [ true ↦ x | false ↦ y ])
  IsPart-edge most values true x y h k = h
  IsPart-edge most values false x y h k = k

  IsPart-weaken :
      (m n m' n' : ℕ) (r : Run (Option (Node V × Bytes)))
      → m ≤ n
      → m' ≤ n'
      → IsPart m m' r
      → IsPart n n' r
  IsPart-weaken m n m' n' panic h h' k = tt
  IsPart-weaken m n m' n' (done none) h h' k = tt
  IsPart-weaken m n m' n' (done (some (x, key))) h h' k = (k.0, omega arith, omega arith)

  mutual
    unfolding find_prefix_subtree rounds size

    pub subtree-IsPart :
        (n : Node V) (prefix : Bytes) (depth : ℕ) (key : Bytes)
        → IsValid n
        → IsPart (rounds n) (size n) (find_prefix_subtree n prefix depth key)
    subtree-IsPart (node p v kind ks) prefix depth key w =
        let most = rounds (node p v kind ks) in
        let values = size (node p v kind ks) in
        let here : IsPart most values (done (some (node p v kind ks, key))) =
          (w, omega arith, omega arith) in
        IsPart-bind most values (prefix_length_key p prefix depth) _ (λ common.
          IsPart-bind most values (length_at prefix depth) _ (λ remaining.
            IsPart-if most values (not (common == length p)) _ _
              (IsPart-found most values (common == remaining) (node p v kind ks, key) here)
              (IsPart-if most values (length p == remaining) _ _ here (
                IsPart-bind most values (at prefix (depth + length p)) _ (λ k.
                  IsPart-weaken (rounds_kids ks) most (size_kids ks) values _ (omega arith)
                    (omega arith) (subtree_kids ks k prefix (depth + length p) key w.2))))))

    subtree_kids :
        (ks : Kids V) (k : ℕ) (prefix : Bytes) (depth : ℕ) (key : Bytes)
        → ValidKids ks
        → IsPart (rounds_kids ks) (size_kids ks) (find_prefix_subtree_child ks k prefix depth key)
    subtree_kids nil k prefix depth key w = tt
    subtree_kids (cons e n ks) k prefix depth key w =
        let most = rounds_kids (cons e n ks) in
        let values = size_kids (cons e n ks) in
        IsPart-edge most values (e == k) _ _
          (IsPart-weaken (rounds n) most (size n) values _ (omega arith) (omega arith)
            (subtree-IsPart n prefix depth (key ++ prefix_of n) w.2))
          (IsPart-weaken (rounds_kids ks) most (size_kids ks) values _ (omega arith) (omega arith)
            (subtree_kids ks k prefix depth key w.4))
