-- ===== src/Tree/Remove/Steps.antt =====
-- The branches of `remove_from`, one equation for each way in which the prefix of the node and the
-- rest of the key can lie.
use rart_rs.Prelude.{
  ℕ, ◌≡◌, ◌≢◌, refl, true, false, ◌&&◌, Option, none, some, ◌∷◌, ◌++◌, append_assoc, ◌==◌,
  if◌then◌else◌, arith, is_some, done, ◌>>=◌, length, length-append, ==_refl,
}
use rart_rs.Words.{common_length}
use rart_rs.Partials.{Bytes}
use rart_rs.Partials.Laws.{
  strip, strip_self, strip-below, prefix_length_key-append, prefix_length_slice-strip,
  prefix_length_slice-eq_common, length_at-append, at_edge, length-ne_below,
}
use rart_rs.Node.{
  Node, node, Kids, nil, cons, Kind, empty, node4, node16, node48, node256, is_leaf, num_children,
}
use rart_rs.Node.Deletion.{trimmed}
use rart_rs.Tree.Remove.{is_dead, take_child, take_value, remove_from, remove_child}

pub common_test :
    (p rest : Bytes)
    → (common_length p rest == length p) ≡ (elim (strip p rest) [ none ↦ false | some r ↦ true ])
common_test p rest = rw (← prefix_length_slice-eq_common p rest) (prefix_length_slice-strip p rest)

pub trimmed_dead :
    (V : Type 0) (p : Bytes) (kind : Kind)
    → kind ≢ empty
    → is_dead {V = V} (trimmed p none kind nil) ≡ true
unfolding is_dead num_children
trimmed_dead V p empty h = absurd (h refl)
trimmed_dead V p node4 h = ground arith
trimmed_dead V p node16 h = ground arith
trimmed_dead V p node48 h = ground arith
trimmed_dead V p node256 h = ground arith

module _ {V : Type 0} (v : Option V) (kind : Kind) (ks : Kids V) (pre : Bytes) where
  pub remove_missing :
      (p rest : Bytes)
      → strip p rest ≡ none
      → remove_from (node p v kind ks) (pre ++ rest) (length pre)
        ≡ done (node p v kind ks, none, false)
  unfolding remove_from
  remove_missing p rest h =
      rw (prefix_length_key-append pre rest p, length_at-append pre rest, common_test p rest, h)

  pub remove_here :
      (p : Bytes)
      → remove_from (node p v kind ks) (pre ++ p) (length pre) ≡ take_value (node p v kind ks)
  unfolding remove_from
  remove_here p = rw (
    prefix_length_key-append pre p p,
    length_at-append pre p,
    common_test p p,
    strip_self p,
    ==_refl (length p),
  )

  pub remove_below :
      (p : Bytes) (e : ℕ) (s : Bytes)
      → remove_from (node p v kind ks) (pre ++ (p ++ e ∷ s)) (length pre) ≡ (
          if is_leaf kind then done (node p v kind ks, none, false) else (do
            visited ← remove_child ks e ((pre ++ p) ++ e ∷ s) (length (pre ++ p))
            r ← take_child e (node p v kind ks) visited
            done (r.0, r.1, is_some r.1 && is_dead r.0)))
  unfolding remove_from
  remove_below p e s = rw (
    prefix_length_key-append pre (p ++ e ∷ s) p,
    length_at-append pre (p ++ e ∷ s),
    common_test p (p ++ e ∷ s),
    strip-below p (e ∷ s),
    length-ne_below p e s,
    at_edge pre p e s,
    append_assoc,
    length-append,
  )

module _ {V : Type 0} (key : Bytes) (depth : ℕ) where
  pub remove_child_here :
      (e : ℕ) (n : Node V) (ks : Kids V)
      → remove_child (cons e n ks) e key depth ≡ (do r ← remove_from n key depth; done (some r))
  unfolding remove_from
  remove_child_here e n ks = ground arith

  pub remove_child_there :
      (f : ℕ) (n : Node V) (ks : Kids V) (e : ℕ)
      → f ≢ e
      → remove_child (cons f n ks) e key depth ≡ remove_child ks e key depth
  unfolding remove_from
  remove_child_there f n ks e h = ground arith
