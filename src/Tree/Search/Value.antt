-- ===== src/Tree/Search/Value.antt =====
-- The value of the longest stored prefix is found by a walk of its own.
use rart_rs.Prelude.{
  ℕ, ◌≡◌, ◌≢◌, refl, ◌∙◌, ap, Option, none, some, [], ◌∷◌, ◌++◌, length, length-append, arith, inl,
  inr, eq_or_ne, append_assoc, ==_refl, done,
}
use mathlib.Core.Option
use rart_rs.Partials.{Bytes}
use rart_rs.Partials.Laws.{
  strip, strip_self, strip-below, stripped, missing, ends, goes_on, slice_from-append,
  prefix_length_slice-strip, at_edge, length-ne_below,
}
use rart_rs.Node.{Node, node, Kids, nil, cons, Kind}
use rart_rs.Tree.{Tree}
use rart_rs.Tree.Search.{
  better, longest_prefix_match_k, longest_prefix_value_bytes_iterate,
  longest_prefix_value_bytes_child, longest_prefix_value_k,
}
use rart_rs.Tree.Search.Deepest.{
  deepest, deepest_kids, deeper, deepest_missing, deepest_end, deepest_below, deepest_kids_here,
  deepest_kids_there,
}
use rart_rs.Tree.Search.Longest.{found_longest, match_root}

module _ {V : Type 0} where
  abbrev or_value : Option (Bytes × V) → Option V → Option V
  or_value none best = best
  or_value (some (q, x)) best = some x

  or_value-deeper :
      (p : Bytes) (v : Option V) (o : Option (Bytes × V)) (best : Option V)
      → or_value (deeper p v o) best ≡ or_value o (better v (λ x. x) best)
  or_value-deeper p none none best = refl
  or_value-deeper p (some x) none best = refl
  or_value-deeper p none (some (q, y)) best = refl
  or_value-deeper p (some x) (some (q, y)) best = refl

  module _ (v : Option V) (kind : Kind) (ks : Kids V) (pre : Bytes) (best : Option V) where
    value_missing :
        (p rest : Bytes)
        → strip p rest ≡ none
        → longest_prefix_value_bytes_iterate (node p v kind ks) (pre ++ rest) (length pre) best
          ≡ done best
    unfolding longest_prefix_value_bytes_iterate
    value_missing p rest h = rw (slice_from-append pre rest, prefix_length_slice-strip p rest, h)

    value_end :
        (p : Bytes)
        → longest_prefix_value_bytes_iterate (node p v kind ks) (pre ++ p) (length pre) best
          ≡ done (better v (λ x. x) best)
    unfolding longest_prefix_value_bytes_iterate
    value_end p =
        rw
          (slice_from-append pre p, prefix_length_slice-strip p p, strip_self p, ==_refl (length p))

    value_below :
        (p : Bytes) (e : ℕ) (s : Bytes)
        → longest_prefix_value_bytes_iterate
            (node p v kind ks)
            (pre ++ (p ++ e ∷ s))
            (length pre)
            best
          ≡ longest_prefix_value_bytes_child ks e
              ((pre ++ p) ++ e ∷ s)
              (length (pre ++ p))
              (better v (λ x. x) best)
    unfolding longest_prefix_value_bytes_iterate
    value_below p e s = rw (
      slice_from-append pre (p ++ e ∷ s),
      prefix_length_slice-strip p (p ++ e ∷ s),
      strip-below p (e ∷ s),
      length-ne_below p e s,
      at_edge pre p e s,
      append_assoc,
      length-append,
    )

  value_child_here :
      (e : ℕ) (n : Node V) (ks : Kids V) (key : Bytes) (depth : ℕ) (best : Option V)
      → longest_prefix_value_bytes_child (cons e n ks) e key depth best
        ≡ longest_prefix_value_bytes_iterate n key depth best
  unfolding longest_prefix_value_bytes_iterate
  value_child_here e n ks key depth best = ground arith

  value_child_there :
      (f : ℕ) (n : Node V) (ks : Kids V) (e : ℕ) (key : Bytes) (depth : ℕ) (best : Option V)
      → f ≢ e
      → longest_prefix_value_bytes_child (cons f n ks) e key depth best
        ≡ longest_prefix_value_bytes_child ks e key depth best
  unfolding longest_prefix_value_bytes_iterate
  value_child_there f n ks e key depth best h = ground arith

  mutual
    unfolding longest_prefix_value_bytes_iterate deepest

    value_node_lem :
        (n : Node V) (pre rest : Bytes) (best : Option V)
        → longest_prefix_value_bytes_iterate n (pre ++ rest) (length pre) best
          ≡ done (or_value (deepest n rest) best)
    value_node_lem (node p v kind ks) pre rest best = elim (stripped p rest) [
      | missing m ↦
          rw (value_missing v kind ks pre best p rest m, deepest_missing v kind ks p rest m)
      | ends m ↦ rw (
        m,
        value_end v kind ks pre best p,
        deepest_end v kind ks p,
        or_value-deeper p v none best,
      )
      | goes_on e s m ↦
          rw
            (
              m,
              value_below v kind ks pre best p e s,
              deepest_below v kind ks p e s,
              or_value-deeper p v (deepest_kids ks e (e ∷ s)) best,
            )
            (value_kids_lem ks (pre ++ p) e s (better v (λ x. x) best))
    ]

    value_kids_lem :
        (ks : Kids V) (pre : Bytes) (e : ℕ) (s : Bytes) (best : Option V)
        → longest_prefix_value_bytes_child ks e (pre ++ e ∷ s) (length pre) best
          ≡ done (or_value (deepest_kids ks e (e ∷ s)) best)
    value_kids_lem nil pre e s best = refl
    value_kids_lem (cons f n ks) pre e s best = elim (eq_or_ne f e) [
      | inl t ↦
          rw
            (
              t,
              value_child_here e n ks (pre ++ e ∷ s) (length pre) best,
              deepest_kids_here e n ks (e ∷ s),
            )
            (value_node_lem n pre (e ∷ s) best)
      | inr ne ↦
          rw
            (
              value_child_there f n ks e (pre ++ e ∷ s) (length pre) best ne,
              deepest_kids_there f n ks e (e ∷ s) ne,
            )
            (value_kids_lem ks pre e s best)
    ]

  value_root :
      (root : Option (Node V)) (len : ℕ) (key : Bytes)
      → longest_prefix_value_k (record { root = root; len = len }) key
        ≡ done (Option.map (λ r. r.1) (found_longest (record { root = root; len = len }) key))
  unfolding longest_prefix_value_k found_longest
  value_root none len key = refl
  value_root (some n) len key =
      value_node_lem n [] key none ∙ ap done (or_value_none (deepest n key))
    where
      or_value_none : (o : Option (Bytes × V)) → or_value o none ≡ Option.map (λ r. r.1) o
      or_value_none none = refl
      or_value_none (some (q, x)) = refl

  -- On any tree `longest_prefix_value_k` returns the value of the match that
  -- `longest_prefix_match_k` returns, and neither panics.
  pub longest_prefix_value_k_lem :
      (t : Tree V) (key : Bytes)
      → (o : Option (Bytes × V)) × (longest_prefix_match_k t key ≡ done o)
        × (longest_prefix_value_k t key ≡ done (Option.map (λ r. r.1) o))
  longest_prefix_value_k_lem t key =
      (found_longest t key, match_root t.root t.len key, value_root t.root t.len key)
