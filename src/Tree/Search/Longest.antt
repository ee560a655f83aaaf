-- ===== src/Tree/Search/Longest.antt =====
-- The searches for the longest stored prefix never panic, and find it.
use rart_rs.Tree.Remove.Steps.{common_test}
use rart_rs.Prelude.{
  ℕ, ◌≡◌, ◌≢◌, refl, ◌∙◌, ap, Option, none, some, [], ◌∷◌, ◌++◌, length, length-append, arith, inl,
  inr, eq_or_ne, append_assoc, ==_refl, done,
}
use rart_rs.Partials.{Bytes}
use rart_rs.Partials.Laws.{
  strip, strip_self, strip-below, stripped, missing, ends, goes_on, prefix_length_key-append,
  length_at-append, at_edge, length-ne_below,
}
use rart_rs.Node.{Node, node, Kids, nil, cons, Kind, prefix_of}
use rart_rs.Tree.{Tree}
use rart_rs.Tree.Get.{contents}
use rart_rs.Tree.Laws.{IsValidTree}
use rart_rs.Tree.Search.{
  better, longest_prefix_match_iterate, longest_prefix_match_child, longest_prefix_match_k,
}
use rart_rs.Tree.Search.Deepest.{
  deepest, deepest_kids, deeper, IsLongest, deepest_node_lem, deepest_missing, deepest_end,
  deepest_below, deepest_kids_here, deepest_kids_there,
}

module _ {V : Type 0} where
  -- The match that is found below the consumed part `pre` of the key, or else the best before.
  abbrev pub or_before : Bytes → Option (Bytes × V) → Option (Bytes × V) → Option (Bytes × V)
  or_before pre none best = best
  or_before pre (some (q, x)) best = some (pre ++ q, x)

  or_before-deeper :
      (pre p : Bytes) (v : Option V) (o best : Option (Bytes × V))
      → or_before pre (deeper p v o) best
        ≡ or_before (pre ++ p) o (better v (λ x. (pre ++ p, x)) best)
  or_before-deeper pre p none none best = refl
  or_before-deeper pre p (some x) none best = refl
  or_before-deeper pre p none (some (q, y)) best = rw append_assoc
  or_before-deeper pre p (some x) (some (q, y)) best = rw append_assoc

  module _ (v : Option V) (kind : Kind) (ks : Kids V) (pre : Bytes)
      (best : Option (Bytes × V)) where
    match_missing :
        (p rest : Bytes)
        → strip p rest ≡ none
        → longest_prefix_match_iterate (node p v kind ks) (pre ++ rest) (length pre) (pre ++ p) best
          ≡ done best
    unfolding longest_prefix_match_iterate
    match_missing p rest h =
        rw (prefix_length_key-append pre rest p, length_at-append pre rest, common_test p rest, h)

    match_end :
        (p : Bytes)
        → longest_prefix_match_iterate (node p v kind ks) (pre ++ p) (length pre) (pre ++ p) best
          ≡ done (better v (λ x. (pre ++ p, x)) best)
    unfolding longest_prefix_match_iterate
    match_end p = rw (
      prefix_length_key-append pre p p,
      length_at-append pre p,
      common_test p p,
      strip_self p,
      ==_refl (length p),
    )

    match_below :
        (p : Bytes) (e : ℕ) (s : Bytes)
        → longest_prefix_match_iterate
            (node p v kind ks)
            (pre ++ (p ++ e ∷ s))
            (length pre)
            (pre ++ p)
            best
          ≡ longest_prefix_match_child ks e
              ((pre ++ p) ++ e ∷ s)
              (length (pre ++ p))
              (pre ++ p)
              (better v (λ x. (pre ++ p, x)) best)
    unfolding longest_prefix_match_iterate
    match_below p e s = rw (
      prefix_length_key-append pre (p ++ e ∷ s) p,
      length_at-append pre (p ++ e ∷ s),
      common_test p (p ++ e ∷ s),
      strip-below p (e ∷ s),
      length-ne_below p e s,
      at_edge pre p e s,
      append_assoc,
      length-append,
    )

  match_child_here :
      (e : ℕ) (n : Node V) (ks : Kids V) (key : Bytes) (depth : ℕ) (cur : Bytes)
      (best : Option (Bytes × V))
      → longest_prefix_match_child (cons e n ks) e key depth cur best
        ≡ longest_prefix_match_iterate n key depth (cur ++ prefix_of n) best
  unfolding longest_prefix_match_iterate
  match_child_here e n ks key depth cur best = ground arith

  match_child_there :
      (f : ℕ) (n : Node V) (ks : Kids V) (e : ℕ) (key : Bytes) (depth : ℕ) (cur : Bytes)
      (best : Option (Bytes × V))
      → f ≢ e
      → longest_prefix_match_child (cons f n ks) e key depth cur best
        ≡ longest_prefix_match_child ks e key depth cur best
  unfolding longest_prefix_match_iterate
  match_child_there f n ks e key depth cur best h = ground arith

  mutual
    unfolding longest_prefix_match_iterate deepest

    match_node_lem :
        (n : Node V) (pre rest : Bytes) (best : Option (Bytes × V))
        → longest_prefix_match_iterate n (pre ++ rest) (length pre) (pre ++ prefix_of n) best
          ≡ done (or_before pre (deepest n rest) best)
    match_node_lem (node p v kind ks) pre rest best = elim (stripped p rest) [
      | missing m ↦
          rw (match_missing v kind ks pre best p rest m, deepest_missing v kind ks p rest m)
      | ends m ↦ rw (
        m,
        match_end v kind ks pre best p,
        deepest_end v kind ks p,
        or_before-deeper pre p v none best,
      )
      | goes_on e s m ↦
          rw
            (
              m,
              match_below v kind ks pre best p e s,
              deepest_below v kind ks p e s,
              or_before-deeper pre p v (deepest_kids ks e (e ∷ s)) best,
            )
            (match_kids_lem ks (pre ++ p) e s (better v (λ x. (pre ++ p, x)) best))
    ]

    match_kids_lem :
        (ks : Kids V) (pre : Bytes) (e : ℕ) (s : Bytes) (best : Option (Bytes × V))
        → longest_prefix_match_child ks e (pre ++ e ∷ s) (length pre) pre best
          ≡ done (or_before pre (deepest_kids ks e (e ∷ s)) best)
    match_kids_lem nil pre e s best = refl
    match_kids_lem (cons f n ks) pre e s best = elim (eq_or_ne f e) [
      | inl t ↦
          rw
            (
              t,
              match_child_here e n ks (pre ++ e ∷ s) (length pre) pre best,
              deepest_kids_here e n ks (e ∷ s),
            )
            (match_node_lem n pre (e ∷ s) best)
      | inr ne ↦
          rw
            (
              match_child_there f n ks e (pre ++ e ∷ s) (length pre) pre best ne,
              deepest_kids_there f n ks e (e ∷ s) ne,
            )
            (match_kids_lem ks pre e s best)
    ]

  unfoldable pub found_longest : Tree V → Bytes → Option (Bytes × V)
  found_longest t key = elim t.root [ none ↦ none | some root ↦ deepest root key ]

  pub match_root :
      (root : Option (Node V)) (len : ℕ) (key : Bytes)
      → longest_prefix_match_k (record { root = root; len = len }) key
        ≡ done (found_longest (record { root = root; len = len }) key)
  unfolding longest_prefix_match_k found_longest
  match_root none len key = refl
  match_root (some n) len key =
      match_node_lem n [] key none ∙ ap done (or_before_nil (deepest n key))
    where
      or_before_nil : (o : Option (Bytes × V)) → or_before [] o none ≡ o
      or_before_nil none = refl
      or_before_nil (some (q, x)) = refl

  found_root :
      (root : Option (Node V)) (len : ℕ) (key : Bytes)
      → IsValidTree (record { root = root; len = len })
      → IsLongest
          (contents (record { root = root; len = len }))
          key
          (found_longest (record { root = root; len = len }) key)
  unfolding found_longest
  found_root none len key w = λ q s eq. refl
  found_root (some n) len key w = deepest_node_lem n key w.rooted.0

  -- `longest_prefix_match_k` on a valid tree never panics. It returns the longest prefix of the key
  -- that is stored, with its value, and nothing if no prefix of the key is stored.
  pub longest_prefix_match_k_lem :
      (t : Tree V) (key : Bytes)
      → IsValidTree t
      → (o : Option (Bytes × V)) × (longest_prefix_match_k t key ≡ done o)
        × IsLongest (contents t) key o
  longest_prefix_match_k_lem t key w =
      (found_longest t key, match_root t.root t.len key, found_root t.root t.len key w)
