-- ===== src/Tree/Search/Visits/Laws.antt =====
-- The stored prefixes of a key are visited, each once, the shortest first.
use rart_rs.Prelude.{
  ℕ, ◌≡◌, ◌≢◌, refl, Option, none, some, [], ◌∷◌, ◌++◌, done, ◌>>=◌, length, append_assoc,
  length-append, arith, ap, inl, inr, eq_or_ne, append-nil, ==_refl, ==-ne, sym, ◌∙◌,
  take-length_append,
}
use rart_rs.Partials.{Bytes}
use rart_rs.Partials.Laws.{
  strip, strip_self, strip-below, stripped, missing, ends, goes_on, prefix_length_key-append,
  length_at-append, length-ne_below, at_edge,
}
use rart_rs.Node.{Node, node, Kids, nil, cons, Kind, prefix_of}
use rart_rs.Node.Valid.{IsValid, ValidKids, BeginsWith}
use rart_rs.Node.Lookup.{
  lookup, lookup_kids, lookup_end, lookup_below, lookup_missing, lookup_edge_nil, kids_here,
  kids_there,
}
use rart_rs.Tree.{Tree}
use rart_rs.Tree.Get.{contents}
use rart_rs.Tree.Laws.{IsValidTree, ValidRoot, tree_at}
use rart_rs.Tree.Remove.Steps.{common_test}
use rart_rs.Tree.Insert.Steps.{leb-length}
use rart_rs.Tree.Search.Visits.{
  visit, prefix_match_for_each_impl, prefix_match_for_each_child, prefix_match_for_each_k, entry,
  stored,
}

strip_same : (x : ℕ) (p q : Bytes) → strip p q ≡ none → strip (x ∷ p) (x ∷ q) ≡ none
unfolding strip
strip_same x p q h = rw (==_refl x) h

strip_other : (x y : ℕ) (p q : Bytes) → x ≢ y → strip (x ∷ p) (y ∷ q) ≡ none
unfolding strip
strip_other x y p q h = rw (==-ne x y h)

strip_shift : (x : ℕ) (p q : Bytes) → strip (x ∷ p) (x ∷ q) ≡ none → strip p q ≡ none
unfolding strip
strip_shift x p q h = rw (==_refl x) at h

module _ {V : Type 0} where
  stored_cong :
      (pre : Bytes) (f g : Bytes → Option V) (rest : Bytes)
      → ((q : Bytes) → f q ≡ g q)
      → stored pre f rest ≡ stored pre g rest
  stored_cong pre f g [] h = rw (h [])
  stored_cong pre f g (x ∷ r) h =
      rw (h [], stored_cong (pre ++ x ∷ []) (λ q. f (x ∷ q)) (λ q. g (x ∷ q)) r (λ q. h (x ∷ q)))

  stored-none :
      (pre : Bytes) (f : Bytes → Option V) (rest : Bytes)
      → ((q : Bytes) → f q ≡ none)
      → stored pre f rest ≡ []
  stored-none pre f [] h = rw (h [])
  stored-none pre f (x ∷ r) h =
      rw (h [], stored-none (pre ++ x ∷ []) (λ q. f (x ∷ q)) r (λ q. h (x ∷ q)))

  -- `f` has values only for keys that begin with `p`.
  abbrev Behind : (Bytes → Option V) → Bytes → Type 0
  Behind f p = (q : Bytes) → strip p q ≡ none → f q ≡ none

  Behind-tail :
      (f : Bytes → Option V) (x : ℕ) (p : Bytes) → Behind f (x ∷ p) → Behind (λ q. f (x ∷ q)) p
  Behind-tail f x p h q m = h (x ∷ q) (strip_same x p q m)

  stored_missing :
      (pre : Bytes) (f : Bytes → Option V) (p rest : Bytes)
      → Behind f p
      → strip p rest ≡ none
      → stored pre f rest ≡ []
  unfolding strip
  stored_missing pre f [] rest h m = cc
  stored_missing pre f (x ∷ p) [] h m = rw (h [] m)
  stored_missing pre f (x ∷ p) (y ∷ r) h m = elim (eq_or_ne x y) [
    | inl t ↦ rw (h [] refl) (
        stored_missing (pre ++ y ∷ []) (λ q. f (y ∷ q)) p r
          (λ q z. h (y ∷ q) (rw t (strip_same y p q z))) (strip_shift y p r (rw t at m)))
    | inr ne ↦
        rw (h [] refl)
          (stored-none (pre ++ y ∷ []) (λ q. f (y ∷ q)) r (λ q. h (y ∷ q) (strip_other x y p q ne)))
  ]

  stored-Behind :
      (pre : Bytes) (f : Bytes → Option V) (p s : Bytes)
      → Behind f p
      → stored pre f (p ++ s) ≡ stored (pre ++ p) (λ q. f (p ++ q)) s
  unfolding strip
  stored-Behind pre f [] s h = rw (append-nil pre)
  stored-Behind pre f (x ∷ p) s h = rw (
    h [] refl,
    stored-Behind (pre ++ x ∷ []) (λ q. f (x ∷ q)) p s (Behind-tail f x p h),
    append_assoc,
  )

  visit_lem : (v : Option V) (q s : Bytes) → visit (q ++ s) (length q) v ≡ done (entry q v)
  unfolding visit
  visit_lem none q s = refl
  visit_lem (some x) q s = rw (leb-length q s, take-length_append)

  stored_end :
      (pre : Bytes) (f : Bytes → Option V) (p : Bytes)
      → Behind f p
      → stored pre f p ≡ entry (pre ++ p) (f p)
  stored_end pre f p h = rw (append-nil p) at (stored-Behind pre f p [] h)

  module _ (v : Option V) (kind : Kind) (ks : Kids V) (pre : Bytes) where
    visits_missing :
        (p rest : Bytes)
        → strip p rest ≡ none
        → prefix_match_for_each_impl (node p v kind ks) (pre ++ rest) (length pre) ≡ done []
    unfolding prefix_match_for_each_impl
    visits_missing p rest h = rw (prefix_length_key-append pre rest p, common_test p rest, h)

    visits_here :
        (p : Bytes)
        → prefix_match_for_each_impl (node p v kind ks) (pre ++ p) (length pre)
          ≡ done (entry (pre ++ p) v)
    unfolding prefix_match_for_each_impl
    visits_here p = rw (
      prefix_length_key-append pre p p,
      common_test p p,
      strip_self p,
      rw (append-nil (pre ++ p), length-append pre p) at (visit_lem v (pre ++ p) []),
      length_at-append pre p,
      ==_refl (length p),
    )

    visits_below :
        (p : Bytes) (e : ℕ) (s : Bytes)
        → prefix_match_for_each_impl (node p v kind ks) (pre ++ (p ++ e ∷ s)) (length pre) ≡ (
            prefix_match_for_each_child ks e ((pre ++ p) ++ e ∷ s) (length (pre ++ p)) >>= λ deeper.
            done (entry (pre ++ p) v ++ deeper))
    unfolding prefix_match_for_each_impl
    visits_below p e s = rw (
      prefix_length_key-append pre (p ++ e ∷ s) p,
      common_test p (p ++ e ∷ s),
      strip-below p (e ∷ s),
      rw (append_assoc, length-append pre p) at (visit_lem v (pre ++ p) (e ∷ s)),
      length_at-append pre (p ++ e ∷ s),
      length-ne_below p e s,
      at_edge pre p e s,
      append_assoc,
      length-append,
    )

    Behind-lookup : (p : Bytes) → Behind (lookup (node p v kind ks)) p
    Behind-lookup p q m = lookup_missing v kind ks p q m

    stored_below :
        (p : Bytes) (e : ℕ) (s : Bytes)
        → stored pre (lookup (node p v kind ks)) (p ++ e ∷ s)
          ≡ entry (pre ++ p) v ++ stored ((pre ++ p) ++ e ∷ []) (λ q. lookup_kids ks e (e ∷ q)) s
    stored_below p e s =
        stored-Behind pre (lookup (node p v kind ks)) p (e ∷ s) (Behind-lookup p)
        ∙ rw (
          append-nil p,
          lookup_end v kind ks p,
          stored_cong ((pre ++ p) ++ e ∷ []) (λ q. lookup (node p v kind ks) (p ++ e ∷ q))
              (λ q. lookup_kids ks e (e ∷ q)) s (λ q. lookup_below v kind ks p e q),
        )

  -- What the visits of the child at the edge `e` are.
  abbrev VisitsChild : Kids V → Bytes → ℕ → Bytes → Type 0
  VisitsChild ks pre e s =
      prefix_match_for_each_child ks e (pre ++ e ∷ s) (length pre)
      ≡ done (stored (pre ++ e ∷ []) (λ q. lookup_kids ks e (e ∷ q)) s)

  visits_nil : (pre : Bytes) (e : ℕ) (s : Bytes) → VisitsChild nil pre e s
  unfolding prefix_match_for_each_impl lookup
  visits_nil pre e s = rw (stored-none (pre ++ e ∷ []) (λ q. none) s (λ q. refl))

  edge_nil : (n : Node V) (e : ℕ) → BeginsWith e (prefix_of n) → lookup n [] ≡ none
  edge_nil (node p v kind ks) e b = lookup_edge_nil e p v kind ks b

  child_first :
      (e : ℕ) (n : Node V) (ks : Kids V) (key : Bytes) (depth : ℕ)
      → prefix_match_for_each_child (cons e n ks) e key depth
        ≡ prefix_match_for_each_impl n key depth
  unfolding prefix_match_for_each_impl
  child_first e n ks key depth = ground arith

  child_later :
      (f : ℕ) (n : Node V) (ks : Kids V) (e : ℕ) (key : Bytes) (depth : ℕ)
      → f ≢ e
      → prefix_match_for_each_child (cons f n ks) e key depth
        ≡ prefix_match_for_each_child ks e key depth
  unfolding prefix_match_for_each_impl
  child_later f n ks e key depth ne = ground arith

  visits_first :
      (e : ℕ) (n : Node V) (ks : Kids V) (pre s : Bytes)
      → BeginsWith e (prefix_of n)
      → prefix_match_for_each_impl n (pre ++ e ∷ s) (length pre)
        ≡ done (stored pre (lookup n) (e ∷ s))
      → VisitsChild (cons e n ks) pre e s
  visits_first e n ks pre s b h =
      rw (child_first e n ks (pre ++ e ∷ s) (length pre), h, edge_nil n e b)
        (ap done (
          stored_cong (pre ++ e ∷ []) (λ q. lookup n (e ∷ q))
            (λ q. lookup_kids (cons e n ks) e (e ∷ q)) s (λ q. sym (kids_here e n ks (e ∷ q)))))

  visits_later :
      (f : ℕ) (n : Node V) (ks : Kids V) (pre : Bytes) (e : ℕ) (s : Bytes)
      → f ≢ e
      → VisitsChild ks pre e s
      → VisitsChild (cons f n ks) pre e s
  visits_later f n ks pre e s ne h =
      rw (child_later f n ks e (pre ++ e ∷ s) (length pre) ne, h)
        (ap done (
          stored_cong (pre ++ e ∷ []) (λ q. lookup_kids ks e (e ∷ q))
            (λ q. lookup_kids (cons f n ks) e (e ∷ q)) s
            (λ q. sym (kids_there f n ks e (e ∷ q) ne))))

  mutual
    unfolding prefix_match_for_each_impl

    visits_node :
        (n : Node V) (pre rest : Bytes)
        → IsValid n
        → prefix_match_for_each_impl n (pre ++ rest) (length pre)
          ≡ done (stored pre (lookup n) rest)
    visits_node (node p v kind ks) pre rest w = elim (stripped p rest) [
      | missing h ↦ rw (
        visits_missing v kind ks pre p rest h,
        stored_missing pre (lookup (node p v kind ks)) p rest (Behind-lookup v kind ks pre p) h,
      )
      | ends h ↦ rw (
        h,
        visits_here v kind ks pre p,
        stored_end pre (lookup (node p v kind ks)) p (Behind-lookup v kind ks pre p),
        lookup_end v kind ks p,
      )
      | goes_on e s h ↦ rw (
        h,
        visits_below v kind ks pre p e s,
        visits_child ks (pre ++ p) e s w.2,
        stored_below v kind ks pre p e s,
      )
    ]

    visits_child :
        (ks : Kids V) (pre : Bytes) (e : ℕ) (s : Bytes) → ValidKids ks → VisitsChild ks pre e s
    visits_child nil pre e s w = visits_nil pre e s
    visits_child (cons f n ks) pre e s w = elim (eq_or_ne f e) [
      | inl t ↦ rw t (visits_first e n ks pre s (rw t at w.1) (visits_node n pre (e ∷ s) w.2))
      | inr ne ↦ visits_later f n ks pre e s ne (visits_child ks pre e s w.4)
    ]

  root_visits :
      (root : Option (Node V)) (len : ℕ) (key : Bytes)
      → ValidRoot root len
      → (elim root [ none ↦ done [] | some n ↦ prefix_match_for_each_impl n key 0 ])
        ≡ done (stored [] (contents (tree_at root len)) key)
  root_visits none len key w = rw (stored-none [] (λ q. none) key (λ q. refl))
  root_visits (some n) len key w = visits_node n [] key w.0

  -- On a valid tree `prefix_match_for_each_k` does not panic, and calls back once for each beginning
  -- of the key that the tree has, the shortest first, with its bytes and its value.
  pub prefix_match_for_each_k_lem :
      (t : Tree V) (key : Bytes)
      → IsValidTree t
      → prefix_match_for_each_k t key ≡ done (stored [] (contents t) key)
  unfolding prefix_match_for_each_k
  prefix_match_for_each_k_lem t key w = root_visits t.root t.len key w.rooted
