-- ===== src/Tree/Search/Subtree.antt =====
-- The subtree below a prefix holds exactly the keys that begin with the prefix.
use rart_rs.Prelude.{
  ℕ, ◌≡◌, ◌≢◌, refl, sym, ◌∙◌, ap, Option, none, some, [], ◌∷◌, ◌++◌, length, length-append, arith,
  inl, inr, eq_or_ne, append_assoc, append-nil, ==_refl, done,
}
use rart_rs.Partials.{Bytes}
use rart_rs.Partials.Laws.{
  align, same, above, below, fork, strip, strip-fork, prefix_length_key-append, length_at-append,
  at_edge, length-ne_below, common_length-above, common_length-fork, common_length-below,
  common_length_self,
}
use rart_rs.Node.{Node, node, Kids, nil, cons, Kind, prefix_of}
use rart_rs.Node.Lookup.{lookup, lookup_kids, lookup_missing, lookup_below, kids_here, kids_there}
use rart_rs.Tree.Search.{find_prefix_subtree, find_prefix_subtree_child}

module _ {V : Type 0} where
  -- The search for `rest`, in a part of the tree that reads as `m` behind the consumed `pre`. A node
  -- that is found holds what `m` holds behind `rest`: its prefix goes on with a part `d` of `rest`.
  abbrev pub IsSubtree : (Bytes → Option V) → Bytes → Bytes → Option (Node V × Bytes) → Type 0
  IsSubtree m pre rest none = (s : Bytes) → m (rest ++ s) ≡ none
  IsSubtree m pre rest (some (n, cur_key)) =
      (d z : Bytes) × (prefix_of n ≡ d ++ z)
      × (cur_key ≡ pre ++ (rest ++ z))
      × ((s : Bytes) → m (rest ++ s) ≡ lookup n (d ++ s))

  abbrev Finds : Node V → Bytes → Bytes → Type 0
  Finds n pre rest =
      (o : Option (Node V × Bytes)) × (find_prefix_subtree n (pre ++ rest) (length pre)
          (pre ++ prefix_of n)
        ≡ done o)
      × IsSubtree (lookup n) pre rest o

  abbrev FindsChild : Kids V → Bytes → ℕ → Bytes → Type 0
  FindsChild ks pre e s =
      (o : Option (Node V × Bytes)) × (find_prefix_subtree_child ks e (pre ++ e ∷ s) (length pre)
          pre
        ≡ done o)
      × IsSubtree (lookup_kids ks e) pre (e ∷ s) o

  module _ (v : Option V) (kind : Kind) (ks : Kids V) (pre : Bytes) where
    Finds-same : (p : Bytes) → Finds (node p v kind ks) pre p
    unfolding find_prefix_subtree
    Finds-same p = (
      some (node p v kind ks, pre ++ p),
      rw (
        prefix_length_key-append pre p p,
        length_at-append pre p,
        common_length_self p,
        ==_refl (length p),
      ),
      (p, [], sym (append-nil p), ap (λ l. pre ++ l) (sym (append-nil p)), λ s. refl),
    )

    Finds-above :
        (rest : Bytes) (e : ℕ) (q : Bytes) → Finds (node (rest ++ e ∷ q) v kind ks) pre rest
    unfolding find_prefix_subtree
    Finds-above rest e q = (
      some (node (rest ++ e ∷ q) v kind ks, pre ++ (rest ++ e ∷ q)),
      rw (
        prefix_length_key-append pre rest (rest ++ e ∷ q),
        length_at-append pre rest,
        common_length-above rest (e ∷ q),
        length-ne_below rest e q,
        ==_refl (length rest),
      ),
      (rest, e ∷ q, refl, refl, λ s. refl),
    )

    Finds-fork :
        (c : Bytes) (a b : ℕ) (q s : Bytes)
        → a ≢ b
        → Finds (node (c ++ a ∷ q) v kind ks) pre (c ++ b ∷ s)
    unfolding find_prefix_subtree
    Finds-fork c a b q s ne = (
      none,
      rw (
        prefix_length_key-append pre (c ++ b ∷ s) (c ++ a ∷ q),
        length_at-append pre (c ++ b ∷ s),
        common_length-fork c a b q s ne,
        length-ne_below c a q,
        length-ne_below c b s,
      ),
      λ t.
          lookup_missing v kind ks (c ++ a ∷ q) ((c ++ b ∷ s) ++ t)
            (ap (strip (c ++ a ∷ q)) (append_assoc c (b ∷ s) t) ∙ strip-fork c a b q (s ++ t) ne),
    )

    find_below :
        (p : Bytes) (e : ℕ) (s : Bytes)
        → find_prefix_subtree (node p v kind ks) (pre ++ (p ++ e ∷ s)) (length pre) (pre ++ p)
          ≡ find_prefix_subtree_child ks e ((pre ++ p) ++ e ∷ s) (length (pre ++ p)) (pre ++ p)
    unfolding find_prefix_subtree
    find_below p e s = rw (
      prefix_length_key-append pre (p ++ e ∷ s) p,
      length_at-append pre (p ++ e ∷ s),
      common_length-below p (e ∷ s),
      ==_refl (length p),
      length-ne_below p e s,
      at_edge pre p e s,
      append_assoc,
      length-append,
    )

    IsSubtree-below :
        (p : Bytes) (e : ℕ) (s : Bytes) (o : Option (Node V × Bytes))
        → IsSubtree (lookup_kids ks e) (pre ++ p) (e ∷ s) o
        → IsSubtree (lookup (node p v kind ks)) pre (p ++ e ∷ s) o
    IsSubtree-below p e s none i = λ t.
        ap (lookup (node p v kind ks)) (append_assoc p (e ∷ s) t)
        ∙ lookup_below v kind ks p e (s ++ t)
        ∙ i t
    IsSubtree-below p e s (some (n, cur)) (d, z, h, k, i) = (
      d,
      z,
      h,
      k ∙ append_assoc pre p (e ∷ s ++ z) ∙ ap (λ l. pre ++ l) (sym (append_assoc p (e ∷ s) z)),
      λ t.
          ap (lookup (node p v kind ks)) (append_assoc p (e ∷ s) t)
          ∙ lookup_below v kind ks p e (s ++ t)
          ∙ i t,
    )

    Finds-below :
        (p : Bytes) (e : ℕ) (s : Bytes)
        → FindsChild ks (pre ++ p) e s
        → Finds (node p v kind ks) pre (p ++ e ∷ s)
    Finds-below p e s (o, eq, i) = (o, find_below p e s ∙ eq, IsSubtree-below p e s o i)

  find_child_here :
      (e : ℕ) (n : Node V) (ks : Kids V) (prefix : Bytes) (depth : ℕ) (cur : Bytes)
      → find_prefix_subtree_child (cons e n ks) e prefix depth cur
        ≡ find_prefix_subtree n prefix depth (cur ++ prefix_of n)
  unfolding find_prefix_subtree
  find_child_here e n ks prefix depth cur = ground arith

  find_child_there :
      (f : ℕ) (n : Node V) (ks : Kids V) (e : ℕ) (prefix : Bytes) (depth : ℕ) (cur : Bytes)
      → f ≢ e
      → find_prefix_subtree_child (cons f n ks) e prefix depth cur
        ≡ find_prefix_subtree_child ks e prefix depth cur
  unfolding find_prefix_subtree
  find_child_there f n ks e prefix depth cur h = ground arith

  IsSubtree-cong :
      (m m' : Bytes → Option V) (pre rest : Bytes) (o : Option (Node V × Bytes))
      → ((q : Bytes) → m' q ≡ m q)
      → IsSubtree m pre rest o
      → IsSubtree m' pre rest o
  IsSubtree-cong m m' pre rest none h i = λ s. h (rest ++ s) ∙ i s
  IsSubtree-cong m m' pre rest (some (n, cur)) h (d, z, a, b, i) =
      (d, z, a, b, λ s. h (rest ++ s) ∙ i s)

  child_here :
      (e : ℕ) (n : Node V) (ks : Kids V) (pre s : Bytes)
      → Finds n pre (e ∷ s)
      → FindsChild (cons e n ks) pre e s
  child_here e n ks pre s (o, eq, i) = (
    o,
    find_child_here e n ks (pre ++ e ∷ s) (length pre) pre ∙ eq,
    IsSubtree-cong (lookup n) (lookup_kids (cons e n ks) e) pre (e ∷ s) o (λ q. kids_here e n ks q)
        i,
  )

  child_there :
      (f : ℕ) (n : Node V) (ks : Kids V) (pre : Bytes) (e : ℕ) (s : Bytes)
      → f ≢ e
      → FindsChild ks pre e s
      → FindsChild (cons f n ks) pre e s
  child_there f n ks pre e s ne (o, eq, i) = (
    o,
    find_child_there f n ks e (pre ++ e ∷ s) (length pre) pre ne ∙ eq,
    IsSubtree-cong (lookup_kids ks e) (lookup_kids (cons f n ks) e) pre (e ∷ s) o
        (λ q. kids_there f n ks e q ne) i,
  )

  mutual
    unfolding find_prefix_subtree lookup

    find_node : (n : Node V) (pre rest : Bytes) → Finds n pre rest
    find_node (node p v kind ks) pre rest = elim (align p rest) [
      | same h ↦ rw h (Finds-same v kind ks pre p)
      | above e q h ↦ rw h (Finds-above v kind ks pre rest e q)
      | fork c a b q s ne h h' ↦ rw (h, h') (Finds-fork v kind ks pre c a b q s ne)
      | below e s h ↦ rw h (Finds-below v kind ks pre p e s (find_kids ks (pre ++ p) e s))
    ]

    find_kids : (ks : Kids V) (pre : Bytes) (e : ℕ) (s : Bytes) → FindsChild ks pre e s
    find_kids nil pre e s = (none, refl, λ t. refl)
    find_kids (cons f n ks) pre e s = elim (eq_or_ne f e) [
      | inl t ↦ rw t (child_here e n ks pre s (find_node n pre (e ∷ s)))
      | inr ne ↦ child_there f n ks pre e s ne (find_kids ks pre e s)
    ]

  -- `find_prefix_subtree` never panics. If it finds nothing, no key of the node begins with `prefix`.
  -- A node that it finds comes with the key that leads through it, which begins with `prefix`, and
  -- reads behind `prefix` what the whole node reads there.
  pub find_prefix_subtree_lem :
      (n : Node V) (prefix : Bytes)
      → (o : Option (Node V × Bytes)) × (find_prefix_subtree n prefix 0 (prefix_of n) ≡ done o)
        × IsSubtree (lookup n) [] prefix o
  find_prefix_subtree_lem n prefix = find_node n [] prefix
