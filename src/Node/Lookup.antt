-- ===== src/Node/Lookup.antt =====
-- The map that a node stands for: what a byte string reads, with no depth and no search order in
-- it, and how it changes when a node is split, merged, or its children change.
use rart_rs.Prelude.{
  ℕ, ◌≡◌, ◌≢◌, refl, true, false, Option, none, some, [], ◌∷◌, ◌++◌, ◌==◌, if◌then◌else◌, arith,
  sym, ◌∙◌,
}
use rart_rs.Node.{Node, node, Kids, nil, cons, Kind, empty, seek, add, delete}
use rart_rs.Node.Valid.{BeginsWith}
use rart_rs.Partials.{Bytes}
use rart_rs.Partials.Laws.{
  strip, strip-append, strip_self, strip-below, stripped, missing, ends, goes_on,
}

module _ {V : Type 0} where
  -- What is read after the prefix: the value at the end, a child by the next byte.
  abbrev pub follow : Option Bytes → Option V → (ℕ → Bytes → Option V) → Option V
  follow none v child = none
  follow (some []) v child = v
  follow (some (k ∷ r)) v child = child k (k ∷ r)

  unfoldable mutual
    pub lookup : Node V → Bytes → Option V
    lookup (node p v kind ks) r = follow (strip p r) v (lookup_kids ks)

    pub lookup_kids : Kids V → ℕ → Bytes → Option V
    lookup_kids nil k r = none
    lookup_kids (cons e n ks) k r = elim (e == k) [ true ↦ lookup n r | false ↦ lookup_kids ks k r ]

  pub lookup_kids-seek :
      (ks : Kids V) (k : ℕ) (r : Bytes)
      → lookup_kids ks k r ≡ (elim (seek k ks) [ none ↦ none | some n ↦ lookup n r ])
  unfolding lookup seek
  lookup_kids-seek nil k r = refl
  lookup_kids-seek (cons e n ks) k r = ground (arith, lookup_kids-seek ks k r)

  -- Adding a child with a new edge.
  pub lookup_kids-add :
      (e : ℕ) (c : Node V) (ks : Kids V) (k : ℕ) (r : Bytes)
      → seek e ks ≡ none
      → lookup_kids (add e c ks) k r ≡ (if k == e then lookup c r else lookup_kids ks k r)
  unfolding lookup add seek
  lookup_kids-add e c nil k r h = ground arith
  lookup_kids-add e c (cons f n ks) k r h = ground (arith, lookup_kids-add e c ks k r)

  pub seek-delete_ne : (e : ℕ) (ks : Kids V) (k : ℕ) → k ≢ e → seek k (delete e ks) ≡ seek k ks
  unfolding delete seek
  seek-delete_ne e nil k h = refl
  seek-delete_ne e (cons f n ks) k h = ground (arith, seek-delete_ne e ks k h)

  -- A node with a longer prefix is read behind the part that was cut off.
  pub lookup-append :
      (p q : Bytes) (v : Option V) (kind : Kind) (ks : Kids V) (r : Bytes)
      → lookup (node (p ++ q) v kind ks) r
        ≡ (elim (strip p r) [ none ↦ none | some s ↦ lookup (node q v kind ks) s ])
  unfolding lookup
  lookup-append p q v kind ks r = rw strip-append (follow_strip (strip p r))
    where
      follow_strip :
          (o : Option Bytes)
          → follow (elim o [ none ↦ none | some s ↦ strip q s ]) v (lookup_kids ks)
            ≡ (elim o [ none ↦ none | some s ↦ follow (strip q s) v (lookup_kids ks) ])
      follow_strip none = refl
      follow_strip (some s) = refl

  -- A node whose prefix begins with `e` reads nothing from another first byte.
  pub lookup_edge_ne :
      (e : ℕ) (q : Bytes) (v : Option V) (kind : Kind) (ks : Kids V) (k : ℕ) (r : Bytes)
      → BeginsWith e q
      → k ≢ e
      → lookup (node q v kind ks) (k ∷ r) ≡ none
  unfolding lookup strip
  lookup_edge_ne e [] v kind ks k r b h = absurd b
  lookup_edge_ne e (x ∷ q) v kind ks k r b h = ground arith

  pub lookup_edge_nil :
      (e : ℕ) (q : Bytes) (v : Option V) (kind : Kind) (ks : Kids V)
      → BeginsWith e q
      → lookup (node q v kind ks) [] ≡ none
  unfolding lookup strip
  lookup_edge_nil e [] v kind ks b = absurd b
  lookup_edge_nil e (x ∷ q) v kind ks b = refl

lookup_kids_one :
    {V : Type 0} (e : ℕ) (n : Node V) (k : ℕ) (r : Bytes)
    → lookup_kids (cons e n nil) k r ≡ (if e == k then lookup n r else none)
unfolding lookup
lookup_kids_one e n k r = ground arith

module _ {V : Type 0} (v : Option V) (kind : Kind) (ks : Kids V) where
  pub lookup_end : (p : Bytes) → lookup (node p v kind ks) p ≡ v
  unfolding lookup
  lookup_end p = rw (strip_self p)

  pub lookup_below :
      (p : Bytes) (e : ℕ) (s : Bytes)
      → lookup (node p v kind ks) (p ++ e ∷ s) ≡ lookup_kids ks e (e ∷ s)
  unfolding lookup
  lookup_below p e s = rw (strip-below p (e ∷ s))

  pub lookup_missing : (p r : Bytes) → strip p r ≡ none → lookup (node p v kind ks) r ≡ none
  unfolding lookup
  lookup_missing p r h = rw h

  -- A prefix that is cut at `c` is read behind `c`.
  pub lookup_cut :
      (c p s : Bytes) → lookup (node (c ++ p) v kind ks) (c ++ s) ≡ lookup (node p v kind ks) s
  lookup_cut c p s = rw (lookup-append c p v kind ks (c ++ s), strip-below c s)

  pub lookup_cut_missing :
      (c p r : Bytes) → strip c r ≡ none → lookup (node (c ++ p) v kind ks) r ≡ none
  lookup_cut_missing c p r h = rw (lookup-append c p v kind ks r, h)

  -- An only child that is reached by its first byte is read as if there were no edge.
  pub lookup_kids_only :
      (e : ℕ) (p : Bytes) (k : ℕ) (r : Bytes)
      → BeginsWith e p
      → lookup_kids (cons e (node p v kind ks) nil) k (k ∷ r) ≡ lookup (node p v kind ks) (k ∷ r)
  lookup_kids_only e p k r b =
      rw (lookup_kids_one e (node p v kind ks) k (k ∷ r))
        (ground (arith, lookup_edge_ne e p v kind ks k r b))

module _ {V : Type 0} where
  pub lookup_leaf_ne :
      (p : Bytes) (v : V) (r : Bytes) → r ≢ p → lookup (node p (some v) empty nil) r ≡ none
  unfolding lookup
  lookup_leaf_ne p v r h = elim (stripped p r) [
    | missing m ↦ rw m
    | ends m ↦ absurd (h m)
    | goes_on e s m ↦ rw (m, strip-below p (e ∷ s))
  ]

  pub lookup_kids_absent :
      (ks : Kids V) (k : ℕ) (r : Bytes) → seek k ks ≡ none → lookup_kids ks k r ≡ none
  lookup_kids_absent ks k r h = rw (lookup_kids-seek ks k r, h)

  pub kids_here :
      (e : ℕ) (n : Node V) (ks : Kids V) (r : Bytes) → lookup_kids (cons e n ks) e r ≡ lookup n r
  unfolding lookup
  kids_here e n ks r = ground arith

  pub kids_there :
      (f : ℕ) (n : Node V) (ks : Kids V) (k : ℕ) (r : Bytes)
      → f ≢ k
      → lookup_kids (cons f n ks) k r ≡ lookup_kids ks k r
  unfolding lookup
  kids_there f n ks k r h = ground arith

  -- A node reads the same everywhere but at its prefix, whatever its value.
  pub lookup_other_value :
      (p : Bytes) (v w : Option V) (kind : Kind) (ks : Kids V) (r : Bytes)
      → r ≢ p
      → lookup (node p v kind ks) r ≡ lookup (node p w kind ks) r
  lookup_other_value p v w kind ks r h = elim (stripped p r) [
    | missing m ↦ lookup_missing v kind ks p r m ∙ sym (lookup_missing w kind ks p r m)
    | ends m ↦ absurd (h m)
    | goes_on e s m ↦ rw (m, lookup_below v kind ks p e s, lookup_below w kind ks p e s)
  ]
