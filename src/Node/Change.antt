-- ===== src/Node/Change.antt =====
-- A child that is changed in place, and what a trimmed node stands for.
use rart_rs.Prelude.{
  ℕ, ◌+◌, ◌≡◌, ◌≢◌, refl, Option, none, some, ◌∷◌, ◌++◌, ◌==◌, arith, ◌⊎◌, inl, inr, Bool-cases,
  ==_iff,
}
use rart_rs.Node.{
  Node, node, Kids, nil, cons, Kind, empty, node4, node16, node48, node256, seek, delete, set_child,
  num_children, prefix_of,
}
use rart_rs.Node.Valid.{IsValid, ValidKids, BeginsWith, Above, Alive}
use rart_rs.Node.Lookup.{
  lookup_kids-seek, lookup, lookup_kids, lookup-append, lookup_end, lookup_below, lookup_missing,
  lookup_kids_only, lookup_edge_nil,
}
use rart_rs.Node.Size.{size, size_kids}
use rart_rs.Node.Deletion.{trimmed}
use rart_rs.Partials.{Bytes}
use rart_rs.Partials.Laws.{stripped, missing, ends, goes_on, strip_self, strip-below}

module _ {V : Type 0} where
  seek_head_or_tail :
      (k e : ℕ) (n c : Node V) (ks : Kids V)
      → seek k (cons e n ks) ≡ some c
      → ((e ≡ k) × (n ≡ c)) ⊎ ((e ≢ k) × (seek k ks ≡ some c))
  unfolding seek
  seek_head_or_tail k e n c ks h = ground arith

  pub seek-set_child :
      (k : ℕ) (c c' : Node V) (ks : Kids V)
      → seek k ks ≡ some c
      → seek k (set_child k c' ks) ≡ some c'
  unfolding seek set_child
  seek-set_child k c c' nil h = cc
  seek-set_child k c c' (cons e n ks) h = ground (arith, seek-set_child k c c' ks)

  pub delete-set_child :
      (k : ℕ) (c : Node V) (ks : Kids V) → delete k (set_child k c ks) ≡ delete k ks
  unfolding delete set_child
  delete-set_child k c nil = refl
  delete-set_child k c (cons e n ks) = ground (arith, delete-set_child k c ks)

  pub num_children-set_child :
      (k : ℕ) (c : Node V) (ks : Kids V) → num_children (set_child k c ks) ≡ num_children ks
  unfolding num_children set_child
  num_children-set_child k c nil = refl
  num_children-set_child k c (cons e n ks) = ground (arith, num_children-set_child k c ks)

  pub size_kids-set_child :
      (k : ℕ) (c c' : Node V) (ks : Kids V)
      → seek k ks ≡ some c
      → size_kids (set_child k c' ks) + size c ≡ size_kids ks + size c'
  unfolding size seek set_child
  size_kids-set_child k c c' nil h = cc
  size_kids-set_child k c c' (cons e n ks) h =
      ground (arith, size_kids-set_child k c c' ks, seek_head_or_tail k e n c ks)

  Above-set_child :
      (lo k : ℕ) (c : Node V) (ks : Kids V) → Above lo ks → Above lo (set_child k c ks)
  unfolding set_child
  Above-set_child lo k c nil a = tt
  Above-set_child lo k c (cons e n ks) a = elim (Bool-cases (e == k)) [
    | inl t ↦ rw t a
    | inr f ↦ rw f (a.0, Above-set_child lo k c ks a.1)
  ]

  pub ValidKids-set_child :
      (k : ℕ) (c : Node V) (ks : Kids V)
      → BeginsWith k (prefix_of c)
      → IsValid c
      → ValidKids ks
      → ValidKids (set_child k c ks)
  unfolding set_child
  ValidKids-set_child k c nil b i v = tt
  ValidKids-set_child k c (cons e n ks) b i v = elim (Bool-cases (e == k)) [
    | inl t ↦
        let same : e ≡ k = (==_iff e k).0 t in
        rw (t, same) (rw same at v.0, b, i, rw same at v.3, v.4)
    | inr f ↦ rw f (v.0, v.1, v.2, Above-set_child e k c ks v.3, ValidKids-set_child k c ks b i v.4)
  ]

  pub Alive-set_child :
      (k : ℕ) (c c' : Node V) (v : Option V) (ks : Kids V)
      → seek k ks ≡ some c
      → Alive v (set_child k c' ks)
  unfolding set_child seek
  Alive-set_child k c c' (some v) ks h = tt
  Alive-set_child k c c' none nil h = cc
  Alive-set_child k c c' none (cons e n ks) h = elim (Bool-cases (e == k)) [
    | inl t ↦ rw t tt
    | inr f ↦ rw f tt
  ]

  pub lookup_kids-set_child :
      (e : ℕ) (c c' : Node V) (ks : Kids V) (r : Bytes)
      → seek e ks ≡ some c
      → lookup_kids (set_child e c' ks) e r ≡ lookup c' r
  lookup_kids-set_child e c c' ks r h =
      rw (lookup_kids-seek (set_child e c' ks) e r, seek-set_child e c c' ks h)

  pub seek-set_child_ne :
      (e : ℕ) (c : Node V) (ks : Kids V) (k : ℕ) → k ≢ e → seek k (set_child e c ks) ≡ seek k ks
  unfolding seek set_child
  seek-set_child_ne e c nil k h = refl
  seek-set_child_ne e c (cons f n ks) k h = ground (arith, seek-set_child_ne e c ks k h)

  -- Other edges are read as before.
  pub lookup_kids-set_child_ne :
      (e : ℕ) (c : Node V) (ks : Kids V) (k : ℕ) (r : Bytes)
      → k ≢ e
      → lookup_kids (set_child e c ks) k r ≡ lookup_kids ks k r
  lookup_kids-set_child_ne e c ks k r h = rw (
    lookup_kids-seek (set_child e c ks) k r,
    lookup_kids-seek ks k r,
    seek-set_child_ne e c ks k h,
  )

  lookup_merged :
      (p : Bytes) (e : ℕ) (q : Bytes) (u : Option V) (kind kind' : Kind) (js : Kids V) (r : Bytes)
      → BeginsWith e q
      → lookup (node (p ++ q) u kind js) r
        ≡ lookup (node p none kind' (cons e (node q u kind js) nil)) r
  lookup_merged p e q u kind kind' js r b =
      let only : Kids V = cons e (node q u kind js) nil in
      elim (stripped p r) [
        | missing m ↦ rw (lookup-append p q u kind js r, m, lookup_missing none kind' only p r m)
        | ends m ↦ rw (
          m,
          lookup-append p q u kind js p,
          strip_self p,
          lookup_edge_nil e q u kind js b,
          lookup_end none kind' only p,
        )
        | goes_on f s m ↦ rw (
          m,
          lookup-append p q u kind js (p ++ f ∷ s),
          strip-below p (f ∷ s),
          lookup_below none kind' only p f s,
          lookup_kids_only u kind js e q f s b,
        )
      ]

  pub lookup_kind :
      (p : Bytes) (v : Option V) (kind kind' : Kind) (ks : Kids V) (r : Bytes)
      → lookup (node p v kind ks) r ≡ lookup (node p v kind' ks) r
  unfolding lookup
  lookup_kind p v kind kind' ks r = refl

  -- Trimming does not change what a node stands for: a node that gives way to its only child is
  -- read as before.
  pub lookup-trimmed :
      (p : Bytes) (v : Option V) (kind : Kind) (ks : Kids V) (r : Bytes)
      → ValidKids ks
      → lookup (trimmed p v kind ks) r ≡ lookup (node p v kind ks) r
  lookup-trimmed p none node4 (cons e (node q u kind js) nil) r w =
      lookup_merged p e q u kind node4 js r w.1
  lookup-trimmed p none node4 nil r w = refl
  lookup-trimmed p none node4 (cons e (node q u kind js) (cons f n ks)) r w = refl
  lookup-trimmed p (some v) node4 ks r w = refl
  lookup-trimmed p none empty ks r w = refl
  lookup-trimmed p (some v) empty ks r w = refl
  lookup-trimmed p none node16 ks r w = lookup_kind p none _ node16 ks r
  lookup-trimmed p (some v) node16 ks r w = lookup_kind p (some v) _ node16 ks r
  lookup-trimmed p none node48 ks r w = lookup_kind p none _ node48 ks r
  lookup-trimmed p (some v) node48 ks r w = lookup_kind p (some v) _ node48 ks r
  lookup-trimmed p none node256 ks r w = lookup_kind p none _ node256 ks r
  lookup-trimmed p (some v) node256 ks r w = lookup_kind p (some v) _ node256 ks r
