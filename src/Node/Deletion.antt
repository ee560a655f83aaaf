-- ===== src/Node/Deletion.antt =====
-- Deleting a child: what `delete_child` with its shrinking returns, and that the result is well
-- formed, but for a node that is left with neither value nor child.
use rart_rs.Prelude.{
  ℕ, suc, ◌≤◌, ◌≡◌, ◌≢◌, refl, Option, none, some, ◌++◌, ltb, ◌==◌, if◌then◌else◌, done, arith, inl,
  inr, Bool-cases, ==_iff, subst, eq_of_some,
}
use rart_rs.Node.{
  Node, node, Kids, nil, cons, Kind, empty, node4, node16, node48, node256, num_children, seek,
  delete, shrink, is_sparse, capacity, delete_child,
}
use rart_rs.Node.Valid.{IsValid, ValidKids, Above, Fits, IsBytes-append, ValidChild}
use rart_rs.Partials.{Bytes}

module _ {V : Type 0} where
  pub num_children-delete :
      (k : ℕ) (c : Node V) (ks : Kids V)
      → seek k ks ≡ some c
      → num_children ks ≡ suc (num_children (delete k ks))
  unfolding num_children delete seek
  num_children-delete k c nil h = cc
  num_children-delete k c (cons e n ks) h = ground (arith, num_children-delete k c ks)

  Above-delete : (lo k : ℕ) (ks : Kids V) → Above lo ks → Above lo (delete k ks)
  unfolding delete
  Above-delete lo k nil a = tt
  Above-delete lo k (cons e n ks) a = ground (arith, Above-delete lo k ks)

  pub ValidKids-delete : (k : ℕ) (ks : Kids V) → ValidKids ks → ValidKids (delete k ks)
  unfolding delete
  ValidKids-delete k nil v = tt
  ValidKids-delete k (cons e n ks) v = elim (Bool-cases (e == k)) [
    | inl t ↦ rw t v.4
    | inr f ↦ rw f (v.0, v.1, v.2, Above-delete e k ks v.3, ValidKids-delete k ks v.4)
  ]

  -- A child that is found is valid.
  pub seek-ValidChild :
      (k : ℕ) (c : Node V) (ks : Kids V) → seek k ks ≡ some c → ValidKids ks → ValidChild k c
  unfolding seek
  seek-ValidChild k c nil h v = cc
  seek-ValidChild k c (cons e (node q u kind js) ks) h v = elim (Bool-cases (e == k)) [
    | inl t ↦
        subst (λ m. ValidChild k m) (eq_of_some (node q u kind js) c (rw t at h))
          (rw (← (==_iff e k).0 t) (v.0, v.1, v.2))
    | inr f ↦ seek-ValidChild k c ks (rw f at h) v.4
  ]

  -- The node that `delete_child` leaves, for its kind and the children that remain.
  abbrev pub trimmed : Bytes → Option V → Kind → Kids V → Node V
  trimmed p none node4 (cons e (node q w kind js) nil) = node (p ++ q) w kind js
  trimmed p v node16 ks = node p v (if ltb (num_children ks) 5 then node4 else node16) ks
  trimmed p v node48 ks = node p v (if ltb (num_children ks) 17 then node16 else node48) ks
  trimmed p v node256 ks = node p v (if ltb (num_children ks) 49 then node48 else node256) ks
  trimmed p v kind ks = node p v kind ks

  shrink_lem :
      (p : Bytes) (v : Option V) (kind : Kind) (ks : Kids V)
      → kind ≢ empty
      → (if is_sparse kind (num_children ks)
          then shrink (node p v kind ks)
          else done (node p v kind ks))
        ≡ done (trimmed p v kind ks)
  unfolding shrink is_sparse num_children
  shrink_lem p v empty ks h = absurd (h refl)
  shrink_lem p none node4 nil h = refl
  shrink_lem p none node4 (cons e (node q w kind js) nil) h = refl
  shrink_lem p none node4 (cons e n (cons f m ks)) h = ground arith
  shrink_lem p (some v) node4 ks h = ground arith
  shrink_lem p v node16 ks h = ground arith
  shrink_lem p v node48 ks h = ground arith
  shrink_lem p v node256 ks h = ground arith

  -- Deleting a child that is there does not panic.
  pub delete_child_lem :
      (k : ℕ) (c : Node V) (p : Bytes) (v : Option V) (kind : Kind) (ks : Kids V)
      → seek k ks ≡ some c
      → Fits kind ks
      → delete_child k (node p v kind ks) ≡ done (some c, trimmed p v kind (delete k ks))
  unfolding delete_child capacity
  delete_child_lem k c p v empty ks h f = absurd (omega (arith, num_children-delete k c ks h))
  delete_child_lem k c p v kind ks h f =
      rw h (ground (arith, shrink_lem p v kind (delete k ks) (λ e. cc)))

  -- Shrinking keeps what is well formed.
  pub trimmed-IsValid :
      (p : Bytes) (v : Option V) (kind : Kind) (ks : Kids V)
      → IsValid (node p v kind ks)
      → IsValid (trimmed p v kind ks)
  unfolding capacity num_children
  trimmed-IsValid p none node4 nil h = h
  trimmed-IsValid p none node4 (cons e (node q u kind js) nil) h =
      let c = h.2.2 in (c.0, c.1, c.2, IsBytes-append p q h.3 c.3)
  trimmed-IsValid p none node4 (cons e (node q u kind js) (cons e' n' ks)) h = h
  trimmed-IsValid p (some v) node4 ks h = h
  trimmed-IsValid p none empty ks h = h
  trimmed-IsValid p (some v) empty ks h = h
  trimmed-IsValid p v node16 ks h = ground arith
  trimmed-IsValid p v node48 ks h = ground arith
  trimmed-IsValid p v node256 ks h = ground arith

  seek-Above : (k lo : ℕ) (ks : Kids V) → k ≤ lo → Above lo ks → seek k ks ≡ none
  unfolding seek
  seek-Above k lo nil h a = refl
  seek-Above k lo (cons e n ks) h a = ground (arith, seek-Above k lo ks h)

  -- Edges are distinct: one that was deleted is not found again.
  pub seek-delete : (k : ℕ) (ks : Kids V) → ValidKids ks → seek k (delete k ks) ≡ none
  unfolding seek delete
  seek-delete k nil v = refl
  seek-delete k (cons e n ks) v = elim (Bool-cases (e == k)) [
    | inl t ↦ rw t (seek-Above k e ks (omega (arith, (==_iff e k).0 t)) v.3)
    | inr f ↦ rw (f, f) (seek-delete k ks v.4)
  ]
