-- ===== src/Node/Size.antt =====
-- The number of values that a node holds.
use rart_rs.Prelude.{ℕ, ◌+◌, ◌≡◌, refl, Option, none, some, arith}
use rart_rs.Node.{
  Node, node, Kids, nil, cons, Kind, seek, add, delete, empty, node4, node16, node48, node256,
}
use rart_rs.Node.Deletion.{trimmed}
use rart_rs.Partials.{Bytes}

abbrev pub found {ℓ} : {A : Type ℓ} → Option A → ℕ
found none = 0
found (some _) = 1

module _ {V : Type 0} where
  unfoldable mutual
    pub size : Node V → ℕ
    size (node p v kind ks) = found v + size_kids ks

    pub size_kids : Kids V → ℕ
    size_kids nil = 0
    size_kids (cons e n ks) = size n + size_kids ks

  pub size_kids-add :
      (k : ℕ) (c : Node V) (ks : Kids V) → size_kids (add k c ks) ≡ size c + size_kids ks
  unfolding size add
  size_kids-add k c nil = refl
  size_kids-add k c (cons e n ks) = ground (arith, size_kids-add k c ks)

  pub size_kids-delete :
      (k : ℕ) (c : Node V) (ks : Kids V)
      → seek k ks ≡ some c
      → size_kids ks ≡ size c + size_kids (delete k ks)
  unfolding size seek delete
  size_kids-delete k c nil h = cc
  size_kids-delete k c (cons e n ks) h = ground (arith, size_kids-delete k c ks)

  pub size-trimmed :
      (p : Bytes) (v : Option V) (kind : Kind) (ks : Kids V)
      → size (trimmed p v kind ks) ≡ found v + size_kids ks
  unfolding size
  size-trimmed p none node4 nil = refl
  size-trimmed p none node4 (cons e (node q u kind js) nil) = omega arith
  size-trimmed p none node4 (cons e (node q u kind js) (cons e' n' ks)) = refl
  size-trimmed p (some v) node4 ks = refl
  size-trimmed p none empty ks = refl
  size-trimmed p (some v) empty ks = refl
  size-trimmed p none node16 ks = refl
  size-trimmed p (some v) node16 ks = refl
  size-trimmed p none node48 ks = refl
  size-trimmed p (some v) node48 ks = refl
  size-trimmed p none node256 ks = refl
  size-trimmed p (some v) node256 ks = refl
