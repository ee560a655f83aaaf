-- ===== src/Versioned/Plain.antt =====
-- A versioned node without its versions, and the versions that it has.
use rart_rs.Prelude.{
  ℕ, suc, ◌<◌, ◌≤◌, ◌≡◌, refl, Bool, false, Option, none, some, ◌==◌, arith, done, Bool-cases, inl,
  inr, ltb, ap, ==_iff,
}
use mathlib.Core.Option
use rart_rs.Partials.{Bytes}
use rart_rs.Node
use rart_rs.Node.{
  Node, node, Kids, nil, cons, Kind, empty, node4, node16, node48, node256, seek, set_child,
  capacity, promote, grow,
}
use rart_rs.Node.Valid.{Above, ValidKids}
use rart_rs.Node.Children.{kind_for}
use rart_rs.Versioned.{
  VersionedNode, versioned, Children, end, more, seek_child, add, delete, num_children, is_full,
  room_for, owned, ensure_cow_node, cow_clone_inner,
}

ltb-false : (e k : ℕ) → e < k → ltb k e ≡ false
ltb-false e k h = ground arith

later : (a b : ℕ) → a < b → (a == b) ≡ false
later a b h = ground arith

pub room_for_lem :
    (kind : Kind) (n : ℕ) → n ≤ capacity kind → n < 256 → room_for kind n ≡ done (kind_for kind n)
unfolding room_for is_full grow capacity
room_for_lem empty n h k = ground arith
room_for_lem node4 n h k = ground arith
room_for_lem node16 n h k = ground arith
room_for_lem node48 n h k = ground arith
room_for_lem node256 n h k = ground arith

-- A node that has just given up a child has room for it.
pub room_for_less : (kind : Kind) (n : ℕ) → suc n ≤ capacity kind → room_for kind n ≡ done kind
unfolding room_for is_full grow capacity
room_for_less empty n h = absurd (omega (arith, h))
room_for_less node4 n h = ground arith
room_for_less node16 n h = ground arith
room_for_less node48 n h = ground arith
room_for_less node256 n h = ground arith

module _ {V : Type 0} where
  abbrev mutual
    pub plain : VersionedNode V → Node V
    plain (versioned p v kind ks version) = node p v kind (plain_kids ks)

    pub plain_kids : Children V → Kids V
    plain_kids end = nil
    plain_kids (more e n ks) = cons e (plain n) (plain_kids ks)

  pub seek-plain_kids :
      (k : ℕ) (ks : Children V) → seek k (plain_kids ks) ≡ Option.map plain (seek_child k ks)
  unfolding seek seek_child
  seek-plain_kids k end = refl
  seek-plain_kids k (more e n ks) = ground (arith, seek-plain_kids k ks)

  pub plain_kids-add :
      (k : ℕ) (c : VersionedNode V) (ks : Children V)
      → plain_kids (add k c ks) ≡ Node.add k (plain c) (plain_kids ks)
  unfolding add Node.add
  plain_kids-add k c end = refl
  plain_kids-add k c (more e n ks) = ground (arith, plain_kids-add k c ks)

  pub plain_kids-delete :
      (k : ℕ) (ks : Children V) → plain_kids (delete k ks) ≡ Node.delete k (plain_kids ks)
  unfolding delete Node.delete
  plain_kids-delete k end = refl
  plain_kids-delete k (more e n ks) = ground (arith, plain_kids-delete k ks)

  pub num_children-plain_kids :
      (ks : Children V) → Node.num_children (plain_kids ks) ≡ num_children ks
  unfolding num_children Node.num_children
  num_children-plain_kids end = refl
  num_children-plain_kids (more e n ks) = ap suc (num_children-plain_kids ks)

  -- A child that is not there is not deleted.
  pub delete_absent : (k : ℕ) (ks : Children V) → seek_child k ks ≡ none → delete k ks ≡ ks
  unfolding delete seek_child
  delete_absent k end h = refl
  delete_absent k (more e n ks) h = ground (arith, delete_absent k ks)

  add-Above : (k : ℕ) (c : Node V) (ks : Kids V) → Above k ks → Node.add k c ks ≡ cons k c ks
  unfolding Node.add
  add-Above k c nil a = refl
  add-Above k c (cons e n ks) a = ground arith

  seek-le : (k lo : ℕ) (c : Node V) (ks : Kids V) → Above lo ks → seek k ks ≡ some c → lo < k
  unfolding seek
  seek-le k lo c nil a h = cc
  seek-le k lo c (cons e n ks) a h = ground (arith, seek-le k lo c ks)

  -- A child that is taken out and put back, changed, has its place.
  pub add-delete :
      (k : ℕ) (c c' : Node V) (ks : Kids V)
      → ValidKids ks
      → seek k ks ≡ some c
      → Node.add k c' (Node.delete k ks) ≡ set_child k c' ks
  unfolding Node.add Node.delete set_child seek
  add-delete k c c' nil v h = cc
  add-delete k c c' (cons e n ks) v h = elim (Bool-cases (e == k)) [
    | inl t ↦
        let same : e ≡ k = (==_iff e k).0 t in rw (t, same) (add-Above k c' ks (rw same at v.3))
    | inr f ↦
        let tail : seek k ks ≡ some c = rw f at h in
        let lt : e < k = seek-le k e c ks v.3 tail in
        rw (f, ltb-false e k lt) (ap (λ js. cons e n js) (add-delete k c c' ks v.4 tail))
  ]

  -- No version in the node is above `m`.
  abbrev mutual
    pub IsUpTo : ℕ → VersionedNode V → Type 0
    IsUpTo m (versioned p v kind ks version) = (version ≤ m) × IsUpToKids m ks

    pub IsUpToKids : ℕ → Children V → Type 0
    IsUpToKids m end = Unit
    IsUpToKids m (more e n ks) = IsUpTo m n × IsUpToKids m ks

  mutual
    pub IsUpTo-later : (m l : ℕ) (n : VersionedNode V) → m ≤ l → IsUpTo m n → IsUpTo l n
    IsUpTo-later m l (versioned p v kind ks version) h u =
        (omega (arith, u.0), IsUpToKids-later m l ks h u.1)

    pub IsUpToKids-later : (m l : ℕ) (ks : Children V) → m ≤ l → IsUpToKids m ks → IsUpToKids l ks
    IsUpToKids-later m l end h u = tt
    IsUpToKids-later m l (more e n ks) h u =
        (IsUpTo-later m l n h u.0, IsUpToKids-later m l ks h u.1)

  pub IsUpToKids-add :
      (m k : ℕ) (c : VersionedNode V) (ks : Children V)
      → IsUpTo m c
      → IsUpToKids m ks
      → IsUpToKids m (add k c ks)
  unfolding add
  IsUpToKids-add m k c end u w = (u, tt)
  IsUpToKids-add m k c (more e n ks) u w = elim (Bool-cases (ltb k e)) [
    | inl t ↦ rw t (u, w)
    | inr f ↦ rw f (w.0, IsUpToKids-add m k c ks u w.1)
  ]

  pub IsUpToKids-delete : (m k : ℕ) (ks : Children V) → IsUpToKids m ks → IsUpToKids m (delete k ks)
  unfolding delete
  IsUpToKids-delete m k end w = tt
  IsUpToKids-delete m k (more e n ks) w = elim (Bool-cases (e == k)) [
    | inl t ↦ rw t w.1
    | inr f ↦ rw f (w.0, IsUpToKids-delete m k ks w.1)
  ]

  -- A node of an earlier version is taken over, shared or not, and gets the version.
  pub owned_lem :
      (shared : VersionedNode V → Bool) (p : Bytes) (v : Option V) (kind : Kind) (ks : Children V)
      (created target : ℕ)
      → created < target
      → owned shared (versioned p v kind ks created) target ≡ done (versioned p v kind ks target)
  unfolding owned ensure_cow_node cow_clone_inner
  owned_lem shared p v kind ks created target h =
      elim (Bool-cases (shared (versioned p v kind ks created))) [
        | inl t ↦ rw (later created target h, t)
        | inr f ↦ rw (later created target h, f)
      ]
