-- ===== src/Versioned/Replace.antt =====
-- A child that is taken out of its parent and put back, and a child that is not there.
use rart_rs.Prelude.{ℕ, ◌≡◌, refl, true, Option, none, some, done, arith, ap}
use rart_rs.Partials.{Bytes}
use rart_rs.Node
use rart_rs.Node.{Node, node, Kids, nil, cons, Kind, empty, node4, is_leaf, seek, capacity}
use rart_rs.Node.Valid.{IsValid}
use rart_rs.Node.Deletion.{num_children-delete}
use rart_rs.Tree.Remove.Total.{leaf_childless}
use rart_rs.Versioned.{
  VersionedNode, versioned, Children, end, more, seek_child, add, delete, num_children, add_child,
}
use rart_rs.Versioned.Plain.{
  plain, plain_kids, seek-plain_kids, plain_kids-delete, num_children-plain_kids, room_for_less,
}

module _ {V : Type 0} where
  pub child_present :
      (k : ℕ) (ks : Children V) (c : VersionedNode V)
      → seek_child k ks ≡ some c
      → seek k (plain_kids ks) ≡ some (plain c)
  child_present k ks c h = rw (seek-plain_kids k ks, h)

  pub child_missing :
      (k : ℕ) (ks : Children V) → seek_child k ks ≡ none → seek k (plain_kids ks) ≡ none
  child_missing k ks h = rw (seek-plain_kids k ks, h)

  -- The child is put back where it was.
  pub add_child-delete :
      (p : Bytes) (v : Option V) (kind : Kind) (ks : Children V) (version k : ℕ)
      (c c' : VersionedNode V)
      → seek_child k ks ≡ some c
      → IsValid (node p v kind (plain_kids ks))
      → add_child k c' (versioned p v kind (delete k ks) version)
        ≡ done (versioned p v kind (add k c' (delete k ks)) version)
  unfolding add_child
  add_child-delete p v kind ks version k c c' h w = rw (
      room_for_less kind (num_children (delete k ks)) (
        omega (
          arith,
          w.0,
          num_children-delete k (plain c) (plain_kids ks) (child_present k ks c h),
          num_children-plain_kids (delete k ks),
          ap Node.num_children (plain_kids-delete k ks),
        )))

  pub childless :
      (e : ℕ) (p : Bytes) (v : Option V) (kind : Kind) (ks : Children V)
      → is_leaf kind ≡ true
      → IsValid (node p v kind (plain_kids ks))
      → seek_child e ks ≡ none
  unfolding seek_child
  childless e p v kind end leaf w = refl
  childless e p v kind (more f n ks) leaf w =
      let z = leaf_childless kind (plain_kids (more f n ks)) w.0 leaf in cc
