-- ===== src/Versioned/Remove/Effect.antt =====
-- What is left of a node of the versioned tree, which is not shrunk after a removal.
use rart_rs.Prelude.{ℕ, ◌≡◌, refl, Option, none, some, ◌∷◌, ◌++◌, ◌==◌, arith, ◌∙◌, sym}
use rart_rs.Partials.{Bytes}
use rart_rs.Node
use rart_rs.Node.{Node, node, Kids, nil, cons, Kind, is_leaf, seek}
use rart_rs.Node.Valid.{IsValid, Alive}
use rart_rs.Node.Size.{size, size-trimmed}
use rart_rs.Node.Change.{lookup-trimmed}
use rart_rs.Node.Deletion.{num_children-delete, ValidKids-delete}
use rart_rs.Tree.Remove.Effect.{IsOnly, IsRemove, IsRemove-delete}
use rart_rs.Tree.Update.Answers.{suc-ne, and_false}
use rart_rs.Versioned.{versioned, Children, end, more, num_children}
use rart_rs.Versioned.Plain.{plain_kids}
use rart_rs.Versioned.Remove.{keep_node}

module _ {V : Type 0} where
  -- The child is deleted, and the node, which is not shrunk, holds something still.
  pub IsRemove-unshrunk :
      (p : Bytes) (v : Option V) (kind : Kind) (ks : Kids V) (e : ℕ) (s : Bytes) (c : Node V)
      → seek e ks ≡ some c
      → IsValid (node p v kind ks)
      → Alive v (Node.delete e ks)
      → IsOnly c (e ∷ s)
      → IsRemove (node p v kind ks) (node p v kind (Node.delete e ks)) (p ++ e ∷ s)
  unfolding size
  IsRemove-unshrunk p v kind ks e s c h w a o =
      let r = IsRemove-delete p v kind ks e s c h w a o in
      let valid = ValidKids-delete e ks w.2 in
      record {
        valid = (omega (arith, w.0, num_children-delete e c ks h), a, valid, w.3);
        edge = λ f b _. b;
        here = sym (lookup-trimmed p v kind (Node.delete e ks) (p ++ e ∷ s) valid) ∙ r.here;
        elsewhere =
            λ q ne. sym (lookup-trimmed p v kind (Node.delete e ks) q valid) ∙ r.elsewhere q ne;
        counted = omega (arith, r.counted, size-trimmed p v kind (Node.delete e ks));
      }

  pub keep_live :
      (p : Bytes) (v : Option V) (kind : Kind) (ks : Children V) (version : ℕ)
      → Alive v (plain_kids ks)
      → keep_node (versioned p v kind ks version) ≡ some (versioned p v kind ks version)
  unfolding keep_node num_children
  keep_live p (some x) kind ks version a = rw (and_false (num_children ks == 0))
  keep_live p none kind end version a = absurd a
  keep_live p none kind (more e n ks) version a = rw (suc-ne (num_children ks))

  pub keep_bare :
      (p : Bytes) (kind : Kind) (ks : Children V) (version : ℕ)
      → plain_kids ks ≡ nil
      → keep_node (versioned p none kind ks version) ≡ none
  unfolding keep_node num_children
  keep_bare p kind end version h = refl
  keep_bare p kind (more e n ks) version h = cc
