-- ===== src/Tree/Update/Total.antt =====
-- `try_update_recurse` on a valid node: it does not panic, and the node that it leaves has the value
-- at the key that the callback asks for.
use rart_rs.Prelude.{
  ℕ, ◌+◌, ◌≡◌, ◌≢◌, refl, Bool, true, Option, none, some, ◌∷◌, ◌++◌, ap, eq_or_ne, inl, inr, done,
  Run, length, length-append, append_assoc, ==-ne, ==_refl, Bool-cases, eq_of_some, Option-cases,
  subst, ◌∙◌,
}
use rart_rs.Partials.{Bytes}
use rart_rs.Partials.Laws.{align, same, below, above, fork, strip-above, strip-fork}
use rart_rs.Node.{
  Node, node, Kids, nil, cons, Kind, empty, is_leaf, seek, num_children, add, add_child,
}
use rart_rs.Node.Valid.{IsValid, ValidKids, IsBytes, IsBytes-right}
use rart_rs.Node.Children.{add_child_lem, leaf-IsValid, kind_for}
use rart_rs.Node.Lookup.{
  lookup, lookup_kids-seek, lookup_end, lookup_below, lookup_missing, lookup_kids_absent,
}
use rart_rs.Tree.{append_leaf}
use rart_rs.Tree.Insert.Steps.{append_leaf_below, split_above_lem, split_fork_lem}
use rart_rs.Tree.Insert.Splits.{IsInsert-above, IsInsert-fork, IsInsert-leaf, forked}
use rart_rs.Tree.Insert.Effect.{IsInsert-put}
use rart_rs.Tree.Remove.Total.{leaf_childless}
use rart_rs.Tree.Update.{
  Callback, try_update_recurse, update_here, fill, vacant_update, settle_update,
}
use rart_rs.Tree.Update.Steps.{
  update_here_lem, update_above, update_fork, update_below, try_update_child-seek,
}
use rart_rs.Tree.Update.Effect.{Ends, Places, fill_lem, occupied_lem, pruned}
use rart_rs.Tree.Update.Answers.{after, change}

module _ {E V : Type 0} where
  module _ (rollback : Bool) (u : Callback E V) where
    abbrev pub Updates : Node V → Bytes → Bytes → Type 0
    Updates n pre rest =
        Ends (try_update_recurse rollback u n (pre ++ rest) (length pre)) n rest
          (after rollback u (lookup n rest)) (change u (lookup n rest))

    -- A key that the node does not have.
    abbrev Fills : (V → Run (Node V)) → Node V → Bytes → Type 0
    Fills place n rest =
        Ends (fill (vacant_update u.vacant) n place) n rest (after rollback u (lookup n rest))
          (change u (lookup n rest))

    fills :
        (n : Node V) (rest : Bytes) (place : V → Run (Node V))
        → IsValid n
        → lookup n rest ≡ none
        → Places place n rest
        → Fills place n rest
    fills n rest place w h t = rw h (fill_lem u.vacant n rest place w h t)

    Updates-same :
        (p : Bytes) (v : Option V) (kind : Kind) (ks : Kids V) (pre : Bytes)
        → IsValid (node p v kind ks)
        → Updates (node p v kind ks) pre p
    unfolding update_here
    Updates-same p (some old) kind ks pre w =
        rw (update_here_lem rollback u (some old) kind ks pre p, lookup_end (some old) kind ks p)
          (occupied_lem rollback p old kind ks (u.occupied old) w)
    Updates-same p none kind ks pre w = rw (update_here_lem rollback u none kind ks pre p) (
        fills (node p none kind ks) p (λ v. done (node p (some v) kind ks)) w
          (lookup_end none kind ks p)
          (λ value. (node p (some value) kind ks, refl, IsInsert-put p none kind ks value true w)))

    Updates-above :
        (v : Option V) (kind : Kind) (ks : Kids V) (pre rest : Bytes) (e : ℕ) (q : Bytes)
        → IsValid (node (rest ++ e ∷ q) v kind ks)
        → Updates (node (rest ++ e ∷ q) v kind ks) pre rest
    unfolding add_child
    Updates-above v kind ks pre rest e q w = rw (update_above rollback u v kind ks pre rest e q) (
        fills (node (rest ++ e ∷ q) v kind ks) rest _ w
          (lookup_missing v kind ks (rest ++ e ∷ q) rest (strip-above rest e q))
          (λ value. (
            _,
            split_above_lem v kind ks pre value true rest e q,
            IsInsert-above v kind ks value true rest e q w,
          )))

    Updates-fork :
        (v : Option V) (kind : Kind) (ks : Kids V) (pre c : Bytes) (a b : ℕ) (q s : Bytes)
        → a ≢ b
        → IsValid (node (c ++ a ∷ q) v kind ks)
        → IsBytes (b ∷ s)
        → Updates (node (c ++ a ∷ q) v kind ks) pre (c ++ b ∷ s)
    unfolding add_child
    Updates-fork v kind ks pre c a b q s ne w bs =
        rw (update_fork rollback u v kind ks pre c a b q s ne) (
          fills (node (c ++ a ∷ q) v kind ks) (c ++ b ∷ s) _ w
            (lookup_missing v kind ks (c ++ a ∷ q) (c ++ b ∷ s) (strip-fork c a b q s ne))
            (λ value. (
              forked v kind ks value true c a b q s,
              split_fork_lem v kind ks pre value true c a b q s,
              IsInsert-fork v kind ks value true c a b q s ne w bs,
            )))

    module _ (p : Bytes) (v : Option V) (kind : Kind) (ks : Kids V) (pre : Bytes) (e : ℕ)
        (s : Bytes) (w : IsValid (node p v kind ks)) where
      -- There is no child at the edge: a leaf is appended.
      Fills-leaf :
          IsBytes (e ∷ s)
          → seek e ks ≡ none
          → Fills
              (λ value.
                append_leaf (node p v kind ks) (pre ++ (p ++ e ∷ s)) value (length pre + length p))
              (node p v kind ks)
              (p ++ e ∷ s)
      Fills-leaf bs h =
          fills (node p v kind ks) (p ++ e ∷ s) _ w
            (lookup_below v kind ks p e s ∙ lookup_kids_absent ks e (e ∷ s) h)
            (λ value.
              let added =
                add_child_lem e (node (e ∷ s) (some value) empty nil) p v kind ks
                  (bs.0, refl, leaf-IsValid (e ∷ s) value bs) h w.0 w.2 in
              (
                node p v (kind_for kind (num_children ks))
                    (add e (node (e ∷ s) (some value) empty nil) ks),
                append_leaf_below v kind ks pre value true p e s ∙ added.0,
                IsInsert-leaf v kind ks value true p e s h w bs,
              ))

      abbrev UpdatesChild : Type 0
      UpdatesChild = (c : Node V) → seek e ks ≡ some c → Updates c (pre ++ p) (e ∷ s)

      Updates-below : IsBytes (e ∷ s) → UpdatesChild → Updates (node p v kind ks) pre (p ++ e ∷ s)
      unfolding settle_update seek
      Updates-below bs visit = elim (Bool-cases (is_leaf kind)) [
        | inl leaf ↦
            rw (update_below rollback u v kind ks pre p e s, leaf)
              (Fills-leaf bs (ap (λ js. seek e js) (leaf_childless kind ks w.0 leaf)))
        | inr inner ↦ elim (Option-cases (seek e ks)) [
          | inl h ↦
              rw
                (
                  update_below rollback u v kind ks pre p e s,
                  inner,
                  try_update_child-seek rollback u ks e (pre ++ (p ++ e ∷ s))
                      (length pre + length p),
                  h,
                )
                (Fills-leaf bs h)
          | inr (c, h) ↦
              let (c', result, eq, out) = visit c h in
              rw
                (
                  update_below rollback u v kind ks pre p e s,
                  inner,
                  try_update_child-seek rollback u ks e (pre ++ (p ++ e ∷ s))
                      (length pre + length p),
                  h,
                  rw (append_assoc, length-append pre p) at eq,
                  lookup_below v kind ks p e s,
                  lookup_kids-seek ks e (e ∷ s),
                  h,
                )
                (pruned p v kind ks e s w c c' h rollback u (lookup c (e ∷ s)) result out)
        ]
      ]

    mutual
      unfolding try_update_recurse seek

      pub update_node :
          (n : Node V) (pre rest : Bytes) → IsValid n → IsBytes rest → Updates n pre rest
      update_node (node p v kind ks) pre rest w bs = elim (align p rest) [
        | same h ↦ rw h (Updates-same p v kind ks pre w)
        | above e q h ↦ rw h (Updates-above v kind ks pre rest e q (rw h at w))
        | fork c a b q s ne h h' ↦
            rw (h, h')
              (Updates-fork v kind ks pre c a b q s ne (rw h at w)
                (IsBytes-right c (b ∷ s) (rw h' at bs)))
        | below e s h ↦
            let tail = IsBytes-right p (e ∷ s) (rw h at bs) in
            rw h (
              Updates-below p v kind ks pre e s w tail
                (λ c t. update_kids ks (pre ++ p) e s w.2 tail c t))
      ]

      update_kids :
          (ks : Kids V) (pre : Bytes) (e : ℕ) (s : Bytes)
          → ValidKids ks
          → IsBytes (e ∷ s)
          → (c : Node V) → seek e ks ≡ some c
          → Updates c pre (e ∷ s)
      update_kids nil pre e s w bs c h = cc
      update_kids (cons f n ks) pre e s w bs c h = elim (eq_or_ne f e) [
        | inl t ↦
            subst (λ m. Updates m pre (e ∷ s)) (eq_of_some n c (rw (t, ==_refl e) at h))
              (update_node n pre (e ∷ s) w.2 bs)
        | inr ne ↦ update_kids ks pre e s w.4 bs c (rw (==-ne f e ne) at h)
      ]
