-- ===== src/Tree/Update/Effect.antt =====
-- What a node stands for after each step of an update.
use rart_rs.Prelude.{
  ℕ, ◌≡◌, refl, Bool, true, Option, none, some, ◌∷◌, ◌++◌, arith, inl, inr, done, Run, subst,
}
use rart_rs.Partials.{Bytes}
use rart_rs.Node.{Node, node, Kids, nil, cons, Kind, seek, delete, set_child, num_children}
use rart_rs.Node.Valid.{IsValid}
use rart_rs.Node.Lookup.{lookup}
use rart_rs.Node.Deletion.{trimmed, delete_child_lem, seek-ValidChild}
use rart_rs.Node.Change.{seek-set_child, delete-set_child, num_children-set_child}
use rart_rs.Tree.Insert.Splits.{IsInsert, stored}
use rart_rs.Tree.Remove.Effect.{
  IsAssign, IsOnly, IsAssign-refl, IsAssign-child, IsAssign-value, IsRemove-delete, IsOnly-delete,
  IsOnly-value,
}
use rart_rs.Tree.Remove.Total.{Alive-or_empty}
use rart_rs.Tree.Update.{
  Callback, Result, ok, err, SlotUpdate, keep, insert, remove, Change, inserted, removed,
  remove_current, apply_occupied_update, fill, vacant_update, prune,
}
use rart_rs.Tree.Update.Answers.{
  after, change, vacant_after, vacant_change, occupied_after, occupied_change, prune-change,
  is_bare-IsValid, is_bare-trimmed, suc-ne,
}

module _ {V : Type 0} where
  pub IsAssign-insert :
      (n n' : Node V) (rest : Bytes) (value : V)
      → lookup n rest ≡ none
      → IsInsert n n' rest value true
      → IsAssign n n' rest (some value)
  IsAssign-insert n n' rest value h i = record {
    valid = i.valid;
    edge = i.edge;
    here = subst (λ o. lookup n' rest ≡ stored o value true) h i.here;
    elsewhere = i.elsewhere;
    counted = i.counted;
  }

  -- The place at which a vacant slot is filled.
  abbrev pub Places : (V → Run (Node V)) → Node V → Bytes → Type 0
  Places place n rest =
      (value : V) → (n' : Node V) × (place value ≡ done n') × IsInsert n n' rest value true

module _ {E V : Type 0} where
  -- What an update makes of a node: it stays, with `now` at the key, and reports `says`; or the key
  -- was all that it held, and its parent drops it.
  pub data Outcome (n n' : Node V) (rest : Bytes) (now : Option V) (says result : Result E Change)
      : Type 0 where
    stays : result ≡ says → IsAssign n n' rest now → Outcome n n' rest now says result
    drops :
        result ≡ ok remove_current
        → says ≡ ok removed
        → now ≡ none
        → IsOnly n rest
        → Outcome n n' rest now says result

  -- A run that ends in such an outcome.
  abbrev pub Ends :
      Run (Node V × Result E Change) → Node V → Bytes → Option V → Result E Change → Type 0
  Ends run n rest now says =
      (n' : Node V) × (result : Result E Change) × (run ≡ done (n', result))
      × Outcome n n' rest now says result

  pub fill_lem :
      (q : Result E (SlotUpdate V)) (n : Node V) (rest : Bytes) (place : V → Run (Node V))
      → IsValid n
      → lookup n rest ≡ none
      → Places place n rest
      → Ends (fill (vacant_update q) n place) n rest (vacant_after q) (vacant_change q)
  unfolding fill vacant_update
  fill_lem (err e) n rest place w h t = (n, err e, refl, stays refl (IsAssign-refl n rest none w h))
  fill_lem (ok keep) n rest place w h t = (n, _, refl, stays refl (IsAssign-refl n rest none w h))
  fill_lem (ok remove) n rest place w h t = (n, _, refl, stays refl (IsAssign-refl n rest none w h))
  fill_lem (ok (insert v)) n rest place w h t =
      let (n', eq, i) = t v in
      (n', ok inserted, rw eq, stays refl (IsAssign-insert n n' rest v h i))

  pub occupied_lem :
      (rollback : Bool) (p : Bytes) (old : V) (kind : Kind) (ks : Kids V)
      (q : V × Result E (SlotUpdate V))
      → IsValid (node p (some old) kind ks)
      → Ends
          (done (apply_occupied_update rollback (node p (some old) kind ks) old q))
          (node p (some old) kind ks)
          p
          (occupied_after rollback old q)
          (occupied_change q)
  unfolding apply_occupied_update num_children
  occupied_lem rollback p old kind ks (v, err e) w =
      (_, _, refl, stays refl (IsAssign-value p (some old) (some _) kind ks w tt))
  occupied_lem rollback p old kind ks (v, ok keep) w =
      (_, _, refl, stays refl (IsAssign-value p (some old) (some v) kind ks w tt))
  occupied_lem rollback p old kind ks (v, ok (insert x)) w =
      (_, _, refl, stays refl (IsAssign-value p (some old) (some x) kind ks w tt))
  occupied_lem rollback p old kind nil (v, ok remove) w =
      (_, _, refl, drops refl refl refl (IsOnly-value p old kind))
  occupied_lem rollback p old kind (cons e n ks) (v, ok remove) w = (
    _,
    ok removed,
    rw (suc-ne (num_children ks)),
    stays refl (IsAssign-value p (some old) none kind (cons e n ks) w tt),
  )

  module _ (p : Bytes) (v : Option V) (kind : Kind) (ks : Kids V) (e : ℕ) (s : Bytes)
      (w : IsValid (node p v kind ks)) (c c' : Node V) (h : seek e ks ≡ some c) where
    -- The child was dropped.
    pruned_drop :
        IsOnly c (e ∷ s)
        → Ends
            (prune {E = E} e (node p v kind (set_child e c' ks)) (ok remove_current))
            (node p v kind ks)
            (p ++ e ∷ s)
            none
            (ok removed)
    unfolding prune
    pruned_drop o =
        rw
          (
            delete_child_lem e c' p v kind (set_child e c' ks) (seek-set_child e c c' ks h)
                (omega (arith, num_children-set_child e c' ks, w.0)),
            delete-set_child e c' ks,
          )
          (elim (Alive-or_empty v (delete e ks)) [
            | inl a ↦
                let r = IsRemove-delete p v kind ks e s c h w a o in
                (_, _, rw (is_bare-IsValid (trimmed p v kind (delete e ks)) r.valid), stays refl r)
            | inr (z, z') ↦
                rw (z, z', is_bare-trimmed V p kind)
                  (_, _, refl, drops refl refl refl (IsOnly-delete p v kind ks e s c h z' o))
          ])

    -- The parent of a child that was updated.
    pub pruned :
        (rollback : Bool) (u : Callback E V) (o : Option V) (result : Result E Change)
        → Outcome c c' (e ∷ s) (after rollback u o) (change u o) result
        → Ends
            (prune e (node p v kind (set_child e c' ks)) result)
            (node p v kind ks)
            (p ++ e ∷ s)
            (after rollback u o)
            (change u o)
    pruned rollback u o result (stays z i) = (
      node p v kind (set_child e c' ks),
      change u o,
      rw (z, prune-change u e (node p v kind (set_child e c' ks)) o),
      stays refl (
          IsAssign-child p v kind ks e s c c' (after rollback u o) h
            (seek-ValidChild e c ks h w.2).1 w i),
    )
    pruned rollback u o result (drops z z' z'' i) = rw (z, z', z'') (pruned_drop i)
