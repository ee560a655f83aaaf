-- ===== src/Tree/Insert/Total.antt =====
-- The induction over the tree: on a valid node `insert_recurse` ends without a panic, with the
-- outcome and the node that the specification asks for.
use rart_rs.Prelude.{
  ℕ, ◌≡◌, ◌≢◌, refl, Bool, true, false, Option, none, some, [], ◌∷◌, ◌++◌, append_assoc,
  if◌then◌else◌, done, arith, length, length-append, ==-ne, eq_or_ne, ◌⊎◌, inl, inr,
}
use rart_rs.Partials.{Bytes}
use rart_rs.Partials.Laws.{align, same, below, above, fork, strip-above, strip-fork}
use rart_rs.Node.{
  Node, node, Kids, nil, cons, Kind, empty, node4, add, add_child, seek, num_children, capacity,
  is_leaf,
}
use rart_rs.Node.Valid.{IsValid, ValidKids, IsBytes, IsBytes-right, Fits, Alive}
use rart_rs.Node.Children.{add_child_lem, leaf-IsValid, kind_for}
use rart_rs.Node.Lookup.{
  kids_here, kids_there, lookup, lookup_kids, lookup_end, lookup_below, lookup_missing,
  lookup_kids_absent,
}
use rart_rs.Tree.{insert_recurse, insert_child, settle}
use rart_rs.Tree.Insert.Steps.{
  insert_here, insert_above, insert_fork, insert_below, append_leaf_below, split_above_lem,
  split_fork_lem, insert_child_here, insert_child_there,
}
use rart_rs.Tree.Insert.Splits.{
  IsInsert, outcome, IsInsert-above, IsInsert-fork, IsInsert-leaf, forked,
}
use rart_rs.Tree.Insert.Effect.{
  IsInsertKids, put_node, put_value_lem, IsInsert-put, IsInsert-child, IsInsertKids-here,
  IsInsertKids-there,
}

pub if_same {ℓ} : {A : Type ℓ} {x : A} (b : Bool) → (if b then x else x) ≡ x
if_same true = refl
if_same false = refl

module _ {V : Type 0} where
  -- A node with children is no leaf.
  not_leaf :
      (kind : Kind) (ks ks' : Kids V)
      → Fits kind ks
      → num_children ks' ≡ num_children ks
      → Alive none ks'
      → is_leaf kind ≡ false
  unfolding capacity num_children
  not_leaf empty ks nil f w a = absurd a
  not_leaf empty ks (cons e n ks') f w a = absurd (omega arith)
  not_leaf kind ks ks' f w a = refl

  abbrev pub Inserts : Node V → Bytes → Bytes → V → Bool → Type 0
  Inserts n pre rest value replace =
      (n' : Node V) × (insert_recurse n (pre ++ rest) value (length pre) replace
        ≡ done (n', outcome (lookup n rest) value replace))
      × IsInsert n n' rest value replace

  abbrev InsertsChild : Kids V → Bytes → ℕ → Bytes → V → Bool → Type 0
  InsertsChild ks pre e s value replace =
      ((seek e ks ≡ none)
        × (insert_child ks e (pre ++ e ∷ s) value (length pre) replace ≡ done none))
      ⊎ ((ks' : Kids V) × (insert_child ks e (pre ++ e ∷ s) value (length pre) replace
            ≡ done (some (ks', outcome (lookup_kids ks e (e ∷ s)) value replace)))
          × IsInsertKids ks ks' e (e ∷ s) value replace)

  module _ (old : Option V) (kind : Kind) (ks : Kids V) (pre : Bytes) (value : V)
      (replace : Bool) where
    Inserts-same :
        (p : Bytes)
        → IsValid (node p old kind ks)
        → Inserts (node p old kind ks) pre p value replace
    Inserts-same p v = (
      put_node p old kind ks value replace,
      rw (
        insert_here old kind ks pre value replace p,
        put_value_lem p old kind ks value replace,
        lookup_end old kind ks p,
      ),
      IsInsert-put p old kind ks value replace v,
    )

    Inserts-above :
        (rest : Bytes) (e : ℕ) (q : Bytes)
        → IsValid (node (rest ++ e ∷ q) old kind ks)
        → Inserts (node (rest ++ e ∷ q) old kind ks) pre rest value replace
    unfolding add_child
    Inserts-above rest e q v = (
      node rest (some value) node4 (cons e (node (e ∷ q) old kind ks) nil),
      rw (
        insert_above old kind ks pre value replace rest e q,
        split_above_lem old kind ks pre value replace rest e q,
        lookup_missing old kind ks (rest ++ e ∷ q) rest (strip-above rest e q),
      ),
      IsInsert-above old kind ks value replace rest e q v,
    )

    Inserts-fork :
        (c : Bytes) (a b : ℕ) (q s : Bytes)
        → a ≢ b
        → IsValid (node (c ++ a ∷ q) old kind ks)
        → IsBytes (b ∷ s)
        → Inserts (node (c ++ a ∷ q) old kind ks) pre (c ++ b ∷ s) value replace
    unfolding add_child
    Inserts-fork c a b q s h v bs = (
      forked old kind ks value replace c a b q s,
      rw (
        insert_fork old kind ks pre value replace c a b q s h,
        split_fork_lem old kind ks pre value replace c a b q s,
        lookup_missing old kind ks (c ++ a ∷ q) (c ++ b ∷ s) (strip-fork c a b q s h),
      ),
      IsInsert-fork old kind ks value replace c a b q s h v bs,
    )

    Inserts-below :
        (p : Bytes) (e : ℕ) (s : Bytes)
        → IsValid (node p old kind ks)
        → IsBytes (e ∷ s)
        → InsertsChild ks (pre ++ p) e s value replace
        → Inserts (node p old kind ks) pre (p ++ e ∷ s) value replace
    unfolding settle
    Inserts-below p e s v bs (inl (new_edge, stops)) =
        let added =
          add_child_lem e (node (e ∷ s) (some value) empty nil) p old kind ks
            (bs.0, refl, leaf-IsValid (e ∷ s) value bs) new_edge v.0 v.2 in
        (
          node p old (kind_for kind (num_children ks))
              (add e (node (e ∷ s) (some value) empty nil) ks),
          rw
              (
                insert_below old kind ks pre value replace p e s,
                append_leaf_below old kind ks pre value replace p e s,
                added.0,
                rw (append_assoc, length-append pre p) at stops,
                lookup_below old kind ks p e s,
                lookup_kids_absent ks e (e ∷ s) new_edge,
              )
              (if_same (is_leaf kind)),
          IsInsert-leaf old kind ks value replace p e s new_edge v bs,
        )
    Inserts-below p e s v bs (inr (ks', goes, i)) = (
      node p old kind ks',
      rw (
        insert_below old kind ks pre value replace p e s,
        lookup_below old kind ks p e s,
        not_leaf kind ks ks' v.0 i.width (i.alive none),
        rw (append_assoc, length-append pre p) at goes,
      ),
      IsInsert-child p old kind ks ks' e s value replace v i,
    )

  child_here :
      (e : ℕ) (n : Node V) (ks : Kids V) (pre s : Bytes) (value : V) (replace : Bool)
      → ValidKids (cons e n ks)
      → Inserts n pre (e ∷ s) value replace
      → InsertsChild (cons e n ks) pre e s value replace
  child_here e n ks pre s value replace v (n', eq, i) = inr (
    cons e n' ks,
    rw (
      insert_child_here value (pre ++ e ∷ s) (length pre) replace e n ks,
      eq,
      kids_here e n ks (e ∷ s),
    ),
    IsInsertKids-here e n n' ks s value replace v i,
  )

  child_there :
      (f : ℕ) (n : Node V) (ks : Kids V) (pre : Bytes) (e : ℕ) (s : Bytes) (value : V)
      (replace : Bool)
      → f ≢ e
      → ValidKids (cons f n ks)
      → InsertsChild ks pre e s value replace
      → InsertsChild (cons f n ks) pre e s value replace
  unfolding seek
  child_there f n ks pre e s value replace ne v (inl (new_edge, stops)) = inl (
    rw (==-ne f e ne) new_edge,
    rw (insert_child_there value (pre ++ e ∷ s) (length pre) replace f n ks e ne, stops),
  )
  child_there f n ks pre e s value replace ne v (inr (ks', goes, i)) = inr (
    cons f n ks',
    rw (
      insert_child_there value (pre ++ e ∷ s) (length pre) replace f n ks e ne,
      goes,
      kids_there f n ks e (e ∷ s) ne,
    ),
    IsInsertKids-there f n ks ks' e (e ∷ s) value replace ne v i,
  )

  mutual
    unfolding insert_recurse seek

    insert_node :
        (n : Node V) (pre rest : Bytes) (value : V) (replace : Bool)
        → IsValid n
        → IsBytes rest
        → Inserts n pre rest value replace
    insert_node (node p old kind ks) pre rest value replace v bs = elim (align p rest) [
      | same h ↦ rw h (Inserts-same old kind ks pre value replace p v)
      | above e q h ↦ rw h (Inserts-above old kind ks pre value replace rest e q (rw h at v))
      | fork c a b q s ne h h' ↦
          rw (h, h')
            (Inserts-fork old kind ks pre value replace c a b q s ne (rw h at v)
              (IsBytes-right c (b ∷ s) (rw h' at bs)))
      | below e s h ↦ rw h (
          Inserts-below old kind ks pre value replace p e s v (IsBytes-right p (e ∷ s) (rw h at bs))
            (insert_kids ks (pre ++ p) e s value replace v.2
              (IsBytes-right p (e ∷ s) (rw h at bs))))
    ]

    insert_kids :
        (ks : Kids V) (pre : Bytes) (e : ℕ) (s : Bytes) (value : V) (replace : Bool)
        → ValidKids ks
        → IsBytes (e ∷ s)
        → InsertsChild ks pre e s value replace
    insert_kids nil pre e s value replace v bs = inl (refl, refl)
    insert_kids (cons f n ks) pre e s value replace v bs = elim (eq_or_ne f e) [
      | inl t ↦ rw t (
          child_here e n ks pre s value replace (rw t at v)
            (insert_node n pre (e ∷ s) value replace v.2 bs))
      | inr ne ↦
          child_there f n ks pre e s value replace ne v
            (insert_kids ks pre e s value replace v.4 bs)
    ]

  -- On a valid node `insert_recurse` ends without a panic. It reports whether the key was vacant,
  -- its value replaced or left alone, and the node that it leaves is valid, holds one value more if
  -- the key was vacant, and reads as before but for the key.
  pub insert_recurse_total :
      (n : Node V) (key : Bytes) (value : V) (replace : Bool)
      → IsValid n
      → IsBytes key
      → (n' : Node V) × (insert_recurse n key value 0 replace
          ≡ done (n', outcome (lookup n key) value replace))
        × IsInsert n n' key value replace
  insert_recurse_total n key value replace v b = insert_node n [] key value replace v b
