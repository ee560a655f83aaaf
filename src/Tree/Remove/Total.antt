-- ===== src/Tree/Remove/Total.antt =====
-- `remove_from` on a valid node: it does not panic, and its result is the node without the key.
use rart_rs.Prelude.{
  ◌≤◌, ℕ, ◌≡◌, ◌≢◌, refl, Bool, true, false, ◌&&◌, Option, none, some, ◌∷◌, ◌++◌, arith, ap,
  eq_or_ne, inl, inr, ◌⊎◌, is_some, done, length, ==-ne, ==_refl, Bool-cases, subst,
}
use rart_rs.Partials.{Bytes}
use rart_rs.Partials.Laws.{stripped, missing, ends, goes_on, strip}
use rart_rs.Node.{
  Node, node, Kids, nil, cons, Kind, empty, node4, node16, node48, node256, is_leaf, seek, delete,
  set_child, num_children, capacity,
}
use rart_rs.Node.Valid.{IsValid, ValidKids, Fits, Alive}
use rart_rs.Node.Lookup.{
  lookup, lookup_kids, lookup_kids-seek, lookup_end, lookup_below, lookup_missing,
  lookup_kids_absent,
}
use rart_rs.Node.Size.{found}
use rart_rs.Node.Deletion.{trimmed, delete_child_lem, seek-ValidChild, num_children-delete}
use rart_rs.Node.Change.{seek-set_child, delete-set_child, num_children-set_child}
use rart_rs.Tree.Remove.{Removing, is_dead, take_child, take_value, remove_from, remove_child}
use rart_rs.Tree.Remove.Effect.{
  IsOnly, Leaves, IsRemove-refl, is_dead_valid, IsRemove-child, IsRemove-delete, IsOnly-delete,
  IsOnly-value, IsRemove-value,
}
use rart_rs.Tree.Remove.Steps.{
  trimmed_dead, remove_missing, remove_here, remove_below, remove_child_here, remove_child_there,
}

module _ {V : Type 0} where
  abbrev pub RemovesFrom : Node V → Bytes → Bytes → Type 0
  RemovesFrom n pre rest =
      (n' : Node V) × (gone : Bool) × (remove_from n (pre ++ rest) (length pre)
        ≡ done (n', lookup n rest, gone))
      × Leaves gone n n' rest

  -- What the search for the child at `e` comes back with.
  pub data Visit (ks : Kids V) (e : ℕ) (rest : Bytes) : Option (Removing V) → Type 0 where
    absent : seek e ks ≡ none → Visit ks e rest none
    visited :
        (c c' : Node V) (gone : Bool)
        → seek e ks ≡ some c
        → Leaves gone c c' rest
        → Visit ks e rest (some (c', lookup c rest, gone))

  abbrev pub RemovesChild : Kids V → Bytes → ℕ → Bytes → Type 0
  RemovesChild ks pre e s =
      (r : Option (Removing V)) × (remove_child ks e (pre ++ e ∷ s) (length pre) ≡ done r)
      × Visit ks e (e ∷ s) r

  abbrev pub Takes : Node V → ℕ → Option (Removing V) → Bytes → Option V → Type 0
  Takes n e r rest removed =
      (n' : Node V) × (take_child e n r ≡ done (n', removed)) × Leaves (is_dead n') n n' rest

  pub Alive-or_empty : (v : Option V) (ks : Kids V) → Alive v ks ⊎ ((v ≡ none) × (ks ≡ nil))
  Alive-or_empty none nil = inr (refl, refl)
  Alive-or_empty none (cons e n ks) = inl tt
  Alive-or_empty (some v) ks = inl tt

  removed_and : (o : Option V) (b : Bool) → (b ≡ true → found o ≡ 1) → (is_some o && b) ≡ b
  removed_and (some x) b h = refl
  removed_and none true h = absurd (omega (arith, h refl))
  removed_and none false h = refl

  module _ (p : Bytes) (v : Option V) (kind : Kind) (ks : Kids V) (e : ℕ) (s : Bytes)
      (w : IsValid (node p v kind ks)) where
    has_kind : (c : Node V) → seek e ks ≡ some c → kind ≢ empty
    unfolding capacity
    has_kind c h z =
        omega (arith, num_children-delete e c ks h, subst (λ k. num_children ks ≤ capacity k) z w.0)

    take_gone :
        (c c' : Node V)
        → seek e ks ≡ some c
        → IsOnly c (e ∷ s)
        → Takes
            (node p v kind ks)
            e
            (some (c', lookup c (e ∷ s), true))
            (p ++ e ∷ s)
            (lookup c (e ∷ s))
    unfolding take_child
    take_gone c c' h o = (
      trimmed p v kind (delete e ks),
      rw (
        delete_child_lem e c' p v kind (set_child e c' ks) (seek-set_child e c c' ks h)
            (omega (arith, num_children-set_child e c' ks, w.0)),
        delete-set_child e c' ks,
      ),
      elim (Alive-or_empty v (delete e ks)) [
        | inl a ↦
            let r = IsRemove-delete p v kind ks e s c h w a o in
            rw (is_dead_valid (trimmed p v kind (delete e ks)) r.valid) r
        | inr (z, z') ↦
            rw (z, z', trimmed_dead V p kind (has_kind c h))
              (IsOnly-delete p v kind ks e s c h z' o)
      ],
    )

    pub take-Visit :
        (r : Option (Removing V))
        → Visit ks e (e ∷ s) r
        → Takes (node p v kind ks) e r (p ++ e ∷ s) (lookup_kids ks e (e ∷ s))
    unfolding take_child
    take-Visit none (absent h) =
        let none_there : lookup_kids ks e (e ∷ s) ≡ none = lookup_kids_absent ks e (e ∷ s) h in
        (
          node p v kind ks,
          rw none_there,
          rw (is_dead_valid (node p v kind ks) w) (
              IsRemove-refl (node p v kind ks) (p ++ e ∷ s) w
                (rw (lookup_below v kind ks p e s) none_there)),
        )
    take-Visit _ (visited c c' true h o) =
        rw (lookup_kids-seek ks e (e ∷ s), h) (take_gone c c' h o)
    take-Visit _ (visited c c' false h i) =
        let r = IsRemove-child p v kind ks e s c c' h (seek-ValidChild e c ks h w.2).1 w i in
        (
          node p v kind (set_child e c' ks),
          rw (lookup_kids-seek ks e (e ∷ s), h),
          rw (is_dead_valid (node p v kind (set_child e c' ks)) r.valid) r,
        )

    -- A node that is dead after a removal has lost a value.
    removed_dead :
        (n' : Node V)
        → Leaves (is_dead n') (node p v kind ks) n' (p ++ e ∷ s)
        → (is_some (lookup_kids ks e (e ∷ s)) && is_dead n') ≡ is_dead n'
    removed_dead n' l = removed_and (lookup_kids ks e (e ∷ s)) (is_dead n') (λ d.
        rw (← lookup_below v kind ks p e s)
          (subst (λ b. Leaves b (node p v kind ks) n' (p ++ e ∷ s)) d l).here)

    removes_below :
        (pre : Bytes)
        → is_leaf kind ≡ false
        → RemovesChild ks (pre ++ p) e s
        → RemovesFrom (node p v kind ks) pre (p ++ e ∷ s)
    removes_below pre k (r, eq, visit) =
        let (n', eq', l) = take-Visit r visit in
        (
          n',
          is_dead n',
          rw (
            remove_below v kind ks pre p e s,
            k,
            eq,
            eq',
            removed_dead n' l,
            lookup_below v kind ks p e s,
          ),
          l,
        )

  -- A leaf has no children to look for.
  pub leaf_childless : (kind : Kind) (ks : Kids V) → Fits kind ks → is_leaf kind ≡ true → ks ≡ nil
  unfolding capacity num_children
  leaf_childless empty nil f h = refl
  leaf_childless empty (cons e n ks) f h = absurd (omega arith)
  leaf_childless node4 ks f h = cc
  leaf_childless node16 ks f h = cc
  leaf_childless node48 ks f h = cc
  leaf_childless node256 ks f h = cc

  removes_leaf :
      (p : Bytes) (v : Option V) (kind : Kind) (ks : Kids V) (pre : Bytes) (e : ℕ) (s : Bytes)
      → IsValid (node p v kind ks)
      → is_leaf kind ≡ true
      → RemovesFrom (node p v kind ks) pre (p ++ e ∷ s)
  unfolding seek
  removes_leaf p v kind ks pre e s w k =
      let gone : lookup_kids ks e (e ∷ s) ≡ none =
        lookup_kids_absent ks e (e ∷ s) (ap (λ js. seek e js) (leaf_childless kind ks w.0 k)) in
      (
        node p v kind ks,
        false,
        rw (remove_below v kind ks pre p e s, k, lookup_below v kind ks p e s, gone),
        IsRemove-refl (node p v kind ks) (p ++ e ∷ s) w (rw (lookup_below v kind ks p e s) gone),
      )

  removes_missing :
      (p : Bytes) (v : Option V) (kind : Kind) (ks : Kids V) (pre rest : Bytes)
      → IsValid (node p v kind ks)
      → strip p rest ≡ none
      → RemovesFrom (node p v kind ks) pre rest
  removes_missing p v kind ks pre rest w h = (
    node p v kind ks,
    false,
    rw (remove_missing v kind ks pre p rest h, lookup_missing v kind ks p rest h),
    IsRemove-refl (node p v kind ks) rest w (lookup_missing v kind ks p rest h),
  )

  -- The value of the node itself is taken.
  removes_value :
      (p : Bytes) (v : Option V) (kind : Kind) (ks : Kids V)
      → IsValid (node p v kind ks)
      → (n' : Node V) × (gone : Bool) × (take_value (node p v kind ks) ≡ done (n', v, gone))
        × Leaves gone (node p v kind ks) n' p
  unfolding take_value num_children capacity
  removes_value p (some v) empty nil w =
      (node p (some v) empty nil, true, refl, IsOnly-value p v empty)
  removes_value p (some v) node4 nil w = (node p none node4 nil, true, refl, IsOnly-value p v node4)
  removes_value p (some v) node16 nil w =
      (node p none node16 nil, true, refl, IsOnly-value p v node16)
  removes_value p (some v) node48 nil w =
      (node p none node48 nil, true, refl, IsOnly-value p v node48)
  removes_value p (some v) node256 nil w =
      (node p none node256 nil, true, refl, IsOnly-value p v node256)
  removes_value p (some v) empty (cons e n ks) w = absurd (omega (arith, w.0))
  removes_value p (some v) kind (cons e n ks) w =
      (node p none kind (cons e n ks), false, ground arith, IsRemove-value p v kind e n ks w)
  removes_value p none kind nil w = absurd w.1
  removes_value p none empty (cons e n ks) w = absurd (omega (arith, w.0))
  removes_value p none kind (cons e n ks) w = (
    node p none kind (cons e n ks),
    false,
    refl,
    IsRemove-refl (node p none kind (cons e n ks)) p w (lookup_end none kind (cons e n ks) p),
  )

  removes_same :
      (p : Bytes) (v : Option V) (kind : Kind) (ks : Kids V) (pre : Bytes)
      → IsValid (node p v kind ks)
      → RemovesFrom (node p v kind ks) pre p
  removes_same p v kind ks pre w =
      let (n', gone, eq, l) = removes_value p v kind ks w in
      (n', gone, rw (remove_here v kind ks pre p, lookup_end v kind ks p) eq, l)

  child_here :
      (e : ℕ) (n : Node V) (ks : Kids V) (pre s : Bytes)
      → RemovesFrom n pre (e ∷ s)
      → RemovesChild (cons e n ks) pre e s
  unfolding seek
  child_here e n ks pre s (n', gone, eq, l) = (
    some (n', lookup n (e ∷ s), gone),
    rw (remove_child_here (pre ++ e ∷ s) (length pre) e n ks, eq),
    visited n n' gone (rw (==_refl e)) l,
  )

  Visit-tail :
      (f : ℕ) (n : Node V) (ks : Kids V) (e : ℕ) (rest : Bytes) (r : Option (Removing V))
      → f ≢ e
      → Visit ks e rest r
      → Visit (cons f n ks) e rest r
  unfolding seek
  Visit-tail f n ks e rest none ne (absent h) = absent (rw (==-ne f e ne) h)
  Visit-tail f n ks e rest _ ne (visited c c' gone h l) = visited c c' gone (rw (==-ne f e ne) h) l

  child_there :
      (f : ℕ) (n : Node V) (ks : Kids V) (pre : Bytes) (e : ℕ) (s : Bytes)
      → f ≢ e
      → RemovesChild ks pre e s
      → RemovesChild (cons f n ks) pre e s
  child_there f n ks pre e s ne (r, eq, visit) = (
    r,
    rw (remove_child_there (pre ++ e ∷ s) (length pre) f n ks e ne, eq),
    Visit-tail f n ks e (e ∷ s) r ne visit,
  )

  mutual
    unfolding remove_from seek

    remove_node : (n : Node V) (pre rest : Bytes) → IsValid n → RemovesFrom n pre rest
    remove_node (node p v kind ks) pre rest w = elim (stripped p rest) [
      | missing h ↦ removes_missing p v kind ks pre rest w h
      | ends h ↦ rw h (removes_same p v kind ks pre w)
      | goes_on e s h ↦ rw h (elim (Bool-cases (is_leaf kind)) [
        | inl leaf ↦ removes_leaf p v kind ks pre e s w leaf
        | inr inner ↦ removes_below p v kind ks e s w pre inner (remove_kids ks (pre ++ p) e s w.2)
      ])
    ]

    pub remove_kids :
        (ks : Kids V) (pre : Bytes) (e : ℕ) (s : Bytes) → ValidKids ks → RemovesChild ks pre e s
    remove_kids nil pre e s w = (none, refl, absent refl)
    remove_kids (cons f n ks) pre e s w = elim (eq_or_ne f e) [
      | inl t ↦ rw t (child_here e n ks pre s (remove_node n pre (e ∷ s) w.2))
      | inr ne ↦ child_there f n ks pre e s ne (remove_kids ks pre e s w.4)
    ]
