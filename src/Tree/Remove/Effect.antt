-- ===== src/Tree/Remove/Effect.antt =====
-- What a node stands for after each change that a removal makes to it.
use rart_rs.Prelude.{
  ℕ, suc, ◌+◌, ◌≡◌, ◌≢◌, refl, Bool, true, false, not, ◌&&◌, Option, none, some, [], ◌∷◌, ◌++◌,
  ◌==◌, arith, sym, ◌∙◌, ap, eq_or_ne, inl, inr,
}
use rart_rs.Partials.{Bytes}
use rart_rs.Partials.Laws.{stripped, missing, ends, goes_on}
use rart_rs.Node.{
  Node, node, Kids, nil, cons, Kind, empty, node4, node16, node48, node256, is_leaf, seek, delete,
  set_child, prefix_of, num_children,
}
use rart_rs.Node.Valid.{IsValid, ValidKids, BeginsWith, Alive}
use rart_rs.Node.Lookup.{
  lookup_other_value, lookup, lookup_kids-seek, lookup_end, lookup_below, lookup_missing,
  lookup_leaf_ne, lookup_kids_absent, seek-delete_ne,
}
use rart_rs.Node.Size.{size, size_kids, size_kids-delete, size-trimmed, found}
use rart_rs.Node.Deletion.{
  trimmed, trimmed-IsValid, seek-delete, ValidKids-delete, num_children-delete,
}
use rart_rs.Node.Change.{
  lookup_kind, lookup-trimmed, lookup_kids-set_child, lookup_kids-set_child_ne,
  num_children-set_child, size_kids-set_child, ValidKids-set_child, Alive-set_child,
}
use rart_rs.Tree.Remove.{is_dead}

some_test : (a b : Bool) → (not a && (b && false)) ≡ false
some_test true b = refl
some_test false true = refl
some_test false false = refl

none_test : (a : Bool) (m : ℕ) → (not a && (suc m == 0 && true)) ≡ false
none_test true m = refl
none_test false m = ground arith

module _ {V : Type 0} where
  -- A key with another edge than the only one.
  seek-eq_none : (e k : ℕ) (ks : Kids V) → delete e ks ≡ nil → k ≢ e → seek k ks ≡ none
  unfolding seek
  seek-eq_none e k ks z h = sym (seek-delete_ne e ks k h) ∙ ap (λ js. seek k js) z

  -- `n'` is `n` with `now` at the key `rest`.
  pub record IsAssign (n n' : Node V) (rest : Bytes) (now : Option V) : Type 0 where
    pub valid : IsValid n'
    pub edge :
        (e : ℕ) → BeginsWith e (prefix_of n) → BeginsWith e rest → BeginsWith e (prefix_of n')
    pub here : lookup n' rest ≡ now
    pub elsewhere : (q : Bytes) → q ≢ rest → lookup n' q ≡ lookup n q
    pub counted : size n' + found (lookup n rest) ≡ size n + found now

  -- `n'` is `n` without the key `rest`.
  abbrev pub IsRemove : Node V → Node V → Bytes → Type 0
  IsRemove n n' rest = IsAssign n n' rest none

  -- `n` holds the key `rest` and no other.
  pub record IsOnly (n : Node V) (rest : Bytes) : Type 0 where
    pub here : found (lookup n rest) ≡ 1
    pub elsewhere : (q : Bytes) → q ≢ rest → lookup n q ≡ none
    pub counted : size n ≡ 1

  abbrev pub Leaves : Bool → Node V → Node V → Bytes → Type 0
  Leaves true n n' rest = IsOnly n rest
  Leaves false n n' rest = IsRemove n n' rest

  pub IsAssign-refl :
      (n : Node V) (rest : Bytes) (now : Option V)
      → IsValid n
      → lookup n rest ≡ now
      → IsAssign n n rest now
  IsAssign-refl n rest now v h = record {
    valid = v;
    edge = λ e b _. b;
    here = h;
    elsewhere = λ q _. refl;
    counted = rw h;
  }

  pub IsRemove-refl :
      (n : Node V) (rest : Bytes) → IsValid n → lookup n rest ≡ none → IsRemove n n rest
  IsRemove-refl n rest v h = IsAssign-refl n rest none v h

  pub is_dead_valid : (n : Node V) → IsValid n → is_dead n ≡ false
  unfolding is_dead num_children
  is_dead_valid (node p none empty ks) v = refl
  is_dead_valid (node p (some w) kind ks) v = rw (some_test (is_leaf kind) (num_children ks == 0))
  is_dead_valid (node p none kind nil) v = absurd v.1
  is_dead_valid (node p none kind (cons e n ks)) v = none_test (is_leaf kind) (num_children ks)

  trimmed_edge :
      (p : Bytes) (v : Option V) (kind : Kind) (ks : Kids V) (f : ℕ)
      → BeginsWith f p
      → BeginsWith f (prefix_of (trimmed p v kind ks))
  trimmed_edge [] v kind ks f b = absurd b
  trimmed_edge (x ∷ p) none node4 (cons e (node q u kind js) nil) f b = b
  trimmed_edge (x ∷ p) none node4 (cons e (node q u kind js) (cons e' n' ks)) f b = b
  trimmed_edge (x ∷ p) none node4 nil f b = b
  trimmed_edge (x ∷ p) (some v) node4 ks f b = b
  trimmed_edge (x ∷ p) none empty ks f b = b
  trimmed_edge (x ∷ p) (some v) empty ks f b = b
  trimmed_edge (x ∷ p) none node16 ks f b = b
  trimmed_edge (x ∷ p) (some v) node16 ks f b = b
  trimmed_edge (x ∷ p) none node48 ks f b = b
  trimmed_edge (x ∷ p) (some v) node48 ks f b = b
  trimmed_edge (x ∷ p) none node256 ks f b = b
  trimmed_edge (x ∷ p) (some v) node256 ks f b = b

  module _ (p : Bytes) (v : Option V) (kind : Kind) (ks : Kids V) (e : ℕ) (s : Bytes)
      (c : Node V) where
    -- The child is changed in place.
    pub IsAssign-child :
        (c' : Node V) (now : Option V)
        → seek e ks ≡ some c
        → BeginsWith e (prefix_of c)
        → IsValid (node p v kind ks)
        → IsAssign c c' (e ∷ s) now
        → IsAssign (node p v kind ks) (node p v kind (set_child e c' ks)) (p ++ e ∷ s) now
    unfolding size
    IsAssign-child c' now h b w i = record {
      valid = (
        omega (arith, num_children-set_child e c' ks),
        Alive-set_child e c c' v ks h,
        ValidKids-set_child e c' ks (i.edge e b refl) i.valid w.2,
        w.3,
      );
      edge = λ _ g _. g;
      here =
          rw
            (
              lookup_below v kind (set_child e c' ks) p e s,
              lookup_kids-set_child e c c' ks (e ∷ s) h,
            )
            i.here;
      elsewhere = λ q ne. elim (stripped p q) [
        | missing m ↦
            lookup_missing v kind (set_child e c' ks) p q m ∙ sym (lookup_missing v kind ks p q m)
        | ends m ↦ rw (m, lookup_end v kind (set_child e c' ks) p, lookup_end v kind ks p)
        | goes_on f t m ↦
            rw (m, lookup_below v kind (set_child e c' ks) p f t, lookup_below v kind ks p f t)
              (elim (eq_or_ne f e) [
                | inl same ↦
                    rw
                      (
                        same,
                        lookup_kids-set_child e c c' ks (e ∷ t) h,
                        lookup_kids-seek ks e (e ∷ t),
                        h,
                      )
                      (i.elsewhere (e ∷ t) (λ eq. ne (m ∙ rw (same, eq))))
                | inr other ↦ lookup_kids-set_child_ne e c' ks f (f ∷ t) other
              ])
      ];
      counted =
          rw (lookup_below v kind ks p e s, lookup_kids-seek ks e (e ∷ s), h)
            (omega (arith, i.counted, size_kids-set_child e c c' ks h));
    }

    pub IsRemove-child :
        (c' : Node V)
        → seek e ks ≡ some c
        → BeginsWith e (prefix_of c)
        → IsValid (node p v kind ks)
        → IsRemove c c' (e ∷ s)
        → IsRemove (node p v kind ks) (node p v kind (set_child e c' ks)) (p ++ e ∷ s)
    IsRemove-child c' h b w i = IsAssign-child c' none h b w i

    only_elsewhere :
        (q : Bytes)
        → q ≢ p ++ e ∷ s
        → seek e ks ≡ some c
        → IsOnly c (e ∷ s)
        → ValidKids ks
        → lookup (trimmed p v kind (delete e ks)) q ≡ lookup (node p v kind ks) q
    only_elsewhere q ne h o w =
        lookup-trimmed p v kind (delete e ks) q (ValidKids-delete e ks w) ∙ elim (stripped p q) [
          | missing m ↦
              lookup_missing v kind (delete e ks) p q m ∙ sym (lookup_missing v kind ks p q m)
          | ends m ↦ rw (m, lookup_end v kind (delete e ks) p, lookup_end v kind ks p)
          | goes_on f t m ↦
              rw
                (
                  m,
                  lookup_below v kind (delete e ks) p f t,
                  lookup_below v kind ks p f t,
                  lookup_kids-seek (delete e ks) f (f ∷ t),
                  lookup_kids-seek ks f (f ∷ t),
                )
                (elim (eq_or_ne f e) [
                  | inl same ↦
                      rw (same, seek-delete e ks w, h)
                        (sym (o.elsewhere (f ∷ t) (λ eq. ne (m ∙ ap (λ l. p ++ l) eq))))
                  | inr other ↦ rw (seek-delete_ne e ks f other)
                ])
        ]

    -- The child is deleted, and the node that is left holds something.
    pub IsRemove-delete :
        seek e ks ≡ some c
        → IsValid (node p v kind ks)
        → Alive v (delete e ks)
        → IsOnly c (e ∷ s)
        → IsRemove (node p v kind ks) (trimmed p v kind (delete e ks)) (p ++ e ∷ s)
    unfolding size
    IsRemove-delete h w a o = record {
      valid =
          trimmed-IsValid p v kind (delete e ks)
            (omega (arith, num_children-delete e c ks h), a, ValidKids-delete e ks w.2, w.3);
      edge = λ f b _. trimmed_edge p v kind (delete e ks) f b;
      here = rw (
        lookup-trimmed p v kind (delete e ks) (p ++ e ∷ s) (ValidKids-delete e ks w.2),
        lookup_below v kind (delete e ks) p e s,
        lookup_kids-seek (delete e ks) e (e ∷ s),
        seek-delete e ks w.2,
      );
      elsewhere = λ q ne. only_elsewhere q ne h o w.2;
      counted =
          rw
            (
              lookup_below v kind ks p e s,
              lookup_kids-seek ks e (e ∷ s),
              h,
              size-trimmed p v kind (delete e ks),
              o.here,
            )
            (omega (arith, o.counted, size_kids-delete e c ks h));
    }

    -- The child is deleted, and nothing is left.
    pub IsOnly-delete :
        seek e ks ≡ some c
        → delete e ks ≡ nil
        → IsOnly c (e ∷ s)
        → IsOnly (node p none kind ks) (p ++ e ∷ s)
    unfolding size
    IsOnly-delete h z o = record {
      here = rw (lookup_below none kind ks p e s, lookup_kids-seek ks e (e ∷ s), h) o.here;
      elsewhere = λ q ne. elim (stripped p q) [
        | missing m ↦ lookup_missing none kind ks p q m
        | ends m ↦ rw (m, lookup_end none kind ks p)
        | goes_on f t m ↦
            rw (m, lookup_below none kind ks p f t)
              (elim (eq_or_ne f e) [
                | inl same ↦
                    rw (lookup_kids-seek ks f (f ∷ t), same, h)
                      (o.elsewhere (f ∷ t) (λ eq. ne (m ∙ ap (λ l. p ++ l) eq)))
                | inr other ↦ lookup_kids_absent ks f (f ∷ t) (seek-eq_none e f ks z other)
              ])
      ];
      counted = omega (arith, o.counted, size_kids-delete e c ks h, ap size_kids z);
    }

  -- A node that gives its value away.
  pub IsOnly-value : (p : Bytes) (v : V) (kind : Kind) → IsOnly (node p (some v) kind nil) p
  unfolding size
  IsOnly-value p v kind = record {
    here = rw (lookup_end (some v) kind nil p);
    elsewhere = λ q ne. lookup_kind p (some v) kind empty nil q ∙ lookup_leaf_ne p v q ne;
    counted = refl;
  }

  pub IsAssign-value :
      (p : Bytes) (v w : Option V) (kind : Kind) (ks : Kids V)
      → IsValid (node p v kind ks)
      → Alive w ks
      → IsAssign (node p v kind ks) (node p w kind ks) p w
  unfolding size
  IsAssign-value p v w kind ks i a = record {
    valid = (i.0, a, i.2, i.3);
    edge = λ f b _. b;
    here = lookup_end w kind ks p;
    elsewhere = λ q ne. lookup_other_value p w v kind ks q ne;
    counted = rw (lookup_end v kind ks p) (omega arith);
  }

  pub IsRemove-value :
      (p : Bytes) (v : V) (kind : Kind) (e : ℕ) (n : Node V) (ks : Kids V)
      → IsValid (node p (some v) kind (cons e n ks))
      → IsRemove (node p (some v) kind (cons e n ks)) (node p none kind (cons e n ks)) p
  IsRemove-value p v kind e n ks w = IsAssign-value p (some v) none kind (cons e n ks) w tt
