-- ===== src/Tree/Insert/Effect.antt =====
-- `insert_recurse` on a valid node: it does not panic, and its result is the node with the value
-- stored at the key.
use rart_rs.Prelude.{
  ℕ, suc, ◌+◌, ◌≡◌, ◌≢◌, refl, Bool, true, false, Option, none, some, ◌∷◌, ◌++◌, arith, sym, ◌∙◌,
  ap, eq_or_ne, inl, inr,
}
use rart_rs.Partials.{Bytes}
use rart_rs.Partials.Laws.{stripped, missing, ends, goes_on}
use rart_rs.Node.{Node, node, Kids, cons, Kind, num_children}
use rart_rs.Node.Valid.{IsValid, ValidKids, Alive, Above}
use rart_rs.Node.Lookup.{
  lookup_other_value, kids_here, kids_there, lookup_kids, lookup_end, lookup_below, lookup_missing,
}
use rart_rs.Node.Size.{size, size_kids, found}
use rart_rs.Tree.{put_value}
use rart_rs.Tree.Insert.Splits.{IsInsert, stored, outcome}

module _ {V : Type 0} where
  -- The same of the children, when the child at the edge `e` takes the key.
  pub record IsInsertKids (ks ks' : Kids V) (e : ℕ) (rest : Bytes) (value : V) (replace : Bool)
      : Type 0 where
    pub valid : ValidKids ks'
    pub above : (lo : ℕ) → Above lo ks → Above lo ks'
    pub alive : (v : Option V) → Alive v ks'
    pub width : num_children ks' ≡ num_children ks
    pub here : lookup_kids ks' e rest ≡ stored (lookup_kids ks e rest) value replace
    pub elsewhere :
        (k : ℕ) (r : Bytes) → (k ≡ e → r ≢ rest) → lookup_kids ks' k r ≡ lookup_kids ks k r
    pub counted : size_kids ks' + found (lookup_kids ks e rest) ≡ size_kids ks + 1

  -- The node that `put_value` returns.
  abbrev pub put_node : Bytes → Option V → Kind → Kids V → V → Bool → Node V
  put_node p old kind ks value replace = node p (stored old value replace) kind ks

  pub put_value_lem :
      (p : Bytes) (old : Option V) (kind : Kind) (ks : Kids V) (value : V) (replace : Bool)
      → put_value (node p old kind ks) value replace
        ≡ (put_node p old kind ks value replace, outcome old value replace)
  unfolding put_value
  put_value_lem p none kind ks value true = refl
  put_value_lem p none kind ks value false = refl
  put_value_lem p (some old) kind ks value true = refl
  put_value_lem p (some old) kind ks value false = refl

  stored-Alive :
      (old : Option V) (value : V) (replace : Bool) (ks : Kids V)
      → Alive (stored old value replace) ks
  stored-Alive none value replace ks = tt
  stored-Alive (some old) value true ks = tt
  stored-Alive (some old) value false ks = tt

  pub stored-found :
      (old : Option V) (value : V) (replace : Bool) → found (stored old value replace) ≡ 1
  stored-found none value replace = refl
  stored-found (some old) value true = refl
  stored-found (some old) value false = refl

  pub IsInsert-put :
      (p : Bytes) (old : Option V) (kind : Kind) (ks : Kids V) (value : V) (replace : Bool)
      → IsValid (node p old kind ks)
      → IsInsert (node p old kind ks) (put_node p old kind ks value replace) p value replace
  unfolding size
  IsInsert-put p old kind ks value replace v = record {
    valid = (v.0, stored-Alive old value replace ks, v.2, v.3);
    edge = λ e b c. b;
    here = rw (lookup_end old kind ks p, lookup_end (stored old value replace) kind ks p);
    elsewhere = λ r h. lookup_other_value p (stored old value replace) old kind ks r h;
    counted = rw (lookup_end old kind ks p) (omega (arith, stored-found old value replace));
  }

  -- The child at the edge took the key.
  pub IsInsert-child :
      (p : Bytes) (old : Option V) (kind : Kind) (ks ks' : Kids V) (e : ℕ) (s : Bytes) (value : V)
      (replace : Bool)
      → IsValid (node p old kind ks)
      → IsInsertKids ks ks' e (e ∷ s) value replace
      → IsInsert (node p old kind ks) (node p old kind ks') (p ++ e ∷ s) value replace
  unfolding size
  IsInsert-child p old kind ks ks' e s value replace v i = record {
    valid = (omega (arith, i.width), i.alive old, i.valid, v.3);
    edge = λ f b c. b;
    here = rw (lookup_below old kind ks p e s, lookup_below old kind ks' p e s) i.here;
    elsewhere = λ r h. elim (stripped p r) [
      | missing m ↦ lookup_missing old kind ks' p r m ∙ sym (lookup_missing old kind ks p r m)
      | ends m ↦ rw (m, lookup_end old kind ks' p, lookup_end old kind ks p)
      | goes_on f t m ↦
          rw (m, lookup_below old kind ks' p f t, lookup_below old kind ks p f t)
            (i.elsewhere f (f ∷ t) (λ _ q. h (m ∙ ap (λ l. p ++ l) q)))
    ];
    counted = rw (lookup_below old kind ks p e s) (omega (arith, i.counted));
  }

  cons-Alive : (e : ℕ) (n : Node V) (ks : Kids V) (v : Option V) → Alive v (cons e n ks)
  cons-Alive e n ks none = tt
  cons-Alive e n ks (some v) = tt

  pub IsInsertKids-here :
      (e : ℕ) (n n' : Node V) (ks : Kids V) (s : Bytes) (value : V) (replace : Bool)
      → ValidKids (cons e n ks)
      → IsInsert n n' (e ∷ s) value replace
      → IsInsertKids (cons e n ks) (cons e n' ks) e (e ∷ s) value replace
  unfolding size num_children
  IsInsertKids-here e n n' ks s value replace v i = record {
    valid = (v.0, i.edge e v.1 refl, i.valid, v.3, v.4);
    above = λ lo a. a;
    alive = cons-Alive e n' ks;
    width = refl;
    here = rw (kids_here e n ks (e ∷ s), kids_here e n' ks (e ∷ s)) i.here;
    elsewhere = λ k r h. elim (eq_or_ne e k) [
      | inl t ↦ rw (← t, kids_here e n ks r, kids_here e n' ks r) (i.elsewhere r (h (sym t)))
      | inr f ↦ rw (kids_there e n ks k r f, kids_there e n' ks k r f)
    ];
    counted = rw (kids_here e n ks (e ∷ s)) (omega (arith, i.counted));
  }

  pub IsInsertKids-there :
      (f : ℕ) (n : Node V) (ks ks' : Kids V) (e : ℕ) (rest : Bytes) (value : V) (replace : Bool)
      → f ≢ e
      → ValidKids (cons f n ks)
      → IsInsertKids ks ks' e rest value replace
      → IsInsertKids (cons f n ks) (cons f n ks') e rest value replace
  unfolding size num_children
  IsInsertKids-there f n ks ks' e rest value replace ne v i = record {
    valid = (v.0, v.1, v.2, i.above f v.3, i.valid);
    above = λ lo a. (a.0, i.above lo a.1);
    alive = cons-Alive f n ks';
    width = ap suc i.width;
    here = rw (kids_there f n ks e rest ne, kids_there f n ks' e rest ne) i.here;
    elsewhere = λ k r h. elim (eq_or_ne f k) [
      | inl t ↦ rw (← t, kids_here f n ks r, kids_here f n ks' r)
      | inr g ↦ rw (kids_there f n ks k r g, kids_there f n ks' k r g) (i.elsewhere k r h)
    ];
    counted = rw (kids_there f n ks e rest ne) (omega (arith, i.counted));
  }
