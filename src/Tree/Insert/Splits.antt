-- ===== src/Tree/Insert/Splits.antt =====
-- What a node stands for after each structural change that an insertion makes.
use rart_rs.Prelude.{
  ℕ, ◌+◌, ◌≡◌, ◌≢◌, refl, Bool, true, false, Option, none, some, [], ◌∷◌, ◌++◌, append-nil, ◌==◌,
  arith, ==_refl, sym, ◌∙◌, ap, inl, inr, Bool-cases, ==_iff,
}
use rart_rs.Partials.{Bytes}
use rart_rs.Partials.Laws.{stripped, missing, ends, goes_on, strip-above, strip-fork}
use rart_rs.Node.{
  Node, node, Kids, nil, cons, Kind, empty, node4, add, seek, prefix_of, num_children, capacity,
}
use rart_rs.Node.Valid.{IsValid, ValidKids, BeginsWith, IsBytes, IsBytes-left, IsBytes-right}
use rart_rs.Node.Lookup.{
  lookup, lookup_kids, lookup_end, lookup_below, lookup_missing, lookup_cut, lookup_cut_missing,
  lookup_kids_only, lookup_leaf_ne, lookup_kids_absent, lookup_kids-add, lookup_edge_nil,
  lookup_edge_ne,
}
use rart_rs.Node.Children.{add_child_lem, kind_for, Alive-add, leaf-IsValid}
use rart_rs.Node.Size.{size, size_kids-add, found}
use rart_rs.Tree.{Inserting, inserted, replaced, occupied}

module _ {V : Type 0} where
  -- The value that an insertion leaves at its key, and what it reports.
  abbrev pub stored : Option V → V → Bool → Option V
  stored none value replace = some value
  stored (some old) value true = some value
  stored (some old) value false = some old

  abbrev pub outcome : Option V → V → Bool → Inserting V
  outcome none value replace = inserted
  outcome (some old) value true = replaced old
  outcome (some old) value false = occupied value old

  -- `n'` is `n` with the value stored at the key `rest`: well formed, reached by the same edge, and
  -- the same map at every other key.
  pub record IsInsert (n n' : Node V) (rest : Bytes) (value : V) (replace : Bool) : Type 0 where
    pub valid : IsValid n'
    pub edge :
        (e : ℕ) → BeginsWith e (prefix_of n) → BeginsWith e rest → BeginsWith e (prefix_of n')
    pub here : lookup n' rest ≡ stored (lookup n rest) value replace
    pub elsewhere : (q : Bytes) → q ≢ rest → lookup n' q ≡ lookup n q
    pub counted : size n' + found (lookup n rest) ≡ size n + 1

  module _ (old : Option V) (kind : Kind) (ks : Kids V) (value : V) (replace : Bool) where
    -- A parent with the value is put above a node whose prefix goes on behind the key.
    above_elsewhere :
        (rest : Bytes) (e : ℕ) (q r : Bytes)
        → r ≢ rest
        → lookup (node rest (some value) node4 (cons e (node (e ∷ q) old kind ks) nil)) r
          ≡ lookup (node (rest ++ e ∷ q) old kind ks) r
    above_elsewhere rest e q r h =
        let only : Kids V = cons e (node (e ∷ q) old kind ks) nil in
        elim (stripped rest r) [
          | missing m ↦
              lookup_missing (some value) node4 only rest r m
              ∙ sym (lookup_cut_missing old kind ks rest (e ∷ q) r m)
          | ends m ↦ absurd (h m)
          | goes_on f s m ↦
              rw
                (
                  m,
                  lookup_below (some value) node4 only rest f s,
                  lookup_cut old kind ks rest (e ∷ q) (f ∷ s),
                )
                (lookup_kids_only old kind ks e (e ∷ q) f s refl)
        ]

    pub IsInsert-above :
        (rest : Bytes) (e : ℕ) (q : Bytes)
        → IsValid (node (rest ++ e ∷ q) old kind ks)
        → IsInsert
            (node (rest ++ e ∷ q) old kind ks)
            (node rest (some value) node4 (cons e (node (e ∷ q) old kind ks) nil))
            rest
            value
            replace
    unfolding num_children capacity size
    IsInsert-above rest e q v =
        let bytes = IsBytes-right rest (e ∷ q) v.3 in
        let absent = lookup_missing old kind ks (rest ++ e ∷ q) rest (strip-above rest e q) in
        record {
          valid = (
            omega arith,
            tt,
            (bytes.0, refl, (v.0, v.1, v.2, bytes), tt, tt),
            IsBytes-left rest (e ∷ q) v.3,
          );
          edge = λ f b c. c;
          here =
              rw (
                lookup_end (some value) node4 (cons e (node (e ∷ q) old kind ks) nil) rest,
                absent,
              );
          elsewhere = above_elsewhere rest e q;
          counted = rw absent (omega arith);
        }

    -- A parent without a value gets the node, cut, and a new leaf for children.
    abbrev pub forked : Bytes → ℕ → ℕ → Bytes → Bytes → Node V
    forked c a b q s =
        node c none node4
          (add b (node (b ∷ s) (some value) empty nil) (cons a (node (a ∷ q) old kind ks) nil))

    leaf_absent : (a b : ℕ) (n : Node V) → a ≢ b → seek b (cons a n nil) ≡ none
    unfolding seek
    leaf_absent a b n h = ground arith

    fork_kids :
        (a b : ℕ) (q s : Bytes) (f : ℕ) (r : Bytes)
        → a ≢ b
        → f ∷ r ≢ b ∷ s
        → lookup_kids
            (add b (node (b ∷ s) (some value) empty nil) (cons a (node (a ∷ q) old kind ks) nil))
            f
            (f ∷ r)
          ≡ lookup (node (a ∷ q) old kind ks) (f ∷ r)
    fork_kids a b q s f r h ne =
        rw
          (lookup_kids-add b (node (b ∷ s) (some value) empty nil)
            (cons a (node (a ∷ q) old kind ks) nil) f (f ∷ r)
            (leaf_absent a b (node (a ∷ q) old kind ks) h))
          (ground (
            arith,
            lookup_leaf_ne (b ∷ s) value (f ∷ r) ne,
            lookup_kids_only old kind ks a (a ∷ q) f r refl,
            lookup_edge_ne a (a ∷ q) old kind ks f r refl,
          ))

    fork_elsewhere :
        (c : Bytes) (a b : ℕ) (q s r : Bytes)
        → a ≢ b
        → r ≢ c ++ b ∷ s
        → lookup (forked c a b q s) r ≡ lookup (node (c ++ a ∷ q) old kind ks) r
    fork_elsewhere c a b q s r h ne =
        let two : Kids V =
          add b (node (b ∷ s) (some value) empty nil) (cons a (node (a ∷ q) old kind ks) nil) in
        elim (stripped c r) [
          | missing m ↦
              lookup_missing none node4 two c r m
              ∙ sym (lookup_cut_missing old kind ks c (a ∷ q) r m)
          | ends m ↦
              rw (m, lookup_end none node4 two c)
                (sym (cut_at_end c (a ∷ q) ∙ lookup_edge_nil a (a ∷ q) old kind ks refl))
          | goes_on f t m ↦
              rw (m, lookup_below none node4 two c f t, lookup_cut old kind ks c (a ∷ q) (f ∷ t))
                (fork_kids a b q s f t h (λ e. ne (m ∙ ap (λ l. c ++ l) e)))
        ]
      where
        cut_at_end :
            (d u : Bytes) → lookup (node (d ++ u) old kind ks) d ≡ lookup (node u old kind ks) []
        cut_at_end d u =
            ap (lookup (node (d ++ u) old kind ks)) (sym (append-nil d))
            ∙ lookup_cut old kind ks d u []

    fork_edge :
        (c : Bytes) (a b : ℕ) (q s : Bytes) (e : ℕ)
        → a ≢ b
        → BeginsWith e (c ++ a ∷ q)
        → BeginsWith e (c ++ b ∷ s)
        → BeginsWith e c
    fork_edge [] a b q s e h i j = absurd (omega arith)
    fork_edge (x ∷ c) a b q s e h i j = i

    pub IsInsert-fork :
        (c : Bytes) (a b : ℕ) (q s : Bytes)
        → a ≢ b
        → IsValid (node (c ++ a ∷ q) old kind ks)
        → IsBytes (b ∷ s)
        → IsInsert (node (c ++ a ∷ q) old kind ks) (forked c a b q s) (c ++ b ∷ s) value replace
    unfolding num_children capacity size
    IsInsert-fork c a b q s h v bs =
        let bytes = IsBytes-right c (a ∷ q) v.3 in
        let leaf : Node V = node (b ∷ s) (some value) empty nil in
        let one : Kids V = cons a (node (a ∷ q) old kind ks) nil in
        let new_edge = leaf_absent a b (node (a ∷ q) old kind ks) h in
        let absent =
          lookup_missing old kind ks (c ++ a ∷ q) (c ++ b ∷ s) (strip-fork c a b q s h) in
        let valid_one : ValidKids one = (bytes.0, refl, (v.0, v.1, v.2, bytes), tt, tt) in
        let room =
          add_child_lem b leaf c none node4 one (bs.0, refl, leaf-IsValid (b ∷ s) value bs) new_edge
            (omega arith) valid_one in
        record {
          valid = (room.1, Alive-add b leaf none one, room.2, IsBytes-left c (a ∷ q) v.3);
          edge = λ e. fork_edge c a b q s e h;
          here =
              rw
                (
                  lookup_below none node4 (add b leaf one) c b s,
                  absent,
                  lookup_kids-add b leaf one b (b ∷ s) new_edge,
                  ==_refl b,
                )
                (lookup_end (some value) empty nil (b ∷ s));
          elsewhere = λ r. fork_elsewhere c a b q s r h;
          counted = rw (absent, size_kids-add b leaf one) (omega arith);
        }

    kids_elsewhere :
        (e : ℕ) (s : Bytes) (g : ℕ) (u : Bytes)
        → seek e ks ≡ none
        → g ∷ u ≢ e ∷ s
        → lookup_kids (add e (node (e ∷ s) (some value) empty nil) ks) g (g ∷ u)
          ≡ lookup_kids ks g (g ∷ u)
    kids_elsewhere e s g u new h =
        rw (lookup_kids-add e (node (e ∷ s) (some value) empty nil) ks g (g ∷ u) new)
          (elim (Bool-cases (g == e)) [
            | inl t ↦ rw t (
                lookup_leaf_ne (e ∷ s) value (g ∷ u) h
                ∙ sym (rw ((==_iff g e).0 t) (lookup_kids_absent ks e (e ∷ u) new)))
            | inr f ↦ rw f
          ])

    leaf_elsewhere :
        (p : Bytes) (e : ℕ) (s r : Bytes) (kind' : Kind)
        → seek e ks ≡ none
        → r ≢ p ++ e ∷ s
        → lookup (node p old kind' (add e (node (e ∷ s) (some value) empty nil) ks)) r
          ≡ lookup (node p old kind ks) r
    leaf_elsewhere p e s r kind' new h =
        let more : Kids V = add e (node (e ∷ s) (some value) empty nil) ks in
        elim (stripped p r) [
          | missing m ↦ lookup_missing old kind' more p r m ∙ sym (lookup_missing old kind ks p r m)
          | ends m ↦ rw (m, lookup_end old kind' more p, lookup_end old kind ks p)
          | goes_on g u m ↦
              rw (m, lookup_below old kind' more p g u, lookup_below old kind ks p g u)
                (kids_elsewhere e s g u new (λ i. h (m ∙ ap (λ l. p ++ l) i)))
        ]

    -- A new leaf is added below a node that has no child for the next byte.
    pub IsInsert-leaf :
        (p : Bytes) (e : ℕ) (s : Bytes)
        → seek e ks ≡ none
        → IsValid (node p old kind ks)
        → IsBytes (e ∷ s)
        → IsInsert
            (node p old kind ks)
            (node p old
              (kind_for kind (num_children ks))
              (add e (node (e ∷ s) (some value) empty nil) ks))
            (p ++ e ∷ s)
            value
            replace
    unfolding size
    IsInsert-leaf p e s new_edge v bs =
        let leaf : Node V = node (e ∷ s) (some value) empty nil in
        let kind' = kind_for kind (num_children ks) in
        let absent = lookup_below old kind ks p e s ∙ lookup_kids_absent ks e (e ∷ s) new_edge in
        let room =
          add_child_lem e leaf p old kind ks (bs.0, refl, leaf-IsValid (e ∷ s) value bs) new_edge
            v.0 v.2 in
        record {
          valid = (room.1, Alive-add e leaf old ks, room.2, v.3);
          edge = λ f b c. b;
          here =
              rw
                (
                  lookup_below old kind' (add e leaf ks) p e s,
                  absent,
                  lookup_kids-add e leaf ks e (e ∷ s) new_edge,
                  ==_refl e,
                )
                (lookup_end (some value) empty nil (e ∷ s));
          elsewhere = λ r h. leaf_elsewhere p e s r kind' new_edge h;
          counted = rw (absent, size_kids-add e leaf ks) (omega arith);
        }
