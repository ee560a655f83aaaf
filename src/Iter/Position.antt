-- ===== src/Iter/Position.antt =====
-- `build_positioned_stack`: the children that are left out are all before the start of the range.
use rart_rs.Prelude.{
  none, ℕ, ◌<◌, ◌≤◌, ◌≡◌, ◌≢◌, refl, sym, ◌∙◌, ap, false, Option, some, List, [], ◌∷◌, ◌++◌,
  append_assoc, append-nil, length, length-append, done, arith, if◌then◌else◌, ltb, leb, ◌==◌,
  ==_refl, ==-ne, Bool-cases, inl, inr, lt-ltb,
}
use rart_rs.Partials.{Bytes}
use rart_rs.Partials.Laws.{
  align, same, below, above, fork, prefix_length_key-append, length_at-append, at-append, at_end,
  common_length_self, common_length-below, common_length-above, common_length-fork, length-ne_below,
}
use rart_rs.Keys.Slices.{leb-le}
use rart_rs.Node.{Node, node, Kids, nil, cons, Kind}
use rart_rs.Node.Valid.{IsValid, ValidKids}
use rart_rs.Iter.{
  Bound, included, excluded, IterFrameIter, plain, leading, position, framed,
  build_positioned_stack,
}
use rart_rs.Iter.Order.{meets, Precedes, Precedes-under, Precedes-fork}
use rart_rs.Iter.Entries.{under, under-append, entries, entries_kids}
use rart_rs.Iter.State.{frame_kids, stack_entries, skip, rounds, rounds_kids, rounds_stack, Nested}
use rart_rs.Iter.Rounds.{take-beyond}
use rart_rs.Iter.Find.{Starts}
use rart_rs.Iter.Sorted.{node_Starts}
use rart_rs.Iter.Filters.{AllTests, skip-AllTests}

-- The bounds that have a key to seek.
pub data Seeks (seek : Bytes) : Bound → Type 0 where
  seeks_included : Seeks seek (included seek)
  seeks_excluded : Seeks seek (excluded seek)

meets-before :
    (seek : Bytes) (b : Bound) (k : Bytes) → Seeks seek b → Precedes k seek → meets b k ≡ false
unfolding meets
meets-before seek b k seeks_included h = rw h refl
meets-before seek b k seeks_excluded h = rw h refl

module _ {V : Type 0} where
  -- The children of the node whose prefix is `p`, positioned.
  pub record IsPositioned (b : Bound) (p : Bytes) (ks : Kids V) (stack : List (ℕ × IterFrameIter V))
      : Type 0 where
    pub left : skip (some b) (stack_entries stack p) ≡ skip (some b) (under p (entries_kids ks))
    pub nested : Nested stack (length p)
    pub shorter : rounds_stack stack ≤ rounds_kids ks
    pub shape : (o : Option (IterFrameIter V)) × (stack ≡ framed (length p) o)
    pub dropped : (l : List (Bytes × V)) × (under p (entries_kids ks) ≡ l ++ stack_entries stack p)

  module _ (b : Bound) (seek p : Bytes) (s : Seeks seek b) where
    frame-IsPositioned :
        (f : IterFrameIter V)
        → ValidKids (frame_kids f)
        → IsPositioned b p (frame_kids f) ((length p, f) ∷ [])
    unfolding stack_entries rounds_stack
    frame-IsPositioned f w = record {
      left =
          rw
            (
              take-beyond (length p) p (omega arith),
              append-nil (under p (entries_kids (frame_kids f))),
            )
            refl;
      nested = (omega arith, w, tt);
      shorter = omega arith;
      shape = (some f, refl);
      dropped = (
        [],
        rw
            (
              take-beyond (length p) p (omega arith),
              append-nil (under p (entries_kids (frame_kids f))),
            )
            refl,
      );
    }

    -- All below `p` is before the start.
    empty-IsPositioned :
        (ks : Kids V)
        → AllTests (meets b) false (under p (entries_kids ks))
        → IsPositioned b p ks []
    unfolding stack_entries rounds_stack
    empty-IsPositioned ks a = record {
      left = sym (
          rw (append-nil (under p (entries_kids ks))) at
            (skip-AllTests b (under p (entries_kids ks)) [] a));
      nested = tt;
      shorter = omega arith;
      shape = (none, refl);
      dropped = (under p (entries_kids ks), sym (append-nil (under p (entries_kids ks))));
    }

    Before-under :
        (l : List (Bytes × V))
        → ((q : Bytes) → Precedes (p ++ q) seek)
        → AllTests (meets b) false (under p l)
    Before-under [] h = tt
    Before-under ((k, v) ∷ l) h = (meets-before seek b (p ++ k) s (h k), Before-under l h)

    Before-Starts :
        (P : ℕ → Type 0) (l : List (Bytes × V))
        → Starts P l
        → ((x : ℕ) (q : Bytes) → P x → Precedes (p ++ x ∷ q) seek)
        → AllTests (meets b) false (under p l)
    Before-Starts P [] w h = tt
    Before-Starts P (([], v) ∷ l) w h = absurd w
    Before-Starts P ((x ∷ k, v) ∷ l) w h =
        (meets-before seek b (p ++ x ∷ k) s (h x k w.0), Before-Starts P l w.1 h)

  position_lem :
      (b : Bound) (p : Bytes) (e : ℕ) (r : Bytes) (ks : Kids V)
      → Seeks (p ++ e ∷ r) b
      → ValidKids ks
      → IsPositioned b p ks (framed (length p) (position e ks))
  unfolding position entries rounds
  position_lem b p e r nil s w = empty-IsPositioned b (p ++ e ∷ r) p s nil tt
  position_lem b p e r (cons k child ks) s w = elim (Bool-cases (ltb k e)) [
    | inl h ↦
        let i = position_lem b p e r ks s w.4 in
        rw h (record {
          left =
              i.left
              ∙ sym (
                  ap (skip (some b)) (under-append p (entries child) (entries_kids ks))
                  ∙ skip-AllTests b (under p (entries child)) (under p (entries_kids ks)) (
                      Before-Starts b (p ++ e ∷ r) p s (λ y. y ≡ k) (entries child)
                        (node_Starts k child w.1)
                        (λ x q z.
                          Precedes-under p (x ∷ q) (e ∷ r)
                            (Precedes-fork x e q r (omega (arith, lt-ltb k e h))))));
          nested = i.nested;
          shorter = omega (arith, i.shorter);
          shape = i.shape;
          dropped = (
            under p (entries child) ++ i.dropped.0,
            under-append p (entries child) (entries_kids ks)
                ∙ ap (λ l. under p (entries child) ++ l) i.dropped.1
                ∙ sym (append_assoc (under p (entries child)) i.dropped.0 _),
          );
        })
    | inr h ↦ rw h (frame-IsPositioned b (p ++ e ∷ r) p s (leading (some (k, child)) ks) w)
  ]

  abbrev pub Builds : Bound → Node V → Bytes → Type 0
  Builds b (node p v kind ks) seek =
      (stack : List (ℕ × IterFrameIter V)) × (build_positioned_stack (node p v kind ks) seek 0
        ≡ done stack)
      × IsPositioned b p ks stack

  module _ (b : Bound) (v : Option V) (kind : Kind) (ks : Kids V) (w : ValidKids ks) where
    Builds-same : (p : Bytes) → Seeks p b → Builds b (node p v kind ks) p
    unfolding build_positioned_stack
    Builds-same p s = (
      (length p, plain ks) ∷ [],
      rw
          (
            prefix_length_key-append [] p p,
            common_length_self p,
            length_at-append [] p,
            ==_refl (length p),
          )
          refl,
      frame-IsPositioned b p p s (plain ks) w,
    )

    Builds-above :
        (seek : Bytes) (e : ℕ) (q : Bytes)
        → Seeks seek b
        → Builds b (node (seek ++ e ∷ q) v kind ks) seek
    unfolding build_positioned_stack
    Builds-above seek e q s = (
      (length (seek ++ e ∷ q), plain ks) ∷ [],
      rw
          (
            prefix_length_key-append [] seek (seek ++ e ∷ q),
            common_length-above seek (e ∷ q),
            length_at-append [] seek,
            length-ne_below seek e q,
            leb-le (length seek) (length seek) (omega arith),
          )
          refl,
      frame-IsPositioned b seek (seek ++ e ∷ q) s (plain ks) w,
    )

    Builds-below :
        (p : Bytes) (e : ℕ) (r : Bytes)
        → Seeks (p ++ e ∷ r) b
        → Builds b (node p v kind ks) (p ++ e ∷ r)
    unfolding build_positioned_stack
    Builds-below p e r s = (
      framed (length p) (position e ks),
      rw
          (
            prefix_length_key-append [] (p ++ e ∷ r) p,
            common_length-below p (e ∷ r),
            length_at-append [] (p ++ e ∷ r),
            ==_refl (length p),
            longer p e r,
            at-append [] (p ++ e ∷ r) (length p),
            at_end p e r,
          )
          refl,
      position_lem b p e r ks s w,
    )
      where
        longer : (p : Bytes) (e : ℕ) (r : Bytes) → (length (p ++ e ∷ r) == length p) ≡ false
        longer p' e' r' =
            ==-ne (length (p' ++ e' ∷ r')) (length p')
              (λ z. omega (arith, length-append p' (e' ∷ r')))

    forked :
        (c : Bytes) (x y : ℕ) (q r : Bytes)
        → x ≢ y
        → build_positioned_stack (node (c ++ x ∷ q) v kind ks) (c ++ y ∷ r) 0
          ≡ done (if ltb x y then [] else (length (c ++ x ∷ q), plain ks) ∷ [])
    unfolding build_positioned_stack
    forked c x y q r ne =
        rw
          (
            prefix_length_key-append [] (c ++ y ∷ r) (c ++ x ∷ q),
            common_length-fork c x y q r ne,
            length_at-append [] (c ++ y ∷ r),
            length-ne_below c x q,
            shorter_leb (length (c ++ y ∷ r)) (length c) (omega (arith, length-append c (y ∷ r))),
            at_end c x q,
            at-append [] (c ++ y ∷ r) (length c),
            at_end c y r,
          )
          refl
      where
        shorter_leb : (m n : ℕ) → n < m → leb m n ≡ false
        shorter_leb m n h = ground arith

    Builds-fork :
        (c : Bytes) (x y : ℕ) (q r : Bytes)
        → x ≢ y
        → Seeks (c ++ y ∷ r) b
        → Builds b (node (c ++ x ∷ q) v kind ks) (c ++ y ∷ r)
    Builds-fork c x y q r ne s = elim (Bool-cases (ltb x y)) [
      | inl h ↦ (
        [],
        rw h at (forked c x y q r ne),
        empty-IsPositioned b (c ++ y ∷ r) (c ++ x ∷ q) s ks (
            Before-under b (c ++ y ∷ r) (c ++ x ∷ q) s (entries_kids ks) (λ k.
              rw (append_assoc c (x ∷ q) k) (
                Precedes-under c (x ∷ (q ++ k)) (y ∷ r)
                  (Precedes-fork x y (q ++ k) r (lt-ltb x y h))))),
      )
      | inr h ↦ (
        (length (c ++ x ∷ q), plain ks) ∷ [],
        rw h at (forked c x y q r ne),
        frame-IsPositioned b (c ++ y ∷ r) (c ++ x ∷ q) s (plain ks) w,
      )
    ]

  -- The positioned stack leaves what the start bound leaves of the children, with no more rounds.
  pub build_positioned_stack_lem :
      (b : Bound) (n : Node V) (seek : Bytes) → Seeks seek b → IsValid n → Builds b n seek
  build_positioned_stack_lem b (node p v kind ks) seek s w = elim (align p seek) [
    | same h ↦ rw h (Builds-same b v kind ks w.2 p (rw h at s))
    | above e q h ↦ rw h (Builds-above b v kind ks w.2 seek e q s)
    | below e r h ↦ rw h (Builds-below b v kind ks w.2 p e r (rw h at s))
    | fork c x y q r ne h h' ↦ rw (h, h') (Builds-fork b v kind ks w.2 c x y q r ne (rw h' at s))
  ]
