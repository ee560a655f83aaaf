-- ===== src/Versioned/Update/Steps.antt =====
-- The branches of `update_recurse` of the versioned tree.
use rart_rs.Prelude.{
  ℕ, ◌+◌, ◌<◌, ◌≤◌, ◌≡◌, refl, Bool, true, false, Option, none, some, ◌∷◌, ◌++◌, done, ◌>>=◌, Run,
  arith, ap, length, inl, inr, Bool-cases, ◌∙◌, ==_refl,
}
use rart_rs.Partials.{Bytes}
use rart_rs.Partials.Laws.{
  prefix_length_key-append, length_at-append, common_length_self, common_length-below, at_edge,
}
use rart_rs.Node
use rart_rs.Node.{Node, node, nil, Kind, empty, node4, is_leaf, seek}
use rart_rs.Node.Valid.{IsValid, IsBytes}
use rart_rs.Node.Children.{kind_for, leaf-IsValid, num_children-lt}
use rart_rs.Node.Lookup.{lookup, lookup_kids-seek, lookup_below, lookup_kids_absent}
use rart_rs.Node.Deletion.{seek-ValidChild}
use rart_rs.Tree.Insert.Splits.{IsInsert-leaf}
use rart_rs.Tree.Insert.Steps.{min_self, below_tests}
use rart_rs.Tree.Remove.Effect.{IsAssign, IsAssign-child, IsOnly-delete}
use rart_rs.Tree.Remove.Total.{Alive-or_empty}
use rart_rs.Tree.Update.Effect.{IsAssign-insert}
use rart_rs.Versioned.{
  VersionedNode, versioned, Children, end, more, seek_child, add, delete, num_children,
  delete_child,
}
use rart_rs.Versioned.Plain.{
  plain, plain_kids, plain_kids-add, plain_kids-delete, num_children-plain_kids, add-delete,
  IsUpToKids, IsUpToKids-later, IsUpToKids-add, IsUpToKids-delete, owned_lem,
}
use rart_rs.Versioned.Replace.{child_present, child_missing, add_child-delete}
use rart_rs.Versioned.Steps.{add_child_leaf}
use rart_rs.Versioned.Remove.{put_back}
use rart_rs.Versioned.Remove.Effect.{IsRemove-unshrunk, keep_live, keep_bare}
use rart_rs.Versioned.Update.{
  SlotCallback, update_recurse, update_child, update_here, settle_update, fill,
  versioned_vacant_update, append_leaf,
}
use rart_rs.Versioned.Update.Effect.{
  after, changes, Becomes, Ends, Places, fill_lem, append_leaf_done,
}

module _ {V : Type 0} (shared : VersionedNode V → Bool) (u : SlotCallback V) (m target : ℕ)
    (later : m < target) where
  abbrev pub Updates : VersionedNode V → Bytes → Bytes → Type 0
  Updates n pre rest =
      Ends m target later (update_recurse shared u target n (pre ++ rest) (length pre)) n rest
        (after u (lookup (plain n) rest)) (changes u (lookup (plain n) rest))

  pub update_child-seek_child :
      (ks : Children V) (k : ℕ) (key : Bytes) (depth : ℕ)
      → update_child shared u target ks k key depth ≡ (elim (seek_child k ks) [
        | none ↦ done none
        | some c ↦ update_recurse shared u target c key depth >>= λ r. done (some r)
      ])
  unfolding update_recurse seek_child
  update_child-seek_child end k key depth = refl
  update_child-seek_child (more f n ks) k key depth =
      ground (arith, update_child-seek_child ks k key depth)

  -- A key that the node does not have.
  pub vacant :
      (n : VersionedNode V) (rest : Bytes) (place : V → Run (VersionedNode V))
      → lookup (plain n) rest ≡ none
      → Places m target later place n rest
      → Ends m target later
          (fill (versioned_vacant_update u.vacant) n place)
          n
          rest
          (after u (lookup (plain n) rest))
          (changes u (lookup (plain n) rest))
  vacant n rest place h t = rw h (fill_lem m target later u.vacant n rest place h t)

  module _ (p : Bytes) (v : Option V) (kind : Kind) (ks : Children V) (created : ℕ) (pre : Bytes)
      (up : (created ≤ m) × IsUpToKids m ks) where
    pub earlier : created < target
    earlier = omega (arith, up.0, later)

    pub up_to : IsUpToKids target ks
    up_to = IsUpToKids-later m target ks (omega (arith, later)) up.1

    pub here_step :
        update_recurse shared u target (versioned p v kind ks created) (pre ++ p) (length pre)
        ≡ update_here shared u target (versioned p v kind ks created)
    unfolding update_recurse
    here_step = rw (
      prefix_length_key-append pre p p,
      length_at-append pre p,
      common_length_self p,
      ==_refl (length p),
      min_self (length p),
    )

    leaf_step :
        (e : ℕ) (s : Bytes)
        → is_leaf kind ≡ true
        → update_recurse shared u target
            (versioned p v kind ks created)
            (pre ++ (p ++ e ∷ s))
            (length pre)
          ≡ fill (versioned_vacant_update u.vacant) (versioned p v kind ks created) (λ value.
            append_leaf shared u target
              (versioned p v kind ks created)
              e
              (pre ++ (p ++ e ∷ s))
              value
              (length pre + length p))
    unfolding update_recurse
    leaf_step e s leaf =
        let (t, z, l) = below_tests p e s in
        rw (
          prefix_length_key-append pre (p ++ e ∷ s) p,
          length_at-append pre (p ++ e ∷ s),
          common_length-below p (e ∷ s),
          t,
          z,
          l,
          leaf,
          at_edge pre p e s,
        )

    pub below_step :
        (e : ℕ) (s : Bytes)
        → is_leaf kind ≡ false
        → update_recurse shared u target
            (versioned p v kind ks created)
            (pre ++ (p ++ e ∷ s))
            (length pre)
          ≡ (update_child shared u target ks e (pre ++ (p ++ e ∷ s)) (length pre + length p)
              >>= λ visited.
                  settle_update shared u target
                    (versioned p v kind ks created)
                    e
                    (λ value.
                      append_leaf shared u target
                        (versioned p v kind ks created)
                        e
                        (pre ++ (p ++ e ∷ s))
                        value
                        (length pre + length p))
                    visited)
    unfolding update_recurse
    below_step e s inner =
        let (t, z, l) = below_tests p e s in
        rw (
          prefix_length_key-append pre (p ++ e ∷ s) p,
          length_at-append pre (p ++ e ∷ s),
          common_length-below p (e ∷ s),
          t,
          z,
          l,
          inner,
          at_edge pre p e s,
        )

    -- The leaf that is appended where there is no child.
    leaf_Places :
        (e : ℕ) (s : Bytes)
        → IsValid (node p v kind (plain_kids ks))
        → IsBytes (e ∷ s)
        → seek_child e ks ≡ none
        → lookup (node p v kind (plain_kids ks)) (p ++ e ∷ s) ≡ none
        → Places m target later
            (λ value.
              append_leaf shared u target
                (versioned p v kind ks created)
                e
                (pre ++ (p ++ e ∷ s))
                value
                (length pre + length p))
            (versioned p v kind ks created)
            (p ++ e ∷ s)
    leaf_Places e s w bs h gone value =
        let free : seek e (plain_kids ks) ≡ none = child_missing e ks h in
        let leaf = versioned (e ∷ s) (some value) empty end target in
        (
          versioned p v (kind_for kind (num_children ks)) (add e leaf ks) target,
          rw (
            append_leaf_done v kind ks created target value shared u pre p e s earlier,
            add_child_leaf e leaf p v kind ks target
                (omega (arith, w.0, num_children-plain_kids ks))
                (omega (
                  arith,
                  num_children-lt e (plain leaf) (plain_kids ks)
                      (bs.0, refl, leaf-IsValid (e ∷ s) value bs) free w.2,
                  num_children-plain_kids ks,
                )),
          ),
          rw (plain_kids-add e leaf ks, ← num_children-plain_kids ks)
              (IsAssign-insert (node p v kind (plain_kids ks)) _ (p ++ e ∷ s) value gone
                (IsInsert-leaf v kind (plain_kids ks) value true p e s free w bs)),
          (omega arith, IsUpToKids-add target e leaf ks (omega arith, tt) up_to),
        )

    pub Updates-new :
        (e : ℕ) (s : Bytes)
        → IsValid (node p v kind (plain_kids ks))
        → IsBytes (e ∷ s)
        → seek_child e ks ≡ none
        → Updates (versioned p v kind ks created) pre (p ++ e ∷ s)
    unfolding settle_update
    Updates-new e s w bs h =
        let gone : lookup (node p v kind (plain_kids ks)) (p ++ e ∷ s) ≡ none =
          lookup_below v kind (plain_kids ks) p e s
          ∙ lookup_kids_absent (plain_kids ks) e (e ∷ s) (child_missing e ks h) in
        let filled =
          vacant (versioned p v kind ks created) (p ++ e ∷ s) _ gone
            (leaf_Places e s w bs h gone) in
        elim (Bool-cases (is_leaf kind)) [
          | inl leaf ↦ rw (leaf_step e s leaf) filled
          | inr inner ↦
              rw
                (
                  below_step e s inner,
                  update_child-seek_child ks e (pre ++ (p ++ e ∷ s)) (length pre + length p),
                  h,
                )
                filled
        ]

    -- The parent of a child that was updated.
    pub settles :
        (e : ℕ) (s : Bytes) (c : VersionedNode V) (o : Option (VersionedNode V)) (now : Option V)
        (changed : Bool) (place : V → Run (VersionedNode V))
        → IsValid (node p v kind (plain_kids ks))
        → seek_child e ks ≡ some c
        → Becomes m target later c (e ∷ s) now changed o
        → Ends m target later
            (settle_update shared u target
              (versioned p v kind ks created)
              e
              place
              (some (o, changed)))
            (versioned p v kind ks created)
            (p ++ e ∷ s)
            now
            changed
    unfolding settle_update put_back delete_child
    settles e s c o now false place w h b = (
      some (versioned p v kind ks created),
      refl,
      (
        refl,
        rw
            (
              lookup_below v kind (plain_kids ks) p e s,
              lookup_kids-seek (plain_kids ks) e (e ∷ s),
              child_present e ks c h,
            )
            b.1,
      ),
    )
    settles e s c (some c') now true place w h (r, upd) =
        let there : seek e (plain_kids ks) ≡ some (plain c) = child_present e ks c h in
        let moved =
          plain_kids-add e c' (delete e ks)
          ∙ ap (λ js. Node.add e (plain c') js) (plain_kids-delete e ks)
          ∙ add-delete e (plain c) (plain c') (plain_kids ks) w.2 there in
        let i : IsAssign (node p v kind (plain_kids ks))
            (node p v kind (plain_kids (add e c' (delete e ks)))) (p ++ e ∷ s) now =
          rw moved (
            IsAssign-child p v kind (plain_kids ks) e s (plain c) (plain c') now there
              (seek-ValidChild e (plain c) (plain_kids ks) there w.2).1 w r) in
        (
          some (versioned p v kind (add e c' (delete e ks)) target),
          rw (
            owned_lem shared p v kind ks created target earlier,
            add_child-delete p v kind ks target e c c' h w,
            keep_live p v kind (add e c' (delete e ks)) target i.valid.1,
          ),
          (
            i,
            (
              omega arith,
              IsUpToKids-add target e c' (delete e ks) upd (IsUpToKids-delete target e ks up_to),
            ),
          ),
        )
    settles e s c none now true place w h (z, only) =
        let there : seek e (plain_kids ks) ≡ some (plain c) = child_present e ks c h in
        elim (Alive-or_empty v (Node.delete e (plain_kids ks))) [
          | inl a ↦ (
            some (versioned p v kind (delete e ks) target),
            rw (
              owned_lem shared p v kind ks created target earlier,
              keep_live p v kind (delete e ks) target (rw (plain_kids-delete e ks) a),
            ),
            (
              rw (plain_kids-delete e ks, z)
                  (IsRemove-unshrunk p v kind (plain_kids ks) e s (plain c) there w a only),
              (omega arith, IsUpToKids-delete target e ks up_to),
            ),
          )
          | inr (z', nothing) ↦ (
            none,
            rw (
              owned_lem shared p v kind ks created target earlier,
              z',
              keep_bare p kind (delete e ks) target (plain_kids-delete e ks ∙ nothing),
            ),
            (z, rw z' (IsOnly-delete p v kind (plain_kids ks) e s (plain c) there nothing only)),
          )
        ]
