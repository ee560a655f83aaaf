-- ===== src/Versioned/Insert.antt =====
-- `insert_recurse` of the versioned tree on a valid node: whatever is shared it does not panic, and
-- the node that it leaves has the value at the key.
use rart_rs.Prelude.{
  ℕ, ◌+◌, ◌<◌, ◌≤◌, ◌≡◌, ◌≢◌, refl, Bool, true, false, Option, none, some, ◌∷◌, ◌++◌, if◌then◌else◌,
  done, ◌>>=◌, arith, length, eq_or_ne, inl, inr, is_some, Bool-cases, Option-cases, append_assoc,
  length-append, ◌∙◌, subst, eq_of_some, ==_refl, ==-ne,
}
use rart_rs.Partials.{Bytes}
use rart_rs.Partials.Laws.{align, same, below, above, fork, strip-above, strip-fork}
use rart_rs.Node.{node, Kind, empty, node4, is_leaf, seek}
use rart_rs.Node.Valid.{IsValid, ValidKids, IsBytes, IsBytes-right}
use rart_rs.Node.Children.{kind_for, leaf-IsValid, num_children-lt}
use rart_rs.Node.Lookup.{
  lookup, lookup_kids-seek, lookup_end, lookup_below, lookup_missing, lookup_kids_absent,
}
use rart_rs.Node.Deletion.{seek-ValidChild}
use rart_rs.Tree.Insert.Splits.{IsInsert-above, IsInsert-fork, IsInsert-leaf}
use rart_rs.Tree.Insert.Total.{if_same}
use rart_rs.Tree.Remove.Effect.{IsAssign, IsAssign-child, IsAssign-value}
use rart_rs.Tree.Update.Effect.{IsAssign-insert}
use rart_rs.Versioned.{
  VersionedNode, versioned, Children, end, more, seek_child, add, delete, num_children,
  insert_recurse, settle, delete_child, add_child,
}
use rart_rs.Versioned.Plain.{
  plain, plain_kids, plain_kids-add, plain_kids-delete, num_children-plain_kids, delete_absent,
  add-delete, IsUpTo, IsUpToKids, IsUpToKids-later, IsUpToKids-add, IsUpToKids-delete,
}
use rart_rs.Versioned.Replace.{child_present, child_missing, childless, add_child-delete}
use rart_rs.Versioned.Steps.{
  versioned_here, versioned_above, versioned_fork, versioned_leaf, versioned_below, add_child_leaf,
  insert_child-seek_child,
}

module _ {V : Type 0} where
  module _ (shared : VersionedNode V → Bool) (value : V) (m target : ℕ) (wanted : Bool)
      (later : m < target) where
    abbrev pub Inserts : VersionedNode V → Bytes → Bytes → Type 0
    Inserts n pre rest =
        (n' : VersionedNode V) × (insert_recurse shared value target wanted n (pre ++ rest)
            (length pre)
          ≡ done
              (n', is_some (lookup (plain n) rest), if wanted then lookup (plain n) rest else none))
        × IsAssign (plain n) (plain n') rest (some value)
        × IsUpTo target n'

    module _ (p : Bytes) (v : Option V) (kind : Kind) (ks : Children V) (created : ℕ) (pre : Bytes)
        (u : (created ≤ m) × IsUpToKids m ks) where
      earlier : created < target
      earlier = omega (arith, u.0, later)

      up_to : IsUpToKids target ks
      up_to = IsUpToKids-later m target ks (omega (arith, later)) u.1

      Inserts-same :
          IsValid (node p v kind (plain_kids ks)) → Inserts (versioned p v kind ks created) pre p
      Inserts-same w = (
        versioned p (some value) kind ks target,
        rw (
          versioned_here shared value target wanted v kind ks created pre p earlier,
          lookup_end v kind (plain_kids ks) p,
        ),
        IsAssign-value p v (some value) kind (plain_kids ks) w tt,
        (omega arith, up_to),
      )

      -- There is no child at the edge.
      Inserts-new :
          (e : ℕ) (s : Bytes)
          → IsValid (node p v kind (plain_kids ks))
          → IsBytes (e ∷ s)
          → seek_child e ks ≡ none
          → (insert_recurse shared value target wanted
                (versioned p v kind ks created)
                (pre ++ (p ++ e ∷ s))
                (length pre)
              ≡ (add_child e
                    (versioned (e ∷ s) (some value) empty end target)
                    (versioned p v kind ks target)
                  >>= λ n. done (n, false, none)))
          → Inserts (versioned p v kind ks created) pre (p ++ e ∷ s)
      Inserts-new e s w bs h eq =
          let free : seek e (plain_kids ks) ≡ none = child_missing e ks h in
          let gone : lookup (node p v kind (plain_kids ks)) (p ++ e ∷ s) ≡ none =
            lookup_below v kind (plain_kids ks) p e s
            ∙ lookup_kids_absent (plain_kids ks) e (e ∷ s) free in
          let leaf = versioned (e ∷ s) (some value) empty end target in
          (
            versioned p v (kind_for kind (num_children ks)) (add e leaf ks) target,
            rw (
              eq,
              add_child_leaf e leaf p v kind ks target
                  (omega (arith, w.0, num_children-plain_kids ks))
                  (omega (
                    arith,
                    num_children-lt e (plain leaf) (plain_kids ks)
                        (bs.0, refl, leaf-IsValid (e ∷ s) value bs) free w.2,
                    num_children-plain_kids ks,
                  )),
              gone,
              if_same wanted,
            ),
            rw (plain_kids-add e leaf ks, ← num_children-plain_kids ks)
                (IsAssign-insert (node p v kind (plain_kids ks)) _ (p ++ e ∷ s) value gone
                  (IsInsert-leaf v kind (plain_kids ks) value true p e s free w bs)),
            (omega arith, IsUpToKids-add target e leaf ks (omega arith, tt) up_to),
          )

      -- The insertion goes on in the child.
      Inserts-child :
          (e : ℕ) (s : Bytes) (c : VersionedNode V)
          → IsValid (node p v kind (plain_kids ks))
          → is_leaf kind ≡ false
          → seek_child e ks ≡ some c
          → Inserts c (pre ++ p) (e ∷ s)
          → Inserts (versioned p v kind ks created) pre (p ++ e ∷ s)
      unfolding settle delete_child
      Inserts-child e s c w inner h (c', eq, i, up) =
          let there : seek e (plain_kids ks) ≡ some (plain c) = child_present e ks c h in
          (
            versioned p v kind (add e c' (delete e ks)) target,
            rw (
              versioned_below shared value target wanted v kind ks created pre p e s earlier inner,
              insert_child-seek_child shared value target wanted ks e (pre ++ (p ++ e ∷ s))
                  (length pre + length p),
              h,
              rw (append_assoc, length-append pre p) at eq,
              add_child-delete p v kind ks target e c c' h w,
              lookup_below v kind (plain_kids ks) p e s,
              lookup_kids-seek (plain_kids ks) e (e ∷ s),
              there,
            ),
            rw
                (
                  plain_kids-add e c' (delete e ks),
                  plain_kids-delete e ks,
                  add-delete e (plain c) (plain c') (plain_kids ks) w.2 there,
                )
                (IsAssign-child p v kind (plain_kids ks) e s (plain c) (plain c') (some value) there
                  (seek-ValidChild e (plain c) (plain_kids ks) there w.2).1 w i),
            (
              omega arith,
              IsUpToKids-add target e c' (delete e ks) up (IsUpToKids-delete target e ks up_to),
            ),
          )

      Inserts-below :
          (e : ℕ) (s : Bytes)
          → IsValid (node p v kind (plain_kids ks))
          → IsBytes (e ∷ s)
          → ((c : VersionedNode V) → seek_child e ks ≡ some c → Inserts c (pre ++ p) (e ∷ s))
          → Inserts (versioned p v kind ks created) pre (p ++ e ∷ s)
      unfolding settle delete_child
      Inserts-below e s w bs visit = elim (Bool-cases (is_leaf kind)) [
        | inl leaf ↦
            Inserts-new e s w bs (childless e p v kind ks leaf w)
              (versioned_leaf shared value target wanted v kind ks created pre p e s earlier leaf)
        | inr inner ↦ elim (Option-cases (seek_child e ks)) [
          | inl h ↦ Inserts-new e s w bs h (
              rw (
                versioned_below shared value target wanted v kind ks created pre p e s earlier
                    inner,
                insert_child-seek_child shared value target wanted ks e (pre ++ (p ++ e ∷ s))
                    (length pre + length p),
                h,
                delete_absent e ks h,
              ))
          | inr (c, h) ↦ Inserts-child e s c w inner h (visit c h)
        ]
      ]

    module _ (v : Option V) (kind : Kind) (ks : Children V) (created : ℕ) (pre : Bytes)
        (u : (created ≤ m) × IsUpToKids m ks) where
      Inserts-above :
          (rest : Bytes) (e : ℕ) (q : Bytes)
          → IsValid (node (rest ++ e ∷ q) v kind (plain_kids ks))
          → Inserts (versioned (rest ++ e ∷ q) v kind ks created) pre rest
      Inserts-above rest e q w =
          let gone =
            lookup_missing v kind (plain_kids ks) (rest ++ e ∷ q) rest (strip-above rest e q) in
          (
            versioned rest (some value) node4 (more e (versioned (e ∷ q) v kind ks target) end)
                target,
            rw (
              versioned_above shared value target wanted v kind ks created pre rest e q,
              gone,
              if_same wanted,
            ),
            IsAssign-insert _ _ rest value gone
                (IsInsert-above v kind (plain_kids ks) value true rest e q w),
            (omega arith, ((omega arith, up_to rest v kind ks created pre u), tt)),
          )

      Inserts-fork :
          (c : Bytes) (a b : ℕ) (q s : Bytes)
          → a ≢ b
          → IsValid (node (c ++ a ∷ q) v kind (plain_kids ks))
          → IsBytes (b ∷ s)
          → Inserts (versioned (c ++ a ∷ q) v kind ks created) pre (c ++ b ∷ s)
      Inserts-fork c a b q s ne w bs =
          let gone =
            lookup_missing v kind (plain_kids ks) (c ++ a ∷ q) (c ++ b ∷ s)
              (strip-fork c a b q s ne) in
          let leaf = versioned (b ∷ s) (some value) empty end target in
          let rest_of = versioned (a ∷ q) v kind ks target in
          (
            versioned c none node4 (add b leaf (more a rest_of end)) target,
            rw (
              versioned_fork shared value target wanted v kind ks created pre c a b q s ne,
              gone,
              if_same wanted,
            ),
            rw (plain_kids-add b leaf (more a rest_of end)) (
                IsAssign-insert (node (c ++ a ∷ q) v kind (plain_kids ks)) _ (c ++ b ∷ s) value gone
                  (IsInsert-fork v kind (plain_kids ks) value true c a b q s ne w bs)),
            (
              omega arith,
              IsUpToKids-add target b leaf (more a rest_of end) (omega arith, tt)
                  ((omega arith, up_to c v kind ks created pre u), tt),
            ),
          )

    mutual
      unfolding insert_recurse seek_child

      pub insert_node :
          (n : VersionedNode V) (pre rest : Bytes)
          → IsValid (plain n)
          → IsUpTo m n
          → IsBytes rest
          → Inserts n pre rest
      insert_node (versioned p v kind ks created) pre rest w u bs = elim (align p rest) [
        | same h ↦ rw h (Inserts-same p v kind ks created pre u w)
        | above e q h ↦ rw h (Inserts-above v kind ks created pre u rest e q (rw h at w))
        | fork c a b q s ne h h' ↦
            rw (h, h')
              (Inserts-fork v kind ks created pre u c a b q s ne (rw h at w)
                (IsBytes-right c (b ∷ s) (rw h' at bs)))
        | below e s h ↦
            let tail = IsBytes-right p (e ∷ s) (rw h at bs) in
            rw h (
              Inserts-below p v kind ks created pre u e s w tail
                (λ c t. insert_kids ks (pre ++ p) e s w.2 u.1 tail c t))
      ]

      insert_kids :
          (ks : Children V) (pre : Bytes) (e : ℕ) (s : Bytes)
          → ValidKids (plain_kids ks)
          → IsUpToKids m ks
          → IsBytes (e ∷ s)
          → (c : VersionedNode V) → seek_child e ks ≡ some c
          → Inserts c pre (e ∷ s)
      insert_kids end pre e s w u bs c h = cc
      insert_kids (more f n ks) pre e s w u bs c h = elim (eq_or_ne f e) [
        | inl t ↦
            subst (λ x. Inserts x pre (e ∷ s)) (eq_of_some n c (rw (t, ==_refl e) at h))
              (insert_node n pre (e ∷ s) w.2 u.0 bs)
        | inr ne ↦ insert_kids ks pre e s w.4 u.1 bs c (rw (==-ne f e ne) at h)
      ]
