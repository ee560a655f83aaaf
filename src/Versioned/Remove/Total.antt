-- ===== src/Versioned/Remove/Total.antt =====
-- `remove_recurse` of the versioned tree on a valid node that has the key: whatever is shared it does
-- not panic, returns the value, and what it leaves is the node without the key.
use rart_rs.Prelude.{
  ℕ, ◌<◌, ◌≤◌, ◌≡◌, refl, Bool, false, Option, none, some, ◌∷◌, ◌++◌, if◌then◌else◌, done, ◌>>=◌,
  arith, ap, length, eq_or_ne, inl, inr, Bool-cases, Option-cases, append_assoc, length-append, ◌∙◌,
  sym, subst, eq_of_some, ==_refl, ==-ne, unwrap,
}
use rart_rs.Partials.{Bytes}
use rart_rs.Partials.Laws.{
  stripped, missing, ends, goes_on, strip_self, strip-below, prefix_length_key-append,
  length_at-append, length-ne_below, at_edge,
}
use rart_rs.Node
use rart_rs.Node.{Node, node, Kids, nil, cons, Kind, is_leaf, seek}
use rart_rs.Node.Valid.{IsValid, ValidKids}
use rart_rs.Node.Lookup.{
  lookup, lookup_kids-seek, lookup_end, lookup_below, lookup_missing, lookup_kids_absent,
}
use rart_rs.Node.Deletion.{seek-ValidChild}
use rart_rs.Tree.Remove.Effect.{
  IsOnly, IsRemove, IsAssign-child, IsAssign-value, IsOnly-delete, IsOnly-value,
}
use rart_rs.Tree.Remove.Steps.{common_test}
use rart_rs.Tree.Remove.Total.{leaf_childless, Alive-or_empty}
use rart_rs.Versioned.{
  VersionedNode, versioned, Children, end, more, seek_child, add, delete, delete_child,
}
use rart_rs.Versioned.Plain.{
  plain, plain_kids, plain_kids-add, plain_kids-delete, add-delete, IsUpTo, IsUpToKids,
  IsUpToKids-later, IsUpToKids-add, IsUpToKids-delete, owned_lem,
}
use rart_rs.Versioned.Replace.{add_child-delete, child_present, child_missing, childless}
use rart_rs.Versioned.Remove.{
  put_back, settle_remove, take_value, leaf_remove, remove_recurse, remove_child,
}
use rart_rs.Versioned.Remove.Effect.{IsRemove-unshrunk, keep_live, keep_bare}

module _ {V : Type 0} where
  module _ (shared : VersionedNode V → Bool) (m target : ℕ) (later : m < target) where
    -- What is left of a node without a key.
    abbrev pub Left : VersionedNode V → Option (VersionedNode V) → Bytes → Type 0
    Left n none rest = IsOnly (plain n) rest
    Left n (some n') rest = IsRemove (plain n) (plain n') rest × IsUpTo target n'

    abbrev pub Removes : VersionedNode V → Bytes → Bytes → V → Type 0
    Removes n pre rest x =
        (o : Option (VersionedNode V)) × (remove_recurse shared target n (pre ++ rest) (length pre)
          ≡ done (some (o, x)))
        × Left n o rest

    remove_child-seek_child :
        (ks : Children V) (k : ℕ) (key : Bytes) (depth : ℕ)
        → remove_child shared target ks k key depth ≡ (elim (seek_child k ks) [
          | none ↦ done none
          | some c ↦
              remove_recurse shared target c key depth >>= λ r. unwrap r >>= λ x. done (some x)
        ])
    unfolding remove_recurse seek_child
    remove_child-seek_child end k key depth = refl
    remove_child-seek_child (more f n ks) k key depth =
        ground (arith, remove_child-seek_child ks k key depth)

    module _ (p : Bytes) (v : Option V) (kind : Kind) (ks : Children V) (created : ℕ) (pre : Bytes)
        (u : (created ≤ m) × IsUpToKids m ks) where
      earlier : created < target
      earlier = omega (arith, u.0, later)

      up_to : IsUpToKids target ks
      up_to = IsUpToKids-later m target ks (omega (arith, later)) u.1

      remove_here :
          remove_recurse shared target (versioned p v kind ks created) (pre ++ p) (length pre) ≡ (
            if is_leaf kind
            then done (leaf_remove v)
            else done (take_value (versioned p v kind ks target)))
      unfolding remove_recurse
      remove_here = rw (
        prefix_length_key-append pre p p,
        common_test p p,
        strip_self p,
        length_at-append pre p,
        ==_refl (length p),
        owned_lem shared p v kind ks created target earlier,
      )

      remove_below :
          (e : ℕ) (s : Bytes)
          → is_leaf kind ≡ false
          → remove_recurse shared target
              (versioned p v kind ks created)
              (pre ++ (p ++ e ∷ s))
              (length pre)
            ≡ (remove_child shared target ks e ((pre ++ p) ++ e ∷ s) (length (pre ++ p))
                >>= λ visited. settle_remove e (versioned p v kind ks target) visited)
      unfolding remove_recurse
      remove_below e s inner = rw (
        prefix_length_key-append pre (p ++ e ∷ s) p,
        common_test p (p ++ e ∷ s),
        strip-below p (e ∷ s),
        length_at-append pre (p ++ e ∷ s),
        length-ne_below p e s,
        inner,
        at_edge pre p e s,
        owned_lem shared p v kind ks created target earlier,
        append_assoc,
        length-append,
      )

      -- The value of the node itself is taken.
      Removes-value :
          (y : V)
          → v ≡ some y
          → IsValid (node p v kind (plain_kids ks))
          → Removes (versioned p v kind ks created) pre p y
      unfolding take_value
      Removes-value y z w = elim (Bool-cases (is_leaf kind)) [
        | inl leaf ↦ (
          none,
          rw (remove_here, leaf, z),
          rw (z, leaf_childless kind (plain_kids ks) w.0 leaf) (IsOnly-value p y kind),
        )
        | inr inner ↦ elim (Alive-or_empty none (plain_kids ks)) [
          | inl a ↦ (
            some (versioned p none kind ks target),
            rw (remove_here, inner, z, keep_live p none kind ks target a),
            (IsAssign-value p v none kind (plain_kids ks) w a, (omega arith, up_to)),
          )
          | inr (_, nothing) ↦ (
            none,
            rw (remove_here, inner, z, keep_bare p kind ks target nothing),
            rw (z, nothing) (IsOnly-value p y kind),
          )
        ]
      ]

      -- What is left of the parent of a child.
      settles :
          (e : ℕ) (s : Bytes) (c : VersionedNode V) (o : Option (VersionedNode V)) (x : V)
          → IsValid (node p v kind (plain_kids ks))
          → seek_child e ks ≡ some c
          → Left c o (e ∷ s)
          → (o' : Option (VersionedNode V)) × (settle_remove e
                (versioned p v kind ks target)
                (some (o, x))
              ≡ done (some (o', x)))
            × Left (versioned p v kind ks created) o' (p ++ e ∷ s)
      unfolding settle_remove put_back delete_child
      settles e s c (some c') x w h (r, up) =
          let there : seek e (plain_kids ks) ≡ some (plain c) = child_present e ks c h in
          let same =
            plain_kids-add e c' (delete e ks)
            ∙ ap (λ js. Node.add e (plain c') js) (plain_kids-delete e ks)
            ∙ add-delete e (plain c) (plain c') (plain_kids ks) w.2 there in
          let i : IsRemove (node p v kind (plain_kids ks))
              (node p v kind (plain_kids (add e c' (delete e ks)))) (p ++ e ∷ s) =
            rw same (
              IsAssign-child p v kind (plain_kids ks) e s (plain c) (plain c') none there
                (seek-ValidChild e (plain c) (plain_kids ks) there w.2).1 w r) in
          (
            some (versioned p v kind (add e c' (delete e ks)) target),
            rw (
              add_child-delete p v kind ks target e c c' h w,
              keep_live p v kind (add e c' (delete e ks)) target i.valid.1,
            ),
            (
              i,
              (
                omega arith,
                IsUpToKids-add target e c' (delete e ks) up (IsUpToKids-delete target e ks up_to),
              ),
            ),
          )
      settles e s c none x w h only =
          let there : seek e (plain_kids ks) ≡ some (plain c) = child_present e ks c h in
          elim (Alive-or_empty v (Node.delete e (plain_kids ks))) [
            | inl a ↦ (
              some (versioned p v kind (delete e ks) target),
              rw (keep_live p v kind (delete e ks) target (rw (plain_kids-delete e ks) a)),
              (
                rw (plain_kids-delete e ks)
                    (IsRemove-unshrunk p v kind (plain_kids ks) e s (plain c) there w a only),
                (omega arith, IsUpToKids-delete target e ks up_to),
              ),
            )
            | inr (z, z') ↦ (
              none,
              rw (z, keep_bare p kind (delete e ks) target (plain_kids-delete e ks ∙ z')),
              rw z (IsOnly-delete p v kind (plain_kids ks) e s (plain c) there z' only),
            )
          ]

      Removes-below :
          (e : ℕ) (s : Bytes) (x : V)
          → IsValid (node p v kind (plain_kids ks))
          → lookup (node p v kind (plain_kids ks)) (p ++ e ∷ s) ≡ some x
          → ((c : VersionedNode V)
              → seek_child e ks ≡ some c
              → lookup (plain c) (e ∷ s) ≡ some x
              → Removes c (pre ++ p) (e ∷ s) x)
          → Removes (versioned p v kind ks created) pre (p ++ e ∷ s) x
      Removes-below e s x w there visit = elim (Option-cases (seek_child e ks)) [
        | inl h ↦
            let gone =
              lookup_below v kind (plain_kids ks) p e s
              ∙ lookup_kids_absent (plain_kids ks) e (e ∷ s) (child_missing e ks h) in
            cc
        | inr (c, h) ↦ elim (Bool-cases (is_leaf kind)) [
          | inl leaf ↦ let gone = childless e p v kind ks leaf w in cc
          | inr inner ↦
              let (o, eq, l) = visit c h (
                rw
                  (
                    lookup_below v kind (plain_kids ks) p e s,
                    lookup_kids-seek (plain_kids ks) e (e ∷ s),
                    child_present e ks c h,
                  )
                  at there) in
              let (o', eq', l') = settles e s c o x w h l in
              (
                o',
                rw (
                  remove_below e s inner,
                  remove_child-seek_child ks e ((pre ++ p) ++ e ∷ s) (length (pre ++ p)),
                  h,
                  eq,
                  eq',
                ),
                l',
              )
        ]
      ]

    mutual
      unfolding remove_recurse seek_child

      pub remove_node :
          (n : VersionedNode V) (pre rest : Bytes) (x : V)
          → IsValid (plain n)
          → IsUpTo m n
          → lookup (plain n) rest ≡ some x
          → Removes n pre rest x
      remove_node (versioned p v kind ks created) pre rest x w u there = elim (stripped p rest) [
        | missing h ↦ let gone = lookup_missing v kind (plain_kids ks) p rest h in cc
        | ends h ↦ rw h (
            Removes-value p v kind ks created pre u x
              (sym (lookup_end v kind (plain_kids ks) p) ∙ (rw h at there)) w)
        | goes_on e s h ↦ rw h (
            Removes-below p v kind ks created pre u e s x w (rw h at there)
              (λ c t z. remove_kids ks (pre ++ p) e s x w.2 u.1 c t z))
      ]

      remove_kids :
          (ks : Children V) (pre : Bytes) (e : ℕ) (s : Bytes) (x : V)
          → ValidKids (plain_kids ks)
          → IsUpToKids m ks
          → (c : VersionedNode V) → seek_child e ks ≡ some c
          → lookup (plain c) (e ∷ s) ≡ some x
          → Removes c pre (e ∷ s) x
      remove_kids end pre e s x w u c h z = cc
      remove_kids (more f n ks) pre e s x w u c h z = elim (eq_or_ne f e) [
        | inl t ↦
            let same : n ≡ c = eq_of_some n c (rw (t, ==_refl e) at h) in
            subst (λ d. Removes d pre (e ∷ s) x) same
              (remove_node n pre (e ∷ s) x w.2 u.0 (ap (λ d. lookup (plain d) (e ∷ s)) same ∙ z))
        | inr ne ↦ remove_kids ks pre e s x w.4 u.1 c (rw (==-ne f e ne) at h) z
      ]
