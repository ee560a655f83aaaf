-- ===== src/Versioned/Remove/Laws.antt =====
-- `remove_k` and `delete_k` of the versioned tree as operations on the map that it stands for.
use rart_rs.Prelude.{
  ℕ, ◌+◌, ◌<◌, ◌≤◌, ◌≡◌, ◌≢◌, refl, Bool, not, Option, none, some, [], ◌∷◌, ◌++◌, ◌==◌,
  if◌then◌else◌, done, arith, length, is_some, ==_refl, inl, inr, Bool-cases, Option-cases, sym,
  ◌∙◌,
}
use rart_rs.Partials.{Bytes}
use rart_rs.Partials.Laws.{stripped, missing, ends, goes_on, length_at-append, length-ne_below}
use rart_rs.Node.{node, Kind, is_leaf}
use rart_rs.Node.Valid.{IsValid}
use rart_rs.Node.Lookup.{lookup, lookup_end, lookup_below, lookup_missing, lookup_kids_absent}
use rart_rs.Tree.Remove.Effect.{IsAssign-value, IsOnly-value}
use rart_rs.Tree.Remove.Total.{leaf_childless, Alive-or_empty}
use rart_rs.Tree.Update.Answers.{suc-ne, and_false}
use rart_rs.Versioned.{VersionedNode, versioned, Children, end, more, VersionedTree, num_children}
use rart_rs.Versioned.Plain.{plain, plain_kids, IsUpTo, IsUpToKids, IsUpToKids-later, owned_lem}
use rart_rs.Versioned.Replace.{childless, child_missing}
use rart_rs.Versioned.Laws.{contents, IsValidTree, ValidRoot, get_k-contents}
use rart_rs.Versioned.Remove.{
  bare_root, filter_root, value, remove_root, remove_k, delete_root, delete_k,
}
use rart_rs.Versioned.Remove.Effect.{keep_live, keep_bare}
use rart_rs.Versioned.Remove.Total.{Left, remove_node}
use rart_rs.Versioned.Remove.Delete.{delete_recurse-remove_recurse}

module _ {V : Type 0} where
  -- `t'` is `t` without `key`, one version later if the key was there.
  pub record IsTaken (t t' : VersionedTree V) (key : Bytes) : Type 0 where
    pub valid : IsValidTree t'
    pub here : contents t' key ≡ none
    pub elsewhere : (q : Bytes) → q ≢ key → contents t' q ≡ contents t q
    pub later : t'.version ≡ (if is_some (contents t key) then t.version + 1 else t.version)

  abbrev tree_at : Option (VersionedNode V) → ℕ → VersionedTree V
  tree_at root version = record { root = root; version = version }

  filter_valid : (n : VersionedNode V) → IsValid (plain n) → filter_root (some n) ≡ some n
  unfolding filter_root num_children
  filter_valid (versioned p (some x) kind ks version) w =
      rw (and_false (num_children ks == 0), and_false (not (is_leaf kind)))
  filter_valid (versioned p none kind end version) w = absurd w.1
  filter_valid (versioned p none kind (more e n ks) version) w =
      rw (suc-ne (num_children ks), and_false (not (is_leaf kind)))

  module _ (shared : VersionedNode V → Bool) (version : ℕ) where
    step : version < version + 1
    step = omega arith

    filter-Left :
        (n : VersionedNode V) (o : Option (VersionedNode V)) (key : Bytes)
        → Left shared version (version + 1) step n o key
        → filter_root o ≡ o
    unfolding filter_root
    filter-Left n none key l = refl
    filter-Left n (some n') key l = filter_valid n' l.0.valid

    IsTaken-Left :
        (n : VersionedNode V) (o : Option (VersionedNode V)) (key : Bytes) (x : V)
        → lookup (plain n) key ≡ some x
        → Left shared version (version + 1) step n o key
        → IsTaken (tree_at (some n) version) (tree_at o (version + 1)) key
    IsTaken-Left n none key x there l = record {
      valid = record { rooted = tt };
      here = refl;
      elsewhere = λ q ne. sym (l.elsewhere q ne);
      later = rw there;
    }
    IsTaken-Left n (some n') key x there l = record {
      valid = record { rooted = (l.0.valid, l.1) };
      here = l.0.here;
      elsewhere = l.0.elsewhere;
      later = rw there;
    }

    abbrev RootTakes : VersionedNode V → Bytes → V → Type 0
    RootTakes n key x =
        (o : Option (VersionedNode V)) × (remove_root shared n (version + 1) key
          ≡ done (tree_at o (version + 1), some x))
        × (delete_root shared n (version + 1) key ≡ done (tree_at o (version + 1)))
        × Left shared version (version + 1) step n o key

    module _ (p : Bytes) (v : Option V) (kind : Kind) (ks : Children V) (created : ℕ) (x : V)
        (w : IsValid (node p v kind (plain_kids ks)))
        (u : (created ≤ version) × IsUpToKids version ks) where
      -- The key is the prefix of the root.
      root_here : v ≡ some x → RootTakes (versioned p v kind ks created) p x
      unfolding remove_root delete_root bare_root value
      root_here z = elim (Bool-cases (is_leaf kind)) [
        | inl leaf ↦ (
          none,
          rw (length_at-append [] p, leaf, ==_refl (length p), z),
          rw leaf,
          rw (z, leaf_childless kind (plain_kids ks) w.0 leaf) (IsOnly-value p x kind),
        )
        | inr inner ↦
            let taken = owned_lem shared p v kind ks created (version + 1) (omega (arith, u.0)) in
            elim (Alive-or_empty none (plain_kids ks)) [
              | inl a ↦
                  let kept = keep_live p none kind ks (version + 1) a in
                  (
                    some (versioned p none kind ks (version + 1)),
                    rw (length_at-append [] p, inner, ==_refl (length p), taken, kept, z),
                    rw (length_at-append [] p, inner, ==_refl (length p), taken, kept),
                    (
                      IsAssign-value p v none kind (plain_kids ks) w a,
                      (omega arith, IsUpToKids-later version (version + 1) ks (omega arith) u.1),
                    ),
                  )
              | inr (_, nothing) ↦
                  let kept = keep_bare p kind ks (version + 1) nothing in
                  (
                    none,
                    rw (length_at-append [] p, inner, ==_refl (length p), taken, kept, z),
                    rw (length_at-append [] p, inner, ==_refl (length p), taken, kept),
                    rw (z, nothing) (IsOnly-value p x kind),
                  )
            ]
      ]

      root_below :
          (e : ℕ) (s : Bytes)
          → lookup (node p v kind (plain_kids ks)) (p ++ e ∷ s) ≡ some x
          → RootTakes (versioned p v kind ks created) (p ++ e ∷ s) x
      unfolding remove_root delete_root
      root_below e s there = elim (Bool-cases (is_leaf kind)) [
        | inl leaf ↦
            let gone =
              lookup_below v kind (plain_kids ks) p e s
              ∙ lookup_kids_absent (plain_kids ks) e (e ∷ s)
                  (child_missing e ks (childless e p v kind ks leaf w)) in
            cc
        | inr inner ↦
            let n = versioned p v kind ks created in
            let key = p ++ e ∷ s in
            let (o, eq, l) = remove_node shared version (version + 1) step n [] key x w u there in
            (
              o,
              rw (length_at-append [] key, inner, length-ne_below p e s, eq, filter-Left n o key l),
              rw (
                length_at-append [] key,
                inner,
                length-ne_below p e s,
                delete_recurse-remove_recurse shared (version + 1) n key 0,
                eq,
                filter-Left n o key l,
              ),
              l,
            )
      ]

    root_takes :
        (n : VersionedNode V) (key : Bytes) (x : V)
        → IsValid (plain n)
        → IsUpTo version n
        → lookup (plain n) key ≡ some x
        → RootTakes n key x
    root_takes (versioned p v kind ks created) key x w u there = elim (stripped p key) [
      | missing h ↦ let gone = lookup_missing v kind (plain_kids ks) p key h in cc
      | ends h ↦ rw h (
          root_here p v kind ks created x w u
            (sym (lookup_end v kind (plain_kids ks) p) ∙ (rw h at there)))
      | goes_on e s h ↦ rw h (root_below p v kind ks created x w u e s (rw h at there))
    ]

  IsTaken-refl :
      (t : VersionedTree V) (key : Bytes) → IsValidTree t → contents t key ≡ none → IsTaken t t key
  IsTaken-refl t key w h = record { valid = w; here = h; elsewhere = λ q _. refl; later = rw h }

  module _ (shared : VersionedNode V → Bool) (key : Bytes) where
    -- Both operations, which leave the same tree.
    abbrev Takes : VersionedTree V → Type 0
    Takes t =
        (t' : VersionedTree V) × (remove_k shared t key ≡ done (t', contents t key))
        × (delete_k shared t key ≡ done (t', is_some (contents t key)))
        × IsTaken t t' key

    take_at :
        (root : Option (VersionedNode V)) (version : ℕ)
        → ValidRoot root version
        → Takes (tree_at root version)
    unfolding remove_k delete_k
    take_at none version w =
        let t = tree_at none version in
        (
          t,
          rw (get_k-contents t key),
          rw (get_k-contents t key),
          IsTaken-refl t key (record { rooted = w }) refl,
        )
    take_at (some n) version w =
        let t = tree_at (some n) version in
        elim (Option-cases (lookup (plain n) key)) [
          | inl gone ↦ (
            t,
            rw (get_k-contents t key, gone),
            rw (get_k-contents t key, gone),
            IsTaken-refl t key (record { rooted = w }) gone,
          )
          | inr (x, there) ↦
              let (o, eq, eq', l) = root_takes shared version n key x w.0 w.1 there in
              (
                tree_at o (version + 1),
                rw (get_k-contents t key, there, eq),
                rw (get_k-contents t key, there, eq'),
                IsTaken-Left shared version n o key x there l,
              )
        ]

    -- `remove_k` on a valid tree does not panic, whichever of the nodes other trees share. It returns
    -- the value that the key had, and leaves a valid tree that has nothing at the key and reads as
    -- before everywhere else; it is one version later if the key was there, and has the old version
    -- if not.
    pub remove_k-IsTaken :
        (t : VersionedTree V)
        → IsValidTree t
        → (t' : VersionedTree V) × (remove_k shared t key ≡ done (t', contents t key))
          × IsTaken t t' key
    remove_k-IsTaken t w = let (t', eq, _, i) = take_at t.root t.version w.rooted in (t', eq, i)

    -- `delete_k` on a valid tree leaves the tree that `remove_k` leaves, and tells whether `remove_k`
    -- returns a value; neither panics, whichever of the nodes other trees share.
    pub delete_k-eq-remove_k :
        (t : VersionedTree V)
        → IsValidTree t
        → (t' : VersionedTree V) × (o : Option V) × (remove_k shared t key ≡ done (t', o))
          × (delete_k shared t key ≡ done (t', is_some o))
    delete_k-eq-remove_k t w =
        let (t', eq, eq', _) = take_at t.root t.version w.rooted in (t', contents t key, eq, eq')
