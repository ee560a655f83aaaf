-- ===== src/Versioned/Laws.antt =====
-- The operations of the versioned tree as operations on the map that it stands for.
use rart_rs.Prelude.{
  ℕ, ◌+◌, ◌≡◌, ◌≢◌, refl, Bool, true, false, Option, none, some, [], ◌∷◌, ◌++◌, if◌then◌else◌, done,
  arith, length, is_some, ==_refl, append_assoc, length-append,
}
use rart_rs.Partials.{Bytes}
use rart_rs.Partials.Laws.{
  stripped, missing, ends, goes_on, strip, strip_self, strip-below, prefix_length_key-append,
  length_at-append, length-ne_below, at_edge,
}
use rart_rs.Node.{nil, Kind, empty}
use rart_rs.Node.Valid.{IsValid, IsBytes}
use rart_rs.Node.Children.{leaf-IsValid}
use rart_rs.Node.Lookup.{lookup, lookup_kids, lookup_end, lookup_leaf_ne}
use rart_rs.Tree.Laws.{leb_zero}
use rart_rs.Tree.Insert.Total.{if_same}
use rart_rs.Tree.Remove.Steps.{common_test}
use rart_rs.Versioned.{
  VersionedNode, versioned, Children, end, more, VersionedTree, get_iterate, get_child, get_k,
  insert_root, insert_k, insert_and_replace_k, new_leaf, snapshot,
}
use rart_rs.Versioned.Plain.{plain, plain_kids, IsUpTo, IsUpTo-later}
use rart_rs.Versioned.Insert.{insert_node}

module _ {V : Type 0} where
  abbrev pub contents : VersionedTree V → Bytes → Option V
  contents t key = elim t.root [ none ↦ none | some root ↦ lookup (plain root) key ]

  abbrev pub ValidRoot : Option (VersionedNode V) → ℕ → Type 0
  ValidRoot none version = Unit
  ValidRoot (some n) version = IsValid (plain n) × IsUpTo version n

  -- The root is valid, and no node is of a later version than the tree.
  pub record IsValidTree (t : VersionedTree V) : Type 0 where
    pub rooted : ValidRoot t.root t.version

  -- `t'` is `t` with `value` at `key`, one version later.
  pub record IsPut (t t' : VersionedTree V) (key : Bytes) (value : V) : Type 0 where
    pub valid : IsValidTree t'
    pub here : contents t' key ≡ some value
    pub elsewhere : (q : Bytes) → q ≢ key → contents t' q ≡ contents t q
    pub later : t'.version ≡ t.version + 1

  module _ (v : Option V) (kind : Kind) (ks : Children V) (version : ℕ) where
    get_missing :
        (pre p rest : Bytes)
        → strip p rest ≡ none
        → get_iterate (versioned p v kind ks version) (pre ++ rest) (length pre) ≡ done none
    unfolding get_iterate
    get_missing pre p rest h = rw (prefix_length_key-append pre rest p, common_test p rest, h)

    get_here :
        (pre p : Bytes)
        → get_iterate (versioned p v kind ks version) (pre ++ p) (length pre) ≡ done v
    unfolding get_iterate
    get_here pre p = rw (
      prefix_length_key-append pre p p,
      common_test p p,
      strip_self p,
      length_at-append pre p,
      ==_refl (length p),
    )

    get_below :
        (pre p : Bytes) (e : ℕ) (s : Bytes)
        → get_iterate (versioned p v kind ks version) (pre ++ (p ++ e ∷ s)) (length pre)
          ≡ get_child ks e ((pre ++ p) ++ e ∷ s) (length (pre ++ p))
    unfolding get_iterate
    get_below pre p e s = rw (
      prefix_length_key-append pre (p ++ e ∷ s) p,
      common_test p (p ++ e ∷ s),
      strip-below p (e ∷ s),
      length_at-append pre (p ++ e ∷ s),
      length-ne_below p e s,
      at_edge pre p e s,
      append_assoc,
      length-append,
    )

  mutual
    unfolding get_iterate lookup

    get_node_lem :
        (n : VersionedNode V) (pre rest : Bytes)
        → get_iterate n (pre ++ rest) (length pre) ≡ done (lookup (plain n) rest)
    get_node_lem (versioned p v kind ks version) pre rest = elim (stripped p rest) [
      | missing h ↦ rw h (get_missing v kind ks version pre p rest h)
      | ends h ↦ rw (h, strip_self p) (get_here v kind ks version pre p)
      | goes_on e s h ↦
          rw (h, strip-below p (e ∷ s), get_below v kind ks version pre p e s)
            (get_child_lem ks (pre ++ p) e (e ∷ s))
    ]

    get_child_lem :
        (ks : Children V) (pre : Bytes) (k : ℕ) (rest : Bytes)
        → get_child ks k (pre ++ rest) (length pre) ≡ done (lookup_kids (plain_kids ks) k rest)
    get_child_lem end pre k rest = refl
    get_child_lem (more e n ks) pre k rest =
        ground (arith, get_node_lem n pre rest, get_child_lem ks pre k rest)

  get_root :
      (root : Option (VersionedNode V)) (key : Bytes)
      → (elim root [ none ↦ done none | some n ↦ get_iterate n key 0 ])
        ≡ done (elim root [ none ↦ none | some n ↦ lookup (plain n) key ])
  get_root none key = refl
  get_root (some n) key = get_node_lem n [] key

  -- `get_k` of a versioned tree never panics, and returns what the tree stands for.
  pub get_k-contents : (t : VersionedTree V) (key : Bytes) → get_k t key ≡ done (contents t key)
  unfolding get_k
  get_k-contents t key = get_root t.root key

  -- A snapshot of a valid tree is valid, stands for the same map, and is one version later.
  pub snapshot-IsValidTree :
      (t : VersionedTree V)
      → IsValidTree t
      → IsValidTree (snapshot t)
        × ((q : Bytes) → contents (snapshot t) q ≡ contents t q)
        × ((snapshot t).version ≡ t.version + 1)
  unfolding snapshot
  snapshot-IsValidTree t w =
      (record { rooted = later_root t.root t.version w.rooted }, λ q. refl, refl)
    where
      later_root :
          (root : Option (VersionedNode V)) (version : ℕ)
          → ValidRoot root version
          → ValidRoot root (version + 1)
      later_root none version h = tt
      later_root (some n) version h = (h.0, IsUpTo-later version (version + 1) n (omega arith) h.1)

  module _ (shared : VersionedNode V → Bool) (key : Bytes) (value : V) (wanted : Bool) where
    insert_at :
        (root : Option (VersionedNode V)) (version : ℕ)
        → ValidRoot root version
        → IsBytes key
        → let t : VersionedTree V = record { root = root; version = version } in
          (t' : VersionedTree V) × (insert_root shared t key value wanted
            ≡ done (t', is_some (contents t key), if wanted then contents t key else none))
          × IsPut t t' key value
    unfolding insert_root new_leaf
    insert_at none version w b = (
      record { root = some (new_leaf key value (version + 1)); version = version + 1 },
      rw (leb_zero (length key), if_same wanted),
      record {
        valid = record { rooted = (leaf-IsValid key value b, (omega arith, tt)) };
        here = lookup_end (some value) empty nil key;
        elsewhere = λ q h. lookup_leaf_ne key value q h;
        later = refl;
      },
    )
    insert_at (some n) version w b =
        let (n', eq, i, u) =
          insert_node shared value version (version + 1) wanted (omega arith) n [] key w.0 w.1 b in
        (
          record { root = some n'; version = version + 1 },
          rw eq,
          record {
            valid = record { rooted = (i.valid, u) };
            here = i.here;
            elsewhere = i.elsewhere;
            later = refl;
          },
        )

  module _ (shared : VersionedNode V → Bool) (t : VersionedTree V) (key : Bytes) (value : V)
      (w : IsValidTree t) (b : IsBytes key) where
    -- `insert_k` on a valid tree (no node is of a later version than it), of a byte string, does not panic, whichever of the nodes other
    -- trees share. It tells whether the key had a value, and leaves a valid tree, one version later,
    -- that has the value at the key and reads as before everywhere else.
    pub insert_k-IsPut :
        (t' : VersionedTree V) × (insert_k shared t key value ≡ done (t', is_some (contents t key)))
        × IsPut t t' key value
    unfolding insert_k
    insert_k-IsPut =
        let (t', eq, i) = insert_at shared key value false t.root t.version w.rooted b in
        (t', rw eq, i)

    -- `insert_and_replace_k` on a valid tree, of a byte string, does not panic, whichever of the
    -- nodes other trees share. It returns the value that the key had, and leaves a valid tree, one
    -- version later, that has the value at the key and reads as before everywhere else.
    pub insert_and_replace_k-IsPut :
        (t' : VersionedTree V) × (insert_and_replace_k shared t key value
          ≡ done (t', contents t key))
        × IsPut t t' key value
    unfolding insert_and_replace_k
    insert_and_replace_k-IsPut =
        let (t', eq, i) = insert_at shared key value true t.root t.version w.rooted b in
        (t', rw eq, i)
