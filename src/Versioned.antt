-- ===== src/Versioned.antt =====
-- The tree with snapshots (rart/src/versioned_tree.rs). An `Arc` is the node that it points to. How
-- many other handles there are is not known to an operation: `shared` tells of a node whether
-- `Arc::try_unwrap` finds one, and a node that was just made has none. `Content` is a kind and the
-- children in the order of their edges, as in Node, so that a copy of a mapping is the mapping.
pub mod Plain
pub mod Replace
pub mod Steps
pub mod Insert
pub mod Laws
pub mod Remove
pub mod Update
use rart_rs.Prelude.{
  ℕ, suc, ◌+◌, min, Bool, true, false, not, ◌&&◌, Option, none, some, ltb, leb, ◌==◌, if◌then◌else◌,
  Run, done, panic, ◌>>=◌, length, is_some,
}
use rart_rs.Partials.{
  Bytes, at, length_at, to_partial, prefix_length_key, partial_after, partial_before,
}
use rart_rs.Node.{Kind, empty, node4, node16, node48, node256, is_leaf, grow, promote}

mutual
  pub data VersionedNode (V : Type 0) : Type 0 where
    versioned : Bytes → Option V → Kind → Children V → ℕ → VersionedNode V

  pub data Children (V : Type 0) : Type 0 where
    end : Children V
    more : ℕ → VersionedNode V → Children V → Children V

pub record VersionedTree (V : Type 0) : Type 0 where
  pub root : Option (VersionedNode V)
  pub version : ℕ

-- What `insert_recurse` returns: the node, whether a value was replaced, and that value if
-- `old_value_out` asks for it.
abbrev pub Inserted : Type 0 → Type 0
Inserted V = VersionedNode V × Bool × Option V

module _ {V : Type 0} where
  unfoldable pub new_leaf : Bytes → V → ℕ → VersionedNode V
  new_leaf prefix value version = versioned prefix (some value) empty end version

  unfoldable pub new_inner : Bytes → ℕ → VersionedNode V
  new_inner prefix version = versioned prefix none node4 end version

  unfoldable pub num_children : Children V → ℕ
  num_children end = 0
  num_children (more e n ks) = suc (num_children ks)

  unfoldable pub seek_child : ℕ → Children V → Option (VersionedNode V)
  seek_child k end = none
  seek_child k (more e n ks) = if e == k then some n else seek_child k ks

  -- `NodeMapping::add_child` and `NodeMapping::delete_child`.
  unfoldable pub add : ℕ → VersionedNode V → Children V → Children V
  add k c end = more k c end
  add k c (more e n ks) = if ltb k e then more k c (more e n ks) else more e n (add k c ks)

  unfoldable pub delete : ℕ → Children V → Children V
  delete k end = end
  delete k (more e n ks) = if e == k then ks else more e n (delete k ks)

unfoldable pub is_full : Kind → ℕ → Bool
is_full node4 n = leb 4 n
is_full node16 n = leb 16 n
is_full node48 n = leb 48 n
is_full node256 n = false
is_full empty n = false

unfoldable pub room_for : Kind → ℕ → Run Kind
room_for kind n = if is_full (promote kind) n then grow (promote kind) else done (promote kind)

module _ {V : Type 0} where
  unfoldable pub add_child : ℕ → VersionedNode V → VersionedNode V → Run (VersionedNode V)
  add_child k c (versioned p v kind ks version) = do
    kind' ← room_for kind (num_children ks)
    done (versioned p v kind' (add k c ks) version)

  -- The child, and the node that is left, which is not shrunk.
  unfoldable pub delete_child : ℕ → VersionedNode V → Option (VersionedNode V) × VersionedNode V
  delete_child k (versioned p v kind ks version) =
      (seek_child k ks, versioned p v kind (delete k ks) version)

  unfoldable pub cow_clone_inner : VersionedNode V → ℕ → VersionedNode V
  cow_clone_inner (versioned p v kind ks _) new_version = versioned p v kind ks new_version

  -- `get_iterate`.
  unfoldable mutual
    pub get_iterate : VersionedNode V → Bytes → ℕ → Run (Option V)
    get_iterate (versioned p v kind ks _) key depth = do
      common ← prefix_length_key p key depth
      if not (common == length p) then done none else do
        remaining ← length_at key depth
        if length p == remaining
            then done v
            else (do k ← at key (depth + length p); get_child ks k key (depth + length p))

    pub get_child : Children V → ℕ → Bytes → ℕ → Run (Option V)
    get_child end k key depth = done none
    get_child (more e n ks) k key depth = elim (e == k) [
      | true ↦ get_iterate n key depth
      | false ↦ get_child ks k key depth
    ]

  unfoldable pub get_k : VersionedTree V → Bytes → Run (Option V)
  get_k t key = elim t.root [ none ↦ done none | some root ↦ get_iterate root key 0 ]

  unfoldable pub new : VersionedTree V
  new = record { root = none; version = 0 }

  unfoldable pub snapshot : VersionedTree V → VersionedTree V
  snapshot t = record { root = t.root; version = t.version + 1 }

  -- Both take a node and the version of the operation; the parts of the key follow `depth`.
  unfoldable pub split_above : VersionedNode V → V → ℕ → ℕ → Run (VersionedNode V)
  split_above (versioned p old kind ks _) value lcp version = do
    new_prefix ← partial_after p lcp
    before ← partial_before p lcp
    edge ← at p lcp
    add_child edge (versioned new_prefix old kind ks version)
        (versioned before (some value) node4 end version)

  unfoldable pub split_fork : VersionedNode V → Bytes → V → ℕ → ℕ → ℕ → Run (VersionedNode V)
  split_fork (versioned p old kind ks _) key value depth lcp version = do
    before ← partial_before p lcp
    k1 ← at p lcp
    k2 ← at key (depth + lcp)
    new_prefix ← partial_after p lcp
    partial ← to_partial key (depth + lcp)
    parent ← add_child k1 (versioned new_prefix old kind ks version) (new_inner before version)
    add_child k2 (new_leaf partial value version) parent

  unfoldable pub replace_value : VersionedNode V → V → Bool → Inserted V
  replace_value (versioned p old kind ks version) value wanted =
      (versioned p (some value) kind ks version, is_some old, if wanted then old else none)

  -- The child was taken out of its parent and is put back after the insertion; or there is none, and
  -- the leaf is added.
  unfoldable pub settle :
      VersionedNode V → ℕ → Run (VersionedNode V) → Option (Inserted V) → Run (Inserted V)
  settle parent k leaf none = do
    c ← leaf
    n ← add_child k c (delete_child k parent).1
    done (n, false, none)
  settle parent k leaf (some (child, was_replaced, old)) = do
    n ← add_child k child (delete_child k parent).1
    done (n, was_replaced, old)

  module _ (shared : VersionedNode V → Bool) where
    -- The node, and whether there are other handles to it.
    unfoldable pub ensure_cow_node : VersionedNode V → ℕ → VersionedNode V × Bool
    ensure_cow_node (versioned p v kind ks version) target =
        if version == target
        then (versioned p v kind ks version, shared (versioned p v kind ks version))
        else if shared (versioned p v kind ks version)
        then (cow_clone_inner (versioned p v kind ks version) target, false)
        else (versioned p v kind ks target, false)

    -- `Arc::try_unwrap` on what `ensure_cow_node` gives.
    unfoldable pub owned : VersionedNode V → ℕ → Run (VersionedNode V)
    owned n target = let (n', other) = ensure_cow_node n target in if other then panic else done n'

    module _ (value : V) (version : ℕ) (wanted : Bool) where
      unfoldable mutual
        pub insert_recurse : VersionedNode V → Bytes → ℕ → Run (Inserted V)
        insert_recurse (versioned p old kind ks created) key depth = do
          let cur = versioned p old kind ks created
          lcp ← prefix_length_key p key depth
          remaining ← length_at key depth
          let is_prefix_match = min (length p) remaining == lcp
          if is_prefix_match && length p == remaining
              then (do n ← owned cur version; done (replace_value n value wanted))
              else if is_prefix_match && ltb remaining (length p)
              then (do n ← split_above cur value lcp version; done (n, false, none))
              else if not is_prefix_match
              then (do n ← split_fork cur key value depth lcp version; done (n, false, none))
              else if is_leaf kind
              then (do
                edge ← at key (depth + lcp)
                partial ← to_partial key (depth + lcp)
                n ← owned cur version
                n' ← add_child edge (new_leaf partial value version) n
                done (n', false, none))
              else do
                k ← at key (depth + length p)
                n ← owned cur version
                visited ← insert_child ks k key (depth + length p)
                settle n k
                    (do
                      partial ← to_partial key (depth + length p)
                      done (new_leaf partial value version))
                    visited

        pub insert_child : Children V → ℕ → Bytes → ℕ → Run (Option (Inserted V))
        insert_child end k key depth = done none
        insert_child (more e n ks) k key depth = elim (e == k) [
          | true ↦ do r ← insert_recurse n key depth; done (some r)
          | false ↦ insert_child ks k key depth
        ]

    -- `insert_k` and `insert_and_replace_k`, which wants the old value.
    unfoldable pub insert_root :
        VersionedTree V → Bytes → V → Bool → Run (VersionedTree V × Bool × Option V)
    insert_root t key value wanted = elim t.root [
      | none ↦ do
        partial ← to_partial key 0
        done (
          record { root = some (new_leaf partial value (t.version + 1)); version = t.version + 1 },
          false,
          none,
        )
      | some root ↦ do
        r ← insert_recurse value (t.version + 1) wanted root key 0
        done (record { root = some r.0; version = t.version + 1 }, r.1, r.2)
    ]

    unfoldable pub insert_k : VersionedTree V → Bytes → V → Run (VersionedTree V × Bool)
    insert_k t key value = do r ← insert_root t key value false; done (r.0, r.1)

    unfoldable pub insert_and_replace_k :
        VersionedTree V → Bytes → V → Run (VersionedTree V × Option V)
    insert_and_replace_k t key value = do r ← insert_root t key value true; done (r.0, r.2)
