-- ===== src/Versioned/Update/Laws.antt =====
-- `update_k` of the versioned tree as an operation on the map that it stands for.
use rart_rs.Prelude.{
  ℕ, ◌+◌, ◌<◌, ◌≡◌, ◌≢◌, refl, Bool, true, false, Option, none, some, [], if◌then◌else◌, done,
  arith, length, sym,
}
use rart_rs.Partials.{Bytes}
use rart_rs.Node.{nil, empty}
use rart_rs.Node.Valid.{IsBytes}
use rart_rs.Node.Children.{leaf-IsValid}
use rart_rs.Node.Lookup.{lookup, lookup_end, lookup_leaf_ne}
use rart_rs.Tree.Laws.{leb_zero}
use rart_rs.Tree.Update.{SlotUpdate, keep, insert, remove}
use rart_rs.Versioned.{VersionedNode, VersionedTree, new_leaf}
use rart_rs.Versioned.Plain.{plain}
use rart_rs.Versioned.Laws.{contents, IsValidTree, ValidRoot}
use rart_rs.Versioned.Update.{SlotCallback, update_empty, update_k}
use rart_rs.Versioned.Update.Effect.{after, changes, fills, vacant_after, Becomes}
use rart_rs.Versioned.Update.Total.{update_node}

step : (version : ℕ) → version < version + 1
step version = omega arith

module _ {V : Type 0} where
  -- `t'` is `t` with `now` at `key`, one version later if it changed.
  pub record IsSlotUpdate (t t' : VersionedTree V) (key : Bytes) (now : Option V) (changed : Bool)
      : Type 0 where
    pub valid : IsValidTree t'
    pub here : contents t' key ≡ now
    pub elsewhere : (q : Bytes) → q ≢ key → contents t' q ≡ contents t q
    pub later : t'.version ≡ (if changed then t.version + 1 else t.version)

  abbrev tree_at : Option (VersionedNode V) → ℕ → VersionedTree V
  tree_at root version = record { root = root; version = version }

  IsSlotUpdate-refl :
      (t : VersionedTree V) (key : Bytes) (now : Option V)
      → IsValidTree t
      → contents t key ≡ now
      → IsSlotUpdate t t key now false
  IsSlotUpdate-refl t key now w h = record {
    valid = w;
    here = h;
    elsewhere = λ q _. refl;
    later = refl;
  }

  empty_lem :
      (q : SlotUpdate V) (version : ℕ) (key : Bytes)
      → IsBytes key
      → (t' : VersionedTree V) × (update_empty (version + 1) (tree_at none version) key q
          ≡ done (t', fills q))
        × IsSlotUpdate (tree_at none version) t' key (vacant_after q) (fills q)
  unfolding update_empty new_leaf
  empty_lem keep version key b = (
    tree_at none version,
    refl,
    IsSlotUpdate-refl (tree_at none version) key none (record { rooted = tt }) refl,
  )
  empty_lem remove version key b = (
    tree_at none version,
    refl,
    IsSlotUpdate-refl (tree_at none version) key none (record { rooted = tt }) refl,
  )
  empty_lem (insert v) version key b = (
    tree_at (some (new_leaf key v (version + 1))) (version + 1),
    rw (leb_zero (length key)),
    record {
      valid = record { rooted = (leaf-IsValid key v b, (omega arith, tt)) };
      here = lookup_end (some v) empty nil key;
      elsewhere = λ q h. lookup_leaf_ne key v q h;
      later = refl;
    },
  )

  root_lem :
      (n : VersionedNode V) (version : ℕ) (key : Bytes) (now : Option V) (changed : Bool)
      (o : Option (VersionedNode V))
      → ValidRoot (some n) version
      → Becomes version (version + 1) (step version) n key now changed o
      → IsSlotUpdate
          (tree_at (some n) version)
          (tree_at o (if changed then version + 1 else version))
          key
          now
          changed
  root_lem n version key now false o w (z, h) =
      rw z (IsSlotUpdate-refl (tree_at (some n) version) key now (record { rooted = w }) h)
  root_lem n version key now true none w (z, only) = record {
    valid = record { rooted = tt };
    here = sym z;
    elsewhere = λ q ne. sym (only.elsewhere q ne);
    later = refl;
  }
  root_lem n version key now true (some n') w (i, up) = record {
    valid = record { rooted = (i.valid, up) };
    here = i.here;
    elsewhere = i.elsewhere;
    later = refl;
  }

  update_at :
      (shared : VersionedNode V → Bool) (u : SlotCallback V) (root : Option (VersionedNode V))
      (version : ℕ) (key : Bytes)
      → ValidRoot root version
      → IsBytes key
      → (t' : VersionedTree V) × (update_k shared u (tree_at root version) key
          ≡ done (t', changes u (contents (tree_at root version) key)))
        × IsSlotUpdate
            (tree_at root version)
            t'
            key
            (after u (contents (tree_at root version) key))
            (changes u (contents (tree_at root version) key))
  unfolding update_k
  update_at shared u none version key w b = empty_lem u.vacant version key b
  update_at shared u (some n) version key w b =
      let (o, eq, r) =
        update_node shared u version (version + 1) (step version) n [] key w.0 w.1 b in
      (
        tree_at o (if changes u (lookup (plain n) key) then version + 1 else version),
        rw eq,
        root_lem n version key (after u (lookup (plain n) key)) (changes u (lookup (plain n) key)) o
            w r,
      )

  -- `update_k` of a byte string on a valid tree does not panic, whichever of the nodes other trees
  -- share. It tells whether it did anything: a vacant slot is changed only by an insertion, an
  -- occupied one always. The tree that it leaves is valid, has at the key what the callback made of
  -- the slot, reads as before everywhere else, and is one version later exactly if it was changed.
  pub update_k-IsSlotUpdate :
      (shared : VersionedNode V → Bool) (u : SlotCallback V) (t : VersionedTree V) (key : Bytes)
      → IsValidTree t
      → IsBytes key
      → (t' : VersionedTree V) × (update_k shared u t key ≡ done (t', changes u (contents t key)))
        × IsSlotUpdate t t' key (after u (contents t key)) (changes u (contents t key))
  update_k-IsSlotUpdate shared u t key w b = update_at shared u t.root t.version key w.rooted b
