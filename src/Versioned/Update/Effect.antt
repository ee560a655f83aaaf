-- ===== src/Versioned/Update/Effect.antt =====
-- What an update of the versioned tree asks for, and what a node stands for after its steps.
use rart_rs.Prelude.{
  ℕ, ◌+◌, ◌<◌, ◌≡◌, refl, Bool, true, false, Option, none, some, ◌∷◌, ◌++◌, done, Run, arith,
  length, take-length_append, drop-length_append,
}
use rart_rs.Partials.{Bytes}
use rart_rs.Partials.Laws.{at_edge, at_end, to_partial-append}
use rart_rs.Node.{node, Kind, empty, node4}
use rart_rs.Node.Valid.{IsValid}
use rart_rs.Node.Lookup.{lookup}
use rart_rs.Tree.Insert.Steps.{leb-length, length-le}
use rart_rs.Tree.Remove.Effect.{IsAssign, IsOnly, IsAssign-value, IsOnly-value}
use rart_rs.Tree.Update.{SlotUpdate, keep, insert, remove}
use rart_rs.Tree.Update.Answers.{suc-ne}
use rart_rs.Versioned.{
  VersionedNode, versioned, Children, end, more, add, add_child, split_above, split_fork, new_leaf,
  new_inner, num_children,
}
use rart_rs.Versioned.Plain.{plain, plain_kids, IsUpTo, IsUpToKids, owned_lem}
use rart_rs.Versioned.Steps.{add_child_first, add_child_second}
use rart_rs.Versioned.Update.{
  SlotCallback, UpdateResult, versioned_vacant_update, fill, apply_action, append_leaf,
}

module _ {V : Type 0} where
  abbrev pub vacant_after : SlotUpdate V → Option V
  vacant_after (insert v) = some v
  vacant_after keep = none
  vacant_after remove = none

  abbrev pub occupied_after : V × SlotUpdate V → Option V
  occupied_after (w, keep) = some w
  occupied_after (w, insert x) = some x
  occupied_after (w, remove) = none

  -- The value that the key has afterwards.
  abbrev pub after : SlotCallback V → Option V → Option V
  after u none = vacant_after u.vacant
  after u (some old) = occupied_after (u.occupied old)

  abbrev pub fills : SlotUpdate V → Bool
  fills (insert v) = true
  fills keep = false
  fills remove = false

  -- Whether the update counts as a change.
  abbrev pub changes : SlotCallback V → Option V → Bool
  changes u none = fills u.vacant
  changes u (some old) = true

  module _ (m target : ℕ) (later : m < target) where
    -- What an update makes of a node, which has `now` at the key afterwards.
    abbrev pub Becomes :
        VersionedNode V → Bytes → Option V → Bool → Option (VersionedNode V) → Type 0
    Becomes n rest now true none = (now ≡ none) × IsOnly (plain n) rest
    Becomes n rest now true (some n') = IsAssign (plain n) (plain n') rest now × IsUpTo target n'
    Becomes n rest now false o = (o ≡ some n) × (lookup (plain n) rest ≡ now)

    abbrev pub Ends : Run (UpdateResult V) → VersionedNode V → Bytes → Option V → Bool → Type 0
    Ends run n rest now changed =
        (o : Option (VersionedNode V)) × (run ≡ done (o, changed)) × Becomes n rest now changed o

    -- The place at which a vacant slot is filled.
    abbrev pub Places : (V → Run (VersionedNode V)) → VersionedNode V → Bytes → Type 0
    Places place n rest =
        (value : V)
        → (n' : VersionedNode V) × (place value ≡ done n')
          × IsAssign (plain n) (plain n') rest (some value)
          × IsUpTo target n'

    pub fill_lem :
        (q : SlotUpdate V) (n : VersionedNode V) (rest : Bytes) (place : V → Run (VersionedNode V))
        → lookup (plain n) rest ≡ none
        → Places place n rest
        → Ends (fill (versioned_vacant_update q) n place) n rest (vacant_after q) (fills q)
    unfolding fill versioned_vacant_update
    fill_lem keep n rest place h t = (some n, refl, (refl, h))
    fill_lem remove n rest place h t = (some n, refl, (refl, h))
    fill_lem (insert v) n rest place h t = let (n', eq, i, up) = t v in (some n', rw eq, (i, up))

    pub occupied_lem :
        (p : Bytes) (old : V) (kind : Kind) (ks : Children V) (created : ℕ) (q : V × SlotUpdate V)
        → IsValid (node p (some old) kind (plain_kids ks))
        → IsUpToKids target ks
        → Ends
            (done (apply_action (versioned p (some old) kind ks target) q))
            (versioned p (some old) kind ks created)
            p
            (occupied_after q)
            true
    unfolding apply_action num_children
    occupied_lem p old kind ks created (x, keep) w up = (
      some (versioned p (some x) kind ks target),
      refl,
      (IsAssign-value p (some old) (some x) kind (plain_kids ks) w tt, (omega arith, up)),
    )
    occupied_lem p old kind ks created (x, insert y) w up = (
      some (versioned p (some y) kind ks target),
      refl,
      (IsAssign-value p (some old) (some y) kind (plain_kids ks) w tt, (omega arith, up)),
    )
    occupied_lem p old kind end created (x, remove) w up =
        (none, refl, (refl, IsOnly-value p old kind))
    occupied_lem p old kind (more e n ks) created (x, remove) w up = (
      some (versioned p none kind (more e n ks) target),
      rw (suc-ne (num_children ks)),
      (IsAssign-value p (some old) none kind (plain_kids (more e n ks)) w tt, (omega arith, up)),
    )

module _ {V : Type 0} (v : Option V) (kind : Kind) (ks : Children V) (created target : ℕ)
    (value : V) where
  pub split_above_done :
      (rest : Bytes) (e : ℕ) (q : Bytes)
      → split_above (versioned (rest ++ e ∷ q) v kind ks created) value (length rest) target
        ≡ done (
            versioned rest
              (some value)
              node4
              (more e (versioned (e ∷ q) v kind ks target) end)
              target)
  unfolding split_above
  split_above_done rest e q = rw (
    leb-length rest (e ∷ q),
    drop-length_append,
    take-length_append,
    at_end rest e q,
    add_child_first e (versioned (e ∷ q) v kind ks target) rest (some value) target,
  )

  pub split_fork_done :
      (pre c : Bytes) (a b : ℕ) (q s : Bytes)
      → split_fork
          (versioned (c ++ a ∷ q) v kind ks created)
          (pre ++ (c ++ b ∷ s))
          value
          (length pre)
          (length c)
          target
        ≡ done (
            versioned c none node4
              (add b
                (versioned (b ∷ s) (some value) empty end target)
                (more a (versioned (a ∷ q) v kind ks target) end))
              target)
  unfolding split_fork new_inner new_leaf
  split_fork_done pre c a b q s = rw (
    leb-length c (a ∷ q),
    drop-length_append,
    take-length_append,
    at_end c a q,
    at_edge pre c b s,
    to_partial-append pre (c ++ b ∷ s) (length c) (length-le c (b ∷ s)),
    drop-length_append,
    add_child_first a (versioned (a ∷ q) v kind ks target) c none target,
    add_child_second b (versioned (b ∷ s) (some value) empty end target) a
        (versioned (a ∷ q) v kind ks target) c none target,
  )

  pub append_leaf_done :
      (shared : VersionedNode V → Bool) (u : SlotCallback V) (pre p : Bytes) (e : ℕ) (s : Bytes)
      → created < target
      → append_leaf shared u target
          (versioned p v kind ks created)
          e
          (pre ++ (p ++ e ∷ s))
          value
          (length pre + length p)
        ≡ add_child e
            (versioned (e ∷ s) (some value) empty end target)
            (versioned p v kind ks target)
  unfolding append_leaf new_leaf
  append_leaf_done shared u pre p e s h = rw (
    to_partial-append pre (p ++ e ∷ s) (length p) (length-le p (e ∷ s)),
    drop-length_append,
    owned_lem shared p v kind ks created target h,
  )
