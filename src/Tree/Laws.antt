-- ===== src/Tree/Laws.antt =====
-- The public operations as changes to the map that a tree stands for, with its count.
use rart_rs.Prelude.{
  ℕ, ◌+◌, ◌≡◌, ◌≢◌, refl, Bool, true, false, Option, none, some, done, arith, length, inl, inr,
  Option-cases, subst, leb,
}
use rart_rs.Partials.{Bytes}
use rart_rs.Node.{Node, node, nil, empty, new_leaf}
use rart_rs.Node.Valid.{IsValid, IsBytes}
use rart_rs.Node.Children.{leaf-IsValid}
use rart_rs.Node.Lookup.{lookup, lookup_end, lookup_leaf_ne}
use rart_rs.Node.Size.{size, found}
use rart_rs.Tree.{Tree, insert_k, try_insert_k}
use rart_rs.Tree.Get.{contents}
use rart_rs.Tree.Insert.Splits.{IsInsert, stored}
use rart_rs.Tree.Insert.Effect.{stored-found}
use rart_rs.Tree.Insert.Total.{insert_recurse_total}

pub leb_zero : (n : ℕ) → leb 0 n ≡ true
leb_zero n = ground arith

module _ {V : Type 0} where
  abbrev pub ValidRoot : Option (Node V) → ℕ → Type 0
  ValidRoot none len = len ≡ 0
  ValidRoot (some n) len = IsValid n × (len ≡ size n)

  -- The root is valid, and `len` counts the values.
  pub record IsValidTree (t : Tree V) : Type 0 where
    pub rooted : ValidRoot t.root t.len

  -- `t'` is `t` with `value` at `key`.
  pub record IsUpdate (t t' : Tree V) (key : Bytes) (now : Option V) : Type 0 where
    pub valid : IsValidTree t'
    pub here : contents t' key ≡ now
    pub elsewhere : (q : Bytes) → q ≢ key → contents t' q ≡ contents t q
    pub counted : t'.len + found (contents t key) ≡ t.len + found now

  abbrev pub leaf_tree : Bytes → V → Tree V
  leaf_tree key value = record { root = some (node key (some value) empty nil); len = 1 }

  pub IsUpdate-leaf :
      (t : Tree V) (key : Bytes) (value : V)
      → t.root ≡ none
      → t.len ≡ 0
      → IsBytes key
      → IsUpdate t (leaf_tree key value) key (some value)
  unfolding size
  IsUpdate-leaf t key value e z b = record {
    valid = record { rooted = (leaf-IsValid key value b, refl) };
    here = lookup_end (some value) empty nil key;
    elsewhere = λ q h. rw e (lookup_leaf_ne key value q h);
    counted = rw (e, z);
  }

  IsUpdate-insert :
      (n n' : Node V) (len : ℕ) (key : Bytes) (value : V) (replace : Bool)
      → len ≡ size n
      → IsInsert n n' key value replace
      → (len' : ℕ) → len' + found (lookup n key) ≡ len + 1
      → IsUpdate
          (record { root = some n; len = len })
          (record { root = some n'; len = len' })
          key
          (stored (lookup n key) value replace)
  IsUpdate-insert n n' len key value replace e i len' c = record {
    valid = record { rooted = (i.valid, omega (arith, i.counted)) };
    here = i.here;
    elsewhere = i.elsewhere;
    counted = omega (arith, c, stored-found (lookup n key) value replace);
  }

  abbrev pub tree_at : Option (Node V) → ℕ → Tree V
  tree_at root len = record { root = root; len = len }

  insert_at :
      (root : Option (Node V)) (len : ℕ) (key : Bytes) (value : V)
      → ValidRoot root len
      → IsBytes key
      → (t' : Tree V) × (insert_k (tree_at root len) key value
          ≡ done (t', contents (tree_at root len) key))
        × IsUpdate (tree_at root len) t' key (some value)
  unfolding insert_k new_leaf
  insert_at none len key value v b = (
    leaf_tree key value,
    rw (leb_zero (length key)),
    IsUpdate-leaf (tree_at none len) key value refl v b,
  )
  insert_at (some n) len key value v b =
      let (n', eq, i) = insert_recurse_total n key value true v.0 b in
      let update = IsUpdate-insert n n' len key value true v.1 i in
      elim (Option-cases (lookup n key)) [
        | inl vacant ↦ (
          tree_at (some n') (len + 1),
          rw (eq, vacant),
          subst
              (λ o.
                IsUpdate (tree_at (some n) len) (tree_at (some n') (len + 1)) key
                  (stored o value true))
              vacant (update (len + 1) (rw vacant (omega arith))),
        )
        | inr (old, there) ↦ (
          tree_at (some n') len,
          rw (eq, there),
          subst
              (λ o.
                IsUpdate (tree_at (some n) len) (tree_at (some n') len) key (stored o value true))
              there (update len (rw there)),
        )
      ]

  -- `insert_k` on a valid tree does not panic. It returns the value that the key had, and leaves a
  -- valid tree that has the new value at the key, reads as before everywhere else, and counts one
  -- entry more exactly if the key was vacant.
  pub insert_k_lem :
      (t : Tree V) (key : Bytes) (value : V)
      → IsValidTree t
      → IsBytes key
      → (t' : Tree V) × (insert_k t key value ≡ done (t', contents t key))
        × IsUpdate t t' key (some value)
  insert_k_lem t key value v b = insert_at t.root t.len key value v.rooted b

  -- What `try_insert_k` returns: nothing, or the proposed and the present value.
  abbrev pub refusal : Option V → V → Option (V × V)
  refusal none value = none
  refusal (some old) value = some (value, old)

  try_insert_at :
      (root : Option (Node V)) (len : ℕ) (key : Bytes) (value : V)
      → ValidRoot root len
      → IsBytes key
      → (t' : Tree V) × (try_insert_k (tree_at root len) key value
          ≡ done (t', refusal (contents (tree_at root len) key) value))
        × IsUpdate (tree_at root len) t' key (stored (contents (tree_at root len) key) value false)
  unfolding try_insert_k new_leaf
  try_insert_at none len key value v b = (
    leaf_tree key value,
    rw (leb_zero (length key)),
    IsUpdate-leaf (tree_at none len) key value refl v b,
  )
  try_insert_at (some n) len key value v b =
      let (n', eq, i) = insert_recurse_total n key value false v.0 b in
      let update = IsUpdate-insert n n' len key value false v.1 i in
      elim (Option-cases (lookup n key)) [
        | inl vacant ↦ (
          tree_at (some n') (len + 1),
          rw (eq, vacant),
          update (len + 1) (rw vacant (omega arith)),
        )
        | inr (old, there) ↦ (tree_at (some n') len, rw (eq, there), update len (rw there))
      ]

  -- `try_insert_k` on a valid tree does not panic. A vacant key gets the value; an occupied one keeps
  -- its value, and the proposed and the present value are returned. Every other key reads as before.
  pub try_insert_k_lem :
      (t : Tree V) (key : Bytes) (value : V)
      → IsValidTree t
      → IsBytes key
      → (t' : Tree V) × (try_insert_k t key value ≡ done (t', refusal (contents t key) value))
        × IsUpdate t t' key (stored (contents t key) value false)
  try_insert_k_lem t key value v b = try_insert_at t.root t.len key value v.rooted b
