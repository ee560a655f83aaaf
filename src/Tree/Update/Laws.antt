-- ===== src/Tree/Update/Laws.antt =====
-- The update operations as changes to the map that a tree stands for.
use rart_rs.Prelude.{
  ℕ, ◌+◌, ◌-◌, ◌≡◌, ◌≢◌, refl, Bool, true, false, Option, none, some, [], ◌∷◌, ◌⊎◌, arith, inl, inr,
  done, Run, length, eq_or_ne, ◌∙◌,
}
use rart_rs.Partials.{Bytes}
use rart_rs.Node.{Node, new_leaf}
use rart_rs.Node.Valid.{IsBytes}
use rart_rs.Node.Lookup.{lookup}
use rart_rs.Node.Size.{size, found}
use rart_rs.Tree.{Tree}
use rart_rs.Tree.Get.{contents}
use rart_rs.Tree.Laws.{
  IsValidTree, ValidRoot, IsUpdate, IsUpdate-leaf, leaf_tree, leb_zero, tree_at,
}
use rart_rs.Tree.Remove.Map.{IsUpdate-only, IsUpdate-refl}
use rart_rs.Tree.Remove.Effect.{IsAssign}
use rart_rs.Tree.Update.{
  Callback, Result, ok, err, SlotUpdate, keep, insert, remove, Change, update_empty, count_update,
  try_update_k_inner, try_update_k, settled, update_k,
}
use rart_rs.Tree.Update.Answers.{
  after, answer, change, vacant_after, vacant_answer, occupied_after, occupied_answer, counts,
  drops_answer,
}
use rart_rs.Tree.Update.Effect.{Outcome, stays, drops}
use rart_rs.Tree.Update.Total.{update_node}

-- Whether two keys are the same.
eq_or_ne_bytes : (p q : Bytes) → (p ≡ q) ⊎ (p ≢ q)
eq_or_ne_bytes [] [] = inl refl
eq_or_ne_bytes [] (y ∷ q) = inr (λ h. cc)
eq_or_ne_bytes (x ∷ p) [] = inr (λ h. cc)
eq_or_ne_bytes (x ∷ p) (y ∷ q) = elim (eq_or_ne x y) [
  | inl h ↦ elim (eq_or_ne_bytes p q) [ inl h' ↦ inl cc | inr h' ↦ inr (λ e. h' cc) ]
  | inr h ↦ inr (λ e. h cc)
]

module _ {V : Type 0} where
  IsUpdate-assign :
      (n n' : Node V) (len : ℕ) (key : Bytes) (now : Option V)
      → len ≡ size n
      → IsAssign n n' key now
      → (len' : ℕ) → len' + found (lookup n key) ≡ len + found now
      → IsUpdate (tree_at (some n) len) (tree_at (some n') len') key now
  IsUpdate-assign n n' len key now e i len' c = record {
    valid = record { rooted = (i.valid, omega (arith, i.counted)) };
    here = i.here;
    elsewhere = i.elsewhere;
    counted = c;
  }

module _ {E V : Type 0} where
  -- A tree that the update leaves, with its answer.
  abbrev Ends : Run (Tree V × Result E Bool) → Tree V → Bytes → Option V → Result E Bool → Type 0
  Ends run t key now says = (t' : Tree V) × (run ≡ done (t', says)) × IsUpdate t t' key now

  empty_lem :
      (q : Result E (SlotUpdate V)) (t : Tree V) (key : Bytes)
      → IsValidTree t
      → t.root ≡ none
      → t.len ≡ 0
      → IsBytes key
      → Ends (update_empty t key q) t key (vacant_after q) (vacant_answer q)
  unfolding update_empty new_leaf
  empty_lem (err e) t key v h z b = (t, refl, IsUpdate-refl t key v (rw h))
  empty_lem (ok keep) t key v h z b = (t, refl, IsUpdate-refl t key v (rw h))
  empty_lem (ok remove) t key v h z b = (t, refl, IsUpdate-refl t key v (rw h))
  empty_lem (ok (insert x)) t key v h z b =
      (leaf_tree key x, rw (leb_zero (length key)), IsUpdate-leaf t key x h z b)

  vacant_err :
      (q : Result E (SlotUpdate V)) (e : E) → vacant_answer q ≡ err e → vacant_after q ≡ none
  vacant_err (err e') e h = refl
  vacant_err (ok keep) e h = refl
  vacant_err (ok (insert v)) e h = cc
  vacant_err (ok remove) e h = refl

  occupied_err :
      (old : V) (q : V × Result E (SlotUpdate V)) (e : E)
      → occupied_answer q ≡ err e
      → occupied_after true old q ≡ some old
  occupied_err old (v, err e') e h = refl
  occupied_err old (v, ok keep) e h = cc
  occupied_err old (v, ok (insert w)) e h = cc
  occupied_err old (v, ok remove) e h = cc

  module _ (rollback : Bool) (u : Callback E V) where
    root_lem :
        (n n' : Node V) (len : ℕ) (key : Bytes) (result : Result E Change)
        → len ≡ size n
        → Outcome n n' key (after rollback u (lookup n key)) (change u (lookup n key)) result
        → (t' : Tree V) × (count_update len n' result ≡ (t', answer u (lookup n key)))
          × IsUpdate (tree_at (some n) len) t' key (after rollback u (lookup n key))
    unfolding count_update
    root_lem n n' len key result e (stays z i) =
        let (len', eq, c) = counts rollback u len n' (lookup n key) (omega (arith, e, i.counted)) in
        (
          tree_at (some n') len',
          rw z eq,
          IsUpdate-assign n n' len key (after rollback u (lookup n key)) e i len' c,
        )
    root_lem n n' len key result e (drops z z' z'' o) = (
      tree_at none (len - 1),
      rw (z, drops_answer u (lookup n key) z'),
      rw z'' (IsUpdate-only n len key e o),
    )

    update_at :
        (root : Option (Node V)) (len : ℕ) (key : Bytes)
        → ValidRoot root len
        → IsBytes key
        → Ends
            (try_update_k_inner rollback u (tree_at root len) key)
            (tree_at root len)
            key
            (after rollback u (contents (tree_at root len) key))
            (answer u (contents (tree_at root len) key))
    unfolding try_update_k_inner
    update_at none len key w b =
        empty_lem u.vacant (tree_at none len) key (record { rooted = w }) refl w b
    update_at (some n) len key w b =
        let (n', result, eq, out) = update_node rollback u n [] key w.0 b in
        let (t', eq', i) = root_lem n n' len key result w.1 out in (t', rw (eq, eq'), i)

    -- An update of a byte string on a valid tree does not panic, with and without rollback. It answers with the error
    -- of the callback, or whether it did anything: a vacant slot is filled only by an insertion, an
    -- occupied one counts as changed. The tree that it leaves is valid, has at the key what the
    -- callback made of the slot, reads as before everywhere else, and counts its entries; after an
    -- error at an occupied slot the old value is there with rollback, the one that the callback
    -- left without.
    pub try_update_k_inner_lem :
        (t : Tree V) (key : Bytes)
        → IsValidTree t
        → IsBytes key
        → (t' : Tree V) × (try_update_k_inner rollback u t key
            ≡ done (t', answer u (contents t key)))
          × IsUpdate t t' key (after rollback u (contents t key))
    try_update_k_inner_lem t key v b = update_at t.root t.len key v.rooted b

  after_err : (u : Callback E V) (o : Option V) (e : E) → answer u o ≡ err e → after true u o ≡ o
  after_err u none e h = vacant_err u.vacant e h
  after_err u (some old) e h = occupied_err old (u.occupied old) e h

  -- `try_update_k` of a byte string on a valid tree: when the callback gives an error, the error is returned, and the
  -- tree that is left is valid, has the same count and reads the same at every key.
  pub try_update_k-err :
      (u : Callback E V) (t : Tree V) (key : Bytes) (e : E)
      → IsValidTree t
      → IsBytes key
      → answer u (contents t key) ≡ err e
      → (t' : Tree V) × (try_update_k u t key ≡ done (t', err e))
        × IsValidTree t'
        × (t'.len ≡ t.len)
        × ((q : Bytes) → contents t' q ≡ contents t q)
  unfolding try_update_k
  try_update_k-err u t key e v b h =
      let (t', eq, i) = try_update_k_inner_lem true u t key v b in
      let same : contents t' key ≡ contents t key = i.here ∙ after_err u (contents t key) e h in
      (
        t',
        rw (eq, h),
        i.valid,
        omega (arith, rw (after_err u (contents t key) e h) at i.counted),
        λ q. elim (eq_or_ne_bytes q key) [ inl z ↦ rw z same | inr ne ↦ i.elsewhere q ne ],
      )

abbrev pub did : Result ⊥ Bool → Bool
did (ok b) = b
did (err e) = absurd e

module _ {V : Type 0} where
  settle : (t : Tree V) (q : Result ⊥ Bool) → settled (t, q) ≡ done (t, did q)
  unfolding settled
  settle t (ok b) = refl
  settle t (err e) = absurd e

  -- `update_k` of a byte string on a valid tree does not panic, tells whether it did anything, and leaves a valid tree
  -- that has at the key what the callback made of the slot and reads as before everywhere else.
  pub update_k_lem :
      (u : Callback ⊥ V) (t : Tree V) (key : Bytes)
      → IsValidTree t
      → IsBytes key
      → (t' : Tree V) × (update_k u t key ≡ done (t', did (answer u (contents t key))))
        × IsUpdate t t' key (after false u (contents t key))
  unfolding update_k settled
  update_k_lem u t key v b =
      let (t', eq, i) = try_update_k_inner_lem false u t key v b in
      (t', rw (eq, settle t' (answer u (contents t key))), i)
