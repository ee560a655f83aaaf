-- ===== src/Tree/Remove/Map.antt =====
-- `remove_k` and `delete_k` as changes to the map that a tree stands for.
use rart_rs.Tree.Remove.Steps.{common_test}
use rart_rs.Prelude.{
  ◌≤◌, ℕ, ◌+◌, ◌-◌, ◌≡◌, ◌≢◌, refl, true, Option, none, some, [], ◌∷◌, ◌++◌, if◌then◌else◌, arith,
  sym, inl, inr, is_some, done, ◌>>=◌, length, ==_refl, Bool-cases, subst,
}
use rart_rs.Partials.{Bytes}
use rart_rs.Partials.Laws.{
  stripped, missing, ends, goes_on, strip, strip_self, strip-below, prefix_length_key-append,
  length_at-append, at_end, length-ne_below, common_length-below,
}
use rart_rs.Node.{
  Node, node, Kids, nil, cons, Kind, empty, node4, node16, node48, node256, num_children, capacity,
}
use rart_rs.Node.Valid.{IsValid, Fits}
use rart_rs.Node.Lookup.{lookup, lookup_end, lookup_below, lookup_missing}
use rart_rs.Node.Size.{size, found}
use rart_rs.Tree.{Tree}
use rart_rs.Tree.Get.{contents}
use rart_rs.Tree.Laws.{IsValidTree, ValidRoot, IsUpdate, tree_at}
use rart_rs.Tree.Remove.{is_dead, remove_recurse, remove_root, remove_k, delete_k}
use rart_rs.Tree.Remove.Effect.{
  IsRemove, IsOnly, Leaves, IsRemove-refl, IsOnly-value, IsRemove-value,
}
use rart_rs.Tree.Remove.Total.{remove_kids, take-Visit}

module _ {V : Type 0} where
  found-is_some : (o : Option V) → found o ≡ 1 → is_some o ≡ true
  found-is_some (some v) h = refl
  found-is_some none h = absurd (omega arith)

  one_less :
      {len : ℕ} (o : Option V)
      → found o ≤ len
      → (if is_some o then len - 1 else len) + found o ≡ len
  one_less (some v) h = omega arith
  one_less none h = omega arith

  pub IsUpdate-remove :
      (n n' : Node V) (len : ℕ) (key : Bytes)
      → len ≡ size n
      → IsRemove n n' key
      → (len' : ℕ) → len' + found (lookup n key) ≡ len
      → IsUpdate (tree_at (some n) len) (tree_at (some n') len') key none
  IsUpdate-remove n n' len key e i len' c = record {
    valid = record { rooted = (i.valid, omega (arith, i.counted)) };
    here = i.here;
    elsewhere = i.elsewhere;
    counted = omega (arith, c);
  }

  pub IsUpdate-only :
      (n : Node V) (len : ℕ) (key : Bytes)
      → len ≡ size n
      → IsOnly n key
      → IsUpdate (tree_at (some n) len) (tree_at none (len - 1)) key none
  IsUpdate-only n len key e o = record {
    valid = record { rooted = omega (arith, o.counted) };
    here = refl;
    elsewhere = λ q h. sym (o.elsewhere q h);
    counted = omega (arith, o.counted, o.here);
  }

  abbrev Removes : Tree V → Bytes → Type 0
  Removes t key =
      (t' : Tree V) × (remove_k t key ≡ done (t', contents t key)) × IsUpdate t t' key none

  module _ (p : Bytes) (v : Option V) (kind : Kind) (ks : Kids V) (len : ℕ) where
    abbrev whole : Tree V
    whole = tree_at (some (node p v kind ks)) len

    remove_k_missing : (key : Bytes) → strip p key ≡ none → remove_k whole key ≡ done (whole, none)
    unfolding remove_k
    remove_k_missing key h =
        rw (prefix_length_key-append [] key p, length_at-append [] key, common_test p key, h)

    remove_k_here : remove_k whole p ≡ remove_root (node p v kind ks) len
    unfolding remove_k
    remove_k_here = rw (
      prefix_length_key-append [] p p,
      length_at-append [] p,
      common_test p p,
      strip_self p,
      ==_refl (length p),
    )

    remove_k_below :
        (e : ℕ) (s : Bytes)
        → remove_k whole (p ++ e ∷ s) ≡ (do
          r ← remove_recurse (node p v kind ks) (p ++ e ∷ s) (length p)
          done (
            tree_at (if is_dead r.0 then none else some r.0) (if is_some r.1 then len - 1 else len),
            r.1,
          ))
    unfolding remove_k
    remove_k_below e s = rw (
      prefix_length_key-append [] (p ++ e ∷ s) p,
      length_at-append [] (p ++ e ∷ s),
      common_test p (p ++ e ∷ s),
      strip-below p (e ∷ s),
      length-ne_below p e s,
      common_length-below p (e ∷ s),
    )

    remove_recurse_lem :
        (e : ℕ) (s : Bytes)
        → IsValid (node p v kind ks)
        → (n' : Node V) × (remove_recurse (node p v kind ks) (p ++ e ∷ s) (length p)
            ≡ done (n', lookup (node p v kind ks) (p ++ e ∷ s)))
          × Leaves (is_dead n') (node p v kind ks) n' (p ++ e ∷ s)
    unfolding remove_recurse
    remove_recurse_lem e s w =
        let (r, eq, visit) = remove_kids ks p e s w.2 in
        let (n', eq', l) = take-Visit p v kind ks e s w r visit in
        (n', rw (at_end p e s, eq, eq', lookup_below v kind ks p e s), l)

  -- The root after a removal below it: dropped if nothing is left.
  prune :
      (n n' : Node V) (len : ℕ) (key : Bytes)
      → len ≡ size n
      → Leaves (is_dead n') n n' key
      → IsUpdate
          (tree_at (some n) len)
          (tree_at
            (if is_dead n' then none else some n')
            (if is_some (lookup n key) then len - 1 else len))
          key
          none
  prune n n' len key e l = elim (Bool-cases (is_dead n')) [
    | inl t ↦
        let o : IsOnly n key = subst (λ b. Leaves b n n' key) t l in
        rw (t, found-is_some (lookup n key) o.here) (IsUpdate-only n len key e o)
    | inr f ↦
        let i : IsRemove n n' key = subst (λ b. Leaves b n n' key) f l in
        rw f (
          IsUpdate-remove n n' len key e i (if is_some (lookup n key) then len - 1 else len)
            (one_less (lookup n key) (omega (arith, i.counted))))
  ]

  root_gone :
      (p : Bytes) (v : V) (kind : Kind) (len : ℕ)
      → remove_root (node p (some v) kind nil) len ≡ done (tree_at none (len - 1), some v)
  unfolding remove_root num_children
  root_gone p v empty len = refl
  root_gone p v node4 len = refl
  root_gone p v node16 len = refl
  root_gone p v node48 len = refl
  root_gone p v node256 len = refl

  has_room :
      (kind : Kind) (f : ℕ) (n : Node V) (ks : Kids V) → Fits kind (cons f n ks) → kind ≢ empty
  unfolding capacity num_children
  has_room kind f n ks w z = omega (arith, subst (λ k. num_children (cons f n ks) ≤ capacity k) z w)

  root_kept :
      (p : Bytes) (v : Option V) (kind : Kind) (f : ℕ) (n : Node V) (ks : Kids V) (len : ℕ)
      → kind ≢ empty
      → remove_root (node p v kind (cons f n ks)) len
        ≡ done (whole p none kind (cons f n ks) (if is_some v then len - 1 else len), v)
  unfolding remove_root num_children
  root_kept p v empty f n ks len h = absurd (h refl)
  root_kept p v node4 f n ks len h = ground arith
  root_kept p v node16 f n ks len h = ground arith
  root_kept p v node48 f n ks len h = ground arith
  root_kept p v node256 f n ks len h = ground arith

  pub IsUpdate-refl :
      (t : Tree V) (key : Bytes) → IsValidTree t → contents t key ≡ none → IsUpdate t t key none
  IsUpdate-refl t key v h = record { valid = v; here = h; elsewhere = λ q _. refl; counted = rw h }

  remove_root_lem :
      (p : Bytes) (v : Option V) (kind : Kind) (ks : Kids V) (len : ℕ)
      → IsValid (node p v kind ks)
      → len ≡ size (node p v kind ks)
      → (t' : Tree V) × (remove_root (node p v kind ks) len ≡ done (t', v))
        × IsUpdate (whole p v kind ks len) t' p none
  unfolding remove_root num_children capacity size
  remove_root_lem p (some v) kind nil len w e = (
    tree_at none (len - 1),
    root_gone p v kind len,
    IsUpdate-only (node p (some v) kind nil) len p e (IsOnly-value p v kind),
  )
  remove_root_lem p none kind nil len w e = absurd w.1
  remove_root_lem p v empty (cons f n ks) len w e = absurd (omega (arith, w.0))
  remove_root_lem p (some v) kind (cons f n ks) len w e = (
    tree_at (some (node p none kind (cons f n ks))) (len - 1),
    root_kept p (some v) kind f n ks len (has_room kind f n ks w.0),
    IsUpdate-remove (node p (some v) kind (cons f n ks)) (node p none kind (cons f n ks)) len p e
        (IsRemove-value p v kind f n ks w) (len - 1)
        (rw (lookup_end (some v) _ (cons f n ks) p) (omega arith)),
  )
  remove_root_lem p none kind (cons f n ks) len w e = (
    whole p none kind (cons f n ks) len,
    root_kept p none kind f n ks len (has_room kind f n ks w.0),
    IsUpdate-remove (node p none kind (cons f n ks)) (node p none kind (cons f n ks)) len p e
        (IsRemove-refl (node p none kind (cons f n ks)) p w (lookup_end none kind (cons f n ks) p))
        len (rw (lookup_end none _ (cons f n ks) p) (omega arith)),
  )

  remove_at :
      (root : Option (Node V)) (len : ℕ) (key : Bytes)
      → ValidRoot root len
      → Removes (tree_at root len) key
  unfolding remove_k
  remove_at none len key w =
      (tree_at none len, refl, IsUpdate-refl (tree_at none len) key (record { rooted = w }) refl)
  remove_at (some (node p v kind ks)) len key w = elim (stripped p key) [
    | missing h ↦ (
      whole p v kind ks len,
      rw (remove_k_missing p v kind ks len key h, lookup_missing v kind ks p key h),
      IsUpdate-refl (whole p v kind ks len) key (record { rooted = w })
          (lookup_missing v kind ks p key h),
    )
    | ends h ↦
        let (t', eq, u) = remove_root_lem p v kind ks len w.0 w.1 in
        rw h (t', rw (remove_k_here p v kind ks len, lookup_end v kind ks p) eq, u)
    | goes_on e s h ↦
        let (n', eq, l) = remove_recurse_lem p v kind ks len e s w.0 in
        let n = node p v kind ks in
        rw h (
          tree_at (if is_dead n' then none else some n')
              (if is_some (lookup n (p ++ e ∷ s)) then len - 1 else len),
          rw (remove_k_below p v kind ks len e s, eq),
          prune n n' len (p ++ e ∷ s) w.1 l,
        )
  ]

  -- `remove_k` on a valid tree does not panic. It returns the value that the key had, and leaves a
  -- valid tree that has nothing at the key, reads as before everywhere else, and counts one entry
  -- less exactly if the key was there.
  pub remove_k_lem :
      (t : Tree V) (key : Bytes)
      → IsValidTree t
      → (t' : Tree V) × (remove_k t key ≡ done (t', contents t key)) × IsUpdate t t' key none
  remove_k_lem t key v = remove_at t.root t.len key v.rooted

  -- `delete_k` on a valid tree does not panic, tells whether the key was there, and removes it.
  pub delete_k_lem :
      (t : Tree V) (key : Bytes)
      → IsValidTree t
      → (t' : Tree V) × (delete_k t key ≡ done (t', is_some (contents t key)))
        × IsUpdate t t' key none
  unfolding delete_k
  delete_k_lem t key v = let (t', eq, u) = remove_k_lem t key v in (t', rw eq, u)
