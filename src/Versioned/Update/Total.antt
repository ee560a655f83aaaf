-- ===== src/Versioned/Update/Total.antt =====
-- `update_recurse` of the versioned tree on a valid node: whatever is shared it does not panic, and
-- the node that it leaves has the value at the key that the callback asks for.
use rart_rs.Prelude.{
  ℕ, ◌+◌, ◌<◌, ◌≤◌, ◌≡◌, ◌≢◌, Bool, true, Option, none, some, ◌∷◌, ◌++◌, arith, length, eq_or_ne,
  inl, inr, Bool-cases, Option-cases, append_assoc, length-append, subst, eq_of_some, ==_refl,
  ==-ne,
}
use rart_rs.Partials.{Bytes}
use rart_rs.Partials.Laws.{
  align, same, below, above, fork, strip-above, strip-fork, prefix_length_key-append,
  length_at-append, common_length-above, common_length-fork,
}
use rart_rs.Node.{node, Kind, empty, node4, is_leaf}
use rart_rs.Node.Valid.{IsValid, ValidKids, IsBytes, IsBytes-right}
use rart_rs.Node.Lookup.{lookup, lookup_kids-seek, lookup_end, lookup_below, lookup_missing}
use rart_rs.Tree.Insert.Splits.{IsInsert-above, IsInsert-fork}
use rart_rs.Tree.Insert.Steps.{above_tests, fork_test}
use rart_rs.Tree.Remove.Effect.{IsAssign-value}
use rart_rs.Tree.Update.Effect.{IsAssign-insert}
use rart_rs.Versioned.{VersionedNode, versioned, Children, end, more, seek_child, add}
use rart_rs.Versioned.Plain.{
  plain, plain_kids, plain_kids-add, IsUpTo, IsUpToKids, IsUpToKids-add, owned_lem,
}
use rart_rs.Versioned.Replace.{child_present, childless}
use rart_rs.Versioned.Update.{SlotCallback, update_recurse, update_here, set_value, append_leaf}
use rart_rs.Versioned.Update.Effect.{
  after, changes, occupied_lem, split_above_done, split_fork_done,
}
use rart_rs.Versioned.Update.Steps.{
  Updates, update_child-seek_child, vacant, earlier, up_to, here_step, below_step, Updates-new,
  settles,
}

module _ {V : Type 0} (shared : VersionedNode V → Bool) (u : SlotCallback V) (m target : ℕ)
    (later : m < target) where
  abbrev Updated : VersionedNode V → Bytes → Bytes → Type 0
  Updated n pre rest = Updates shared u m target later n pre rest

  module _ (v : Option V) (kind : Kind) (ks : Children V) (created : ℕ) (pre : Bytes)
      (up : (created ≤ m) × IsUpToKids m ks) where
    Updates-above :
        (rest : Bytes) (e : ℕ) (q : Bytes)
        → IsValid (node (rest ++ e ∷ q) v kind (plain_kids ks))
        → Updated (versioned (rest ++ e ∷ q) v kind ks created) pre rest
    unfolding update_recurse
    Updates-above rest e q w =
        let (t, s, l) = above_tests rest e q in
        let gone =
          lookup_missing v kind (plain_kids ks) (rest ++ e ∷ q) rest (strip-above rest e q) in
        rw
          (
            prefix_length_key-append pre rest (rest ++ e ∷ q),
            length_at-append pre rest,
            common_length-above rest (e ∷ q),
            t,
            s,
            l,
          )
          (vacant shared u m target later (versioned (rest ++ e ∷ q) v kind ks created) rest _ gone
            (λ value. (
              versioned rest (some value) node4 (more e (versioned (e ∷ q) v kind ks target) end)
                  target,
              split_above_done v kind ks created target value rest e q,
              IsAssign-insert (node (rest ++ e ∷ q) v kind (plain_kids ks)) _ rest value gone
                  (IsInsert-above v kind (plain_kids ks) value true rest e q w),
              (
                omega arith,
                ((omega arith, up_to shared u m target later rest v kind ks created pre up), tt),
              ),
            )))

    Updates-fork :
        (c : Bytes) (a b : ℕ) (q s : Bytes)
        → a ≢ b
        → IsValid (node (c ++ a ∷ q) v kind (plain_kids ks))
        → IsBytes (b ∷ s)
        → Updated (versioned (c ++ a ∷ q) v kind ks created) pre (c ++ b ∷ s)
    unfolding update_recurse
    Updates-fork c a b q s ne w bs =
        let gone =
          lookup_missing v kind (plain_kids ks) (c ++ a ∷ q) (c ++ b ∷ s)
            (strip-fork c a b q s ne) in
        let rest_of = versioned (a ∷ q) v kind ks target in
        rw
          (
            prefix_length_key-append pre (c ++ b ∷ s) (c ++ a ∷ q),
            length_at-append pre (c ++ b ∷ s),
            common_length-fork c a b q s ne,
            fork_test c a b q s,
          )
          (vacant shared u m target later (versioned (c ++ a ∷ q) v kind ks created) (c ++ b ∷ s) _
            gone
            (λ value.
              let leaf = versioned (b ∷ s) (some value) empty end target in
              (
                versioned c none node4 (add b leaf (more a rest_of end)) target,
                split_fork_done v kind ks created target value pre c a b q s,
                rw (plain_kids-add b leaf (more a rest_of end)) (
                    IsAssign-insert (node (c ++ a ∷ q) v kind (plain_kids ks)) _ (c ++ b ∷ s) value
                      gone (IsInsert-fork v kind (plain_kids ks) value true c a b q s ne w bs)),
                (
                  omega arith,
                  IsUpToKids-add target b leaf (more a rest_of end) (omega arith, tt)
                      ((omega arith, up_to shared u m target later c v kind ks created pre up), tt),
                ),
              )))

  Updates-same :
      (p : Bytes) (v : Option V) (kind : Kind) (ks : Children V) (created : ℕ) (pre : Bytes)
      → (created ≤ m) × IsUpToKids m ks
      → IsValid (node p v kind (plain_kids ks))
      → Updated (versioned p v kind ks created) pre p
  unfolding update_here set_value
  Updates-same p (some old) kind ks created pre up w =
      let early = earlier shared u m target later p (some old) kind ks created pre up in
      rw
        (
          here_step shared u m target later p (some old) kind ks created pre up,
          owned_lem shared p (some old) kind ks created target early,
          lookup_end (some old) kind (plain_kids ks) p,
        )
        (occupied_lem m target later p old kind ks created (u.occupied old) w
          (up_to shared u m target later p (some old) kind ks created pre up))
  Updates-same p none kind ks created pre up w =
      let early = earlier shared u m target later p none kind ks created pre up in
      rw (here_step shared u m target later p none kind ks created pre up) (
        vacant shared u m target later (versioned p none kind ks created) p _
          (lookup_end none kind (plain_kids ks) p)
          (λ value. (
            versioned p (some value) kind ks target,
            rw (owned_lem shared p none kind ks created target early),
            IsAssign-value p none (some value) kind (plain_kids ks) w tt,
            (omega arith, up_to shared u m target later p none kind ks created pre up),
          )))

  Updates-below :
      (p : Bytes) (v : Option V) (kind : Kind) (ks : Children V) (created : ℕ) (pre : Bytes)
      → (created ≤ m) × IsUpToKids m ks
      → (e : ℕ) (s : Bytes) → IsValid (node p v kind (plain_kids ks))
      → IsBytes (e ∷ s)
      → ((c : VersionedNode V) → seek_child e ks ≡ some c → Updated c (pre ++ p) (e ∷ s))
      → Updated (versioned p v kind ks created) pre (p ++ e ∷ s)
  Updates-below p v kind ks created pre up e s w bs visit = elim (Option-cases (seek_child e ks)) [
    | inl h ↦ Updates-new shared u m target later p v kind ks created pre up e s w bs h
    | inr (c, h) ↦ elim (Bool-cases (is_leaf kind)) [
      | inl leaf ↦ let gone = childless e p v kind ks leaf w in cc
      | inr inner ↦
          let (o, eq, b) = visit c h in
          let (o', eq', b') =
            settles shared u m target later p v kind ks created pre up e s c o
              (after u (lookup (plain c) (e ∷ s))) (changes u (lookup (plain c) (e ∷ s)))
              (λ value.
                append_leaf shared u target (versioned p v kind ks created) e (pre ++ (p ++ e ∷ s))
                  value (length pre + length p))
              w h b in
          rw
            (
              lookup_below v kind (plain_kids ks) p e s,
              lookup_kids-seek (plain_kids ks) e (e ∷ s),
              child_present e ks c h,
            )
            (
              o',
              rw (
                below_step shared u m target later p v kind ks created pre up e s inner,
                update_child-seek_child shared u m target later ks e (pre ++ (p ++ e ∷ s))
                    (length pre + length p),
                h,
                rw (append_assoc, length-append pre p) at eq,
                eq',
              ),
              b',
            )
    ]
  ]

  mutual
    unfolding update_recurse seek_child

    pub update_node :
        (n : VersionedNode V) (pre rest : Bytes)
        → IsValid (plain n)
        → IsUpTo m n
        → IsBytes rest
        → Updated n pre rest
    update_node (versioned p v kind ks created) pre rest w up bs = elim (align p rest) [
      | same h ↦ rw h (Updates-same p v kind ks created pre up w)
      | above e q h ↦ rw h (Updates-above v kind ks created pre up rest e q (rw h at w))
      | fork c a b q s ne h h' ↦
          rw (h, h')
            (Updates-fork v kind ks created pre up c a b q s ne (rw h at w)
              (IsBytes-right c (b ∷ s) (rw h' at bs)))
      | below e s h ↦
          let tail = IsBytes-right p (e ∷ s) (rw h at bs) in
          rw h (
            Updates-below p v kind ks created pre up e s w tail
              (λ c t. update_kids ks (pre ++ p) e s w.2 up.1 tail c t))
    ]

    update_kids :
        (ks : Children V) (pre : Bytes) (e : ℕ) (s : Bytes)
        → ValidKids (plain_kids ks)
        → IsUpToKids m ks
        → IsBytes (e ∷ s)
        → (c : VersionedNode V) → seek_child e ks ≡ some c
        → Updated c pre (e ∷ s)
    update_kids end pre e s w up bs c h = cc
    update_kids (more f n ks) pre e s w up bs c h = elim (eq_or_ne f e) [
      | inl t ↦
          subst (λ x. Updated x pre (e ∷ s)) (eq_of_some n c (rw (t, ==_refl e) at h))
            (update_node n pre (e ∷ s) w.2 up.0 bs)
      | inr ne ↦ update_kids ks pre e s w.4 up.1 bs c (rw (==-ne f e ne) at h)
    ]
