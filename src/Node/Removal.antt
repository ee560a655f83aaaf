-- ===== src/Node/Removal.antt =====
-- Deleting a child (`delete_child` of rart/src/node.rs), by what the node reads before and after it.
use rart_rs.Prelude.{
  ℕ, ◌+◌, ◌≡◌, ◌≢◌, sym, ◌∙◌, Option, none, some, ◌∷◌, ◌++◌, done, arith, ◌⊎◌, inl, inr, eq_or_ne,
}
use rart_rs.Partials.{Bytes}
use rart_rs.Partials.Laws.{stripped, missing, ends, goes_on}
use rart_rs.Node.{Node, node, Kids, nil, cons, Kind, seek, delete, delete_child, prefix_of, kids_of}
use rart_rs.Node.Valid.{IsValid, ValidKids, Fits, IsBytes}
use rart_rs.Node.Lookup.{
  lookup, lookup_kids-seek, lookup_end, lookup_below, lookup_missing, seek-delete_ne,
}
use rart_rs.Node.Size.{size, size_kids-delete, size-trimmed}
use rart_rs.Node.Deletion.{
  trimmed, delete_child_lem, trimmed-IsValid, seek-delete, ValidKids-delete, num_children-delete,
}
use rart_rs.Node.Change.{lookup-trimmed}

module _ {V : Type 0} where
  -- A node `n'` that reads as `n`, less what the child `c` at the edge `k` holds.
  pub record IsWithout (n n' : Node V) (k : ℕ) (c : Node V) : Type 0 where
    -- Below the edge, `n` reads what the child holds, and `n'` nothing.
    pub below : (s : Bytes) → lookup n (prefix_of n ++ k ∷ s) ≡ lookup c (k ∷ s)
    pub gone : (s : Bytes) → lookup n' (prefix_of n ++ k ∷ s) ≡ none
    pub elsewhere :
        (q : Bytes) → ((s : Bytes) → q ≢ prefix_of n ++ k ∷ s) → lookup n' q ≡ lookup n q
    pub counted : size n ≡ size n' + size c
    -- A node with neither value nor child is not valid; it holds nothing.
    pub valid : IsValid n' ⊎ (size n' ≡ 0)

  module _ (p : Bytes) (v : Option V) (kind : Kind) (ks : Kids V) (k : ℕ) (c : Node V)
      (h : seek k ks ≡ some c) (w : IsValid (node p v kind ks)) where
    abbrev without : Node V
    without = trimmed p v kind (delete k ks)

    read_without : (q : Bytes) → lookup without q ≡ lookup (node p v kind (delete k ks)) q
    read_without q = lookup-trimmed p v kind (delete k ks) q (ValidKids-delete k ks w.2)

    without_gone : (s : Bytes) → lookup without (p ++ k ∷ s) ≡ none
    without_gone s = rw (
      read_without (p ++ k ∷ s),
      lookup_below v kind (delete k ks) p k s,
      lookup_kids-seek (delete k ks) k (k ∷ s),
      seek-delete k ks w.2,
    )

    without_elsewhere :
        (q : Bytes)
        → ((s : Bytes) → q ≢ p ++ k ∷ s)
        → lookup without q ≡ lookup (node p v kind ks) q
    without_elsewhere q ne = read_without q ∙ elim (stripped p q) [
      | missing m ↦ lookup_missing v kind (delete k ks) p q m ∙ sym (lookup_missing v kind ks p q m)
      | ends m ↦ rw (m, lookup_end v kind (delete k ks) p, lookup_end v kind ks p)
      | goes_on f t m ↦ elim (eq_or_ne f k) [
        | inl same ↦ absurd (ne t (rw (← same) m))
        | inr other ↦ rw (
          m,
          lookup_below v kind (delete k ks) p f t,
          lookup_below v kind ks p f t,
          lookup_kids-seek (delete k ks) f (f ∷ t),
          lookup_kids-seek ks f (f ∷ t),
          seek-delete_ne k ks f other,
        )
      ]
    ]

    without_counted : size (node p v kind ks) ≡ size without + size c
    unfolding size
    without_counted = omega (arith, size-trimmed p v kind (delete k ks), size_kids-delete k c ks h)

  held_or_nothing :
      (p : Bytes) (v : Option V) (kind : Kind) (ks : Kids V)
      → Fits kind ks
      → ValidKids ks
      → IsBytes p
      → IsValid (trimmed p v kind ks) ⊎ (size (trimmed p v kind ks) ≡ 0)
  unfolding size
  held_or_nothing p none kind nil f w b = inr (size-trimmed p none kind nil)
  held_or_nothing p none kind (cons e n ks) f w b =
      inl (trimmed-IsValid p none kind (cons e n ks) (f, tt, w, b))
  held_or_nothing p (some x) kind ks f w b = inl (trimmed-IsValid p (some x) kind ks (f, tt, w, b))

  -- `delete_child` at the edge of a child of a valid node does not panic. It returns the child, and
  -- the node that is left, shrunk or merged with its only child as it may be, has nothing below the
  -- edge, reads as before everywhere else, has as many values less as the child holds, and is valid
  -- if it holds any.
  pub delete_child-IsWithout :
      (n : Node V) (k : ℕ) (c : Node V)
      → IsValid n
      → seek k (kids_of n) ≡ some c
      → (n' : Node V) × (delete_child k n ≡ done (some c, n')) × IsWithout n n' k c
  delete_child-IsWithout (node p v kind ks) k c w h = (
    trimmed p v kind (delete k ks),
    delete_child_lem k c p v kind ks h w.0,
    record {
      below = λ s. rw (lookup_below v kind ks p k s, lookup_kids-seek ks k (k ∷ s), h);
      gone = without_gone p v kind ks k c h w;
      elsewhere = without_elsewhere p v kind ks k c h w;
      counted = without_counted p v kind ks k c h w;
      valid =
          held_or_nothing p v kind (delete k ks) (omega (arith, num_children-delete k c ks h, w.0))
            (ValidKids-delete k ks w.2) w.3;
    },
  )
