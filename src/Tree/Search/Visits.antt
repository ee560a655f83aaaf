-- ===== src/Tree/Search/Visits.antt =====
-- The visits of the stored prefixes of a key (`prefix_match_for_each_k` and
-- `prefix_match_for_each_impl` of rart/src/tree.rs): the calls of the callback, in order.
pub mod Laws
use rart_rs.Prelude.{
  ℕ, ◌+◌, ◌≡◌, ◌≢◌, refl, Bool, true, false, not, Option, none, some, List, [], ◌∷◌, ◌++◌, ◌==◌,
  if◌then◌else◌, Run, done, ◌>>=◌, length, append_assoc, length-append, arith, ap, inl, inr,
  eq_or_ne, ==_refl, ==-ne, sym, ◌∙◌, take-length_append,
}
use rart_rs.Partials.{Bytes, at, length_at, slice_to, prefix_length_key}
use rart_rs.Partials.Laws.{
  strip, strip_self, strip-below, stripped, missing, ends, goes_on, prefix_length_key-append,
  length_at-append, length-ne_below, at_edge,
}
use rart_rs.Node.{Node, node, Kids, nil, cons, Kind, prefix_of}
use rart_rs.Node.Valid.{IsValid, ValidKids, BeginsWith}
use rart_rs.Node.Lookup.{
  lookup, lookup_kids, lookup_end, lookup_below, lookup_missing, lookup_edge_nil, kids_here,
  kids_there,
}
use rart_rs.Tree.{Tree}
use rart_rs.Tree.Get.{contents}
use rart_rs.Tree.Laws.{IsValidTree, ValidRoot}
use rart_rs.Tree.Remove.Steps.{common_test}

module _ {V : Type 0} where
  -- The slice of the key that is lent, with the value, if there is one.
  unfoldable pub visit : Bytes → ℕ → Option V → Run (List (Bytes × V))
  visit key matched_len none = done []
  visit key matched_len (some v) = do q ← slice_to key matched_len; done ((q, v) ∷ [])

  unfoldable mutual
    pub prefix_match_for_each_impl : Node V → Bytes → ℕ → Run (List (Bytes × V))
    prefix_match_for_each_impl (node p v kind ks) key depth = do
      common ← prefix_length_key p key depth
      if not (common == length p) then done [] else do
        here ← visit key (depth + length p) v
        remaining ← length_at key depth
        if length p == remaining then done here else do
          k ← at key (depth + length p)
          deeper ← prefix_match_for_each_child ks k key (depth + length p)
          done (here ++ deeper)

    pub prefix_match_for_each_child : Kids V → ℕ → Bytes → ℕ → Run (List (Bytes × V))
    prefix_match_for_each_child nil k key depth = done []
    prefix_match_for_each_child (cons e n ks) k key depth = elim (e == k) [
      | true ↦ prefix_match_for_each_impl n key depth
      | false ↦ prefix_match_for_each_child ks k key depth
    ]

  unfoldable pub prefix_match_for_each_k : Tree V → Bytes → Run (List (Bytes × V))
  prefix_match_for_each_k t key = elim t.root [
    | none ↦ done []
    | some root ↦ prefix_match_for_each_impl root key 0
  ]

  abbrev pub entry : Bytes → Option V → List (Bytes × V)
  entry q none = []
  entry q (some v) = (q, v) ∷ []

  -- Every beginning of `rest`, the shortest first, that `f` has a value for, with `pre` before it.
  abbrev pub stored : Bytes → (Bytes → Option V) → Bytes → List (Bytes × V)
  stored pre f [] = entry pre (f [])
  stored pre f (x ∷ r) = entry pre (f []) ++ stored (pre ++ x ∷ []) (λ q. f (x ∷ q)) r
