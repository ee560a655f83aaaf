-- ===== src/Tree/Get.antt =====
-- `get_k` reads the map that the tree stands for.
use rart_rs.Prelude.{
  ℕ, ◌≡◌, refl, Option, none, some, [], ◌∷◌, ◌++◌, append_assoc, done, arith, length, length-append,
  ==_refl,
}
use rart_rs.Partials.{Bytes}
use rart_rs.Partials.Laws.{
  strip, strip_self, strip-below, at_edge, missing, ends, goes_on, stripped, length-ne_below,
  slice_from-append, prefix_length_slice-strip,
}
use rart_rs.Node.{Node, node, Kids, nil, cons, Kind}
use rart_rs.Node.Lookup.{lookup, lookup_kids}
use rart_rs.Tree.{Tree, get_bytes_iterate, get_bytes_child, get_k}

module _ {V : Type 0} (v : Option V) (kind : Kind) (ks : Kids V) where
  get_missing :
      (pre p rest : Bytes)
      → strip p rest ≡ none
      → get_bytes_iterate (node p v kind ks) (pre ++ rest) (length pre) ≡ done none
  unfolding get_bytes_iterate
  get_missing pre p rest h = rw (slice_from-append pre rest, prefix_length_slice-strip p rest, h)

  get_here : (pre p : Bytes) → get_bytes_iterate (node p v kind ks) (pre ++ p) (length pre) ≡ done v
  unfolding get_bytes_iterate
  get_here pre p =
      rw (slice_from-append pre p, prefix_length_slice-strip p p, strip_self p, ==_refl (length p))

  get_below :
      (pre p : Bytes) (e : ℕ) (s : Bytes)
      → get_bytes_iterate (node p v kind ks) (pre ++ (p ++ e ∷ s)) (length pre)
        ≡ get_bytes_child ks e ((pre ++ p) ++ e ∷ s) (length (pre ++ p))
  unfolding get_bytes_iterate
  get_below pre p e s = rw (
    slice_from-append pre (p ++ e ∷ s),
    prefix_length_slice-strip p (p ++ e ∷ s),
    strip-below p (e ∷ s),
    length-ne_below p e s,
    at_edge pre p e s,
    append_assoc,
    length-append,
  )

mutual
  unfolding get_bytes_iterate lookup

  get_node_lem :
      {V : Type 0} (n : Node V) (pre rest : Bytes)
      → get_bytes_iterate n (pre ++ rest) (length pre) ≡ done (lookup n rest)
  get_node_lem (node p v kind ks) pre rest = elim (stripped p rest) [
    | missing h ↦ rw h (get_missing v kind ks pre p rest h)
    | ends h ↦ rw (h, strip_self p) (get_here v kind ks pre p)
    | goes_on e s h ↦
        rw (h, strip-below p (e ∷ s), get_below v kind ks pre p e s)
          (get_child_lem ks (pre ++ p) e (e ∷ s))
  ]

  get_child_lem :
      {V : Type 0} (ks : Kids V) (pre : Bytes) (k : ℕ) (rest : Bytes)
      → get_bytes_child ks k (pre ++ rest) (length pre) ≡ done (lookup_kids ks k rest)
  get_child_lem nil pre k rest = refl
  get_child_lem (cons e n ks) pre k rest =
      ground (arith, get_node_lem n pre rest, get_child_lem ks pre k rest)

-- `get_bytes_iterate` never reads out of range, and reads what the node stands for.
pub get_node-eq-lookup :
    {V : Type 0} (n : Node V) (key : Bytes) → get_bytes_iterate n key 0 ≡ done (lookup n key)
get_node-eq-lookup n key = get_node_lem n [] key

-- The map that a tree stands for.
abbrev pub contents : {V : Type 0} → Tree V → Bytes → Option V
contents t key = elim t.root [ none ↦ none | some root ↦ lookup root key ]

-- `get_k` never panics, and returns what the tree stands for.
pub get_k-eq-contents :
    {V : Type 0} (t : Tree V) (key : Bytes) → get_k t key ≡ done (contents t key)
unfolding get_k
get_k-eq-contents {V} t key = ground (arith, get_root t.root key)
  where
    get_root :
        (root : Option (Node V)) (key' : Bytes)
        → (elim root [ none ↦ done none | some n ↦ get_bytes_iterate n key' 0 ])
          ≡ done (elim root [ none ↦ none | some n ↦ lookup n key' ])
    get_root none key' = refl
    get_root (some n) key' = get_node-eq-lookup n key'
