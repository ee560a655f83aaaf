-- ===== src/Node.antt =====
-- Inner and leaf nodes (rart/src/node.rs). `Content` is a kind and the children: what the four
-- mappings hold, as a list of edges and nodes in the order in which they are iterated.
pub mod Valid
pub mod Children
pub mod Deletion
pub mod Lookup
pub mod Size
pub mod Change
pub mod Removal
use rart_rs.Prelude.{
  ℕ, zero, suc, ◌+◌, ◌<◌, ◌≤◌, Bool, true, false, Option, none, some, List, [], ◌∷◌, ◌++◌, leb, ltb,
  ◌==◌, if◌then◌else◌, Run, done, panic, ◌>>=◌, ◌>>◌, check, unwrap,
}
use rart_rs.Partials.{Bytes, partial_extended_with}

-- The tags of `enum Content`.
pub data Kind : Type 0 where
  empty node4 node16 node48 node256 : Kind

mutual
  -- `DefaultNode`: its prefix, its value, and its content.
  pub data Node (V : Type 0) : Type 0 where
    node : Bytes → Option V → Kind → Kids V → Node V

  pub data Kids (V : Type 0) : Type 0 where
    nil : Kids V
    cons : ℕ → Node V → Kids V → Kids V

module _ {V : Type 0} where
  abbrev pub prefix_of : Node V → Bytes
  prefix_of (node p v kind kids) = p

  abbrev pub value_of : Node V → Option V
  value_of (node p v kind kids) = v

  abbrev pub kind_of : Node V → Kind
  kind_of (node p v kind kids) = kind

  abbrev pub kids_of : Node V → Kids V
  kids_of (node p v kind kids) = kids

  unfoldable pub new_leaf : Bytes → V → Node V
  new_leaf partial value = node partial (some value) empty nil

  unfoldable pub new_inner : Bytes → Node V
  new_inner prefix = node prefix none node4 nil

  abbrev pub with_value : V → Node V → Node V
  with_value v (node p _ kind kids) = node p (some v) kind kids

  abbrev pub with_prefix : Bytes → Node V → Node V
  with_prefix p (node _ v kind kids) = node p v kind kids

  unfoldable pub num_children : Kids V → ℕ
  num_children nil = 0
  num_children (cons e n ks) = suc (num_children ks)

  -- `NodeMapping::seek_child`.
  unfoldable pub seek : ℕ → Kids V → Option (Node V)
  seek k nil = none
  seek k (cons e n ks) = if e == k then some n else seek k ks

  -- `NodeMapping::add_child`: before the first greater edge.
  unfoldable pub add : ℕ → Node V → Kids V → Kids V
  add k c nil = cons k c nil
  add k c (cons e n ks) = if ltb k e then cons k c (cons e n ks) else cons e n (add k c ks)

  -- `NodeMapping::delete_child`, the mapping that is left.
  unfoldable pub delete : ℕ → Kids V → Kids V
  delete k nil = nil
  delete k (cons e n ks) = if e == k then ks else cons e n (delete k ks)

  -- A child that was changed in place through `seek_child_mut`.
  unfoldable pub set_child : ℕ → Node V → Kids V → Kids V
  set_child k c nil = nil
  set_child k c (cons e n ks) = if e == k then cons e c ks else cons e n (set_child k c ks)

abbrev pub is_leaf : Kind → Bool
is_leaf empty = true
is_leaf _ = false

unfoldable pub capacity : Kind → ℕ
capacity empty = 0
capacity node4 = 4
capacity node16 = 16
capacity node48 = 48
capacity node256 = 256

unfoldable pub is_full : Kind → ℕ → Run Bool
unfolding capacity
is_full empty n = panic
is_full kind n = done (leb (capacity kind) n)

unfoldable pub grow : Kind → Run Kind
grow empty = panic
grow node4 = done node16
grow node16 = done node48
grow node48 = done node256
grow node256 = panic

-- An empty node is promoted before a child is added.
abbrev pub promote : Kind → Kind
promote empty = node4
promote kind = kind

unfoldable pub room_for : Kind → ℕ → Run Kind
unfolding is_full grow
room_for kind n = do
  full ← is_full (promote kind) n
  if full then grow (promote kind) else done (promote kind)

-- The test after which `delete_child` shrinks a node.
unfoldable pub is_sparse : Kind → ℕ → Bool
is_sparse empty n = false
is_sparse node4 n = n == 1
is_sparse node16 n = ltb n 5
is_sparse node48 n = ltb n 17
is_sparse node256 n = ltb n 49

module _ {V : Type 0} where
  unfoldable pub add_child : ℕ → Node V → Node V → Run (Node V)
  unfolding room_for num_children add
  add_child k c (node p v kind ks) = do
    kind' ← room_for kind (num_children ks)
    done (node p v kind' (add k c ks))

  -- `take_value_for_leaf`, and the collapse of the only child into its parent.
  unfoldable pub collapse : Bytes → Kids V → Run (Node V)
  collapse p (cons e (node q w kind ks) nil) = done (node (partial_extended_with p q) w kind ks)
  collapse p _ = panic

  unfoldable pub shrink : Node V → Run (Node V)
  unfolding collapse
  shrink (node p v empty ks) = panic
  shrink (node p none node4 ks) = collapse p ks
  shrink (node p (some v) node4 ks) = done (node p (some v) node4 ks)
  shrink (node p v node16 ks) = done (node p v node4 ks)
  shrink (node p v node48 ks) = done (node p v node16 ks)
  shrink (node p v node256 ks) = done (node p v node48 ks)

  -- The child that was deleted, and the node that is left.
  unfoldable pub delete_child : ℕ → Node V → Run (Option (Node V) × Node V)
  unfolding shrink is_sparse num_children seek delete
  delete_child k (node p v empty ks) = panic
  delete_child k (node p v kind ks) =
      let rest = node p v kind (delete k ks) in
      let found = seek k ks in
      if is_sparse kind (num_children (delete k ks))
      then (do smaller ← shrink rest; done (found, smaller))
      else done (found, rest)
