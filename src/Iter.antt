-- ===== src/Iter.antt =====
-- Iteration over a node in the order of the keys (`Iter` and `IterInner` of rart/src/iter.rs) and over
-- a range of keys (rart/src/range.rs). A loop takes one unit of fuel for each round; Iter/Rounds has the
-- count that is enough.
pub mod Entries
pub mod Order
pub mod State
pub mod Rounds
pub mod Yields
pub mod Find
pub mod Sorted
pub mod Laws
pub mod Parts
pub mod Prefixes
pub mod Bounds
pub mod Filters
pub mod Position
pub mod Starts
pub mod Ranges
pub mod Lending
use Prim.Native.Nat.{compare, Ordering}
use rart_rs.Prelude.{
  ℕ, zero, suc, ◌+◌, min, Bool, true, false, Option, none, some, List, [], ◌∷◌, ◌++◌, length, take,
  if◌then◌else◌, Run, done, panic, ◌>>=◌, unwrap, ltb, leb, ◌==◌,
}
use rart_rs.Partials.{Bytes, at, length_at, prefix_length_key}
use rart_rs.Node.{Node, node, Kids, nil, cons, is_leaf, prefix_of, value_of, kind_of, kids_of}

-- `std::ops::Bound` of a key.
pub data Bound : Type 0 where
  included : Bytes → Bound
  excluded : Bytes → Bound
  unbounded : Bound

unfoldable pub key_order_loop : ℕ → Bytes → Bytes → ℕ → Ordering → Run Ordering
key_order_loop zero lhs rhs i lens = done lens
key_order_loop (suc rest) lhs rhs i lens = do
  a ← at lhs i
  b ← at rhs i
  elim (compare a b) [ Ordering.eq ↦ key_order_loop rest lhs rhs (suc i) lens | ord ↦ done ord ]

unfoldable pub key_order : Bytes → Bytes → Run Ordering
unfolding key_order_loop
key_order lhs rhs = do
  lhs_len ← length_at lhs 0
  rhs_len ← length_at rhs 0
  key_order_loop (min lhs_len rhs_len) lhs rhs 0 (compare lhs_len rhs_len)

-- `>= Ordering::Equal` and `> Ordering::Equal`.
abbrev pub at_least : Ordering → Bool
at_least Ordering.lt = false
at_least _ = true

abbrev pub is_above : Ordering → Bool
is_above Ordering.gt = true
is_above _ = false

unfoldable pub satisfies_start : Bound → Bytes → Run Bool
unfolding key_order
satisfies_start (included start_key) key = do o ← key_order key start_key; done (at_least o)
satisfies_start (excluded start_key) key = do o ← key_order key start_key; done (is_above o)
satisfies_start unbounded key = done true

-- The test of the start bound, which is dropped once a key satisfies it.
unfoldable pub passes : Option Bound → Bytes → Run Bool
unfolding satisfies_start
passes none key = done true
passes (some b) key = satisfies_start b key

module _ {V : Type 0} where
  -- `NodeIter::next` on the children.
  unfoldable pub kids_next : Kids V → Option (ℕ × Node V) × Kids V
  kids_next nil = (none, nil)
  kids_next (cons e n ks) = (some (e, n), ks)

pub data IterFrameIter (V : Type 0) : Type 0 where
  plain : Kids V → IterFrameIter V
  leading : Option (ℕ × Node V) → Kids V → IterFrameIter V

pub record IterInner (V : Type 0) : Type 0 where
  pub node_iter_stack : List (ℕ × IterFrameIter V)
  pub cur_key : Bytes
  pub start_bound : Option Bound

-- How a round of the loop of `IterInner::next` ends.
pub data Round (V : Type 0) : Type 0 where
  ended : Round V
  again : IterInner V → Round V
  found : Bytes → V → IterInner V → Round V

module _ {V : Type 0} where
  unfoldable pub frame_next : IterFrameIter V → Option (ℕ × Node V) × IterFrameIter V
  unfolding kids_next
  frame_next (plain ks) = let r = kids_next ks in (r.0, plain r.1)
  frame_next (leading (some entry) rest) = (some entry, leading none rest)
  frame_next (leading none rest) = let r = kids_next rest in (r.0, leading none r.1)

  -- The key of the parent, when its children are done.
  unfoldable pub truncate_to_parent : List (ℕ × IterFrameIter V) → Bytes → Bytes
  truncate_to_parent [] cur = cur
  truncate_to_parent ((parent_depth, f) ∷ stack) cur = take parent_depth cur

  unfoldable pub offer :
      Option V → Bool → ℕ → Bytes → List (ℕ × IterFrameIter V) → Option Bound → Run (Round V)
  unfolding passes
  offer none leaf depth key stack bound = done (
      again (record {
        node_iter_stack = stack;
        cur_key = if leaf then take depth key else key;
        start_bound = bound;
      }))
  offer (some v) leaf depth key stack bound = do
    ok ← passes bound key
    done (
        if ok
        then found key v (record { node_iter_stack = stack; cur_key = key; start_bound = none })
        else again (record { node_iter_stack = stack; cur_key = key; start_bound = bound }))

  unfoldable pub round_child :
      ℕ
      → Option (ℕ × Node V) × IterFrameIter V
      → List (ℕ × IterFrameIter V)
      → Bytes
      → Option Bound
      → Run (Round V)
  unfolding offer truncate_to_parent
  round_child depth (none, f) stack cur bound = done (
      again (record {
        node_iter_stack = stack;
        cur_key = truncate_to_parent stack cur;
        start_bound = bound;
      }))
  round_child depth (some (k, node p v kind ks), f) stack cur bound =
      offer v (is_leaf kind) depth (cur ++ p)
        (if is_leaf kind
          then (depth, f) ∷ stack
          else (depth + length p, plain ks) ∷ (depth, f) ∷ stack)
        bound

  unfoldable pub round_on : List (ℕ × IterFrameIter V) → Bytes → Option Bound → Run (Round V)
  unfolding round_child frame_next
  round_on [] cur bound = done ended
  round_on ((depth, f) ∷ stack) cur bound =
      round_child depth (frame_next f) stack (take depth cur) bound

  unfoldable pub round : IterInner V → Run (Round V)
  unfolding round_on
  round it = round_on it.node_iter_stack it.cur_key it.start_bound

  unfoldable pub next : ℕ → IterInner V → Run (Option (Bytes × V) × IterInner V)
  unfolding round
  next zero it = panic
  next (suc fuel) it = do
    r ← round it
    elim r [
      | ended ↦ done (none, it)
      | again it' ↦ next fuel it'
      | found key v it' ↦ done (some (key, v), it')
    ]

  unfoldable pub from_node_and_key : Node V → Bytes → Run (IterInner V)
  from_node_and_key n cur_key = do
    depth ← length_at cur_key 0
    done (record {
      node_iter_stack = (depth, plain (kids_of n)) ∷ [];
      cur_key = cur_key;
      start_bound = none;
    })

  -- The first child at the target byte or above it, with those after it.
  unfoldable pub position : ℕ → Kids V → Option (IterFrameIter V)
  position target nil = none
  position target (cons k child ks) =
      if ltb k target then position target ks else some (leading (some (k, child)) ks)

  abbrev pub framed : ℕ → Option (IterFrameIter V) → List (ℕ × IterFrameIter V)
  framed depth none = []
  framed depth (some f) = (depth, f) ∷ []

  unfoldable pub build_positioned_stack : Node V → Bytes → ℕ → Run (List (ℕ × IterFrameIter V))
  unfolding position
  build_positioned_stack (node p v kind ks) seek_key depth = do
    let whole = (length p, plain ks) ∷ []
    prefix_common ← prefix_length_key p seek_key depth
    seek_remaining ← length_at seek_key depth
    if prefix_common == length p
        then (if seek_remaining == length p then done whole else (do
          target_byte ← at seek_key (depth + length p)
          done (framed (length p) (position target_byte ks))))
        else if leb seek_remaining prefix_common
        then done whole
        else do
          node_byte ← at p prefix_common
          seek_byte ← at seek_key (depth + prefix_common)
          done (if ltb node_byte seek_byte then [] else whole)

  unfoldable pub inner_with_start_bound : Node V → Bound → Run (IterInner V)
  unfolding build_positioned_stack
  inner_with_start_bound n (included key) = do
    stack ← build_positioned_stack n key 0
    done (record {
      node_iter_stack = stack;
      cur_key = prefix_of n;
      start_bound = some (included key);
    })
  inner_with_start_bound n (excluded key) = do
    stack ← build_positioned_stack n key 0
    done (record {
      node_iter_stack = stack;
      cur_key = prefix_of n;
      start_bound = some (excluded key);
    })
  inner_with_start_bound n unbounded = done (record {
    node_iter_stack = (length (prefix_of n), plain (kids_of n)) ∷ [];
    cur_key = prefix_of n;
    start_bound = none;
  })

-- What is behind the box of `Iter`: nothing, one entry, or the children, perhaps after the root.
pub data Iter (V : Type 0) : Type 0 where
  empty : Iter V
  once : Bytes × V → Iter V
  chain : Option (Bytes × V) → IterInner V → Iter V

module _ {V : Type 0} where
  unfoldable pub iter_next : ℕ → Iter V → Run (Option (Bytes × V) × Iter V)
  unfolding next
  iter_next fuel empty = done (none, empty)
  iter_next fuel (once x) = done (some x, empty)
  iter_next fuel (chain (some x) children) = done (some x, chain none children)
  iter_next fuel (chain none children) = do r ← next fuel children; done (r.0, chain none r.1)

  abbrev pub with_key : Bytes → Option V → Option (Bytes × V)
  with_key key none = none
  with_key key (some v) = some (key, v)

  unfoldable pub new_with_prefix : Option (Node V) → Bytes → Run (Iter V)
  unfolding from_node_and_key
  new_with_prefix none root_key = done empty
  new_with_prefix (some n) root_key =
      if is_leaf (kind_of n) then (do v ← unwrap (value_of n); done (once (root_key, v))) else (do
        children ← from_node_and_key n root_key
        done (chain (with_key root_key (value_of n)) children))

  unfoldable pub iter_new : Option (Node V) → Run (Iter V)
  unfolding new_with_prefix
  iter_new none = done empty
  iter_new (some n) = new_with_prefix (some n) (prefix_of n)

  unfoldable pub new_with_start_bound : Option (Node V) → Bound → Run (Iter V)
  unfolding satisfies_start inner_with_start_bound
  new_with_start_bound none start_bound = done empty
  new_with_start_bound (some n) start_bound = do
    ok ← satisfies_start start_bound (prefix_of n)
    if is_leaf (kind_of n)
        then (if ok then (do v ← unwrap (value_of n); done (once (prefix_of n, v))) else done empty)
        else (do
          children ← inner_with_start_bound n start_bound
          done (chain (if ok then with_key (prefix_of n) (value_of n) else none) children))

-- A `for` loop over an iterator: the items up to the first `None`.
unfoldable pub collect {ℓ} : {S A : Type ℓ} → (S → Run (Option A × S)) → ℕ → S → Run (List A)
collect step zero s = panic
collect step (suc fuel) s = do
  r ← step s
  elim r.0 [ none ↦ done [] | some a ↦ (do rest ← collect step fuel r.1; done (a ∷ rest)) ]
