-- ===== src/Iter/State.antt =====
-- The state of `IterInner`: what it has left to yield, how many rounds of the loop that takes, and what
-- one round may do.
use rart_rs.Prelude.{
  ℕ, suc, ◌+◌, ◌<◌, ◌≤◌, ◌≡◌, Option, none, some, List, [], ◌∷◌, ◌++◌, length, take, Run, done,
  if◌then◌else◌,
}
use rart_rs.Partials.{Bytes}
use rart_rs.Node.{Node, node, Kids, nil, cons}
use rart_rs.Node.Valid.{ValidKids}
use rart_rs.Iter.{Bound, IterFrameIter, plain, leading, IterInner, Round, ended, again, found}
use rart_rs.Iter.Order.{meets}
use rart_rs.Iter.Entries.{under, entries_kids}

module _ {V : Type 0} where
  abbrev pub frame_kids : IterFrameIter V → Kids V
  frame_kids (plain ks) = ks
  frame_kids (leading none rest) = rest
  frame_kids (leading (some (e, n)) rest) = cons e n rest

  -- What the frames yield below the keys that `cur` holds, start bound aside.
  unfoldable pub stack_entries : List (ℕ × IterFrameIter V) → Bytes → List (Bytes × V)
  stack_entries [] cur = []
  stack_entries ((depth, f) ∷ stack) cur =
      under (take depth cur) (entries_kids (frame_kids f)) ++ stack_entries stack (take depth cur)

  -- The entries from the first that meets the start bound on.
  abbrev pub skip : Option Bound → List (Bytes × V) → List (Bytes × V)
  skip none l = l
  skip (some b) [] = []
  skip (some b) ((k, v) ∷ l) = if meets b k then (k, v) ∷ l else skip (some b) l

  abbrev pub remaining : IterInner V → List (Bytes × V)
  remaining it = skip it.start_bound (stack_entries it.node_iter_stack it.cur_key)

  -- A round for each child, and one for the end of its children.
  unfoldable mutual
    pub rounds : Node V → ℕ
    rounds (node p v kind ks) = suc (rounds_kids ks)

    pub rounds_kids : Kids V → ℕ
    rounds_kids nil = 1
    rounds_kids (cons e n ks) = rounds n + rounds_kids ks

  unfoldable pub rounds_stack : List (ℕ × IterFrameIter V) → ℕ
  unfolding rounds
  rounds_stack [] = 0
  rounds_stack ((depth, f) ∷ stack) = rounds_kids (frame_kids f) + rounds_stack stack

  -- Depths fall toward the bottom of the stack, from the length of the key that is held.
  abbrev pub Nested : List (ℕ × IterFrameIter V) → ℕ → Type 0
  Nested [] len = Unit
  Nested ((depth, f) ∷ stack) len = (depth ≤ len) × ValidKids (frame_kids f) × Nested stack depth

  abbrev pub Sound : IterInner V → Type 0
  Sound it = Nested it.node_iter_stack (length it.cur_key)

  -- How a round ends before which `l` was left to yield and `n` rounds were left.
  pub data Progress (r : Run (Round V)) (l : List (Bytes × V)) (n : ℕ) : Type 0 where
    ends : r ≡ done ended → l ≡ [] → Progress r l n
    goes :
        (it' : IterInner V)
        → r ≡ done (again it')
        → l ≡ remaining it'
        → rounds_stack it'.node_iter_stack < n
        → Sound it'
        → Progress r l n
    yields :
        (k : Bytes) (v : V) (it' : IterInner V)
        → r ≡ done (found k v it')
        → l ≡ (k, v) ∷ remaining it'
        → rounds_stack it'.node_iter_stack < n
        → Sound it'
        → Progress r l n
